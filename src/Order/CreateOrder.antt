-- ===== src/Order/CreateOrder.antt =====
-- `CreateOrder` of internal/order/handler.go. What the JSON decoder makes of the body is an
-- argument (the child Decoding gives it), as are the id that uuid.New draws and the table of unicode.ToUpper.
pub mod Checks
pub mod Decoding
pub mod Laws
pub mod OutOfRange
use investment_engine.Prelude.{
  ℕ, ℤ, pos, leb_ℤ, Bool, true, false, ◌&&◌, not, Option, none, some, List, [], ◌∷◌, ◌++◌, String,
  Text, text_eq, if◌then◌else◌,
}
use investment_engine.GoError.{GoError}
use investment_engine.Result.{Result, ok, err}
use investment_engine.Float64.{Float64}
use investment_engine.Strings.{to_upper, trim_space, is_upper_letter, is_digit}
use investment_engine.Http.{
  FieldError, Response, order, write, code_validation, code_unauthorized, code_payload_too_large,
  user_id_from_context,
}
use investment_engine.Order.Model.{
  Uuid, Order, execution_limit, execution_market, status_pending, is_valid_side,
  is_valid_execution_type,
}
use investment_engine.Order.Event.{is_missing_or_nonpositive, is_set, new_order_created_event}
use investment_engine.Order.Api.{OrderStore, EventPublisher, State, order_response, internal_error}

pub record CreateOrderRequest : Type 0 where
  pub asset_symbol : Text
  pub quantity : ℤ
  pub side : Text
  pub execution_type : Text
  pub limit_price : Option Float64

-- What the decoder answers: a request, an http.MaxBytesError, or another error.
pub data Decoded : Type 0 where
  request : CreateOrderRequest → Decoded
  too_large : Decoded
  malformed : Decoded

-- assetSymbolPattern, ^[A-Z]{4}[0-9]{1,2}$
unfoldable pub matches_asset_symbol_pattern : Text → Bool
unfolding is_upper_letter is_digit
matches_asset_symbol_pattern (a ∷ b ∷ c ∷ d ∷ e ∷ []) =
    is_upper_letter a && is_upper_letter b && is_upper_letter c && is_upper_letter d && is_digit e
matches_asset_symbol_pattern (a ∷ b ∷ c ∷ d ∷ e ∷ f ∷ []) =
    is_upper_letter a
    && is_upper_letter b
    && is_upper_letter c
    && is_upper_letter d
    && is_digit e
    && is_digit f
matches_asset_symbol_pattern _ = false

unfoldable pub symbol_errors : Text → List FieldError
symbol_errors symbol =
    if text_eq symbol []
    then record { field = "assetSymbol"; message = "is required" } ∷ []
    else if not (matches_asset_symbol_pattern symbol)
    then record { field = "assetSymbol"; message = "must be a B3 ticker such as PETR4 or BOVA11" }
      ∷ []
    else []

unfoldable pub quantity_errors : ℤ → List FieldError
quantity_errors quantity =
    if leb_ℤ quantity (pos 0)
    then record { field = "quantity"; message = "must be a positive integer" } ∷ []
    else []

unfoldable pub side_errors : Text → List FieldError
side_errors side =
    if not (is_valid_side side)
    then record { field = "side"; message = "must be BUY or SELL" } ∷ []
    else []

unfoldable pub execution_type_errors : Text → Option Float64 → List FieldError
execution_type_errors type price =
    if not (is_valid_execution_type type)
    then record { field = "executionType"; message = "must be MARKET or LIMIT" } ∷ []
    else if text_eq type execution_limit && is_missing_or_nonpositive price
    then record {
      field = "limitPrice";
      message = "is required and must be positive for LIMIT orders";
    }
      ∷ []
    else if text_eq type execution_market && is_set price
    then record { field = "limitPrice"; message = "must not be set for MARKET orders" } ∷ []
    else []

module _ (upper : ℕ → ℕ) where
  unfoldable pub normalized_symbol : CreateOrderRequest → Text
  unfolding to_upper trim_space
  normalized_symbol req = to_upper upper (trim_space req.asset_symbol)

  -- All violations, in the order of the source.
  unfoldable pub field_errors : CreateOrderRequest → List FieldError
  field_errors req =
      symbol_errors (normalized_symbol req)
      ++ quantity_errors req.quantity
      ++ side_errors (to_upper upper req.side)
      ++ execution_type_errors (to_upper upper req.execution_type) req.limit_price

  unfoldable pub new_order : Uuid → Uuid → CreateOrderRequest → Order
  new_order id user_id req = record {
    id = id;
    user_id = user_id;
    asset_symbol = normalized_symbol req;
    quantity = req.quantity;
    side = to_upper upper req.side;
    execution_type = to_upper upper req.execution_type;
    limit_price = req.limit_price;
    status = status_pending;
    created_at = 0;
  }

  module _ {S P : Type 0} (store : OrderStore S) (publisher : EventPublisher P) where
    -- The event is published; a failure of that is only logged.
    abbrev pub announce : Result Order × S → P → Response × State S P
    announce (err e, s) p = (internal_error, record { store = s; publisher = p })
    announce (ok created, s) p =
        let (_, p') = publisher.publish_order_created (new_order_created_event created) p in
        (
          record {
            status = 201;
            content_type = "application/json";
            body = order (order_response created);
          },
          record { store = s; publisher = p' },
        )

    -- From the field errors on.
    abbrev pub submit :
        List FieldError → Uuid → Uuid → CreateOrderRequest → State S P → Response × State S P
    submit (e ∷ es) id user_id req st =
        (write 400 code_validation "one or more fields are invalid" (e ∷ es), st)
    submit [] id user_id req st =
        announce (store.create (new_order id user_id req) st.store) st.publisher

    abbrev on_decoded : Decoded → Uuid → Uuid → State S P → Response × State S P
    on_decoded too_large id user_id st =
        (write 413 code_payload_too_large "request body must not exceed %d bytes" [], st)
    on_decoded malformed id user_id st = (write 400 code_validation "malformed request body" [], st)
    on_decoded (request req) id user_id st = submit (field_errors req) id user_id req st

    abbrev on_user : Result Uuid → Decoded → Uuid → State S P → Response × State S P
    on_user (err e) decoded id st = (write 401 code_unauthorized "authentication required" [], st)
    on_user (ok user_id) decoded id st = on_decoded decoded id user_id st

    unfoldable pub create_order : Decoded → Uuid → State S P → Response × State S P
    unfolding user_id_from_context
    create_order decoded id st = on_user user_id_from_context decoded id st
