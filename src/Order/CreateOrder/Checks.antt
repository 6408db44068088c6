-- ===== src/Order/CreateOrder/Checks.antt =====
-- A request without field errors makes an order whose event every consumer accepts.
use investment_engine.Prelude.{
  ℕ, true, false, Option, none, List, [], ◌∷◌, ◌++◌, ◌≡◌, refl, ◌≢◌, Text, text_eq, arith, ℤ, pos,
  leb_ℤ,
}
use investment_engine.Float64.{Float64}
use investment_engine.Http.{simulated_user_id}
use investment_engine.Strings.{to_upper}
use investment_engine.Order.Model.{Uuid, uuid_nil, Instant, is_valid_side, is_valid_execution_type}
use investment_engine.Order.Event.{new_order_created_event, validate, validate_limit_price}
use investment_engine.Order.CreateOrder.{
  CreateOrderRequest, matches_asset_symbol_pattern, symbol_errors, quantity_errors, side_errors,
  execution_type_errors, normalized_symbol, field_errors, new_order,
}

append-eq-nil {ℓ} : {A : Type ℓ} (xs ys : List A) → xs ++ ys ≡ [] → (xs ≡ []) × (ys ≡ [])
append-eq-nil [] ys h = (refl, h)
append-eq-nil (x ∷ xs) ys h = absurd (ground arith)

symbol_errors-nil :
    (s : Text)
    → symbol_errors s ≡ []
    → (text_eq s [] ≡ false) × (matches_asset_symbol_pattern s ≡ true)
unfolding symbol_errors
symbol_errors-nil s h = ground arith

quantity_errors-nil : (n : ℤ) → quantity_errors n ≡ [] → leb_ℤ n (pos 0) ≡ false
unfolding quantity_errors
quantity_errors-nil n h = ground arith

side_errors-nil : (s : Text) → side_errors s ≡ [] → is_valid_side s ≡ true
unfolding side_errors
side_errors-nil s h = ground arith

execution_type_errors-nil :
    (t : Text) (price : Option Float64)
    → execution_type_errors t price ≡ []
    → (is_valid_execution_type t ≡ true) × (validate_limit_price t price ≡ none)
unfolding execution_type_errors validate_limit_price
execution_type_errors-nil t price h = ground arith

-- What a request without field errors satisfies.
pub record IsAccepted (upper : ℕ → ℕ) (req : CreateOrderRequest) : Type 0 where
  pub symbol_given : text_eq (normalized_symbol upper req) [] ≡ false
  pub symbol_format : matches_asset_symbol_pattern (normalized_symbol upper req) ≡ true
  pub quantity : leb_ℤ req.quantity (pos 0) ≡ false
  pub side : is_valid_side (to_upper upper req.side) ≡ true
  pub execution_type : is_valid_execution_type (to_upper upper req.execution_type) ≡ true
  pub limit_price : validate_limit_price (to_upper upper req.execution_type) req.limit_price ≡ none

pub IsAccepted-of_no_errors :
    (upper : ℕ → ℕ) (req : CreateOrderRequest) → field_errors upper req ≡ [] → IsAccepted upper req
unfolding field_errors
IsAccepted-of_no_errors upper req h =
    let (spq, t) = append-eq-nil _ _ h in
    let (sp, q) = append-eq-nil _ _ spq in
    let (s, p) = append-eq-nil _ _ sp in
    let (given, format) = symbol_errors-nil (normalized_symbol upper req) s in
    let (type, price) =
      execution_type_errors-nil (to_upper upper req.execution_type) req.limit_price t in
    record {
      symbol_given = given;
      symbol_format = format;
      quantity = quantity_errors-nil req.quantity p;
      side = side_errors-nil (to_upper upper req.side) q;
      execution_type = type;
      limit_price = price;
    }

-- The event of an order that a request without field errors makes passes all checks of `Validate`,
-- for any id but the nil one and whatever the time of creation.
pub validate-new_order :
    (upper : ℕ → ℕ) (req : CreateOrderRequest) (id : Uuid) (now : Instant)
    → field_errors upper req ≡ []
    → id ≢ uuid_nil
    → validate (
        new_order_created_event
          (record (new_order upper id simulated_user_id req) { created_at = now }))
      ≡ none
unfolding validate new_order_created_event new_order
validate-new_order upper req id now h k =
    let a = IsAccepted-of_no_errors upper req h in
    ground (arith, a.symbol_given, a.quantity, a.side, a.execution_type, a.limit_price)
