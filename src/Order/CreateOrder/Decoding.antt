-- ===== src/Order/CreateOrder/Decoding.antt =====
-- How `CreateOrder` of internal/order/handler.go reads the body of a request: the first JSON value in
-- it, from at most 1 KiB, by the struct tags of `CreateOrderRequest`. The scanner of encoding/json,
-- which finds the end of that value, is an argument.
pub mod Required
pub mod Bodies
use investment_engine.Prelude.{
  ℕ, pos, ltb, length, take, String, Bool, true, false, Text, [], ◌∷◌, List, Option, none, some,
}
use investment_engine.Result.{Result, ok, err, ◌>>=◌}
use investment_engine.Http.{Response}
use investment_engine.Json.{Json, Object, Literals, put_text, put_int, put_float_pointer}
use investment_engine.Json.Fields.{read_fields}
use investment_engine.Order.Model.{Uuid}
use investment_engine.Order.Api.{OrderStore, EventPublisher, State}
use investment_engine.Order.CreateOrder.{
  CreateOrderRequest, Decoded, request, too_large, malformed, create_order,
}

pub data RequestField : Type 0 where
  asset_symbol quantity side execution_type limit_price : RequestField

-- The struct tags.
abbrev pub names : List (String × RequestField)
names =
    ("assetSymbol", asset_symbol)
    ∷ ("quantity", quantity)
    ∷ ("side", side)
    ∷ ("executionType", execution_type)
    ∷ ("limitPrice", limit_price)
    ∷ []

-- `var req CreateOrderRequest`
abbrev pub no_request : CreateOrderRequest
no_request = record {
  asset_symbol = [];
  quantity = pos 0;
  side = [];
  execution_type = [];
  limit_price = none;
}

unfoldable pub max_create_order_body_bytes : ℕ
max_create_order_body_bytes = 1024

-- What the scanner finds at the start of some bytes: a whole value, which is an object, null or
-- another one; no value; or the start of one that goes on.
pub data Scanned : Type 0 where
  an_object : Object → Scanned
  a_null : Scanned
  another_value : Scanned
  no_value : Scanned
  unfinished : Scanned

module _ (l : Literals) where
  unfoldable pub store : RequestField → Json → CreateOrderRequest → Result CreateOrderRequest
  store asset_symbol v r = put_text v r.asset_symbol >>= λ x. ok (record r { asset_symbol = x })
  store quantity v r = put_int l v r.quantity >>= λ x. ok (record r { quantity = x })
  store side v r = put_text v r.side >>= λ x. ok (record r { side = x })
  store execution_type v r =
      put_text v r.execution_type >>= λ x. ok (record r { execution_type = x })
  store limit_price v r = put_float_pointer l v >>= λ x. ok (record r { limit_price = x })

  abbrev pub answered : Result CreateOrderRequest → Decoded
  answered (ok r) = request r
  answered (err e) = malformed

  module _ (folds : String → String → Bool) (scan : List ℕ → Scanned) where
    -- `Decode`, on what the reader has let through; `more` tells whether the body goes on behind it,
    -- which the reader reports only to who asks for more.
    abbrev pub decoded : Bool → Scanned → Decoded
    decoded more (an_object o) = answered (read_fields store folds names o no_request)
    decoded more a_null = request no_request
    decoded more another_value = malformed
    decoded more no_value = malformed
    decoded true unfinished = too_large
    decoded false unfinished = malformed

    -- `json.NewDecoder(http.MaxBytesReader(w, r.Body, maxCreateOrderBodyBytes)).Decode(&req)`
    unfoldable pub decode_body : List ℕ → Decoded
    unfolding store
    decode_body body =
        decoded (ltb max_create_order_body_bytes (length body))
          (scan (take max_create_order_body_bytes body))

    -- `CreateOrder` on a body.
    unfoldable pub post_order :
        (ℕ → ℕ)
        → {S P : Type 0} → OrderStore S
        → EventPublisher P
        → List ℕ
        → Uuid
        → State S P
        → Response × State S P
    unfolding decode_body
    post_order upper orders publisher body id st =
        create_order upper orders publisher (decode_body body) id st
