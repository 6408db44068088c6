-- ===== src/Order/CreateOrder/Decoding/Required.antt =====
-- What the decoder leaves in a field that the body of a request to `CreateOrder` (internal/order/
-- handler.go) does not name, and that the handler refuses it.
use investment_engine.Prelude.{ℕ, ℤ, pos, Text, [], Option, ◌≡◌, ◌≢◌, refl, text_eq}
use investment_engine.Result.{ok}
use investment_engine.Float64.{Float64}
use investment_engine.Strings.{to_upper, trim_space, trim_left}
use investment_engine.Json.{Json, Literals, put_text, put_int, put_float_pointer}
use investment_engine.Json.Fields.{after_bind}
use investment_engine.Order.Model.{is_valid_side, is_valid_execution_type}
use investment_engine.Order.CreateOrder.{CreateOrderRequest, field_errors, normalized_symbol}
use investment_engine.Order.CreateOrder.Checks.{IsAccepted-of_no_errors}
use investment_engine.Order.CreateOrder.Decoding.{
  RequestField, asset_symbol, quantity, side, execution_type, limit_price, no_request, store,
}

-- The fields that a request must have.
abbrev pub IsRequired : RequestField → Type 0
IsRequired limit_price = ⊥
IsRequired _ = Unit

abbrev pub IsZeroAt : RequestField → CreateOrderRequest → Type 0
IsZeroAt asset_symbol r = r.asset_symbol ≡ []
IsZeroAt quantity r = r.quantity ≡ pos 0
IsZeroAt side r = r.side ≡ []
IsZeroAt execution_type r = r.execution_type ≡ []
IsZeroAt limit_price r = Unit

-- A new value in one field leaves the others as they are.
module _ (r : CreateOrderRequest) where
  with_asset_symbol :
      (x : Text) (f : RequestField)
      → asset_symbol ≢ f
      → IsZeroAt f r
      → IsZeroAt f (record r { asset_symbol = x })
  with_asset_symbol x asset_symbol other z = absurd (other refl)
  with_asset_symbol x _ other z = z

  with_quantity :
      (x : ℤ) (f : RequestField)
      → quantity ≢ f
      → IsZeroAt f r
      → IsZeroAt f (record r { quantity = x })
  with_quantity x quantity other z = absurd (other refl)
  with_quantity x _ other z = z

  with_side :
      (x : Text) (f : RequestField) → side ≢ f → IsZeroAt f r → IsZeroAt f (record r { side = x })
  with_side x side other z = absurd (other refl)
  with_side x _ other z = z

  with_execution_type :
      (x : Text) (f : RequestField)
      → execution_type ≢ f
      → IsZeroAt f r
      → IsZeroAt f (record r { execution_type = x })
  with_execution_type x execution_type other z = absurd (other refl)
  with_execution_type x _ other z = z

  with_limit_price :
      (x : Option Float64) (f : RequestField)
      → limit_price ≢ f
      → IsZeroAt f r
      → IsZeroAt f (record r { limit_price = x })
  with_limit_price x limit_price other z = absurd (other refl)
  with_limit_price x _ other z = z

pub store-IsZeroAt :
    (l : Literals) (f g : RequestField) (v : Json) (r r' : CreateOrderRequest)
    → g ≢ f
    → IsZeroAt f r
    → store l g v r ≡ ok r'
    → IsZeroAt f r'
unfolding store
store-IsZeroAt l f asset_symbol v r r' other z h =
    let (x, same) =
      after_bind (put_text v r.asset_symbol) (λ x. record r { asset_symbol = x }) r' h in
    rw same (with_asset_symbol r x f other z)
store-IsZeroAt l f quantity v r r' other z h =
    let (x, same) = after_bind (put_int l v r.quantity) (λ x. record r { quantity = x }) r' h in
    rw same (with_quantity r x f other z)
store-IsZeroAt l f side v r r' other z h =
    let (x, same) = after_bind (put_text v r.side) (λ x. record r { side = x }) r' h in
    rw same (with_side r x f other z)
store-IsZeroAt l f execution_type v r r' other z h =
    let (x, same) =
      after_bind (put_text v r.execution_type) (λ x. record r { execution_type = x }) r' h in
    rw same (with_execution_type r x f other z)
store-IsZeroAt l f limit_price v r r' other z h =
    let (x, same) = after_bind (put_float_pointer l v) (λ x. record r { limit_price = x }) r' h in
    rw same (with_limit_price r x f other z)

pub no_request-IsZeroAt : (f : RequestField) → IsZeroAt f no_request
no_request-IsZeroAt asset_symbol = refl
no_request-IsZeroAt quantity = refl
no_request-IsZeroAt side = refl
no_request-IsZeroAt execution_type = refl
no_request-IsZeroAt limit_price = tt

pub IsZeroAt-field_errors :
    (upper : ℕ → ℕ) (f : RequestField) (r : CreateOrderRequest)
    → IsRequired f
    → IsZeroAt f r
    → field_errors upper r ≢ []
unfolding normalized_symbol to_upper trim_space trim_left text_eq is_valid_side
    is_valid_execution_type
IsZeroAt-field_errors upper asset_symbol r q z h =
    let a = (IsAccepted-of_no_errors upper r h).symbol_given in absurd (let a' = rw z at a in cc)
IsZeroAt-field_errors upper quantity r q z h =
    let a = (IsAccepted-of_no_errors upper r h).quantity in absurd (let a' = rw z at a in cc)
IsZeroAt-field_errors upper side r q z h =
    let a = (IsAccepted-of_no_errors upper r h).side in absurd (let a' = rw z at a in cc)
IsZeroAt-field_errors upper execution_type r q z h =
    let a = (IsAccepted-of_no_errors upper r h).execution_type in absurd (let a' = rw z at a in cc)
IsZeroAt-field_errors upper limit_price r q z h = absurd q
