-- ===== src/Order/Wire/Missing.antt =====
-- What the decoder leaves in a field that the JSON of an event does not name, and what `Validate` of
-- internal/order/events.go makes of it.
use investment_engine.Prelude.{
  ℤ, pos, String, Bool, true, false, Option, none, [], ◌≡◌, ◌≢◌, refl, arith, Text, ◌==◌, text_eq,
  leb_ℤ,
}
use investment_engine.Result.{ok}
use investment_engine.Float64.{Float64}
use investment_engine.Order.Event.{OrderCreatedEvent, validate}
use investment_engine.Order.Model.{Uuid, Instant, is_valid_side, is_valid_execution_type, uuid_nil}
use investment_engine.Json.Fields.{IsMissing, read_fields-keeps, after_bind}
use investment_engine.Json.{
  put_text, put_int, put_uuid, put_time, put_float_pointer, Json, Object, Literals,
}
use investment_engine.Order.Wire.{
  names, EventField, order_id, user_id, asset_symbol, quantity, side, execution_type, limit_price,
  created_at, no_event, store, unmarshal_event,
}

-- The fields that an event must have.
abbrev pub IsRequired : EventField → Type 0
IsRequired limit_price = ⊥
IsRequired created_at = ⊥
IsRequired _ = Unit

abbrev IsZeroAt : EventField → OrderCreatedEvent → Type 0
IsZeroAt order_id e = e.order_id ≡ uuid_nil
IsZeroAt user_id e = e.user_id ≡ uuid_nil
IsZeroAt asset_symbol e = e.asset_symbol ≡ []
IsZeroAt quantity e = e.quantity ≡ pos 0
IsZeroAt side e = e.side ≡ []
IsZeroAt execution_type e = e.execution_type ≡ []
IsZeroAt limit_price e = Unit
IsZeroAt created_at e = Unit

-- A new value in one field leaves the others as they are.
module _ (e : OrderCreatedEvent) where
  with_order_id :
      (x : Uuid) (f : EventField)
      → order_id ≢ f
      → IsZeroAt f e
      → IsZeroAt f (record e { order_id = x })
  with_order_id x order_id other z = absurd (other refl)
  with_order_id x _ other z = z

  with_user_id :
      (x : Uuid) (f : EventField)
      → user_id ≢ f
      → IsZeroAt f e
      → IsZeroAt f (record e { user_id = x })
  with_user_id x user_id other z = absurd (other refl)
  with_user_id x _ other z = z

  with_asset_symbol :
      (x : Text) (f : EventField)
      → asset_symbol ≢ f
      → IsZeroAt f e
      → IsZeroAt f (record e { asset_symbol = x })
  with_asset_symbol x asset_symbol other z = absurd (other refl)
  with_asset_symbol x _ other z = z

  with_quantity :
      (x : ℤ) (f : EventField)
      → quantity ≢ f
      → IsZeroAt f e
      → IsZeroAt f (record e { quantity = x })
  with_quantity x quantity other z = absurd (other refl)
  with_quantity x _ other z = z

  with_side :
      (x : Text) (f : EventField) → side ≢ f → IsZeroAt f e → IsZeroAt f (record e { side = x })
  with_side x side other z = absurd (other refl)
  with_side x _ other z = z

  with_execution_type :
      (x : Text) (f : EventField)
      → execution_type ≢ f
      → IsZeroAt f e
      → IsZeroAt f (record e { execution_type = x })
  with_execution_type x execution_type other z = absurd (other refl)
  with_execution_type x _ other z = z

  with_limit_price :
      (x : Option Float64) (f : EventField)
      → limit_price ≢ f
      → IsZeroAt f e
      → IsZeroAt f (record e { limit_price = x })
  with_limit_price x limit_price other z = absurd (other refl)
  with_limit_price x _ other z = z

  with_created_at :
      (x : Instant) (f : EventField)
      → created_at ≢ f
      → IsZeroAt f e
      → IsZeroAt f (record e { created_at = x })
  with_created_at x created_at other z = absurd (other refl)
  with_created_at x _ other z = z

module _ (l : Literals) where
  store-IsZeroAt :
      (f g : EventField) (v : Json) (e e' : OrderCreatedEvent)
      → g ≢ f
      → IsZeroAt f e
      → store l g v e ≡ ok e'
      → IsZeroAt f e'
  unfolding store
  store-IsZeroAt f order_id v e e' other z h =
      let (x, same) = after_bind (put_uuid l v e.order_id) (λ x. record e { order_id = x }) e' h in
      rw same (with_order_id e x f other z)
  store-IsZeroAt f user_id v e e' other z h =
      let (x, same) = after_bind (put_uuid l v e.user_id) (λ x. record e { user_id = x }) e' h in
      rw same (with_user_id e x f other z)
  store-IsZeroAt f asset_symbol v e e' other z h =
      let (x, same) =
        after_bind (put_text v e.asset_symbol) (λ x. record e { asset_symbol = x }) e' h in
      rw same (with_asset_symbol e x f other z)
  store-IsZeroAt f quantity v e e' other z h =
      let (x, same) = after_bind (put_int l v e.quantity) (λ x. record e { quantity = x }) e' h in
      rw same (with_quantity e x f other z)
  store-IsZeroAt f side v e e' other z h =
      let (x, same) = after_bind (put_text v e.side) (λ x. record e { side = x }) e' h in
      rw same (with_side e x f other z)
  store-IsZeroAt f execution_type v e e' other z h =
      let (x, same) =
        after_bind (put_text v e.execution_type) (λ x. record e { execution_type = x }) e' h in
      rw same (with_execution_type e x f other z)
  store-IsZeroAt f limit_price v e e' other z h =
      let (x, same) = after_bind (put_float_pointer l v) (λ x. record e { limit_price = x }) e' h in
      rw same (with_limit_price e x f other z)
  store-IsZeroAt f created_at v e e' other z h =
      let (x, same) =
        after_bind (put_time l v e.created_at) (λ x. record e { created_at = x }) e' h in
      rw same (with_created_at e x f other z)

invalid : (f : EventField) (e : OrderCreatedEvent) → IsRequired f → IsZeroAt f e → validate e ≢ none
unfolding validate
invalid order_id e r z = let t : (e.order_id == uuid_nil) ≡ true = rw z refl in ground (arith, t)
invalid user_id e r z = let t : (e.user_id == uuid_nil) ≡ true = rw z refl in ground (arith, t)
invalid asset_symbol e r z =
    let t : text_eq e.asset_symbol [] ≡ true = rw z (unfold text_eq in refl) in ground (arith, t)
invalid quantity e r z = let t : leb_ℤ e.quantity (pos 0) ≡ true = rw z refl in ground (arith, t)
invalid side e r z =
    let t : is_valid_side e.side ≡ false = rw z (unfold is_valid_side text_eq in refl) in
    ground (arith, t)
invalid execution_type e r z =
    let t : is_valid_execution_type e.execution_type ≡ false =
      rw z (unfold is_valid_execution_type text_eq in refl) in
    ground (arith, t)
invalid limit_price e r z = absurd r
invalid created_at e r z = absurd r

no_event-IsZeroAt : (f : EventField) → IsZeroAt f no_event
no_event-IsZeroAt order_id = refl
no_event-IsZeroAt user_id = refl
no_event-IsZeroAt asset_symbol = refl
no_event-IsZeroAt quantity = refl
no_event-IsZeroAt side = refl
no_event-IsZeroAt execution_type = refl
no_event-IsZeroAt limit_price = tt
no_event-IsZeroAt created_at = tt

-- An event that lacks a required field is not valid, where it can be decoded at all.
pub unmarshal_event-missing :
    (l : Literals) (folds : String → String → Bool) (f : EventField) (object : Object)
    (e : OrderCreatedEvent)
    → IsRequired f
    → IsMissing folds names f object
    → unmarshal_event l folds object ≡ ok e
    → validate e ≢ none
unfolding unmarshal_event
unmarshal_event-missing l folds f object e r m h = invalid f e r (
    read_fields-keeps (store l) f (IsZeroAt f) (store-IsZeroAt l f) folds names object no_event e m
      (no_event-IsZeroAt f) h)
