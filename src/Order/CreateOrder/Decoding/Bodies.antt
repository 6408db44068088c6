-- ===== src/Order/CreateOrder/Decoding/Bodies.antt =====
-- What `CreateOrder` of internal/order/handler.go makes of bodies that are too large or lack a field.
use investment_engine.Prelude.{
  ℕ, ◌<◌, ltb, length, take, length-take-le, take-take, sym, String, Bool, true, false, [], ◌∷◌,
  List, ◌≡◌, ◌≢◌, refl, ap, ◌∙◌, arith,
}
use investment_engine.Result.{Result, ok, err}
use investment_engine.Http.{Response, FieldError, write, user_id_from_context}
use investment_engine.Json.{Object, Literals}
use investment_engine.Json.Fields.{read_fields, IsMissing, read_fields-keeps}
use investment_engine.Order.Model.{Uuid}
use investment_engine.Order.Api.{OrderStore, EventPublisher, State}
use investment_engine.Order.CreateOrder.{
  CreateOrderRequest, too_large, submit, create_order, field_errors,
}
use investment_engine.Order.CreateOrder.Decoding.{
  RequestField, names, no_request, max_create_order_body_bytes, Scanned, an_object, a_null,
  another_value, no_value, unfinished, store, answered, decoded, decode_body, post_order,
}
use investment_engine.Order.CreateOrder.Decoding.Required.{
  IsRequired, IsZeroAt, store-IsZeroAt, no_request-IsZeroAt, IsZeroAt-field_errors,
}

create_order-too_large :
    (upper : ℕ → ℕ) {S P : Type 0} (orders : OrderStore S) (publisher : EventPublisher P)
    (id : Uuid) (st : State S P)
    → let (r, st') = create_order upper orders publisher too_large id st in
      (r.status ≡ 413) × (st' ≡ st)
unfolding create_order write user_id_from_context
create_order-too_large upper orders publisher id st = (refl, refl)

module _ (l : Literals) (folds : String → String → Bool) (scan : List ℕ → Scanned) (upper : ℕ → ℕ)
    {S P : Type 0} (orders : OrderStore S) (publisher : EventPublisher P) (id : Uuid)
    (st : State S P) where
  abbrev IsRefused : Response × State S P → Type 0
  IsRefused (r, st') = (r.status ≡ 400) × (st' ≡ st)

  submit-IsRefused :
      (req : CreateOrderRequest) (es : List FieldError)
      → es ≢ []
      → (user : Uuid) → IsRefused (submit upper orders publisher es id user req st)
  unfolding write
  submit-IsRefused req [] h user = absurd (h refl)
  submit-IsRefused req (e ∷ es) h user = (refl, refl)

  answered-IsRefused :
      (f : RequestField) (o : Object) (r : Result CreateOrderRequest)
      → IsRequired f
      → IsMissing folds names f o
      → read_fields (store l) folds names o no_request ≡ r
      → IsRefused (create_order upper orders publisher (answered l r) id st)
  unfolding create_order write user_id_from_context
  answered-IsRefused f o (err e) q m h = (refl, refl)
  answered-IsRefused f o (ok r) q m h =
      submit-IsRefused r (field_errors upper r)
        (IsZeroAt-field_errors upper f r q (
          read_fields-keeps (store l) f (IsZeroAt f) (store-IsZeroAt l f) folds names o no_request r
            m (no_request-IsZeroAt f) h))
        _

  -- A body whose first JSON value is an object that ends within the first 1 KiB and has no member for a
  -- field that is required (all are, but for the limit price) is answered 400, whatever its other
  -- members hold, and nothing is stored or published: no zero value stands in for what the client has
  -- left out.
  pub post_order-missing :
      (body : List ℕ) (o : Object) (f : RequestField)
      → scan (take max_create_order_body_bytes body) ≡ an_object o
      → IsRequired f
      → IsMissing folds names f o
      → let (r, st') = post_order l folds scan upper orders publisher body id st in
        (r.status ≡ 400) × (st' ≡ st)
  unfolding post_order decode_body
  post_order-missing body o f s q m =
      rw s (answered-IsRefused f o (read_fields (store l) folds names o no_request) q m refl)

  finished :
      (more : Bool) (v : Scanned)
      → v ≢ unfinished
      → decoded l folds scan more v ≡ decoded l folds scan false v
  finished more (an_object o) h = refl
  finished more a_null h = refl
  finished more another_value h = refl
  finished more no_value h = refl
  finished more unfinished h = absurd (h refl)

  decode_body-first :
      (body : List ℕ)
      → decode_body l folds scan (take max_create_order_body_bytes body)
        ≡ decoded l folds scan false (scan (take max_create_order_body_bytes body))
  unfolding decode_body
  decode_body-first body =
      let n = max_create_order_body_bytes in
      let fits : ltb n (length (take n body)) ≡ false = ground (arith, length-take-le n body) in
      rw (fits, take-take n body) refl

  -- Of a body of more than 1 KiB only the first 1 KiB counts. If the scanner of the decoder reads it to
  -- the end without having found an error or the end of the first JSON value, then the answer is 413
  -- and nothing is stored or published. Otherwise, where that value ends within the first 1 KiB or the
  -- text there is no JSON, the request is handled as if the body ended after the first 1 KiB,
  -- whatever follows.
  pub post_order-large :
      (body : List ℕ)
      → max_create_order_body_bytes < length body
      → let first = take max_create_order_body_bytes body in
        let (r, st') = post_order l folds scan upper orders publisher body id st in
        (scan first ≡ unfinished → (r.status ≡ 413) × (st' ≡ st))
        × (scan first ≢ unfinished
            → (r, st') ≡ post_order l folds scan upper orders publisher first id st)
  unfolding post_order decode_body
  post_order-large body large =
      let goes_on : ltb max_create_order_body_bytes (length body) ≡ true = ground (arith, large) in
      (
        λ u. rw (u, goes_on) (create_order-too_large upper orders publisher id st),
        λ f.
            ap (λ d. create_order upper orders publisher d id st)
              (finished (ltb max_create_order_body_bytes (length body))
                  (scan (take max_create_order_body_bytes body)) f
                ∙ sym (decode_body-first body)),
      )
