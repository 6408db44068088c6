-- ===== src/Order/CreateOrder/Laws.antt =====
-- What `CreateOrder` of internal/order/handler.go answers, and what it has done by then, over any
-- store that keeps the contract of `Create`.
use investment_engine.Prelude.{ℕ, none, List, [], ◌∷◌, ◌≡◌, refl, ◌≢◌, arith}
use investment_engine.Result.{Result, ok, err}
use investment_engine.Http.{FieldError, Response, order, write, simulated_user_id}
use investment_engine.Order.Model.{Uuid, uuid_nil, Instant, Order}
use investment_engine.Order.Event.{new_order_created_event, validate}
use investment_engine.Order.Api.{OrderStore, EventPublisher, State, order_response, internal_error}
use investment_engine.Order.CreateOrder.{
  CreateOrderRequest, Decoded, request, too_large, malformed, field_errors, new_order, announce,
  submit, create_order,
}
use investment_engine.Order.CreateOrder.Checks.{validate-new_order}

-- `Create` returns the order that it was given, with the time of its row.
pub record IsOrderStore {S : Type 0} (store : OrderStore S) : Type 0 where
  pub returns :
      (o o' : Order) (s : S)
      → (store.create o s).0 ≡ ok o'
      → (now : Instant) × (o' ≡ record o { created_at = now })

module _ (upper : ℕ → ℕ) {S P : Type 0} (store : OrderStore S) (publisher : EventPublisher P)
    (id : Uuid) (st : State S P) where
  -- What has happened when the client is told that its order was created.
  pub record IsCreated (decoded : Decoded) (r : Response × State S P) : Type 0 where
    pub req : CreateOrderRequest
    pub created : Order
    pub decoded_request : decoded ≡ request req
    pub no_errors : field_errors upper req ≡ []
    pub stored : (store.create (new_order upper id simulated_user_id req) st.store).0 ≡ ok created
    pub body : r.0.body ≡ order (order_response created)
    pub state : r.1 ≡ record {
      store = (store.create (new_order upper id simulated_user_id req) st.store).1;
      publisher =
          (publisher.publish_order_created (new_order_created_event created) st.publisher).1;
    }

  announce_created :
      (r : Result Order × S) (p : P)
      → (announce upper store publisher r p).0.status ≡ 201
      → (created : Order) × (r.0 ≡ ok created)
        × ((announce upper store publisher r p).0.body ≡ order (order_response created))
        × ((announce upper store publisher r p).1 ≡ record {
          store = r.1;
          publisher = (publisher.publish_order_created (new_order_created_event created) p).1;
        })
  unfolding internal_error
  announce_created (err e, s) p h = absurd (ground arith)
  announce_created (ok created, s) p h = (created, refl, refl, refl)

  submit-IsCreated :
      (req : CreateOrderRequest) (es : List FieldError)
      → field_errors upper req ≡ es
      → (submit upper store publisher es id simulated_user_id req st).0.status ≡ 201
      → IsCreated (request req) (submit upper store publisher es id simulated_user_id req st)
  unfolding write
  submit-IsCreated req (e ∷ es) h s = absurd (ground arith)
  submit-IsCreated req [] h s =
      let (created, stored, body, state) =
        announce_created (store.create (new_order upper id simulated_user_id req) st.store)
          st.publisher s in
      record {
        req = req;
        created = created;
        decoded_request = refl;
        no_errors = h;
        stored = stored;
        body = body;
        state = state;
      }

  -- An answer 201 means that the request had no field errors, that the store has created the order
  -- made of it, that the event of this order was handed to the publisher once, and that the body
  -- shows this order.
  pub create_order-IsCreated :
      (decoded : Decoded)
      → (create_order upper store publisher decoded id st).0.status ≡ 201
      → IsCreated decoded (create_order upper store publisher decoded id st)
  unfolding create_order write
  create_order-IsCreated too_large s = absurd (ground arith)
  create_order-IsCreated malformed s = absurd (ground arith)
  create_order-IsCreated (request req) s = submit-IsCreated req (field_errors upper req) refl s

  -- The event of a created order, for an id that is not nil, passes `Validate`: no consumer rejects
  -- it as invalid.
  pub create_order-validate :
      IsOrderStore store
      → (decoded : Decoded) → id ≢ uuid_nil
      → (created : (create_order upper store publisher decoded id st).0.status ≡ 201)
      → validate (new_order_created_event (create_order-IsCreated decoded created).created) ≡ none
  create_order-validate w decoded k s =
      let c = create_order-IsCreated decoded s in
      let (now, e) = w.returns _ c.created st.store c.stored in
      rw e (validate-new_order upper c.req id now c.no_errors k)

  announce_failed :
      (r : Result Order × S) (p : P)
      → (announce upper store publisher r p).0.status ≢ 201
      → (announce upper store publisher r p).0.status ≡ 500
  unfolding internal_error
  announce_failed (err e, s) p h = refl
  announce_failed (ok created, s) p h = absurd (h refl)

  submit_refused :
      (req : CreateOrderRequest) (es : List FieldError)
      → (submit upper store publisher es id simulated_user_id req st).0.status ≢ 201
      → (submit upper store publisher es id simulated_user_id req st).0.status ≢ 500
      → (submit upper store publisher es id simulated_user_id req st).1 ≡ st
  submit_refused req (e ∷ es) h k = refl
  submit_refused req [] h k = absurd (
      k (
        announce_failed (store.create (new_order upper id simulated_user_id req) st.store)
          st.publisher h))

  -- With any answer but 201 and 500, the handler has neither stored nor published anything.
  pub create_order_refused :
      (decoded : Decoded)
      → (create_order upper store publisher decoded id st).0.status ≢ 201
      → (create_order upper store publisher decoded id st).0.status ≢ 500
      → (create_order upper store publisher decoded id st).1 ≡ st
  unfolding create_order
  create_order_refused too_large h k = refl
  create_order_refused malformed h k = refl
  create_order_refused (request req) h k = submit_refused req (field_errors upper req) h k

module _ (upper : ℕ → ℕ) {S P Q : Type 0} (store : OrderStore S) (publisher : EventPublisher P)
    (publisher' : EventPublisher Q) (id : Uuid) (s : S) (p : P) (q : Q) where
  announce_alike :
      (r : Result Order × S)
      → ((announce upper store publisher r p).0 ≡ (announce upper store publisher' r q).0)
        × ((announce upper store publisher r p).1.store
            ≡ (announce upper store publisher' r q).1.store)
  announce_alike (err e, s) = (refl, refl)
  announce_alike (ok created, s) = (refl, refl)

  submit_alike :
      (req : CreateOrderRequest) (es : List FieldError)
      → ((submit upper store publisher es id simulated_user_id req
            (record { store = s; publisher = p })).0
          ≡ (submit upper store publisher' es id simulated_user_id req
              (record { store = s; publisher = q })).0)
        × ((submit upper store publisher es id simulated_user_id req
              (record { store = s; publisher = p })).1.store
            ≡ (submit upper store publisher' es id simulated_user_id req
                (record { store = s; publisher = q })).1.store)
  submit_alike req (e ∷ es) = (refl, refl)
  submit_alike req [] = announce_alike (store.create (new_order upper id simulated_user_id req) s)

  -- Neither the response nor what is stored depends on the publisher: a client is told the same
  -- whether the event could be published or not.
  pub create_order_alike :
      (decoded : Decoded)
      → ((create_order upper store publisher decoded id (record { store = s; publisher = p })).0
          ≡ (create_order upper store publisher' decoded id
              (record { store = s; publisher = q })).0)
        × ((create_order upper store publisher decoded id
              (record { store = s; publisher = p })).1.store
            ≡ (create_order upper store publisher' decoded id
                (record { store = s; publisher = q })).1.store)
  unfolding create_order
  create_order_alike too_large = (refl, refl)
  create_order_alike malformed = (refl, refl)
  create_order_alike (request req) = submit_alike req (field_errors upper req)
