-- ===== src/Order/AmqpPublisher.antt =====
-- *Publisher of internal/order/events.go as the publisher that cmd/api/main.go hands to the handler.
use investment_engine.Prelude.{ℕ, List, [], ◌∷◌, ◌≡◌, ap, ◌⊎◌, inl, inr}
use investment_engine.Result.{Result, ok, err}
use investment_engine.Http.{FieldError, simulated_user_id}
use investment_engine.Order.Model.{Uuid, Order}
use investment_engine.Order.Event.{OrderCreatedEvent, new_order_created_event}
use investment_engine.Order.Api.{OrderStore, EventPublisher, State}
use investment_engine.Order.CreateOrder.{
  CreateOrderRequest, Decoded, request, too_large, malformed, field_errors, new_order, announce,
  submit, create_order,
}
use investment_engine.Order.CreateOrder.Laws.{create_order-IsCreated}
use investment_engine.Order.Publisher.{Attempt, Connection, event_message, publish_order_created}
use investment_engine.Order.Publisher.Channels.{publish_order_created-sent}

abbrev pub amqp_publisher : Attempt → EventPublisher Connection
amqp_publisher a = record { publish_order_created = publish_order_created a }

pub sent_or_not :
    (a : Attempt) (event : OrderCreatedEvent) (c : Connection)
    → ((publish_order_created a event c).1.sent ≡ c.sent)
      ⊎ ((body : List ℕ) × (a.marshal event ≡ ok body)
          × ((publish_order_created a event c).1.sent ≡ event_message a body ∷ c.sent))
unfolding event_message
sent_or_not a event c = elim (publish_order_created-sent a event c) [
  | inl (_, (body, m, s, _)) ↦ inr (body, m, s)
  | inr (_, s, _) ↦ inl s
]

module _ {ℓ} (P : Connection → Type ℓ) (upper : ℕ → ℕ) {S : Type 0} (store : OrderStore S)
    (a : Attempt) (id : Uuid) (st : State S Connection) (old : P st.publisher)
    (new : (event : OrderCreatedEvent) → P (publish_order_created a event st.publisher).1) where
  announce-publisher :
      (r : Result Order × S)
      → P (announce upper store (amqp_publisher a) r st.publisher).1.publisher
  announce-publisher (err e, s) = old
  announce-publisher (ok created, s) = new (new_order_created_event created)

  submit-publisher :
      (req : CreateOrderRequest) (es : List FieldError)
      → P (submit upper store (amqp_publisher a) es id simulated_user_id req st).1.publisher
  submit-publisher req (e ∷ es) = old
  submit-publisher req [] =
      announce-publisher (store.create (new_order upper id simulated_user_id req) st.store)

  -- The connection after a request is the one from before it, or the one after a publish.
  pub create_order_publisher_cases :
      (decoded : Decoded)
      → P (create_order upper store (amqp_publisher a) decoded id st).1.publisher
  unfolding create_order
  create_order_publisher_cases too_large = old
  create_order_publisher_cases malformed = old
  create_order_publisher_cases (request req) = submit-publisher req (field_errors upper req)

module _ (upper : ℕ → ℕ) {S : Type 0} (store : OrderStore S) (a : Attempt) (id : Uuid)
    (st : State S Connection) (decoded : Decoded) where
  -- When `CreateOrder` answers 201, the broker was sent the event of the created order as JSON, in
  -- one message, or nothing at all because the publish has failed.
  pub create_order-sent :
      (created : (create_order upper store (amqp_publisher a) decoded id st).0.status ≡ 201)
      → let laws = create_order-IsCreated upper store (amqp_publisher a) id st decoded created in
        let after = (create_order upper store (amqp_publisher a) decoded id st).1.publisher in
        (after.sent ≡ st.publisher.sent)
        ⊎ ((body : List ℕ) × (a.marshal (new_order_created_event laws.created) ≡ ok body)
            × (after.sent ≡ event_message a body ∷ st.publisher.sent))
  create_order-sent created =
      let laws = create_order-IsCreated upper store (amqp_publisher a) id st decoded created in
      rw (ap (λ (s : State S Connection). s.publisher.sent) laws.state)
        (sent_or_not a (new_order_created_event laws.created) st.publisher)
