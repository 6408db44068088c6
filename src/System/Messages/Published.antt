-- ===== src/System/Messages/Published.antt =====
-- An order whose client was told 201 and whose event was published, at any later time.
use investment_engine.Prelude.{
  ℕ, ◌≤◌, ◌≡◌, refl, ap, ◌∙◌, sym, none, List, [], ◌∷◌, ◌++◌, All-middle, ◌⊎◌, inl, inr,
}
use mathlib.Core.List.{append_assoc}
use investment_engine.GoError.{GoError}
use investment_engine.Result.{ok}
use investment_engine.Http.{simulated_user_id}
use investment_engine.Order.Model.{Uuid, Instant, Order}
use investment_engine.Order.Event.{OrderCreatedEvent, new_order_created_event}
use investment_engine.Order.Store.{Reply, count_executions}
use investment_engine.Order.Listing.{ListFaults}
use investment_engine.Order.Api.{State}
use investment_engine.Order.CreateOrder.{Decoded, new_order}
use investment_engine.Order.CreateOrder.Laws.{IsCreated, create_order-IsCreated}
use investment_engine.Order.Publisher.{
  Attempt, Connection, Message, event_message, publish_order_created,
}
use investment_engine.Order.AmqpPublisher.{amqp_publisher}
use investment_engine.Order.PostgresStore.{postgres_order_store, postgres_order_store-IsOrderStore}
use investment_engine.Execution.Headers.{Value}
use investment_engine.Execution.Consumer.{Libraries}
use investment_engine.System.Messages.{
  World, posted, unused, posts, takes, dies, expires, Run, here, next, empty_world, queued,
  count_bodies,
}
use investment_engine.System.Messages.Accounted.{answered}
use investment_engine.System.Messages.Kept.{messages_kept}

module _ (lib : Libraries) (wire : Value → Value) where
  Run-append : {w w' w'' : World} → Run lib wire w w' → Run lib wire w' w'' → Run lib wire w w''
  Run-append r here = r
  Run-append r (next r' m) = next (Run-append r r') m

  Run-sent :
      {w w' : World} → Run lib wire w w' → (later : List Message) × (w'.sent ≡ later ++ w.sent)
  Run-sent here = ([], refl)
  Run-sent {w} (next {w = v} r (posts upper faults reply cause now a id decoded)) =
      let sent = (answered lib wire upper faults reply cause now a id decoded v).1.publisher.sent in
      let (later, e) = Run-sent r in
      (
        sent ++ later,
        ap (λ (ms : List Message). sent ++ ms) e ∙ sym (append_assoc sent later w.sent),
      )
  Run-sent (next r (takes c d m before after e)) = Run-sent r
  Run-sent (next r (dies c d m before after told untold last e e')) = Run-sent r
  Run-sent (next r (expires d before after e)) = Run-sent r

publish-sent :
    (a : Attempt) (event : OrderCreatedEvent) (c : Connection) (body : List ℕ)
    → a.open_error ≡ none
    → a.marshal event ≡ ok body
    → a.publish_error ≡ none
    → (publish_order_created a event c).1.sent ≡ event_message a body ∷ c.sent
unfolding publish_order_created
publish-sent a event c body opens marshals publishes = rw (opens, marshals, publishes) refl

module _ (lib : Libraries) (wire : Value → Value) (upper : ℕ → ℕ) (faults : ListFaults)
    (reply : Reply) (cause : GoError) (now : Instant) (a : Attempt) (id : Uuid) (decoded : Decoded)
    (w : World)
    (created : (answered lib wire upper faults reply cause now a id decoded w).0.status ≡ 201) where
  abbrev laws :
      IsCreated upper
        (postgres_order_store faults reply cause now)
        (amqp_publisher a)
        id
        (record { store = w.db; publisher = unused })
        decoded
        (answered lib wire upper faults reply cause now a id decoded w)
  laws =
      create_order-IsCreated upper (postgres_order_store faults reply cause now) (amqp_publisher a)
        id (record { store = w.db; publisher = unused }) decoded created

  same_id : laws.created.id ≡ id
  unfolding new_order
  same_id =
      let laws' = postgres_order_store-IsOrderStore faults reply cause now in
      let (_, e) =
        laws'.returns (new_order upper id simulated_user_id laws.req) laws.created w.db
          laws.stored in
      ap (λ (o : Order). o.id) e

  module _ (body : List ℕ) (opens : a.open_error ≡ none)
      (marshals : a.marshal (new_order_created_event laws.created) ≡ ok body)
      (publishes : a.publish_error ≡ none) where
    event_sent :
        (answered lib wire upper faults reply cause now a id decoded w).1.publisher.sent
        ≡ event_message a body ∷ []
    event_sent =
        ap (λ (st : State _ Connection). st.publisher.sent) laws.state
        ∙ publish-sent a (new_order_created_event laws.created) unused body opens marshals publishes

    event_still_sent :
        (w' : World)
        → Run lib wire
            (posted wire a.routed (answered lib wire upper faults reply cause now a id decoded w) w)
            w'
        → (later : List Message) × (w'.sent ≡ later ++ event_message a body ∷ w.sent)
    event_still_sent w' r =
        let (later, e) = Run-sent lib wire r in
        (later, e ∙ ap (λ (ms : List Message). later ++ (ms ++ w.sent)) event_sent)

    -- What a client was told is not forgotten by the program: if `CreateOrder` has answered 201 and
    -- the publish of its event returned nil, then at any later time the order has its one execution,
    -- or a message with the body of its event is in the order queue, the retry queue or the dead
    -- letters, or the broker has lost a message with that body, the event (which the program only
    -- logs if it is returned as unroutable) or a retry copy of it. The tables and queues were empty
    -- at the start of all, whatever has happened before and since, the broker keeps what is in its
    -- queues, and the JSON library of the consumers reads the event that the API's has written.
    pub created_order_kept :
        {w' : World}
        → lib.unmarshal body ≡ ok (new_order_created_event laws.created)
        → Run lib wire empty_world w
        → Run lib wire
            (posted wire a.routed (answered lib wire upper faults reply cause now a id decoded w) w)
            w'
        → (1 ≤ queued body w'.queues)
          ⊎ (1 ≤ count_bodies body w'.queues.lost)
          ⊎ (count_executions id w'.db.executions ≡ 1)
    unfolding event_message new_order_created_event
    created_order_kept {w'} reads r r' =
        let (later, e) = event_still_sent w' r' in
        let kept =
          messages_kept lib wire
            (Run-append lib wire (next r (posts upper faults reply cause now a id decoded)) r') in
        elim (All-middle
          (λ m.
            (1 ≤ queued m.body w'.queues)
            ⊎ (1 ≤ count_bodies m.body w'.queues.lost)
            ⊎ ((event : OrderCreatedEvent) × (lib.unmarshal m.body ≡ ok event)
                × (count_executions event.order_id w'.db.executions ≡ 1)))
          (event_message a body) later w.sent (rw e at kept)).0 [
            | inl there ↦ inl there
            | inr (inl gone) ↦ inr (inl gone)
            | inr (inr (event, u, one)) ↦
                let same : new_order_created_event laws.created ≡ event = cc in
                let same_order : event.order_id ≡ id =
                  ap (λ (x : OrderCreatedEvent). x.order_id) (sym same) ∙ same_id in
                inr (inr (rw same_order at one))
          ]
