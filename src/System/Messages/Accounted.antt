-- ===== src/System/Messages/Accounted.antt =====
-- No single move forgets a message before its order is settled.
use investment_engine.Prelude.{
  Bool, ℕ, ◌+◌, ◌≤◌, ◌≡◌, refl, true, Option, none, some, List, [], ◌∷◌, ◌++◌, All, All-map, ◌⊎◌,
  inl, inr, arith, text_eq, text_eq→≡, Bool-cases,
}
use investment_engine.GoError.{GoError}
use investment_engine.Http.{Response, simulated_user_id}
use investment_engine.Order.Model.{Uuid, Instant}
use investment_engine.Order.Store.{Db, Reply}
use investment_engine.Order.Store.Invariant.{IsConsistent}
use investment_engine.Order.Listing.{ListFaults}
use investment_engine.Order.Api.{State}
use investment_engine.Order.CreateOrder.{Decoded, create_order, new_order}
use investment_engine.Order.CreateOrder.Laws.{create_order_alike}
use investment_engine.Order.Publisher.{Attempt, Connection}
use investment_engine.Order.AmqpPublisher.{
  amqp_publisher, sent_or_not, create_order_publisher_cases,
}
use investment_engine.Order.Publisher.{event_message}
use investment_engine.Order.PostgresStore.{postgres_order_store}
use investment_engine.Execution.Headers.{Value}
use investment_engine.Execution.Handler.{Body, handle_order_created}
use investment_engine.Execution.Consumer
use investment_engine.Execution.Consumer.{
  Action, ack, reject, publish, Libraries, Delivery, Counter, process,
}
use investment_engine.Execution.Consumer.Settling.{Settled, process-Settled}
use investment_engine.Execution.Consumer.Loop.{process-store}
use investment_engine.System.{silent, Conditions, circumstances}
use investment_engine.System.AtMostOnce.{create_order_cases, process_cases}
use investment_engine.System.Messages.{
  to_order_queue, Queues, World, react, unused, posted, settled, processed, count_bodies, copies,
}
use investment_engine.System.Messages.Settlement.{
  IsSettled, IsDone, create-IsSettled, execute_order-IsSettled, handle_order_created-IsDone,
}
use investment_engine.System.Messages.Copies.{
  count_bodies-middle, copies-unsettled, copies-failed, handed-All, copies-handed,
}

module _ (lib : Libraries) (wire : Value → Value) where
  -- A message with this body is in a queue, or the broker has lost one, or its order is settled.
  abbrev pub Accounted : Body → World → Type 0
  Accounted b w = (1 ≤ copies b w.queues) ⊎ IsDone lib.unmarshal b w.db

  IsDone-map :
      (b : Body) (db db' : Db)
      → ((k : Uuid) → IsSettled k db → IsSettled k db')
      → IsDone lib.unmarshal b db
      → IsDone lib.unmarshal b db'
  IsDone-map b db db' f (event, u, s) = (event, u, f event.order_id s)

  -- What stays in the queues, and where the settled orders stay settled, stays accounted for.
  Accounted-map :
      (b : Body) (w w' : World)
      → copies b w.queues ≤ copies b w'.queues
      → ((k : Uuid) → IsSettled k w.db → IsSettled k w'.db)
      → Accounted b w
      → Accounted b w'
  Accounted-map b w w' more f (inl some_copy) = inl (omega (arith, more, some_copy))
  Accounted-map b w w' more f (inr done) = inr (IsDone-map b w.db w'.db f done)

  processed-IsSettled :
      (c : Conditions) (d : Delivery) (m : Counter) (w : World) (k : Uuid)
      → IsSettled k w.db
      → IsSettled k (processed lib wire c d m w).0.store
  processed-IsSettled c d m w k s = process_cases lib (IsSettled k) c d m w.db s λ j price quantity.
      execute_order-IsSettled c.faults c.execution_id c.now k j price quantity w.db s

  -- A message with one copy less than before is another one, or its order is settled.
  Settled-IsDone :
      (kept : Bool) (d : Delivery) (e : Option GoError) (actions : List Action) (q : Queues)
      (db : Db)
      → Settled d e actions
      → (e ≡ none → IsDone lib.unmarshal d.body db)
      → (b : Body) → 1 ≤ count_bodies b (d ∷ []) + copies b q
      → (1 ≤ copies b (react wire kept d actions q)) ⊎ IsDone lib.unmarshal b db
  unfolding react count_bodies
  Settled-IsDone kept d none actions q db s done b some_copy =
      elim (Bool-cases (text_eq d.body b)) [
        | inl same ↦ inr (rw (← text_eq→≡ d.body b same) (done refl))
        | inr other ↦ inl (rw s (ground (arith, some_copy, other)))
      ]
  Settled-IsDone kept d (some e) actions q db s done b some_copy =
      inl (omega (arith, some_copy, copies-failed b wire kept d actions q s))

  module _ (c : Conditions) (d : Delivery) (m : Counter) (w : World) (before after : List Delivery)
      (e : w.queues.ready ≡ before ++ d ∷ after) where
    abbrev rest : Queues
    rest = record w.queues { ready = before ++ after }

    copies-ready : (b : Body) → copies b w.queues ≡ count_bodies b (d ∷ []) + copies b rest
    copies-ready b = omega (arith, count_bodies-middle b d before after e)

    -- A delivery that is settled: it was handled without an error, or it is still there.
    pub takes-Accounted :
        IsConsistent w.db
        → (b : Body) → Accounted b w
        → Accounted b (
            settled wire c.copy_kept d
              (processed lib wire c d m w).1
              (processed lib wire c d m w).0.store
              rest
              w)
    takes-Accounted consistent b (inr done) =
        inr (
          IsDone-map b w.db (processed lib wire c d m w).0.store (processed-IsSettled c d m w) done)
    takes-Accounted consistent b (inl some_copy) =
        let st : Consumer.State Db = record { store = w.db; messages_processed = m } in
        Settled-IsDone c.copy_kept d
          (handle_order_created (circumstances c).store lib.unmarshal c.prices d.body w.db).0
          (processed lib wire c d m w).1 rest (processed lib wire c d m w).0.store
          (process-Settled lib (circumstances c) d st)
          (λ h. rw (process-store lib (circumstances c) d st) (
            handle_order_created-IsDone c.faults c.execution_id c.now lib.unmarshal c.prices d.body
              w.db consistent h))
          b (omega (arith, some_copy, copies-ready b))

    pub dies-Accounted :
        (told : List Action) (b : Body)
        → Accounted b w
        → Accounted b (
            settled wire c.copy_kept d
              (told ++ reject true ∷ [])
              (processed lib wire c d m w).0.store
              rest
              w)
    dies-Accounted told b a =
        Accounted-map b w
          (settled wire c.copy_kept d (told ++ reject true ∷ [])
            (processed lib wire c d m w).0.store rest w)
          (omega (arith, copies-ready b, copies-unsettled b wire c.copy_kept d told rest))
          (processed-IsSettled c d m w) a

  pub expires-Accounted :
      (d : Delivery) (w : World) (before after : List Delivery)
      → w.queues.retrying ≡ before ++ d ∷ after
      → (b : Body) → Accounted b w
      → Accounted b (record w {
        queues = record w.queues { ready = d ∷ w.queues.ready; retrying = before ++ after };
      })
  unfolding count_bodies
  expires-Accounted d w before after e b (inr done) = inr done
  expires-Accounted d w before after e b (inl some_copy) =
      inl (omega (arith, some_copy, count_bodies-middle b d before after e))

  module _ (upper : ℕ → ℕ) (faults : ListFaults) (reply : Reply) (cause : GoError) (now : Instant)
      (a : Attempt) (id : Uuid) (decoded : Decoded) (w : World) where
    abbrev pub answered : Response × State Db Connection
    answered =
        create_order upper (postgres_order_store faults reply cause now) (amqp_publisher a) decoded
          id (record { store = w.db; publisher = unused })

    -- The tables are those that a request leaves which publishes nothing.
    pub same_tables :
        answered.1.store
        ≡ (create_order upper
            (postgres_order_store faults reply cause now)
            silent
            decoded
            id
            (record { store = w.db; publisher = tt })).1.store
    same_tables =
        (create_order_alike upper (postgres_order_store faults reply cause now) (amqp_publisher a)
          silent id w.db unused tt decoded).1

    posts-IsSettled : (k : Uuid) → IsSettled k w.db → IsSettled k answered.1.store
    posts-IsSettled k s = rw same_tables (
        create_order_cases (IsSettled k) upper (postgres_order_store faults reply cause now) id w.db
          s
          (λ req.
            create-IsSettled k reply cause now (new_order upper id simulated_user_id req) w.db s)
          decoded)

    pub posts-Accounted : (b : Body) → Accounted b w → Accounted b (posted wire a.routed answered w)
    posts-Accounted b =
        Accounted-map b w (posted wire a.routed answered w)
          (copies-handed b wire a.routed answered.1.publisher.sent w.queues) posts-IsSettled

    -- The binding of the order queue fits what the API publishes.
    sent_routed : All (λ m. to_order_queue m ≡ true) answered.1.publisher.sent
    unfolding event_message
    sent_routed =
        create_order_publisher_cases (λ (p : Connection). All (λ m. to_order_queue m ≡ true) p.sent)
          upper (postgres_order_store faults reply cause now) a id
          (record { store = w.db; publisher = unused }) tt
          (λ event. elim (sent_or_not a event unused) [
            | inl same ↦ rw same tt
            | inr (body, _, same) ↦ rw same (refl, tt)
          ])
          decoded

    pub sent-Accounted :
        All (λ m. Accounted m.body (posted wire a.routed answered w)) answered.1.publisher.sent
    sent-Accounted =
        let sent = answered.1.publisher.sent in
        All-map (λ m h. inl h) sent (handed-All wire a.routed sent w.queues sent_routed)
