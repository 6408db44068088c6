-- ===== src/System/Messages/Origins.antt =====
-- Where the messages in the queues come from, and to which trace (internal/rabbitmq/tracing.go) each
-- delivery of them belongs.
use text.Mathlib.Text.{◌==◌ as str_eq}
use investment_engine.Prelude.{
  Bool, Option, some, ℕ, ◌≡◌, refl, ◌∙◌, String, true, false, none, some, List, [], ◌∷◌, ◌++◌, map,
  select, All, All-map, All-append, All-middle, Any, Any-append_left, Any-append_right, inl, inr,
  Bool-cases,
}
use investment_engine.GoError.{GoError}
use investment_engine.Order.Store.{Reply}
use investment_engine.Order.Model.{Uuid, Instant}
use investment_engine.Order.Listing.{ListFaults}
use investment_engine.Order.CreateOrder.{Decoded}
use investment_engine.Order.Publisher.{Attempt, Connection, Message, event_message}
use investment_engine.Order.AmqpPublisher.{sent_or_not, create_order_publisher_cases}
use investment_engine.Order.PostgresStore.{postgres_order_store}
use investment_engine.Execution.Headers.{Value, Table, text_of, lookup, carrier_get}
use investment_engine.Execution.Consumer.{
  Action, ack, reject, publish, Publishing, Libraries, Delivery,
}
use investment_engine.Execution.Consumer.Retries.{carry}
use investment_engine.Execution.Consumer.Faithful.{
  SameFields, IsFaithful, cut_short-IsFaithful, process-IsFaithful,
}
use investment_engine.Tracing.{
  Propagator, IsPropagator, extract_trace_context, extract_trace_context-inject,
}
use investment_engine.System.{circumstances}
use investment_engine.System.Messages.{
  handed, to_order_queue, to_retry_queue, copied_to, Queues, World, react, unused, arriving,
  processed, Move, posts, takes, dies, expires, Run, here, next, empty_world,
}
use investment_engine.System.Messages.Accounted.{answered}

-- The event message that a delivery stems from.
abbrev HasOrigin : List Message → Delivery → Type 0
HasOrigin sent d =
    (a : Attempt) × (body : List ℕ) × Any (λ m. m ≡ event_message a body) sent
    × (d.body ≡ body)
    × SameFields d.headers (event_message a body).headers

abbrev AllOrigins : List Message → Queues → Type 0
AllOrigins sent q =
    All (HasOrigin sent) q.ready × All (HasOrigin sent) q.retrying × All (HasOrigin sent) q.dead

module _ (wire : Value → Value)
    (texts : (v : Value) → text_of (some (wire v)) ≡ text_of (some v)) where
  carrier_get-carry :
      (h : Table) (key : String) → carrier_get (carry wire h) key ≡ carrier_get h key
  unfolding carrier_get lookup
  carrier_get-carry [] key = refl
  carrier_get-carry ((k, v) ∷ h) key = elim (Bool-cases (str_eq k key)) [
    | inl same ↦ rw same (texts v)
    | inr other ↦ rw other (carrier_get-carry h key)
  ]

  module _ (sent : List Message) (d : Delivery) (from : HasOrigin sent d) where
    copied_to-AllOrigins :
        (kept : Bool) (m : Publishing) (q : Queues)
        → IsFaithful d (publish m none)
        → AllOrigins sent q
        → AllOrigins sent (copied_to wire kept m q)
    copied_to-AllOrigins false m q f all = all
    copied_to-AllOrigins true m q (same, fields) (a, b, c) =
        let (attempt, body, known, is_body, headers) = from in
        elim (Bool-cases (to_retry_queue m)) [
          | inl goes ↦ rw goes (
            a,
            (
              (
                attempt,
                body,
                known,
                same ∙ is_body,
                λ key other. carrier_get-carry m.headers key ∙ fields key other ∙ headers key other,
              ),
              b,
            ),
            c,
          )
          | inr stays ↦ rw stays (a, b, c)
        ]

    react-AllOrigins :
        (kept : Bool) (actions : List Action) (q : Queues)
        → All (IsFaithful d) actions
        → AllOrigins sent q
        → AllOrigins sent (react wire kept d actions q)
    unfolding react
    react-AllOrigins kept [] q f all = all
    react-AllOrigins kept (ack ∷ rest) q (_, f) all = react-AllOrigins kept rest q f all
    react-AllOrigins kept (reject true ∷ rest) q (_, f) (a, b, c) =
        react-AllOrigins kept rest (record q { ready = d ∷ q.ready }) f ((from, a), b, c)
    react-AllOrigins kept (reject false ∷ rest) q (_, f) (a, b, c) =
        react-AllOrigins kept rest (record q { dead = d ∷ q.dead }) f (a, b, (from, c))
    react-AllOrigins kept (publish m (some e) ∷ rest) q (_, f) all =
        react-AllOrigins kept rest q f all
    react-AllOrigins kept (publish m none ∷ rest) q (copy, f) all =
        react-AllOrigins kept rest (copied_to wire kept m q) f
          (copied_to-AllOrigins kept m q copy all)

  HasOrigin-later :
      (later sent : List Message) (d : Delivery) → HasOrigin sent d → HasOrigin (later ++ sent) d
  HasOrigin-later later sent d (a, body, known, same, from) =
      (a, body, Any-append_right (λ m. m ≡ event_message a body) later sent known, same, from)

  HasOrigin-earlier :
      (sent old : List Message) (d : Delivery) → HasOrigin sent d → HasOrigin (sent ++ old) d
  HasOrigin-earlier sent old d (a, body, known, same, from) =
      (a, body, Any-append_left (λ m. m ≡ event_message a body) sent old known, same, from)

  -- What a request sends arrives with the headers that it was given.
  arrived-HasOrigin :
      (lib : Libraries) (upper : ℕ → ℕ) (faults : ListFaults) (reply : Reply) (cause : GoError)
      (now : Instant) (a : Attempt) (id : Uuid) (decoded : Decoded) (w : World)
      → let sent =
          (answered lib wire upper faults reply cause now a id decoded w).1.publisher.sent in
        All (HasOrigin sent) (map (arriving wire) (select to_order_queue sent))
  unfolding event_message select
  arrived-HasOrigin lib upper faults reply cause now a id decoded w =
      create_order_publisher_cases
        (λ (p : Connection).
          All (HasOrigin p.sent) (map (arriving wire) (select to_order_queue p.sent)))
        upper (postgres_order_store faults reply cause now) a id
        (record { store = w.db; publisher = unused }) tt
        (λ event. elim (sent_or_not a event unused) [
          | inl same ↦ rw same tt
          | inr (body, _, same) ↦ rw same (
            (
              a,
              body,
              inl refl,
              refl,
              λ key other. carrier_get-carry (event_message a body).headers key,
            ),
            tt,
          )
        ])
        decoded

  handed-AllOrigins :
      (routed : Bool) (sent old : List Message) (q : Queues)
      → All (HasOrigin sent) (map (arriving wire) (select to_order_queue sent))
      → AllOrigins old q
      → AllOrigins (sent ++ old) (handed wire routed sent q)
  handed-AllOrigins true sent old q arrived (x, y, z) =
      let older = HasOrigin-later sent old in
      (
        All-append (HasOrigin (sent ++ old)) (map (arriving wire) (select to_order_queue sent))
            q.ready
            (All-map (HasOrigin-earlier sent old) (map (arriving wire) (select to_order_queue sent))
              arrived)
            (All-map older q.ready x),
        All-map older q.retrying y,
        All-map older q.dead z,
      )
  handed-AllOrigins false sent old q arrived (x, y, z) =
      let older = HasOrigin-later sent old in
      (All-map older q.ready x, All-map older q.retrying y, All-map older q.dead z)

  module _ (lib : Libraries) where
    Move-AllOrigins :
        {w w' : World}
        → Move lib wire w w'
        → AllOrigins w.sent w.queues
        → AllOrigins w'.sent w'.queues
    Move-AllOrigins {w} (posts upper faults reply cause now a id decoded) (x, y, z) =
        let sent =
          (answered lib wire upper faults reply cause now a id decoded w).1.publisher.sent in
        handed-AllOrigins a.routed sent w.sent w.queues
          (arrived-HasOrigin lib upper faults reply cause now a id decoded w) (x, y, z)
    Move-AllOrigins {w} (takes c d m before after e) (x, y, z) =
        let (from, others) = All-middle (HasOrigin w.sent) d before after (rw e at x) in
        react-AllOrigins w.sent d from c.copy_kept (processed lib wire c d m w).1
          (record w.queues { ready = before ++ after })
          (process-IsFaithful lib (circumstances c) d
            (record { store = w.db; messages_processed = m }))
          (others, y, z)
    Move-AllOrigins {w} (dies c d m before after told untold last e e') (x, y, z) =
        let (from, others) = All-middle (HasOrigin w.sent) d before after (rw e at x) in
        react-AllOrigins w.sent d from c.copy_kept (told ++ reject true ∷ [])
          (record w.queues { ready = before ++ after })
          (cut_short-IsFaithful d told untold last (
            rw e' at (
              process-IsFaithful lib (circumstances c) d
                (record { store = w.db; messages_processed = m }))))
          (others, y, z)
    Move-AllOrigins {w} (expires d before after e) (x, y, z) =
        let (from, others) = All-middle (HasOrigin w.sent) d before after (rw e at y) in
        ((from, x), others, z)

    Run-AllOrigins : {w : World} → Run lib wire empty_world w → AllOrigins w.sent w.queues
    Run-AllOrigins here = (tt, tt, tt)
    Run-AllOrigins (next r m) = Move-AllOrigins m (Run-AllOrigins r)

  module _ {C T : Type 0} (p : Propagator C) (trace_of : C → Option T)
      (laws : IsPropagator p trace_of) (lib : Libraries) where
    -- The body and the trace that a delivery has from an event message among those sent.
    abbrev pub Joins : List Message → Delivery → Type 0
    Joins sent d =
        (a : Attempt) × (body : List ℕ) × Any (λ m. m ≡ event_message a body) sent
        × (d.body ≡ body)
        × ((c c' : C) (t : T)
            → p.set_calls c ≡ a.trace_fields
            → trace_of c ≡ some t
            → trace_of (extract_trace_context p c' d.headers) ≡ some t)

    HasOrigin-Joins : (sent : List Message) (d : Delivery) → HasOrigin sent d → Joins sent d
    unfolding event_message
    HasOrigin-Joins sent d (a, body, known, same, fields) = (
      a,
      body,
      known,
      same,
      λ c c' t calls has.
          extract_trace_context-inject p trace_of laws c c' t [] d.headers has (rw calls fields),
    )

    -- Whatever stands in one of the three queues at any time, after any number of retries, requeues
    -- and crashes of consumers, stems from a message that a publisher has sent: it has the body of
    -- that message, and if the publisher was in a trace when it injected its context, then the
    -- context that a consumer extracts from the headers is in the same trace. The queues were empty at the start, and AMQP hands on
    -- texts in headers as they are.
    pub deliveries_join_trace :
        {w : World}
        → Run lib wire empty_world w
        → All (Joins w.sent) w.queues.ready
          × All (Joins w.sent) w.queues.retrying
          × All (Joins w.sent) w.queues.dead
    deliveries_join_trace {w} r =
        let (x, y, z) = Run-AllOrigins lib r in
        let joins = HasOrigin-Joins w.sent in
        (
          All-map joins w.queues.ready x,
          All-map joins w.queues.retrying y,
          All-map joins w.queues.dead z,
        )
