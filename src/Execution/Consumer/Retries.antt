-- ===== src/Execution/Consumer/Retries.antt =====
-- One message on its way through the queues. A rejected delivery goes to the dead letters, a
-- requeued one comes back as it was, and a published copy comes back with its headers as the wire
-- has carried them: that is what the topology (internal/execution/topology.go) asks of the broker.
use text.Mathlib.TextPositions.{eq_refl}
use investment_engine.Prelude.{
  ℕ, ◌+◌, ◌≤◌, ◌<◌, ◌^◌, ℤ, pos, ◌+ℤ◌, leb_ℤ, String, true, false, List, [], ◌∷◌, All, length,
  Option, none, some, ◌≡◌, refl, inl, inr, arith, Bool-cases,
}
use investment_engine.GoError.{GoError}
use investment_engine.Execution.Failure.{
  FailureKind, permanent_failure, transient_failure, classify_failure,
}
use investment_engine.Execution.Handler.{handle_order_created}
use investment_engine.Execution.Headers.{
  Table, Value, int, int32, lookup, insert, copy_headers, retry_count_header, retry_attempt,
  lookup-insert,
}
use investment_engine.Execution.Consumer.Settling.{processed_in_all, process-processed_in_all}
use investment_engine.Execution.Consumer.{
  Delivery, Action, ack, reject, publish, Libraries, Circumstances, Counter, State, process, settle,
  settle_failure, retry_message, max_delivery_attempts,
}

-- What amqp091-go makes of a header value on its way through the broker: an `int` that fits 32 bits
-- arrives as an int32, and an int32 as itself.
pub record IsWire (wire : Value → Value) : Type 0 where
  pub of_int : (n : ℕ) → n < 2 ^ 31 → wire (int (pos n)) ≡ int32 (pos n)
  pub of_int32 : (n : ℤ) → wire (int32 n) ≡ int32 n

abbrev pub carry : (Value → Value) → Table → Table
carry wire [] = []
carry wire ((k, v) ∷ m) = (k, wire v) ∷ carry wire m

-- Where a message stands after one delivery of it.
pub data Disposition : Type 0 where
  executed : Disposition
  dead_lettered : Disposition
  again : Delivery → Disposition
  unsettled : Disposition

unfoldable pub disposition : (Value → Value) → Delivery → List Action → Disposition
disposition wire d (ack ∷ []) = executed
disposition wire d (reject false ∷ []) = dead_lettered
disposition wire d (publish m none ∷ ack ∷ []) =
    again (record { headers = carry wire m.headers; body = m.body })
disposition wire d (publish m (some e) ∷ reject true ∷ []) = again d
disposition _ _ _ = unsettled

lookup-carry :
    (wire : Value → Value) (k : String) (m : Table) {v : Value}
    → lookup k m ≡ some v
    → lookup k (carry wire m) ≡ some (wire v)
unfolding lookup
lookup-carry wire k [] h = ground arith
lookup-carry wire k ((j, w) ∷ m) {v} h = ground (arith, lookup-carry wire k m {v = v})

pos_add_one : (n : ℕ) → pos n +ℤ pos 1 ≡ pos (n + 1)
pos_add_one n = ground arith

lookup-insert_self : (k : String) (v : Value) (m : Table) → lookup k (insert k v m) ≡ some v
lookup-insert_self k v m = rw (lookup-insert k k v m, eq_refl k)

-- A retry copy comes back with its count of failures one higher, and with the same body.
pub retry_attempt-retry_message :
    (wire : Value → Value)
    → IsWire wire
    → (d : Delivery) (n : ℕ) → n + 1 < 2 ^ 31
    → retry_attempt (carry wire (retry_message d (pos n)).headers) ≡ pos (n + 1)
unfolding retry_attempt retry_message
retry_attempt-retry_message wire w d n fits = rw (
  lookup-carry wire retry_count_header _
      (lookup-insert_self retry_count_header (int (pos n +ℤ pos 1)) (copy_headers d.headers)),
  pos_add_one n,
  w.of_int (n + 1) fits,
)

-- On to the next delivery of the message, if there is to be one.
abbrev pub continue :
    {S : Type 0}
    → (Delivery → State S → Disposition × State S)
    → Disposition
    → State S
    → Disposition × State S
continue next executed st = (executed, st)
continue next dead_lettered st = (dead_lettered, st)
continue next (again d) st = next d st
continue next unsettled st = (unsettled, st)

-- The deliveries of one message, one after the other, until it is settled for good.
unfoldable pub follow :
    {S : Type 0}
    → Libraries
    → (Value → Value)
    → List (Circumstances S)
    → Delivery
    → State S
    → Disposition × State S
follow lib wire [] d st = (again d, st)
follow lib wire (c ∷ cs) d st =
    let (st', actions) = process lib c d st in
    continue (follow lib wire cs) (disposition wire d actions) st'

-- The message needs no further delivery.
abbrev pub IsOver : Disposition → Type 0
IsOver executed = Unit
IsOver dead_lettered = Unit
IsOver _ = ⊥

-- One delivery, whose retry copy can be published, ends the message or brings it closer to its end.
abbrev Progress : ℕ → Delivery → Disposition → Type 0
Progress n d executed = Unit
Progress n d dead_lettered = Unit
Progress n d (again d') =
    (n + 1 < 3) × (retry_attempt d'.headers ≡ pos (n + 1)) × (d'.body ≡ d.body)
Progress n d unsettled = ⊥

module _ (wire : Value → Value) (w : IsWire wire) where
  settle_failure-Progress :
      (n : ℕ) (failure : FailureKind) (d : Delivery)
      → retry_attempt d.headers ≡ pos n
      → Progress n d (disposition wire d (settle_failure failure d none))
  unfolding settle_failure disposition
  settle_failure-Progress n permanent_failure d e = tt
  settle_failure-Progress n transient_failure d e =
      rw e (elim (Bool-cases (leb_ℤ max_delivery_attempts (pos n +ℤ pos 1))) [
        | inl out ↦ rw out tt
        | inr more ↦ rw more (
          ground arith,
          retry_attempt-retry_message wire w d n (ground arith),
          unfold retry_message in refl,
        )
      ])

  module _ {S : Type 0} (lib : Libraries) where
    settle-Progress :
        (c : Circumstances S) (n : ℕ) (d : Delivery) (m : Counter) (e : Option GoError) (s : S)
        → c.publish_error ≡ none
        → retry_attempt d.headers ≡ pos n
        → Progress n d (disposition wire d (settle lib c d m e s).1)
    unfolding disposition
    settle-Progress c n d m none s p h = tt
    settle-Progress c n d m (some e) s p h =
        rw p (settle_failure-Progress n (classify_failure lib.status_code e) d h)

    process-Progress :
        (c : Circumstances S) (n : ℕ) (d : Delivery) (st : State S)
        → c.publish_error ≡ none
        → retry_attempt d.headers ≡ pos n
        → Progress n d (disposition wire d (process lib c d st).1)
    unfolding process
    process-Progress c n d st p h =
        let (e, s) = handle_order_created c.store lib.unmarshal c.prices d.body st.store in
        settle-Progress c n d st.messages_processed e s p h

    continue-IsOver :
        (n : ℕ) (d : Delivery) (next : Delivery → State S → Disposition × State S) (st : State S)
        → ((d' : Delivery)
            → n + 1 < 3
            → retry_attempt d'.headers ≡ pos (n + 1)
            → IsOver (next d' st).0
              × (processed_in_all (next d' st).1.messages_processed + n + 1
                  ≤ processed_in_all st.messages_processed + 3))
        → (r : Disposition) → Progress n d r
        → processed_in_all st.messages_processed + n ≤ processed_in_all st.messages_processed + 2
        → IsOver (continue next r st).0
          × (processed_in_all (continue next r st).1.messages_processed + n
              ≤ processed_in_all st.messages_processed + 2)
    continue-IsOver n d next st later executed g b = (tt, b)
    continue-IsOver n d next st later dead_lettered g b = (tt, b)
    continue-IsOver n d next st later (again d') (more, h, _) b =
        let (over, bound) = later d' more h in (over, omega arith)
    continue-IsOver n d next st later unsettled g b = absurd g

    follow_bounded :
        (cs : List (Circumstances S)) (n : ℕ) (d : Delivery) (st : State S)
        → All (λ c. c.publish_error ≡ none) cs
        → retry_attempt d.headers ≡ pos n
        → n ≤ 2
        → 3 ≤ n + length cs
        → IsOver (follow lib wire cs d st).0
          × (processed_in_all (follow lib wire cs d st).1.messages_processed + n
              ≤ processed_in_all st.messages_processed + 3)
    unfolding follow
    follow_bounded [] n d st p h small enough = absurd (omega arith)
    follow_bounded (c ∷ cs) n d st (p, ps) h small enough =
        let st' = (process lib c d st).0 in
        let counted = process-processed_in_all lib c d st in
        let (over, bound) =
          continue-IsOver n d (follow lib wire cs) st'
            (λ d' more h'.
              let (over', bound') =
                follow_bounded cs (n + 1) d' st' ps h' (omega arith) (omega arith) in
              (over', omega arith))
            (disposition wire d (process lib c d st).1) (process-Progress c n d st p h)
            (omega arith) in
        (over, omega (arith, bound, counted))

    -- Three deliveries end a message that has not failed before, if its retry copies can be
    -- published: it is executed or dead-lettered, whatever the message holds and the dependencies
    -- do, and at most three deliveries of it are processed.
    pub follow-IsOver :
        (cs : List (Circumstances S)) (d : Delivery) (st : State S)
        → All (λ c. c.publish_error ≡ none) cs
        → retry_attempt d.headers ≡ pos 0
        → 3 ≤ length cs
        → IsOver (follow lib wire cs d st).0
          × (processed_in_all (follow lib wire cs d st).1.messages_processed
              ≤ processed_in_all st.messages_processed + 3)
    follow-IsOver cs d st p h enough =
        let (over, bound) = follow_bounded cs 0 d st p h (omega arith) (omega arith) in
        (over, omega arith)
