-- ===== src/Execution/Consumer/Recovery.antt =====
-- A message whose handling fails for a while. Retries are for this: internal/execution/consumer.go
-- gives up only at the third failure.
use investment_engine.Prelude.{
  ℕ, ◌+◌, ◌≤◌, ◌<◌, pos, ◌+ℤ◌, leb_ℤ, false, List, [], ◌∷◌, ◌++◌, All, length, none, some, ◌≡◌,
  refl, arith, ap, ◌∙◌,
}
use investment_engine.GoError.{GoError}
use investment_engine.Execution.Failure.{transient_failure, classify_failure, to_string}
use investment_engine.Execution.Handler.{Body, handle_order_created}
use investment_engine.Execution.Headers.{Value, Table, retry_attempt}
use investment_engine.Execution.Consumer.{
  Delivery, Counter, increment, ack, Libraries, Circumstances, State, process, settle,
  settle_failure, retry_message, max_delivery_attempts,
}
use investment_engine.Execution.Consumer.Retries.{
  IsWire, carry, executed, again, disposition, follow, retry_attempt-retry_message,
}

module _ {S : Type 0} (lib : Libraries) (body : Body) (s : S) where
  -- The handler fails for now, leaves the store as it was, and a retry copy can be published.
  pub record FailsForNow (c : Circumstances S) : Type 0 where
    pub error : GoError
    pub fails : handle_order_created c.store lib.unmarshal c.prices body s ≡ (some error, s)
    pub transient : classify_failure lib.status_code error ≡ transient_failure
    pub publishes : c.publish_error ≡ none

  module _ (wire : Value → Value) (w : IsWire wire) where
    abbrev message : Table → Delivery
    message headers = record { headers = headers; body = body }

    abbrev at : Counter → State S
    at m = record { store = s; messages_processed = m }

    -- One more delivery of the message is under way.
    send_again :
        (headers : Table) (n : ℕ)
        → retry_attempt headers ≡ pos n
        → n < 2
        → disposition wire
            (message headers)
            (settle_failure transient_failure (message headers) none)
          ≡ again (message (carry wire (retry_message (message headers) (pos n)).headers))
    unfolding settle_failure disposition retry_message
    send_again headers n h small =
        let more : leb_ℤ max_delivery_attempts (pos n +ℤ pos 1) ≡ false = ground arith in
        rw (h, more) refl

    process_failing :
        (c : Circumstances S) (headers : Table) (m : Counter)
        → FailsForNow c
        → process lib c (message headers) (at m) ≡ (
          at (increment (to_string transient_failure) m),
          settle_failure transient_failure (message headers) none,
        )
    unfolding process
    process_failing c headers m f =
        ap (λ r. settle lib c (message headers) m r.0 r.1) f.fails
        ∙ rw (f.transient, f.publishes) refl

    process_succeeding :
        (c : Circumstances S) (headers : Table) (m : Counter) (s' : S)
        → handle_order_created c.store lib.unmarshal c.prices body s ≡ (none, s')
        → process lib c (message headers) (at m)
          ≡ (record { store = s'; messages_processed = increment "success" m }, ack ∷ [])
    unfolding process
    process_succeeding c headers m s' h = ap (λ r. settle lib c (message headers) m r.0 r.1) h

    follow_from :
        (fails rest : List (Circumstances S)) (c : Circumstances S) (s' : S) (n : ℕ)
        (headers : Table) (m : Counter)
        → All FailsForNow fails
        → handle_order_created c.store lib.unmarshal c.prices body s ≡ (none, s')
        → retry_attempt headers ≡ pos n
        → n + length fails ≤ 2
        → ((follow lib wire (fails ++ c ∷ rest) (message headers) (at m)).0 ≡ executed)
          × ((follow lib wire (fails ++ c ∷ rest) (message headers) (at m)).1.store ≡ s')
    unfolding follow disposition
    follow_from [] rest c s' n headers m a succeeds h few =
        rw (process_succeeding c headers m s' succeeds) (refl, refl)
    follow_from (b ∷ fails) rest c s' n headers m (f, a) succeeds h few =
        let next = carry wire (retry_message (message headers) (pos n)).headers in
        rw (process_failing b headers m f, send_again headers n h (omega arith))
          (follow_from fails rest c s' (n + 1) next (increment (to_string transient_failure) m) a
            succeeds (retry_attempt-retry_message wire w (message headers) n (omega arith))
            (omega arith))

    -- A message that has not failed before, whose handling fails for now at most twice and succeeds
    -- then, is executed: it ends as acked, and the store is as the handler that succeeds leaves it.
    -- Handlers that fail for now leave the store as it is, and retry copies can be published.
    pub follow_recovers :
        (fails rest : List (Circumstances S)) (c : Circumstances S) (s' : S) (headers : Table)
        (m : Counter)
        → All FailsForNow fails
        → length fails ≤ 2
        → handle_order_created c.store lib.unmarshal c.prices body s ≡ (none, s')
        → retry_attempt headers ≡ pos 0
        → ((follow lib wire (fails ++ c ∷ rest) (message headers) (at m)).0 ≡ executed)
          × ((follow lib wire (fails ++ c ∷ rest) (message headers) (at m)).1.store ≡ s')
    follow_recovers fails rest c s' headers m a few succeeds h =
        follow_from fails rest c s' 0 headers m a succeeds h (omega arith)
