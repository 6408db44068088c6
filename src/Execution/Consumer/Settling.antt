-- ===== src/Execution/Consumer/Settling.antt =====
-- Every delivery is settled once, and none is acked before its work, or a copy of it, is safe.
use investment_engine.Prelude.{
  ℕ, suc, ◌+◌, Bool, true, false, List, [], ◌∷◌, Option, none, some, ◌≡◌, refl, arith,
  if◌then◌else◌,
}
use investment_engine.GoError.{GoError}
use investment_engine.Execution.Failure.{
  FailureKind, permanent_failure, transient_failure, to_string, classify_failure,
}
use investment_engine.Execution.Handler.{handle_order_created}
use investment_engine.Execution.Consumer.{
  Delivery, Publishing, Action, ack, reject, publish, Libraries, Circumstances, Counter, State,
  increment, process, settle, settle_failure, send_retry, retry_message, retry_queue,
}

-- A copy of the delivery that reaches the retry queue and survives a restart of the broker.
pub record IsCopy (d : Delivery) (m : Publishing) : Type 0 where
  pub body : m.body ≡ d.body
  pub exchange : m.exchange ≡ ""
  pub routing_key : m.routing_key ≡ retry_queue
  pub persistent : m.persistent ≡ true

-- How a delivery whose handler returned an error may be settled.
pub data FailureSettled (d : Delivery) (actions : List Action) : Type 0 where
  dead_lettered : actions ≡ reject false ∷ [] → FailureSettled d actions
  copied :
      (m : Publishing) → IsCopy d m → actions ≡ publish m none ∷ ack ∷ [] → FailureSettled d actions
  requeued :
      (m : Publishing) (e : GoError)
      → actions ≡ publish m (some e) ∷ reject true ∷ []
      → FailureSettled d actions

abbrev pub Settled : Delivery → Option GoError → List Action → Type 0
Settled d none actions = actions ≡ ack ∷ []
Settled d (some e) actions = FailureSettled d actions

retry_message-IsCopy : (d : Delivery) (n : _) → IsCopy d (retry_message d n)
unfolding retry_message
retry_message-IsCopy d n = record {
  body = refl;
  exchange = refl;
  routing_key = refl;
  persistent = refl;
}

send_or_reject-FailureSettled :
    (out_of_retries : Bool) (d : Delivery) (publish_error : Option GoError)
    → FailureSettled d (if out_of_retries then reject false ∷ [] else send_retry d publish_error)
send_or_reject-FailureSettled true d e = dead_lettered refl
send_or_reject-FailureSettled false d none = copied _ (retry_message-IsCopy d _) refl
send_or_reject-FailureSettled false d (some e) = requeued _ e refl

settle_failure-FailureSettled :
    (failure : FailureKind) (d : Delivery) (publish_error : Option GoError)
    → FailureSettled d (settle_failure failure d publish_error)
unfolding settle_failure
settle_failure-FailureSettled permanent_failure d e = dead_lettered refl
settle_failure-FailureSettled transient_failure d e = send_or_reject-FailureSettled _ d e

settle-Settled :
    {S : Type 0} (lib : Libraries) (c : Circumstances S) (d : Delivery) (m : Counter)
    (e : Option GoError) (s : S)
    → Settled d e (settle lib c d m e s).1
settle-Settled lib c d m none s = refl
settle-Settled lib c d m (some e) s =
    settle_failure-FailureSettled (classify_failure lib.status_code e) d c.publish_error

module _ {S : Type 0} (lib : Libraries) (c : Circumstances S) (d : Delivery) (st : State S) where
  -- A delivery is settled exactly once: by an ack alone if the handler returned nil, and otherwise
  -- by a rejection to the dead letters, by an ack behind the successful publishing of a persistent
  -- copy to the retry queue, or, if that publishing failed, by a rejection that requeues it.
  pub process-Settled :
      Settled d
        (handle_order_created c.store lib.unmarshal c.prices d.body st.store).0
        (process lib c d st).1
  unfolding process
  process-Settled =
      let (e, s) = handle_order_created c.store lib.unmarshal c.prices d.body st.store in
      settle-Settled lib c d st.messages_processed e s

abbrev pub processed_in_all : Counter → ℕ
processed_in_all m = m "success" + m "permanent" + m "transient"

increment-processed_in_all :
    (failure : FailureKind) (m : Counter)
    → processed_in_all (increment (to_string failure) m) ≡ suc (processed_in_all m)
unfolding increment to_string
increment-processed_in_all permanent_failure m = omega arith
increment-processed_in_all transient_failure m = omega arith

settle-processed_in_all :
    {S : Type 0} (lib : Libraries) (c : Circumstances S) (d : Delivery) (m : Counter)
    (e : Option GoError) (s : S)
    → processed_in_all (settle lib c d m e s).0.messages_processed ≡ suc (processed_in_all m)
unfolding increment
settle-processed_in_all lib c d m none s = omega arith
settle-processed_in_all lib c d m (some e) s =
    increment-processed_in_all (classify_failure lib.status_code e) m

module _ {S : Type 0} (lib : Libraries) (c : Circumstances S) (d : Delivery) (st : State S) where
  -- A delivery is counted once, under one of the three labels.
  pub process-processed_in_all :
      processed_in_all (process lib c d st).0.messages_processed
      ≡ suc (processed_in_all st.messages_processed)
  unfolding process
  process-processed_in_all =
      let (e, s) = handle_order_created c.store lib.unmarshal c.prices d.body st.store in
      settle-processed_in_all lib c d st.messages_processed e s
