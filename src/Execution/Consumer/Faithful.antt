-- ===== src/Execution/Consumer/Faithful.antt =====
-- The copies that internal/execution/consumer.go publishes: the body and, but for the retry count, the
-- headers of the delivery.
use text.Mathlib.Text.{◌==◌ as str_eq}
use investment_engine.Prelude.{
  ℤ, pos, ◌+ℤ◌, leb_ℤ, ◌≡◌, refl, String, true, false, Option, none, some, List, [], ◌∷◌, ◌++◌, All,
  inl, inr, Bool-cases,
}
use investment_engine.GoError.{GoError}
use investment_engine.Execution.Failure.{
  FailureKind, permanent_failure, transient_failure, classify_failure,
}
use investment_engine.Execution.Handler.{handle_order_created}
use investment_engine.Execution.Headers.{
  Table, retry_count_header, retry_attempt, carrier_get, copy_headers, lookup-insert,
  lookup-copy_headers,
}
use investment_engine.Execution.Consumer.{
  State, send_retry, Action, reject, publish, Libraries, Delivery, Counter, Circumstances,
  retry_message, max_delivery_attempts, settle_failure, settle, process,
}

-- Headers that differ at most in the retry count, as far as the carrier can tell.
abbrev pub SameFields : Table → Table → Type 0
SameFields h h' =
    (key : String) → str_eq retry_count_header key ≡ false → carrier_get h key ≡ carrier_get h' key

-- What the consumer publishes is a copy of its delivery.
abbrev pub IsFaithful : Delivery → Action → Type 0
IsFaithful d (publish m e) = (m.body ≡ d.body) × SameFields m.headers d.headers
IsFaithful d _ = Unit

retry_message-IsFaithful :
    (d : Delivery) (n : ℤ) (e : Option GoError) → IsFaithful d (publish (retry_message d n) e)
unfolding retry_message carrier_get
retry_message-IsFaithful d n e = (
  refl,
  λ key other.
      rw
        (
          lookup-insert retry_count_header key _ (copy_headers d.headers),
          other,
          lookup-copy_headers key d.headers,
        )
        refl,
)

send_retry-IsFaithful : (d : Delivery) (e : Option GoError) → All (IsFaithful d) (send_retry d e)
send_retry-IsFaithful d none = (retry_message-IsFaithful d _ none, (tt, tt))
send_retry-IsFaithful d (some e) = (retry_message-IsFaithful d _ (some e), (tt, tt))

settle_failure-IsFaithful :
    (failure : FailureKind) (d : Delivery) (e : Option GoError)
    → All (IsFaithful d) (settle_failure failure d e)
unfolding settle_failure
settle_failure-IsFaithful permanent_failure d e = (tt, tt)
settle_failure-IsFaithful transient_failure d e =
    elim (Bool-cases (leb_ℤ max_delivery_attempts (retry_attempt d.headers +ℤ pos 1))) [
      | inl out ↦ rw out (tt, tt)
      | inr more ↦ rw more (send_retry-IsFaithful d e)
    ]

pub cut_short-IsFaithful :
    (d : Delivery) (told untold : List Action) (last : Action)
    → All (IsFaithful d) (told ++ last ∷ untold)
    → All (IsFaithful d) (told ++ reject true ∷ [])
cut_short-IsFaithful d [] untold last all = (tt, tt)
cut_short-IsFaithful d (a ∷ told) untold last (f, all) =
    (f, cut_short-IsFaithful d told untold last all)

module _ {S : Type 0} (lib : Libraries) (c : Circumstances S) (d : Delivery) where
  settle-IsFaithful :
      (m : Counter) (e : Option GoError) (s : S) → All (IsFaithful d) (settle lib c d m e s).1
  settle-IsFaithful m none s = (tt, tt)
  settle-IsFaithful m (some e) s =
      settle_failure-IsFaithful (classify_failure lib.status_code e) d c.publish_error

  pub process-IsFaithful : (st : State S) → All (IsFaithful d) (process lib c d st).1
  unfolding process
  process-IsFaithful st =
      let (e, s) = handle_order_created c.store lib.unmarshal c.prices d.body st.store in
      settle-IsFaithful st.messages_processed e s
