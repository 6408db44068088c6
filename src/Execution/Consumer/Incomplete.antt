-- ===== src/Execution/Consumer/Incomplete.antt =====
-- Messages about no valid order (internal/execution/handler.go and consumer.go): what the consumer
-- does with a body that cannot be decoded, or whose event `Validate` refuses.
use investment_engine.Prelude.{
  List, String, Bool, false, Option, none, some, [], ◌∷◌, ◌≡◌, ◌≢◌, refl,
}
use investment_engine.GoError.{GoError, wrap_two, errors_is}
use investment_engine.Result.{Result, ok, err}
use investment_engine.Json.Fields.{IsMissing}
use investment_engine.Json.{Literals, Object}
use investment_engine.Order.Event.{OrderCreatedEvent, validate}
use investment_engine.Order.Wire.{names, EventField, unmarshal_event}
use investment_engine.Order.Wire.Missing.{IsRequired, unmarshal_event-missing}
use investment_engine.Execution.Failure.{err_invalid_event, classify_failure, to_string}
use investment_engine.Execution.Handler.{
  process_decoded, process_valid, handle_order_created, decode_order_created,
}
use investment_engine.Execution.Consumer.{
  Action, Libraries, Delivery, Circumstances, State, reject, increment, process, settle,
  settle_failure,
}

-- A body that makes no valid event.
abbrev IsRefused : Result OrderCreatedEvent → Type 0
IsRefused (err e) = Unit
IsRefused (ok event) = validate event ≢ none

module _ {S : Type 0} (lib : Libraries) (c : Circumstances S) (d : Delivery) (st : State S) where
  abbrev rejected_as_permanent : State S × List Action
  rejected_as_permanent = (
    record { store = st.store; messages_processed = increment "permanent" st.messages_processed },
    reject false ∷ [],
  )

  settle-invalid :
      (m : String) (e : GoError)
      → settle lib c d st.messages_processed (some (wrap_two m err_invalid_event e)) st.store
        ≡ rejected_as_permanent
  unfolding settle_failure to_string classify_failure errors_is
  settle-invalid m e = refl

  abbrev settled : Option GoError × S → State S × List Action
  settled (e, s) = settle lib c d st.messages_processed e s

  validated :
      (event : OrderCreatedEvent) (invalid : Option GoError)
      → invalid ≢ none
      → settled (process_valid c.store c.prices event invalid st.store) ≡ rejected_as_permanent
  validated event none refused = absurd (refused refl)
  validated event (some e) refused = settle-invalid "%w: %w" e

  decoded :
      (r : Result OrderCreatedEvent)
      → IsRefused r
      → settled (
          process_decoded c.store c.prices
            (elim r [
              | ok event ↦ ok event
              | err e ↦ err (wrap_two "%w: failed to decode: %w" err_invalid_event e)
            ])
            st.store)
        ≡ rejected_as_permanent
  decoded (err e) refused = settle-invalid "%w: failed to decode: %w" e
  decoded (ok event) refused = validated event (validate event) refused

  process-IsRefused : IsRefused (lib.unmarshal d.body) → process lib c d st ≡ rejected_as_permanent
  unfolding process handle_order_created decode_order_created
  process-IsRefused refused = decoded (lib.unmarshal d.body) refused

  -- A delivery whose JSON object has no member for some field that every order has (the limit price
  -- and the time of creation are not such), whatever its other members hold, is rejected to the dead
  -- letters at once, counted as permanent, and leaves the store as it is: no zero value stands in.
  pub process-missing :
      (l : Literals) (folds : String → String → Bool) (object : Object) (f : EventField)
      → lib.unmarshal d.body ≡ unmarshal_event l folds object
      → IsRequired f
      → IsMissing folds names f object
      → process lib c d st ≡ (
        record {
          store = st.store;
          messages_processed = increment "permanent" st.messages_processed;
        },
        reject false ∷ [],
      )
  process-missing l folds object f decodes required missing =
      process-IsRefused (rw decodes (refused_of (unmarshal_event l folds object) refl))
    where
      refused_of : (r : Result OrderCreatedEvent) → unmarshal_event l folds object ≡ r → IsRefused r
      refused_of (err e) h = tt
      refused_of (ok event) h = unmarshal_event-missing l folds f object event required missing h
