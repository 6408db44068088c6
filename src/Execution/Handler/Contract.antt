-- ===== src/Execution/Handler/Contract.antt =====
-- What the handler of internal/execution/handler.go promises over any store that keeps the contract
-- of `ExecuteOrder`, and how its failures are classified.
use investment_engine.Prelude.{ℤ, Bool, true, false, Option, none, some, ◌≡◌, refl, ap, ◌∙◌, arith}
use investment_engine.GoError.{GoError, GrpcCode, wrap, wrap_two, errors_is}
use investment_engine.Result.{Result, ok, err}
use investment_engine.Float64.{Float64}
use investment_engine.Order.Model.{Uuid}
use investment_engine.Order.Event.{OrderCreatedEvent, validate}
use investment_engine.Execution.Failure.{
  FailureKind, permanent_failure, classify_failure, IsStatusCode, err_invalid_event,
}
use investment_engine.Execution.Handler.{
  ExecutionStore, PriceGetter, Body, processed, execute_at, process_valid, handle_order_created,
  process_order_created, process_decoded, decode_order_created,
}

-- A store keeps its invariant, and an order that is settled changes nothing.
pub record IsExecutionStore {S : Type 0} (store : ExecutionStore S) (Good : S → Type 0)
    (Settled : Uuid → S → Type 0) : Type 0 where
  pub keeps :
      (k : Uuid) (price : Float64) (quantity : ℤ) (s : S)
      → Good s
      → Good (store.execute_order k price quantity s).1
  pub skips :
      (k : Uuid) (price : Float64) (quantity : ℤ) (s : S)
      → Settled k s
      → (store.execute_order k price quantity s).1 ≡ s

module _ {S : Type 0} (store : ExecutionStore S) (unmarshal : Body → Result OrderCreatedEvent)
    (prices : PriceGetter) (body : Body) (s : S) where
  module _ {ℓ} (P : S → Type ℓ) (old : P s)
      (new : (event : OrderCreatedEvent) (price : Float64)
        → unmarshal body ≡ ok event
        → P (store.execute_order event.order_id price event.quantity s).1) where
    priced_cases :
        (event : OrderCreatedEvent) (r : Result Float64)
        → unmarshal body ≡ ok event
        → P (execute_at store event r s).1
    priced_cases event (err e) h = old
    priced_cases event (ok price) h = new event price h

    valid_cases :
        (event : OrderCreatedEvent) (invalid : Option GoError)
        → unmarshal body ≡ ok event
        → P (process_valid store prices event invalid s).1
    unfolding process_order_created
    valid_cases event (some e) h = old
    valid_cases event none h = priced_cases event (prices event.asset_symbol) h

    decoded_cases :
        (r : Result OrderCreatedEvent)
        → decode_order_created unmarshal body ≡ r
        → P (process_decoded store prices r s).1
    unfolding decode_order_created
    decoded_cases (err e) h = old
    decoded_cases (ok event) h = valid_cases event (validate event) (ground arith)

    -- The state after a delivery is the one from before it, or the store's after one `ExecuteOrder`
    -- with the data of the event.
    pub handle_order_created_cases : P (handle_order_created store unmarshal prices body s).1
    unfolding handle_order_created
    handle_order_created_cases = decoded_cases (decode_order_created unmarshal body) refl

  module _ {Good : S → Type 0} {Settled : Uuid → S → Type 0}
      (c : IsExecutionStore store Good Settled) where
    -- Whatever a message holds and whatever fails, the store's invariant is kept.
    pub handle_order_created-keeps :
        Good s → Good (handle_order_created store unmarshal prices body s).1
    handle_order_created-keeps g =
        handle_order_created_cases Good g
          λ event price _. c.keeps event.order_id price event.quantity s g

    -- A message about a settled order changes nothing.
    pub handle_order_created-skips :
        (event : OrderCreatedEvent)
        → unmarshal body ≡ ok event
        → Settled event.order_id s
        → (handle_order_created store unmarshal prices body s).1 ≡ s
    handle_order_created-skips event e settled =
        handle_order_created_cases (λ s'. s' ≡ s) refl
          λ event' price e'.
            c.skips event'.order_id price event'.quantity s
              (let same : event ≡ event' = cc in rw (← same) settled)

-- A body that decodes to a valid event goes on to the price and the store.
pub handle_order_created_valid :
    {S : Type 0} (store : ExecutionStore S) (unmarshal : Body → Result OrderCreatedEvent)
    (prices : PriceGetter) (body : Body) (s : S) (event : OrderCreatedEvent)
    → unmarshal body ≡ ok event
    → validate event ≡ none
    → handle_order_created store unmarshal prices body s
      ≡ execute_at store event (prices event.asset_symbol) s
unfolding handle_order_created decode_order_created process_order_created
handle_order_created_valid store unmarshal prices body s event decodes valid =
    ap
      (λ r.
        process_decoded store prices
          (elim r [
            | ok event ↦ ok event
            | err e ↦ err (wrap_two "%w: failed to decode: %w" err_invalid_event e)
          ])
          s)
      decodes
    ∙ ap (λ r. process_valid store prices event r s) valid

abbrev pub kind_of : (GoError → GrpcCode) → Option GoError → Option FailureKind
kind_of code none = none
kind_of code (some e) = some (classify_failure code e)

-- `%w` hides nothing from the classification.
pub classify_failure-wrap :
    (code : GoError → GrpcCode)
    → IsStatusCode code
    → (m : _) (e : GoError) → classify_failure code (wrap m e) ≡ classify_failure code e
unfolding classify_failure errors_is
classify_failure-wrap code h m e = rw (h.of_wrap m e)

module _ (code : GoError → GrpcCode) {S : Type 0} (store : ExecutionStore S)
    (unmarshal : Body → Result OrderCreatedEvent) (prices : PriceGetter) where
  -- The handler as its caller sees it: the kind of failure, if any, and the state.
  abbrev executed_kind : Result Bool × S → Option FailureKind × S
  executed_kind (ok b, s) = (none, s)
  executed_kind (err e, s) = (some (classify_failure code e), s)

  abbrev priced_kind : OrderCreatedEvent → Result Float64 → S → Option FailureKind × S
  priced_kind event (err e) s = (some (classify_failure code e), s)
  priced_kind event (ok price) s =
      executed_kind (store.execute_order event.order_id price event.quantity s)

  abbrev valid_kind : OrderCreatedEvent → Option GoError → S → Option FailureKind × S
  valid_kind event (some e) s = (some permanent_failure, s)
  valid_kind event none s = priced_kind event (prices event.asset_symbol) s

  abbrev pub decoded_kind : Result OrderCreatedEvent → S → Option FailureKind × S
  decoded_kind (err e) s = (some permanent_failure, s)
  decoded_kind (ok event) s = valid_kind event (validate event) s

  -- The answer of the handler, with its error replaced by the kind.
  abbrev pub by_kind : Option GoError × S → Option FailureKind × S
  by_kind (e, s) = (kind_of code e, s)

  module _ (h : IsStatusCode code) where
    executed_kinds :
        (r : Result Bool) (s : S) → by_kind (processed store r, s) ≡ executed_kind (r, s)
    executed_kinds (err e) s = rw (classify_failure-wrap code h)
    executed_kinds (ok false) s = refl
    executed_kinds (ok true) s = refl

    priced_kinds :
        (event : OrderCreatedEvent) (r : Result Float64) (s : S)
        → by_kind (execute_at store event r s) ≡ priced_kind event r s
    priced_kinds event (err e) s = rw (classify_failure-wrap code h)
    priced_kinds event (ok price) s =
        let (r, s') = store.execute_order event.order_id price event.quantity s in
        executed_kinds r s'

    valid_kinds :
        (event : OrderCreatedEvent) (invalid : Option GoError) (s : S)
        → by_kind (process_valid store prices event invalid s) ≡ valid_kind event invalid s
    unfolding process_order_created classify_failure errors_is
    valid_kinds event (some e) s = refl
    valid_kinds event none s = priced_kinds event (prices event.asset_symbol) s

    decoded_kinds :
        (r : Result OrderCreatedEvent) (s : S)
        → by_kind (
            process_decoded store prices
              (elim r [
                | ok event ↦ ok event
                | err e ↦ err (wrap_two "%w: failed to decode: %w" err_invalid_event e)
              ])
              s)
          ≡ decoded_kind r s
    unfolding classify_failure errors_is
    decoded_kinds (err e) s = refl
    decoded_kinds (ok event) s = valid_kinds event (validate event) s

    -- An event that cannot be decoded or is invalid is a permanent failure that changes nothing;
    -- otherwise the failure has the kind of the price service's error, and then nothing changes
    -- either, or else the kind of the store's error, in the state that the store has left.
    pub handle_order_created-kinds :
        (body : Body) (s : S)
        → by_kind (handle_order_created store unmarshal prices body s)
          ≡ decoded_kind (unmarshal body) s
    unfolding handle_order_created
    handle_order_created-kinds body s = decoded_kinds (unmarshal body) s
