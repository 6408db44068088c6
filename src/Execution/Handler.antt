-- ===== src/Execution/Handler.antt =====
-- internal/execution/handler.go: decode, validate and execute one order. The store and the price
-- service are the interfaces that the package declares; `unmarshal` is json.Unmarshal into an
-- event. A function that returns only an error returns `none` for nil.
pub mod Contract
use investment_engine.Prelude.{ℕ, ℤ, Bool, true, false, List, Option, none, some, Text}
use investment_engine.GoError.{GoError, wrap, wrap_two}
use investment_engine.Result.{Result, ok, err, Stateful}
use investment_engine.Float64.{Float64}
use investment_engine.Order.Model.{Uuid}
use investment_engine.Order.Event.{OrderCreatedEvent, validate}
use investment_engine.Execution.Failure.{err_invalid_event}

-- The interface `ExecutionStore`, over the state that an implementation keeps.
pub record ExecutionStore (S : Type 0) : Type 0 where
  pub execute_order : Uuid → Float64 → ℤ → Stateful S Bool

-- The interface `PriceGetter`, at the time of one call.
abbrev pub PriceGetter : Type 0
PriceGetter = Text → Result Float64

abbrev pub Body : Type 0
Body = List ℕ

module _ (unmarshal : Body → Result OrderCreatedEvent) where
  unfoldable pub decode_order_created : Body → Result OrderCreatedEvent
  decode_order_created body = elim (unmarshal body) [
    | ok event ↦ ok event
    | err e ↦ err (wrap_two "%w: failed to decode: %w" err_invalid_event e)
  ]

module _ {S : Type 0} (store : ExecutionStore S) where
  -- What `processOrderCreated` makes of the answer of `ExecuteOrder`.
  abbrev pub processed : Result Bool → Option GoError
  processed (err e) = some (wrap "execution: failed to execute order %s: %w" e)
  processed (ok false) = none  -- not PENDING anymore: skipped
  processed (ok true) = none

  abbrev pub execute_at : OrderCreatedEvent → Result Float64 → S → Option GoError × S
  execute_at event (err e) s = (some (wrap "execution: failed to get price for order %s: %w" e), s)
  execute_at event (ok price) s =
      let (r, s') = store.execute_order event.order_id price event.quantity s in (processed r, s')

  unfoldable pub process_order_created : PriceGetter → OrderCreatedEvent → S → Option GoError × S
  process_order_created prices event s = execute_at event (prices event.asset_symbol) s

  abbrev pub process_valid :
      PriceGetter → OrderCreatedEvent → Option GoError → S → Option GoError × S
  process_valid prices event (some e) s = (some (wrap_two "%w: %w" err_invalid_event e), s)
  process_valid prices event none s = process_order_created prices event s

  abbrev pub process_decoded : PriceGetter → Result OrderCreatedEvent → S → Option GoError × S
  process_decoded prices (err e) s = (some e, s)
  process_decoded prices (ok event) s = process_valid prices event (validate event) s

  unfoldable pub handle_order_created :
      (Body → Result OrderCreatedEvent) → PriceGetter → Body → S → Option GoError × S
  unfolding decode_order_created process_order_created
  handle_order_created unmarshal prices body s =
      process_decoded prices (decode_order_created unmarshal body) s
