-- ===== src/System/Messages/Settlement.antt =====
-- When a consumer that acks a message is right to forget it: the order is settled then, and it stays
-- so.
use investment_engine.Prelude.{
  ◌≡◌, refl, Bool, true, false, Option, none, some, List, [], ◌∷◌, All, ◌+◌, arith, text_eq, inl,
  inr,
}
use investment_engine.GoError.{GoError}
use investment_engine.Result.{Result, ok, err}
use investment_engine.Float64.{Float64}
use investment_engine.Order.Model.{Uuid, Instant, Order, status_pending, status_executed}
use investment_engine.Order.Event.{OrderCreatedEvent, validate}
use investment_engine.Order.Store.{
  Db, Reply, Faults, create, execute_order, count_orders, count_with,
}
use investment_engine.Order.Store.Tables.{
  count_orders-update_status, count_with-update_status_old, count_with-le-count_orders,
}
use investment_engine.Order.Store.Invariant.{
  IsConsistent, create_cases, execute_order_cases, executed-ne-pending,
}
use investment_engine.Order.Store.Execute.{execute_order-true, execute_order-false}
use investment_engine.Execution.Handler.{
  ExecutionStore, PriceGetter, Body, decode_order_created, handle_order_created, execute_at,
  processed, process_valid, process_decoded, process_order_created,
}
use investment_engine.Order.PostgresStore.{postgres_execution_store}
use investment_engine.System.Statuses.{IsPendingOrExecuted}

-- The order exists and is no longer PENDING.
abbrev pub IsSettled : Uuid → Db → Type 0
IsSettled k db = (count_orders k db.orders ≡ 1) × (count_with status_pending k db.orders ≡ 0)

-- The body is about an order that is settled.
abbrev pub IsDone : (Body → Result OrderCreatedEvent) → Body → Db → Type 0
IsDone unmarshal body db =
    (event : OrderCreatedEvent) × (unmarshal body ≡ ok event) × IsSettled event.order_id db

pub create-IsSettled :
    (k : Uuid) (reply : Reply) (cause : GoError) (now : Instant) (o : Order) (db : Db)
    → IsSettled k db
    → IsSettled k (create reply cause now o db).1
unfolding count_orders count_with
create-IsSettled k reply cause now o db s =
    create_cases (IsSettled k) reply cause now o db s (λ fresh. ground (arith, s))

module _ (f : Faults) (execution_id : Uuid) (now : Instant) where
  pub execute_order-IsSettled :
      (k j : Uuid) (price : Float64) (quantity : _) (db : Db)
      → IsSettled k db
      → IsSettled k (execute_order f execution_id now j price quantity db).1
  execute_order-IsSettled k j price quantity db s =
      execute_order_cases (IsSettled k) f execution_id now j price quantity db s λ one. ground (
        arith,
        s,
        count_orders-update_status status_executed status_pending j k db.orders,
        count_with-update_status_old status_executed status_pending j k db.orders
            executed-ne-pending,
      )

  -- `ExecuteOrder` answers without an error only about an order that is settled by then.
  execute_order-ok :
      (k : Uuid) (price : Float64) (quantity : _) (db : Db) (b : Bool)
      → IsConsistent db
      → (execute_order f execution_id now k price quantity db).0 ≡ ok b
      → IsSettled k (execute_order f execution_id now k price quantity db).1
  execute_order-ok k price quantity db true c h =
      let (one, after) = execute_order-true f execution_id now k price quantity db h in
      rw after (
        ground (
          arith,
          one,
          c.unique k,
          count_with-le-count_orders status_pending k db.orders,
          count_orders-update_status status_executed status_pending k k db.orders,
          count_with-update_status_old status_executed status_pending k k db.orders
              executed-ne-pending,
        ))
  execute_order-ok k price quantity db false c h =
      let (after, known, few) = execute_order-false f execution_id now k price quantity db h in
      rw after (
        ground
          (arith, known, few, c.unique k, count_with-le-count_orders status_pending k db.orders))

  module _ (unmarshal : Body → Result OrderCreatedEvent) (prices : PriceGetter) (body : Body)
      (db : Db) (c : IsConsistent db) where
    abbrev store : ExecutionStore Db
    store = postgres_execution_store f execution_id now

    executed-IsDone :
        (event : OrderCreatedEvent) (price : Float64) (r : Result Bool)
        → unmarshal body ≡ ok event
        → (execute_order f execution_id now event.order_id price event.quantity db).0 ≡ r
        → processed store r ≡ none
        → IsDone unmarshal body
            (execute_order f execution_id now event.order_id price event.quantity db).1
    executed-IsDone event price (err e) u a h = absurd (ground arith)
    executed-IsDone event price (ok b) u a h =
        (event, u, execute_order-ok event.order_id price event.quantity db b c a)

    priced-IsDone :
        (event : OrderCreatedEvent) (r : Result Float64)
        → unmarshal body ≡ ok event
        → (execute_at store event r db).0 ≡ none
        → IsDone unmarshal body (execute_at store event r db).1
    priced-IsDone event (err e) u h = absurd (ground arith)
    priced-IsDone event (ok price) u h =
        executed-IsDone event price
          (execute_order f execution_id now event.order_id price event.quantity db).0 u refl h

    valid-IsDone :
        (event : OrderCreatedEvent) (invalid : Option GoError)
        → unmarshal body ≡ ok event
        → (process_valid store prices event invalid db).0 ≡ none
        → IsDone unmarshal body (process_valid store prices event invalid db).1
    unfolding process_order_created
    valid-IsDone event (some e) u h = absurd (ground arith)
    valid-IsDone event none u h = priced-IsDone event (prices event.asset_symbol) u h

    decoded-IsDone :
        (r : Result OrderCreatedEvent)
        → decode_order_created unmarshal body ≡ r
        → (process_decoded store prices r db).0 ≡ none
        → IsDone unmarshal body (process_decoded store prices r db).1
    unfolding decode_order_created
    decoded-IsDone (err e) u h = absurd (ground arith)
    decoded-IsDone (ok event) u h = valid-IsDone event (validate event) (ground arith) h

    -- A delivery whose handler returns nil is about an order that is settled.
    pub handle_order_created-IsDone :
        (handle_order_created store unmarshal prices body db).0 ≡ none
        → IsDone unmarshal body (handle_order_created store unmarshal prices body db).1
    unfolding handle_order_created
    handle_order_created-IsDone h = decoded-IsDone (decode_order_created unmarshal body) refl h

-- Where no other status occurs, a settled order is EXECUTED.
pub settled_executed :
    (k : Uuid) (os : List Order)
    → All IsPendingOrExecuted os
    → count_orders k os ≡ count_with status_pending k os + count_with status_executed k os
unfolding count_orders count_with text_eq
settled_executed k [] a = refl
settled_executed k (o ∷ os) (inl h, a) = ground (arith, h, settled_executed k os a)
settled_executed k (o ∷ os) (inr h, a) = ground (arith, h, settled_executed k os a)
