-- ===== src/Order/Store/Execute.antt =====
-- What `ExecuteOrder` of internal/order/store.go returns, and what it leaves in the tables.
use investment_engine.Prelude.{
  ℕ, ◌≡◌, refl, ◌≢◌, List, [], ◌∷◌, Bool, true, false, ℤ, ◌==◌, texts, ◌⊎◌, inl, arith,
  if◌then◌else◌,
}
use investment_engine.GoError.{sentinel, order_not_found}
use investment_engine.Result.{Result, ok, err}
use investment_engine.Float64.{Float64}
use investment_engine.Order.Model.{Uuid, Order, status_pending, status_executed}
use investment_engine.Order.Store.{
  Db, done, Faults, count_orders, count_with, count_executions, execute_order, update_status,
  fits_integer, count_execution_ids, admits_execution,
}
use investment_engine.Order.Store.Tables.{
  count_orders-update_status, count_with-update_status_old, count_with-le-count_orders,
}
use investment_engine.Order.Store.Invariant.{
  IsConsistent, executed, execute_order_cases, executed-ne-pending,
}

-- Every call of the driver goes through.
pub record IsHealthy (f : Faults) : Type 0 where
  pub begins : f.begins ≡ true
  pub updates : f.updates ≡ true
  pub counts_rows : f.counts_rows ≡ true
  pub inserts : f.inserts ≡ true
  pub commits : f.commits ≡ done
  pub checks_existence : f.checks_existence ≡ true

-- After the UPDATE no order with the id is PENDING.
pending_after :
    (k : Uuid) (os : List Order)
    → count_with status_pending k (update_status status_executed k status_pending os) ≡ 0
pending_after k os =
    ground (
      arith,
      count_with-update_status_old status_executed status_pending k k os executed-ne-pending,
    )

-- Where no order with this id is PENDING, no answer of the driver makes the call change anything
-- or report a transition.
pub none_pending :
    (f : Faults) (execution_id now k : ℕ) (price : Float64) (quantity : ℤ) (db : Db)
    → count_with status_pending k db.orders ≡ 0
    → ((execute_order f execution_id now k price quantity db).1 ≡ db)
      × ((execute_order f execution_id now k price quantity db).0 ≢ ok true)
unfolding execute_order
none_pending f execution_id now k price quantity db h = ground arith

module _ (f : Faults) (execution_id now k : ℕ) (price : Float64) (quantity : ℤ) (db : Db) where
  abbrev run : Result Bool × Db
  run = execute_order f execution_id now k price quantity db

  -- An answer `true` means that exactly one order with this id was PENDING, and that the tables now
  -- hold it as EXECUTED, together with the new execution.
  pub execute_order-true :
      run.0 ≡ ok true
      → (count_with status_pending k db.orders ≡ 1)
        × (run.1 ≡ executed execution_id now k price quantity db)
  unfolding execute_order
  execute_order-true h = ground arith

  -- An answer `false` means that nothing changed and that the order exists.
  pub execute_order-false :
      run.0 ≡ ok false
      → (run.1 ≡ db) × (count_orders k db.orders ≢ 0) × (count_with status_pending k db.orders ≢ 1)
  unfolding execute_order
  execute_order-false h =
      ground (arith, count_orders-update_status status_executed status_pending k k db.orders)

  admitted :
      IsConsistent db
      → count_execution_ids execution_id db.executions ≡ 0
      → fits_integer quantity ≡ true
      → count_with status_pending k db.orders ≡ 1
      → admits_execution
          (record db { orders = update_status status_executed k status_pending db.orders })
          (record {
            id = execution_id;
            order_id = k;
            execution_price = price;
            quantity = quantity;
            executed_at = now;
          })
        ≡ true
  unfolding admits_execution
  admitted c fresh fits one = ground (
    arith,
    c.unique k,
    count_with-le-count_orders status_pending k db.orders,
    count_orders-update_status status_executed status_pending k k db.orders,
  )

  -- With a driver whose calls all go through, `ExecuteOrder` answers `true` and records the
  -- execution if the order is PENDING, the sentinel if there is no order with this id, and `false`
  -- otherwise; in the last two cases nothing changes. The tables are consistent, the execution id is
  -- in no row yet, and the quantity fits an INTEGER.
  pub execute_order-healthy :
      IsHealthy f
      → IsConsistent db
      → count_execution_ids execution_id db.executions ≡ 0
      → fits_integer quantity ≡ true
      → run ≡ (
          if count_with status_pending k db.orders == 1
          then (ok true, executed execution_id now k price quantity db)
          else if count_orders k db.orders == 0
          then (err (sentinel order_not_found), db)
          else (ok false, db))
  unfolding execute_order
  execute_order-healthy h c fresh fits = ground (
    arith,
    admitted c fresh fits,
    count_orders-update_status status_executed status_pending k k db.orders,
  )

  -- No two calls for one order both record an execution: after a call that did, whatever it
  -- returned, every further call leaves the tables alone and does not answer `true`.
  pub execute_order_once :
      (g : Faults) (execution_id' later : ℕ) (price' : Float64) (quantity' : ℤ)
      → count_executions k run.1.executions ≢ count_executions k db.executions
      → ((execute_order g execution_id' later k price' quantity' run.1).1 ≡ run.1)
        × ((execute_order g execution_id' later k price' quantity' run.1).0 ≢ ok true)
  execute_order_once g execution_id' later price' quantity' =
      execute_order_cases
        (λ first.
          count_executions k first.executions ≢ count_executions k db.executions
          → ((execute_order g execution_id' later k price' quantity' first).1 ≡ first)
            × ((execute_order g execution_id' later k price' quantity' first).0 ≢ ok true))
        f execution_id now k price quantity db (λ h. absurd (h refl))
        λ one h. none_pending g execution_id' later k price' quantity' _ (pending_after k db.orders)

-- What may become of an order under `ExecuteOrder` for the id `k`.
abbrev pub Advance : Uuid → Order → Order → Type 0
Advance k o o' =
    (o' ≡ o)
    ⊎ ((o.id ≡ k) × (o.status ≡ status_pending) × (o' ≡ record o { status = status_executed }))

abbrev pub Advances : Uuid → List Order → List Order → Type 0
Advances k [] [] = Unit
Advances k (o ∷ os) (o' ∷ os') = Advance k o o' × Advances k os os'
Advances k _ _ = ⊥

Advances-refl : (k : Uuid) (os : List Order) → Advances k os os
Advances-refl k [] = tt
Advances-refl k (o ∷ os) = (inl refl, Advances-refl k os)

Advances-update_status :
    (k : Uuid) (os : List Order) → Advances k os (update_status status_executed k status_pending os)
unfolding update_status
Advances-update_status k [] = tt
Advances-update_status k (o ∷ os) = (grind texts, Advances-update_status k os)

-- The only transition is from PENDING to EXECUTED, of the order with the given id: every other order
-- stays as it is, and so do all other columns.
pub execute_order-Advances :
    (f : Faults) (execution_id now k : ℕ) (price : Float64) (quantity : ℤ) (db : Db)
    → Advances k db.orders (execute_order f execution_id now k price quantity db).1.orders
execute_order-Advances f execution_id now k price quantity db =
    execute_order_cases (λ db'. Advances k db.orders db'.orders) f execution_id now k price quantity
      db (Advances-refl k db.orders) (λ _. Advances-update_status k db.orders)
