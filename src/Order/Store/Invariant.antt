-- ===== src/Order/Store/Invariant.antt =====
-- What holds of the tables after any history of `Create` and `ExecuteOrder`, whatever the driver
-- answered.
use investment_engine.Prelude.{
  ◌≤◌, ◌≡◌, refl, ◌≢◌, ◌∷◌, true, false, ℤ, text_eq, Bool-cases, inl, inr, arith,
}
use investment_engine.GoError.{GoError}
use investment_engine.Float64.{Float64}
use investment_engine.Order.Model.{Uuid, Instant, Order, status_pending, status_executed}
use investment_engine.Order.Store.{
  Db, Reply, done, refused, lost, Faults, Execution, count_orders, count_with, count_executions,
  create, execute_order, after_insert, admits_order, update_status, empty_db,
}
use investment_engine.Order.Store.Tables.{count_orders-update_status, count_with-update_status_new}

-- Order ids are unique, and an order has one execution if it is EXECUTED and none otherwise.
pub record IsConsistent (db : Db) : Type 0 where
  pub unique : (k : Uuid) → count_orders k db.orders ≤ 1
  pub effects :
      (k : Uuid) → count_executions k db.executions ≡ count_with status_executed k db.orders

pub executed-ne-pending : status_executed ≢ status_pending
executed-ne-pending e = cc

pub empty_db-IsConsistent : IsConsistent empty_db
unfolding count_orders count_executions count_with
empty_db-IsConsistent = record { unique = λ k. omega arith; effects = λ k. refl }

insert_order-IsConsistent :
    (db : Db) (o : Order)
    → count_orders o.id db.orders ≡ 0
    → text_eq o.status status_executed ≡ false
    → IsConsistent db
    → IsConsistent (record db { orders = o ∷ db.orders })
unfolding count_orders count_with
insert_order-IsConsistent db o fresh pending c = record {
  unique = λ k. ground (arith, c.unique k);
  effects = λ k. ground (arith, c.effects k);
}

admits_order-fresh :
    (db : Db) (o : Order) → admits_order db o ≡ true → count_orders o.id db.orders ≡ 0
unfolding admits_order
admits_order-fresh db o h = ground arith

after_insert_cases {ℓ} :
    (P : Db → Type ℓ) (reply : Reply) (e : GoError) (db : Db) (row : Order)
    → P db
    → P (record db { orders = row ∷ db.orders })
    → P (after_insert reply e db row (record db { orders = row ∷ db.orders })).1
unfolding after_insert
after_insert_cases P done e db row old new = new
after_insert_cases P refused e db row old new = old
after_insert_cases P lost e db row old new = new

-- The tables after `Create` are those from before it, or those with the new row.
pub create_cases {ℓ} :
    (P : Db → Type ℓ) (reply : Reply) (e : GoError) (now : Instant) (o : Order) (db : Db)
    → P db
    → (count_orders o.id db.orders ≡ 0
        → P (record db { orders = record o { created_at = now } ∷ db.orders }))
    → P (create reply e now o db).1
unfolding create
create_cases P reply e now o db old new =
    let row : Order = record o { created_at = now } in
    elim (Bool-cases (admits_order db row)) [
      | inl ok ↦
          rw ok (after_insert_cases P reply e db row old (new (admits_order-fresh db row ok)))
      | inr bad ↦ rw bad old
    ]

-- `Create` of an order that is not EXECUTED keeps the tables consistent.
pub create-IsConsistent :
    (reply : Reply) (e : GoError) (now : Instant) (o : Order) (db : Db)
    → text_eq o.status status_executed ≡ false
    → IsConsistent db
    → IsConsistent (create reply e now o db).1
create-IsConsistent reply e now o db pending c =
    create_cases IsConsistent reply e now o db c
      λ fresh. insert_order-IsConsistent db (record o { created_at = now }) fresh pending c

-- The tables once the transition of an order is committed.
abbrev pub executed : Uuid → Instant → Uuid → Float64 → ℤ → Db → Db
executed execution_id now k price quantity db = record {
  orders = update_status status_executed k status_pending db.orders;
  executions =
      record {
        id = execution_id;
        order_id = k;
        execution_price = price;
        quantity = quantity;
        executed_at = now;
      }
      ∷ db.executions;
}

pub insert_execution-IsConsistent :
    (k : Uuid) (x : Execution) (db : Db)
    → x.order_id ≡ k
    → count_with status_pending k db.orders ≡ 1
    → IsConsistent db
    → IsConsistent (record {
      orders = update_status status_executed k status_pending db.orders;
      executions = x ∷ db.executions;
    })
unfolding count_executions
insert_execution-IsConsistent k x db own one c = record {
  unique = λ j.
      rw (count_orders-update_status status_executed status_pending k j db.orders) (c.unique j);
  effects = λ j. ground (
    arith,
    c.effects j,
    count_with-update_status_new status_executed status_pending k j db.orders executed-ne-pending,
  );
}

-- The tables after `ExecuteOrder` are those from before it, or those with the execution.
pub execute_order_cases {ℓ} :
    (P : Db → Type ℓ) (f : Faults) (execution_id : Uuid) (now : Instant) (k : Uuid)
    (price : Float64) (quantity : ℤ) (db : Db)
    → P db
    → (count_with status_pending k db.orders ≡ 1
        → P (executed execution_id now k price quantity db))
    → P (execute_order f execution_id now k price quantity db).1
unfolding execute_order
execute_order_cases P f execution_id now k price quantity db old new = ground arith

-- `ExecuteOrder` keeps the tables consistent on every branch: an order becomes EXECUTED in the
-- transaction that inserts its execution, or neither happens.
pub execute_order-IsConsistent :
    (f : Faults) (execution_id : Uuid) (now : Instant) (k : Uuid) (price : Float64) (quantity : ℤ)
    (db : Db)
    → IsConsistent db
    → IsConsistent (execute_order f execution_id now k price quantity db).1
execute_order-IsConsistent f execution_id now k price quantity db c =
    execute_order_cases IsConsistent f execution_id now k price quantity db c
      λ one. insert_execution-IsConsistent k _ db refl one c
