-- ===== src/Order/Store.antt =====
-- internal/order/store.go over the tables of schema.sql. A statement of the source is the function
-- that its SQL text describes. What the driver and the network do (errors, also such as come back
-- though the server has done its work) is an argument of each call, as are the clock and the ids
-- that uuid.New draws.
pub mod Tables
pub mod Create
pub mod Invariant
pub mod Execute
use investment_engine.Prelude.{
  ℕ, ◌+◌, ◌^◌, ◌-◌, ℤ, pos, negsuc, Bool, true, false, ◌&&◌, ◌||◌, Option, none, some, List, [],
  ◌∷◌, ◌++◌, text_eq, ◌==◌, leb_ℤ, leb, if◌then◌else◌, not,
}
use investment_engine.GoError.{GoError, new, wrap, sentinel, order_not_found}
use investment_engine.Result.{Result, ok, err}
use investment_engine.Float64.{Float64}
use investment_engine.Order.Model.{
  Uuid, Instant, Status, Order, status_pending, status_executed, is_valid_side,
  is_valid_execution_type, is_valid_status,
}

-- A row of the table `executions`.
pub record Execution : Type 0 where
  pub id : Uuid
  pub order_id : Uuid
  pub execution_price : Float64
  pub quantity : ℤ
  pub executed_at : Instant

pub record Db : Type 0 where
  pub orders : List Order
  pub executions : List Execution

abbrev pub empty_db : Db
empty_db = record { orders = []; executions = [] }

-- How many orders have this id, and how many of those have this status.
unfoldable pub count_orders : Uuid → List Order → ℕ
count_orders k [] = 0
count_orders k (o ∷ os) = (if o.id == k then 1 else 0) + count_orders k os

unfoldable pub count_with : Status → Uuid → List Order → ℕ
count_with s k [] = 0
count_with s k (o ∷ os) = (if o.id == k && text_eq o.status s then 1 else 0) + count_with s k os

-- How many executions an order has, and how many rows have this execution id.
unfoldable pub count_executions : Uuid → List Execution → ℕ
count_executions k [] = 0
count_executions k (x ∷ xs) = (if x.order_id == k then 1 else 0) + count_executions k xs

unfoldable pub count_execution_ids : Uuid → List Execution → ℕ
count_execution_ids k [] = 0
count_execution_ids k (x ∷ xs) = (if x.id == k then 1 else 0) + count_execution_ids k xs

-- INTEGER is a signed number of 32 bits.
unfoldable pub fits_integer : ℤ → Bool
fits_integer n = leb_ℤ (negsuc (2 ^ 31 - 1)) n && leb_ℤ n (pos (2 ^ 31 - 1))

-- The primary key, the range of INTEGER and the CHECK constraints of the table `orders`.
unfoldable pub admits_order : Db → Order → Bool
unfolding fits_integer
admits_order db o =
    count_orders o.id db.orders == 0
    && fits_integer o.quantity
    && is_valid_side o.side
    && is_valid_execution_type o.execution_type
    && is_valid_status o.status

-- The primary key, the foreign key and the range of INTEGER of the table `executions`.
unfoldable pub admits_execution : Db → Execution → Bool
unfolding fits_integer
admits_execution db x =
    count_execution_ids x.id db.executions == 0
    && leb 1 (count_orders x.order_id db.orders)
    && fits_integer x.quantity

-- What comes back of a statement that commits: its reply, a refusal with nothing done, or an error
-- although the server has committed.
pub data Reply : Type 0 where
  done refused lost : Reply

constraint_error : GoError
constraint_error = new "constraint violation"

unfoldable pub after_insert : Reply → GoError → Db → Order → Db → Result Order × Db
after_insert done e db o db' = (ok o, db')
after_insert refused e db o db' = (err (wrap "create order: %w" e), db)
after_insert lost e db o db' = (err (wrap "create order: %w" e), db')

-- `Create`: INSERT ... RETURNING created_at, where `now` is the default of that column.
unfoldable pub create : Reply → GoError → Instant → Order → Db → Result Order × Db
unfolding after_insert constraint_error
create reply e now o db =
    let row : Order = record o { created_at = now } in
    if admits_order db row
    then after_insert reply e db row (record db { orders = row ∷ db.orders })
    else (err (wrap "create order: %w" constraint_error), db)

-- UPDATE orders SET status = $1 WHERE id = $2 AND status = $3, on the rows of the table.
unfoldable pub update_status : Status → Uuid → Status → List Order → List Order
update_status new_status k old [] = []
update_status new_status k old (o ∷ os) =
    (if o.id == k && text_eq o.status old then record o { status = new_status } else o)
    ∷ update_status new_status k old os

-- What the driver answers to the calls of one `ExecuteOrder`: `true` where a call goes through.
pub record Faults : Type 0 where
  pub begins : Bool
  pub updates : Bool
  pub counts_rows : Bool
  pub inserts : Bool
  pub commits : Reply
  pub checks_existence : Bool
  pub cause : GoError  -- the driver's error, where a call does not

unfoldable pub after_commit : Reply → GoError → Db → Db → Result Bool × Db
after_commit done e db db' = (ok true, db')
after_commit refused e db db' = (err (wrap "execute order: commit: %w" e), db)
after_commit lost e db db' = (err (wrap "execute order: commit: %w" e), db')

-- The branch on one affected row: the execution is inserted, and the transaction commits.
unfoldable pub record_execution : Faults → Execution → Db → Db → Result Bool × Db
unfolding after_commit constraint_error
record_execution f x db updated =
    if not f.inserts
    then (err (wrap "execute order: insert execution: %w" f.cause), db)
    else if not (admits_execution updated x)
    then (err (wrap "execute order: insert execution: %w" constraint_error), db)
    else after_commit f.commits f.cause db (record updated { executions = x ∷ updated.executions })

-- The branch on any other number of rows: the query reads the tables of the transaction, and the
-- rollback restores those from before it.
unfoldable pub report_skipped : Faults → Uuid → Db → Db → Result Bool × Db
report_skipped f k db updated =
    if not f.checks_existence
    then (err (wrap "execute order: check existence: %w" f.cause), db)
    else if count_orders k updated.orders == 0
    then (err (sentinel order_not_found), db)
    else (ok false, db)

-- `ExecuteOrder`. Every early return leaves the state to the deferred Rollback.
unfoldable pub execute_order : Faults → Uuid → Instant → Uuid → Float64 → ℤ → Db → Result Bool × Db
unfolding record_execution report_skipped
execute_order f execution_id now k price quantity db =
    let updated : Db = record db {
      orders = update_status status_executed k status_pending db.orders;
    } in
    let rows_affected : ℕ = count_with status_pending k db.orders in
    let x : Execution = record {
      id = execution_id;
      order_id = k;
      execution_price = price;
      quantity = quantity;
      executed_at = now;
    } in
    if not f.begins
    then (err (wrap "execute order: begin transaction: %w" f.cause), db)
    else if not f.updates
    then (err (wrap "execute order: update status: %w" f.cause), db)
    else if not f.counts_rows
    then (err (wrap "execute order: rows affected: %w" f.cause), db)
    else if rows_affected == 1
    then record_execution f x db updated
    else report_skipped f k db updated
