-- ===== src/System/Statuses.antt =====
-- Which statuses the orders in the database ever have.
use investment_engine.Prelude.{ℤ, List, [], ◌∷◌, All, ◌≡◌, refl, ◌⊎◌, inl, arith}
use investment_engine.GoError.{GoError}
use investment_engine.Float64.{Float64}
use investment_engine.Http.{simulated_user_id}
use investment_engine.Order.Model.{Uuid, Instant, Order, status_pending, status_executed}
use investment_engine.Order.Store.{
  Db, Reply, Faults, create, execute_order, update_status, empty_db,
}
use investment_engine.Order.Store.Invariant.{create_cases, execute_order_cases}
use investment_engine.Order.CreateOrder.{new_order}
use investment_engine.Order.PostgresStore.{postgres_order_store}
use investment_engine.Execution.Consumer.{Libraries}
use investment_engine.System.{Move, creates, delivers, Reach, here, next}
use investment_engine.System.AtMostOnce.{create_order_cases, process_cases}

-- The two statuses that the program writes.
abbrev pub IsPendingOrExecuted : Order → Type 0
IsPendingOrExecuted o = (o.status ≡ status_pending) ⊎ (o.status ≡ status_executed)

abbrev pub KnownStatuses : Db → Type 0
KnownStatuses db = All IsPendingOrExecuted db.orders

update_status-KnownStatuses :
    (k : Uuid) (os : List Order)
    → All IsPendingOrExecuted os
    → All IsPendingOrExecuted (update_status status_executed k status_pending os)
unfolding update_status
update_status-KnownStatuses k [] a = tt
update_status-KnownStatuses k (o ∷ os) (h, a) =
    (ground (arith, h), update_status-KnownStatuses k os a)

create-KnownStatuses :
    (reply : Reply) (cause : GoError) (now : Instant) (o : Order) (db : Db)
    → o.status ≡ status_pending
    → KnownStatuses db
    → KnownStatuses (create reply cause now o db).1
create-KnownStatuses reply cause now o db pending a =
    create_cases KnownStatuses reply cause now o db a (λ fresh. (inl pending, a))

execute_order-KnownStatuses :
    (f : Faults) (execution_id : Uuid) (now : Instant) (k : Uuid) (price : Float64) (quantity : ℤ)
    (db : Db)
    → KnownStatuses db
    → KnownStatuses (execute_order f execution_id now k price quantity db).1
execute_order-KnownStatuses f execution_id now k price quantity db a =
    execute_order_cases KnownStatuses f execution_id now k price quantity db a
      (λ one. update_status-KnownStatuses k db.orders a)

module _ (lib : Libraries) where
  Move-KnownStatuses : {db db' : Db} → Move lib db db' → KnownStatuses db → KnownStatuses db'
  unfolding new_order
  Move-KnownStatuses {db} (creates upper faults reply cause now id decoded) a =
      create_order_cases KnownStatuses upper (postgres_order_store faults reply cause now) id db a
        (λ req.
          create-KnownStatuses reply cause now (new_order upper id simulated_user_id req) db refl a)
        decoded
  Move-KnownStatuses {db} (delivers co d m) a =
      process_cases lib KnownStatuses co d m db a λ k price quantity.
        execute_order-KnownStatuses co.faults co.execution_id co.now k price quantity db a

  -- From an empty database, whatever requests and deliveries come, each order in the table is PENDING
  -- or EXECUTED: CANCELLED and REJECTED, though valid statuses, are never reached.
  pub reached_statuses :
      {db : Db}
      → Reach lib empty_db db
      → All (λ o. (o.status ≡ status_pending) ⊎ (o.status ≡ status_executed)) db.orders
  reached_statuses here = tt
  reached_statuses (next r m) = Move-KnownStatuses m (reached_statuses r)
