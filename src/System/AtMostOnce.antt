-- ===== src/System/AtMostOnce.antt =====
-- Whatever requests and deliveries come, in whatever order, an order is executed at most once.
use investment_engine.Prelude.{ℕ, ◌≤◌, ◌≡◌, List, [], ◌∷◌, arith}
use investment_engine.Result.{Result, ok, err}
use investment_engine.Http.{FieldError, simulated_user_id}
use investment_engine.Order.Model.{Uuid, Order, status_executed}
use investment_engine.Order.Store.{Db, empty_db, count_with, count_executions, execute_order}
use investment_engine.Order.Store.Tables.{pending_executed, count_with-le-count_orders}
use investment_engine.Order.Store.Invariant.{
  IsConsistent, empty_db-IsConsistent, create-IsConsistent, execute_order-IsConsistent,
}
use investment_engine.Order.Api.{OrderStore}
use investment_engine.Order.CreateOrder.{
  CreateOrderRequest, Decoded, request, too_large, malformed, field_errors, new_order, announce,
  submit, create_order,
}
use investment_engine.Order.PostgresStore.{postgres_order_store}
use investment_engine.Execution.Handler.Contract.{handle_order_created_cases}
use investment_engine.Execution.Consumer.{Libraries, Delivery, Counter, process}
use investment_engine.Execution.Consumer.Loop.{process-store}
use investment_engine.System.{
  silent, Conditions, circumstances, Move, creates, delivers, Reach, here, next,
}

module _ {ℓ} (P : Db → Type ℓ) (upper : ℕ → ℕ) (store : OrderStore Db) (id : Uuid) (db : Db)
    (old : P db)
    (new : (req : CreateOrderRequest)
      → P (store.create (new_order upper id simulated_user_id req) db).1) where
  announce-store : (r : Result Order × Db) → P r.1 → P (announce upper store silent r tt).1.store
  announce-store (err e, s) h = h
  announce-store (ok o, s) h = h

  submit-store :
      (req : CreateOrderRequest) (es : List FieldError)
      → P
          (submit upper store silent es id simulated_user_id req
            (record { store = db; publisher = tt })).1.store
  submit-store req (e ∷ es) = old
  submit-store req [] = announce-store _ (new req)

  -- The database after a request is the one from before it, or the one after `Create`.
  pub create_order_cases :
      (decoded : Decoded)
      → P
          (create_order upper store silent decoded id
            (record { store = db; publisher = tt })).1.store
  unfolding create_order
  create_order_cases too_large = old
  create_order_cases malformed = old
  create_order_cases (request req) = submit-store req (field_errors upper req)

module _ (lib : Libraries) where
  -- The database after a delivery is the one from before it, or the one after `ExecuteOrder`.
  pub process_cases {ℓ} :
      (P : Db → Type ℓ) (c : Conditions) (d : Delivery) (m : Counter) (db : Db)
      → P db
      → ((k : Uuid) (price : _) (quantity : _)
          → P (execute_order c.faults c.execution_id c.now k price quantity db).1)
      → P (process lib (circumstances c) d (record { store = db; messages_processed = m })).0.store
  process_cases P c d m db old new =
      rw (process-store lib (circumstances c) d (record { store = db; messages_processed = m })) (
        handle_order_created_cases (circumstances c).store lib.unmarshal c.prices d.body db P old
          λ event price _. new event.order_id price event.quantity)

  Move-IsConsistent : {db db' : Db} → Move lib db db' → IsConsistent db → IsConsistent db'
  unfolding new_order
  Move-IsConsistent {db} (creates upper faults reply cause now id decoded) c =
      create_order_cases IsConsistent upper (postgres_order_store faults reply cause now) id db c
        (λ req.
          create-IsConsistent reply cause now (new_order upper id simulated_user_id req) db
            pending_executed c)
        decoded
  Move-IsConsistent {db} (delivers co d m) c =
      process_cases IsConsistent co d m db c λ k price quantity.
        execute_order-IsConsistent co.faults co.execution_id co.now k price quantity db c

  pub Reach-IsConsistent :
      {start db : Db} → Reach lib start db → IsConsistent start → IsConsistent db
  Reach-IsConsistent here c = c
  Reach-IsConsistent (next r m) c = Move-IsConsistent m (Reach-IsConsistent r c)

  -- From an empty database, whatever requests and deliveries come, in whatever order and number,
  -- and whatever fails, an order has at most one execution, and it has one exactly if it is
  -- EXECUTED.
  pub at_most_once :
      {db : Db}
      → Reach lib empty_db db
      → (k : Uuid)
      → (count_executions k db.executions ≤ 1)
        × (count_executions k db.executions ≡ count_with status_executed k db.orders)
  at_most_once {db} r k =
      let c = Reach-IsConsistent r empty_db-IsConsistent in
      (
        omega (
          arith,
          c.effects k,
          c.unique k,
          count_with-le-count_orders status_executed k db.orders,
        ),
        c.effects k,
      )
