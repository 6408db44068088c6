-- ===== src/Order/PostgresStore.antt =====
-- *PostgresOrderStore of internal/order/store.go as the stores that cmd/api/main.go and
-- cmd/consumer/main.go hand to the handlers.
use investment_engine.Prelude.{◌≡◌}
use investment_engine.GoError.{GoError}
use investment_engine.Order.Model.{Uuid, Instant}
use investment_engine.Order.Store.{Db, Reply, Faults, create, execute_order, count_with}
use investment_engine.Order.Store.Create.{create-ok}
use investment_engine.Order.Model.{status_pending}
use investment_engine.Order.Listing.{ListFaults, list}
use investment_engine.Order.Api.{OrderStore}
use investment_engine.Order.CreateOrder.Laws.{IsOrderStore}
use investment_engine.Order.Store.Invariant.{IsConsistent, execute_order-IsConsistent}
use investment_engine.Order.Store.Execute.{none_pending}
use investment_engine.Execution.Handler.{ExecutionStore}
use investment_engine.Execution.Handler.Contract.{IsExecutionStore}

abbrev pub postgres_order_store : ListFaults → Reply → GoError → Instant → OrderStore Db
postgres_order_store faults reply cause now = record {
  list = list faults;
  create = create reply cause now;
}

abbrev pub postgres_execution_store : Faults → Uuid → Instant → ExecutionStore Db
postgres_execution_store f execution_id now = record {
  execute_order = execute_order f execution_id now;
}

-- No order with the id is PENDING.
abbrev pub IsResolved : Uuid → Db → Type 0
IsResolved k db = count_with status_pending k db.orders ≡ 0

-- The store keeps the contract that `CreateOrder` relies on, whatever the driver answers.
pub postgres_order_store-IsOrderStore :
    (faults : ListFaults) (reply : Reply) (cause : GoError) (now : Instant)
    → IsOrderStore (postgres_order_store faults reply cause now)
postgres_order_store-IsOrderStore faults reply cause now = record {
  returns = λ o o' db h. (now, (create-ok reply cause now o db o' h).0);
}

-- The store keeps the contract that the consumer relies on, whatever the driver answers: the tables
-- stay consistent, and a message about an order that is not PENDING changes nothing.
pub postgres_execution_store-IsExecutionStore :
    (f : Faults) (execution_id : Uuid) (now : Instant)
    → IsExecutionStore (postgres_execution_store f execution_id now) IsConsistent IsResolved
postgres_execution_store-IsExecutionStore f execution_id now = record {
  keeps =
      λ k price quantity db c. execute_order-IsConsistent f execution_id now k price quantity db c;
  skips = λ k price quantity db h. (none_pending f execution_id now k price quantity db h).0;
}
