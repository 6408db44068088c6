-- ===== src/Tests/Store.antt =====
-- The tables of internal/order/store.go at concrete inputs.
use investment_engine.Prelude.{
  ◌≡◌, refl, ◌≢◌, pos, true, false, text_eq, arith, if◌then◌else◌, ◌==◌,
}
use investment_engine.GoError.{new, sentinel, order_not_found}
use investment_engine.Result.{ok, err}
use investment_engine.Order.Model.{
  status_pending, is_valid_side, is_valid_execution_type, is_valid_status,
}
use investment_engine.Order.Store.{
  Db, done, create, execute_order, count_with, count_orders, count_executions, fits_integer,
  admits_order, after_insert, update_status, record_execution, admits_execution,
  count_execution_ids, after_commit, report_skipped, empty_db,
}
use investment_engine.Order.Store.Invariant.{IsConsistent, executed, execute_order-IsConsistent}
use investment_engine.Order.Store.Execute.{execute_order-healthy}
use investment_engine.Tests.Data.{
  sample_order, one_order, one_order-IsConsistent, healthy_faults, healthy_faults-IsHealthy,
  sample_price,
}

abbrev executed_order : Db
executed_order = executed 9 8 5 sample_price (pos 10) one_order

execute_order-one_order :
    execute_order healthy_faults 9 8 5 sample_price (pos 10) one_order ≡ (ok true, executed_order)
unfolding execute_order record_execution report_skipped update_status count_with admits_execution
    count_execution_ids count_orders fits_integer after_commit text_eq
execute_order-one_order = refl

execute_order-executed_order :
    (execute_order healthy_faults 10 9 5 sample_price (pos 10) executed_order).0 ≡ ok false
unfolding execute_order record_execution report_skipped update_status count_with admits_execution
    count_execution_ids count_orders fits_integer after_commit text_eq
execute_order-executed_order = refl

execute_order-IsConsistent_example :
    IsConsistent (execute_order healthy_faults 9 8 5 sample_price (pos 10) one_order).1
execute_order-IsConsistent_example =
    execute_order-IsConsistent healthy_faults 9 8 5 sample_price (pos 10) one_order
      one_order-IsConsistent

has_executed :
    count_executions 5
      (execute_order healthy_faults 9 8 5 sample_price (pos 10) one_order).1.executions
    ≢ count_executions 5 one_order.executions
unfolding count_executions
has_executed h = let h' = rw execute_order-one_order at h in absurd (omega arith)

in_range : fits_integer (pos 10) ≡ true
unfolding fits_integer
in_range = refl

no_execution : count_execution_ids 9 one_order.executions ≡ 0
unfolding count_execution_ids
no_execution = refl

execute_order-healthy_example :
    execute_order healthy_faults 9 8 5 sample_price (pos 10) one_order ≡ (
      if count_with status_pending 5 one_order.orders == 1
      then (ok true, executed_order)
      else if count_orders 5 one_order.orders == 0
      then (err (sentinel order_not_found), one_order)
      else (ok false, one_order))
execute_order-healthy_example =
    execute_order-healthy healthy_faults 9 8 5 sample_price (pos 10) one_order
      healthy_faults-IsHealthy one_order-IsConsistent no_execution in_range

answered_true : (execute_order healthy_faults 9 8 5 sample_price (pos 10) one_order).0 ≡ ok true
answered_true = rw execute_order-one_order refl

created_at_seven : (create done (new "driver") 7 sample_order empty_db).0 ≡ ok sample_order
unfolding create after_insert admits_order count_orders fits_integer is_valid_side
    is_valid_execution_type is_valid_status text_eq
created_at_seven = refl
