-- ===== src/System/Transactions/Invariant.antt =====
-- Locks keep interleaved calls of `ExecuteOrder` apart.
use investment_engine.Prelude.{◌≤◌, false, ◌≡◌, refl, arith}
use investment_engine.Result.{err}
use investment_engine.Order.Model.{Uuid, status_executed}
use investment_engine.Order.Store.{Db, count_with, count_executions, count_execution_ids}
use investment_engine.Order.Store.Tables.{count_with-le-count_orders}
use investment_engine.Order.Store.Invariant.{IsConsistent}
use investment_engine.System.Transactions.{
  Server, total, Step, begins, updates, skips, inserts, commits, ends, aborts, creates, Run, here,
  next, count_true, idle, skip_answer, is_true,
}
use investment_engine.System.Transactions.Moves.{
  IsServer, updates-IsServer, skips-IsServer, inserts-IsServer, ends-IsServer, commits-IsServer,
  creates-IsServer, begins-IsServer,
}

skip_answer_untrue : (k : Uuid) (db : Db) → is_true (skip_answer k db) ≡ false
skip_answer_untrue k db = ground arith

pub Step-IsServer : {s s' : Server} → Step s s' → IsServer s → IsServer s'
Step-IsServer {s} (begins t b) inv = begins-IsServer s t b inv
Step-IsServer (updates t rest turn b one free) inv = updates-IsServer inv t rest turn b one free
Step-IsServer (skips t rest turn b none free) inv = skips-IsServer inv t rest turn b
Step-IsServer (inserts t rest turn b fits free) inv = inserts-IsServer inv t rest turn b fits free
Step-IsServer (commits t rest a e turn b) inv = commits-IsServer inv t rest turn a e b
Step-IsServer {s} (ends t rest turn b) inv =
    ends-IsServer inv t rest turn (skip_answer t.order s.db) (skip_answer_untrue t.order s.db)
Step-IsServer (aborts t rest e turn) inv = ends-IsServer inv t rest turn (err e) refl
Step-IsServer {s} (creates reply cause now o pending) inv =
    creates-IsServer s reply cause now o pending inv

pub Run-IsServer : {start s : Server} → Run start s → IsServer start → IsServer s
Run-IsServer here inv = inv
Run-IsServer (next r m) inv = Step-IsServer m (Run-IsServer r inv)

pub idle-IsServer :
    (db : Db)
    → IsConsistent db
    → ((x : Uuid) → count_execution_ids x db.executions ≤ 1)
    → IsServer (idle db)
unfolding total count_true
idle-IsServer db c ids = record {
  consistent = c;
  locked = λ k. omega arith;
  claimed = λ x. omega (arith, ids x);
  fit = refl;
  answered = λ k. omega arith;
}

-- However calls of `ExecuteOrder` and `Create` interleave, statement by statement, and whatever
-- fails, no order gets a second execution, at most one call for it answers `true`, and the order
-- is EXECUTED exactly if it has its execution. The run starts with no call active, in consistent
-- tables whose execution ids are unique.
pub interleaved_once :
    {db : Db} {s : Server}
    → IsConsistent db
    → ((x : Uuid) → count_execution_ids x db.executions ≤ 1)
    → Run (idle db) s
    → (k : Uuid)
    → (count_executions k s.db.executions ≤ 1)
      × (count_true k s.returned ≤ 1)
      × (count_executions k s.db.executions ≡ count_with status_executed k s.db.orders)
interleaved_once {db} {s} c ids r k =
    let inv = Run-IsServer r (idle-IsServer db c ids) in
    ground (
      arith,
      inv.answered k,
      inv.consistent.effects k,
      inv.consistent.unique k,
      count_with-le-count_orders status_executed k s.db.orders,
    )
