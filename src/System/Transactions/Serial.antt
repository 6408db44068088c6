-- ===== src/System/Transactions/Serial.antt =====
-- The interleaved calls of `ExecuteOrder` implement the one that runs in a single step, which is what
-- Order/Store defines and all other theorems are about.
use investment_engine.Prelude.{ℤ, List, true, ◌≡◌, ◌≤◌, arith}
use investment_engine.GoError.{GoError}
use investment_engine.Result.{ok}
use investment_engine.Float64.{Float64}
use investment_engine.Order.Model.{Uuid, Instant, Order, status_pending}
use investment_engine.Order.Store.{Db, Reply, Faults, create, execute_order, count_execution_ids}
use investment_engine.Order.Store.Invariant
use investment_engine.Order.Store.Invariant.{IsConsistent}
use investment_engine.Order.Store.Execute.{IsHealthy, execute_order-healthy}
use investment_engine.System.Transactions.{
  Transaction, Server, inserted, Turn, Step, begins, updates, skips, inserts, commits, ends, aborts,
  creates, Run, here, next, idle,
}
use investment_engine.System.Transactions.Moves.{IsServer, at_commit}
use investment_engine.System.Transactions.Invariant.{idle-IsServer, Run-IsServer}

-- Calls that run one after the other, and those that answer `true`.
pub data Serial (start : Db) : Db → Type 0 where
  nothing : Serial start start
  created :
      {db : Db} (reply : Reply) (cause : GoError) (now : Instant) (o : Order)
      → o.status ≡ status_pending
      → Serial start db
      → Serial start (create reply cause now o db).1
  executed :
      {db db' : Db} (f : Faults) (execution_id : Uuid) (now : Instant) (k : Uuid) (price : Float64)
      (quantity : ℤ)
      → execute_order f execution_id now k price quantity db ≡ (ok true, db')
      → Serial start db
      → Serial start db'

module _ (healthy : Faults) (h : IsHealthy healthy) where
  -- A commit is the whole call, made at that moment.
  commit-execute_order :
      (s : Server) (inv : IsServer s) (t : Transaction) (rest : List Transaction)
      → Turn s.active t rest
      → t.phase ≡ inserted
      → execute_order healthy t.execution_id t.now t.order t.price t.quantity s.db
        ≡ (ok true, Invariant.executed t.execution_id t.now t.order t.price t.quantity s.db)
  commit-execute_order s inv t rest turn i =
      let (one, free, fits) = at_commit inv t rest turn i in
      ground (
        arith,
        execute_order-healthy healthy t.execution_id t.now t.order t.price t.quantity s.db h
            inv.consistent free fits,
      )

  Step-Serial :
      {start : Db} {s s' : Server} → IsServer s → Step s s' → Serial start s.db → Serial start s'.db
  Step-Serial inv (begins t b) r = r
  Step-Serial inv (updates t rest turn b one free) r = r
  Step-Serial inv (skips t rest turn b many free) r = r
  Step-Serial inv (inserts t rest turn b fits free) r = r
  Step-Serial {s = s} inv (commits t rest a e turn i) r =
      executed healthy t.execution_id t.now t.order t.price t.quantity
        (commit-execute_order s inv t rest turn i) r
  Step-Serial inv (ends t rest turn b) r = r
  Step-Serial inv (aborts t rest e turn) r = r
  Step-Serial inv (creates reply cause now o pending) r = created reply cause now o pending r

  Run-Serial : {start s : Server} → IsServer start → Run start s → Serial start.db s.db
  Run-Serial inv here = nothing
  Run-Serial inv (next r m) = Step-Serial (Run-IsServer r inv) m (Run-Serial inv r)

  -- The committed tables after any interleaving are those after a sequence of whole calls, of which
  -- each `ExecuteOrder` answers `true`: calls that have not committed leave nothing behind. The run
  -- starts with no call active, in consistent tables whose execution ids are unique; the faults of
  -- the whole calls are none.
  pub interleaved-Serial :
      {db : Db} {s : Server}
      → IsConsistent db
      → ((x : Uuid) → count_execution_ids x db.executions ≤ 1)
      → Run (idle db) s
      → Serial db s.db
  interleaved-Serial {db} c ids r = Run-Serial (idle-IsServer db c ids) r
