-- ===== src/System/Transactions.antt =====
-- Calls of `ExecuteOrder` (internal/order/store.go) that run at the same time, one statement of the
-- source at a time. PostgreSQL runs them under READ COMMITTED, the level that BeginTx asks for: a
-- statement sees what is committed, a changed row is locked until its transaction ends, and an
-- UPDATE or INSERT that meets a lock waits and then looks again. What a transaction has written is
-- in its phase until it commits.
pub mod Moves
pub mod Invariant
pub mod Serial
pub mod Progress
use investment_engine.Prelude.{
  ℕ, ◌+◌, ℤ, Bool, true, false, ◌&&◌, not, List, [], ◌∷◌, ◌++◌, ◌==◌, if◌then◌else◌, ◌≡◌, ◌≢◌,
}
use investment_engine.GoError.{GoError, wrap, sentinel, order_not_found}
use investment_engine.Result.{Result, ok, err}
use investment_engine.Float64.{Float64}
use investment_engine.Order.Model.{Uuid, Instant, Order, status_pending, status_executed}
use investment_engine.Order.Store.{
  Db, Reply, count_orders, count_with, count_executions, count_execution_ids, fits_integer, create,
}
use investment_engine.Order.Store.Invariant.{executed}

-- How far a call has come: BeginTx; an UPDATE of one row; an UPDATE of any other number of rows; the
-- INSERT behind an UPDATE of one row.
pub data Phase : Type 0 where
  begun updated skipped inserted : Phase

pub record Transaction : Type 0 where
  pub execution_id : Uuid
  pub now : Instant
  pub order : Uuid
  pub price : Float64
  pub quantity : ℤ
  pub phase : Phase

-- The committed tables, the calls that have begun and not ended, and what the ended ones returned.
pub record Server : Type 0 where
  pub db : Db
  pub active : List Transaction
  pub returned : List (Uuid × Result Bool)

-- The row of the order is locked from the UPDATE on.
abbrev pub is_locking : Phase → Bool
is_locking begun = false
is_locking updated = true
is_locking skipped = false
is_locking inserted = true

abbrev pub is_inserted : Phase → Bool
is_inserted inserted = true
is_inserted _ = false

-- How much the active calls hold of something, by what each of them holds.
unfoldable pub total : (Transaction → ℕ) → List Transaction → ℕ
total w [] = 0
total w (t ∷ ts) = w t + total w ts

abbrev pub holds : Uuid → Transaction → ℕ
holds k t = if t.order == k && is_locking t.phase then 1 else 0

abbrev pub claims : Uuid → Transaction → ℕ
claims x t = if t.execution_id == x && is_inserted t.phase then 1 else 0

-- `!exists`, or not PENDING.
abbrev pub skip_answer : Uuid → Db → Result Bool
skip_answer k db =
    if count_orders k db.orders == 0 then err (sentinel order_not_found) else ok false

abbrev pub commit_answer : Bool → GoError → Result Bool
commit_answer true e = ok true
commit_answer false e = err (wrap "execute order: commit: %w" e)

-- The rest of the active calls, without the one that moves.
abbrev pub Turn : List Transaction → Transaction → List Transaction → Type 0
Turn active t rest =
    (before : List Transaction) × (after : List Transaction) × (active ≡ before ++ t ∷ after)
    × (rest ≡ before ++ after)

pub data Step (s : Server) : Server → Type 0 where
  begins : (t : Transaction) → t.phase ≡ begun → Step s (record s { active = t ∷ s.active })
  -- The UPDATE affects one row, which nobody has locked.
  updates :
      (t : Transaction) (rest : List Transaction)
      → Turn s.active t rest
      → t.phase ≡ begun
      → count_with status_pending t.order s.db.orders ≡ 1
      → total (holds t.order) s.active ≡ 0
      → Step s (record s { active = record t { phase = updated } ∷ rest })
  skips :
      (t : Transaction) (rest : List Transaction)
      → Turn s.active t rest
      → t.phase ≡ begun
      → count_with status_pending t.order s.db.orders ≢ 1
      → total (holds t.order) s.active ≡ 0
      → Step s (record s { active = record t { phase = skipped } ∷ rest })
  -- The INSERT passes the constraints, and nobody is inserting the same id.
  inserts :
      (t : Transaction) (rest : List Transaction)
      → Turn s.active t rest
      → t.phase ≡ updated
      → fits_integer t.quantity ≡ true
      → total (claims t.execution_id) s.active + count_execution_ids t.execution_id s.db.executions
        ≡ 0
      → Step s (record s { active = record t { phase = inserted } ∷ rest })
  -- The reply to a COMMIT may be lost.
  commits :
      (t : Transaction) (rest : List Transaction) (acknowledged : Bool) (e : GoError)
      → Turn s.active t rest
      → t.phase ≡ inserted
      → Step s (record {
        db = executed t.execution_id t.now t.order t.price t.quantity s.db;
        active = rest;
        returned = (t.order, commit_answer acknowledged e) ∷ s.returned;
      })
  -- SELECT EXISTS, and the rollback.
  ends :
      (t : Transaction) (rest : List Transaction)
      → Turn s.active t rest
      → t.phase ≡ skipped
      → Step s
          (record s { active = rest; returned = (t.order, skip_answer t.order s.db) ∷ s.returned })
  -- Any call may return an error, or the process may die; the server rolls back.
  aborts :
      (t : Transaction) (rest : List Transaction) (e : GoError)
      → Turn s.active t rest
      → Step s (record s { active = rest; returned = (t.order, err e) ∷ s.returned })
  -- `Create` is one statement.
  creates :
      (reply : Reply) (cause : GoError) (now : Instant) (o : Order)
      → o.status ≡ status_pending
      → Step s (record s { db = (create reply cause now o s.db).1 })

pub data Run (start : Server) : Server → Type 0 where
  here : Run start start
  next : {s s' : Server} → Run start s → Step s s' → Run start s'

abbrev pub idle : Db → Server
idle db = record { db = db; active = []; returned = [] }

-- How often a call for this order has answered `true`.
abbrev pub is_true : Result Bool → Bool
is_true (ok b) = b
is_true (err e) = false

unfoldable pub count_true : Uuid → List (Uuid × Result Bool) → ℕ
count_true k [] = 0
count_true k ((j, r) ∷ rs) = (if j == k && is_true r then 1 else 0) + count_true k rs
