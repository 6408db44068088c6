-- ===== src/System/Transactions/Moves.antt =====
-- What holds between the statements of interleaved calls of `ExecuteOrder`, and that each statement
-- keeps it.
use investment_engine.Prelude.{
  ℕ, ◌+◌, ◌≤◌, Bool, true, false, ◌&&◌, not, List, [], ◌∷◌, ◌++◌, if◌then◌else◌, ◌≡◌, refl, arith,
}
use investment_engine.GoError.{GoError}
use investment_engine.Result.{Result}
use investment_engine.Order.Model.{Uuid, Instant, Order, status_pending, status_executed}
use investment_engine.Order.Store.{
  Reply, count_with, count_executions, count_execution_ids, fits_integer, create,
}
use investment_engine.Order.Store.Tables.{
  count_with-le-count_orders, count_with-update_status_old, pending_executed,
}
use investment_engine.Order.Store.Invariant.{
  IsConsistent, executed, create_cases, create-IsConsistent, executed-ne-pending,
  insert_execution-IsConsistent,
}
use investment_engine.System.Transactions.{
  Phase, begun, updated, skipped, inserted, Transaction, Server, is_inserted, total, holds, claims,
  Turn, count_true, commit_answer, is_true,
}

total-middle :
    (w : Transaction → ℕ) (t : Transaction) (before after : List Transaction)
    → total w (before ++ t ∷ after) ≡ w t + total w (before ++ after)
unfolding total
total-middle w t [] after = refl
total-middle w t (u ∷ before) after = omega (arith, total-middle w t before after)

-- What the active calls hold is what the moving one and the rest hold.
pub total-Turn :
    (w : Transaction → ℕ) {active rest : List Transaction} {t : Transaction}
    → Turn active t rest
    → total w active ≡ w t + total w rest
total-Turn w {t = t} (before, after, e, e') = rw (e, e') (total-middle w t before after)

-- A quantity that does not fit, in an INSERT that has succeeded.
abbrev pub unfit : Transaction → ℕ
unfit t = if is_inserted t.phase && not (fits_integer t.quantity) then 1 else 0

-- The tables are consistent; an order has at most one call that holds its row, and then it is
-- PENDING; no two executions, committed or in flight, share an id; and `true` was answered only
-- for committed executions.
pub record IsServer (s : Server) : Type 0 where
  pub consistent : IsConsistent s.db
  pub locked : (k : Uuid) → total (holds k) s.active ≤ count_with status_pending k s.db.orders
  pub claimed : (x : Uuid) → total (claims x) s.active + count_execution_ids x s.db.executions ≤ 1
  pub fit : total unfit s.active ≡ 0
  pub answered : (k : Uuid) → count_true k s.returned ≤ count_executions k s.db.executions

-- The invariant sees the active calls only through what they hold.
module _ {s : Server} (inv : IsServer s) (t : Transaction) (rest : List Transaction)
    (turn : Turn s.active t rest) where
  open inv use {consistent, locked, claimed, fit, answered}

  -- The call goes on to another phase.
  move :
      (p : Phase)
      → ((k : Uuid)
          → holds k (record t { phase = p }) + total (holds k) rest
            ≤ count_with status_pending k s.db.orders)
      → ((x : Uuid)
          → claims x (record t { phase = p })
              + total (claims x) rest
              + count_execution_ids x s.db.executions
            ≤ 1)
      → unfit (record t { phase = p }) ≡ 0
      → IsServer (record s { active = record t { phase = p } ∷ rest })
  unfolding total
  move p h c u = record {
    consistent = consistent;
    locked = λ k. h k;
    claimed = λ x. c x;
    fit = omega (arith, fit, u, total-Turn unfit turn);
    answered = answered;
  }

  pub updates-IsServer :
      t.phase ≡ begun
      → count_with status_pending t.order s.db.orders ≡ 1
      → total (holds t.order) s.active ≡ 0
      → IsServer (record s { active = record t { phase = updated } ∷ rest })
  updates-IsServer b one free =
      move updated (λ k. ground (arith, locked k, total-Turn (holds k) turn))
        (λ x. ground (arith, claimed x, total-Turn (claims x) turn)) refl

  pub skips-IsServer :
      t.phase ≡ begun → IsServer (record s { active = record t { phase = skipped } ∷ rest })
  skips-IsServer b =
      move skipped (λ k. ground (arith, locked k, total-Turn (holds k) turn))
        (λ x. ground (arith, claimed x, total-Turn (claims x) turn)) refl

  pub inserts-IsServer :
      t.phase ≡ updated
      → fits_integer t.quantity ≡ true
      → total (claims t.execution_id) s.active + count_execution_ids t.execution_id s.db.executions
        ≡ 0
      → IsServer (record s { active = record t { phase = inserted } ∷ rest })
  inserts-IsServer b fits free =
      move inserted (λ k. ground (arith, locked k, total-Turn (holds k) turn))
        (λ x. ground (arith, claimed x, total-Turn (claims x) turn)) (ground arith)

  -- The call ends without a commit.
  pub ends-IsServer :
      (r : Result Bool)
      → is_true r ≡ false
      → IsServer (record s { active = rest; returned = (t.order, r) ∷ s.returned })
  unfolding count_true
  ends-IsServer r untrue = record {
    consistent = consistent;
    locked = λ k. omega (arith, locked k, total-Turn (holds k) turn);
    claimed = λ x. omega (arith, claimed x, total-Turn (claims x) turn);
    fit = omega (arith, fit, total-Turn unfit turn);
    answered = λ k. ground (arith, answered k);
  }

  -- What a call that has inserted knows at its commit.
  pub at_commit :
      t.phase ≡ inserted
      → (count_with status_pending t.order s.db.orders ≡ 1)
        × (count_execution_ids t.execution_id s.db.executions ≡ 0)
        × (fits_integer t.quantity ≡ true)
  at_commit i = ground (
    arith,
    locked t.order,
    claimed t.execution_id,
    fit,
    total-Turn (holds t.order) turn,
    total-Turn (claims t.execution_id) turn,
    total-Turn unfit turn,
    consistent.unique t.order,
    count_with-le-count_orders status_pending t.order s.db.orders,
  )

  pub commits-IsServer :
      (acknowledged : Bool) (e : GoError)
      → t.phase ≡ inserted
      → IsServer (record {
        db = executed t.execution_id t.now t.order t.price t.quantity s.db;
        active = rest;
        returned = (t.order, commit_answer acknowledged e) ∷ s.returned;
      })
  unfolding count_true count_executions count_execution_ids
  commits-IsServer acknowledged e i =
      let (one, free, _) = at_commit i in
      record {
        consistent = insert_execution-IsConsistent t.order _ s.db refl one consistent;
        locked = λ k. ground (
          arith,
          locked k,
          total-Turn (holds k) turn,
          count_with-update_status_old status_executed status_pending t.order k s.db.orders
              executed-ne-pending,
        );
        claimed = λ x. ground (arith, claimed x, total-Turn (claims x) turn);
        fit = omega (arith, fit, total-Turn unfit turn);
        answered = λ k. ground (arith, answered k);
      }

pub creates-IsServer :
    (s : Server) (reply : Reply) (cause : GoError) (now : Instant) (o : Order)
    → o.status ≡ status_pending
    → IsServer s
    → IsServer (record s { db = (create reply cause now o s.db).1 })
unfolding count_with
creates-IsServer s reply cause now o pending inv =
    let still : IsConsistent (create reply cause now o s.db).1 =
      create-IsConsistent reply cause now o s.db (rw pending pending_executed) inv.consistent in
    create_cases (λ db. IsConsistent db → IsServer (record s { db = db })) reply cause now o s.db
      (λ c. inv)
      (λ fresh c. record {
        consistent = c;
        locked = λ k. ground (arith, inv.locked k);
        claimed = inv.claimed;
        fit = inv.fit;
        answered = inv.answered;
      })
      still

pub begins-IsServer :
    (s : Server) (t : Transaction)
    → t.phase ≡ begun
    → IsServer s
    → IsServer (record s { active = t ∷ s.active })
unfolding total
begins-IsServer s t b inv = record {
  consistent = inv.consistent;
  locked = λ k. ground (arith, inv.locked k);
  claimed = λ x. ground (arith, inv.claimed x);
  fit = ground (arith, inv.fit);
  answered = inv.answered;
}
