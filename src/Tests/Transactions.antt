-- ===== src/Tests/Transactions.antt =====
-- Two calls of `ExecuteOrder` for one order that overlap, as two consumers make them.
use investment_engine.Prelude.{
  ◌+◌, ◌*◌, ◌⊎◌, ◌≤◌, ◌≡◌, refl, ◌≢◌, pos, true, [], ◌∷◌, arith, text_eq,
}
use investment_engine.GoError.{new}
use investment_engine.Result.{ok}
use investment_engine.Order.Model.{Uuid, status_pending, status_executed}
use investment_engine.Order.Store.{
  count_with, count_executions, count_execution_ids, fits_integer, update_status,
}
use investment_engine.Order.Store.Invariant.{executed}
use investment_engine.System.Transactions.{
  Transaction, Server, begun, updated, skipped, inserted, total, holds, claims, Run, here, next,
  begins, updates, skips, inserts, commits, ends, idle, count_true, skip_answer,
}
use investment_engine.System.Transactions.Invariant.{interleaved_once}
use investment_engine.System.Transactions.Progress.{CanProgress, calls_end, moves, stays}
use investment_engine.System.Transactions.Serial.{Serial, interleaved-Serial}
use investment_engine.Tests.Data.{
  one_order, one_order-IsConsistent, sample_price, healthy_faults, healthy_faults-IsHealthy,
}

abbrev first_call : Transaction
first_call = record {
  execution_id = 9;
  now = 8;
  order = 5;
  price = sample_price;
  quantity = pos 10;
  phase = begun;
}

abbrev second_call : Transaction
second_call = record first_call { execution_id = 10 }

-- Both begin, the first one updates, inserts and commits, the second one finds nothing PENDING.
abbrev final : Server
final = record {
  db = executed 9 8 5 sample_price (pos 10) one_order;
  active = [];
  returned =
      (5, skip_answer 5 (executed 9 8 5 sample_price (pos 10) one_order)) ∷ (5, ok true) ∷ [];
}

pending : count_with status_pending 5 one_order.orders ≡ 1
unfolding count_with text_eq
pending = refl

resolved : count_with status_pending 5 (executed 9 8 5 sample_price (pos 10) one_order).orders ≢ 1
unfolding count_with update_status text_eq
resolved h = omega arith

unlocked : total (holds 5) (second_call ∷ first_call ∷ []) ≡ 0
unfolding total
unlocked = refl

unlocked_later : total (holds 5) (second_call ∷ []) ≡ 0
unfolding total
unlocked_later = refl

fits : fits_integer (pos 10) ≡ true
unfolding fits_integer
fits = refl

free :
    total (claims 9) (record first_call { phase = updated } ∷ second_call ∷ [])
      + count_execution_ids 9 one_order.executions
    ≡ 0
unfolding total count_execution_ids
free = refl

both_calls : Run (idle one_order) final
both_calls =
    next
      (next
        (next
          (next
            (next (next (next here (begins first_call refl)) (begins second_call refl)) (
              updates first_call (second_call ∷ []) (second_call ∷ [], [], refl, refl) refl pending
                unlocked))
            (inserts (record first_call { phase = updated }) (second_call ∷ [])
              ([], second_call ∷ [], refl, refl) refl fits free))
          (commits (record first_call { phase = inserted }) (second_call ∷ []) true (new "lost")
            ([], second_call ∷ [], refl, refl) refl))
        (skips second_call [] ([], [], refl, refl) refl resolved unlocked_later))
      (ends (record second_call { phase = skipped }) [] ([], [], refl, refl) refl)

unique_ids : (x : Uuid) → count_execution_ids x one_order.executions ≤ 1
unfolding count_execution_ids
unique_ids x = omega arith

interleaved_once_example :
    (count_executions 5 final.db.executions ≤ 1)
    × (count_true 5 final.returned ≤ 1)
    × (count_executions 5 final.db.executions ≡ count_with status_executed 5 final.db.orders)
interleaved_once_example = interleaved_once one_order-IsConsistent unique_ids both_calls 5

interleaved-Serial_example : Serial one_order final.db
interleaved-Serial_example =
    interleaved-Serial healthy_faults healthy_faults-IsHealthy one_order-IsConsistent unique_ids
      both_calls

-- The two calls have begun, and the first one has locked the row.
abbrev both_begun : Server
both_begun = record { db = one_order; active = second_call ∷ first_call ∷ []; returned = [] }

abbrev row_locked : Server
row_locked = record both_begun { active = record first_call { phase = updated } ∷ second_call ∷ [] }

calls_end_example : (1 ≤ 3 * 2) × ((row_locked.active ≡ []) ⊎ CanProgress row_locked)
calls_end_example = calls_end (
    moves {s = both_begun} stays
      (updates first_call (second_call ∷ []) (second_call ∷ [], [], refl, refl) refl pending
        unlocked)
      tt)
