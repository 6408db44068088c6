-- ===== src/System/Transactions/Progress.antt =====
-- The locks of interleaved calls never make all of them wait.
use investment_engine.Prelude.{
  ℕ, suc, ◌+◌, ◌*◌, ◌≤◌, length, ◌≡◌, ◌≢◌, refl, Bool, true, false, ◌==◌, List, [], ◌∷◌, All, ◌⊎◌,
  inl, inr, arith, Bool-cases, All-middle, List-cases,
}
use investment_engine.GoError.{new}
use investment_engine.Order.Model.{Uuid, status_pending}
use investment_engine.Order.Store.{count_with, count_execution_ids, fits_integer}
use investment_engine.System.Transactions.{
  Phase, begun, updated, skipped, inserted, Transaction, Server, is_locking, is_inserted, total,
  holds, claims, Turn, Step, begins, updates, skips, inserts, commits, ends, aborts, creates,
}
use investment_engine.System.Transactions.Moves.{total-Turn}

-- A call in a phase that passes the test.
abbrev Found : (Phase → Bool) → List Transaction → Type 0
Found f active =
    (t : Transaction) × (rest : List Transaction) × Turn active t rest × (f t.phase ≡ true)

Found-tail :
    (f : Phase → Bool) (u : Transaction) (ts : List Transaction) → Found f ts → Found f (u ∷ ts)
Found-tail f u ts (t, rest, (before, after, e, e'), h) =
    (t, u ∷ rest, (u ∷ before, after, rw e refl, rw e' refl), h)

find : (f : Phase → Bool) (ts : List Transaction) → Found f ts ⊎ All (λ t. f t.phase ≡ false) ts
find f [] = inr tt
find f (t ∷ ts) = elim (Bool-cases (f t.phase)) [
  | inl h ↦ inl (t, ts, ([], ts, refl, refl), h)
  | inr h ↦ elim (find f ts) [
    | inl found ↦ inl (Found-tail f t ts found)
    | inr nowhere ↦ inr (h, nowhere)
  ]
]

-- Where no call is in an INSERT, no execution id is claimed; where none locks a row, none is held.
unclaimed :
    (x : Uuid) (ts : List Transaction)
    → All (λ t. is_inserted t.phase ≡ false) ts
    → total (claims x) ts ≡ 0
unfolding total
unclaimed x [] a = refl
unclaimed x (t ∷ ts) (h, a) = ground (arith, h, unclaimed x ts a)

unlocked :
    (k : Uuid) (ts : List Transaction)
    → All (λ t. is_locking t.phase ≡ false) ts
    → total (holds k) ts ≡ 0
unfolding total
unlocked k [] a = refl
unlocked k (t ∷ ts) (h, a) = ground (arith, h, unlocked k ts a)

abbrev is_skipped : Phase → Bool
is_skipped skipped = true
is_skipped _ = false

inserted_phase : (p : Phase) → is_inserted p ≡ true → p ≡ inserted
inserted_phase p h = ground arith

skipped_phase : (p : Phase) → is_skipped p ≡ true → p ≡ skipped
skipped_phase p h = ground arith

updated_phase : (p : Phase) → is_locking p ≡ true → is_inserted p ≡ false → p ≡ updated
updated_phase p h i = ground arith

begun_phase : (p : Phase) → is_locking p ≡ false → is_skipped p ≡ false → p ≡ begun
begun_phase p h i = ground arith

-- An INSERT that the constraints of the table refuse.
abbrev pub IsRefused : Server → Transaction → Type 0
IsRefused s t =
    (t.phase ≡ updated)
    × ((fits_integer t.quantity ≡ false) ⊎ (count_execution_ids t.execution_id s.db.executions ≢ 0))

-- A step of a call on its way to its end, which is an error only where the constraints ask for it.
abbrev pub IsProgress : {s s' : Server} → Step s s' → Type 0
IsProgress (begins t b) = ⊥
IsProgress (updates t rest turn b one free) = Unit
IsProgress (skips t rest turn b many free) = Unit
IsProgress (inserts t rest turn b fits free) = Unit
IsProgress (commits t rest acknowledged e turn b) = Unit
IsProgress (ends t rest turn b) = Unit
IsProgress {s} (aborts t rest e turn) = IsRefused s t
IsProgress (creates reply cause now o pending) = ⊥

abbrev pub CanProgress : Server → Type 0
CanProgress s = (s' : Server) × (m : Step s s') × IsProgress m

All-Turn {κ} :
    (P : Transaction → Type κ) {active rest : List Transaction} {t : Transaction}
    → Turn active t rest
    → All P active
    → P t
All-Turn P {t = t} (before, after, e, _) a = (All-middle P t before after (rw e at a)).0

module _ (s : Server) (t : Transaction) (rest : List Transaction)
    (turn : Turn s.active t rest) where
  insert_ends : t.phase ≡ updated → All (λ u. is_inserted u.phase ≡ false) s.active → CanProgress s
  insert_ends h nowhere = elim (Bool-cases (fits_integer t.quantity)) [
    | inr unfit ↦ (_, aborts t rest (new "constraint") turn, (h, inl unfit))
    | inl fits ↦ elim (Bool-cases (count_execution_ids t.execution_id s.db.executions == 0)) [
      | inr taken ↦ (_, aborts t rest (new "constraint") turn, (h, inr (ground arith)))
      | inl free ↦ (
        _,
        inserts t rest turn h fits
            (ground (arith, free, unclaimed t.execution_id s.active nowhere)),
        tt,
      )
    ]
  ]

  update_ends : t.phase ≡ begun → All (λ u. is_locking u.phase ≡ false) s.active → CanProgress s
  update_ends h nowhere = elim (Bool-cases (count_with status_pending t.order s.db.orders == 1)) [
    | inl one ↦ (_, updates t rest turn h (ground arith) (unlocked t.order s.active nowhere), tt)
    | inr many ↦ (_, skips t rest turn h (ground arith) (unlocked t.order s.active nowhere), tt)
  ]

-- As long as there are active calls, one of them need not wait.
goes_on : (s : Server) → (s.active ≡ []) ⊎ CanProgress s
goes_on s = elim (find is_inserted s.active) [
  | inl (t, rest, turn, h) ↦
      inr (_, commits t rest true (new "reply") turn (inserted_phase t.phase h), tt)
  | inr no_insert ↦ elim (find is_skipped s.active) [
    | inl (t, rest, turn, h) ↦ inr (_, ends t rest turn (skipped_phase t.phase h), tt)
    | inr no_skip ↦ elim (find is_locking s.active) [
      | inl (t, rest, turn, h) ↦ inr (
          insert_ends s t rest turn
            (updated_phase t.phase h (All-Turn (λ u. is_inserted u.phase ≡ false) turn no_insert))
            no_insert)
      | inr no_lock ↦ elim (List-cases s.active) [
        | inl e ↦ inl e
        | inr (t, ts, e) ↦ inr (
            update_ends s t ts ([], ts, e, refl)
              (begun_phase t.phase (rw e at no_lock).0 (rw e at no_skip).0) no_lock)
      ]
    ]
  ]
]

-- The steps that a call has before it, at most.
abbrev steps_left : Phase → ℕ
steps_left begun = 3
steps_left updated = 2
steps_left skipped = 1
steps_left inserted = 1

abbrev left : Transaction → ℕ
left t = steps_left t.phase

left-le : (ts : List Transaction) → total left ts ≤ 3 * length ts
unfolding total
left-le [] = omega arith
left-le (t ∷ ts) = ground (arith, left-le ts)

Step-left :
    {s s' : Server} (m : Step s s') → IsProgress m → total left s'.active + 1 ≤ total left s.active
unfolding total
Step-left (begins t b) h = absurd h
Step-left (updates t rest turn b one free) h = ground (arith, b, total-Turn left turn)
Step-left (skips t rest turn b many free) h = ground (arith, b, total-Turn left turn)
Step-left (inserts t rest turn b fits free) h = ground (arith, b, total-Turn left turn)
Step-left (commits t rest acknowledged e turn b) h = ground (arith, b, total-Turn left turn)
Step-left (ends t rest turn b) h = ground (arith, b, total-Turn left turn)
Step-left (aborts t rest e turn) (b, h) = ground (arith, b, total-Turn left turn)
Step-left (creates reply cause now o pending) h = absurd h

-- Steps of the calls that have begun, and how many they are.
pub data Proceeds (start : Server) : ℕ → Server → Type 0 where
  stays : Proceeds start 0 start
  moves :
      {n : ℕ} {s s' : Server}
      → Proceeds start n s
      → (m : Step s s') → IsProgress m
      → Proceeds start (suc n) s'

Proceeds-left :
    {s s' : Server} {n : ℕ} → Proceeds s n s' → n + total left s'.active ≤ total left s.active
Proceeds-left stays = omega arith
Proceeds-left (moves r m h) = omega (arith, Proceeds-left r, Step-left m h)

-- Locks make no call of `ExecuteOrder` wait for ever: as long as calls are active, one of them has a
-- step to make, and where no further ones begin, there are at most three steps for each. A step is an
-- error only where the constraints of the table refuse the execution.
pub calls_end :
    {s s' : Server} {n : ℕ}
    → Proceeds s n s'
    → (n ≤ 3 * length s.active) × ((s'.active ≡ []) ⊎ CanProgress s')
calls_end {s} {s'} r = (omega (arith, Proceeds-left r, left-le s.active), goes_on s')
