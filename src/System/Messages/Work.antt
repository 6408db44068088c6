-- ===== src/System/Messages/Work.antt =====
-- How many moves the messages in the queues have before them.
use investment_engine.Prelude.{
  Bool, true, false, ℕ, suc, ◌+◌, ◌-◌, ◌*◌, ◌≤◌, ◌<◌, ℤ, pos, negsuc, ◌+ℤ◌, leb_ℤ, ◌≡◌, refl,
  Option, none, some, List, [], ◌∷◌, ◌++◌, All, length, ◌⊎◌, inl, inr, arith, Bool-cases,
}
use investment_engine.GoError.{GoError}
use investment_engine.Execution.Failure.{
  FailureKind, permanent_failure, transient_failure, classify_failure,
}
use investment_engine.Execution.Handler.{handle_order_created}
use investment_engine.Execution.Headers.{Value, retry_attempt}
use investment_engine.Execution.Consumer.{
  retry_message, Libraries, Circumstances, Delivery, Counter, process, settle, settle_failure,
  max_delivery_attempts,
}
use investment_engine.Execution.Consumer.Retries.{IsWire, retry_attempt-retry_message}
use investment_engine.Order.Store.{Db}
use investment_engine.System.{Conditions, circumstances}
use investment_engine.System.Messages.{Queues, World, react, processed}

-- A message that counts its failures from 0 on.
abbrev pub IsCounted : Delivery → Type 0
IsCounted d = (n : ℕ) × (retry_attempt d.headers ≡ pos n)

abbrev pub AllCounted : Queues → Type 0
AllCounted q = All IsCounted q.ready × All IsCounted q.retrying

-- The moves that a message in the order queue has before it, at most: a delivery, and two more for
-- each retry that is left.
abbrev pub remaining : ℤ → ℕ
remaining (pos n) = suc (2 * (2 - n))
remaining (negsuc n) = 0

unfoldable pub work : ℕ → List Delivery → ℕ
work more [] = 0
work more (d ∷ ds) = remaining (retry_attempt d.headers) + more + work more ds

abbrev pub all_work : Queues → ℕ
all_work q = work 0 q.ready + work 1 q.retrying

pub work-middle :
    (more : ℕ) (d : Delivery) (before after : List Delivery)
    → work more (before ++ d ∷ after)
      ≡ remaining (retry_attempt d.headers) + more + work more (before ++ after)
unfolding work
work-middle more d [] after = refl
work-middle more d (d' ∷ before) after = omega (arith, work-middle more d before after)

remaining-le : (a : ℤ) → remaining a ≤ 5
remaining-le (pos n) = omega arith
remaining-le (negsuc n) = omega arith

pub work_ready-le : (ds : List Delivery) → work 0 ds ≤ 5 * length ds
unfolding work
work_ready-le [] = omega arith
work_ready-le (d ∷ ds) = omega (arith, work_ready-le ds, remaining-le (retry_attempt d.headers))

pub work_retrying-le : (ds : List Delivery) → work 1 ds ≤ 6 * length ds
unfolding work
work_retrying-le [] = omega arith
work_retrying-le (d ∷ ds) =
    omega (arith, work_retrying-le ds, remaining-le (retry_attempt d.headers))

-- What is left of a delivery with `n` failures before it: nothing, or a copy with one more.
abbrev Shrinks : ℕ → Queues → Queues → Type 0
Shrinks n q q' =
    (q'.ready ≡ q.ready)
    × ((q'.retrying ≡ q.retrying)
        ⊎ ((d' : Delivery) × (n + 1 < 3)
            × (retry_attempt d'.headers ≡ pos (n + 1))
            × (q'.retrying ≡ d' ∷ q.retrying)))

module _ (wire : Value → Value) (w : IsWire wire) (lib : Libraries) where
  settle_failure-Shrinks :
      (n : ℕ) (kept : Bool) (failure : FailureKind) (d : Delivery) (q : Queues)
      → retry_attempt d.headers ≡ pos n
      → Shrinks n q (react wire kept d (settle_failure failure d none) q)
  unfolding settle_failure react retry_message
  settle_failure-Shrinks n kept permanent_failure d q e = (refl, inl refl)
  settle_failure-Shrinks n false transient_failure d q e =
      rw e (elim (Bool-cases (leb_ℤ max_delivery_attempts (pos n +ℤ pos 1))) [
        | inl out ↦ rw out (refl, inl refl)
        | inr more ↦ rw more (refl, inl refl)
      ])
  settle_failure-Shrinks n true transient_failure d q e =
      rw e (elim (Bool-cases (leb_ℤ max_delivery_attempts (pos n +ℤ pos 1))) [
        | inl out ↦ rw out (refl, inl refl)
        | inr more ↦ rw more (
          refl,
          inr (_, ground arith, retry_attempt-retry_message wire w d n (ground arith), refl),
        )
      ])

  settle-Shrinks :
      (c : Circumstances Db) (n : ℕ) (d : Delivery) (m : Counter) (e : Option GoError) (db : Db)
      (q : Queues) (kept : Bool)
      → c.publish_error ≡ none
      → retry_attempt d.headers ≡ pos n
      → Shrinks n q (react wire kept d (settle lib c d m e db).1 q)
  unfolding react
  settle-Shrinks c n d m none db q kept p h = (refl, inl refl)
  settle-Shrinks c n d m (some e) db q kept p h =
      rw p (settle_failure-Shrinks n kept (classify_failure lib.status_code e) d q h)

  pub process-Shrinks :
      (c : Conditions) (n : ℕ) (d : Delivery) (m : Counter) (w : World) (q : Queues)
      → c.publish_error ≡ none
      → retry_attempt d.headers ≡ pos n
      → Shrinks n q (react wire c.copy_kept d (processed lib wire c d m w).1 q)
  unfolding process
  process-Shrinks c n d m w q p h =
      let (e, db) =
        handle_order_created (circumstances c).store lib.unmarshal c.prices d.body w.db in
      settle-Shrinks (circumstances c) n d m e db q c.copy_kept p h

  -- A delivery, taken out of the queue, leaves less to do than there was.
  pub Shrinks-all_work :
      (n : ℕ) (d : Delivery) (q q' : Queues)
      → retry_attempt d.headers ≡ pos n
      → Shrinks n q q'
      → AllCounted q
      → AllCounted q' × (all_work q' + 1 ≤ all_work q + remaining (retry_attempt d.headers))
  unfolding work
  Shrinks-all_work n d q q' h (e, inl e') (a, b) = (rw (e, e') (a, b), rw (e, e', h) (omega arith))
  Shrinks-all_work n d q q' h (e, inr (d', more, h', e')) (a, b) =
      (rw (e, e') (a, ((n + 1, h'), b)), rw (e, e', h, h') (omega arith))
