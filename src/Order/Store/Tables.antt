-- ===== src/Order/Store/Tables.antt =====
-- How the statements of internal/order/store.go change the counts of rows.
use investment_engine.Prelude.{
  ◌+◌, ◌≤◌, List, [], ◌∷◌, ◌≡◌, refl, ◌≢◌, text_eq, text_eq→≡, text_eq_refl, ◌==◌, if◌then◌else◌,
  arith, false,
}
use investment_engine.Order.Model.{Uuid, Status, Order, status_pending, status_executed}
use investment_engine.Order.Store.{count_orders, count_with, update_status}

pub pending_executed : text_eq status_pending status_executed ≡ false
unfolding text_eq
pending_executed = refl

pub executed_pending : text_eq status_executed status_pending ≡ false
unfolding text_eq
executed_pending = refl

pub count_with-le-count_orders :
    (s : Status) (k : Uuid) (os : List Order) → count_with s k os ≤ count_orders k os
unfolding count_with count_orders
count_with-le-count_orders s k [] = omega arith
count_with-le-count_orders s k (o ∷ os) = ground (arith, count_with-le-count_orders s k os)

-- An order has one status.
pub count_with-add :
    (s t : Status) (k : Uuid) (os : List Order)
    → s ≢ t
    → count_with s k os + count_with t k os ≤ count_orders k os
unfolding count_with count_orders
count_with-add s t k [] h = omega arith
count_with-add s t k (o ∷ os) h =
    ground (arith, count_with-add s t k os h, text_eq→≡ o.status s, text_eq→≡ o.status t)

-- An UPDATE of the status creates and deletes no row.
pub count_orders-update_status :
    (s t : Status) (k j : Uuid) (os : List Order)
    → count_orders j (update_status s k t os) ≡ count_orders j os
unfolding count_orders update_status
count_orders-update_status s t k j [] = refl
count_orders-update_status s t k j (o ∷ os) = ground (arith, count_orders-update_status s t k j os)

-- The affected rows, and no others, move to the new status.
pub count_with-update_status_new :
    (s t : Status) (k j : Uuid) (os : List Order)
    → s ≢ t
    → count_with s j (update_status s k t os)
      ≡ count_with s j os + (if j == k then count_with t k os else 0)
unfolding count_with update_status
count_with-update_status_new s t k j [] h = ground arith
count_with-update_status_new s t k j (o ∷ os) h = ground (
  arith,
  count_with-update_status_new s t k j os h,
  text_eq→≡ o.status s,
  text_eq→≡ o.status t,
  text_eq_refl s,
)

pub count_with-update_status_old :
    (s t : Status) (k j : Uuid) (os : List Order)
    → s ≢ t
    → count_with t j (update_status s k t os) ≡ (if j == k then 0 else count_with t j os)
unfolding count_with update_status
count_with-update_status_old s t k j [] h = ground arith
count_with-update_status_old s t k j (o ∷ os) h =
    ground (arith, count_with-update_status_old s t k j os h, text_eq→≡ s t, text_eq→≡ o.status s)

-- An UPDATE that affects no row changes nothing.
pub update_status_none :
    (s t : Status) (k : Uuid) (os : List Order)
    → count_with t k os ≡ 0
    → update_status s k t os ≡ os
unfolding count_with update_status
update_status_none s t k [] h = refl
update_status_none s t k (o ∷ os) h = ground (arith, update_status_none s t k os)
