-- ===== src/Order/Listing/Unordered.antt =====
-- A table has no order of rows: `List` of internal/order/store.go answers the same however the server
-- happens to hold them.
use mathlib.Core.List.Permᴰ
use mathlib.Core.List.{Permᴰ}
use investment_engine.Prelude.{
  ◌≤◌, Bool, ◌&&◌, List, [], ◌∷◌, select, ◌≡◌, refl, ◌∙◌, ◌≢◌, Bool-cases, inl, inr, arith,
}
use investment_engine.Order.Model.{Uuid, Order}
use investment_engine.Order.Store.{Db, count_orders}
use investment_engine.Order.Query.{ListFilter}
use investment_engine.Order.Query.Conditions.{passes, is_before_cursor}
use investment_engine.Order.Listing.{insert_row, sort_rows, list}
use investment_engine.Order.Listing.Sorting.{
  newer_trans, newer_total, newer-asymm, count_orders-select,
}
use investment_engine.Order.Listing.Pages.{healthy, list-healthy}

insert_row_comm :
    (o p : Order) (os : List Order)
    → o.id ≢ p.id
    → insert_row o (insert_row p os) ≡ insert_row p (insert_row o os)
unfolding insert_row
insert_row_comm o p [] h = ground (arith, newer_total o p h, newer-asymm o p)
insert_row_comm o p (q ∷ os) h = ground (
  arith,
  newer_total o p h,
  newer-asymm o p,
  newer_trans o p q,
  newer_trans p o q,
  insert_row_comm o p os h,
)

count_orders-Permᴰ :
    (k : Uuid) {os ps : List Order} → Permᴰ os ps → count_orders k os ≡ count_orders k ps
unfolding count_orders
count_orders-Permᴰ k Permᴰ.nil = refl
count_orders-Permᴰ k (Permᴰ.cons e d) = ground (arith, count_orders-Permᴰ k d)
count_orders-Permᴰ k (Permᴰ.swap e e') = ground arith
count_orders-Permᴰ k (Permᴰ.trans d d') = count_orders-Permᴰ k d ∙ count_orders-Permᴰ k d'

-- Sorting forgets the order of rows with distinct ids.
sort_rows-Permᴰ :
    {os ps : List Order}
    → Permᴰ os ps
    → ((k : Uuid) → count_orders k os ≤ 1)
    → sort_rows os ≡ sort_rows ps
unfolding sort_rows count_orders
sort_rows-Permᴰ Permᴰ.nil u = refl
sort_rows-Permᴰ (Permᴰ.cons {a} {b} e d) u =
    rw (e, sort_rows-Permᴰ d (λ k. ground (arith, u k))) refl
sort_rows-Permᴰ (Permᴰ.swap {a} {b} {l = l} e e') u =
    rw (← e, ← e') (insert_row_comm a b (sort_rows l) (λ same. ground (arith, u b.id)))
sort_rows-Permᴰ (Permᴰ.trans d d') u =
    sort_rows-Permᴰ d u ∙ sort_rows-Permᴰ d' (λ k. rw (← count_orders-Permᴰ k d) (u k))

select-swap :
    (p : Order → Bool) (a b : Order) (os : List Order)
    → Permᴰ (select p (a ∷ b ∷ os)) (select p (b ∷ a ∷ os))
unfolding select
select-swap p a b os = elim (Bool-cases (p a)) [
  | inl x ↦ elim (Bool-cases (p b)) [
    | inl y ↦ rw (x, y) (Permᴰ.swap refl refl)
    | inr y ↦ rw (x, y) (Permᴰ.refl _)
  ]
  | inr x ↦ rw x (Permᴰ.refl _)
]

select-Permᴰ :
    (p : Order → Bool) {os ps : List Order} → Permᴰ os ps → Permᴰ (select p os) (select p ps)
unfolding select
select-Permᴰ p Permᴰ.nil = Permᴰ.nil
select-Permᴰ p (Permᴰ.cons {b = b} e d) = elim (Bool-cases (p b)) [
  | inl y ↦ rw (e, y) (Permᴰ.cons refl (select-Permᴰ p d))
  | inr n ↦ rw (e, n) (select-Permᴰ p d)
]
select-Permᴰ p (Permᴰ.swap {a'} {b'} {l = l} e e') = rw (e, e') (select-swap p b' a' l)
select-Permᴰ p (Permᴰ.trans d d') = Permᴰ.trans (select-Permᴰ p d) (select-Permᴰ p d')

-- What `List` answers, without faults, does not depend on how the rows are arranged. Their ids are
-- unique.
pub list_unordered :
    (f : ListFilter) (db db' : Db)
    → ((k : Uuid) → count_orders k db.orders ≤ 1)
    → Permᴰ db.orders db'.orders
    → list healthy f db ≡ list healthy f db'
list_unordered f db db' unique d =
    let p : Order → Bool = λ o. passes f o && is_before_cursor f.cursor o in
    let same : sort_rows (select p db.orders) ≡ sort_rows (select p db'.orders) =
      sort_rows-Permᴰ (select-Permᴰ p d)
        (λ k. omega (arith, unique k, count_orders-select p k db.orders)) in
    rw (list-healthy f db, list-healthy f db', same) refl
