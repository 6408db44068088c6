-- ===== src/Order/Listing/Sorting.antt =====
-- Rows under ORDER BY created_at DESC, id DESC, where their ids are distinct.
use investment_engine.Prelude.{
  ◌≤◌, Bool, true, false, ◌&&◌, List, [], ◌∷◌, All, select, ◌≡◌, refl, ◌≢◌, Bool-cases, inl, inr,
  if◌then◌else◌, arith,
}
use investment_engine.Order.Model.{Uuid, Order}
use investment_engine.Order.Store.{count_orders}
use investment_engine.Order.Listing.{newer, insert_row, sort_rows}

pub newer_trans : (o p q : Order) → newer o p ≡ true → newer p q ≡ true → newer o q ≡ true
unfolding newer
newer_trans o p q h k = ground arith

pub newer-asymm : (o p : Order) → newer o p ≡ true → newer p o ≡ false
unfolding newer
newer-asymm o p h = ground arith

pub newer_irrefl : (o : Order) → newer o o ≡ false
unfolding newer
newer_irrefl o = ground arith

pub newer_total : (o p : Order) → o.id ≢ p.id → newer o p ≡ false → newer p o ≡ true
unfolding newer
newer_total o p h k = ground arith

-- Each row stands before all that follow.
abbrev pub Descending : List Order → Type 0
Descending [] = Unit
Descending (o ∷ os) = All (λ p. newer o p ≡ true) os × Descending os

-- No two rows share an id.
abbrev pub Distinct : List Order → Type 0
Distinct [] = Unit
Distinct (o ∷ os) = (count_orders o.id os ≡ 0) × Distinct os

pub Distinct-of_counts : (os : List Order) → ((k : Uuid) → count_orders k os ≤ 1) → Distinct os
unfolding count_orders
Distinct-of_counts [] h = tt
Distinct-of_counts (o ∷ os) h =
    (ground (arith, h o.id), Distinct-of_counts os (λ k. ground (arith, h k)))

pub count_orders-select :
    (p : Order → Bool) (k : Uuid) (os : List Order)
    → count_orders k (select p os) ≤ count_orders k os
unfolding count_orders select
count_orders-select p k [] = omega arith
count_orders-select p k (o ∷ os) = ground (arith, count_orders-select p k os)

pub select-Distinct : (p : Order → Bool) (os : List Order) → Distinct os → Distinct (select p os)
unfolding select
select-Distinct p [] d = tt
select-Distinct p (o ∷ os) (fresh, d) =
    ground (arith, select-Distinct p os d, count_orders-select p o.id os)

pub count_orders-insert_row :
    (k : Uuid) (o : Order) (os : List Order)
    → count_orders k (insert_row o os) ≡ count_orders k (o ∷ os)
unfolding count_orders insert_row
count_orders-insert_row k o [] = refl
count_orders-insert_row k o (p ∷ ps) = ground (arith, count_orders-insert_row k o ps)

pub count_orders-sort_rows :
    (k : Uuid) (os : List Order) → count_orders k (sort_rows os) ≡ count_orders k os
unfolding sort_rows count_orders
count_orders-sort_rows k [] = refl
count_orders-sort_rows k (o ∷ os) =
    rw (count_orders-insert_row k o (sort_rows os)) (omega (arith, count_orders-sort_rows k os))

newer-All :
    (o p : Order) (os : List Order)
    → newer o p ≡ true
    → All (λ q. newer p q ≡ true) os
    → All (λ q. newer o q ≡ true) os
newer-All o p [] h a = tt
newer-All o p (q ∷ os) h (k, a) = (newer_trans o p q h k, newer-All o p os h a)

insert_row-All :
    (p o : Order) (os : List Order)
    → newer p o ≡ true
    → All (λ q. newer p q ≡ true) os
    → All (λ q. newer p q ≡ true) (insert_row o os)
unfolding insert_row
insert_row-All p o [] h a = (h, tt)
insert_row-All p o (q ∷ os) h (k, a) = ground (arith, insert_row-All p o os h a)

insert_row-Descending :
    (o : Order) (os : List Order)
    → count_orders o.id os ≡ 0
    → Descending os
    → Descending (insert_row o os)
unfolding insert_row count_orders
insert_row-Descending o [] fresh d = (tt, tt)
insert_row-Descending o (p ∷ ps) fresh (a, d) = elim (Bool-cases (newer o p)) [
  | inl first ↦ rw first ((first, newer-All o p ps first a), (a, d))
  | inr later ↦ rw later (
    insert_row-All p o ps (newer_total o p (λ e. ground arith) later) a,
    insert_row-Descending o ps (ground arith) d,
  )
]

pub sort_rows-Descending : (os : List Order) → Distinct os → Descending (sort_rows os)
unfolding sort_rows
sort_rows-Descending [] d = tt
sort_rows-Descending (o ∷ os) (fresh, d) =
    insert_row-Descending o (sort_rows os) (rw (count_orders-sort_rows o.id os) fresh)
      (sort_rows-Descending os d)

pub select-All {ℓ} :
    (P : Order → Type ℓ) (p : Order → Bool) (os : List Order) → All P os → All P (select p os)
unfolding select
select-All P p [] a = tt
select-All P p (o ∷ os) (h, a) = elim (Bool-cases (p o)) [
  | inl e ↦ rw e (h, select-All P p os a)
  | inr e ↦ rw e (select-All P p os a)
]

insert_row_first :
    (o : Order) (os : List Order) → All (λ p. newer o p ≡ true) os → insert_row o os ≡ o ∷ os
unfolding insert_row
insert_row_first o [] a = refl
insert_row_first o (p ∷ ps) (h, a) = rw h

select-insert_row :
    (q : Order → Bool) (o : Order) (os : List Order)
    → Descending os
    → select q (insert_row o os) ≡ (if q o then insert_row o (select q os) else select q os)
unfolding insert_row select
select-insert_row q o [] d = refl
select-insert_row q o (p ∷ ps) (a, d) = elim (Bool-cases (newer o p)) [
  | inl first ↦ ground (
    arith,
    insert_row_first o (select q ps)
        (select-All (λ r. newer o r ≡ true) q ps (newer-All o p ps first a)),
  )
  | inr later ↦ ground (arith, select-insert_row q o ps d)
]

-- Filtering the sorted rows is sorting the filtered ones.
pub select-sort_rows :
    (p q : Order → Bool) (os : List Order)
    → Distinct os
    → sort_rows (select (λ o. p o && q o) os) ≡ select q (sort_rows (select p os))
unfolding select sort_rows
select-sort_rows p q [] d = refl
select-sort_rows p q (o ∷ os) (fresh, d) = ground (
  arith,
  select-sort_rows p q os d,
  select-insert_row q o (sort_rows (select p os))
      (sort_rows-Descending (select p os) (select-Distinct p os d)),
)
