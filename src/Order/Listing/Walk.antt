-- ===== src/Order/Listing/Walk.antt =====
-- A client that follows the cursors of `List` of internal/order/store.go to the end, on a table
-- that does not change meanwhile.
use investment_engine.Prelude.{
  ℕ, zero, suc, ◌+◌, ◌-◌, min, ◌≤◌, ◌<◌, pos_part, true, Option, none, some, List, [], ◌∷◌, ◌++◌,
  length, take, drop, All, select, ltb, if◌then◌else◌, ◌≡◌, refl, sym, ap, ◌∙◌, arith, Bool-cases,
  inl, inr,
}
use mathlib.Core.List.{append_assoc}
use native.Mathlib.Numerals.{add-one}
use investment_engine.Result.{Result, ok, err}
use investment_engine.Pagination.{Cursor}
use investment_engine.Order.Model.{Uuid, Order}
use investment_engine.Order.Store.{Db, count_orders}
use investment_engine.Order.Query.{ListFilter}
use investment_engine.Order.Query.Conditions.{passes, is_before_cursor}
use investment_engine.Order.Listing.{newer, cursor_of_last, page, list}
use investment_engine.Order.Listing.Sorting.{
  Descending, Distinct-of_counts, select-Distinct, sort_rows-Descending, select-sort_rows,
  newer-asymm, newer_irrefl,
}
use investment_engine.Order.Listing.Pages.{
  healthy, matching, page_size, list-healthy, effective_limit-pos,
}

abbrev pub prepend : List Order → Option (List Order) → Option (List Order)
prepend os none = none
prepend os (some ps) = some (os ++ ps)

abbrev pub follow_page :
    (Cursor → Option (List Order)) → Result (List Order × Option Cursor) → Option (List Order)
follow_page next (err e) = none
follow_page next (ok (os, none)) = some os
follow_page next (ok (os, some c)) = prepend os (next c)

-- All pages in a row; `none` if the fuel, which bounds the number of pages, runs out.
unfoldable pub walk : ℕ → ListFilter → Db → Option (List Order)
walk zero f db = none
walk (suc fuel) f db =
    follow_page (λ c. walk fuel (record f { cursor = some c }) db) (list healthy f db)

abbrev pub at : Order → Cursor
at o = record { created_at = o.created_at; id = o.id }

select_none :
    (x : Order) (os : List Order)
    → Descending (x ∷ os)
    → select (is_before_cursor (some (at x))) os ≡ os
unfolding select newer
select_none x [] d = refl
select_none x (o ∷ os) ((h, a), (b, d)) = rw (h, select_none x os (a, d))

descending_around :
    (p x : Order) (pre rest : List Order)
    → All (λ q. newer p q ≡ true) (pre ++ x ∷ rest)
    → newer p x ≡ true
descending_around p x [] rest (h, a) = h
descending_around p x (q ∷ pre) rest (h, a) = descending_around p x pre rest a

-- Behind the cursor of a row lie the rows that follow it.
select_behind :
    (pre : List Order) (x : Order) (rest : List Order)
    → Descending (pre ++ x ∷ rest)
    → select (is_before_cursor (some (at x))) (pre ++ x ∷ rest) ≡ rest
unfolding select newer
select_behind [] x rest d = rw (newer_irrefl x) (select_none x rest d)
select_behind (p ∷ pre) x rest (a, d) =
    rw (newer-asymm p x (descending_around p x pre rest a)) (select_behind pre x rest d)

cursor_of_last-append : (xs : List Order) (x : Order) → cursor_of_last (xs ++ x ∷ []) ≡ some (at x)
unfolding cursor_of_last
cursor_of_last-append [] x = refl
cursor_of_last-append (y ∷ []) x = refl
cursor_of_last-append (y ∷ z ∷ xs) x = cursor_of_last-append (z ∷ xs) x

take_last :
    (m : ℕ) (os : List Order)
    → suc m ≤ length os
    → (xs : List Order) × (x : Order) × (take (suc m) os ≡ xs ++ x ∷ [])
      × (os ≡ xs ++ x ∷ drop (suc m) os)
take_last m [] h = absurd (omega arith)
take_last zero (o ∷ os) h = ([], o, refl, refl)
take_last (suc m) (o ∷ os) h =
    let (xs, x, e, e') = take_last m os (omega arith) in (o ∷ xs, x, ap (◌∷◌ o) e, ap (◌∷◌ o) e')

take-take-suc : (n : ℕ) (os : List Order) → take n (take (suc n) os) ≡ take n os
take-take-suc zero os = refl
take-take-suc (suc n) [] = refl
take-take-suc (suc n) (o ∷ os) = rw (take-take-suc n os)

length-take : (n : ℕ) (os : List Order) → length (take n os) ≡ min n (length os)
length-take zero os = omega arith
length-take (suc n) [] = omega arith
length-take (suc n) (o ∷ os) = omega (arith, length-take n os)

ltb-length-take-suc :
    (n : ℕ) (os : List Order) → ltb n (length (take (suc n) os)) ≡ ltb n (length os)
ltb-length-take-suc n os = ground (arith, length-take (suc n) os)

take_all : (n : ℕ) (os : List Order) → length os ≤ n → take n os ≡ os
take_all zero [] h = refl
take_all zero (o ∷ os) h = absurd (omega arith)
take_all (suc n) [] h = refl
take_all (suc n) (o ∷ os) h = rw (take_all n os (omega arith))

length-drop : (n : ℕ) (os : List Order) → length (drop n os) ≡ length os - n
length-drop zero os = omega arith
length-drop (suc n) [] = omega arith
length-drop (suc n) (o ∷ os) = omega (arith, length-drop n os)

take-append-drop : (n : ℕ) (os : List Order) → take n os ++ drop n os ≡ os
take-append-drop zero os = refl
take-append-drop (suc n) [] = refl
take-append-drop (suc n) (o ∷ os) = rw (take-append-drop n os)

-- A page of the rows `os` is all of them, or the first `n` with the cursor behind them.
page-take :
    (n : ℕ) (os : List Order)
    → page n (take (n + 1) os)
      ≡ (if ltb n (length os) then (take n os, cursor_of_last (take n os)) else (os, none))
unfolding page
page-take n os = elim (Bool-cases (ltb n (length os))) [
  | inl more ↦ rw (add-one n, ltb-length-take-suc n os, more, take-take-suc n os) refl
  | inr fits ↦
      rw (add-one n, ltb-length-take-suc n os, fits, take_all (suc n) os (ground arith)) refl
]

page_end :
    (n : ℕ) (os : List Order)
    → 1 ≤ n
    → n < length os
    → (xs : List Order) × (x : Order) × (cursor_of_last (take n os) ≡ some (at x))
      × (os ≡ xs ++ x ∷ drop n os)
page_end zero os pos_n h = absurd (omega arith)
page_end (suc m) os pos_n h =
    let (xs, x, e, e') = take_last m os (omega arith) in
    (xs, x, rw e (cursor_of_last-append xs x), e')

page_size-pos : (f : ListFilter) → 1 ≤ page_size f
page_size-pos f = omega (arith, ap pos_part (effective_limit-pos f.limit))

-- The cursor does not change which orders match.
matching-cursor :
    (db : Db) (f : ListFilter) (c : Option Cursor)
    → matching (record f { cursor = c }) db ≡ matching f db
unfolding matching passes
matching-cursor db f c = refl

select_all : (os : List Order) → select (λ o. is_before_cursor none o) os ≡ os
unfolding select
select_all [] = refl
select_all (o ∷ os) = rw (select_all os)

no_cursor : (c : Option Cursor) (os : List Order) → c ≡ none → select (is_before_cursor c) os ≡ os
no_cursor c os h = rw h (select_all os)

module _ (db : Db) (unique : (k : Uuid) → count_orders k db.orders ≤ 1) where
  matching-Descending : (f : ListFilter) → Descending (matching f db)
  unfolding matching
  matching-Descending f =
      sort_rows-Descending (select (passes f) db.orders)
        (select-Distinct (passes f) db.orders (Distinct-of_counts db.orders unique))

  -- What `List` answers where the rows behind the cursor are `rest`.
  list-rest :
      (f : ListFilter) (rest : List Order)
      → select (is_before_cursor f.cursor) (matching f db) ≡ rest
      → list healthy f db ≡ ok (page (page_size f) (take (page_size f + 1) rest))
  unfolding matching
  list-rest f rest h =
      rw
        (
          list-healthy f db,
          select-sort_rows (passes f) (is_before_cursor f.cursor) db.orders
              (Distinct-of_counts db.orders unique),
          h,
        )
        refl

  walk_from :
      (fuel : ℕ) (f : ListFilter) (pre rest : List Order)
      → matching f db ≡ pre ++ rest
      → select (is_before_cursor f.cursor) (matching f db) ≡ rest
      → length rest < fuel
      → walk fuel f db ≡ some rest
  unfolding walk
  walk_from zero f pre rest e h enough = absurd (omega arith)
  walk_from (suc fuel) f pre rest e h enough = elim (Bool-cases (ltb (page_size f) (length rest))) [
    | inr fits ↦ rw (list-rest f rest h, page-take (page_size f) rest, fits) refl
    | inl more ↦
        let n = page_size f in
        let (xs, x, c, split) = page_end n rest (page_size-pos f) (ground arith) in
        let f' : ListFilter = record f { cursor = some (at x) } in
        let e' : matching f db ≡ (pre ++ xs) ++ x ∷ drop n rest =
          e ∙ ap (◌++◌ pre) split ∙ sym (append_assoc pre xs (x ∷ drop n rest)) in
        let behind =
          select_behind (pre ++ xs) x (drop n rest) (rw (← e') (matching-Descending f)) in
        let ih =
          walk_from fuel f' ((pre ++ xs) ++ x ∷ []) (drop n rest)
            (matching-cursor db f (some (at x))
              ∙ e'
              ∙ sym (append_assoc (pre ++ xs) (x ∷ []) (drop n rest)))
            (rw (matching-cursor db f (some (at x)), e') behind)
            (ground (arith, length-drop n rest, page_size-pos f)) in
        rw (list-rest f rest h, page-take n rest, more, c, ih) (ap some (take-append-drop n rest))
  ]

  -- The pages that a client gets by following the cursors, put together, are the orders that match
  -- the filter, each once and the newest first, if there is fuel for one page more than matching
  -- orders. The ids of the orders are unique.
  pub walk-matching :
      (fuel : ℕ) (f : ListFilter)
      → f.cursor ≡ none
      → length (matching f db) < fuel
      → walk fuel f db ≡ some (matching f db)
  walk-matching fuel f start enough =
      walk_from fuel f [] (matching f db) refl (no_cursor f.cursor (matching f db) start) enough
