-- ===== src/Order/Listing/Live.antt =====
-- A client that follows the cursors of `List` of internal/order/store.go while orders are created.
use investment_engine.Prelude.{
  ℕ, zero, suc, ◌+◌, ◌<◌, Bool, true, false, ◌&&◌, Option, none, some, List, [], ◌∷◌, ◌++◌, All,
  All-map, select, take, length, ◌≡◌, refl, sym, ◌∙◌, ap, arith, ◌≤◌,
}
use investment_engine.Result.{ok, err}
use investment_engine.Pagination.{Cursor}
use investment_engine.Order.Model.{Order, Uuid, Instant}
use investment_engine.Order.Store.{Db, Reply, create, count_orders}
use investment_engine.Order.Store.Invariant.{create_cases}
use investment_engine.GoError.{GoError}
use investment_engine.Order.Query.{ListFilter}
use investment_engine.Order.Query.Conditions.{passes, is_before_cursor}
use investment_engine.Order.Listing.{list, page, sort_rows, newer}
use investment_engine.Order.Listing.Sorting.{newer-asymm}
use investment_engine.Order.Listing.Pages.{healthy, matching, page_size, list-healthy}
use investment_engine.Order.Listing.Walk.{walk, walk-matching, follow_page, prepend, at}
use investment_engine.Order.Listing.Cursors.{list-cursor_All}

-- The table has grown by rows that are newer than all there were.
abbrev pub HasGrown : Db → Db → Type 0
HasGrown db db' =
    (created : List Order) × (db'.orders ≡ created ++ db.orders)
    × All (λ o. All (λ n. newer n o ≡ true) created) db.orders

-- All pages in a row, where the n-th page after this one is read from the n-th table.
unfoldable pub walk_live : ℕ → ListFilter → Db → (ℕ → Db) → Option (List Order)
walk_live zero f db later = none
walk_live (suc fuel) f db later =
    follow_page (λ c. walk_live fuel (record f { cursor = some c }) (later 0) (λ n. later (suc n)))
      (list healthy f db)

-- Behind the position of a row lie none that are newer.
select-append_newer :
    (q : Order → Bool) (o : Order) (created os : List Order)
    → All (λ n. newer n o ≡ true) created
    → select (λ x. q x && is_before_cursor (some (at o)) x) (created ++ os)
      ≡ select (λ x. q x && is_before_cursor (some (at o)) x) os
unfolding select newer
select-append_newer q o [] os a = refl
select-append_newer q o (n ∷ created) os (h, a) =
    let behind : newer o n ≡ false = newer-asymm n o h in
    let skipped : q n && is_before_cursor (some (at o)) n ≡ false = ground (arith, behind) in
    rw (skipped, select-append_newer q o created os a)

-- The page behind a row of the old table is the same in the new one.
list-grown :
    (f : ListFilter) (db db' : Db) (o : Order) (created : List Order)
    → db'.orders ≡ created ++ db.orders
    → All (λ n. newer n o ≡ true) created
    → list healthy (record f { cursor = some (at o) }) db'
      ≡ list healthy (record f { cursor = some (at o) }) db
list-grown f db db' o created e a =
    let g : ListFilter = record f { cursor = some (at o) } in
    let same =
      ap (select (λ x. passes g x && is_before_cursor (some (at o)) x)) e
      ∙ select-append_newer (passes g) o created db.orders a in
    list-healthy g db'
    ∙ ap (λ (os : List Order). ok (page (page_size g) (take (page_size g + 1) (sort_rows os)))) same
    ∙ sym (list-healthy g db)

module _ (db : Db) where
  -- What a table that has grown shows behind a cursor, the old one shows too.
  abbrev IsStable : Db → Cursor → Type 0
  IsStable db' c =
      (f : ListFilter)
      → list healthy (record f { cursor = some c }) db'
        ≡ list healthy (record f { cursor = some c }) db

  HasGrown-IsStable : (db' : Db) → HasGrown db db' → All (λ o. IsStable db' (at o)) db.orders
  HasGrown-IsStable db' (created, e, a) =
      All-map (λ o a' f. list-grown f db db' o created e a') db.orders a

  walk_live-walk :
      (fuel : ℕ) (f : ListFilter) (now : Db) (later : ℕ → Db)
      → list healthy f now ≡ list healthy f db
      → ((n : ℕ) → HasGrown db (later n))
      → walk_live fuel f now later ≡ walk fuel f db
  unfolding walk_live walk
  walk_live-walk zero f now later e grown = refl
  walk_live-walk (suc fuel) f now later e grown =
      let next : (c : Cursor) → Option (List Order) =
        λ c. walk_live fuel (record f { cursor = some c }) (later 0) (λ n. later (suc n)) in
      ap (follow_page next) e
      ∙ elim (list healthy f db)
            as (λ r.
              list healthy f db ≡ r
              → follow_page next r
                ≡ follow_page (λ c. walk fuel (record f { cursor = some c }) db) r) [
                  | err x ↦ λ h. refl
                  | ok (os, none) ↦ λ h. refl
                  | ok (os, some c) ↦ λ h. ap (prepend os) (
                      walk_live-walk fuel (record f { cursor = some c }) (later 0)
                        (λ n. later (suc n))
                        (list-cursor_All (IsStable (later 0)) f db os c
                          (HasGrown-IsStable (later 0) (grown 0)) h f)
                        (λ n. grown (suc n)))
                ]
          refl

  -- A client that starts without a cursor and follows the cursors to the end, while any orders are
  -- created between its pages, each newer than all that were there at the first page, gets exactly the
  -- orders that matched its filter at the first page, each once and the newest first: none is skipped or
  -- repeated. No call of the driver fails on any page, nor does PostgreSQL refuse a parameter; between
  -- the pages orders are only created, and none changes; the ids of the orders were unique at the
  -- first page, and the fuel allows one page more than there were matching orders.
  pub walk_live-matching :
      (fuel : ℕ) (f : ListFilter) (later : ℕ → Db)
      → ((k : Uuid) → count_orders k db.orders ≤ 1)
      → f.cursor ≡ none
      → length (matching f db) < fuel
      → ((n : ℕ) → HasGrown db (later n))
      → walk_live fuel f db later ≡ some (matching f db)
  walk_live-matching fuel f later unique start enough grown =
      walk_live-walk fuel f db later refl grown ∙ walk-matching db unique fuel f start enough

not_grown : (db : Db) → HasGrown db db
not_grown db = ([], refl, none_created db.orders)
  where
    none_created : (os : List Order) → All (λ o. All (λ n. newer n o ≡ true) []) os
    none_created [] = tt
    none_created (o ∷ os) = (tt, none_created os)

-- `Create` lets the table grow, if its clock is past the times of all rows.
pub create-HasGrown :
    (reply : Reply) (cause : GoError) (now : Instant) (o : Order) (db : Db)
    → All (λ p. p.created_at < now) db.orders
    → HasGrown db (create reply cause now o db).1
unfolding newer
create-HasGrown reply cause now o db past =
    create_cases (HasGrown db) reply cause now o db (not_grown db) λ fresh. (
      record o { created_at = now } ∷ [],
      refl,
      All-map (λ p h. (ground (arith, h), tt)) db.orders past,
    )
