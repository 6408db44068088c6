-- ===== src/Order/Listing/Pages.antt =====
-- What a client sees that follows the cursors of `List` of internal/order/store.go to the end.
use investment_engine.Prelude.{
  ℕ, suc, pred, ◌+◌, ℤ, pos, pos_part, ◌+ℤ◌, ◌&&◌, none, some, List, [], ◌∷◌, ◌++◌, length, take,
  select, ◌≡◌, refl, arith, get_elem?-append_length, length-append,
}
use native.Mathlib.Numerals.{add-one}
use investment_engine.Result.{ok}
use investment_engine.Order.Model.{Order}
use investment_engine.Order.Store.{Db}
use investment_engine.Order.Query.{ListFilter, Arg, int, build, placeholder}
use investment_engine.Order.Query.Conditions.{passes, is_before_cursor, evaluate_all-build}
use investment_engine.Order.Listing.{
  sort_rows, select_rows, run_query, ListFaults, read_rows, page_of, page, effective_limit, list,
}

abbrev pub healthy : ListFaults
healthy = record { query = none; scan = none; rows = none }

-- The orders that the filter asks for, the newest first: no pages, no SQL.
unfoldable pub matching : ListFilter → Db → List Order
matching f db = sort_rows (select (passes f) db.orders)

select_rows-build :
    (f : ListFilter) (more : List Arg) (os : List Order)
    → select_rows ((build f).args ++ more) (build f).conditions os
      ≡ some (select (λ o. passes f o && is_before_cursor f.cursor o) os)
unfolding select_rows select
select_rows-build f more [] = refl
select_rows-build f more (o ∷ os) =
    rw (evaluate_all-build o f more, select_rows-build f more os) (ground arith)

-- The limit of a page.
abbrev pub page_size : ListFilter → ℕ
page_size f = pos_part (effective_limit f.limit)

placeholder_last :
    (args : List Arg) (a : Arg) → placeholder (args ++ a ∷ []) (length (args ++ a ∷ [])) ≡ some a
placeholder_last args a =
    rw (length-append args (a ∷ []), add-one (length args)) (get_elem?-append_length args [] a)

pub effective_limit-pos :
    (n : ℤ) → effective_limit n ≡ pos (suc (pred (pos_part (effective_limit n))))
unfolding effective_limit
effective_limit-pos n = ground arith

limit_one_more : (n : ℤ) → pos_part (effective_limit n +ℤ pos 1) ≡ pos_part (effective_limit n) + 1
limit_one_more n = rw (effective_limit-pos n) (ground arith)

run_query-build :
    (f : ListFilter) (n : ℤ) (os : List Order)
    → run_query ((build f).args ++ int n ∷ []) (build f).conditions os
      ≡ some (
          take
            (pos_part n)
            (sort_rows (select (λ o. passes f o && is_before_cursor f.cursor o) os)))
unfolding run_query
run_query-build f n os = rw (placeholder_last (build f).args (int n), select_rows-build f _ os)

read_healthy : (n : ℕ) (os : List Order) → page_of n (read_rows healthy (some os)) ≡ ok (page n os)
read_healthy n [] = refl
read_healthy n (o ∷ os) = refl

-- Without faults, `List` answers with one page of the rows that the filter asks for and that lie
-- behind the cursor, newest first.
pub list-healthy :
    (f : ListFilter) (db : Db)
    → list healthy f db
      ≡ ok (
          page (page_size f) (
            take
              (page_size f + 1)
              (sort_rows (select (λ o. passes f o && is_before_cursor f.cursor o) db.orders))))
unfolding list
list-healthy f db = rw (run_query-build f _ db.orders, limit_one_more f.limit) (read_healthy _ _)
