-- ===== src/Order/Listing.antt =====
-- `List` of internal/order/store.go from the query on: the rows that it selects, their order, and
-- the page and the cursor that it makes of them.
pub mod Sorting
pub mod Pages
pub mod Walk
pub mod Cursors
pub mod Live
pub mod Unordered
use investment_engine.Prelude.{
  ℕ, zero, suc, ◌+◌, ℤ, pos, pos_part, ◌+ℤ◌, leb_ℤ, Bool, true, false, ◌&&◌, Option, none, some,
  List, [], ◌∷◌, ◌++◌, length, take, ltb, if◌then◌else◌,
}
use investment_engine.GoError.{GoError, new, wrap}
use investment_engine.Result.{Result, ok, err}
use investment_engine.Pagination.{Cursor}
use investment_engine.Order.Model.{Order}
use investment_engine.Order.Store.{Db}
use investment_engine.Order.Query.{
  ListFilter, default_limit, Arg, int, Condition, Builder, build, placeholder, pair_lt,
  evaluate_all,
}

-- The row stands before the other under ORDER BY created_at DESC, id DESC.
unfoldable pub newer : Order → Order → Bool
unfolding pair_lt
newer o p = pair_lt p.created_at p.id o.created_at o.id

unfoldable pub insert_row : Order → List Order → List Order
insert_row o [] = o ∷ []
insert_row o (p ∷ ps) = if newer o p then o ∷ p ∷ ps else p ∷ insert_row o ps

unfoldable pub sort_rows : List Order → List Order
unfolding insert_row newer
sort_rows [] = []
sort_rows (o ∷ os) = insert_row o (sort_rows os)

abbrev keep_row : Order → Option Bool → Option (List Order) → Option (List Order)
keep_row o (some true) (some os) = some (o ∷ os)
keep_row o (some false) (some os) = some os
keep_row o _ _ = none

-- The WHERE clause over the rows; `none` if the server finds an error in it.
unfoldable pub select_rows : List Arg → List Condition → List Order → Option (List Order)
unfolding evaluate_all
select_rows args conditions [] = some []
select_rows args conditions (o ∷ os) =
    keep_row o (evaluate_all args conditions o) (select_rows args conditions os)

abbrev limit_rows : Option Arg → Option (List Order) → Option (List Order)
limit_rows (some (int n)) (some os) = some (take (pos_part n) (sort_rows os))
limit_rows _ _ = none

-- The whole query, whose last placeholder is that of LIMIT.
unfoldable pub run_query : List Arg → List Condition → List Order → Option (List Order)
unfolding select_rows sort_rows
run_query args conditions os =
    limit_rows (placeholder args (length args)) (select_rows args conditions os)

-- The errors of the query, of scanning a row, and of the rows after the last one.
pub record ListFaults : Type 0 where
  pub query : Option GoError
  pub scan : Option GoError
  pub rows : Option GoError

abbrev scanned : Option GoError → List Order → Option GoError
scanned e [] = none
scanned e (o ∷ os) = e

abbrev rows_error : Option GoError → Option GoError → List Order → Result (List Order)
rows_error (some e) r os = err (wrap "list orders: scan: %w" e)
rows_error none (some e) os = err (wrap "list orders: rows: %w" e)
rows_error none none os = ok os

abbrev read_rows : ListFaults → Option (List Order) → Result (List Order)
read_rows faults none = err (wrap "list orders: query: %w" (new "invalid query"))
read_rows faults (some os) = rows_error (scanned faults.scan os) faults.rows os

abbrev fetch : ListFaults → Option GoError → Option (List Order) → Result (List Order)
fetch faults (some e) rows = err (wrap "list orders: query: %w" e)
fetch faults none rows = read_rows faults rows

-- The cursor behind the last order; of no orders there is none.
unfoldable pub cursor_of_last : List Order → Option Cursor
cursor_of_last [] = none
cursor_of_last (o ∷ []) = some (record { created_at = o.created_at; id = o.id })
cursor_of_last (o ∷ p ∷ ps) = cursor_of_last (p ∷ ps)

-- The row behind the limit tells that there are more, and is cut off.
unfoldable pub page : ℕ → List Order → List Order × Option Cursor
unfolding cursor_of_last
page limit orders =
    if ltb limit (length orders)
    then (take limit orders, cursor_of_last (take limit orders))
    else (orders, none)

abbrev page_of : ℕ → Result (List Order) → Result (List Order × Option Cursor)
page_of limit (ok os) = ok (page limit os)
page_of limit (err e) = err e

-- A limit that is not positive is replaced by the default.
unfoldable pub effective_limit : ℤ → ℤ
effective_limit limit = if leb_ℤ limit (pos 0) then default_limit else limit

-- `List`
unfoldable pub list : ListFaults → ListFilter → Db → Result (List Order × Option Cursor)
list faults f db =
    let limit = effective_limit f.limit in
    let b = build f in
    let args = b.args ++ int (limit +ℤ pos 1) ∷ [] in
    page_of (pos_part limit) (fetch faults faults.query (run_query args b.conditions db.orders))
