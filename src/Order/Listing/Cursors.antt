-- ===== src/Order/Listing/Cursors.antt =====
-- The cursors that `List` of internal/order/store.go gives out are positions of rows of the table.
use investment_engine.Prelude.{
  ℕ, zero, suc, ◌+◌, ◌&&◌, some, List, [], ◌∷◌, All, select, take, ◌≡◌, sym, ◌∙◌, subst, arith,
  Bool-cases, inl, inr,
}
use investment_engine.Result.{ok}
use investment_engine.Pagination.{Cursor}
use investment_engine.Order.Model.{Order}
use investment_engine.Order.Store.{Db}
use investment_engine.Order.Query.{ListFilter}
use investment_engine.Order.Query.Conditions.{passes, is_before_cursor}
use investment_engine.Order.Listing.{list, page, cursor_of_last, sort_rows, insert_row, newer}
use investment_engine.Order.Listing.Sorting.{select-All}
use investment_engine.Order.Listing.Pages.{healthy, page_size, list-healthy}
use investment_engine.Order.Listing.Walk.{at}

take-All {ℓ} : (P : Order → Type ℓ) (n : ℕ) (os : List Order) → All P os → All P (take n os)
take-All P zero os a = tt
take-All P (suc n) [] a = tt
take-All P (suc n) (o ∷ os) (h, a) = (h, take-All P n os a)

insert_row-All {ℓ} :
    (P : Order → Type ℓ) (o : Order) (os : List Order) → P o → All P os → All P (insert_row o os)
unfolding insert_row
insert_row-All P o [] h a = (h, tt)
insert_row-All P o (p ∷ ps) h (k, a) = elim (Bool-cases (newer o p)) [
  | inl e ↦ rw e (h, (k, a))
  | inr e ↦ rw e (k, insert_row-All P o ps h a)
]

sort_rows-All {ℓ} : (P : Order → Type ℓ) (os : List Order) → All P os → All P (sort_rows os)
unfolding sort_rows
sort_rows-All P [] a = tt
sort_rows-All P (o ∷ os) (h, a) = insert_row-All P o (sort_rows os) h (sort_rows-All P os a)

module _ {ℓ} (P : Cursor → Type ℓ) where
  cursor_of_last-All :
      (os : List Order) (c : Cursor) → All (λ o. P (at o)) os → cursor_of_last os ≡ some c → P c
  unfolding cursor_of_last
  cursor_of_last-All [] c a e = absurd (ground arith)
  cursor_of_last-All (o ∷ []) c (h, _) e =
      let same : at o ≡ c = ground arith in subst (λ c. P c) same h
  cursor_of_last-All (o ∷ p ∷ ps) c (h, a) e = cursor_of_last-All (p ∷ ps) c a e

  page-All :
      (n : ℕ) (rows os : List Order) (c : Cursor)
      → All (λ o. P (at o)) rows
      → page n rows ≡ (os, some c)
      → P c
  unfolding page
  page-All n rows os c a e =
      cursor_of_last-All (take n rows) c (take-All (λ o. P (at o)) n rows a) (ground arith)

  -- What holds of the positions of all rows holds of the cursor of a page.
  pub list-cursor_All :
      (f : ListFilter) (db : Db) (os : List Order) (c : Cursor)
      → All (λ o. P (at o)) db.orders
      → list healthy f db ≡ ok (os, some c)
      → P c
  list-cursor_All f db os c a e =
      let found = select (λ o. passes f o && is_before_cursor f.cursor o) db.orders in
      let rows = take (page_size f + 1) (sort_rows found) in
      page-All (page_size f) rows os c
        (take-All (λ o. P (at o)) (page_size f + 1) (sort_rows found)
          (sort_rows-All (λ o. P (at o)) found (select-All (λ o. P (at o)) _ db.orders a)))
        (let e' = sym (list-healthy f db) ∙ e in cc)
