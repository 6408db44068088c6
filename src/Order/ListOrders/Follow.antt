-- ===== src/Order/ListOrders/Follow.antt =====
-- An HTTP client that follows `nextCursor` through the responses of `ListOrders` of
-- internal/order/handler.go, on a table that does not change meanwhile.
use investment_engine.Prelude.{
  ℕ, zero, suc, ◌≤◌, ◌<◌, Option, none, some, List, [], ◌∷◌, ◌++◌, All, map, length, ◌≡◌, ◌≢◌, refl,
  sym, ap, ◌∙◌, Text, arith,
}
use mathlib.Core.List.{map-append}
use investment_engine.Result.{Result, ok, err}
use investment_engine.Http.{
  Body, OrderResponse, FieldError, failure, order, orders, simulated_user_id,
}
use investment_engine.Pagination.{Cursor, decode_cursor}
use investment_engine.Pagination.Token.{
  IsCursorJson, year_10000, decode_cursor-encode_cursor, encode_cursor-ne-nil, encode_cursor-total,
}
use investment_engine.Order.Model.{Uuid, uuid_nil, Order, Instant}
use investment_engine.Order.Store.{Db, count_orders}
use investment_engine.Order.Query.{ListFilter}
use investment_engine.Order.Listing.{list}
use investment_engine.Order.Listing.Pages.{healthy, matching}
use investment_engine.Order.Listing.Cursors.{list-cursor_All}
use investment_engine.Order.Listing.Walk.{walk, walk-matching, follow_page, prepend, at}
use investment_engine.Order.PostgresStore.{postgres_order_store}
use investment_engine.Order.Store.{Reply}
use investment_engine.GoError.{GoError}
use investment_engine.Order.Api.{OrderStore, order_response, internal_error}
use investment_engine.Order.ListOrders.{
  Query, Parsers, Parsed, parse_query, list_orders, answer_page, answer_filter,
}
use investment_engine.Order.ListOrders.Token.{with_cursor, parse_query-token, parse_query-no_cursor}

-- A cursor that has a token.
abbrev pub HasToken : Cursor → Type 0
HasToken c = (c.created_at ≢ 0) × (c.id ≢ uuid_nil) × (c.created_at < year_10000)

list-HasToken :
    (f : ListFilter) (db : Db) (os : List Order) (c : Cursor)
    → All (λ o. HasToken (at o)) db.orders
    → list healthy f db ≡ ok (os, some c)
    → HasToken c
list-HasToken f db os c a e = list-cursor_All HasToken f db os c a e

abbrev pub responses : Option (List Order) → Option (List OrderResponse)
responses none = none
responses (some os) = some (map order_response os)

module _ (lib : Parsers) where
  abbrev prepend_responses :
      List OrderResponse → Option (List OrderResponse) → Option (List OrderResponse)
  prepend_responses os none = none
  prepend_responses os (some ps) = some (os ++ ps)

  abbrev continue :
      (Text → Option (List OrderResponse))
      → List OrderResponse
      → Option Text
      → Option (List OrderResponse)
  continue next os none = some os
  continue next os (some token) = prepend_responses os (next token)

  abbrev follow_body : (Text → Option (List OrderResponse)) → Body → Option (List OrderResponse)
  follow_body next (failure e) = none
  follow_body next (order o) = none
  follow_body next (orders r) = continue next r.orders r.next_cursor

  -- All orders that the client gets; `none` on an error, or if the fuel runs out.
  unfoldable pub follow : {S : Type 0} → OrderStore S → S → ℕ → Query → Option (List OrderResponse)
  follow store s zero q = none
  follow store s (suc fuel) q =
      follow_body (λ token. follow store s fuel (record q { cursor = token }))
        (list_orders lib store s q).body

query_start :
    (lib : Parsers) (q : Query)
    → q.cursor ≡ []
    → parse_query lib simulated_user_id (record q { cursor = [] })
      ≡ parse_query lib simulated_user_id q
query_start lib q h =
    ap (λ (t : Text). parse_query lib simulated_user_id (record q { cursor = t })) (sym h)

prepend-responses :
    (lib : Parsers) (os : List Order) (r : Option (List Order))
    → prepend_responses lib (map order_response os) (responses r) ≡ responses (prepend os r)
prepend-responses lib os none = refl
prepend-responses lib os (some ps) = ap some (sym (map-append order_response os ps))

module _ (lib : Parsers) (w : IsCursorJson lib.json) (db : Db) (reply : Reply) (cause : GoError)
    (now : Instant) (have_tokens : All (λ o. HasToken (at o)) db.orders) where
  abbrev store : OrderStore Db
  store = postgres_order_store healthy reply cause now

  -- One page of the client that follows tokens is one page of the client that follows cursors.
  follow_page-responses :
      (fuel : ℕ) (q : Query) (f : ListFilter)
      → ((c : Cursor) (token : Text)
          → decode_cursor lib.json token ≡ ok c
          → token ≢ []
          → follow lib store db fuel (record q { cursor = token })
            ≡ responses (walk fuel (record f { cursor = some c }) db))
      → (r : Result (List Order × Option Cursor)) → list healthy f db ≡ r
      → follow_body lib
          (λ token. follow lib store db fuel (record q { cursor = token }))
          (answer_page lib r).body
        ≡ responses (follow_page (λ c. walk fuel (record f { cursor = some c }) db) r)
  unfolding internal_error
  follow_page-responses fuel q f next (err e) h = refl
  follow_page-responses fuel q f next (ok (os, none)) h = refl
  follow_page-responses fuel q f next (ok (os, some c)) h =
      let (time, id, early) = list-HasToken f db os c have_tokens h in
      let (token, e) = encode_cursor-total lib.json w c early in
      let ne : token ≢ [] = λ n. encode_cursor-ne-nil lib.json w c (e ∙ ap ok n) in
      rw
        (
          e,
          next c token (decode_cursor-encode_cursor lib.json w c token time id e) ne,
          prepend-responses lib os (walk fuel (record f { cursor = some c }) db),
        )
        refl

  answer_no_errors :
      (es : List FieldError) (f : ListFilter)
      → es ≡ []
      → answer_filter lib store db es f ≡ answer_page lib (list healthy f db)
  answer_no_errors [] f h = refl
  answer_no_errors (e ∷ es) f h = absurd (ground arith)

  follow-walk :
      (fuel : ℕ) (q : Query) (p : Parsed) (current : Option Cursor)
      → parse_query lib simulated_user_id (record q { cursor = [] }) ≡ p
      → p.errors ≡ []
      → parse_query lib simulated_user_id q
        ≡ record p { filter = record p.filter { cursor = current } }
      → follow lib store db fuel q ≡ responses (walk fuel (record p.filter { cursor = current }) db)
  unfolding follow walk list_orders
  follow-walk zero q p current base clean now_at = refl
  follow-walk (suc fuel) q p current base clean now_at =
      let f : ListFilter = record p.filter { cursor = current } in
      let page =
        follow_page-responses fuel q f
          (λ c token d ne.
            follow-walk fuel (record q { cursor = token }) p (some c) base clean
              (parse_query-token lib simulated_user_id q c token d ne ∙ ap (with_cursor c) base))
          (list healthy f db) refl in
      rw (now_at, answer_no_errors p.errors f clean) page

  -- A client that sends a query without cursor and follows `nextCursor` to the end gets, without an
  -- error and in at most one response more than there are matching orders, exactly the orders that
  -- match the filter of its query, each once and the newest first. The query has no field errors,
  -- no call of the driver fails (nor does PostgreSQL refuse a parameter, as it does a text with a NUL),
  -- the table does not change from the first page to the last, and its rows have unique ids, none of
  -- them nil, and times of creation that JSON can carry.
  pub follow-matching :
      (unique : (k : Uuid) → count_orders k db.orders ≤ 1)
      → (fuel : ℕ) (q : Query) → q.cursor ≡ []
      → (parse_query lib simulated_user_id q).errors ≡ []
      → length (matching (parse_query lib simulated_user_id q).filter db) < fuel
      → follow lib store db fuel q
        ≡ some (map order_response (matching (parse_query lib simulated_user_id q).filter db))
  follow-matching unique fuel q start clean enough =
      let p = parse_query lib simulated_user_id q in
      follow-walk fuel q p p.filter.cursor (query_start lib q start) clean refl
      ∙ ap responses (
          walk-matching db unique fuel p.filter
            (parse_query-no_cursor lib simulated_user_id q start) enough)
