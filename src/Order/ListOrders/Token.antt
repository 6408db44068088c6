-- ===== src/Order/ListOrders/Token.antt =====
-- What a cursor token changes in the filter of `ListOrders` of internal/order/handler.go.
use investment_engine.Prelude.{
  ℕ, Option, none, some, [], ◌≡◌, ◌≢◌, refl, Text, text_eq, text_eq→≡, arith, Bool-cases, inl, inr,
}
use investment_engine.Result.{ok}
use investment_engine.Pagination.{Cursor, decode_cursor}
use investment_engine.Order.Model.{Uuid, Instant}
use investment_engine.Order.ListOrders.{
  Query, Parsers, Parsed, parse_limit, parse_cursor, parse_status, parse_side, parse_execution_type,
  parse_asset_symbol, parse_created_after, parse_created_before, initial, parse_query,
}

abbrev pub with_cursor : Cursor → Parsed → Parsed
with_cursor c p = record p { filter = record p.filter { cursor = some c } }

module _ (c : Cursor) where
  status-with_cursor :
      (upper : ℕ → ℕ) (raw : Text) (p : Parsed)
      → parse_status upper raw (with_cursor c p) ≡ with_cursor c (parse_status upper raw p)
  unfolding parse_status
  status-with_cursor upper raw p = ground arith

  side-with_cursor :
      (upper : ℕ → ℕ) (raw : Text) (p : Parsed)
      → parse_side upper raw (with_cursor c p) ≡ with_cursor c (parse_side upper raw p)
  unfolding parse_side
  side-with_cursor upper raw p = ground arith

  execution_type-with_cursor :
      (upper : ℕ → ℕ) (raw : Text) (p : Parsed)
      → parse_execution_type upper raw (with_cursor c p)
        ≡ with_cursor c (parse_execution_type upper raw p)
  unfolding parse_execution_type
  execution_type-with_cursor upper raw p = ground arith

  asset_symbol-with_cursor :
      (raw : Text) (p : Parsed)
      → parse_asset_symbol raw (with_cursor c p) ≡ with_cursor c (parse_asset_symbol raw p)
  unfolding parse_asset_symbol
  asset_symbol-with_cursor raw p = ground arith

  created_after-with_cursor :
      (parse_time : Text → Option Instant) (raw : Text) (p : Parsed)
      → parse_created_after parse_time raw (with_cursor c p)
        ≡ with_cursor c (parse_created_after parse_time raw p)
  unfolding parse_created_after
  created_after-with_cursor parse_time raw p = ground arith

  created_before-with_cursor :
      (parse_time : Text → Option Instant) (raw : Text) (p : Parsed)
      → parse_created_before parse_time raw (with_cursor c p)
        ≡ with_cursor c (parse_created_before parse_time raw p)
  unfolding parse_created_before
  created_before-with_cursor parse_time raw p = ground arith

cursor-limit : (raw : Text) (p : Parsed) → (parse_limit raw p).filter.cursor ≡ p.filter.cursor
unfolding parse_limit
cursor-limit raw p = ground arith

cursor-status :
    (upper : ℕ → ℕ) (raw : Text) (p : Parsed)
    → (parse_status upper raw p).filter.cursor ≡ p.filter.cursor
unfolding parse_status
cursor-status upper raw p = ground arith

cursor-side :
    (upper : ℕ → ℕ) (raw : Text) (p : Parsed)
    → (parse_side upper raw p).filter.cursor ≡ p.filter.cursor
unfolding parse_side
cursor-side upper raw p = ground arith

cursor-execution_type :
    (upper : ℕ → ℕ) (raw : Text) (p : Parsed)
    → (parse_execution_type upper raw p).filter.cursor ≡ p.filter.cursor
unfolding parse_execution_type
cursor-execution_type upper raw p = ground arith

cursor-asset_symbol :
    (raw : Text) (p : Parsed) → (parse_asset_symbol raw p).filter.cursor ≡ p.filter.cursor
unfolding parse_asset_symbol
cursor-asset_symbol raw p = ground arith

cursor-created_after :
    (parse_time : Text → Option Instant) (raw : Text) (p : Parsed)
    → (parse_created_after parse_time raw p).filter.cursor ≡ p.filter.cursor
unfolding parse_created_after
cursor-created_after parse_time raw p = ground arith

cursor-created_before :
    (parse_time : Text → Option Instant) (raw : Text) (p : Parsed)
    → (parse_created_before parse_time raw p).filter.cursor ≡ p.filter.cursor
unfolding parse_created_before
cursor-created_before parse_time raw p = ground arith

module _ (lib : Parsers) where
  parse_cursor-token :
      (c : Cursor) (token : Text) (p : Parsed)
      → decode_cursor lib.json token ≡ ok c
      → token ≢ []
      → parse_cursor lib.json token p ≡ with_cursor c p
  unfolding parse_cursor
  parse_cursor-token c token p h k = elim (Bool-cases (text_eq token [])) [
    | inl e ↦ absurd (k (text_eq→≡ token [] e))
    | inr e ↦ rw (e, h)
  ]

  parse_cursor-none : (p : Parsed) → parse_cursor lib.json [] p ≡ p
  unfolding parse_cursor text_eq
  parse_cursor-none p = refl

  -- A token in the query changes the cursor of the filter, and nothing else.
  pub parse_query-token :
      (user_id : Uuid) (q : Query) (c : Cursor) (token : Text)
      → decode_cursor lib.json token ≡ ok c
      → token ≢ []
      → parse_query lib user_id (record q { cursor = token })
        ≡ with_cursor c (parse_query lib user_id (record q { cursor = [] }))
  unfolding parse_query
  parse_query-token user_id q c token h k = simp (
    parse_cursor-token c token (parse_limit q.limit (initial user_id)) h k,
    parse_cursor-none,
    status-with_cursor c,
    side-with_cursor c,
    execution_type-with_cursor c,
    asset_symbol-with_cursor c,
    created_after-with_cursor c,
    created_before-with_cursor c,
  )

  -- Without a token there is no cursor.
  pub parse_query-no_cursor :
      (user_id : Uuid) (q : Query)
      → q.cursor ≡ []
      → (parse_query lib user_id q).filter.cursor ≡ none
  unfolding parse_query
  parse_query-no_cursor user_id q h = rw h (
      simp
        (
          cursor-created_before, cursor-created_after, cursor-asset_symbol, cursor-execution_type,
          cursor-side, cursor-status, parse_cursor-none, cursor-limit,
        )
        refl)
