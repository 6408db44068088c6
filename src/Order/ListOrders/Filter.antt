-- ===== src/Order/ListOrders/Filter.antt =====
-- The filter that `ListOrders` of internal/order/handler.go makes of the query parameters.
use investment_engine.Prelude.{
  ℕ, pos, leb_ℤ, Bool, true, false, Option, none, some, ◌≡◌, refl, Text, arith,
}
use investment_engine.Pagination.{CursorJson}
use investment_engine.Order.Model.{
  Uuid, Instant, is_valid_status, is_valid_side, is_valid_execution_type,
}
use investment_engine.Order.Query.{ListFilter}
use investment_engine.Order.ListOrders.{
  Query, Parsers, Parsed, parse_limit, parse_cursor, parse_status, parse_side, parse_execution_type,
  parse_asset_symbol, parse_created_after, parse_created_before, initial, parse_query, max_limit,
}

abbrev pub Given : (Text → Bool) → Option Text → Type 0
Given p none = Unit
Given p (some t) = p t ≡ true

-- A filter that the handler hands to the store.
pub record IsFilter (user_id : Uuid) (f : ListFilter) : Type 0 where
  pub user_id_kept : f.user_id ≡ user_id
  pub positive : leb_ℤ f.limit (pos 0) ≡ false
  pub bounded : leb_ℤ f.limit max_limit ≡ true
  pub status : Given is_valid_status f.status
  pub side : Given is_valid_side f.side
  pub execution_type : Given is_valid_execution_type f.execution_type

module _ (user_id : Uuid) where
  parse_limit-IsFilter :
      (raw : Text) (p : Parsed)
      → IsFilter user_id p.filter
      → IsFilter user_id (parse_limit raw p).filter
  unfolding parse_limit
  parse_limit-IsFilter raw p h = ground arith

  parse_cursor-IsFilter :
      (json : CursorJson) (raw : Text) (p : Parsed)
      → IsFilter user_id p.filter
      → IsFilter user_id (parse_cursor json raw p).filter
  unfolding parse_cursor
  parse_cursor-IsFilter json raw p h = ground arith

  parse_status-IsFilter :
      (upper : ℕ → ℕ) (raw : Text) (p : Parsed)
      → IsFilter user_id p.filter
      → IsFilter user_id (parse_status upper raw p).filter
  unfolding parse_status
  parse_status-IsFilter upper raw p h = ground arith

  parse_side-IsFilter :
      (upper : ℕ → ℕ) (raw : Text) (p : Parsed)
      → IsFilter user_id p.filter
      → IsFilter user_id (parse_side upper raw p).filter
  unfolding parse_side
  parse_side-IsFilter upper raw p h = ground arith

  parse_execution_type-IsFilter :
      (upper : ℕ → ℕ) (raw : Text) (p : Parsed)
      → IsFilter user_id p.filter
      → IsFilter user_id (parse_execution_type upper raw p).filter
  unfolding parse_execution_type
  parse_execution_type-IsFilter upper raw p h = ground arith

  parse_asset_symbol-IsFilter :
      (raw : Text) (p : Parsed)
      → IsFilter user_id p.filter
      → IsFilter user_id (parse_asset_symbol raw p).filter
  unfolding parse_asset_symbol
  parse_asset_symbol-IsFilter raw p h = ground arith

  parse_created_after-IsFilter :
      (parse_time : Text → Option Instant) (raw : Text) (p : Parsed)
      → IsFilter user_id p.filter
      → IsFilter user_id (parse_created_after parse_time raw p).filter
  unfolding parse_created_after
  parse_created_after-IsFilter parse_time raw p h = ground arith

  parse_created_before-IsFilter :
      (parse_time : Text → Option Instant) (raw : Text) (p : Parsed)
      → IsFilter user_id p.filter
      → IsFilter user_id (parse_created_before parse_time raw p).filter
  unfolding parse_created_before
  parse_created_before-IsFilter parse_time raw p h = ground arith

  initial-IsFilter : IsFilter user_id (initial user_id).filter
  initial-IsFilter = record {
    user_id_kept = refl;
    positive = refl;
    bounded = refl;
    status = tt;
    side = tt;
    execution_type = tt;
  }

  -- Whatever a client sends, the filter is for the given user, its limit lies between 1 and 100, and
  -- its status, side and execution type, where given, are valid ones.
  pub parse_query-IsFilter :
      (lib : Parsers) (q : Query) → IsFilter user_id (parse_query lib user_id q).filter
  unfolding parse_query
  parse_query-IsFilter lib q = parse_created_before-IsFilter lib.parse_time q.created_before _ (
      parse_created_after-IsFilter lib.parse_time q.created_after _ (
        parse_asset_symbol-IsFilter q.asset_symbol _ (
          parse_execution_type-IsFilter lib.upper q.execution_type _ (
            parse_side-IsFilter lib.upper q.side _ (
              parse_status-IsFilter lib.upper q.status _ (
                parse_cursor-IsFilter lib.json q.cursor _
                  (parse_limit-IsFilter q.limit _ initial-IsFilter)))))))
