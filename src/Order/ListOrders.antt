-- ===== src/Order/ListOrders.antt =====
-- `ListOrders` of internal/order/handler.go. A query parameter that is absent is the empty text, as
-- url.Values.Get answers; `parse_time` is time.Parse with RFC 3339.
pub mod Filter
pub mod Token
pub mod Follow
use investment_engine.Prelude.{
  ℕ, ℤ, pos, leb_ℤ, Bool, true, false, not, Option, none, some, List, [], ◌∷◌, ◌++◌, map, String,
  Text, text_eq, if◌then◌else◌,
}
use investment_engine.GoError.{GoError}
use investment_engine.Result.{Result, ok, err}
use investment_engine.Strings.{to_upper, atoi}
use investment_engine.Http.{
  FieldError, Response, orders, ListOrdersResponse, write, code_validation, code_unauthorized,
  user_id_from_context,
}
use investment_engine.Pagination.{Cursor, CursorJson, encode_cursor, decode_cursor}
use investment_engine.Order.Model.{
  Uuid, Instant, Order, is_valid_status, is_valid_side, is_valid_execution_type,
}
use investment_engine.Order.Query.{ListFilter, default_limit}
use investment_engine.Order.Api.{OrderStore, order_response, internal_error}

abbrev pub max_limit : ℤ
max_limit = pos 100

pub record Query : Type 0 where
  pub limit : Text
  pub cursor : Text
  pub status : Text
  pub side : Text
  pub execution_type : Text
  pub asset_symbol : Text
  pub created_after : Text
  pub created_before : Text

-- The tables and parsers of Go's libraries.
pub record Parsers : Type 0 where
  pub upper : ℕ → ℕ
  pub parse_time : Text → Option Instant
  pub json : CursorJson

-- The filter so far and the field errors so far.
pub record Parsed : Type 0 where
  pub filter : ListFilter
  pub errors : List FieldError

abbrev reject : String → String → Parsed → Parsed
reject field message p = record p {
  errors = p.errors ++ record { field = field; message = message } ∷ [];
}

abbrev set_limit : Option ℤ → Parsed → Parsed
set_limit none p = reject "limit" "must be a positive integer" p
set_limit (some n) p =
    if leb_ℤ n (pos 0) then reject "limit" "must be a positive integer" p else record p {
      filter = record p.filter { limit = if leb_ℤ n max_limit then n else max_limit };
    }

unfoldable pub parse_limit : Text → Parsed → Parsed
parse_limit raw p = if text_eq raw [] then p else set_limit (atoi raw) p

abbrev set_cursor : Result Cursor → Parsed → Parsed
set_cursor (err e) p = reject "cursor" "malformed cursor token" p
set_cursor (ok c) p = record p { filter = record p.filter { cursor = some c } }

unfoldable pub parse_cursor : CursorJson → Text → Parsed → Parsed
parse_cursor json raw p = if text_eq raw [] then p else set_cursor (decode_cursor json raw) p

unfoldable pub parse_status : (ℕ → ℕ) → Text → Parsed → Parsed
parse_status upper raw p =
    if text_eq raw []
    then p
    else if not (is_valid_status (to_upper upper raw))
    then reject "status" "must be one of PENDING, EXECUTED, CANCELLED, REJECTED" p
    else record p { filter = record p.filter { status = some (to_upper upper raw) } }

unfoldable pub parse_side : (ℕ → ℕ) → Text → Parsed → Parsed
parse_side upper raw p =
    if text_eq raw []
    then p
    else if not (is_valid_side (to_upper upper raw))
    then reject "side" "must be BUY or SELL" p
    else record p { filter = record p.filter { side = some (to_upper upper raw) } }

unfoldable pub parse_execution_type : (ℕ → ℕ) → Text → Parsed → Parsed
parse_execution_type upper raw p =
    if text_eq raw []
    then p
    else if not (is_valid_execution_type (to_upper upper raw))
    then reject "executionType" "must be MARKET or LIMIT" p
    else record p { filter = record p.filter { execution_type = some (to_upper upper raw) } }

unfoldable pub parse_asset_symbol : Text → Parsed → Parsed
parse_asset_symbol raw p =
    if text_eq raw [] then p else record p { filter = record p.filter { asset_symbol = some raw } }

abbrev set_created_after : Option Instant → Parsed → Parsed
set_created_after none p = reject "createdAfter" "must be an RFC3339 timestamp" p
set_created_after (some t) p = record p { filter = record p.filter { created_after = some t } }

unfoldable pub parse_created_after : (Text → Option Instant) → Text → Parsed → Parsed
parse_created_after parse_time raw p =
    if text_eq raw [] then p else set_created_after (parse_time raw) p

abbrev set_created_before : Option Instant → Parsed → Parsed
set_created_before none p = reject "createdBefore" "must be an RFC3339 timestamp" p
set_created_before (some t) p = record p { filter = record p.filter { created_before = some t } }

unfoldable pub parse_created_before : (Text → Option Instant) → Text → Parsed → Parsed
parse_created_before parse_time raw p =
    if text_eq raw [] then p else set_created_before (parse_time raw) p

abbrev pub initial : Uuid → Parsed
initial user_id = record {
  filter = record {
    user_id = user_id;
    cursor = none;
    limit = default_limit;
    status = none;
    side = none;
    execution_type = none;
    asset_symbol = none;
    created_after = none;
    created_before = none;
  };
  errors = [];
}

module _ (lib : Parsers) where
  -- The parameters, in the order of the source.
  unfoldable pub parse_query : Uuid → Query → Parsed
  parse_query user_id q =
      let p = parse_limit q.limit (initial user_id) in
      let p = parse_cursor lib.json q.cursor p in
      let p = parse_status lib.upper q.status p in
      let p = parse_side lib.upper q.side p in
      let p = parse_execution_type lib.upper q.execution_type p in
      let p = parse_asset_symbol q.asset_symbol p in
      let p = parse_created_after lib.parse_time q.created_after p in
      parse_created_before lib.parse_time q.created_before p

  abbrev answer : List Order → Option Text → Bool → Response
  answer os token more = record {
    status = 200;
    content_type = "application/json";
    body = orders (record { orders = map order_response os; next_cursor = token; has_more = more });
  }

  abbrev answer_more : List Order → Result Text → Response
  answer_more os (err e) = internal_error
  answer_more os (ok token) = answer os (some token) true

  abbrev pub answer_page : Result (List Order × Option Cursor) → Response
  answer_page (err e) = internal_error
  answer_page (ok (os, none)) = answer os none false
  answer_page (ok (os, some c)) = answer_more os (encode_cursor lib.json c)

  abbrev pub answer_filter :
      {S : Type 0} → OrderStore S → S → List FieldError → ListFilter → Response
  answer_filter store s (e ∷ es) f =
      write 400 code_validation "one or more query parameters are invalid" (e ∷ es)
  answer_filter store s [] f = answer_page (store.list f s)

  abbrev answer_user : {S : Type 0} → OrderStore S → S → Result Uuid → Query → Response
  answer_user store s (err e) q = write 401 code_unauthorized "authentication required" []
  answer_user store s (ok user_id) q =
      let p = parse_query user_id q in answer_filter store s p.errors p.filter

  unfoldable pub list_orders : {S : Type 0} → OrderStore S → S → Query → Response
  unfolding user_id_from_context
  list_orders store s q = answer_user store s user_id_from_context q
