-- ===== src/Tests/Api.antt =====
-- The two handlers of internal/order/handler.go at concrete inputs.
use investment_engine.Prelude.{◌≡◌, refl, none, [], codes, text_eq}
use investment_engine.GoError.{new}
use investment_engine.Http.{user_id_from_context, simulated_user_id}
use investment_engine.Strings.{
  to_upper, to_upper_rune, trim_space, trim_left, is_space, is_upper_letter, is_digit,
}
use investment_engine.Order.Model.{is_valid_side, is_valid_execution_type, is_valid_status}
use investment_engine.Order.Store.{
  Db, done, create, after_insert, admits_order, count_orders, fits_integer, empty_db,
}
use investment_engine.Order.Listing.Pages.{healthy}
use investment_engine.Order.Api.{State}
use investment_engine.Order.CreateOrder.{
  request, matches_asset_symbol_pattern, symbol_errors, quantity_errors, side_errors,
  execution_type_errors, normalized_symbol, field_errors, new_order, create_order,
}
use investment_engine.Order.CreateOrder.Laws.{IsCreated, create_order-IsCreated}
use investment_engine.Order.ListOrders.{Query, Parsers, parse_query}
use investment_engine.Order.ListOrders.Filter.{IsFilter, parse_query-IsFilter}
use investment_engine.Order.PostgresStore.{postgres_order_store}
use investment_engine.Order.Api.{OrderStore}
use investment_engine.System.{silent}
use investment_engine.Tests.Data.{upper, sample_request, unary}

no_field_errors : field_errors upper sample_request ≡ []
unfolding field_errors symbol_errors quantity_errors side_errors execution_type_errors
    normalized_symbol matches_asset_symbol_pattern is_valid_side is_valid_execution_type to_upper
    to_upper_rune trim_space trim_left is_space is_upper_letter is_digit text_eq
no_field_errors = refl

abbrev store : OrderStore Db
store = postgres_order_store healthy done (new "driver") 7

abbrev start : State Db (Unit {0})
start = record { store = empty_db; publisher = tt }

created_201 : (create_order upper store silent (request sample_request) 5 start).0.status ≡ 201
unfolding create_order field_errors symbol_errors quantity_errors side_errors execution_type_errors
    normalized_symbol matches_asset_symbol_pattern is_valid_side is_valid_execution_type to_upper
    to_upper_rune trim_space trim_left is_space is_upper_letter is_digit text_eq
    user_id_from_context new_order create after_insert admits_order count_orders fits_integer
    is_valid_status
created_201 = refl

create_order-IsCreated_example :
    IsCreated upper store silent 5 start
      (request sample_request)
      (create_order upper store silent (request sample_request) 5 start)
create_order-IsCreated_example =
    create_order-IsCreated upper store silent 5 start (request sample_request) created_201

abbrev pub parsers : Parsers
parsers = record { upper = upper; parse_time = λ t. none; json = unary }

-- One order a page.
abbrev pub query : Query
query = record {
  limit = codes "1";
  cursor = [];
  status = codes "pending";
  side = [];
  execution_type = [];
  asset_symbol = codes "PETR4";
  created_after = [];
  created_before = [];
}

parse_query-IsFilter_example :
    IsFilter simulated_user_id (parse_query parsers simulated_user_id query).filter
parse_query-IsFilter_example = parse_query-IsFilter simulated_user_id parsers query
