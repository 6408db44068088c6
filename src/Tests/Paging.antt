-- ===== src/Tests/Paging.antt =====
-- Queries, pages and tokens at concrete inputs.
use investment_engine.Prelude.{
  ◌≡◌, refl, pos, none, some, [], ◌∷◌, ◌++◌, arith, map, codes, text_eq, select, ◌&&◌,
}
use investment_engine.GoError.{new}
use investment_engine.Order.Store.{done}
use investment_engine.Order.Query.{ListFilter, int, build, evaluate_all, pair_lt}
use investment_engine.Order.Query.Conditions.{passes, is_before_cursor, evaluate_all-build}
use investment_engine.Order.Store.{create}
use investment_engine.Order.Listing.Live.{walk_live, walk_live-matching, create-HasGrown}
use investment_engine.Order.Listing.{sort_rows, list, insert_row, newer}
use investment_engine.Order.Listing.Pages.{healthy, matching}
use mathlib.Core.List.{Permᴰ}
use investment_engine.Order.Store.{Db}
use investment_engine.Order.Listing.Unordered.{list_unordered}
use investment_engine.Order.Api.{order_response}
use investment_engine.Http.{simulated_user_id}
use investment_engine.Strings.{atoi, is_digit, to_upper, to_upper_rune}
use investment_engine.Order.ListOrders.{
  parse_query, parse_limit, parse_cursor, parse_status, parse_side, parse_execution_type,
  parse_asset_symbol, parse_created_after, parse_created_before,
}
use investment_engine.Order.ListOrders.Follow.{follow, follow-matching}
use investment_engine.Order.PostgresStore.{postgres_order_store}
use investment_engine.Order.Model.{is_valid_status}
use investment_engine.Tests.Data.{
  sample_order, older_order, two_orders, two_orders_unique, unary-IsCursorJson,
}
use investment_engine.Tests.Api.{parsers, query}

abbrev filter : ListFilter
filter = record {
  user_id = simulated_user_id;
  cursor = none;
  limit = pos 1;
  status = some (codes "PENDING");
  side = none;
  execution_type = none;
  asset_symbol = none;
  created_after = none;
  created_before = none;
}

abbrev behind_first : ListFilter
behind_first = record filter { cursor = some (record { created_at = 7; id = 5 }) }

evaluate_all-build_example :
    evaluate_all
      ((build behind_first).args ++ int (pos 2) ∷ [])
      (build behind_first).conditions
      older_order
    ≡ some (passes behind_first older_order && is_before_cursor behind_first.cursor older_order)
evaluate_all-build_example = evaluate_all-build older_order behind_first (int (pos 2) ∷ [])

matching-two_orders : matching filter two_orders ≡ sample_order ∷ older_order ∷ []
unfolding matching select passes sort_rows insert_row newer pair_lt text_eq
matching-two_orders = refl

parsed_clean : (parse_query parsers simulated_user_id query).errors ≡ []
unfolding parse_query parse_limit parse_cursor parse_status parse_side parse_execution_type
    parse_asset_symbol parse_created_after parse_created_before atoi is_digit to_upper to_upper_rune
    is_valid_status text_eq
parsed_clean = refl

matching-query :
    matching (parse_query parsers simulated_user_id query).filter two_orders
    ≡ sample_order ∷ older_order ∷ []
unfolding parse_query parse_limit parse_cursor parse_status parse_side parse_execution_type
    parse_asset_symbol parse_created_after parse_created_before atoi is_digit to_upper to_upper_rune
    is_valid_status matching select passes sort_rows insert_row newer pair_lt text_eq
matching-query = refl

follow-matching_example :
    follow parsers (postgres_order_store healthy done (new "driver") 7) two_orders 3 query
    ≡ some (
        map order_response
          (matching (parse_query parsers simulated_user_id query).filter two_orders))
follow-matching_example =
    follow-matching parsers unary-IsCursorJson two_orders done (new "driver") 7
      (
        (λ e. omega arith, λ e. omega arith, omega arith),
        ((λ e. omega arith, λ e. omega arith, omega arith), tt),
      )
      two_orders_unique 3 query refl parsed_clean (rw matching-query (omega arith))

abbrev rearranged : Db
rearranged = record { orders = sample_order ∷ older_order ∷ []; executions = [] }

list_unordered_example : list healthy filter two_orders ≡ list healthy filter rearranged
list_unordered_example =
    list_unordered filter two_orders rearranged two_orders_unique (Permᴰ.swap refl refl)

-- While the client pages, a third order is created.
abbrev grown : Db
grown = (create done (new "driver") 9 (record sample_order { id = 8 }) two_orders).1

walk_live-matching_example :
    walk_live 3 filter two_orders (λ n. grown) ≡ some (matching filter two_orders)
walk_live-matching_example =
    walk_live-matching two_orders 3 filter (λ n. grown) two_orders_unique refl
      (rw matching-two_orders (omega arith))
      (λ n.
        create-HasGrown done (new "driver") 9 (record sample_order { id = 8 }) two_orders
          (omega arith))
