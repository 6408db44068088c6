-- ===== src/Tests/OutOfRange.antt =====
-- A quantity that INTEGER does not hold, at a concrete request.
use investment_engine.Prelude.{pos, ◌≡◌, refl, [], text_eq, arith}
use investment_engine.GoError.{new}
use investment_engine.Strings.{
  to_upper, to_upper_rune, trim_space, trim_left, is_space, is_upper_letter, is_digit,
}
use investment_engine.Order.Model.{is_valid_side, is_valid_execution_type}
use investment_engine.Order.Store.{done}
use investment_engine.Order.Listing.Pages.{healthy}
use investment_engine.Order.CreateOrder.{
  CreateOrderRequest, request, matches_asset_symbol_pattern, symbol_errors, quantity_errors,
  side_errors, execution_type_errors, normalized_symbol, field_errors, create_order,
}
use investment_engine.Order.CreateOrder.OutOfRange.{create_order_out_of_range}
use investment_engine.Order.PostgresStore.{postgres_order_store}
use investment_engine.System.{silent}
use investment_engine.Tests.Data.{upper, sample_request}
use investment_engine.Tests.System.{begin}

abbrev large_request : CreateOrderRequest
large_request = record sample_request { quantity = pos 2147483648 }

large_request-valid : field_errors upper large_request ≡ []
unfolding field_errors symbol_errors quantity_errors side_errors execution_type_errors
    normalized_symbol matches_asset_symbol_pattern is_valid_side is_valid_execution_type to_upper
    to_upper_rune trim_space trim_left is_space is_upper_letter is_digit text_eq
large_request-valid = refl

create_order_out_of_range_example :
    let (r, st) =
      create_order upper
        (postgres_order_store healthy done (new "driver") 7)
        silent
        (request large_request)
        5
        begin in
    (r.status ≡ 500) × (st ≡ begin)
create_order_out_of_range_example =
    create_order_out_of_range upper healthy done (new "driver") 7 silent 5 begin large_request
      2147483648 refl (omega arith) large_request-valid
