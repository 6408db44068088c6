-- ===== src/Order/Event.antt =====
-- internal/order/events.go: the wire contract of `order.created`, its constructor from a created
-- order, and the checks that a consumer makes before it trusts an event.
use investment_engine.Prelude.{
  ℤ, pos, Bool, true, false, not, Option, none, some, Text, text_eq, ◌==◌, leb_ℤ, [], if◌then◌else◌,
}
use investment_engine.GoError.{GoError, new}
use investment_engine.Float64.{Float64, le_zero}
use investment_engine.Order.Model.{
  Uuid, uuid_nil, Instant, Side, ExecutionType, Order, execution_limit, execution_market,
  is_valid_side, is_valid_execution_type,
}

pub record OrderCreatedEvent : Type 0 where
  pub order_id : Uuid
  pub user_id : Uuid
  pub asset_symbol : Text
  pub quantity : ℤ
  pub side : Side
  pub execution_type : ExecutionType
  pub limit_price : Option Float64
  pub created_at : Instant

unfoldable pub new_order_created_event : Order → OrderCreatedEvent
new_order_created_event o = record {
  order_id = o.id;
  user_id = o.user_id;
  asset_symbol = o.asset_symbol;
  quantity = o.quantity;
  side = o.side;
  execution_type = o.execution_type;
  limit_price = o.limit_price;
  created_at = o.created_at;
}

-- `p == nil || *p <= 0`
abbrev pub is_missing_or_nonpositive : Option Float64 → Bool
is_missing_or_nonpositive none = true
is_missing_or_nonpositive (some p) = le_zero p

-- `p != nil`
abbrev pub is_set : Option Float64 → Bool
is_set none = false
is_set (some p) = true

-- The `switch` on the execution type at the end of `Validate`.
unfoldable pub validate_limit_price : ExecutionType → Option Float64 → Option GoError
validate_limit_price type price =
    if text_eq type execution_limit
    then if is_missing_or_nonpositive price
      then some (new "limit_price must be present and positive for LIMIT orders")
      else none
    else if text_eq type execution_market
    then if is_set price then some (new "limit_price must be absent for MARKET orders") else none
    else none

-- `none` is a nil error; the first violation found is returned.
unfoldable pub validate : OrderCreatedEvent → Option GoError
validate e =
    if e.order_id == uuid_nil
    then some (new "order_id is required")
    else if e.user_id == uuid_nil
    then some (new "user_id is required")
    else if text_eq e.asset_symbol []
    then some (new "asset_symbol is required")
    else if leb_ℤ e.quantity (pos 0)
    then some (new "quantity must be positive")
    else if not (is_valid_side e.side)
    then some (new "invalid side %q")
    else if not (is_valid_execution_type e.execution_type)
    then some (new "invalid execution_type %q")
    else validate_limit_price e.execution_type e.limit_price
