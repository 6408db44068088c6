-- ===== src/Order/Api.antt =====
-- What the two handlers of internal/order/handler.go share: the interfaces `OrderStore` (declared
-- in internal/order/store.go) and `EventPublisher`, over the states that their implementations
-- keep, and the response for one order.
use investment_engine.Prelude.{Option, List, []}
use investment_engine.GoError.{GoError}
use investment_engine.Result.{Result, Stateful}
use investment_engine.Http.{OrderResponse, Response, write, code_internal}
use investment_engine.Pagination.{Cursor}
use investment_engine.Order.Model.{Order}
use investment_engine.Order.Event.{OrderCreatedEvent}
use investment_engine.Order.Query.{ListFilter}

pub record OrderStore (S : Type 0) : Type 0 where
  pub list : ListFilter → S → Result (List Order × Option Cursor)
  pub create : Order → Stateful S Order

pub record EventPublisher (P : Type 0) : Type 0 where
  pub publish_order_created : OrderCreatedEvent → P → Option GoError × P

pub record State (S P : Type 0) : Type 0 where
  pub store : S
  pub publisher : P

unfoldable pub order_response : Order → OrderResponse
order_response o = record {
  order_id = o.id;
  asset_symbol = o.asset_symbol;
  quantity = o.quantity;
  side = o.side;
  execution_type = o.execution_type;
  limit_price = o.limit_price;
  status = o.status;
  created_at = o.created_at;
}

unfoldable pub internal_error : Response
unfolding write
internal_error = write 500 code_internal "internal error" []
