-- ===== src/Order/Publisher.antt =====
-- `Publisher` of internal/order/events.go. A publish opens a channel of its own, which it closes
-- where it fails; where it succeeds, a goroutine (`awaitReturn`) takes the channel over. What the
-- AMQP library, json.Marshal and the propagator of trace contexts do is an argument.
pub mod Channels
use investment_engine.Prelude.{
  ℕ, suc, String, Bool, true, false, List, [], ◌∷◌, ◌++◌, Option, none, some, ◌≡◌,
}
use investment_engine.GoError.{GoError, wrap}
use investment_engine.Result.{Result, ok, err}
use investment_engine.Order.Model.{Uuid}
use investment_engine.Order.Event.{OrderCreatedEvent}
use investment_engine.Execution.Headers.{Table}
use investment_engine.Tracing.{inject_trace_context}

abbrev pub events_exchange : String
events_exchange = "order_events"

abbrev pub created_routing_key : String
created_routing_key = "order.created"

-- amqp.Publishing with the arguments of PublishWithContext.
pub record Message : Type 0 where
  pub exchange : String
  pub routing_key : String
  pub mandatory : Bool
  pub persistent : Bool
  pub content_type : String
  pub headers : Table
  pub body : List ℕ

-- What the libraries do during one publish.
pub record Attempt : Type 0 where
  pub open_error : Option GoError
  pub marshal : OrderCreatedEvent → Result (List ℕ)
  pub trace_fields : List (String × String)
  pub publish_error : Option GoError
  -- Whether the broker routes and keeps the message once the publish has returned nil.
  pub routed : Bool

-- The connection: how many channels were opened and closed, what the broker was sent, for which
-- orders a goroutine still waits, and for which ones it has warned.
pub record Connection : Type 0 where
  pub opened : ℕ
  pub closed : ℕ
  pub sent : List Message
  pub waiting : List Uuid
  pub warned : List Uuid

abbrev close_channel : Connection → Connection
close_channel c = record c { closed = suc c.closed }

unfoldable pub event_message : Attempt → List ℕ → Message
event_message a body = record {
  exchange = events_exchange;
  routing_key = created_routing_key;
  mandatory = true;
  persistent = true;
  content_type = "application/json";
  headers = inject_trace_context a.trace_fields [];
  body = body;
}

abbrev pub send :
    Attempt → Uuid → List ℕ → Option GoError → Connection → Option GoError × Connection
send a id body (some e) c =
    (some (wrap "order: failed to publish order created event: %w" e), close_channel c)
send a id body none c =
    (none, record c { sent = event_message a body ∷ c.sent; waiting = id ∷ c.waiting })

abbrev pub marshalled : Attempt → Uuid → Result (List ℕ) → Connection → Option GoError × Connection
marshalled a id (err e) c =
    (some (wrap "order: failed to marshal order created event: %w" e), close_channel c)
marshalled a id (ok body) c = send a id body a.publish_error c

abbrev pub on_channel :
    Attempt → OrderCreatedEvent → Option GoError → Connection → Option GoError × Connection
on_channel a event (some e) c =
    (some (wrap "order: failed to open channel to publish order created event: %w" e), c)
on_channel a event none c =
    marshalled a event.order_id (a.marshal event) (record c { opened = suc c.opened })

-- `PublishOrderCreated`
unfoldable pub publish_order_created :
    Attempt → OrderCreatedEvent → Connection → Option GoError × Connection
publish_order_created a event c = on_channel a event a.open_error c

abbrev warn : Bool → Uuid → List Uuid → List Uuid
warn true id warned = id ∷ warned
warn false id warned = warned

-- `awaitReturn` for an order among those that are waited for; `returned` tells whether the broker
-- returns the message within the second.
unfoldable pub await_return : Bool → List Uuid → Uuid → List Uuid → Connection → Connection
await_return returned before id after c = record c {
  closed = suc c.closed;
  waiting = before ++ after;
  warned = warn returned id c.warned;
}

-- Publishes and goroutines interleave in any order.
pub data Run (start : Connection) : Connection → Type 0 where
  begin : Run start start
  publishes :
      {c : Connection} (a : Attempt) (event : OrderCreatedEvent)
      → Run start c
      → Run start (publish_order_created a event c).1
  returns :
      {c : Connection} (returned : Bool) (before : List Uuid) (id : Uuid) (after : List Uuid)
      → c.waiting ≡ before ++ id ∷ after
      → Run start c
      → Run start (await_return returned before id after c)
