-- ===== src/Execution/Topology.antt =====
-- internal/execution/topology.go, with `SetupMessaging` of internal/order/events.go and the three
-- helpers of internal/rabbitmq/connection.go: what is declared to the broker, in order. The answer
-- of the AMQP channel to each declaration is an argument.
pub mod Routing
use investment_engine.Prelude.{ℤ, pos, String, List, [], ◌∷◌, ◌++◌, Option, none, some}
use investment_engine.GoError.{GoError, wrap}
use investment_engine.Order.Publisher.{events_exchange, created_routing_key}
use investment_engine.Execution.Headers.{Table, str, int32}
use investment_engine.Execution.Consumer.{retry_queue}

abbrev pub order_queue : String
order_queue = "order_execution"

abbrev pub dead_letter_exchange : String
dead_letter_exchange = "order_execution.dlx"

abbrev pub dead_letter_queue : String
dead_letter_queue = "order_execution.dlq"

abbrev pub dead_letter_routing_key : String
dead_letter_routing_key = "order_execution.dlq"

-- 5 seconds, in milliseconds.
abbrev pub retry_delay : ℤ
retry_delay = pos 5000

-- The calls of the channel: a durable direct exchange, a durable queue with its arguments, and a
-- binding of a queue to an exchange.
pub data Declaration : Type 0 where
  exchange : String → Declaration
  queue : String → Table → Declaration
  binding : (queue_name : String) (exchange_name : String) (routing_key : String) → Declaration

-- The channel's error for a declaration; `none` where it succeeds.
abbrev pub Channel : Type 0
Channel = Declaration → Option GoError

-- What a call of a function answers, and what it has asked of the channel, in order.
abbrev pub Declared : Type 0
Declared = Option GoError × List Declaration

abbrev wrapped : String → Option GoError → Option GoError
wrapped m none = none
wrapped m (some e) = some (wrap m e)

-- One call of the channel.
abbrev asked : Channel → String → Declaration → Declared
asked channel m d = (wrapped m (channel d), d ∷ [])

unfoldable pub declare_direct_exchange : Channel → String → Declared
declare_direct_exchange channel name =
    asked channel "rabbitmq: failed to declare exchange %s: %w" (exchange name)

unfoldable pub declare_durable_queue : Channel → String → Table → Declared
declare_durable_queue channel name args =
    asked channel "rabbitmq: failed to declare queue %s: %w" (queue name args)

unfoldable pub bind_queue : Channel → String → String → String → Declared
bind_queue channel name exchange_name key =
    asked channel "rabbitmq: failed to bind queue %s to exchange %s with key %s: %w"
      (binding name exchange_name key)

unfoldable pub setup_messaging : Channel → Declared
unfolding declare_direct_exchange
setup_messaging channel = declare_direct_exchange channel events_exchange

-- One step: an error of the call ends the function.
abbrev pub step : String → Declared → Declared → Declared
step m (some e, ds) rest = (some (wrap m e), ds)
step m (none, ds) (r, ds') = (r, ds ++ ds')

abbrev pub order_queue_arguments : Table
order_queue_arguments =
    ("x-dead-letter-exchange", str dead_letter_exchange)
    ∷ ("x-dead-letter-routing-key", str dead_letter_routing_key)
    ∷ []

abbrev pub retry_queue_arguments : Table
retry_queue_arguments =
    ("x-dead-letter-exchange", str "")
    ∷ ("x-dead-letter-routing-key", str order_queue)
    ∷ ("x-message-ttl", int32 retry_delay)
    ∷ []

-- `SetupTopology`: its answer, and the declarations that its calls have asked for.
unfoldable pub setup_topology : Channel → Declared
unfolding declare_direct_exchange declare_durable_queue bind_queue setup_messaging
setup_topology channel =
    step "execution: failed to declare order events exchange: %w" (setup_messaging channel) (
      step "execution: failed to declare dead letter exchange: %w"
        (declare_direct_exchange channel dead_letter_exchange)
        (step "execution: failed to declare dead letter queue: %w"
          (declare_durable_queue channel dead_letter_queue [])
          (step "execution: failed to bind dead letter queue: %w"
            (bind_queue channel dead_letter_queue dead_letter_exchange dead_letter_routing_key)
            (step "execution: failed to declare order queue: %w"
              (declare_durable_queue channel order_queue order_queue_arguments)
              (step "execution: failed to declare retry queue: %w"
                (declare_durable_queue channel retry_queue retry_queue_arguments)
                (step "execution: failed to bind order queue: %w"
                  (bind_queue channel order_queue events_exchange created_routing_key)
                  (none, [])))))))
