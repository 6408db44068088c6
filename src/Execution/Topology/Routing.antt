-- ===== src/Execution/Topology/Routing.antt =====
-- What the declarations of internal/execution/topology.go make the broker do with messages. An
-- exchange with a name routes to the queues that are bound with the key of the message, the default
-- exchange to the queue of that name; a queue with a dead-letter exchange hands over to it, under
-- its dead-letter key, what is rejected or expires.
use text.Mathlib.Text.{◌==◌ as str_eq}
use investment_engine.Prelude.{
  pos, String, Bool, true, false, not, ◌&&◌, ◌||◌, List, [], ◌∷◌, ◌++◌, Option, none, some,
  if◌then◌else◌, ◌≡◌, refl, arith,
}
use investment_engine.Execution.Headers.{Table, Value, str, int32, lookup}
use investment_engine.Execution.Topology.{
  Declaration, exchange, queue, binding, Channel, setup_topology,
}

-- The queue that the default exchange has for a key.
abbrev named : String → List Declaration → List String
named key [] = []
named key (queue name args ∷ ds) = (if str_eq name key then name ∷ [] else []) ++ named key ds
named key (exchange name ∷ ds) = named key ds
named key (binding name e k ∷ ds) = named key ds

abbrev bound : String → String → List Declaration → List String
bound e key [] = []
bound e key (binding name e' key' ∷ ds) =
    (if str_eq e' e && str_eq key' key then name ∷ [] else []) ++ bound e key ds
bound e key (exchange name ∷ ds) = bound e key ds
bound e key (queue name args ∷ ds) = bound e key ds

-- The queues that get a message published to an exchange under a key.
unfoldable pub routes : List Declaration → String → String → List String
routes ds e key = if str_eq e "" then named key ds else bound e key ds

abbrev arguments : String → List Declaration → Table
arguments name [] = []
arguments name (queue name' args ∷ ds) = if str_eq name' name then args else arguments name ds
arguments name (exchange e ∷ ds) = arguments name ds
arguments name (binding q e k ∷ ds) = arguments name ds

abbrev forwarded : List Declaration → Option Value → Option Value → List String
forwarded ds (some (str e)) (some (str key)) = routes ds e key
forwarded ds _ _ = []

-- The queues that get what a queue rejects without requeueing or lets expire.
unfoldable pub dead_letters : List Declaration → String → List String
unfolding routes
dead_letters ds name =
    let args = arguments name ds in
    forwarded ds (lookup "x-dead-letter-exchange" args) (lookup "x-dead-letter-routing-key" args)

unfoldable pub time_to_live : List Declaration → String → Option Value
time_to_live ds name = lookup "x-message-ttl" (arguments name ds)

abbrev topology : List Declaration
topology =
    exchange "order_events"
    ∷ exchange "order_execution.dlx"
    ∷ queue "order_execution.dlq" []
    ∷ binding "order_execution.dlq" "order_execution.dlx" "order_execution.dlq"
    ∷ queue "order_execution" (
        ("x-dead-letter-exchange", str "order_execution.dlx")
        ∷ ("x-dead-letter-routing-key", str "order_execution.dlq")
        ∷ [])
    ∷ queue "order_execution.retry" (
        ("x-dead-letter-exchange", str "")
        ∷ ("x-dead-letter-routing-key", str "order_execution")
        ∷ ("x-message-ttl", int32 (pos 5000))
        ∷ [])
    ∷ binding "order_execution" "order_events" "order.created"
    ∷ []

-- Nil means that all of the declarations were made.
setup_topology_complete :
    (channel : Channel) → (setup_topology channel).0 ≡ none → (setup_topology channel).1 ≡ topology
unfolding setup_topology
setup_topology_complete channel h = ground arith

-- If `SetupTopology` returns nil, then what its calls have declared routes a message for the
-- exchange "order_events" under the key "order.created" to the queue "order_execution" and to no
-- other; what that queue rejects goes to "order_execution.dlq"; a message for the default exchange
-- under the key "order_execution.retry" goes to the queue of that name, and what expires there, after
-- 5000 ms, goes back to "order_execution"; nothing leaves "order_execution.dlq".
pub setup_topology-routes :
    (channel : Channel)
    → (setup_topology channel).0 ≡ none
    → let made = (setup_topology channel).1 in
      (routes made "order_events" "order.created" ≡ "order_execution" ∷ [])
      × (dead_letters made "order_execution" ≡ "order_execution.dlq" ∷ [])
      × (dead_letters made "order_execution.retry" ≡ "order_execution" ∷ [])
      × (dead_letters made "order_execution.dlq" ≡ [])
      × (routes made "" "order_execution.retry" ≡ "order_execution.retry" ∷ [])
      × (time_to_live made "order_execution.retry" ≡ some (int32 (pos 5000)))
unfolding routes dead_letters time_to_live lookup
setup_topology-routes channel h =
    rw (setup_topology_complete channel h) (refl, refl, refl, refl, refl, refl)

abbrev is_empty : List String → Bool
is_empty [] = true
is_empty (q ∷ qs) = false

abbrev has_exchange : String → List Declaration → Bool
has_exchange e [] = false
has_exchange e (exchange e' ∷ ds) = str_eq e' e || has_exchange e ds
has_exchange e (queue name args ∷ ds) = has_exchange e ds
has_exchange e (binding name e' key ∷ ds) = has_exchange e ds

-- A queue that dead-letters has a destination among the declarations that are made.
abbrev is_ready : List Declaration → Option Value → Option Value → Bool
is_ready made none key = true
is_ready made (some e) key = not (is_empty (forwarded made (some e) key))

-- Bindings and dead-letter arguments name only what was declared before.
unfoldable pub is_ordered : List Declaration → List Declaration → Bool
unfolding routes
is_ordered made [] = true
is_ordered made (exchange e ∷ ds) = is_ordered (exchange e ∷ made) ds
is_ordered made (queue name args ∷ ds) =
    is_ready made (lookup "x-dead-letter-exchange" args) (lookup "x-dead-letter-routing-key" args)
    && is_ordered (queue name args ∷ made) ds
is_ordered made (binding name e key ∷ ds) =
    not (is_empty (named name made))
    && has_exchange e made
    && is_ordered (binding name e key ∷ made) ds

-- Whichever call of the channel fails, no binding is declared before its queue and its exchange,
-- and no queue before the place where its dead letters go.
pub setup_topology-is_ordered :
    (channel : Channel) → is_ordered [] (setup_topology channel).1 ≡ true
unfolding setup_topology is_ordered routes lookup
setup_topology-is_ordered channel = ground arith
