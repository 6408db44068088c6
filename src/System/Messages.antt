-- ===== src/System/Messages.antt =====
-- The messages between the API (cmd/api/main.go) and the consumers (cmd/consumer/main.go), in the
-- three queues of internal/execution/topology.go. A move is one request, one delivery to one of any
-- number of consumers, or a message that returns from the retry queue. The broker may lose any message
-- that it is handed; it keeps what is in a queue, delivers each message to one consumer at a time, and
-- gets back what a consumer that dies has not settled.
pub mod Settlement
pub mod Copies
pub mod Accounted
pub mod Kept
pub mod Work
pub mod Drained
pub mod Consuming
pub mod Published
pub mod Origins
pub mod Reliable
use text.Mathlib.Text.{◌==◌ as str_eq}
use investment_engine.Prelude.{
  ◌&&◌, ℕ, suc, ◌+◌, Bool, true, false, List, [], ◌∷◌, ◌++◌, map, select, Option, none, some,
  text_eq, if◌then◌else◌, ◌≡◌,
}
use investment_engine.GoError.{GoError}
use investment_engine.Http.{Response}
use investment_engine.Order.Model.{Uuid, Instant}
use investment_engine.Order.Store.{Db, Reply, empty_db}
use investment_engine.Order.Listing.{ListFaults}
use investment_engine.Order.Api.{State}
use investment_engine.Order.CreateOrder.{Decoded, create_order}
use investment_engine.Order.Publisher.{
  events_exchange, created_routing_key, Attempt, Connection, Message,
}
use investment_engine.Order.AmqpPublisher.{amqp_publisher}
use investment_engine.Order.PostgresStore.{postgres_order_store}
use investment_engine.Execution.Headers.{Value}
use investment_engine.Execution.Handler.{Body}
use investment_engine.Execution.Consumer
use investment_engine.Execution.Consumer.{
  retry_queue, Publishing, Action, ack, reject, publish, Libraries, Delivery, Counter, process,
}
use investment_engine.Execution.Consumer.Retries.{carry}
use investment_engine.System.{Conditions, circumstances}

-- OrderQueue, RetryQueue and DeadLetterQueue; and, in no queue, what the broker could not route or keep
-- although the publish had returned nil: the channels are not in confirm mode, so that the program
-- goes on, and `awaitReturn` at most logs it.
pub record Queues : Type 0 where
  pub ready : List Delivery
  pub retrying : List Delivery
  pub dead : List Delivery
  pub lost : List Delivery

-- The tables, the queues, and all events that the broker was ever sent.
pub record World : Type 0 where
  pub db : Db
  pub queues : Queues
  pub sent : List Message

-- The default exchange takes a message to the queue that its routing key names.
abbrev pub to_retry_queue : Publishing → Bool
to_retry_queue m = str_eq m.exchange "" && str_eq m.routing_key retry_queue

abbrev pub copied_to : (Value → Value) → Bool → Publishing → Queues → Queues
copied_to wire false m q = record q {
  lost = record { headers = carry wire m.headers; body = m.body } ∷ q.lost;
}
copied_to wire true m q =
    if to_retry_queue m
    then record q {
      retrying = record { headers = carry wire m.headers; body = m.body } ∷ q.retrying;
    }
    else q

-- What the broker does with a delivery that is told these actions; `kept` tells whether it keeps what
-- is published.
unfoldable pub react : (Value → Value) → Bool → Delivery → List Action → Queues → Queues
react wire kept d [] q = q
react wire kept d (ack ∷ rest) q = react wire kept d rest q
react wire kept d (reject true ∷ rest) q = react wire kept d rest (record q { ready = d ∷ q.ready })
react wire kept d (reject false ∷ rest) q = react wire kept d rest (record q { dead = d ∷ q.dead })
react wire kept d (publish m (some e) ∷ rest) q = react wire kept d rest q
react wire kept d (publish m none ∷ rest) q = react wire kept d rest (copied_to wire kept m q)

-- A connection on which nothing was sent yet.
abbrev pub unused : Connection
unused = record { opened = 0; closed = 0; sent = []; waiting = []; warned = [] }

abbrev pub arriving : (Value → Value) → Message → Delivery
arriving wire m = record { headers = carry wire m.headers; body = m.body }

-- What the bindings of the topology take to the order queue.
abbrev pub to_order_queue : Message → Bool
to_order_queue m = str_eq m.exchange events_exchange && str_eq m.routing_key created_routing_key

-- What the broker does with events that were published without an error.
abbrev pub handed : (Value → Value) → Bool → List Message → Queues → Queues
handed wire true ms q = record q {
  ready = map (arriving wire) (select to_order_queue ms) ++ q.ready;
}
handed wire false ms q = record q { lost = map (arriving wire) ms ++ q.lost }

-- After a request.
abbrev pub posted : (Value → Value) → Bool → Response × State Db Connection → World → World
posted wire routed (r, st) w = record {
  db = st.store;
  queues = handed wire routed st.publisher.sent w.queues;
  sent = st.publisher.sent ++ w.sent;
}

-- After a delivery that was taken out of the queue.
abbrev pub settled : (Value → Value) → Bool → Delivery → List Action → Db → Queues → World → World
settled wire kept d actions db q w = record {
  db = db;
  queues = react wire kept d actions q;
  sent = w.sent;
}

module _ (lib : Libraries) (wire : Value → Value) where
  abbrev pub processed : Conditions → Delivery → Counter → World → Consumer.State Db × List Action
  processed c d m w =
      process lib (circumstances c) d (record { store = w.db; messages_processed = m })

  pub data Move (w : World) : World → Type 0 where
    posts :
        (upper : ℕ → ℕ) (faults : ListFaults) (reply : Reply) (cause : GoError) (now : Instant)
        (a : Attempt) (id : Uuid) (decoded : Decoded)
        → Move w (
            posted wire a.routed
              (create_order upper
                (postgres_order_store faults reply cause now)
                (amqp_publisher a)
                decoded
                id
                (record { store = w.db; publisher = unused }))
              w)
    takes :
        (c : Conditions) (d : Delivery) (m : Counter) (before after : List Delivery)
        → w.queues.ready ≡ before ++ d ∷ after
        → Move w (
            settled wire c.copy_kept d
              (processed c d m w).1
              (processed c d m w).0.store
              (record w.queues { ready = before ++ after })
              w)
    -- A consumer dies, or loses its channel, before it has told the broker all that it meant to, and
    -- the delivery returns.
    dies :
        (c : Conditions) (d : Delivery) (m : Counter) (before after : List Delivery)
        (told untold : List Action) (next : Action)
        → w.queues.ready ≡ before ++ d ∷ after
        → (processed c d m w).1 ≡ told ++ next ∷ untold
        → Move w (
            settled wire c.copy_kept d
              (told ++ reject true ∷ [])
              (processed c d m w).0.store
              (record w.queues { ready = before ++ after })
              w)
    -- The time of a message in the retry queue is over.
    expires :
        (d : Delivery) (before after : List Delivery)
        → w.queues.retrying ≡ before ++ d ∷ after
        → Move w (record w {
          queues = record w.queues { ready = d ∷ w.queues.ready; retrying = before ++ after };
        })

  pub data Run (start : World) : World → Type 0 where
    here : Run start start
    next : {w w' : World} → Run start w → Move w w' → Run start w'

abbrev pub empty_world : World
empty_world = record {
  db = empty_db;
  queues = record { ready = []; retrying = []; dead = []; lost = [] };
  sent = [];
}

-- How many messages with this body are in a queue, and in all three.
unfoldable pub count_bodies : Body → List Delivery → ℕ
count_bodies b [] = 0
count_bodies b (d ∷ ds) = (if text_eq d.body b then 1 else 0) + count_bodies b ds

abbrev pub queued : Body → Queues → ℕ
queued b q = count_bodies b q.ready + count_bodies b q.retrying + count_bodies b q.dead

-- With those that the broker has lost.
abbrev pub copies : Body → Queues → ℕ
copies b q = queued b q + count_bodies b q.lost
