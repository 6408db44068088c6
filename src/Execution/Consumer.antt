-- ===== src/Execution/Consumer.antt =====
-- internal/execution/consumer.go: the loop that takes deliveries, and what it does with each. The
-- AMQP channel's answers are part of a delivery's circumstances, and what the consumer tells the
-- broker is a list of actions, in order. Logs and spans are left out, and so are the
-- errors of Ack and Reject, which are only logged.
pub mod Settling
pub mod Retries
pub mod DeadLetters
pub mod Incomplete
pub mod Faithful
pub mod Recovery
pub mod Labels
pub mod Loop
use text.Mathlib.Text.{◌==◌ as str_eq}
use investment_engine.Prelude.{
  ℕ, suc, ℤ, pos, ◌+ℤ◌, leb_ℤ, String, Bool, true, false, ◌||◌, List, [], ◌∷◌, Option, none, some,
  if◌then◌else◌,
}
use investment_engine.Clock.{since}
use investment_engine.GoError.{GoError, GrpcCode, wrap, sentinel, deliveries_closed}
use investment_engine.Result.{Result}
use investment_engine.Order.Event.{OrderCreatedEvent}
use investment_engine.Execution.Failure.{
  FailureKind, permanent_failure, transient_failure, to_string, classify_failure,
}
use investment_engine.Execution.Handler.{ExecutionStore, PriceGetter, Body, handle_order_created}
use investment_engine.Execution.Headers.{
  Table, int, insert, copy_headers, retry_count_header, retry_attempt,
}

abbrev pub retry_queue : String
retry_queue = "order_execution.retry"

abbrev pub max_delivery_attempts : ℤ
max_delivery_attempts = pos 3

pub record Delivery : Type 0 where
  pub headers : Table
  pub body : Body

-- amqp.Publishing with the arguments of PublishWithContext.
pub record Publishing : Type 0 where
  pub exchange : String
  pub routing_key : String
  pub mandatory : Bool
  pub persistent : Bool
  pub content_type : String
  pub headers : Table
  pub body : Body

pub data Action : Type 0 where
  ack : Action
  reject : (requeue : Bool) → Action
  publish : Publishing → (failed : Option GoError) → Action

-- What other libraries do: json.Unmarshal into an event, and status.Code.
pub record Libraries : Type 0 where
  pub unmarshal : Body → Result OrderCreatedEvent
  pub status_code : GoError → GrpcCode

-- The circumstances of one delivery: the store and the price service as they answer to it, and the
-- error of publishing a retry copy, if there is one, and what the clock shows before and after the
-- handler.
pub record Circumstances (S : Type 0) : Type 0 where
  pub store : ExecutionStore S
  pub prices : PriceGetter
  pub publish_error : Option GoError
  pub started : ℕ
  pub finished : ℕ

-- The counter `messages_processed_total`, by its label `result`.
abbrev pub Counter : Type 0
Counter = String → ℕ

unfoldable pub increment : String → Counter → Counter
increment label m l = if str_eq label l then suc (m l) else m l

pub record State (S : Type 0) : Type 0 where
  pub store : S
  pub messages_processed : Counter

abbrev pub is_permanent : FailureKind → Bool
is_permanent permanent_failure = true
is_permanent transient_failure = false

-- The copy that waits in the retry queue.
unfoldable pub retry_message : Delivery → ℤ → Publishing
retry_message d attempt = record {
  exchange = "";
  routing_key = retry_queue;
  mandatory = true;
  persistent = true;
  content_type = "application/json";
  headers = insert retry_count_header (int (attempt +ℤ pos 1)) (copy_headers d.headers);
  body = d.body;
}

abbrev pub send_retry : Delivery → Option GoError → List Action
send_retry d (some e) =
    publish (retry_message d (retry_attempt d.headers)) (some e) ∷ reject true ∷ []
send_retry d none = publish (retry_message d (retry_attempt d.headers)) none ∷ ack ∷ []

-- The branch of the loop on a failed delivery.
unfoldable pub settle_failure : FailureKind → Delivery → Option GoError → List Action
settle_failure failure d publish_error =
    let out_of_retries = leb_ℤ max_delivery_attempts (retry_attempt d.headers +ℤ pos 1) in
    if is_permanent failure || out_of_retries then reject false ∷ [] else send_retry d publish_error

module _ {S : Type 0} (lib : Libraries) where
  -- What follows the handler, on its error and on the state that it left.
  abbrev pub settle :
      Circumstances S → Delivery → Counter → Option GoError → S → State S × List Action
  settle c d m none s = (record { store = s; messages_processed = increment "success" m }, ack ∷ [])
  settle c d m (some e) s =
      let failure = classify_failure lib.status_code e in
      (
        record { store = s; messages_processed = increment (to_string failure) m },
        settle_failure failure d c.publish_error,
      )

  -- The body of the loop for a delivery.
  unfoldable pub process : Circumstances S → Delivery → State S → State S × List Action
  process c d st =
      let (e, s) = handle_order_created c.store lib.unmarshal c.prices d.body st.store in
      settle c d st.messages_processed e s

-- What the `select` of the loop sees. With `stopping` the shutdown was requested at the moment at
-- which the delivery arrived.
pub data Signal (S : Type 0) : Type 0 where
  shutdown : Signal S
  closed : Signal S
  arrives : (stopping : Bool) → Circumstances S → Delivery → Signal S

-- How `Run` has ended: not yet, with nil, or with an error.
pub data Exit : Type 0 where
  running : Exit
  stopped : Exit
  failed : GoError → Exit

-- What the histogram `message_processing_duration_seconds` was given to observe, in order.
abbrev pub Durations : Type 0
Durations = List ℕ

-- The log holds each delivery that was received, with what the consumer told the broker.
pub record Outcome (S : Type 0) : Type 0 where
  pub exit : Exit
  pub state : State S
  pub log : List (Delivery × List Action)
  pub durations : Durations

-- The `for` loop, over what its `select` sees.
unfoldable pub loop : {S : Type 0} → Libraries → List (Signal S) → State S → Outcome S
loop lib [] st = record { exit = running; state = st; log = []; durations = [] }
loop lib (shutdown ∷ rest) st = record { exit = stopped; state = st; log = []; durations = [] }
loop lib (closed ∷ rest) st = record {
  exit = failed (sentinel deliveries_closed);
  state = st;
  log = [];
  durations = [];
}
loop lib (arrives true c d ∷ rest) st = record {
  exit = stopped;
  state = st;
  log = (d, []) ∷ [];
  durations = [];
}
loop lib (arrives false c d ∷ rest) st =
    let (st', actions) = process lib c d st in
    let later = loop lib rest st' in
    record later {
      log = (d, actions) ∷ later.log;
      durations = since c.started c.finished ∷ later.durations;
    }

-- The errors of the four calls before the loop; `none` where a call goes through.
pub record Setup : Type 0 where
  pub channel : Option GoError
  pub topology : Option GoError
  pub qos : Option GoError
  pub consume : Option GoError

abbrev first_error : Option GoError → (GoError → GoError) → Option GoError → Option GoError
first_error (some e) f rest = some (f e)
first_error none f rest = rest

unfoldable pub setup_error : Setup → Option GoError
setup_error s = first_error s.channel (wrap "execution: failed to open consumer channel: %w") (
    first_error s.topology (λ e. e)
      (first_error s.qos (wrap "execution: failed to set channel prefetch: %w")
        (first_error s.consume (wrap "execution: failed to start consuming from %s: %w") none)))

abbrev run_loop : {S : Type 0} → Libraries → Option GoError → List (Signal S) → State S → Outcome S
run_loop lib (some e) signals st = record { exit = failed e; state = st; log = []; durations = [] }
run_loop lib none signals st = loop lib signals st

-- `Run`
unfoldable pub run : {S : Type 0} → Libraries → Setup → List (Signal S) → State S → Outcome S
unfolding setup_error
run lib s signals st = run_loop lib (setup_error s) signals st
