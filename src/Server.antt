-- ===== src/Server.antt =====
-- The HTTP server of cmd/api/main.go: the routes of its ServeMux and, around them, the middleware of
-- internal/metrics/middleware.go with its statusRecorder. The tracing around both is left out.
pub mod Counting
pub mod Routes
use text.Mathlib.Text.{◌==◌ as str_eq}
use investment_engine.Prelude.{
  ◌++◌, ◌-◌, ℕ, suc, String, Bool, true, false, ◌&&◌, ◌||◌, ◌==◌, List, [], ◌∷◌, Option, none, some,
  if◌then◌else◌,
}
use investment_engine.Clock.{since}
use investment_engine.Http.{Response}
use investment_engine.Order.Model.{Uuid}
use investment_engine.Order.Api.{OrderStore, EventPublisher, State}
use investment_engine.Order.CreateOrder.Decoding.{Scanned, post_order}
use investment_engine.Json.{Literals}
use investment_engine.Order.ListOrders.{Query, Parsers, list_orders}

-- A request as the handlers read it, with the id that uuid.New draws for it and what the clock shows
-- before and after it is handled, in nanoseconds.
pub record Request : Type 0 where
  pub method : String
  pub path : String
  pub query : Query
  pub body : List ℕ
  pub id : Uuid
  pub started : ℕ
  pub finished : ℕ

-- What a handler of this program answers, or the mux where no route matches.
pub data Answer : Type 0 where
  handled : Response → Answer
  unrouted : (status : ℕ) → Answer

-- The arguments of WriteHeader. `ListOrders` calls it for errors only; its orders are sent under the
-- status that net/http sends with the first byte of a body.
abbrev pub header_calls : Answer → List ℕ
header_calls (handled r) = if r.status == 200 then [] else r.status ∷ []
header_calls (unrouted status) = status ∷ []

-- The `statusRecorder`, and the status that the writer below it has sent: net/http ignores a second
-- WriteHeader.
pub record Recorder : Type 0 where
  pub status : ℕ
  pub sent : Option ℕ

abbrev first : Option ℕ → ℕ → Option ℕ
first none status = some status
first (some earlier) status = some earlier

-- `statusRecorder.WriteHeader`
unfoldable pub write_header : ℕ → Recorder → Recorder
write_header status r = record { status = status; sent = first r.sent status }

unfoldable pub write_headers : List ℕ → Recorder → Recorder
unfolding write_header
write_headers [] r = r
write_headers (status ∷ rest) r = write_headers rest (write_header status r)

abbrev pub new_recorder : Recorder
new_recorder = record { status = 200; sent = none }

-- The status line of the response.
abbrev pub client_status : Option ℕ → ℕ
client_status none = 200
client_status (some status) = status

-- The counter `http_requests_total`, by its labels.
abbrev pub Counter : Type 0
Counter = String → String → ℕ → ℕ

unfoldable pub increment : String → String → ℕ → Counter → Counter
increment method path status total m p n =
    if str_eq method m && str_eq path p && status == n then suc (total m p n) else total m p n

-- The histogram `http_request_duration_seconds`, by its labels: the durations observed, in order.
-- Into which buckets they fall is the library's to count.
abbrev pub Histogram : Type 0
Histogram = String → String → List ℕ

unfoldable pub observe : String → String → ℕ → Histogram → Histogram
observe method path duration durations m p =
    if str_eq method m && str_eq path p then durations m p ++ duration ∷ [] else durations m p

pub record Metrics : Type 0 where
  pub requests_total : Counter
  pub request_duration : Histogram

-- What encoding/json needs to decode a body: how it reads literals, which names it takes for equal up
-- to case, and its scanner.
pub record Decoder : Type 0 where
  pub literals : Literals
  pub folds : String → String → Bool
  pub scan : List ℕ → Scanned

module _ (lib : Parsers) (json : Decoder) (elsewhere : String → String → ℕ) {S P : Type 0}
    (store : OrderStore S) (publisher : EventPublisher P) where
  -- The mux: "GET /orders", which also takes HEAD, and "POST /orders". `elsewhere` is the status
  -- of its own answer to any other method or path.
  unfoldable pub route : Request → State S P → Answer × State S P
  route r st =
      if str_eq r.path "/orders" && (str_eq r.method "GET" || str_eq r.method "HEAD")
      then (handled (list_orders lib store st.store r.query), st)
      else if str_eq r.path "/orders" && str_eq r.method "POST"
      then (let (response, st') =
            post_order json.literals json.folds json.scan lib.upper store publisher r.body r.id
              st in
          (handled response, st'))
      else (unrouted (elsewhere r.method r.path), st)

  -- What `Middleware` does once the request is handled.
  abbrev record_answer : Request → Answer → Metrics → Metrics
  record_answer r a metrics = record {
    requests_total =
        increment r.method r.path (write_headers (header_calls a) new_recorder).status
          metrics.requests_total;
    request_duration =
        observe r.method r.path (since r.started r.finished) metrics.request_duration;
  }

  -- `Middleware` around the mux.
  unfoldable pub serve : Request → State S P × Metrics → Answer × (State S P × Metrics)
  unfolding write_headers increment observe
  serve r (st, metrics) = let (a, st') = route r st in (a, (st', record_answer r a metrics))

  -- Requests one after another, with the answer to each.
  unfoldable pub serve_all :
      List Request → State S P × Metrics → List (Request × Answer) × (State S P × Metrics)
  serve_all [] st = ([], st)
  serve_all (r ∷ rest) st =
      let (a, st') = serve r st in let (log, st'') = serve_all rest st' in ((r, a) ∷ log, st'')
