-- ===== src/Tests/Server.antt =====
-- The server of cmd/api/main.go at concrete inputs.
use investment_engine.Prelude.{codes, length, select, map, List, [], ◌∷◌, ℕ, String, ◌+◌, ◌≡◌}
use investment_engine.GoError.{new}
use investment_engine.Order.Store.{Db, done, empty_db}
use investment_engine.Order.Api.{State}
use investment_engine.Order.Listing.Pages.{healthy}
use investment_engine.Order.PostgresStore.{postgres_order_store}
use investment_engine.Server.{Decoder, Request, Answer, Metrics, serve, serve_all}
use investment_engine.Server.Counting.{serve_all-metrics, is_answered, is_for, taken}
use investment_engine.Server.Routes.{IsStatusOf, statuses, serve-status}
use investment_engine.Tests.Wire.{literals, no_folding}
use investment_engine.Tests.Bodies.{found}
use investment_engine.System.{silent}
use investment_engine.Tests.Api.{parsers, query}

abbrev post : Request
post = record {
  method = "POST";
  path = "/orders";
  query = query;
  body = codes "an order";
  id = 5;
  started = 1000;
  finished = 4000;
}

abbrev lost : Request
lost = record post { path = "/order"; started = 5000; finished = 5100 }

abbrev json : Decoder
json = record { literals = literals; folds = no_folding; scan = found }

abbrev begin : State Db (Unit {0})
begin = record { store = empty_db; publisher = tt }

abbrev none_yet : Metrics
none_yet = record { requests_total = λ m p n. 0; request_duration = λ m p. [] }

abbrev not_found : String → String → ℕ
not_found method path = 404

abbrev answered : Answer × (State Db (Unit {0}) × Metrics)
answered =
    serve parsers json not_found (postgres_order_store healthy done (new "driver") 7) silent post
      (begin, none_yet)

abbrev served : List (Request × Answer) × (State Db (Unit {0}) × Metrics)
served =
    serve_all parsers json not_found (postgres_order_store healthy done (new "driver") 7) silent
      (post ∷ lost ∷ []) (begin, none_yet)

serve_all-metrics_example :
    let (log, (st', metrics')) = served in
    ((n : ℕ)
      → metrics'.requests_total "POST" "/orders" n
        ≡ length (select (is_answered "POST" "/orders" n) log) + 0)
    × (metrics'.request_duration "POST" "/orders"
        ≡ map taken (select (is_for "POST" "/orders") log))
    × (map (λ x. x.0) log ≡ post ∷ lost ∷ [])
serve_all-metrics_example =
    serve_all-metrics parsers json not_found (postgres_order_store healthy done (new "driver") 7)
      silent (post ∷ lost ∷ []) begin none_yet "POST" "/orders"

serve-status_example : IsStatusOf statuses answered.0
serve-status_example =
    serve-status parsers (postgres_order_store healthy done (new "driver") 7) silent json not_found
      post begin none_yet
