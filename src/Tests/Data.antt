-- ===== src/Tests/Data.antt =====
-- Test data: one order of 10 PETR4, its tables, its event, and libraries that do what the
-- hypotheses ask of them.
use investment_engine.Prelude.{
  ℕ, zero, suc, ◌-◌, ◌≤◌, ◌≡◌, refl, ap, ◌≢◌, pos, true, ◌&&◌, leb, List, [], ◌∷◌, none, codes,
  text_eq, if◌then◌else◌, arith,
}
use investment_engine.GoError.{GoError, GrpcCode, new, status, sentinel, wrap, unknown, unavailable}
use investment_engine.Result.{Result, ok, err}
use investment_engine.Float64.{Float64}
use investment_engine.Http.{simulated_user_id}
use investment_engine.Order.Model.{Uuid, Order, side_buy, execution_market, status_pending}
use investment_engine.Order.Event.{OrderCreatedEvent}
use investment_engine.Order.Store.{Db, Faults, done, count_orders, count_with, count_executions}
use investment_engine.Order.Store.Invariant.{IsConsistent}
use investment_engine.Order.Store.Execute.{IsHealthy}
use investment_engine.Order.CreateOrder.{CreateOrderRequest}
use investment_engine.Pagination.{Cursor, CursorJson}
use investment_engine.Pagination.Base64.{Bytes}
use investment_engine.Pagination.Token.{IsCursorJson}
use investment_engine.Execution.Failure.{IsStatusCode}
use investment_engine.Execution.Headers.{Value, int, int32, retry_count_header}
use investment_engine.Execution.Consumer.{Libraries, Delivery, Counter, State}
use investment_engine.Execution.Consumer.Retries.{IsWire}
use investment_engine.System.{Conditions}

abbrev pub status_code : GoError → GrpcCode
status_code (new m) = unknown
status_code (sentinel s) = unknown
status_code (status c m) = c
status_code (wrap m e) = status_code e
status_code (GoError.wrap_two m e f) = unknown

pub status_code-IsStatusCode : IsStatusCode status_code
status_code-IsStatusCode = record {
  of_status = λ c m. refl;
  of_wrap = λ m e. refl;
  of_new = λ m. refl;
  of_sentinel = λ s. refl;
}

abbrev pub wire : Value → Value
wire (int n) = int32 n
wire v = v

pub wire-IsWire : IsWire wire
wire-IsWire = record { of_int = λ n h. refl; of_int32 = λ n. refl }

abbrev pub upper : ℕ → ℕ
upper c = if leb 97 c && leb c 122 then c - 32 else c

abbrev pub sample_order : Order
sample_order = record {
  id = 5;
  user_id = simulated_user_id;
  asset_symbol = codes "PETR4";
  quantity = pos 10;
  side = side_buy;
  execution_type = execution_market;
  limit_price = none;
  status = status_pending;
  created_at = 7;
}

abbrev pub older_order : Order
older_order = record sample_order { id = 6; created_at = 6; status = status_pending }

abbrev pub sample_event : OrderCreatedEvent
sample_event = record {
  order_id = 5;
  user_id = simulated_user_id;
  asset_symbol = codes "PETR4";
  quantity = pos 10;
  side = side_buy;
  execution_type = execution_market;
  limit_price = none;
  created_at = 7;
}

-- What a client sends: case and spaces are its own.
abbrev pub sample_request : CreateOrderRequest
sample_request = record {
  asset_symbol = codes " petr4";
  quantity = pos 10;
  side = codes "buy";
  execution_type = codes "Market";
  limit_price = none;
}

abbrev pub one_order : Db
one_order = record { orders = sample_order ∷ []; executions = [] }

abbrev pub two_orders : Db
two_orders = record { orders = older_order ∷ sample_order ∷ []; executions = [] }

pub one_order-IsConsistent : IsConsistent one_order
unfolding count_orders count_with count_executions text_eq
one_order-IsConsistent = record { unique = λ k. ground arith; effects = λ k. ground arith }

pub two_orders_unique : (k : Uuid) → count_orders k two_orders.orders ≤ 1
unfolding count_orders
two_orders_unique k = ground arith

abbrev pub healthy_faults : Faults
healthy_faults = record {
  begins = true;
  updates = true;
  counts_rows = true;
  inserts = true;
  commits = done;
  checks_existence = true;
  cause = new "driver";
}

pub healthy_faults-IsHealthy : IsHealthy healthy_faults
healthy_faults-IsHealthy = record {
  begins = refl;
  updates = refl;
  counts_rows = refl;
  inserts = refl;
  commits = refl;
  checks_existence = refl;
}

abbrev pub sample_price : Float64
sample_price = 0x404335c28f5c28f6

abbrev pub libraries : Libraries
libraries = record { unmarshal = λ body. ok sample_event; status_code = status_code }

abbrev pub conditions : Conditions
conditions = record {
  faults = healthy_faults;
  execution_id = 9;
  now = 8;
  prices = λ symbol. ok sample_price;
  publish_error = none;
  copy_kept = true;
  started = 2000;
  finished = 2600;
}

-- The price service does not answer.
abbrev pub no_prices : Conditions
no_prices = record conditions { prices = λ symbol. err (status unavailable "connection refused") }

abbrev pub delivery : Delivery
delivery = record { headers = []; body = codes "event" }

abbrev pub third_delivery : Delivery
third_delivery = record delivery { headers = (retry_count_header, int32 (pos 2)) ∷ [] }

abbrev pub no_messages : Counter
no_messages label = 0

abbrev pub start : State Db
start = record { store = one_order; messages_processed = no_messages }

-- A position in unary, as bytes.
abbrev pub zeros : ℕ → List ℕ → List ℕ
zeros zero rest = rest
zeros (suc n) rest = 0 ∷ zeros n rest

abbrev pub count_zeros : List ℕ → ℕ
count_zeros [] = 0
count_zeros (b ∷ bs) = suc (count_zeros bs)

abbrev pub later : Result Cursor → Result Cursor
later (err e) = err e
later (ok c) = ok (record c { created_at = suc c.created_at })

abbrev pub read : List ℕ → Result Cursor
read [] = err (new "unexpected end of JSON input")
read (zero ∷ bs) = later (read bs)
read (suc b ∷ bs) = ok (record { created_at = 0; id = count_zeros bs })

abbrev pub unary : CursorJson
unary = record { marshal = λ c. ok (zeros c.created_at (1 ∷ zeros c.id [])); unmarshal = read }

zeros-Bytes : (n : ℕ) (rest : List ℕ) → Bytes rest → Bytes (zeros n rest)
zeros-Bytes zero rest h = h
zeros-Bytes (suc n) rest h = (omega arith, zeros-Bytes n rest h)

count_zeros-zeros : (n : ℕ) → count_zeros (zeros n []) ≡ n
count_zeros-zeros zero = refl
count_zeros-zeros (suc n) = ap suc (count_zeros-zeros n)

read-zeros : (n id : ℕ) → read (zeros n (1 ∷ zeros id [])) ≡ ok (record { created_at = n; id = id })
read-zeros zero id = rw (count_zeros-zeros id)
read-zeros (suc n) id = rw (read-zeros n id)

zeros-ne-nil : (n : ℕ) (rest : List ℕ) → rest ≢ [] → zeros n rest ≢ []
zeros-ne-nil zero rest h = h
zeros-ne-nil (suc n) rest h = λ e. cc

same_bytes : {a b : List ℕ} → ok a ≡ ok b → a ≡ b
same_bytes h = cc

pub unary-IsCursorJson : IsCursorJson unary
unary-IsCursorJson = record {
  writes = λ c h. (zeros c.created_at (1 ∷ zeros c.id []), refl);
  something = λ c h. zeros-ne-nil c.created_at (1 ∷ zeros c.id []) (λ e. cc) (same_bytes h);
  bytes = λ c bs h.
      rw (← same_bytes h)
        (zeros-Bytes c.created_at (1 ∷ zeros c.id []) (omega arith, zeros-Bytes c.id [] tt));
  reads = λ c bs h. rw (← same_bytes h) (read-zeros c.created_at c.id);
}
