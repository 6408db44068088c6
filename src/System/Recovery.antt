-- ===== src/System/Recovery.antt =====
-- One order while the price service is down for a while, on PostgreSQL.
use investment_engine.Prelude.{
  ◌≤◌, ◌≡◌, ◌∙◌, ap, refl, none, some, true, List, [], ◌∷◌, ◌++◌, map, All, length, arith, pos,
}
use investment_engine.GoError.{GoError, wrap}
use investment_engine.Result.{ok, err}
use investment_engine.Float64.{Float64}
use investment_engine.Order.Model.{status_pending}
use investment_engine.Order.Event.{OrderCreatedEvent, validate}
use investment_engine.Order.Store.{Db, count_with, count_execution_ids, fits_integer}
use investment_engine.Order.Store.Invariant.{IsConsistent, executed}
use investment_engine.Order.Store.Execute.{IsHealthy}
use investment_engine.Execution.Failure.{IsStatusCode, classify_failure, transient_failure}
use investment_engine.Execution.Handler.{Body, handle_order_created, execute_at}
use investment_engine.Execution.Handler.Contract.{classify_failure-wrap, handle_order_created_valid}
use investment_engine.Execution.Headers.{Value, Table, retry_attempt}
use investment_engine.Execution.Consumer.{Libraries, Circumstances, Counter}
use investment_engine.Execution.Consumer.Retries
use investment_engine.Execution.Consumer.Retries.{IsWire, follow}
use investment_engine.Execution.Consumer.Recovery.{FailsForNow, follow_recovers}
use investment_engine.System.{Conditions, circumstances}
use investment_engine.System.Execution.{handles}

-- The price service fails in a way that may pass.
pub record IsOutage (lib : Libraries) (event : OrderCreatedEvent) (c : Conditions) : Type 0 where
  pub error : GoError
  pub answers : c.prices event.asset_symbol ≡ err error
  pub transient : classify_failure lib.status_code error ≡ transient_failure
  pub publishes : c.publish_error ≡ none

module _ (lib : Libraries) (code : IsStatusCode lib.status_code) (event : OrderCreatedEvent)
    (body : Body) (db : Db) (decodes : lib.unmarshal body ≡ ok event)
    (valid : validate event ≡ none) where
  handles_outage :
      (c : Conditions) (e : GoError)
      → c.prices event.asset_symbol ≡ err e
      → handle_order_created (circumstances c).store lib.unmarshal c.prices body db
        ≡ (some (wrap "execution: failed to get price for order %s: %w" e), db)
  handles_outage c e down =
      let store = (circumstances c).store in
      handle_order_created_valid store lib.unmarshal c.prices body db event decodes valid
      ∙ ap (λ r. execute_at store event r db) down

  outage-FailsForNow :
      (c : Conditions) → IsOutage lib event c → FailsForNow lib body db (circumstances c)
  outage-FailsForNow c o = record {
    error = wrap "execution: failed to get price for order %s: %w" o.error;
    fails = handles_outage c o.error o.answers;
    transient = classify_failure-wrap lib.status_code code _ o.error ∙ o.transient;
    publishes = o.publishes;
  }

  outages-FailsForNow :
      (cs : List Conditions)
      → All (IsOutage lib event) cs
      → All (FailsForNow lib body db) (map circumstances cs)
  outages-FailsForNow [] a = tt
  outages-FailsForNow (c ∷ cs) (o, a) = (outage-FailsForNow c o, outages-FailsForNow cs a)

  length-outages : (cs : List Conditions) → length (map circumstances cs) ≡ length cs
  length-outages [] = refl
  length-outages (c ∷ cs) = omega (arith, length-outages cs)

  -- If the price service is down for at most two deliveries of a message about a PENDING order and
  -- quotes a price at the next one, then the order becomes EXECUTED at that price and the message is
  -- acked. The message has not failed before (its retry count is 0), its body decodes to a valid event,
  -- the tables are consistent, retry copies can be published and come back, and the delivery that
  -- finds a price meets no failing driver, a new execution id and a quantity that fits an INTEGER.
  pub outage_recovers :
      (wire : Value → Value)
      → IsWire wire
      → (outages : List Conditions) (rest : List (Circumstances Db)) (c : Conditions)
        (price : Float64) (headers : Table) (m : Counter)
      → All (IsOutage lib event) outages
      → length outages ≤ 2
      → c.prices event.asset_symbol ≡ ok price
      → IsHealthy c.faults
      → IsConsistent db
      → count_execution_ids c.execution_id db.executions ≡ 0
      → fits_integer event.quantity ≡ true
      → count_with status_pending event.order_id db.orders ≡ 1
      → retry_attempt headers ≡ pos 0
      → let (r, st) =
          follow lib wire
            (map circumstances outages ++ circumstances c ∷ rest)
            (record { headers = headers; body = body })
            (record { store = db; messages_processed = m }) in
        (r ≡ Retries.executed)
        × (st.store ≡ executed c.execution_id c.now event.order_id price event.quantity db)
  outage_recovers wire w outages rest c price headers m down few quoted healthy consistent fresh
        fits pending first =
      follow_recovers lib body db wire w (map circumstances outages) rest (circumstances c) _
        headers m (outages-FailsForNow outages down) (omega (arith, few, length-outages outages))
        (handles c event price db healthy consistent fresh fits pending lib
          (record { headers = headers; body = body }) decodes valid quoted)
        first
