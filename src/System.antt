-- ===== src/System.antt =====
-- The API (cmd/api/main.go) and any number of consumers (cmd/consumer/main.go) over one database.
-- A move is one request of `CreateOrder` or one delivery to a consumer; each call of the store in
-- it is a transaction. Nothing is assumed of the broker: any delivery may come, at any time and
-- any number of times.
pub mod AtMostOnce
pub mod Execution
pub mod RoundTrip
pub mod Wire
pub mod Recovery
pub mod Statuses
pub mod UnknownSymbol
pub mod Transactions
pub mod Messages
use investment_engine.Prelude.{Bool, ℕ, Option, none}
use investment_engine.GoError.{GoError}
use investment_engine.Order.Model.{Uuid, Instant}
use investment_engine.Order.Store.{Db, Reply, Faults}
use investment_engine.Order.Listing.{ListFaults}
use investment_engine.Order.Api.{EventPublisher}
use investment_engine.Order.CreateOrder.{Decoded, create_order}
use investment_engine.Order.PostgresStore.{postgres_order_store, postgres_execution_store}
use investment_engine.Execution.Handler.{PriceGetter}
use investment_engine.Execution.Consumer.{Libraries, Circumstances, Delivery, Counter, process}

-- The database side of a request does not depend on the publisher: one without a state serves.
abbrev pub silent : EventPublisher (Unit {0})
silent = record { publish_order_created = λ event p. (none, p) }

-- What decides the outcome of one delivery to a consumer on PostgreSQL.
pub record Conditions : Type 0 where
  pub faults : Faults
  pub execution_id : Uuid
  pub now : Instant
  pub prices : PriceGetter
  pub publish_error : Option GoError
  -- Whether the broker keeps a retry copy whose publish has returned nil: it may be unable to route or
  -- store it, and PublishWithContext does not wait to learn that.
  pub copy_kept : Bool
  pub started : ℕ
  pub finished : ℕ

abbrev pub circumstances : Conditions → Circumstances Db
circumstances c = record {
  store = postgres_execution_store c.faults c.execution_id c.now;
  prices = c.prices;
  publish_error = c.publish_error;
  started = c.started;
  finished = c.finished;
}

pub data Move (lib : Libraries) (db : Db) : Db → Type 0 where
  creates :
      (upper : ℕ → ℕ) (faults : ListFaults) (reply : Reply) (cause : GoError) (now : Instant)
      (id : Uuid) (decoded : Decoded)
      → Move lib db
          (create_order upper
            (postgres_order_store faults reply cause now)
            silent
            decoded
            id
            (record { store = db; publisher = tt })).1.store
  delivers :
      (c : Conditions) (d : Delivery) (m : Counter)
      → Move lib db
          (process lib (circumstances c) d (record { store = db; messages_processed = m })).0.store

pub data Reach (lib : Libraries) (start : Db) : Db → Type 0 where
  here : Reach lib start start
  next : {db db' : Db} → Reach lib start db → Move lib db db' → Reach lib start db'
