-- ===== src/Process/Goroutines.antt =====
-- The goroutines of cmd/api/main.go while it serves: the one that runs the server, the one of
-- amqp091-go that reports the end of the connection (NotifyClose of internal/rabbitmq/connection.go),
-- and the `select` with what follows it. Both channels are buffered.
pub mod Sound
pub mod Notes
pub mod Ending
pub mod Progress
use investment_engine.Prelude.{ℕ, ◌+◌, Bool, true, false, Option, none, some, ◌≡◌, ◌≢◌, []}
use investment_engine.GoError.{GoError, new, wrap}
use investment_engine.Process.Api.{lost_error, shut_down}

-- http.ErrServerClosed
abbrev pub server_closed : GoError
server_closed = new "http: Server closed"

-- The goroutine of the server: in ListenAndServe, about to send its error, or through.
pub data Serving : Type 0 where
  listening : Serving
  returned : GoError → Serving
  sent : Serving

-- The connection to the broker, with the goroutine that reports its end.
pub data Broker : Type 0 where
  connected : Broker
  reporting : GoError → Broker
  closing : Broker
  ended : Broker

pub data Main : Type 0 where
  selecting : Main
  draining : Option GoError → Main
  exited : Option GoError → Main

-- `server_err` and `conn_closed` are the buffers of the two channels. `lost` and `failure` are no
-- variables of the program: they note with what error the connection was lost, and with which one the
-- server failed.
pub record State : Type 0 where
  pub server : Serving
  pub server_err : Option GoError
  pub broker : Broker
  pub conn_closed : Option GoError
  pub channel_closed : Bool
  pub signalled : Bool
  pub shutdown_called : Bool
  pub main : Main
  pub lost : Option GoError
  pub failure : Option GoError

abbrev pub begin : State
begin = record {
  server = listening;
  server_err = none;
  broker = connected;
  conn_closed = none;
  channel_closed = false;
  signalled = false;
  shutdown_called = false;
  main = selecting;
  lost = none;
  failure = none;
}

pub data Step (s : State) : State → Type 0 where
  -- ListenAndServe returns: by itself, or because Shutdown was called.
  fails :
      (e : GoError)
      → e ≢ server_closed
      → s.server ≡ listening
      → Step s (record s { server = returned e; failure = some e })
  stops :
      s.server ≡ listening
      → s.shutdown_called ≡ true
      → Step s (record s { server = returned server_closed })
  -- `serverErr <- srv.ListenAndServe()`, which waits for room in the buffer.
  sends :
      (e : GoError)
      → s.server ≡ returned e
      → s.server_err ≡ none
      → Step s (record s { server = sent; server_err = some e })
  -- The connection is lost, which the library reports before it closes the channel.
  breaks :
      (e : GoError)
      → s.broker ≡ connected
      → Step s (record s { broker = reporting e; lost = some e })
  reports :
      (e : GoError)
      → s.broker ≡ reporting e
      → s.conn_closed ≡ none
      → Step s (record s { broker = closing; conn_closed = some e })
  -- The deferred `conn.Close()` reports nothing.
  hangs_up :
      (r : Option GoError)
      → s.main ≡ exited r
      → s.broker ≡ connected
      → Step s (record s { broker = closing })
  closes : s.broker ≡ closing → Step s (record s { broker = ended; channel_closed = true })
  signals : s.signalled ≡ false → Step s (record s { signalled = true })
  -- The cases of the `select`; a receive from a closed channel with an empty buffer yields nil.
  takes_failure :
      (e : GoError)
      → s.main ≡ selecting
      → s.server_err ≡ some e
      → Step s
          (record s { server_err = none; main = exited (some (wrap "api: server failed: %w" e)) })
  takes_loss :
      (e : GoError)
      → s.main ≡ selecting
      → s.conn_closed ≡ some e
      → Step s (record s {
        conn_closed = none;
        main = draining (some (lost_error (some e)));
        shutdown_called = true;
      })
  takes_close :
      s.main ≡ selecting
      → s.conn_closed ≡ none
      → s.channel_closed ≡ true
      → Step s (record s { main = draining (some (lost_error none)); shutdown_called = true })
  takes_signal :
      s.main ≡ selecting
      → s.signalled ≡ true
      → Step s (record s { main = draining none; shutdown_called = true })
  -- Shutdown returns, and so does `run`.
  returns :
      (stop_error shutdown_error : Option GoError)
      → s.main ≡ draining stop_error
      → Step s (record s { main = exited (shut_down shutdown_error stop_error []).0 })

pub data Reach : State → Type 0 where
  here : Reach begin
  next : {s s' : State} → Reach s → Step s s' → Reach s'
