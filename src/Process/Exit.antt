-- ===== src/Process/Exit.antt =====
-- What the exit codes of cmd/api/main.go and cmd/consumer/main.go tell the platform, which restarts a
-- process that fails.
use investment_engine.Prelude.{[], ◌∷◌, ◌≡◌, arith}
use investment_engine.Execution.Consumer
use investment_engine.Execution.Consumer.{Setup, setup_error}
use investment_engine.Process.{
  signals, tracing, database, broker, channel, acquired, released, serves, drained,
}
use investment_engine.Process.Api
use investment_engine.Process.Api.{signalled}
use investment_engine.Process.Consumer as ConsumerProcess

-- The API exits with 0 only after a signal, with all requests drained before anything but the set-up
-- channel was released. A lost broker, a server that fails, a drain that times out and a failing
-- start all exit with another code.
pub api_exit :
    (env : Api.Environment)
    → (Api.main env).0 ≡ 0
    → (env.stop ≡ signalled)
      × ((Api.main env).1
          ≡ released signals
            ∷ released tracing
            ∷ released database
            ∷ released broker
            ∷ drained
            ∷ serves
            ∷ released channel
            ∷ acquired channel
            ∷ acquired broker
            ∷ acquired database
            ∷ acquired tracing
            ∷ acquired signals
            ∷ [])
unfolding Api.run
api_exit env h = ground arith
