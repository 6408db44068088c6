-- ===== src/System/UnknownSymbol.antt =====
-- An order for a symbol that the price service of internal/priceservice does not know.
use investment_engine.Prelude.{ℕ, false, none, [], ◌∷◌, ◌≡◌, refl, ap, ◌∙◌, sym, inl, inr}
use investment_engine.GoError.{GoError}
use investment_engine.Result.{ok, err}
use investment_engine.Float64.{Float64}
use investment_engine.Order.Event.{OrderCreatedEvent, validate}
use investment_engine.Order.Store.{Db}
use investment_engine.Execution.Failure.{
  IsStatusCode, permanent_failure, classify_failure, to_string,
}
use investment_engine.Execution.Handler.{execute_at}
use investment_engine.Execution.Handler.Contract.{handle_order_created_valid, classify_failure-wrap}
use investment_engine.Execution.Consumer.{
  Libraries, Delivery, Counter, reject, increment, process, settle, settle_failure,
}
use investment_engine.PriceService.{FloatOps, base_prices, base_price, get_quote, get_price}
use investment_engine.PriceService.Failures.{get_price-get_quote}
use investment_engine.System.{Conditions, circumstances}

module _ (lib : Libraries) (code : IsStatusCode lib.status_code) (c : Conditions) (db : Db)
    (event : OrderCreatedEvent) (d : Delivery) (m : Counter)
    (decodes : lib.unmarshal d.body ≡ ok event) (valid : validate event ≡ none) where
  -- A price service that fails for good.
  rejected :
      (e : GoError)
      → c.prices event.asset_symbol ≡ err e
      → classify_failure lib.status_code e ≡ permanent_failure
      → process lib (circumstances c) d (record { store = db; messages_processed = m })
        ≡ (record { store = db; messages_processed = increment "permanent" m }, reject false ∷ [])
  unfolding process settle_failure to_string
  rejected e down permanent =
      let store = (circumstances c).store in
      ap (λ r. settle lib (circumstances c) d m r.0 r.1)
        (handle_order_created_valid store lib.unmarshal c.prices d.body db event decodes valid
          ∙ ap (λ r. execute_at store event r db) down)
      ∙ rw
          (
            classify_failure-wrap lib.status_code code
                "execution: failed to get price for order %s: %w" e,
            permanent,
          )
          refl

  -- A delivery about an order for a symbol without a base price, where the consumer asks the price
  -- service of this repository, is rejected to the dead letters at once, counted as permanent, and
  -- leaves the tables as they are.
  pub unknown_symbol_rejected :
      (ops : FloatOps) (random : Float64) (now : ℕ)
      → base_price event.asset_symbol base_prices ≡ none
      → c.prices event.asset_symbol ≡ get_price (get_quote ops random now) event.asset_symbol
      → process lib (circumstances c) d (record { store = db; messages_processed = m })
        ≡ (record { store = db; messages_processed = increment "permanent" m }, reject false ∷ [])
  unknown_symbol_rejected ops random now unknown asked =
      elim (get_price-get_quote lib.status_code ops random now event.asset_symbol code) [
        | inl (base, known, _) ↦ absurd (let clash = sym unknown ∙ known in cc)
        | inr (_, (e, answers, permanent)) ↦ rejected e (asked ∙ answers) permanent
      ]
