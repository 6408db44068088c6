-- ===== src/PriceService/Failures.antt =====
-- What the consumer makes of the answers of internal/priceservice.
use investment_engine.Prelude.{ℕ, none, some, ◌≡◌, refl, ◌⊎◌, inl, inr, Text, Option-cases, ◌∙◌}
use investment_engine.GoError.{GoError, GrpcCode, status, wrap, not_found, errors_is}
use investment_engine.Result.{ok, err}
use investment_engine.Float64.{Float64}
use investment_engine.Execution.Failure.{classify_failure, permanent_failure, IsStatusCode}
use investment_engine.Execution.Handler.Contract.{classify_failure-wrap}
use investment_engine.PriceService.{FloatOps, base_prices, base_price, vary, get_quote, get_price}

not_found-permanent :
    (code : GoError → GrpcCode)
    → IsStatusCode code
    → (m : _) → classify_failure code (status not_found m) ≡ permanent_failure
unfolding classify_failure errors_is
not_found-permanent code w m = rw (w.of_status not_found m) refl

-- The client's answer over the server: for a symbol with a base price it is that price with its
-- variation, and for any other symbol it is an error that the consumer classifies as permanent.
pub get_price-get_quote :
    (code : GoError → GrpcCode) (ops : FloatOps) (random : Float64) (now : ℕ) (symbol : Text)
    → IsStatusCode code
    → ((base : Float64) × (base_price symbol base_prices ≡ some base)
        × (get_price (get_quote ops random now) symbol ≡ ok (vary ops random base)))
      ⊎ ((base_price symbol base_prices ≡ none)
          × ((e : GoError) × (get_price (get_quote ops random now) symbol ≡ err e)
              × (classify_failure code e ≡ permanent_failure)))
unfolding get_price get_quote
get_price-get_quote code ops random now symbol w =
    elim (Option-cases (base_price symbol base_prices)) [
      | inl h ↦ inr (
        h,
        (
          wrap "getting price: %w" (status not_found "unknown symbol: %s"),
          rw h refl,
          classify_failure-wrap code w _ _ ∙ not_found-permanent code w _,
        ),
      )
      | inr (base, h) ↦ inl (base, h, rw h refl)
    ]
