-- ===== src/PriceService.antt =====
-- The package internal/priceservice: the server's quotes and the client that the consumer calls.
pub mod Failures
use text.Mathlib.Text.{◌==◌ as str_eq}
use investment_engine.Prelude.{
  ℕ, String, Option, none, some, List, [], ◌∷◌, ◌≡◌, refl, Text, codes, text_eq, if◌then◌else◌,
  arith,
}
use investment_engine.GoError.{GoError, status, wrap, not_found, GrpcCode}
use investment_engine.Result.{Result, ok, err}
use investment_engine.Float64.{Float64}

-- Go's float64 operations.
pub record FloatOps : Type 0 where
  pub add : Float64 → Float64 → Float64
  pub sub : Float64 → Float64 → Float64
  pub mul : Float64 → Float64 → Float64

-- pb.GetQuoteResponse
pub record GetQuoteResponse : Type 0 where
  pub symbol : Text
  pub price : Float64
  pub timestamp_unix : ℕ

-- 38.42, 61.15 and 32.90
abbrev pub base_prices : List (Text × Float64)
base_prices =
    (codes "PETR4", 0x404335c28f5c28f6)
    ∷ (codes "VALE3", 0x404e933333333333)
    ∷ (codes "ITUB4", 0x4040733333333333)
    ∷ []

unfoldable pub base_price : Text → List (Text × Float64) → Option Float64
base_price symbol [] = none
base_price symbol ((s, p) ∷ rest) = if text_eq s symbol then some p else base_price symbol rest

-- `(rand.Float64() - 0.5) * 0.02`, and `base * (1 + variation)`
unfoldable pub vary : FloatOps → Float64 → Float64 → Float64
vary ops random base =
    let variation = ops.mul (ops.sub random 0x3fe0000000000000) 0x3f947ae147ae147b in
    ops.mul base (ops.add 0x3ff0000000000000 variation)

abbrev quote : FloatOps → Float64 → ℕ → Text → Option Float64 → Result GetQuoteResponse
quote ops random now symbol none = err (status not_found "unknown symbol: %s")
quote ops random now symbol (some base) =
    ok (record { symbol = symbol; price = vary ops random base; timestamp_unix = now })

-- `Server.GetQuote`, with what rand.Float64 and time.Now answer.
unfoldable pub get_quote : FloatOps → Float64 → ℕ → Text → Result GetQuoteResponse
unfolding vary base_price
get_quote ops random now symbol = quote ops random now symbol (base_price symbol base_prices)

abbrev price_of : Result GetQuoteResponse → Result Float64
price_of (ok response) = ok response.price
price_of (err e) = err (wrap "getting price: %w" e)

-- `Client.GetPrice`, over the call as gRPC makes it.
unfoldable pub get_price : (Text → Result GetQuoteResponse) → Text → Result Float64
get_price call symbol = price_of (call symbol)
