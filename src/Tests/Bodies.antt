-- ===== src/Tests/Bodies.antt =====
-- Bodies of requests to `CreateOrder` at concrete inputs.
use investment_engine.Prelude.{
  ℕ, suc, zero, ◌<◌, length, take, List, [], ◌∷◌, codes, ◌≡◌, ◌≢◌, refl, arith,
}
use investment_engine.GoError.{new}
use investment_engine.Http.{Response}
use investment_engine.Json.{text, Object}
use investment_engine.Json.Fields.{IsMissing, field_of}
use investment_engine.Order.Store.{Db, done}
use investment_engine.Order.Api.{State}
use investment_engine.Order.Listing.Pages.{healthy}
use investment_engine.Order.PostgresStore.{postgres_order_store}
use investment_engine.Order.CreateOrder.Decoding.{
  Scanned, an_object, unfinished, names, quantity, max_create_order_body_bytes, post_order,
}
use investment_engine.Order.CreateOrder.Decoding.Bodies.{post_order-missing, post_order-large}
use investment_engine.System.{silent}
use investment_engine.Tests.Data.{upper}
use investment_engine.Tests.System.{begin}
use investment_engine.Tests.Wire.{literals, no_folding}

-- An order without a quantity.
abbrev pub order_object : Object
order_object =
    ("assetSymbol", text (codes "PETR4"))
    ∷ ("side", text (codes "BUY"))
    ∷ ("executionType", text (codes "MARKET"))
    ∷ []

-- The scanner has found it.
abbrev pub found : List ℕ → Scanned
found bytes = an_object order_object

order_object-IsMissing : IsMissing no_folding names quantity order_object
unfolding field_of
order_object-IsMissing = (λ e. absurd cc, (λ e. absurd cc, (λ e. absurd cc, tt)))

abbrev posted : List ℕ → Response × State Db (Unit {0})
posted body =
    post_order literals no_folding found upper (postgres_order_store healthy done (new "driver") 7)
      silent body 5 begin

post_order-missing_example :
    ((posted (codes "{}")).0.status ≡ 400) × ((posted (codes "{}")).1 ≡ begin)
post_order-missing_example =
    post_order-missing literals no_folding found upper
      (postgres_order_store healthy done (new "driver") 7) silent 5 begin (codes "{}") order_object
      quantity refl tt order_object-IsMissing

-- A body of spaces.
spaces : ℕ → List ℕ
spaces zero = []
spaces (suc n) = 32 ∷ spaces n

length-spaces : (n : ℕ) → length (spaces n) ≡ n
unfolding spaces
length-spaces zero = refl
length-spaces (suc n) = omega (arith, length-spaces n)

abbrev large : Response × State Db (Unit {0})
large =
    post_order literals no_folding found upper (postgres_order_store healthy done (new "driver") 7)
      silent (spaces 1030) 5 begin

spaces-large : max_create_order_body_bytes < length (spaces 1030)
unfolding max_create_order_body_bytes
spaces-large = omega (arith, length-spaces 1030)

post_order-large_example :
    let first = take max_create_order_body_bytes (spaces 1030) in
    (found first ≡ unfinished → (large.0.status ≡ 413) × (large.1 ≡ begin))
    × (found first ≢ unfinished
        → large
          ≡ post_order literals no_folding found upper
              (postgres_order_store healthy done (new "driver") 7)
              silent
              first
              5
              begin)
post_order-large_example =
    post_order-large literals no_folding found upper
      (postgres_order_store healthy done (new "driver") 7) silent 5 begin (spaces 1030) spaces-large

-- Nothing but spaces is never finished.
abbrev endless : List ℕ → Scanned
endless bytes = unfinished

abbrev endless_answer : Response × State Db (Unit {0})
endless_answer =
    post_order literals no_folding endless upper
      (postgres_order_store healthy done (new "driver") 7) silent (spaces 1030) 5 begin

endless-too_large : (endless_answer.0.status ≡ 413) × (endless_answer.1 ≡ begin)
endless-too_large =
    (post_order-large literals no_folding endless upper
        (postgres_order_store healthy done (new "driver") 7) silent 5 begin (spaces 1030)
        spaces-large).0
      refl
