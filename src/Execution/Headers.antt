-- ===== src/Execution/Headers.antt =====
-- The headers of a message: amqp.Table, a Go map from names to values of any type, and what
-- internal/execution/consumer.go and internal/rabbitmq/tracing.go do with it.
use text.Mathlib.Text.{◌==◌ as str_eq}
use text.Mathlib.TextEquality.{eq_iff}
use investment_engine.Prelude.{
  String, ℤ, pos, List, [], ◌∷◌, Option, none, some, if◌then◌else◌, ◌≡◌, refl, arith, ◌⊎◌, inr,
  ◌++◌,
}

-- The dynamic types that the program tells apart.
pub data Value : Type 0 where
  int : ℤ → Value
  int32 : ℤ → Value
  str : String → Value
  other : Value

abbrev pub Table : Type 0
Table = List (String × Value)

unfoldable pub lookup : String → Table → Option Value
lookup k [] = none
lookup k ((j, v) ∷ m) = if str_eq j k then some v else lookup k m

-- `h[k] = v`
unfoldable pub insert : String → Value → Table → Table
insert k v [] = (k, v) ∷ []
insert k v ((j, w) ∷ m) = if str_eq j k then (k, v) ∷ m else (j, w) ∷ insert k v m

-- The loop that copies the headers of a delivery into a fresh map.
unfoldable pub copy_headers : Table → Table
unfolding insert
copy_headers [] = []
copy_headers ((k, v) ∷ m) = insert k v (copy_headers m)

abbrev pub retry_count_header : String
retry_count_header = "x-retry-count"

abbrev attempt_of : Option Value → ℤ
attempt_of (some (int32 n)) = n
attempt_of _ = pos 0

-- `retryAttempt`: a value of another dynamic type counts as none.
unfoldable pub retry_attempt : Table → ℤ
retry_attempt headers = attempt_of (lookup retry_count_header headers)

-- `headerCarrier.Get` and `headerCarrier.Set` of internal/rabbitmq/tracing.go.
abbrev pub text_of : Option Value → String
text_of (some (str s)) = s
text_of _ = ""

unfoldable pub carrier_get : Table → String → String
carrier_get h key = text_of (lookup key h)

unfoldable pub carrier_set : Table → String → String → Table
carrier_set h key value = insert key (str value) h

-- `headerCarrier.Keys`
unfoldable pub carrier_keys : Table → List String
carrier_keys [] = []
carrier_keys ((k, v) ∷ h) = k ∷ carrier_keys h

pub lookup-insert :
    (k j : String) (v : Value) (m : Table)
    → lookup j (insert k v m) ≡ (if str_eq k j then some v else lookup j m)
unfolding lookup insert
lookup-insert k j v [] = refl
lookup-insert k j v ((i, w) ∷ m) =
    ground (arith, lookup-insert k j v m, eq_iff i k, eq_iff i j, eq_iff k j)

pub lookup-copy_headers : (j : String) (m : Table) → lookup j (copy_headers m) ≡ lookup j m
unfolding lookup copy_headers
lookup-copy_headers j [] = refl
lookup-copy_headers j ((k, v) ∷ m) =
    rw (lookup-insert k j v (copy_headers m), lookup-copy_headers j m)

-- What was set is read back, and no other header changes.
pub carrier_get-set :
    (h : Table) (key other_key value : String)
    → carrier_get (carrier_set h key value) other_key
      ≡ (if str_eq key other_key then value else carrier_get h other_key)
unfolding carrier_get carrier_set
carrier_get-set h key other_key value = ground (arith, lookup-insert key other_key (str value) h)

-- `Set` adds a key at most once, and keeps all others where they are.
pub carrier_keys-set :
    (h : Table) (key value : String)
    → (carrier_keys (carrier_set h key value) ≡ carrier_keys h)
      ⊎ ((carrier_keys (carrier_set h key value) ≡ carrier_keys h ++ key ∷ [])
          × (lookup key h ≡ none))
unfolding carrier_keys carrier_set insert lookup
carrier_keys-set [] key value = inr (refl, refl)
carrier_keys-set ((k, v) ∷ h) key value = ground (arith, carrier_keys-set h key value, eq_iff k key)
