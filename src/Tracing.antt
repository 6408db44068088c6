-- ===== src/Tracing.antt =====
-- internal/rabbitmq/tracing.go: trace contexts in the headers of a message. OpenTelemetry's propagator
-- is an argument; it sees the headers only through the carrier of Execution/Headers.
use text.Mathlib.Text.{◌==◌ as str_eq}
use text.Mathlib.TextPositions.{eq_refl}
use investment_engine.Prelude.{
  Option, some, String, List, [], ◌∷◌, ◌≡◌, refl, false, All, All-map, ◌∙◌, ap,
}
use investment_engine.Execution.Headers.{
  Table, retry_count_header, carrier_get, carrier_set, carrier_get-set,
}

-- A propagator of contexts `C`: the names that it reads and writes, the calls of `Set` that it makes
-- for a context, in order, and what it makes of the answers of `Get` and the context it is given.
pub record Propagator (C : Type 0) : Type 0 where
  pub fields : List String
  pub set_calls : C → List (String × String)
  pub extract : (String → String) → C → C

-- `InjectTraceContext`, with the calls of `Set` that the propagator makes.
unfoldable pub inject_trace_context : List (String × String) → Table → Table
inject_trace_context [] headers = headers
inject_trace_context ((key, value) ∷ calls) headers =
    inject_trace_context calls (carrier_set headers key value)

-- `ExtractTraceContext`
unfoldable pub extract_trace_context : {C : Type 0} → Propagator C → C → Table → C
extract_trace_context p c headers = p.extract (carrier_get headers) c

abbrev IsApart : String → List (String × String) → Type 0
IsApart key = All (λ call. str_eq call.0 key ≡ false)

abbrev Distinct : List (String × String) → Type 0
Distinct [] = Unit
Distinct ((key, value) ∷ calls) = IsApart key calls × Distinct calls

-- What the documentation of a propagator says: it reads and writes its fields only, none of which is
-- the retry count, each once; and from what was set for a context that is in a trace, a context in
-- this trace is extracted.
pub record IsPropagator {C T : Type 0} (p : Propagator C) (trace_of : C → Option T) : Type 0 where
  pub apart : All (λ key. str_eq retry_count_header key ≡ false) p.fields
  pub reads :
      (get get' : String → String) (c : C)
      → All (λ key. get key ≡ get' key) p.fields
      → p.extract get c ≡ p.extract get' c
  pub distinct : (c : C) → Distinct (p.set_calls c)
  pub joins :
      (get : String → String) (c c' : C) (t : T)
      → trace_of c ≡ some t
      → All (λ call. get call.0 ≡ call.1) (p.set_calls c)
      → trace_of (p.extract get c') ≡ some t

carrier_get-inject_trace_context :
    (key : String) (calls : List (String × String)) (headers : Table)
    → IsApart key calls
    → carrier_get (inject_trace_context calls headers) key ≡ carrier_get headers key
unfolding inject_trace_context
carrier_get-inject_trace_context key [] headers a = refl
carrier_get-inject_trace_context key ((k, v) ∷ calls) headers (other, a) =
    carrier_get-inject_trace_context key calls (carrier_set headers k v) a
    ∙ carrier_get-set headers k key v
    ∙ rw other refl

inject_trace_context-set :
    (calls : List (String × String)) (headers : Table)
    → Distinct calls
    → All (λ call. carrier_get (inject_trace_context calls headers) call.0 ≡ call.1) calls
unfolding inject_trace_context
inject_trace_context-set [] headers d = tt
inject_trace_context-set ((k, v) ∷ calls) headers (a, d) = (
  carrier_get-inject_trace_context k calls (carrier_set headers k v) a
      ∙ carrier_get-set headers k k v
      ∙ rw (eq_refl k) refl,
  inject_trace_context-set calls (carrier_set headers k v) d,
)

module _ {C T : Type 0} (p : Propagator C) (trace_of : C → Option T)
    (laws : IsPropagator p trace_of) where
  -- What was injected into headers is extracted from all that differ at most in the retry count.
  pub extract_trace_context-inject :
      (c c' : C) (t : T) (headers headers' : Table)
      → trace_of c ≡ some t
      → ((key : String)
          → str_eq retry_count_header key ≡ false
          → carrier_get headers' key
            ≡ carrier_get (inject_trace_context (p.set_calls c) headers) key)
      → trace_of (extract_trace_context p c' headers') ≡ some t
  unfolding extract_trace_context
  extract_trace_context-inject c c' t headers headers' has same =
      ap trace_of (
        laws.reads (carrier_get headers')
          (carrier_get (inject_trace_context (p.set_calls c) headers)) c'
          (All-map (λ key. same key) p.fields laws.apart))
      ∙ laws.joins (carrier_get (inject_trace_context (p.set_calls c) headers)) c c' t has
          (inject_trace_context-set (p.set_calls c) headers (laws.distinct c))
