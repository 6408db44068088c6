-- ===== src/Server/Counting.antt =====
-- What internal/metrics/middleware.go counts.
use text.Mathlib.Text.{◌==◌ as str_eq}
use mathlib.Core.List.{append-nil, append_assoc}
use investment_engine.Prelude.{
  ℕ, ◌+◌, String, Bool, ◌&&◌, ◌==◌, List, [], ◌∷◌, map, ◌++◌, length, select, if◌then◌else◌, ◌≡◌,
  refl, arith, Bool-cases, inl, inr, ◌∙◌, ap, sym,
}
use investment_engine.Clock.{since}
use investment_engine.Order.Api.{OrderStore, EventPublisher, State}
use investment_engine.Order.ListOrders.{Parsers}
use investment_engine.Server.{
  Decoder, Request, Answer, handled, unrouted, header_calls, write_headers, write_header,
  new_recorder, client_status, Metrics, increment, observe, serve, serve_all, route,
}

-- The status that the recorder holds is the one that was sent.
recorded_sent :
    (a : Answer)
    → (write_headers (header_calls a) new_recorder).status
      ≡ client_status (write_headers (header_calls a) new_recorder).sent
unfolding write_headers write_header
recorded_sent (handled r) = ground arith
recorded_sent (unrouted status) = refl

-- A request with these labels.
abbrev pub is_for : String → String → Request × Answer → Bool
is_for m p (r, a) = str_eq r.method m && str_eq r.path p

-- A request with these labels whose client was sent this status.
abbrev pub is_answered : String → String → ℕ → Request × Answer → Bool
is_answered m p n (r, a) =
    str_eq r.method m
    && str_eq r.path p
    && client_status (write_headers (header_calls a) new_recorder).sent == n

-- How long a request took.
abbrev pub taken : Request × Answer → ℕ
taken (r, a) = since r.started r.finished

module _ (lib : Parsers) (json : Decoder) (elsewhere : String → String → ℕ) {S P : Type 0}
    (store : OrderStore S) (publisher : EventPublisher P) where
  -- A request is counted once, under its method, its path and the status that its client is sent;
  -- no other count changes.
  serve_counts :
      (r : Request) (st : State S P) (metrics : Metrics) (m p : String) (n : ℕ)
      → let (a, (st', metrics')) = serve lib json elsewhere store publisher r (st, metrics) in
        metrics'.requests_total m p n ≡ (
          if is_answered m p n (r, a)
          then metrics.requests_total m p n + 1
          else metrics.requests_total m p n)
  unfolding serve increment
  serve_counts r st metrics m p n =
      ground (arith, recorded_sent (route lib json elsewhere store publisher r st).0)

  serve_observes :
      (r : Request) (st : State S P) (metrics : Metrics) (m p : String)
      → let (a, (st', metrics')) = serve lib json elsewhere store publisher r (st, metrics) in
        metrics'.request_duration m p ≡ (
          if is_for m p (r, a)
          then metrics.request_duration m p ++ taken (r, a) ∷ []
          else metrics.request_duration m p)
  unfolding serve observe
  serve_observes r st metrics m p = refl

  requests_counted :
      (rs : List Request) (st : State S P) (metrics : Metrics) (m p : String) (n : ℕ)
      → let (log, (st', metrics')) =
          serve_all lib json elsewhere store publisher rs (st, metrics) in
        metrics'.requests_total m p n
        ≡ length (select (is_answered m p n) log) + metrics.requests_total m p n
  unfolding serve_all select
  requests_counted [] st metrics m p n = omega arith
  requests_counted (r ∷ rs) st metrics m p n =
      let (a, (st', metrics')) = serve lib json elsewhere store publisher r (st, metrics) in
      ground (arith, requests_counted rs st' metrics' m p n, serve_counts r st metrics m p n)

  durations_observed :
      (rs : List Request) (st : State S P) (metrics : Metrics) (m p : String)
      → let (log, (st', metrics')) =
          serve_all lib json elsewhere store publisher rs (st, metrics) in
        metrics'.request_duration m p
        ≡ metrics.request_duration m p ++ map taken (select (is_for m p) log)
  unfolding serve_all select
  durations_observed [] st metrics m p = sym (append-nil (metrics.request_duration m p))
  durations_observed (r ∷ rs) st metrics m p =
      let (a, (st', metrics')) = serve lib json elsewhere store publisher r (st, metrics) in
      let (log, _) = serve_all lib json elsewhere store publisher rs (st', metrics') in
      let later = map taken (select (is_for m p) log) in
      durations_observed rs st' metrics' m p ∙ elim (Bool-cases (is_for m p (r, a))) [
        | inl mine ↦
            rw (serve_observes r st metrics m p, mine)
              (append_assoc (metrics.request_duration m p) (taken (r, a) ∷ []) later)
        | inr other ↦ rw (serve_observes r st metrics m p, other) refl
      ]

  -- The log has the requests.
  logged :
      (rs : List Request) (st : State S P) (metrics : Metrics)
      → map (λ x. x.0) (serve_all lib json elsewhere store publisher rs (st, metrics)).0 ≡ rs
  unfolding serve_all
  logged [] st metrics = refl
  logged (r ∷ rs) st metrics =
      let (a, (st', metrics')) = serve lib json elsewhere store publisher r (st, metrics) in
      ap (λ (l : List Request). r ∷ l) (logged rs st' metrics')

  -- Over any sequence of requests, from any counts, each request is counted once under its method, its
  -- path and the status that its client was sent, and the time that it took is observed once, in
  -- order, under its method and its path; nothing else is counted or observed.
  pub serve_all-metrics :
      (rs : List Request) (st : State S P) (metrics : Metrics) (m p : String)
      → let (log, (st', metrics')) =
          serve_all lib json elsewhere store publisher rs (st, metrics) in
        ((n : ℕ)
          → metrics'.requests_total m p n
            ≡ length (select (is_answered m p n) log) + metrics.requests_total m p n)
        × (metrics'.request_duration m p
            ≡ metrics.request_duration m p ++ map taken (select (is_for m p) log))
        × (map (λ x. x.0) log ≡ rs)
  serve_all-metrics rs st metrics m p = (
    requests_counted rs st metrics m p,
    durations_observed rs st metrics m p,
    logged rs st metrics,
  )
