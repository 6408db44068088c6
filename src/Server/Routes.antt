-- ===== src/Server/Routes.antt =====
-- What the routes of cmd/api/main.go promise to clients.
use text.Mathlib.Text.{◌==◌ as str_eq}
use investment_engine.Prelude.{ℕ, String, false, ◌&&◌, List, [], ◌∷◌, Option, ◌≡◌, arith, ◌⊎◌}
use investment_engine.Result.{Result, ok, err}
use investment_engine.Order.Model.{Order, Uuid}
use investment_engine.Order.Api.{OrderStore, EventPublisher, State, internal_error}
use investment_engine.Order.CreateOrder.{
  Decoded, request, too_large, malformed, CreateOrderRequest, announce, submit, field_errors,
  create_order,
}
use investment_engine.Order.CreateOrder.Decoding.{decode_body, post_order}
use investment_engine.Http.{FieldError, write}
use investment_engine.Pagination.{Cursor}
use investment_engine.Order.ListOrders.{Parsers, Query, list_orders, answer_filter, answer_page}
use investment_engine.Server.{Decoder, Request, Answer, handled, unrouted, Metrics, serve, route}

-- The statuses that this program's handlers answer with.
abbrev pub IsStatusOf : List ℕ → Answer → Type 0
IsStatusOf [] (handled r) = ⊥
IsStatusOf (n ∷ ns) (handled r) = (r.status ≡ n) ⊎ IsStatusOf ns (handled r)
IsStatusOf ns (unrouted status) = Unit

abbrev list_statuses : List ℕ
list_statuses = 200 ∷ 400 ∷ 500 ∷ []

abbrev pub statuses : List ℕ
statuses = 200 ∷ 201 ∷ 400 ∷ 413 ∷ 500 ∷ []

module _ {S P : Type 0} (lib : Parsers) (store : OrderStore S) (publisher : EventPublisher P) where
  answer_page-status :
      (r : Result (List Order × Option Cursor)) → IsStatusOf statuses (handled (answer_page lib r))
  unfolding internal_error write
  answer_page-status r = ground arith

  answer_filter-status :
      (s : S) (es : List FieldError) (f : _)
      → IsStatusOf statuses (handled (answer_filter lib store s es f))
  unfolding write
  answer_filter-status s (e ∷ es) f = ground arith
  answer_filter-status s [] f = answer_page-status (store.list f s)

  list_orders-status :
      (s : S) (q : Query) → IsStatusOf statuses (handled (list_orders lib store s q))
  unfolding list_orders
  list_orders-status s q = answer_filter-status s _ _

  announce-status :
      (r : Result Order × S) (p : P)
      → IsStatusOf statuses (handled (announce lib.upper store publisher r p).0)
  unfolding internal_error write
  announce-status (ok o, s) p = ground arith
  announce-status (err e, s) p = ground arith

  submit-status :
      (es : List FieldError) (id user_id : Uuid) (req : CreateOrderRequest) (st : State S P)
      → IsStatusOf statuses (handled (submit lib.upper store publisher es id user_id req st).0)
  unfolding write
  submit-status (e ∷ es) id user_id req st = ground arith
  submit-status [] id user_id req st = announce-status _ st.publisher

  create_order-status :
      (decoded : Decoded) (id : Uuid) (st : State S P)
      → IsStatusOf statuses (handled (create_order lib.upper store publisher decoded id st).0)
  unfolding create_order write
  create_order-status too_large id st = ground arith
  create_order-status malformed id st = ground arith
  create_order-status (request req) id st = submit-status (field_errors lib.upper req) id _ req st

  module _ (json : Decoder) (elsewhere : String → String → ℕ) where
    -- Each response of the program's own handlers has one of the statuses 200, 201, 400, 413 and 500.
    pub serve-status :
        (r : Request) (st : State S P) (metrics : Metrics)
        → IsStatusOf statuses (serve lib json elsewhere store publisher r (st, metrics)).0
    unfolding serve route post_order
    serve-status r st metrics = ground (
      arith,
      list_orders-status st.store r.query,
      create_order-status (decode_body json.literals json.folds json.scan r.body) r.id st,
    )

    -- Only a POST to /orders can store or publish anything.
    pub serve_safe :
        (r : Request) (st : State S P) (metrics : Metrics)
        → str_eq r.path "/orders" && str_eq r.method "POST" ≡ false
        → (serve lib json elsewhere store publisher r (st, metrics)).1.0 ≡ st
    unfolding serve route post_order
    serve_safe r st metrics h = ground arith
