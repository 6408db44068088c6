-- ===== src/System/Messages/Copies.antt =====
-- How many messages with a given body the queues hold, as the broker reacts.
use investment_engine.Prelude.{
  Bool, refl, Bool-cases, inl, inr, ◌+◌, ◌≤◌, ◌≡◌, true, false, none, some, List, [], ◌∷◌, ◌++◌,
  map, select, All, All-map, arith, text_eq_refl,
}
use investment_engine.Order.Publisher.{Message}
use investment_engine.Execution.Headers.{Value}
use investment_engine.Execution.Handler.{Body}
use investment_engine.Execution.Consumer.{Publishing, Action, ack, reject, publish, Delivery}
use investment_engine.Execution.Consumer.Settling.{FailureSettled, dead_lettered, copied, requeued}
use investment_engine.System.Messages.{
  handed, to_order_queue, to_retry_queue, Queues, react, arriving, copied_to, count_bodies, copies,
}

pub count_bodies-append :
    (b : Body) (ds es : List Delivery)
    → count_bodies b (ds ++ es) ≡ count_bodies b ds + count_bodies b es
unfolding count_bodies
count_bodies-append b [] es = omega arith
count_bodies-append b (d ∷ ds) es = omega (arith, count_bodies-append b ds es)

pub count_bodies-middle :
    (b : Body) {ds : List Delivery} (d : Delivery) (before after : List Delivery)
    → ds ≡ before ++ d ∷ after
    → count_bodies b ds ≡ count_bodies b (d ∷ []) + count_bodies b (before ++ after)
unfolding count_bodies
count_bodies-middle b d before after e =
    rw e
      (omega (arith, count_bodies-append b before (d ∷ after), count_bodies-append b before after))

copies-copied_to :
    (b : Body) (wire : Value → Value) (kept : Bool) (m : Publishing) (q : Queues)
    → copies b q ≤ copies b (copied_to wire kept m q)
unfolding count_bodies
copies-copied_to b wire false m q = omega arith
copies-copied_to b wire true m q = elim (Bool-cases (to_retry_queue m)) [
  | inl routed ↦ rw routed (omega arith)
  | inr dropped ↦ rw dropped (omega arith)
]

-- Telling the broker more takes no message from it.
copies-react :
    (b : Body) (wire : Value → Value) (kept : Bool) (d : Delivery) (actions : List Action)
    (q : Queues)
    → copies b q ≤ copies b (react wire kept d actions q)
unfolding react count_bodies
copies-react b wire kept d [] q = omega arith
copies-react b wire kept d (ack ∷ rest) q = copies-react b wire kept d rest q
copies-react b wire kept d (reject true ∷ rest) q =
    omega (arith, copies-react b wire kept d rest (record q { ready = d ∷ q.ready }))
copies-react b wire kept d (reject false ∷ rest) q =
    omega (arith, copies-react b wire kept d rest (record q { dead = d ∷ q.dead }))
copies-react b wire kept d (publish m (some e) ∷ rest) q = copies-react b wire kept d rest q
copies-react b wire kept d (publish m none ∷ rest) q = omega (
  arith,
  copies-copied_to b wire kept m q,
  copies-react b wire kept d rest (copied_to wire kept m q),
)

-- A consumer that died leaves its delivery in the queue.
pub copies-unsettled :
    (b : Body) (wire : Value → Value) (kept : Bool) (d : Delivery) (told : List Action) (q : Queues)
    → count_bodies b (d ∷ []) + copies b q
      ≤ copies b (react wire kept d (told ++ reject true ∷ []) q)
unfolding react count_bodies
copies-unsettled b wire kept d [] q = omega arith
copies-unsettled b wire kept d (ack ∷ told) q = copies-unsettled b wire kept d told q
copies-unsettled b wire kept d (reject true ∷ told) q =
    omega (arith, copies-unsettled b wire kept d told (record q { ready = d ∷ q.ready }))
copies-unsettled b wire kept d (reject false ∷ told) q =
    omega (arith, copies-unsettled b wire kept d told (record q { dead = d ∷ q.dead }))
copies-unsettled b wire kept d (publish m (some e) ∷ told) q = copies-unsettled b wire kept d told q
copies-unsettled b wire kept d (publish m none ∷ told) q = omega (
  arith,
  copies-copied_to b wire kept m q,
  copies-unsettled b wire kept d told (copied_to wire kept m q),
)

-- A delivery whose handler failed is still there once it is settled: as itself or as its copy.
pub copies-failed :
    (b : Body) (wire : Value → Value) (kept : Bool) (d : Delivery) (actions : List Action)
    (q : Queues)
    → FailureSettled d actions
    → copies b (react wire kept d actions q) ≡ count_bodies b (d ∷ []) + copies b q
unfolding react count_bodies
copies-failed b wire kept d actions q (dead_lettered e) = rw e (omega arith)
copies-failed b wire true d actions q (copied m c e) =
    rw (e, c.body, c.exchange, c.routing_key) (omega arith)
copies-failed b wire false d actions q (copied m c e) = rw (e, c.body) (omega arith)
copies-failed b wire kept d actions q (requeued m e' e) = rw e (omega arith)

-- Each message that is routed to the order queue is in it then.
arriving-All :
    (wire : Value → Value) (ms : List Message)
    → All (λ m. to_order_queue m ≡ true) ms
    → All (λ m. 1 ≤ count_bodies m.body (map (arriving wire) (select to_order_queue ms))) ms
unfolding count_bodies select
arriving-All wire [] routed = tt
arriving-All wire (m ∷ ms) (h, routed) =
    let same : select to_order_queue (m ∷ ms) ≡ m ∷ select to_order_queue ms = rw h refl in
    (
      rw same (ground (arith, text_eq_refl m.body)),
      All-map (λ m' h'. rw same (omega (arith, h'))) ms (arriving-All wire ms routed),
    )

-- Each message that the broker has lost is among those that it has lost.
losing-All :
    (wire : Value → Value) (ms : List Message)
    → All (λ m. 1 ≤ count_bodies m.body (map (arriving wire) ms)) ms
unfolding count_bodies
losing-All wire [] = tt
losing-All wire (m ∷ ms) = (
  ground (arith, text_eq_refl m.body),
  All-map (λ m' h'. omega (arith, h')) ms (losing-All wire ms),
)

-- What the broker is handed is in the order queue then, or lost.
pub handed-All :
    (wire : Value → Value) (routed : Bool) (ms : List Message) (q : Queues)
    → All (λ m. to_order_queue m ≡ true) ms
    → All (λ m. 1 ≤ copies m.body (handed wire routed ms q)) ms
handed-All wire true ms q a =
    let arrived = map (arriving wire) (select to_order_queue ms) in
    All-map (λ m h. omega (arith, h, count_bodies-append m.body arrived q.ready)) ms
      (arriving-All wire ms a)
handed-All wire false ms q a =
    All-map (λ m h. omega (arith, h, count_bodies-append m.body (map (arriving wire) ms) q.lost)) ms
      (losing-All wire ms)

pub copies-handed :
    (b : Body) (wire : Value → Value) (routed : Bool) (ms : List Message) (q : Queues)
    → copies b q ≤ copies b (handed wire routed ms q)
copies-handed b wire true ms q =
    omega (arith, count_bodies-append b (map (arriving wire) (select to_order_queue ms)) q.ready)
copies-handed b wire false ms q =
    omega (arith, count_bodies-append b (map (arriving wire) ms) q.lost)
