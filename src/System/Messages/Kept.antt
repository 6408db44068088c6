-- ===== src/System/Messages/Kept.antt =====
-- No message is forgotten before its order is settled.
use investment_engine.Prelude.{
  ℕ, zero, suc, ◌+◌, ◌≤◌, ◌≡◌, All, All-map, All-append, ◌⊎◌, inl, inr, arith,
}
use investment_engine.Result.{ok}
use investment_engine.Order.Event.{OrderCreatedEvent}
use investment_engine.Order.Store.{empty_db, count_executions}
use investment_engine.Order.Store.Invariant.{IsConsistent, empty_db-IsConsistent}
use investment_engine.Execution.Headers.{Value}
use investment_engine.Execution.Handler.{Body}
use investment_engine.Execution.Consumer.{Libraries}
use investment_engine.System
use investment_engine.System.{silent, Conditions, circumstances, Reach}
use investment_engine.System.AtMostOnce.{Reach-IsConsistent, at_most_once}
use investment_engine.System.Statuses.{reached_statuses}
use investment_engine.System.Messages.{
  World, posted, settled, Move, posts, takes, dies, expires, Run, here, next, empty_world, queued,
  count_bodies,
}
use investment_engine.System.Messages.Settlement.{settled_executed}
use investment_engine.System.Messages.Accounted.{
  Accounted, takes-Accounted, dies-Accounted, expires-Accounted, answered, same_tables,
  posts-Accounted, sent-Accounted,
}

one_of : (x y : ℕ) → 1 ≤ x + y → (1 ≤ x) ⊎ (1 ≤ y)
one_of zero y h = inr (omega arith)
one_of (suc x) y h = inl (omega arith)

module _ (lib : Libraries) (wire : Value → Value) where
  Move-Accounted :
      {w w' : World}
      → Move lib wire w w'
      → IsConsistent w.db
      → All (λ m. Accounted lib wire m.body w) w.sent
      → All (λ m. Accounted lib wire m.body w') w'.sent
  Move-Accounted {w} (posts upper faults reply cause now a id decoded) c all =
      let answer = answered lib wire upper faults reply cause now a id decoded w in
      All-append (λ m. Accounted lib wire m.body (posted wire a.routed answer w))
        answer.1.publisher.sent w.sent
        (sent-Accounted lib wire upper faults reply cause now a id decoded w)
        (All-map (λ m. posts-Accounted lib wire upper faults reply cause now a id decoded w m.body)
          w.sent all)
  Move-Accounted {w} (takes co d m before after e) c all =
      All-map (λ m'. takes-Accounted lib wire co d m w before after e c m'.body) w.sent all
  Move-Accounted {w} (dies co d m before after told untold last e e') c all =
      All-map (λ m'. dies-Accounted lib wire co d m w before after e told m'.body) w.sent all
  Move-Accounted {w} (expires d before after e) c all =
      All-map (λ m. expires-Accounted lib wire d w before after e m.body) w.sent all

  -- The tables are among those that the moves of the whole system reach.
  Run-Reach : {w : World} → Run lib wire empty_world w → Reach lib empty_db w.db
  Run-Reach here = System.here
  Run-Reach (next {w} r (posts upper faults reply cause now a id decoded)) =
      rw (same_tables lib wire upper faults reply cause now a id decoded w)
        (System.next (Run-Reach r) (System.creates upper faults reply cause now id decoded))
  Run-Reach (next r (takes c d m before after e)) =
      System.next (Run-Reach r) (System.delivers c d m)
  Run-Reach (next r (dies c d m before after told untold last e e')) =
      System.next (Run-Reach r) (System.delivers c d m)
  Run-Reach (next r (expires d before after e)) = Run-Reach r

  Run-Accounted :
      {w : World} → Run lib wire empty_world w → All (λ m. Accounted lib wire m.body w) w.sent
  Run-Accounted here = tt
  Run-Accounted (next r m) =
      Move-Accounted m (Reach-IsConsistent lib (Run-Reach r) empty_db-IsConsistent)
        (Run-Accounted r)

  -- A message whose order is settled was about an order with one execution.
  Accounted-count_executions :
      (w : World) (b : Body)
      → Reach lib empty_db w.db
      → Accounted lib wire b w
      → (1 ≤ queued b w.queues)
        ⊎ (1 ≤ count_bodies b w.queues.lost)
        ⊎ ((event : OrderCreatedEvent) × (lib.unmarshal b ≡ ok event)
            × (count_executions event.order_id w.db.executions ≡ 1))
  Accounted-count_executions w b r (inl some_copy) =
      elim (one_of (queued b w.queues) (count_bodies b w.queues.lost) some_copy) [
        | inl there ↦ inl there
        | inr gone ↦ inr (inl gone)
      ]
  Accounted-count_executions w b r (inr (event, u, (known, settled))) = inr (
      inr (
        event,
        u,
        omega (
          arith,
          known,
          settled,
          settled_executed event.order_id w.db.orders (reached_statuses lib r),
          (at_most_once lib r event.order_id).1,
        ),
      ))

  -- The program forgets no event: whatever requests come, however consumers fail or die, and however
  -- messages return from the retry queue, for each event whose publish returned nil a message with
  -- its body is in the order queue, the retry queue or the dead letters, or the order that it names
  -- has its one execution, or the broker has lost a message with that body, the event or a retry copy
  -- of it, although the publish of it had returned nil. The run starts with no orders and no
  -- messages, and the broker keeps what is in its queues.
  pub messages_kept :
      {w : World}
      → Run lib wire empty_world w
      → All
          (λ m.
            (1 ≤ queued m.body w.queues)
            ⊎ (1 ≤ count_bodies m.body w.queues.lost)
            ⊎ ((event : OrderCreatedEvent) × (lib.unmarshal m.body ≡ ok event)
                × (count_executions event.order_id w.db.executions ≡ 1)))
          w.sent
  messages_kept {w} r =
      All-map (λ m. Accounted-count_executions w m.body (Run-Reach r)) w.sent (Run-Accounted r)
