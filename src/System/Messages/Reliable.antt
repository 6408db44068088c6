-- ===== src/System/Messages/Reliable.antt =====
-- A broker that routes and keeps whatever is published, as on a channel in confirm mode whose publishes
-- are all confirmed.
use investment_engine.Prelude.{
  ◌≤◌, ◌≡◌, refl, ◌∙◌, true, false, none, some, List, [], ◌∷◌, All, All-map, ◌⊎◌, inl, inr,
  Bool-cases, arith,
}
use investment_engine.Result.{ok}
use investment_engine.Order.Event.{OrderCreatedEvent}
use investment_engine.Order.Store.{count_executions}
use investment_engine.Execution.Headers.{Value}
use investment_engine.Execution.Consumer.{Action, ack, reject, publish, Libraries, Delivery}
use investment_engine.System.Messages.{
  to_retry_queue, copied_to, Queues, World, react, Move, posts, takes, dies, expires, Run, here,
  next, empty_world, queued, count_bodies,
}
use investment_engine.System.Messages.Kept.{messages_kept}

react-lost :
    (wire : Value → Value) (d : Delivery) (actions : List Action) (q : Queues)
    → (react wire true d actions q).lost ≡ q.lost
unfolding react
react-lost wire d [] q = refl
react-lost wire d (ack ∷ rest) q = react-lost wire d rest q
react-lost wire d (reject true ∷ rest) q = react-lost wire d rest (record q { ready = d ∷ q.ready })
react-lost wire d (reject false ∷ rest) q = react-lost wire d rest (record q { dead = d ∷ q.dead })
react-lost wire d (publish m (some e) ∷ rest) q = react-lost wire d rest q
react-lost wire d (publish m none ∷ rest) q =
    react-lost wire d rest (copied_to wire true m q) ∙ elim (Bool-cases (to_retry_queue m)) [
      | inl routed ↦ rw routed refl
      | inr dropped ↦ rw dropped refl
    ]

module _ (lib : Libraries) (wire : Value → Value) where
  -- The broker loses nothing in a move.
  abbrev pub IsReliable : {w w' : World} → Move lib wire w w' → Type 0
  IsReliable (posts upper faults reply cause now a id decoded) = a.routed ≡ true
  IsReliable (takes c d m before after e) = c.copy_kept ≡ true
  IsReliable (dies c d m before after told untold last e e') = c.copy_kept ≡ true
  IsReliable (expires d before after e) = Unit

  abbrev pub AllReliable : {start w : World} → Run lib wire start w → Type 0
  AllReliable here = Unit
  AllReliable (next r m) = AllReliable r × IsReliable m

  Move-lost :
      {w w' : World} (m : Move lib wire w w') → IsReliable m → w'.queues.lost ≡ w.queues.lost
  Move-lost (posts upper faults reply cause now a id decoded) h = rw h refl
  Move-lost {w} (takes c d m before after e) h = rw h (react-lost wire d _ _)
  Move-lost {w} (dies c d m before after told untold last e e') h = rw h (react-lost wire d _ _)
  Move-lost (expires d before after e) h = refl

  Run-lost : {w : World} (r : Run lib wire empty_world w) → AllReliable r → w.queues.lost ≡ []
  Run-lost here h = refl
  Run-lost (next r m) (h, h') = Move-lost m h' ∙ Run-lost r h

  -- With such a broker no event is forgotten at all: for each one that was published a message with
  -- its body is in one of the three queues, or its order has its one execution.
  pub messages_kept_reliably :
      {w : World} (r : Run lib wire empty_world w)
      → AllReliable r
      → All
          (λ m.
            (1 ≤ queued m.body w.queues)
            ⊎ ((event : OrderCreatedEvent) × (lib.unmarshal m.body ≡ ok event)
                × (count_executions event.order_id w.db.executions ≡ 1)))
          w.sent
  unfolding count_bodies
  messages_kept_reliably {w} r h =
      All-map
        (λ m. elim [
          | inl there ↦ inl there
          | inr (inl gone) ↦ absurd (let gone' = rw (Run-lost r h) at gone in omega arith)
          | inr (inr one) ↦ inr one
        ])
        w.sent (messages_kept lib wire r)
