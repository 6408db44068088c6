-- ===== src/System/Messages/Consuming.antt =====
-- The loop of a consumer (internal/execution/consumer.go) as moves of the messages.
use investment_engine.Prelude.{
  Bool, Bool-cases, inl, inr, none, some, true, false, List, [], ◌∷◌, ◌++◌, ◌≡◌, refl, ap, ◌∙◌,
}
use investment_engine.Order.Store.{Db}
use investment_engine.Execution.Headers.{Value}
use investment_engine.Execution.Consumer.{
  Publishing, Libraries, Delivery, Counter, Action, ack, reject, publish, Signal, arrives, shutdown,
  closed, Outcome, loop,
}
use investment_engine.System.{Conditions, circumstances}
use investment_engine.System.Messages.{
  to_retry_queue, Queues, World, react, copied_to, settled, processed, Move, takes, Run, here, next,
}

-- The messages wait behind all others of the order queue.
abbrev pub behind : List Delivery → Queues → Queues
behind ds q = record q { ready = q.ready ++ ds }

-- What the broker does with the deliveries of a run, in their order; it keeps or loses the copy that a
-- delivery publishes as the first argument says.
unfoldable pub react_all :
    List Bool → (Value → Value) → List (Delivery × List Action) → Queues → Queues
react_all kept wire [] q = q
react_all [] wire ((d, actions) ∷ log) q = react_all [] wire log (react wire true d actions q)
react_all (kept ∷ others) wire ((d, actions) ∷ log) q =
    react_all others wire log (react wire kept d actions q)

-- What the `select` of a consumer sees: deliveries, and then what ends its loop.
abbrev pub signals : List (Conditions × Delivery) → List (Signal Db) → List (Signal Db)
signals [] ending = ending
signals ((c, d) ∷ rest) ending = arrives false (circumstances c) d ∷ signals rest ending

-- Nothing, a shutdown request, perhaps with a delivery that arrives along with it, or the end of the
-- deliveries.
abbrev pub IsEnding : List (Signal Db) → Type 0
IsEnding [] = Unit
IsEnding (shutdown ∷ rest) = Unit
IsEnding (closed ∷ rest) = Unit
IsEnding (arrives true c d ∷ rest) = Unit
IsEnding (arrives false c d ∷ rest) = ⊥

abbrev pub deliveries : List (Conditions × Delivery) → List Delivery
deliveries [] = []
deliveries ((c, d) ∷ rest) = d ∷ deliveries rest

-- Which of the copies the broker keeps.
abbrev pub kept_copies : List (Conditions × Delivery) → List Bool
kept_copies [] = []
kept_copies ((c, d) ∷ rest) = c.copy_kept ∷ kept_copies rest

copied_to-behind :
    (wire : Value → Value) (kept : Bool) (m : Publishing) (ds : List Delivery) (q : Queues)
    → copied_to wire kept m (behind ds q) ≡ behind ds (copied_to wire kept m q)
copied_to-behind wire false m ds q = refl
copied_to-behind wire true m ds q = elim (Bool-cases (to_retry_queue m)) [
  | inl routed ↦ rw routed refl
  | inr dropped ↦ rw dropped refl
]

react-behind :
    (wire : Value → Value) (kept : Bool) (d : Delivery) (actions : List Action) (ds : List Delivery)
    (q : Queues)
    → react wire kept d actions (behind ds q) ≡ behind ds (react wire kept d actions q)
unfolding react
react-behind wire kept d [] ds q = refl
react-behind wire kept d (ack ∷ rest) ds q = react-behind wire kept d rest ds q
react-behind wire kept d (reject true ∷ rest) ds q =
    react-behind wire kept d rest ds (record q { ready = d ∷ q.ready })
react-behind wire kept d (reject false ∷ rest) ds q =
    react-behind wire kept d rest ds (record q { dead = d ∷ q.dead })
react-behind wire kept d (publish m (some e) ∷ rest) ds q = react-behind wire kept d rest ds q
react-behind wire kept d (publish m none ∷ rest) ds q =
    ap (react wire kept d rest) (copied_to-behind wire kept m ds q)
    ∙ react-behind wire kept d rest ds (copied_to wire kept m q)

module _ (lib : Libraries) (wire : Value → Value) where
  first_then : {w w' w'' : World} → Move lib wire w w' → Run lib wire w' w'' → Run lib wire w w''
  first_then m here = next here m
  first_then m (next r m') = next (first_then m r) m'

  abbrev pub consumed : List Bool → World → Queues → List Delivery → Outcome Db → World
  consumed kept w q after out = record {
    db = out.state.store;
    queues = behind after (react_all kept wire out.log q);
    sent = w.sent;
  }

  ending-consumed :
      (ending : List (Signal Db)) (w : World) (q : Queues) (after : List Delivery) (m : Counter)
      → IsEnding ending
      → consumed [] w q after (loop lib ending (record { store = w.db; messages_processed = m }))
        ≡ record { db = w.db; queues = behind after q; sent = w.sent }
  unfolding loop react_all react
  ending-consumed [] w q after m h = refl
  ending-consumed (shutdown ∷ rest) w q after m h = refl
  ending-consumed (closed ∷ rest) w q after m h = refl
  ending-consumed (arrives true c d ∷ rest) w q after m h = refl
  ending-consumed (arrives false c d ∷ rest) w q after m h = absurd h

  loop_moves :
      (arrivals : List (Conditions × Delivery)) (ending : List (Signal Db)) (w : World) (q : Queues)
      (after : List Delivery) (m : Counter)
      → IsEnding ending
      → w.queues ≡ behind (deliveries arrivals ++ after) q
      → Run lib wire w (
          consumed
            (kept_copies arrivals)
            w
            q
            after
            (loop lib (signals arrivals ending) (record { store = w.db; messages_processed = m })))
  unfolding loop react_all
  loop_moves [] ending w q after m h e = rw (ending-consumed ending w q after m h, ← e) here
  loop_moves ((c, d) ∷ rest) ending w q after m h e =
      let (st, actions) = processed lib wire c d m w in
      let left = record w.queues { ready = q.ready ++ (deliveries rest ++ after) } in
      first_then (takes c d m q.ready (deliveries rest ++ after) (ap (λ (x : Queues). x.ready) e)) (
        loop_moves rest ending (settled wire c.copy_kept d actions st.store left w)
          (react wire c.copy_kept d actions q) after st.messages_processed h
          (ap
              (λ (x : Queues).
                react wire c.copy_kept d actions
                  (record x { ready = q.ready ++ (deliveries rest ++ after) }))
              e
            ∙ react-behind wire c.copy_kept d actions (deliveries rest ++ after) q))

  -- The loop of a consumer that takes the first deliveries of the order queue is a sequence of moves,
  -- however it ends: they end in the tables that the loop leaves and in the queues that the broker
  -- makes of what it is told, delivery by delivery, whichever of the retry copies it keeps, where what was not taken waits behind what has
  -- come back.
  pub loop_consumes :
      (arrivals : List (Conditions × Delivery)) (ending : List (Signal Db)) (w : World)
      (after : List Delivery) (m : Counter)
      → IsEnding ending
      → w.queues.ready ≡ deliveries arrivals ++ after
      → Run lib wire w (
          consumed
            (kept_copies arrivals)
            w
            (record w.queues { ready = [] })
            after
            (loop lib (signals arrivals ending) (record { store = w.db; messages_processed = m })))
  loop_consumes arrivals ending w after m h e =
      loop_moves arrivals ending w (record w.queues { ready = [] }) after m h
        (ap (λ (ds : List Delivery). record w.queues { ready = ds }) e)
