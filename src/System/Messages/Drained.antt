-- ===== src/System/Messages/Drained.antt =====
-- No message goes around for ever.
use investment_engine.Prelude.{
  ℕ, suc, ◌+◌, ◌*◌, ◌≤◌, ◌≡◌, none, [], ◌++◌, length, ◌⊎◌, inl, inr, arith, All-middle, List-cases,
}
use investment_engine.Execution.Headers.{Value}
use investment_engine.Execution.Consumer.{Libraries}
use investment_engine.Execution.Consumer.Retries.{IsWire}
use investment_engine.System.{Conditions}
use investment_engine.System.Messages.{World, react, processed, Move, posts, takes, dies, expires}
use investment_engine.System.Messages.Work.{
  IsCounted, AllCounted, work, all_work, work-middle, work_ready-le, work_retrying-le,
  process-Shrinks, Shrinks-all_work,
}

module _ (wire : Value → Value) (w : IsWire wire) (lib : Libraries) where
  -- A move without a request, in which no consumer dies and retry copies can be published.
  abbrev pub IsDraining : {w w' : World} → Move lib wire w w' → Type 0
  IsDraining (posts upper faults reply cause now a id decoded) = ⊥
  IsDraining (takes c d m before after e) = c.publish_error ≡ none
  IsDraining (dies c d m before after told untold next e e') = ⊥
  IsDraining (expires d before after e) = Unit

  -- Such moves, and how many they are.
  pub data Drains (start : World) : ℕ → World → Type 0 where
    stays : Drains start 0 start
    moves :
        {n : ℕ} {w w' : World}
        → Drains start n w
        → (m : Move lib wire w w') → IsDraining m
        → Drains start (suc n) w'

  Move-all_work :
      {v v' : World} (m : Move lib wire v v')
      → IsDraining m
      → AllCounted v.queues
      → AllCounted v'.queues × (all_work v'.queues + 1 ≤ all_work v.queues)
  unfolding work
  Move-all_work (posts upper faults reply cause now a id decoded) h counted = absurd h
  Move-all_work {v} (takes c d m before after e) h (ready, retrying) =
      let ((n, h'), left) = All-middle IsCounted d before after (rw e at ready) in
      let (counted, less) =
        Shrinks-all_work wire w lib n d (record v.queues { ready = before ++ after })
          (react wire c.copy_kept d (processed lib wire c d m v).1
            (record v.queues { ready = before ++ after }))
          h'
          (process-Shrinks wire w lib c n d m v (record v.queues { ready = before ++ after }) h h')
          (left, retrying) in
      (counted, rw e (omega (arith, less, work-middle 0 d before after)))
  Move-all_work (dies c d m before after told untold next e e') h counted = absurd h
  Move-all_work {v} (expires d before after e) h (ready, retrying) =
      let (counted, left) = All-middle IsCounted d before after (rw e at retrying) in
      (((counted, ready), left), rw e (omega (arith, work-middle 1 d before after)))

  Drains-all_work :
      {w w' : World} {n : ℕ}
      → Drains w n w'
      → AllCounted w.queues
      → AllCounted w'.queues × (n + all_work w'.queues ≤ all_work w.queues)
  Drains-all_work stays counted = (counted, omega arith)
  Drains-all_work (moves r m h) counted =
      let (before, less) = Drains-all_work r counted in
      let (after, less') = Move-all_work m h before in (after, omega arith)

  -- A consumer that can publish retry copies has something to do unless the queues are empty.
  next_to_do :
      (c : Conditions) (w : World)
      → c.publish_error ≡ none
      → ((w.queues.ready ≡ []) × (w.queues.retrying ≡ []))
        ⊎ ((w' : World) × (m : Move lib wire w w') × IsDraining m)
  next_to_do c w h = elim (List-cases w.queues.ready) [
    | inr (d, ds, e) ↦ inr (_, takes c d (λ label. 0) [] ds e, h)
    | inl e ↦ elim (List-cases w.queues.retrying) [
      | inr (d, ds, e') ↦ inr (_, expires d [] ds e', tt)
      | inl e' ↦ inl (e, e')
    ]
  ]

  -- No message goes around for ever: while no request comes, no consumer dies and retry copies can be
  -- published, each message has at most five moves before it, or six in the retry queue, whatever the
  -- store and the price service do; and unless both queues are empty, there is a move to make. Each
  -- message counts its failures from 0 on, and the wire keeps the count.
  pub queues_drain :
      {w w' : World} {n : ℕ} (c : Conditions)
      → c.publish_error ≡ none
      → AllCounted w.queues
      → Drains w n w'
      → (n ≤ 5 * length w.queues.ready + 6 * length w.queues.retrying)
        × (((w'.queues.ready ≡ []) × (w'.queues.retrying ≡ []))
            ⊎ ((w'' : World) × (m : Move lib wire w' w'') × IsDraining m))
  queues_drain {w} {w'} c h counted r =
      let (_, less) = Drains-all_work r counted in
      (
        omega (arith, less, work_ready-le w.queues.ready, work_retrying-le w.queues.retrying),
        next_to_do c w' h,
      )
