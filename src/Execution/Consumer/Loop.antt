-- ===== src/Execution/Consumer/Loop.antt =====
-- The loop of internal/execution/consumer.go over whole runs.
use investment_engine.Prelude.{
  String, ◌⊎◌, inr, ap, ◌-◌, length, ℕ, ◌+◌, true, false, List, [], ◌∷◌, ◌++◌, All, Option, none,
  some, ◌≡◌, refl, arith,
}
use investment_engine.Clock.{since}
use investment_engine.GoError.{GoError}
use investment_engine.Order.Model.{Uuid}
use investment_engine.Execution.Handler.{handle_order_created}
use investment_engine.Execution.Handler.Contract.{IsExecutionStore, handle_order_created-keeps}
use investment_engine.Execution.Consumer.{
  running, stopped, Delivery, Action, Libraries, Circumstances, Counter, State, Signal, shutdown,
  closed, arrives, loop, process, settle, Setup, run, setup_error, run_loop,
}
use investment_engine.Execution.Consumer.Settling.{
  processed_in_all, process-processed_in_all, Settled, dead_lettered, copied, requeued,
  process-Settled,
}
use investment_engine.Execution.Consumer.Labels.{IsOtherKept, IsOtherKept-trans, process-other}

-- The signals bring stores that keep the contract.
abbrev pub KeepsContract : {S : Type 0} → (S → Type 0) → (Uuid → S → Type 0) → Signal S → Type 0
KeepsContract Good Settled shutdown = Unit
KeepsContract Good Settled closed = Unit
KeepsContract Good Settled (arrives stopping c d) = IsExecutionStore c.store Good Settled

-- How many deliveries of a log were settled.
abbrev pub settled_deliveries : List (Delivery × List Action) → ℕ
settled_deliveries [] = 0
settled_deliveries ((d, []) ∷ log) = settled_deliveries log
settled_deliveries ((d, a ∷ actions) ∷ log) = settled_deliveries log + 1

-- How long each delivery took that is handled: those up to the one with a shutdown, or the end.
abbrev pub elapsed : {S : Type 0} → List (Signal S) → List ℕ
elapsed [] = []
elapsed (shutdown ∷ rest) = []
elapsed (closed ∷ rest) = []
elapsed (arrives true c d ∷ rest) = []
elapsed (arrives false c d ∷ rest) = (c.finished - c.started) ∷ elapsed rest

settled_deliveries-Settled :
    (d : Delivery) (e : Option GoError) (actions : List Action)
    (log : List (Delivery × List Action))
    → Settled d e actions
    → settled_deliveries ((d, actions) ∷ log) ≡ settled_deliveries log + 1
settled_deliveries-Settled d none actions log h = rw h
settled_deliveries-Settled d (some e) actions log (dead_lettered h) = rw h
settled_deliveries-Settled d (some e) actions log (copied m copy h) = rw h
settled_deliveries-Settled d (some e) actions log (requeued m e' h) = rw h

module _ {S : Type 0} (lib : Libraries) where
  settle-store :
      (c : Circumstances S) (d : Delivery) (m : Counter) (e : Option GoError) (s : S)
      → (settle lib c d m e s).0.store ≡ s
  settle-store c d m none s = refl
  settle-store c d m (some e) s = refl

  pub process-store :
      (c : Circumstances S) (d : Delivery) (st : State S)
      → (process lib c d st).0.store
        ≡ (handle_order_created c.store lib.unmarshal c.prices d.body st.store).1
  unfolding process
  process-store c d st =
      let (e, s) = handle_order_created c.store lib.unmarshal c.prices d.body st.store in
      settle-store c d st.messages_processed e s

  module _ (Good : S → Type 0) (Settled : Uuid → S → Type 0) where
    loop-keeps :
        (signals : List (Signal S)) (st : State S)
        → All (KeepsContract Good Settled) signals
        → Good st.store
        → Good (loop lib signals st).state.store
    unfolding loop
    loop-keeps [] st ks g = g
    loop-keeps (shutdown ∷ rest) st ks g = g
    loop-keeps (closed ∷ rest) st ks g = g
    loop-keeps (arrives true c d ∷ rest) st ks g = g
    loop-keeps (arrives false c d ∷ rest) st (k, ks) g = loop-keeps rest (process lib c d st).0 ks (
        rw (process-store c d st)
          (handle_order_created-keeps c.store lib.unmarshal c.prices d.body st.store k g))

    run_loop-keeps :
        (e : Option GoError) (signals : List (Signal S)) (st : State S)
        → All (KeepsContract Good Settled) signals
        → Good st.store
        → Good (run_loop lib e signals st).state.store
    run_loop-keeps none signals st ks g = loop-keeps signals st ks g
    run_loop-keeps (some e) signals st ks g = g

    -- Whatever the setup and the loop meet, a run keeps the invariant of the store.
    pub run-keeps :
        (s : Setup) (signals : List (Signal S)) (st : State S)
        → All (KeepsContract Good Settled) signals
        → Good st.store
        → Good (run lib s signals st).state.store
    unfolding run
    run-keeps s signals st ks g = run_loop-keeps (setup_error s) signals st ks g

  loop-processed_in_all :
      (signals : List (Signal S)) (st : State S)
      → processed_in_all (loop lib signals st).state.messages_processed
        ≡ processed_in_all st.messages_processed + settled_deliveries (loop lib signals st).log
  unfolding loop
  loop-processed_in_all [] st = omega arith
  loop-processed_in_all (shutdown ∷ rest) st = omega arith
  loop-processed_in_all (closed ∷ rest) st = omega arith
  loop-processed_in_all (arrives true c d ∷ rest) st = omega arith
  loop-processed_in_all (arrives false c d ∷ rest) st =
      let st' = (process lib c d st).0 in
      let later = (loop lib rest st').log in
      omega (
        arith,
        loop-processed_in_all rest st',
        process-processed_in_all lib c d st,
        settled_deliveries-Settled d
            (handle_order_created c.store lib.unmarshal c.prices d.body st.store).0
            (process lib c d st).1 later (process-Settled lib c d st),
      )

  loop-durations :
      (signals : List (Signal S)) (st : State S)
      → length (loop lib signals st).durations ≡ settled_deliveries (loop lib signals st).log
  unfolding loop
  loop-durations [] st = refl
  loop-durations (shutdown ∷ rest) st = refl
  loop-durations (closed ∷ rest) st = refl
  loop-durations (arrives true c d ∷ rest) st = omega arith
  loop-durations (arrives false c d ∷ rest) st =
      let st' = (process lib c d st).0 in
      let later = (loop lib rest st').log in
      omega (
        arith,
        loop-durations rest st',
        settled_deliveries-Settled d
            (handle_order_created c.store lib.unmarshal c.prices d.body st.store).0
            (process lib c d st).1 later (process-Settled lib c d st),
      )

  loop-other :
      (signals : List (Signal S)) (st : State S) (label : String)
      → IsOtherKept label st.messages_processed (loop lib signals st).state.messages_processed
  unfolding loop
  loop-other [] st label = inr (inr (inr refl))
  loop-other (shutdown ∷ rest) st label = inr (inr (inr refl))
  loop-other (closed ∷ rest) st label = inr (inr (inr refl))
  loop-other (arrives true c d ∷ rest) st label = inr (inr (inr refl))
  loop-other (arrives false c d ∷ rest) st label =
      let st' = (process lib c d st).0 in
      IsOtherKept-trans label st.messages_processed st'.messages_processed
        (loop lib rest st').state.messages_processed (process-other lib c d st label)
        (loop-other rest st' label)

  loop-elapsed :
      (signals : List (Signal S)) (st : State S) → (loop lib signals st).durations ≡ elapsed signals
  unfolding loop
  loop-elapsed [] st = refl
  loop-elapsed (shutdown ∷ rest) st = refl
  loop-elapsed (closed ∷ rest) st = refl
  loop-elapsed (arrives true c d ∷ rest) st = refl
  loop-elapsed (arrives false c d ∷ rest) st =
      ap (◌∷◌ (since c.started c.finished)) (loop-elapsed rest (process lib c d st).0)

  -- Every delivery that a run of the loop settles is counted once, under one of the three labels of the
  -- counter, "success", "permanent" and "transient", and no other label gains anything; the histogram
  -- observes once, in their order, how long each delivery took from its start to its end, and nothing
  -- else, so that it holds as many deliveries as the three labels gain together.
  pub loop-metrics :
      (signals : List (Signal S)) (st : State S) (label : String)
      → let out = loop lib signals st in
        (processed_in_all out.state.messages_processed
          ≡ processed_in_all st.messages_processed + settled_deliveries out.log)
        × (length out.durations ≡ settled_deliveries out.log)
        × (out.durations ≡ elapsed signals)
        × ((label ≡ "success")
            ⊎ (label ≡ "permanent")
            ⊎ (label ≡ "transient")
            ⊎ (out.state.messages_processed label ≡ st.messages_processed label))
  loop-metrics signals st label = (
    loop-processed_in_all signals st,
    loop-durations signals st,
    loop-elapsed signals st,
    loop-other signals st label,
  )

  -- A shutdown request ends a loop that still runs, with nil: what the loop has done with the
  -- signals before it stands, and the signals behind it are not taken.
  pub loop-shutdown :
      (taken later : List (Signal S)) (st : State S)
      → (loop lib taken st).exit ≡ running
      → loop lib (taken ++ shutdown ∷ later) st ≡ record (loop lib taken st) { exit = stopped }
  unfolding loop
  loop-shutdown [] later st h = refl
  loop-shutdown (shutdown ∷ rest) later st h = absurd (cc)
  loop-shutdown (closed ∷ rest) later st h = absurd (cc)
  loop-shutdown (arrives true c d ∷ rest) later st h = absurd (cc)
  loop-shutdown (arrives false c d ∷ rest) later st h =
      rw (loop-shutdown rest later (process lib c d st).0 h) refl
