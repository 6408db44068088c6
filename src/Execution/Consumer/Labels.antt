-- ===== src/Execution/Consumer/Labels.antt =====
-- The labels of the counter of internal/execution/consumer.go.
use investment_engine.Prelude.{
  String, Bool-cases, ◌⊎◌, inl, inr, sym, ◌∙◌, Option, none, some, ◌≡◌, refl,
}
use text.Mathlib.Text.{◌==◌ as str_eq}
use text.Mathlib.TextEquality.{eq_iff}
use investment_engine.Execution.Failure.{
  FailureKind, permanent_failure, transient_failure, to_string, classify_failure,
}
use investment_engine.GoError.{GoError}
use investment_engine.Execution.Handler.{handle_order_created}
use investment_engine.Execution.Consumer.{
  increment, Delivery, Libraries, Circumstances, Counter, State, process, settle,
}

-- A label keeps its count unless it is one of the three that the consumer has.
abbrev pub IsOtherKept : String → Counter → Counter → Type 0
IsOtherKept label m m' =
    (label ≡ "success") ⊎ (label ≡ "permanent") ⊎ (label ≡ "transient") ⊎ (m' label ≡ m label)

increment-other : (x label : String) (m : Counter) → (label ≡ x) ⊎ (increment x m label ≡ m label)
unfolding increment
increment-other x label m = elim (Bool-cases (str_eq x label)) [
  | inl same ↦ inl (sym ((eq_iff x label).0 same))
  | inr other ↦ inr (rw other refl)
]

settle-other :
    {S : Type 0} (lib : Libraries) (c : Circumstances S) (d : Delivery) (m : Counter)
    (e : Option GoError) (s : S) (label : String)
    → IsOtherKept label m (settle lib c d m e s).0.messages_processed
unfolding to_string
settle-other lib c d m none s label = elim (increment-other "success" label m) [
  | inl same ↦ inl same
  | inr kept ↦ inr (inr (inr kept))
]
settle-other lib c d m (some e) s label = failed-other (classify_failure lib.status_code e) label m
  where
    failed-other :
        (failure : FailureKind) (label : String) (m : Counter)
        → IsOtherKept label m (increment (to_string failure) m)
    failed-other permanent_failure label m = elim (increment-other "permanent" label m) [
      | inl same ↦ inr (inl same)
      | inr kept ↦ inr (inr (inr kept))
    ]
    failed-other transient_failure label m = elim (increment-other "transient" label m) [
      | inl same ↦ inr (inr (inl same))
      | inr kept ↦ inr (inr (inr kept))
    ]

pub IsOtherKept-trans :
    (label : String) (m m' m'' : Counter)
    → IsOtherKept label m m'
    → IsOtherKept label m' m''
    → IsOtherKept label m m''
IsOtherKept-trans label m m' m'' (inl h) k = inl h
IsOtherKept-trans label m m' m'' (inr (inl h)) k = inr (inl h)
IsOtherKept-trans label m m' m'' (inr (inr (inl h))) k = inr (inr (inl h))
IsOtherKept-trans label m m' m'' (inr (inr (inr h))) (inl k) = inl k
IsOtherKept-trans label m m' m'' (inr (inr (inr h))) (inr (inl k)) = inr (inl k)
IsOtherKept-trans label m m' m'' (inr (inr (inr h))) (inr (inr (inl k))) = inr (inr (inl k))
IsOtherKept-trans label m m' m'' (inr (inr (inr h))) (inr (inr (inr k))) = inr (inr (inr (k ∙ h)))

pub process-other :
    {S : Type 0} (lib : Libraries) (c : Circumstances S) (d : Delivery) (st : State S)
    (label : String)
    → IsOtherKept label st.messages_processed (process lib c d st).0.messages_processed
unfolding process
process-other lib c d st label =
    let (e, s) = handle_order_created c.store lib.unmarshal c.prices d.body st.store in
    settle-other lib c d st.messages_processed e s label
