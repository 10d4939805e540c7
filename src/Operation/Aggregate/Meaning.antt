-- ===== src/Operation/Aggregate/Meaning.antt =====
-- What the aggregated state of an operation says of its steps.
use mathlib.Core.List.{cons-ne-nil}
use mcpx.Base.{
  ◌≡◌, refl, ◌≢◌, ◌↔◌, ◌⊎◌, Bool, true, false, ◌&&◌, ◌||◌, List, [], ◌∷◌, arith, if◌then◌else◌, all,
  any, All,
}
use mcpx.Operation.State.{
  State, queued, running, succeeded, failed, waiting_confirmation, interrupted, cancelled, skipped,
  unset, StepRecord,
}
use mcpx.Operation.Aggregate.{Flags, read_state, read_states, start, verdict, aggregate_state}

-- A step that will not change any more by itself.
abbrev pub settled : StepRecord → Bool
settled s = elim s.state [
  | queued ↦ false
  | running ↦ false
  | waiting_confirmation ↦ false
  | unset ↦ false
  | _ ↦ true
]

abbrev pub is_running : StepRecord → Bool
is_running s = elim s.state [ running ↦ true | _ ↦ false ]

abbrev pub awaits_user : StepRecord → Bool
awaits_user s = elim s.state [ waiting_confirmation ↦ true | _ ↦ false ]

abbrev pub went_wrong : StepRecord → Bool
went_wrong s = elim s.state [ failed ↦ true | cancelled ↦ true | _ ↦ false ]

abbrev pub was_interrupted : StepRecord → Bool
was_interrupted s = elim s.state [ interrupted ↦ true | _ ↦ false ]

-- The contract, in terms of "all steps" and "some step" and with no loop.
abbrev pub summary : List StepRecord → State
summary [] = failed
summary (s ∷ r) =
    let steps = s ∷ r in
    if all settled steps
    then (if any was_interrupted steps
        then interrupted
        else if any went_wrong steps
        then failed
        else succeeded)
    else if any is_running steps
    then running
    else if any awaits_user steps
    then waiting_confirmation
    else running

read_states_lem :
    (steps : List StepRecord) (f : Flags)
    → read_states steps f ≡ record {
      all_terminal = f.all_terminal && all settled steps;
      any_running = f.any_running || any is_running steps;
      any_waiting = f.any_waiting || any awaits_user steps;
      any_failed = f.any_failed || any went_wrong steps;
      any_interrupted = f.any_interrupted || any was_interrupted steps;
    }
unfolding read_states read_state
read_states_lem [] f = ground arith
read_states_lem (s ∷ steps) f = ground (arith, read_states_lem steps (read_state s.state f))

settled_quiet :
    (steps : List StepRecord)
    → all settled steps ≡ true
    → (any is_running steps ≡ false) × (any awaits_user steps ≡ false)
settled_quiet [] h = (refl, refl)
settled_quiet (s ∷ steps) h =
    let (hr, hw) = settled_quiet steps (ground arith) in (ground arith, ground arith)

-- The tests in their order and in the order of the contract agree where settled steps are quiet.
verdict_lem :
    (t r w f i : Bool)
    → (t ≡ true → (r ≡ false) × (w ≡ false))
    → verdict (record {
      all_terminal = t;
      any_running = r;
      any_waiting = w;
      any_failed = f;
      any_interrupted = i;
    })
      ≡ (if t
          then (if i then interrupted else if f then failed else succeeded)
          else if r
          then running
          else if w
          then waiting_confirmation
          else running)
unfolding verdict
verdict_lem true r w f i h = ground (arith, h refl)
verdict_lem false r w f i h = ground arith

-- For every list of steps, the loop over their states and its verdict give the state that the
-- contract `summary` reads off which states occur among them.
pub aggregate_state-eq-summary : (steps : List StepRecord) → aggregate_state steps ≡ summary steps
unfolding aggregate_state
aggregate_state-eq-summary [] = refl
aggregate_state-eq-summary (s ∷ steps) =
    rw (read_states_lem (s ∷ steps) start) (verdict_lem _ _ _ _ _ (settled_quiet (s ∷ steps)))

abbrev pub IsDone : StepRecord → Type 0
IsDone s = (s.state ≡ succeeded) ⊎ (s.state ≡ skipped)

all-IsDone :
    (steps : List StepRecord)
    → all settled steps ≡ true
    → any was_interrupted steps ≡ false
    → any went_wrong steps ≡ false
    → All IsDone steps
all-IsDone [] a i w = tt
all-IsDone (s ∷ steps) a i w =
    (ground arith, all-IsDone steps (ground arith) (ground arith) (ground arith))

settled_of_IsDone :
    (steps : List StepRecord)
    → All IsDone steps
    → (all settled steps ≡ true)
      × (any was_interrupted steps ≡ false)
      × (any went_wrong steps ≡ false)
settled_of_IsDone [] h = (refl, refl, refl)
settled_of_IsDone (s ∷ steps) (h, hs) = ground (arith, settled_of_IsDone steps hs)

-- An operation has succeeded exactly when it has a step and every step succeeded or was skipped.
pub aggregate_state-succeeded :
    (steps : List StepRecord)
    → (aggregate_state steps ≡ succeeded) ↔ ((steps ≢ []) × All IsDone steps)
aggregate_state-succeeded [] = (λ h. cc (aggregate_state-eq-summary []), λ h. absurd (h.0 refl))
aggregate_state-succeeded (s ∷ steps) = (
  λ h. (
    cons-ne-nil s steps,
    all-IsDone (s ∷ steps) (ground (arith, e, h)) (ground (arith, e, h)) (ground (arith, e, h)),
  ),
  λ h. ground (arith, e, settled_of_IsDone (s ∷ steps) h.1),
)
  where
    e : aggregate_state (s ∷ steps) ≡ summary (s ∷ steps)
    e = aggregate_state-eq-summary (s ∷ steps)
