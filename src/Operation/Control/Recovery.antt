-- ===== src/Operation/Control/Recovery.antt =====
-- What a restart leaves behind.
use mcpx.Base.{ℕ, ◌≡◌, refl, Bool, true, false, List, [], ◌∷◌, map, arith, any}
use mcpx.Operation.State.{
  queued, running, waiting_confirmation, interrupted, is_queued, terminal, StepRecord, Record,
}
use mcpx.Operation.Control.{is_running, lost, interrupt_step, interrupt_steps, recover_interrupted}

abbrev pub unfinished : StepRecord → Bool
unfinished s = elim s.state [
  | queued ↦ true
  | running ↦ true
  | waiting_confirmation ↦ true
  | _ ↦ false
]

abbrev pub step_runs : StepRecord → Bool
step_runs s = elim s.state [ running ↦ true | _ ↦ false ]

interrupted_all :
    (now : ℕ) (steps : List StepRecord) → any unfinished (map (interrupt_step now) steps) ≡ false
unfolding interrupt_step
interrupted_all now [] = refl
interrupted_all now (s ∷ steps) = ground (arith, interrupted_all now steps)

none_runs : (steps : List StepRecord) → any is_running steps ≡ false → any step_runs steps ≡ false
unfolding is_running
none_runs [] h = refl
none_runs (s ∷ steps) h = ground (arith, none_runs steps)

-- What a recovered row is like: it does not count as queued or running, an interrupted operation
-- has no unfinished step, and one that still waits for the user has no running step.
pub record IsRecovered (r : Record) : Type 0 where
  pub not_queued : is_queued r.state ≡ false
  pub not_running : (r.state ≡ running) → ⊥
  pub interrupted_finished : r.state ≡ interrupted → any unfinished r.steps ≡ false
  pub waiting_idle : r.state ≡ waiting_confirmation → any step_runs r.steps ≡ false

-- Behind a recovery, whatever the row was, the operation is neither queued nor running; where it is
-- interrupted it has no unfinished step, and where it waits for a confirmation no step of it runs.
-- A terminal operation keeps its state.
pub recover_interrupted_lem :
    (now : ℕ) (r : Record)
    → IsRecovered (recover_interrupted now r)
      × (terminal r.state ≡ true → (recover_interrupted now r).state ≡ r.state)
unfolding recover_interrupted lost interrupt_steps
recover_interrupted_lem now r = (
  record {
    not_queued = ground arith;
    not_running = ground arith;
    interrupted_finished = ground (arith, interrupted_all now r.steps);
    waiting_idle = ground (arith, none_runs r.steps);
  },
  ground arith,
)
