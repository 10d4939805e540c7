-- ===== src/Operation/Aggregate.antt =====
-- internal/operation/service.go, aggregateState: the state of an operation from those of its steps.
pub mod Meaning
pub mod Examples
use mcpx.Base.{Bool, true, false, not, ◌&&◌, ◌||◌, List, [], ◌∷◌, if◌then◌else◌}
use mcpx.Operation.State.{
  State, queued, running, succeeded, failed, waiting_confirmation, interrupted, cancelled, skipped,
  StepRecord,
}

-- The variables of the loop.
pub record Flags : Type 0 where
  pub all_terminal : Bool
  pub any_running : Bool
  pub any_waiting : Bool
  pub any_failed : Bool
  pub any_interrupted : Bool

-- The `switch` of the loop; the last clause is `default`.
read_state : State → Flags → Flags
read_state queued f = record f { all_terminal = false }
read_state running f = record f { all_terminal = false; any_running = true }
read_state waiting_confirmation f = record f { all_terminal = false; any_waiting = true }
read_state failed f = record f { any_failed = true }
read_state cancelled f = record f { any_failed = true }
read_state interrupted f = record f { any_interrupted = true }
read_state succeeded f = f
read_state skipped f = f
read_state _ f = record f { all_terminal = false }

read_states : List StepRecord → Flags → Flags
read_states [] f = f
read_states (s ∷ steps) f = read_states steps (read_state s.state f)

abbrev start : Flags
start = record {
  all_terminal = true;
  any_running = false;
  any_waiting = false;
  any_failed = false;
  any_interrupted = false;
}

-- The chain of tests behind the loop.
verdict : Flags → State
verdict f =
    if any_interrupted && all_terminal
    then interrupted
    else if any_failed && not any_running && not any_waiting && all_terminal
    then failed
    else if any_running || (not all_terminal && not any_waiting)
    then running
    else if any_waiting
    then waiting_confirmation
    else if all_terminal
    then succeeded
    else queued
  where
    open f use {all_terminal, any_running, any_waiting, any_failed, any_interrupted}

unfoldable pub aggregate_state : List StepRecord → State
unfolding read_state read_states verdict
aggregate_state [] = failed
aggregate_state (s ∷ steps) = verdict (read_states (s ∷ steps) start)
