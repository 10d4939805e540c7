-- ===== src/Operation/Aggregate/Examples.antt =====
-- Three steps of which one was skipped.
use mcpx.Base.{◌≡◌, ◌≢◌, ◌↔◌, List, [], ◌∷◌, All, codes, false, none}
use mcpx.Operation.State.{State, succeeded, skipped, interrupted, StepRecord}
use mcpx.Operation.Aggregate.{aggregate_state}
use mcpx.Operation.Aggregate.Meaning.{
  summary, aggregate_state-eq-summary, IsDone, aggregate_state-succeeded,
}

abbrev step_in : State → StepRecord
step_in s = record {
  id = codes "a";
  tool = codes "edit";
  arguments = [];
  depends_on = [];
  exclusive = false;
  state = s;
  result = [];
  error = [];
  confirmation_token = [];
  created_at = 1;
  started_at = none;
  completed_at = none;
}

abbrev mixed : List StepRecord
mixed = step_in succeeded ∷ step_in interrupted ∷ []

aggregate_state-eq-summary_example : aggregate_state mixed ≡ summary mixed
aggregate_state-eq-summary_example = aggregate_state-eq-summary mixed

aggregate_state-succeeded_example :
    (aggregate_state (step_in skipped ∷ []) ≡ succeeded)
    ↔ ((step_in skipped ∷ [] ≢ []) × All IsDone (step_in skipped ∷ []))
aggregate_state-succeeded_example = aggregate_state-succeeded (step_in skipped ∷ [])
