-- ===== src/Operation/Cell/Examples.antt =====
-- A chain of three steps behind a failure.
use mcpx.Base.{◌≡◌, refl, false, none, some, List, [], ◌∷◌, Bytes, codes}
use mcpx.Operation.State.{State, queued, running, failed, skipped, StepRecord, Record}
use mcpx.Operation.Cell.{Active, reconcile}
use mcpx.Operation.Cell.Chain.{IsChain, chain, reconcile-chain}

abbrev step_of : Bytes → List Bytes → State → StepRecord
step_of id deps s = record {
  id = id;
  tool = codes "edit";
  arguments = [];
  depends_on = deps;
  exclusive = false;
  state = s;
  result = codes "{}";
  error = codes "{}";
  confirmation_token = [];
  created_at = 1;
  started_at = none;
  completed_at = none;
}

abbrev a_failed : StepRecord
a_failed = step_of (codes "a") [] failed

abbrev b_queued : StepRecord
b_queued = step_of (codes "b") (codes "a" ∷ []) queued

abbrev c_queued : StepRecord
c_queued = step_of (codes "c") (codes "b" ∷ []) queued

abbrev row : Record
row = record {
  id = codes "op";
  remote_session_id = codes "s";
  workspace_name = codes "w";
  purpose = [];
  state = running;
  created_at = 1;
  started_at = some 1;
  completed_at = none;
  steps = [];
}

abbrev handle : Active
handle = record {
  specs = [];
  enqueued = codes "a" ∷ [];
  step_cancel = [];
  cancel_requested = false;
}

is_chain : IsChain row handle a_failed b_queued c_queued
is_chain = record {
  open_row = refl;
  not_cancelled = refl;
  x_failed = refl;
  y_queued = refl;
  z_queued = refl;
  y_after_x = refl;
  z_after_y = refl;
  x_not_y = refl;
}

reconcile-chain_example :
    ((reconcile 7 (chain row handle a_failed b_queued c_queued)).row.state ≡ running)
    × ((reconcile 7 (chain row handle a_failed b_queued c_queued)).row.steps
        ≡ a_failed ∷ record b_queued { state = skipped; completed_at = some 7 } ∷ c_queued ∷ [])
    × ((reconcile 7 (chain row handle a_failed b_queued c_queued)).pending ≡ [])
reconcile-chain_example = reconcile-chain 7 row handle a_failed b_queued c_queued is_chain
