-- ===== src/Operation/Control/Examples.antt =====
-- A waiting operation, cancelled and recovered.
use mcpx.Base.{◌≡◌, refl, true, false, none, some, [], ◌∷◌, codes, if◌then◌else◌}
use mcpx.Operation.State.{waiting_confirmation, terminal, StepRecord, Record}
use mcpx.Operation.Cell.{Cell}
use mcpx.Operation.Control.{cancel, recover_interrupted, already_completed}
use mcpx.Operation.Control.Cancelled.{cancel_ends}
use mcpx.Operation.Control.Recovery.{IsRecovered, recover_interrupted_lem}

abbrev pub waiting_step : StepRecord
waiting_step = record {
  id = codes "a";
  tool = codes "edit";
  arguments = [];
  depends_on = [];
  exclusive = false;
  state = waiting_confirmation;
  result = codes "{}";
  error = codes "{}";
  confirmation_token = codes "t";
  created_at = 1;
  started_at = some 2;
  completed_at = some 3;
}

abbrev pub waiting_row : Record
waiting_row = record {
  id = codes "op";
  remote_session_id = codes "s";
  workspace_name = codes "w";
  purpose = [];
  state = waiting_confirmation;
  created_at = 1;
  started_at = some 2;
  completed_at = none;
  steps = waiting_step ∷ [];
}

abbrev pub idle : Cell
idle = record { row = waiting_row; active = none; pending = [] }

cancel_ends_example :
    (terminal (cancel 8 idle).0.row.state ≡ true)
    × ((cancel 8 idle).1 ≡ (if terminal idle.row.state then some already_completed else none))
    × (terminal idle.row.state ≡ true → (cancel 8 idle).0.row.state ≡ idle.row.state)
cancel_ends_example = cancel_ends 8 idle refl

recover_interrupted_lem_example :
    IsRecovered (recover_interrupted 9 waiting_row)
    × (terminal waiting_row.state ≡ true
        → (recover_interrupted 9 waiting_row).state ≡ waiting_row.state)
recover_interrupted_lem_example = recover_interrupted_lem 9 waiting_row
