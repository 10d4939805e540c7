-- ===== src/Operation/Run.antt =====
-- internal/operation/service.go: the life of an operation, from `Submit` over the two halves of
-- `runStep` to `Cancel`, `Resume` and the recovery at start.
pub mod Create
pub mod Keeps
use mcpx.Base.{
  ℕ, Bool, true, false, not, ◌&&◌, ◌||◌, Option, none, some, List, [], ◌∷◌, ◌++◌, map,
  if◌then◌else◌, any, ltb, ◌==◌, Bytes, codes, str_eq, is_blank,
}
use mcpx.Operation.State.{
  State, queued, running, succeeded, failed, waiting_confirmation, interrupted, cancelled, terminal,
  is_queued, is_waiting, Arguments, Value, StepSpec, SubmitSpec, StepRecord, Record,
}
use mcpx.Operation.Cell.{
  Active, Cell, contains, remove, enqueue_ready, persist_state, mark_step_running, Finish,
  finish_step,
}

pub data Error : Type 0 where
  not_found invalid_spec already_completed not_active confirmation result_expired : Error

-- The order of `ORDER BY step_id`: byte by byte.
unfoldable pub bytes_le : Bytes → Bytes → Bool
bytes_le [] b = true
bytes_le (x ∷ a) [] = false
bytes_le (x ∷ a) (y ∷ b) = ltb x y || (x == y && bytes_le a b)

unfoldable pub insert_by_id : StepRecord → List StepRecord → List StepRecord
unfolding bytes_le
insert_by_id s [] = s ∷ []
insert_by_id s (t ∷ steps) =
    let rest = insert_by_id s steps in if bytes_le s.id t.id then s ∷ t ∷ steps else t ∷ rest

-- The row that `Submit` inserts for a step.
unfoldable pub new_step : ℕ → StepSpec → StepRecord
new_step now s = record {
  id = s.id;
  tool = s.tool;
  arguments = s.arguments;
  depends_on = s.depends_on;
  exclusive = s.exclusive;
  state = queued;
  result = codes "{}";
  error = codes "{}";
  confirmation_token = [];
  created_at = now;
  started_at = none;
  completed_at = none;
}

unfoldable pub new_steps : ℕ → List StepSpec → List StepRecord
unfolding new_step insert_by_id
new_steps now [] = []
new_steps now (s ∷ specs) = insert_by_id (new_step now s) (new_steps now specs)

-- What `Submit` stores and keeps for a new operation, before its first `enqueueReady`.
unfoldable pub new_cell : ℕ → SubmitSpec → Cell
unfolding new_steps
new_cell now spec = record {
  row = record {
    id = spec.id;
    remote_session_id = spec.remote_session_id;
    workspace_name = spec.workspace_name;
    purpose = spec.purpose;
    state = queued;
    created_at = now;
    started_at = none;
    completed_at = none;
    steps = new_steps now spec.steps;
  };
  active =
      some
        (record { specs = spec.steps; enqueued = []; step_cancel = []; cancel_requested = false });
  pending = [];
}

has_spec : Bytes → List StepSpec → Bool
has_spec id [] = false
has_spec id (s ∷ specs) = str_eq s.id id || has_spec id specs

-- The early returns of `runStep`; `claimed` is what `markStepRunning` answers.
refuses : Bytes → Active → Bool → Bool
unfolding has_spec
refuses id a claimed = a.cancel_requested || not (has_spec id a.specs) || not claimed

begin_active : ℕ → Bytes → Cell → Active → Cell × Bool
unfolding refuses
begin_active now id c a =
    let (row, claimed) = mark_step_running now id c.row in
    if refuses id a claimed then (c, false) else (
      record c { row = row; active = some (record a { step_cancel = id ∷ a.step_cancel }) },
      true,
    )

-- The first critical section of `runStep`. The flag tells whether the executor is called.
pub begin_step : ℕ → Bytes → Cell → Cell × Bool
unfolding begin_active
begin_step now id c = elim c.active [ none ↦ (c, false) | some a ↦ begin_active now id c a ]

-- result.Err, as far as `runStep` tells errors apart.
pub data ExecError : Type 0 where
  no_error effects_unconfirmed context_canceled other : ExecError

pub record ExecuteResult : Type 0 where
  pub result : Bytes
  pub waiting_confirmation : Bool
  pub confirmation_token : Bytes
  pub error : ExecError
  pub error_json : Bytes

abbrev pub outcome : Bool → Bool → ExecError → State
outcome is_cancelled waits effects_unconfirmed = interrupted
outcome true waits e = cancelled
outcome false waits context_canceled = cancelled
outcome false true e = waiting_confirmation
outcome false false no_error = succeeded
outcome false false other = failed

abbrev is_cancelled : Option Active → Bool
is_cancelled none = false
is_cancelled (some a) = a.cancel_requested

abbrev drop_cancel : Bytes → Option Active → Option Active
drop_cancel id none = none
drop_cancel id (some a) = some (record a { step_cancel = remove id a.step_cancel })

-- newID is random: `fresh` is its value.
abbrev token_for : State → Bytes → Bytes → Bytes
token_for waiting_confirmation [] fresh = fresh
token_for state token fresh = token

-- errorJSON
abbrev error_doc : ExecError → Bytes → Bytes
error_doc no_error doc = codes "{}"
error_doc e doc = doc

-- The second critical section of `runStep`.
pub finish_locked : ℕ → Bytes → Bytes → ExecuteResult → Cell → Cell
finish_locked now id fresh r c =
    let state = outcome (is_cancelled c.active) r.waiting_confirmation r.error in
    let finish : Finish = record {
      state = state;
      result = r.result;
      error = error_doc r.error r.error_json;
      confirmation_token = token_for state r.confirmation_token fresh;
    } in
    record c { row = finish_step now id finish c.row; active = drop_cancel id c.active }
