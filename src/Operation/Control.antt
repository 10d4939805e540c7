-- ===== src/Operation/Control.antt =====
-- internal/operation/service.go: `Cancel`, `Resume` and `recoverInterrupted`.
pub mod Keeps
pub mod Cancelled
pub mod Examples
pub mod Recovery
use mcpx.Base.{
  ℕ, Bool, true, false, not, ◌&&◌, ◌||◌, Option, none, some, List, [], ◌∷◌, map, if◌then◌else◌, any,
  Bytes, codes, str_eq, is_blank,
}
use mcpx.Operation.State.{
  State, queued, running, succeeded, failed, waiting_confirmation, interrupted, cancelled, terminal,
  is_queued, is_waiting, Arguments, Value, text, flag, StepSpec, StepRecord, Record,
}
use mcpx.Operation.Cell.{Active, Cell, remove, enqueue_ready, reconcile, persist_state}

pub data Error : Type 0 where
  already_completed not_active confirmation_mismatch : Error

abbrev waits : State → Bool
waits s = is_queued s || is_waiting s

cancel_waiting : ℕ → StepRecord → StepRecord
cancel_waiting now s =
    if waits s.state then record s { state = cancelled; completed_at = some now } else s

request_cancel : Active → Active
request_cancel a = record a { cancel_requested = true }

-- The body of `Cancel` behind the test of the state, up to the deferred `reconcile`.
cancel_open : ℕ → Cell → Cell
unfolding cancel_waiting request_cancel
cancel_open now c =
    let row = record c.row { steps = map (cancel_waiting now) c.row.steps } in
    elim c.active [
      | none ↦ record c { row = persist_state now cancelled row }
      | some a ↦ record c { row = row; active = some (request_cancel a) }
    ]

-- The critical section of `Cancel`.
pub cancel_locked : ℕ → Cell → Cell × Option Error
unfolding cancel_open
cancel_locked now c =
    if terminal c.row.state then (c, some already_completed) else (cancel_open now c, none)

-- Cancel: the deferred `reconcile` runs on the error path too.
pub cancel : ℕ → Cell → Cell × Option Error
unfolding cancel_locked
cancel now c = let (c', e) = cancel_locked now c in (reconcile now c', e)

-- The step that `Resume` may requeue: the first with this ID, if it waits under this token.
awaited : Bytes → Bytes → List StepRecord → Bool
awaited id token [] = false
awaited id token (s ∷ steps) =
    if str_eq s.id id
    then is_waiting s.state && str_eq s.confirmation_token token
    else awaited id token steps

requeue : Bytes → Bytes → StepRecord → StepRecord
requeue id token s =
    if str_eq s.id id && is_waiting s.state && str_eq s.confirmation_token token
    then record s {
      state = queued;
      error = codes "{}";
      confirmation_token = [];
      completed_at = none;
    }
    else s

-- stepSpec.Arguments[key] = value
set_argument : Bytes → Value → Arguments → Arguments
set_argument key value [] = (key, value) ∷ []
set_argument key value ((k, v) ∷ args) =
    if str_eq k key then (key, value) ∷ args else (k, v) ∷ set_argument key value args

confirm_spec : Bytes → Bytes → StepSpec → StepSpec
unfolding set_argument
confirm_spec id token s =
    if str_eq s.id id
    then record s {
      arguments =
          set_argument (codes "user_confirmed") (flag true)
            (set_argument (codes "confirmation_token") (text token) s.arguments);
    }
    else s

spec_of : StepRecord → StepSpec
spec_of s = record {
  id = s.id;
  tool = s.tool;
  arguments = s.arguments;
  depends_on = s.depends_on;
  exclusive = s.exclusive;
}

-- restoreActiveLocked
restore_active : List StepRecord → Active
unfolding spec_of
restore_active steps = record {
  specs = map spec_of steps;
  enqueued = [];
  step_cancel = [];
  cancel_requested = false;
}

active_or_restored : Option Active → List StepRecord → Active
unfolding restore_active
active_or_restored none steps = restore_active steps
active_or_restored (some a) steps = a

resume_active : Bytes → Bytes → Active → Active
unfolding confirm_spec
resume_active id token a = record a {
  specs = map (confirm_spec id token) a.specs;
  enqueued = remove id a.enqueued;
  cancel_requested = false;
}

abbrev cancel_pending : Option Active → Bool
cancel_pending none = false
cancel_pending (some a) = a.cancel_requested

abbrev is_absent : Option Active → Bool
is_absent none = true
is_absent (some a) = false

-- The writes of `Resume`.
resume_open : Bytes → Bytes → Cell → Cell
unfolding requeue active_or_restored resume_active
resume_open id token c = record c {
  row = record c.row {
    state = queued;
    completed_at = none;
    steps = map (requeue id token) c.row.steps;
  };
  active = some (resume_active id token (active_or_restored c.active c.row.steps));
}

-- Resume up to its `enqueueReady`. `has_executor` tells whether the caller passes one.
pub resume_locked : Bytes → Bytes → Bool → Cell → Cell × Option Error
unfolding awaited resume_open
resume_locked id token has_executor c =
    if is_blank id || is_blank token
    then (c, some confirmation_mismatch)
    else if terminal c.row.state
    then (c, some already_completed)
    else if not (awaited id token c.row.steps)
    then (c, some confirmation_mismatch)
    else if cancel_pending c.active
    then (c, some already_completed)
    else if is_absent c.active && not has_executor
    then (c, some not_active)
    else (resume_open id token c, none)

abbrev enqueued_if : Cell → Option Error → Cell
enqueued_if c none = enqueue_ready c
enqueued_if c (some e) = c

-- Resume
pub resume : Bytes → Bytes → Bool → Cell → Cell × Option Error
unfolding resume_locked
resume id token has_executor c =
    let (c', e) = resume_locked id token has_executor c in (enqueued_if c' e, e)

is_running : StepRecord → Bool
is_running s = elim s.state [ running ↦ true | _ ↦ false ]

-- The first statement's condition: only a purely waiting graph survives.
lost : Record → Bool
unfolding is_running
lost r = elim r.state [
  | queued ↦ true
  | running ↦ true
  | waiting_confirmation ↦ any is_running r.steps
  | _ ↦ false
]

interrupt_step : ℕ → StepRecord → StepRecord
unfolding is_running
interrupt_step now s =
    if waits s.state || is_running s
    then record s { state = interrupted; completed_at = some now }
    else s

-- The second statement is restricted to interrupted operations.
interrupt_steps : ℕ → Record → Record
unfolding interrupt_step
interrupt_steps now r = elim r.state [
  | interrupted ↦ record r { steps = map (interrupt_step now) r.steps }
  | _ ↦ r
]

-- recoverInterrupted, for one operation.
pub recover_interrupted : ℕ → Record → Record
unfolding lost interrupt_steps
recover_interrupted now r =
    interrupt_steps now
      (if lost r then record r { state = interrupted; completed_at = some now } else r)

-- A new process: it recovers the rows, and starts with no active operation and no job.
pub restart : ℕ → Cell → Cell
restart now c = record { row = recover_interrupted now c.row; active = none; pending = [] }
