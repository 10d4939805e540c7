-- ===== src/Operation/Cell.antt =====
-- internal/operation/service.go: what the service holds of one operation, and the bodies of its
-- critical sections. The row is the record of the tables `operations` and `operation_steps`, whose
-- statements all carry `WHERE operation_id = ?`; `active` is the entry of the map of running
-- operations; `pending` holds the step of each scheduled job of this operation that no worker has
-- begun: in the queue, in the channel or in a worker's hands.
pub mod Evolution
pub mod Ordered
pub mod Final
pub mod Chain
pub mod Examples
use mcpx.Base.{
  ℕ, Bool, true, false, not, ◌&&◌, ◌||◌, Option, none, some, List, [], ◌∷◌, ◌++◌, map,
  if◌then◌else◌, all, any, Bytes, codes, str_eq,
}
use mcpx.Operation.State.{
  State, queued, running, succeeded, failed, waiting_confirmation, interrupted, cancelled, skipped,
  unset, terminal, is_queued, is_succeeded, is_waiting, StepSpec, StepRecord, Record,
}
use mcpx.Operation.Aggregate.{aggregate_state}

-- `enqueued` lists the steps whose flag is true, `step_cancel` the steps with a cancel function.
pub record Active : Type 0 where
  pub specs : List StepSpec
  pub enqueued : List Bytes
  pub step_cancel : List Bytes
  pub cancel_requested : Bool

pub record Cell : Type 0 where
  pub row : Record
  pub active : Option Active
  pub pending : List Bytes

abbrev pub contains : Bytes → List Bytes → Bool
contains id ids = any (str_eq id) ids

unfoldable pub remove : Bytes → List Bytes → List Bytes
remove id [] = []
remove id (x ∷ xs) = let rest = remove id xs in if str_eq id x then rest else x ∷ rest

-- byID[id].State: a missing key reads as the zero value.
unfoldable pub state_of : Bytes → List StepRecord → State
state_of id [] = unset
state_of id (s ∷ steps) = if str_eq s.id id then s.state else state_of id steps

-- The test of the inner loop of `enqueueReady`.
unfoldable pub deps_succeeded : List StepRecord → List Bytes → Bool
deps_succeeded steps [] = true
deps_succeeded steps (d ∷ ds) = is_succeeded (state_of d steps) && deps_succeeded steps ds

-- The loop of `enqueueReady`: the steps that become jobs.
unfoldable pub ready_jobs : List StepRecord → List StepRecord → List Bytes → List Bytes
ready_jobs all_steps [] enqueued = []
ready_jobs all_steps (s ∷ steps) enqueued =
    let take_it =
      is_queued s.state && not (contains s.id enqueued) && deps_succeeded all_steps s.depends_on in
    let rest = ready_jobs all_steps steps (if take_it then s.id ∷ enqueued else enqueued) in
    if take_it then s.id ∷ rest else rest

unfoldable pub enqueue_active : List StepRecord → Cell → Active → Cell
enqueue_active steps c a =
    let jobs = ready_jobs steps steps a.enqueued in
    if a.cancel_requested then c else record c {
      active = some (record a { enqueued = jobs ++ a.enqueued });
      pending = c.pending ++ jobs;
    }

-- enqueueReady behind its `Get`, which holds no lock: `steps` is what it has read.
unfoldable pub enqueue_from : List StepRecord → Cell → Cell
unfolding enqueue_active
enqueue_from steps c = elim c.active [ none ↦ c | some a ↦ enqueue_active steps c a ]

-- enqueueReady
pub enqueue_ready : Cell → Cell
unfolding enqueue_from
enqueue_ready c = enqueue_from c.row.steps c

abbrev pub blocks : State → Bool
blocks failed = true
blocks cancelled = true
blocks interrupted = true
blocks skipped = true
blocks _ = false

pub any_blocks : List StepRecord → List Bytes → Bool
any_blocks steps [] = false
any_blocks steps (d ∷ ds) = blocks (state_of d steps) || any_blocks steps ds

-- One round of the loop of `reconcile` over the steps; `byID` is the snapshot `before`.
pub skip_blocked : ℕ → List StepRecord → StepRecord → StepRecord
skip_blocked now before s =
    if is_queued s.state && any_blocks before s.depends_on
    then record s { state = skipped; completed_at = some now }
    else s

abbrev marks_start : State → Bool
marks_start running = true
marks_start succeeded = true
marks_start failed = true
marks_start waiting_confirmation = true
marks_start _ = false

abbrev or_else : Option ℕ → ℕ → Option ℕ
or_else none now = some now
or_else (some t) now = some t

-- persistState: the statement leaves a terminal operation alone.
pub persist_state : ℕ → State → Record → Record
persist_state now state r = if terminal r.state then r else record r {
  state = state;
  started_at = if marks_start state then or_else r.started_at now else r.started_at;
  completed_at = if terminal state then some now else r.completed_at;
}

-- finishActive
pub finish_active : Cell → Cell
finish_active c = record c { active = none }

any_interrupted : List StepRecord → Bool
any_interrupted [] = false
any_interrupted (s ∷ steps) = elim s.state [ interrupted ↦ true | _ ↦ any_interrupted steps ]

abbrev no_steps_run : List Bytes → Bool
no_steps_run [] = true
no_steps_run (x ∷ xs) = false

-- The branch of `reconcile` for a cancelled operation.
reconcile_cancelled : ℕ → Cell → Active → Cell
unfolding any_interrupted
reconcile_cancelled now c a =
    if no_steps_run a.step_cancel
    then finish_active (record c {
      row =
          persist_state now (if any_interrupted c.row.steps then interrupted else cancelled) c.row;
    })
    else c

-- The other branch: skip, aggregate, persist. The flag is `enqueue`.
reconcile_open : ℕ → Cell → Cell × Bool
reconcile_open now c =
    let steps = map (skip_blocked now c.row.steps) c.row.steps in
    let state = aggregate_state steps in
    let c' = record c { row = persist_state now state (record c.row { steps = steps }) } in
    if terminal state then (finish_active c', false) else (c', true)

-- reconcile, up to the release of `reconcileMu`.
pub reconcile_locked : ℕ → Cell → Cell × Bool
unfolding reconcile_cancelled reconcile_open finish_active
reconcile_locked now c = elim c.active [
  | none ↦ reconcile_open now c
  | some a ↦
      if a.cancel_requested then (reconcile_cancelled now c a, false) else reconcile_open now c
]

-- reconcile
pub reconcile : ℕ → Cell → Cell
unfolding reconcile_locked
reconcile now c =
    let (c', enqueue) = reconcile_locked now c in if enqueue then enqueue_ready c' else c'

pub starts : Bytes → StepRecord → Bool
starts id s = str_eq s.id id && is_queued s.state

pub start_step : ℕ → Bytes → StepRecord → StepRecord
unfolding starts
start_step now id s = if starts id s then record s { state = running; started_at = some now } else s

-- markStepRunning: the flag is false where no queued step has this ID.
pub mark_step_running : ℕ → Bytes → Record → Record × Bool
unfolding starts start_step
mark_step_running now id r =
    let steps = map (start_step now id) r.steps in
    if any (starts id) r.steps
    then (
      if is_queued r.state || is_waiting r.state
          then record r { state = running; started_at = or_else r.started_at now; steps = steps }
          else record r { steps = steps },
      true,
    )
    else (r, false)

-- What `finishStep` writes into a step.
pub record Finish : Type 0 where
  pub state : State
  pub result : Bytes
  pub error : Bytes
  pub confirmation_token : Bytes

-- An empty document is stored as an empty object.
abbrev or_object : Bytes → Bytes
or_object [] = codes "{}"
or_object (b ∷ bs) = b ∷ bs

pub write_finish : ℕ → Bytes → Finish → StepRecord → StepRecord
write_finish now id f s =
    if str_eq s.id id
    then record s {
      state = f.state;
      result = or_object f.result;
      error = or_object f.error;
      confirmation_token = f.confirmation_token;
      completed_at = some now;
    }
    else s

-- finishStep: it tests neither the step's state nor the operation's.
pub finish_step : ℕ → Bytes → Finish → Record → Record
unfolding write_finish
finish_step now id f r = record r { steps = map (write_finish now id f) r.steps }
