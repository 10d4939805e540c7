-- ===== src/Operation/State.antt =====
-- internal/operation/types.go: the lifecycle states, the submitted specification and the records.
use mcpx.Base.{ℕ, Bool, true, false, Option, List, Bytes}

-- `unset` is the zero value "" of a record that a map does not hold; it also stands for any string
-- that is none of the named states.
pub data State : Type 0 where
  queued running succeeded failed waiting_confirmation interrupted cancelled skipped unset : State

pub State-discrete : Discrete State
State-discrete = hlevel

-- State.terminal
abbrev pub terminal : State → Bool
terminal succeeded = true
terminal failed = true
terminal interrupted = true
terminal cancelled = true
terminal _ = false

abbrev pub is_queued : State → Bool
is_queued queued = true
is_queued _ = false

abbrev pub is_succeeded : State → Bool
is_succeeded succeeded = true
is_succeeded _ = false

abbrev pub is_waiting : State → Bool
is_waiting waiting_confirmation = true
is_waiting _ = false

-- One argument of a step: an opaque value of the caller, or one that `Resume` writes.
pub data Value : Type 0 where
  json : Bytes → Value
  text : Bytes → Value
  flag : Bool → Value

abbrev pub Arguments : Type 0
Arguments = List (Bytes × Value)

pub record StepSpec : Type 0 where
  pub id : Bytes
  pub tool : Bytes
  pub arguments : Arguments
  pub depends_on : List Bytes
  pub exclusive : Bool

pub record SubmitSpec : Type 0 where
  pub run_id : Bytes
  pub id : Bytes
  pub remote_session_id : Bytes
  pub workspace_name : Bytes
  pub request_id : Bytes
  pub purpose : Bytes
  pub steps : List StepSpec

-- Times are milliseconds since the epoch, `none` for SQL's NULL.
pub record StepRecord : Type 0 where
  pub id : Bytes
  pub tool : Bytes
  pub arguments : Arguments
  pub depends_on : List Bytes
  pub exclusive : Bool
  pub state : State
  pub result : Bytes
  pub error : Bytes
  pub confirmation_token : Bytes
  pub created_at : ℕ
  pub started_at : Option ℕ
  pub completed_at : Option ℕ

pub record Record : Type 0 where
  pub id : Bytes
  pub remote_session_id : Bytes
  pub workspace_name : Bytes
  pub purpose : Bytes
  pub state : State
  pub created_at : ℕ
  pub started_at : Option ℕ
  pub completed_at : Option ℕ
  pub steps : List StepRecord
