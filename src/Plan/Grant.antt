-- ===== src/Plan/Grant.antt =====
-- internal/plan/run_grant.go: the grants, the tables they stand in, and computeEffective. Times are
-- milliseconds, as the tables keep them.
use mcpx.Base.{
  ℕ, ◌+◌, Bool, true, false, ◌&&◌, Option, none, some, List, [], ◌∷◌, if◌then◌else◌, leb, any,
  Bytes, str_eq,
}

pub data Status : Type 0 where
  active revoked superseded : Status

pub data Effective : Type 0 where
  effective_active effective_revoked effective_superseded : Effective
  expired runtime_exhausted tokens_exhausted attempts_exhausted plan_closed : Effective

-- internal/plan/types.go
pub data PlanStatus : Type 0 where
  ready in_progress blocked completed cancelled : PlanStatus

pub record RunGrant : Type 0 where
  pub id : Bytes
  pub plan : Bytes
  pub session : Bytes
  pub status : Status
  pub repositories : List Bytes
  pub auto_merge_max_risk : Bytes
  pub max_tokens : ℕ
  pub tokens_used : ℕ
  pub max_runtime_ms : ℕ
  pub max_attempts : ℕ
  pub attempts_used : ℕ
  pub expires_at : ℕ
  pub first_used_at : Option ℕ
  pub note : Bytes
  pub created_by : Bytes
  pub created_at : ℕ
  pub updated_at : ℕ
  pub ended_by : Bytes
  pub ended_at : Option ℕ
  pub end_reason : Bytes

pub record PlanHeader : Type 0 where
  pub plan_id : Bytes
  pub plan_session : Bytes
  pub plan_status : PlanStatus

pub record TaskHeader : Type 0 where
  pub task_id : Bytes
  pub task_plan : Bytes

-- A row of plan_task_multica_dispatches; `dispatched` is its status's being "dispatched".
pub record Dispatch : Type 0 where
  pub dispatch_task : Bytes
  pub dispatch_plan : Bytes
  pub dispatch_session : Bytes
  pub dispatched : Bool

-- A row of plan_run_grant_uses.
pub record GrantUse : Type 0 where
  pub use_grant : Bytes
  pub use_task : Bytes
  pub key_hash : Bytes
  pub use_repository : Bytes
  pub use_risk : Bytes
  pub attempt_consumed : Bool
  pub use_principal : Bytes
  pub use_at : ℕ

pub data Event : Type 0 where
  grant_superseded : (previous next : Bytes) → Event
  grant_created : (id : Bytes) → Event
  grant_revoked : (id reason : Bytes) → Event
  usage_reported : (id : Bytes) (total before : ℕ) → Event
  grant_fallback : (id task : Bytes) → Event
  grant_used : (id task : Bytes) (consumed replay : Bool) → Event

pub record Tables : Type 0 where
  pub plans : List PlanHeader
  pub tasks : List TaskHeader
  pub dispatches : List Dispatch
  pub grants : List RunGrant
  pub uses : List GrantUse
  pub events : List Event

abbrev pub is_active : Status → Bool
is_active active = true
is_active _ = false

abbrev pub is_closed : PlanStatus → Bool
is_closed completed = true
is_closed cancelled = true
is_closed _ = false

unfoldable pub past_deadline : ℕ → ℕ → Option ℕ → Bool
past_deadline now runtime none = false
past_deadline now runtime (some first) = leb (first + runtime) now

unfoldable pub effective_of : Status → Bool → Bool → Bool → Bool → Bool → Effective
effective_of revoked closed late overrun broke spent = effective_revoked
effective_of superseded closed late overrun broke spent = effective_superseded
effective_of active closed late overrun broke spent =
    if closed
    then plan_closed
    else if late
    then expired
    else if overrun
    then runtime_exhausted
    else if broke
    then tokens_exhausted
    else if spent
    then attempts_exhausted
    else effective_active

-- computeEffective
unfoldable pub compute_effective : ℕ → PlanStatus → RunGrant → Effective
unfolding effective_of past_deadline
compute_effective now plan g =
    effective_of g.status (is_closed plan) (leb g.expires_at now)
      (past_deadline now g.max_runtime_ms g.first_used_at) (leb g.max_tokens g.tokens_used)
      (leb g.max_attempts g.attempts_used)

-- loadPlanHeader
unfoldable pub load_plan_header : Bytes → Bytes → List PlanHeader → Option PlanHeader
load_plan_header session plan [] = none
load_plan_header session plan (p ∷ plans) =
    if str_eq p.plan_id plan && str_eq p.plan_session session
    then some p
    else load_plan_header session plan plans

-- loadActiveRunGrant
unfoldable pub load_active_run_grant : Bytes → Bytes → List RunGrant → Option RunGrant
load_active_run_grant session plan [] = none
load_active_run_grant session plan (g ∷ grants) =
    if str_eq g.session session && str_eq g.plan plan && is_active g.status
    then some g
    else load_active_run_grant session plan grants

-- findTaskHeader
unfoldable pub find_task_header : Bytes → Bytes → List TaskHeader → Bool
find_task_header plan task tasks =
    any (λ (t : TaskHeader). str_eq t.task_id task && str_eq t.task_plan plan) tasks

-- UPDATE plan_run_grants ... WHERE id = ?
unfoldable pub update_grant : Bytes → (RunGrant → RunGrant) → List RunGrant → List RunGrant
update_grant id change [] = []
update_grant id change (g ∷ grants) =
    (if str_eq g.id id then change g else g) ∷ update_grant id change grants

-- The same with `AND status = 'active'`: the end of a grant.
unfoldable pub end_grant : Status → Bytes → Bytes → ℕ → RunGrant → RunGrant
end_grant status principal reason now g =
    if is_active g.status
    then record g {
      status = status;
      ended_by = principal;
      ended_at = some now;
      end_reason = reason;
      updated_at = now;
    }
    else g

pub data Failure : Type 0 where
  invalid_input invalid_state not_found grant_not_found database : Failure
