-- ===== src/Plan/Authorize.antt =====
-- internal/plan/run_grant.go: AuthorizeRunGrantUse. The hash of the key (SHA-256, in hexadecimal) and
-- strings.ToLower are parameters; `fails` is as for the other calls.
pub mod Covered
pub mod Retry
use mcpx.Base.{
  ℕ, ◌+◌, Bool, true, false, not, ◌&&◌, ◌||◌, Option, none, some, List, [], ◌∷◌, ◌++◌,
  if◌then◌else◌, ◌==◌, leb, any, Bytes, codes, str_eq, trim_space, is_blank,
}
use mcpx.Plan.Repository.{normalize_repository, contains_string}
use mcpx.Plan.Risk.{risk_rank, auto_merge_allowed}
use mcpx.Plan.Grant.{
  Effective, effective_active, effective_revoked, effective_superseded, expired, runtime_exhausted,
  tokens_exhausted, attempts_exhausted, plan_closed, RunGrant, PlanHeader, Dispatch, GrantUse,
  Tables, Event, grant_fallback, grant_used, is_active, compute_effective, load_plan_header,
  load_active_run_grant, find_task_header, update_grant, Failure, invalid_input, not_found,
  database,
}

pub record RunGrantUse : Type 0 where
  pub plan_task : Bytes
  pub idempotency_key : Bytes
  pub repository : Bytes
  pub risk_level : Bytes
  pub principal : Bytes

pub data Code : Type 0 where
  no_active_grant repository_required repository_out_of_scope risk_level_required : Code
  grant_is : Effective → Code

pub data Decision : Type 0 where
  authorized : (grant : RunGrant) (auto_merge consumed replay : Bool) → Decision
  denied : Code → Decision

pub data Answer : Type 0 where
  decided : Decision → Answer
  failed : Failure → Answer

-- An exhausted grant passes here, so that a repeated call can still be answered.
unfoldable pub usable : Effective → Bool
usable effective_active = true
usable attempts_exhausted = true
usable _ = false

-- The checks up to the budget, in their order.
unfoldable pub obstacle : Effective → Bytes → Bytes → RunGrant → Option Code
unfolding usable
obstacle effective repository risk g =
    if not (usable effective)
    then some (grant_is effective)
    else if str_eq repository []
    then some repository_required
    else if not (contains_string g.repositories repository)
    then some repository_out_of_scope
    else if risk_rank risk == 0
    then some risk_level_required
    else none

unfoldable pub same_use : Bytes → Bytes → Bytes → GrantUse → Bool
same_use id task hash u = str_eq u.use_grant id && str_eq u.use_task task && str_eq u.key_hash hash

unfoldable pub was_dispatched : Bytes → Bytes → Bytes → List Dispatch → Bool
was_dispatched session plan task [] = false
was_dispatched session plan task (d ∷ rows) =
    if str_eq d.dispatch_task task
      && str_eq d.dispatch_plan plan
      && str_eq d.dispatch_session session
    then d.dispatched
    else was_dispatched session plan task rows

unfoldable pub first_use : ℕ → Option ℕ → Option ℕ
first_use now none = some now
first_use now (some first) = some first

-- The UPDATE of the grant, and what the call makes of the grant it holds.
unfoldable pub spend : Bool → ℕ → RunGrant → RunGrant
unfolding first_use
spend consume now g = record g {
  attempts_used = if consume then g.attempts_used + 1 else g.attempts_used;
  first_used_at = first_use now g.first_used_at;
  updated_at = now;
}

unfoldable pub spend_row : Bool → ℕ → RunGrant → RunGrant
unfolding spend
spend_row consume now g = if is_active g.status then spend consume now g else g

unfoldable pub deny : Bytes → Bytes → Code → Tables → Tables × Answer
deny id task code t =
    (record t { events = t.events ++ grant_fallback id task ∷ [] }, decided (denied code))

unfoldable pub incomplete : Bytes → Bytes → RunGrantUse → Bool
incomplete session plan call =
    str_eq session []
    || str_eq plan []
    || str_eq call.plan_task []
    || str_eq call.principal []
    || is_blank call.idempotency_key

module _ (hash to_lower : Bytes → Bytes) where
  unfoldable pub use_row : RunGrantUse → Bytes → Bytes → Bool → ℕ → GrantUse
  use_row call id repo consume now = record {
    use_grant = id;
    use_task = call.plan_task;
    key_hash = hash (trim_space call.idempotency_key);
    use_repository = repo;
    use_risk = trim_space call.risk_level;
    attempt_consumed = consume;
    use_principal = call.principal;
    use_at = now;
  }

  unfoldable pub fresh_use : RunGrantUse → Bytes → Bool → ℕ → RunGrant → Tables → Tables × Answer
  unfolding spend_row use_row deny
  fresh_use call repo consume now g t =
      if consume && leb g.max_attempts g.attempts_used
      then deny g.id call.plan_task (grant_is attempts_exhausted) t
      else (
        record t {
          uses = use_row call g.id repo consume now ∷ t.uses;
          grants = update_grant g.id (spend_row consume now) t.grants;
          events = t.events ++ grant_used g.id call.plan_task consume false ∷ [];
        },
        decided (
            authorized (spend consume now g)
              (auto_merge_allowed (trim_space call.risk_level) g.auto_merge_max_risk) consume
              false),
      )

  -- Whether the call has a row already.
  unfoldable pub settle_use :
      RunGrantUse → Bytes → Bytes → Bytes → Bool → ℕ → RunGrant → Tables → Tables × Answer
  unfolding fresh_use same_use was_dispatched
  settle_use call session plan repo repeated now g t =
      if repeated
      then (
        record t { events = t.events ++ grant_used g.id call.plan_task false true ∷ [] },
        decided (
            authorized g (auto_merge_allowed (trim_space call.risk_level) g.auto_merge_max_risk)
              false true),
      )
      else fresh_use call repo (not (was_dispatched session plan call.plan_task t.dispatches)) now g
          t

  unfoldable pub judge :
      RunGrantUse → Bytes → Bytes → Bytes → ℕ → RunGrant → Option Code → Tables → Tables × Answer
  unfolding settle_use deny
  judge call session plan repo now g (some code) t = deny g.id call.plan_task code t
  judge call session plan repo now g none t =
      settle_use call session plan repo
        (any (same_use g.id call.plan_task (hash (trim_space call.idempotency_key))) t.uses) now g t

  unfoldable pub under_grant :
      RunGrantUse → Bytes → Bytes → ℕ → PlanHeader → Option RunGrant → Tables → Tables × Answer
  unfolding judge
  under_grant call session plan now p none t = (t, decided (denied no_active_grant))
  under_grant call session plan now p (some g) t =
      let repo = normalize_repository to_lower call.repository in
      if not (find_task_header plan call.plan_task t.tasks)
      then (t, failed not_found)
      else judge call session plan repo now g
          (obstacle (compute_effective now p.plan_status g) repo (trim_space call.risk_level) g) t

  unfoldable pub under_plan :
      RunGrantUse → Bytes → Bytes → ℕ → Option PlanHeader → Tables → Tables × Answer
  unfolding under_grant
  under_plan call session plan now none t = (t, failed not_found)
  under_plan call session plan now (some p) t =
      under_grant call session plan now p (load_active_run_grant session plan t.grants) t

  -- AuthorizeRunGrantUse
  unfoldable pub authorize_run_grant_use :
      Bool → Bytes → Bytes → RunGrantUse → ℕ → Tables → Tables × Answer
  unfolding under_plan
  authorize_run_grant_use fails session plan call now t =
      if incomplete session plan call
      then (t, failed invalid_input)
      else if fails
      then (t, failed database)
      else under_plan call session plan now (load_plan_header session plan t.plans) t
