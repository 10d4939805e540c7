-- ===== src/Plan/Create.antt =====
-- internal/plan/run_grant.go: CreateRunGrant, RevokeRunGrant and ReportRunGrantUsage. Each runs in one
-- transaction: where a statement of it fails, `fails`, the tables stay as they were. The new ID, the
-- clock and strings.ToLower are arguments, as is the number of runes of the note. What the calls
-- read back behind the commit is left to the caller.
pub mod Bounds
use Prim.Native.Nat.{◌/◌}
use mcpx.Base.{
  ℕ, zero, ◌+◌, ◌*◌, Bool, true, false, not, ◌&&◌, ◌||◌, Option, none, some, List, [], ◌∷◌, ◌++◌,
  if◌then◌else◌, ◌==◌, ltb, leb, any, Bytes, codes, str_eq, trim_space,
}
use mcpx.Base.Int.{ℤ, pos, negsuc, is_positive, pos_part, times64}
use mcpx.Plan.Repository.{normalize_repositories}
use mcpx.Plan.Risk.{risk_rank}
use mcpx.Plan.Grant.{
  Status, active, revoked, superseded, RunGrant, PlanHeader, Tables, Event, grant_superseded,
  grant_created, grant_revoked, usage_reported, is_active, is_closed, load_plan_header,
  load_active_run_grant, update_grant, end_grant, Failure, invalid_input, invalid_state, not_found,
  grant_not_found, database,
}

pub record RunGrantInput : Type 0 where
  pub wanted_repositories : List Bytes
  pub wanted_risk : Bytes
  pub wanted_tokens : ℤ
  pub wanted_runtime_minutes : ℤ
  pub wanted_attempts : ℤ
  pub wanted_minutes : ℤ
  pub wanted_note : Bytes

pub data Outcome : Type 0 where
  granted : (id : Bytes) → Outcome
  failed : Failure → Outcome

abbrev pub max_run_grant_attempts : ℕ
max_run_grant_attempts = 1000

-- In nanoseconds.
abbrev pub max_run_grant_lifetime : ℕ
max_run_grant_lifetime = 30 * 24 * 3600 * 1000000000

-- time.Duration(minutes) * time.Minute
unfoldable pub duration : ℤ → ℤ
duration minutes = times64 minutes 60000000000

unfoldable pub in_lifetime : ℤ → Bool
in_lifetime d = is_positive d && leb (pos_part d) max_run_grant_lifetime

unfoldable pub valid_ceiling : Bytes → Bool
unfolding risk_rank
valid_ceiling ceiling =
    not (str_eq ceiling (codes "signoff"))
    && (str_eq ceiling (codes "none") || not (risk_rank ceiling == 0))

unfoldable pub valid_budgets : ℕ → RunGrantInput → Bool
unfolding in_lifetime duration
valid_budgets note_runes input =
    is_positive input.wanted_tokens
    && (is_positive input.wanted_attempts
        && leb (pos_part input.wanted_attempts) max_run_grant_attempts)
    && in_lifetime (duration input.wanted_minutes)
    && in_lifetime (duration input.wanted_runtime_minutes)
    && leb note_runes 500

unfoldable pub new_grant : Bytes → Bytes → Bytes → Bytes → ℕ → List Bytes → RunGrantInput → RunGrant
unfolding duration
new_grant id session plan principal now_ns repositories input = record {
  id = id;
  plan = plan;
  session = session;
  status = active;
  repositories = repositories;
  auto_merge_max_risk = trim_space input.wanted_risk;
  max_tokens = pos_part input.wanted_tokens;
  tokens_used = 0;
  max_runtime_ms = pos_part (duration input.wanted_runtime_minutes) / 1000000;
  max_attempts = pos_part input.wanted_attempts;
  attempts_used = 0;
  expires_at = (now_ns + pos_part (duration input.wanted_minutes)) / 1000000;
  first_used_at = none;
  note = trim_space input.wanted_note;
  created_by = principal;
  created_at = now_ns / 1000000;
  updated_at = now_ns / 1000000;
  ended_by = [];
  ended_at = none;
  end_reason = [];
}

-- The statement on the grant that was active so far.
unfoldable pub supersede : Bytes → Bytes → ℕ → Option RunGrant → Tables → Tables
supersede id principal now none t = t
supersede id principal now (some previous) t = record t {
  grants =
      update_grant previous.id (end_grant superseded principal (codes "superseded by " ++ id) now)
        t.grants;
  events = t.events ++ grant_superseded previous.id id ∷ [];
}

-- The constraints of the table: the primary key, one active grant for each plan, a runtime above 0.
unfoldable pub admits : RunGrant → List RunGrant → Bool
admits g grants =
    not (any (λ (h : RunGrant). str_eq h.id g.id) grants)
    && not (any (λ (h : RunGrant). str_eq h.plan g.plan && is_active h.status) grants)
    && ltb 0 g.max_runtime_ms

unfoldable pub insert_grant : RunGrant → Tables → Tables → Tables × Outcome
unfolding admits
insert_grant g before t =
    if admits g t.grants
    then (
      record t { grants = g ∷ t.grants; events = t.events ++ grant_created g.id ∷ [] },
      granted g.id,
    )
    else (before, failed database)

unfoldable pub create_under :
    Bytes → Bytes → ℕ → RunGrant → Option PlanHeader → Tables → Tables × Outcome
unfolding insert_grant supersede
create_under id principal now g none t = (t, failed not_found)
create_under id principal now g (some p) t =
    if is_closed p.plan_status
    then (t, failed invalid_state)
    else insert_grant g t
        (supersede id principal now (load_active_run_grant g.session g.plan t.grants) t)

unfoldable pub create_with :
    Bool
    → ℕ
    → Bytes
    → Bytes
    → Bytes
    → Bytes
    → ℕ
    → RunGrantInput
    → Option (List Bytes)
    → Tables
    → Tables × Outcome
unfolding valid_ceiling valid_budgets new_grant create_under
create_with fails note_runes id session plan principal now_ns input none t =
    (t, failed invalid_input)
create_with fails note_runes id session plan principal now_ns input (some repositories) t =
    if not (valid_ceiling (trim_space input.wanted_risk)) || not (valid_budgets note_runes input)
    then (t, failed invalid_input)
    else if fails
    then (t, failed database)
    else create_under id principal (now_ns / 1000000)
        (new_grant id session plan principal now_ns repositories input)
        (load_plan_header session plan t.plans) t

-- CreateRunGrant; `now_ns` is the clock in nanoseconds.
unfoldable pub create_run_grant :
    (Bytes → Bytes)
    → Bool
    → ℕ
    → Bytes
    → Bytes
    → Bytes
    → Bytes
    → ℕ
    → RunGrantInput
    → Tables
    → Tables × Outcome
unfolding create_with
create_run_grant to_lower fails note_runes id session plan principal now_ns input t =
    if str_eq session [] || str_eq plan [] || str_eq principal []
    then (t, failed invalid_input)
    else create_with fails note_runes id session plan principal now_ns input
        (normalize_repositories to_lower input.wanted_repositories) t

unfoldable pub revoke_under :
    Bytes → Bytes → ℕ → Option PlanHeader → Option RunGrant → Tables → Tables × Outcome
revoke_under principal reason now none grant t = (t, failed not_found)
revoke_under principal reason now (some p) none t = (t, failed grant_not_found)
revoke_under principal reason now (some p) (some g) t = (
  record t {
    grants = update_grant g.id (end_grant revoked principal reason now) t.grants;
    events = t.events ++ grant_revoked g.id reason ∷ [];
  },
  granted g.id,
)

-- RevokeRunGrant
unfoldable pub revoke_run_grant :
    Bool → Bytes → Bytes → Bytes → Bytes → ℕ → Tables → Tables × Outcome
unfolding revoke_under
revoke_run_grant fails session plan principal reason now t =
    if str_eq principal [] || str_eq (trim_space reason) []
    then (t, failed invalid_input)
    else if fails
    then (t, failed database)
    else revoke_under principal (trim_space reason) now (load_plan_header session plan t.plans)
        (load_active_run_grant session plan t.grants) t

-- The UPDATE of the tokens, with its own test.
unfoldable pub raise_tokens : ℕ → ℕ → RunGrant → RunGrant
raise_tokens total now g =
    if ltb g.tokens_used total then record g { tokens_used = total; updated_at = now } else g

unfoldable pub report_under :
    ℕ → ℕ → Option PlanHeader → Option RunGrant → Tables → Tables × Outcome
unfolding raise_tokens
report_under total now none grant t = (t, failed not_found)
report_under total now (some p) none t = (t, failed grant_not_found)
report_under total now (some p) (some g) t = (
  record t {
    grants =
        if ltb g.tokens_used total
        then update_grant g.id (raise_tokens total now) t.grants
        else t.grants;
    events = t.events ++ usage_reported g.id total g.tokens_used ∷ [];
  },
  granted g.id,
)

-- ReportRunGrantUsage
unfoldable pub report_run_grant_usage :
    Bool → Bytes → Bytes → Bytes → ℤ → ℕ → Tables → Tables × Outcome
unfolding report_under
report_run_grant_usage fails session plan principal (negsuc n) now t = (t, failed invalid_input)
report_run_grant_usage fails session plan principal (pos total) now t =
    if str_eq principal []
    then (t, failed invalid_input)
    else if fails
    then (t, failed database)
    else report_under total now (load_plan_header session plan t.plans)
        (load_active_run_grant session plan t.grants) t
