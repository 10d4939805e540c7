-- ===== src/Plan/Examples.antt =====
-- One plan with one grant. The hash and the lower case are the identity.
use mcpx.Base.{◌≡◌, refl, false, some, [], ◌∷◌, All, Bytes, codes, trim_space, is_blank}
use mcpx.Base.Int.{pos, times64}
use mcpx.Plan.Repository.{normalize_repository, normalize_repositories, contains_string}
use mcpx.Plan.Risk.{risk_rank}
use mcpx.Plan.Grant.{
  in_progress, RunGrant, PlanHeader, Tables, load_plan_header, load_active_run_grant,
  find_task_header, compute_effective,
}
use mcpx.Plan.Create.{RunGrantInput, create_run_grant}
use mcpx.Plan.Create.Bounds.{Made, is_granted, created-Made}
use mcpx.Plan.Authorize.{
  RunGrantUse, incomplete, obstacle, same_use, spend_row, authorize_run_grant_use,
}
use mcpx.Plan.Authorize.Covered.{Covers, IsHonest, is_authorized, authorized-Covers}
use mcpx.Plan.Authorize.Retry.{IsFree, retry-IsFree}
use mcpx.Plan.Budget.{WithinBudget}
use mcpx.Plan.Budget.Runs.{done, creates, authorizes, budgets_hold}

abbrev same : Bytes → Bytes
same s = s

abbrev empty : Tables
empty = record {
  plans = record { plan_id = codes "p"; plan_session = codes "s"; plan_status = in_progress } ∷ [];
  tasks = record { task_id = codes "t"; task_plan = codes "p" } ∷ [];
  dispatches = [];
  grants = [];
  uses = [];
  events = [];
}

abbrev input : RunGrantInput
input = record {
  wanted_repositories = codes "o/n" ∷ [];
  wanted_risk = codes "standard";
  wanted_tokens = pos 100;
  wanted_runtime_minutes = pos 60;
  wanted_attempts = pos 2;
  wanted_minutes = pos 60;
  wanted_note = [];
}

abbrev call : RunGrantUse
call = record {
  plan_task = codes "t";
  idempotency_key = codes "k";
  repository = codes "o/n";
  risk_level = codes "routine";
  principal = codes "u";
}

abbrev granting : Tables
granting =
    (create_run_grant same false 0 (codes "g") (codes "s") (codes "p") (codes "u") 1000000 input
      empty).0

created-Made_example : Made (codes "g") (codes "s") (codes "p") 1000000 granting
unfolding create_run_grant is_granted normalize_repositories load_plan_header load_active_run_grant
    times64 trim_space risk_rank contains_string
created-Made_example =
    created-Made same false 0 (codes "g") (codes "s") (codes "p") (codes "u") 1000000 input empty
      refl

budgets_hold_example :
    All
      (WithinBudget
        (authorize_run_grant_use same same false (codes "s") (codes "p") call 5 granting).0.uses)
      (authorize_run_grant_use same same false (codes "s") (codes "p") call 5 granting).0.grants
budgets_hold_example =
    budgets_hold same same empty
      (authorize_run_grant_use same same false (codes "s") (codes "p") call 5 granting).0 refl refl
      (authorizes false (codes "s") (codes "p") call 5
        (creates false 0 (codes "g") (codes "s") (codes "p") (codes "u") 1000000 input done))

retry-IsFree_example :
    IsFree (authorize_run_grant_use same same false (codes "s") (codes "p") call 5 granting).0 (
      authorize_run_grant_use same same false
        (codes "s")
        (codes "p")
        call
        9
        (authorize_run_grant_use same same false (codes "s") (codes "p") call 5 granting).0)
unfolding authorize_run_grant_use is_authorized incomplete is_blank normalize_repository
    find_task_header compute_effective obstacle same_use spend_row create_run_grant
    normalize_repositories load_plan_header load_active_run_grant times64 trim_space risk_rank
    contains_string
retry-IsFree_example =
    retry-IsFree same same (codes "s") (codes "p") call false false 5 9 granting refl

authorized-Covers_example :
    (p : PlanHeader) × (g : RunGrant) × (load_plan_header (codes "s") (codes "p") granting.plans
      ≡ some p)
    × (load_active_run_grant (codes "s") (codes "p") granting.grants ≡ some g)
    × Covers 5 p g (normalize_repository same call.repository) (trim_space call.risk_level)
    × IsHonest g
        (trim_space call.risk_level)
        (authorize_run_grant_use same same false (codes "s") (codes "p") call 5 granting).1
unfolding authorize_run_grant_use is_authorized incomplete is_blank normalize_repository
    find_task_header compute_effective obstacle same_use spend_row create_run_grant
    normalize_repositories load_plan_header load_active_run_grant times64 trim_space risk_rank
    contains_string
authorized-Covers_example =
    authorized-Covers same same false (codes "s") (codes "p") call 5 granting refl
