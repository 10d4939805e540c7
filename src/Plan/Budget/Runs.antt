-- ===== src/Plan/Budget/Runs.antt =====
-- The calls on a plan's grants, in any order.
use mcpx.Base.{ℕ, ◌≡◌, Bool, [], All, Bytes}
use mcpx.Base.Int.{ℤ}
use mcpx.Plan.Grant.{Tables}
use mcpx.Plan.Create.{RunGrantInput, create_run_grant, revoke_run_grant, report_run_grant_usage}
use mcpx.Plan.Authorize.{RunGrantUse, authorize_run_grant_use}
use mcpx.Plan.Budget.{Budgeted, empty-Budgeted, WithinBudget}
use mcpx.Plan.Budget.Calls.{authorize-Budgeted}
use mcpx.Plan.Budget.Changes.{create-Budgeted, revoke-Budgeted, report-Budgeted}

module _ (hash to_lower : Bytes → Bytes) where
  pub data Calls : Tables → Tables → Type 0 where
    done : {t : Tables} → Calls t t
    creates :
        {s t : Tables} (fails : Bool) (note_runes : ℕ) (id session plan principal : Bytes) (now : ℕ)
        (input : RunGrantInput)
        → Calls s t
        → Calls s
            (create_run_grant to_lower fails note_runes id session plan principal now input t).0
    revokes :
        {s t : Tables} (fails : Bool) (session plan principal reason : Bytes) (now : ℕ)
        → Calls s t
        → Calls s (revoke_run_grant fails session plan principal reason now t).0
    reports :
        {s t : Tables} (fails : Bool) (session plan principal : Bytes) (total : ℤ) (now : ℕ)
        → Calls s t
        → Calls s (report_run_grant_usage fails session plan principal total now t).0
    authorizes :
        {s t : Tables} (fails : Bool) (session plan : Bytes) (call : RunGrantUse) (now : ℕ)
        → Calls s t
        → Calls s (authorize_run_grant_use hash to_lower fails session plan call now t).0

  Calls-Budgeted : {s t : Tables} → Calls s t → Budgeted s → Budgeted t
  Calls-Budgeted done b = b
  Calls-Budgeted (creates {s} {t} fails note_runes id session plan principal now input c) b =
      create-Budgeted to_lower fails note_runes id session plan principal now input t
        (Calls-Budgeted c b)
  Calls-Budgeted (revokes {s} {t} fails session plan principal reason now c) b =
      revoke-Budgeted fails session plan principal reason now t (Calls-Budgeted c b)
  Calls-Budgeted (reports {s} {t} fails session plan principal total now c) b =
      report-Budgeted fails session plan principal total now t (Calls-Budgeted c b)
  Calls-Budgeted (authorizes {s} {t} fails session plan call now c) b =
      authorize-Budgeted hash to_lower fails session plan call now t (Calls-Budgeted c b)

  -- From tables without grants and uses, whatever calls are made, with any arguments and failures,
  -- each grant has counted exactly the attempts that its uses consumed, and at most as many as it
  -- was given.
  pub budgets_hold :
      (s t : Tables) → s.grants ≡ [] → s.uses ≡ [] → Calls s t → All (WithinBudget t.uses) t.grants
  budgets_hold s t g u calls = (Calls-Budgeted calls (empty-Budgeted s g u)).within
