-- ===== src/Plan/Budget/Calls.antt =====
-- Every call keeps the budgets of all grants.
use mcpx.Base.{
  ℕ, ◌<◌, ◌≡◌, refl, ◌∙◌, Bool, true, false, ◌&&◌, Option, none, some, List, ◌∷◌, leb, All-imp,
  All-In, All-both, In, inl, inr, arith, Bool-cases, Bytes, str_eq_refl,
}
use mcpx.Plan.Grant.{
  RunGrant, GrantUse, PlanHeader, Tables, Event, is_active, load_active_run_grant, load_plan_header,
  update_grant, find_task_header,
}
use mcpx.Plan.Authorize.{
  RunGrantUse, Code, use_row, spend_row, spend, deny, fresh_use, settle_use, judge, under_grant,
  under_plan, incomplete, authorize_run_grant_use,
}
use mcpx.Plan.Budget.{
  WithinBudget, known, Budgeted, one_row, load_active_run_grant-In, update_grant-All,
  update_grant-Distinct, known-update_grant, spend_row-WithinBudget, In-known,
}

-- Events are not counted.
events-Budgeted :
    (t : Tables) (events : List Event) → Budgeted t → Budgeted (record t { events = events })
events-Budgeted t events b = record {
  distinct = b.distinct;
  within = b.within;
  of_grants = b.of_grants;
}

spend_row-id : (consume : Bool) (now : ℕ) (g : RunGrant) → (spend_row consume now g).id ≡ g.id
unfolding spend_row spend
spend_row-id consume now g = ground arith

module _ (hash to_lower : Bytes → Bytes) where
  charged-Budgeted :
      (call : RunGrantUse) (repo : Bytes) (consume : Bool) (now : ℕ) (g : RunGrant) (t : Tables)
      (events : List Event)
      → In g t.grants
      → is_active g.status ≡ true
      → (consume ≡ true → g.attempts_used < g.max_attempts)
      → Budgeted t
      → Budgeted (record t {
        uses = use_row hash to_lower call g.id repo consume now ∷ t.uses;
        grants = update_grant g.id (spend_row consume now) t.grants;
        events = events;
      })
  unfolding use_row
  charged-Budgeted call repo consume now g t events i a room b =
      let u = use_row hash to_lower call g.id repo consume now in
      let same = spend_row-id consume now in
      record {
        distinct = update_grant-Distinct g.id (spend_row consume now) same t.grants b.distinct;
        within =
            update_grant-All (λ h. In h t.grants × WithinBudget t.uses h)
              (WithinBudget (u ∷ t.uses)) g.id (spend_row consume now) t.grants
              (λ h (j, w).
                spend_row-WithinBudget u g now (str_eq_refl g.id) a t.uses h room
                  (one_row t.grants g h b.distinct i j) w)
              (All-both (λ h. In h t.grants) (WithinBudget t.uses) t.grants (All-In t.grants)
                b.within);
        of_grants = (
          known-update_grant g.id (spend_row consume now) same t.grants g.id
              ∙ In-known g t.grants i,
          All-imp (λ (v : GrantUse). known t.grants v.use_grant ≡ true) _ t.uses
              (λ v k. known-update_grant g.id (spend_row consume now) same t.grants v.use_grant ∙ k)
              b.of_grants,
        );
      }

  fresh_use-Budgeted :
      (call : RunGrantUse) (repo : Bytes) (consume : Bool) (now : ℕ) (g : RunGrant) (t : Tables)
      → In g t.grants
      → is_active g.status ≡ true
      → Budgeted t
      → Budgeted (fresh_use hash to_lower call repo consume now g t).0
  unfolding fresh_use deny
  fresh_use-Budgeted call repo consume now g t i a b =
      elim (Bool-cases (consume && leb g.max_attempts g.attempts_used)) [
        | inl e ↦ rw (e) (events-Budgeted t _ b)
        | inr e ↦ rw (e) (charged-Budgeted call repo consume now g t _ i a (λ c. ground arith) b)
      ]

  settle_use-Budgeted :
      (call : RunGrantUse) (session plan repo : Bytes) (repeated : Bool) (now : ℕ) (g : RunGrant)
      (t : Tables)
      → In g t.grants
      → is_active g.status ≡ true
      → Budgeted t
      → Budgeted (settle_use hash to_lower call session plan repo repeated now g t).0
  unfolding settle_use
  settle_use-Budgeted call session plan repo true now g t i a b = events-Budgeted t _ b
  settle_use-Budgeted call session plan repo false now g t i a b =
      fresh_use-Budgeted call repo _ now g t i a b

  judge-Budgeted :
      (call : RunGrantUse) (session plan repo : Bytes) (now : ℕ) (g : RunGrant) (o : Option Code)
      (t : Tables)
      → In g t.grants
      → is_active g.status ≡ true
      → Budgeted t
      → Budgeted (judge hash to_lower call session plan repo now g o t).0
  unfolding judge deny
  judge-Budgeted call session plan repo now g (some code) t i a b = events-Budgeted t _ b
  judge-Budgeted call session plan repo now g none t i a b =
      settle_use-Budgeted call session plan repo _ now g t i a b

  under_grant-Budgeted :
      (call : RunGrantUse) (session plan : Bytes) (now : ℕ) (p : PlanHeader) (o : Option RunGrant)
      (t : Tables)
      → load_active_run_grant session plan t.grants ≡ o
      → Budgeted t
      → Budgeted (under_grant hash to_lower call session plan now p o t).0
  unfolding under_grant
  under_grant-Budgeted call session plan now p none t e b = b
  under_grant-Budgeted call session plan now p (some g) t e b =
      let (i, a) = load_active_run_grant-In session plan t.grants g e in
      elim (Bool-cases (find_task_header plan call.plan_task t.tasks)) [
        | inl f ↦ rw (f) (judge-Budgeted call session plan _ now g _ t i a b)
        | inr f ↦ rw (f) b
      ]

  under_plan-Budgeted :
      (call : RunGrantUse) (session plan : Bytes) (now : ℕ) (o : Option PlanHeader) (t : Tables)
      → Budgeted t
      → Budgeted (under_plan hash to_lower call session plan now o t).0
  unfolding under_plan
  under_plan-Budgeted call session plan now none t b = b
  under_plan-Budgeted call session plan now (some p) t b =
      under_grant-Budgeted call session plan now p (load_active_run_grant session plan t.grants) t
        refl b

  pub authorize-Budgeted :
      (fails : Bool) (session plan : Bytes) (call : RunGrantUse) (now : ℕ) (t : Tables)
      → Budgeted t
      → Budgeted (authorize_run_grant_use hash to_lower fails session plan call now t).0
  unfolding authorize_run_grant_use
  authorize-Budgeted fails session plan call now t b =
      let checked =
        under_plan-Budgeted call session plan now (load_plan_header session plan t.plans) t b in
      elim (Bool-cases (incomplete session plan call)) [
        | inl e ↦ rw (e) b
        | inr e ↦ elim (Bool-cases fails) [ inl f ↦ rw (e, f) b | inr f ↦ rw (e, f) checked ]
      ]
