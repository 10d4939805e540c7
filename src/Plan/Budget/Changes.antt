-- ===== src/Plan/Budget/Changes.antt =====
-- The calls that make, end and charge a grant keep the budgets.
use mcpx.Base.{
  ℕ, ◌≡◌, refl, sym, ap, ◌∙◌, Bool, true, false, not, ◌||◌, Option, none, some, List, [], ◌∷◌,
  if◌then◌else◌, ltb, All, All-imp, inl, inr, arith, Bool-cases, Bytes, str_eq, str_eq→eq,
  trim_space,
}
use Prim.Native.Nat.{◌/◌}
use mathlib.Core.Bool.{false≢true}
use mcpx.Base.Int.{ℤ, pos, negsuc}
use mcpx.Plan.Grant.{
  Status, RunGrant, GrantUse, PlanHeader, Tables, Event, is_closed, load_active_run_grant,
  load_plan_header, update_grant, end_grant,
}
use mcpx.Plan.Create.{
  RunGrantInput, supersede, admits, insert_grant, new_grant, create_under, create_with,
  create_run_grant, revoke_under, revoke_run_grant, raise_tokens, report_under,
  report_run_grant_usage, valid_ceiling, valid_budgets,
}
use mcpx.Plan.Repository.{normalize_repositories}
use mcpx.Plan.Budget.{
  consumed_by, WithinBudget, known, Budgeted, Other, update_grant-All, update_grant-Distinct,
  known-update_grant,
}

-- A change of the rows of an ID that touches neither the ID nor the attempts.
record Quiet (change : RunGrant → RunGrant) : Type 0 where
  same_id : (g : RunGrant) → (change g).id ≡ g.id
  same_used : (g : RunGrant) → (change g).attempts_used ≡ g.attempts_used
  same_max : (g : RunGrant) → (change g).max_attempts ≡ g.max_attempts

Quiet-WithinBudget :
    (change : RunGrant → RunGrant) (id : Bytes) (uses : List GrantUse) (g : RunGrant)
    → Quiet change
    → WithinBudget uses g
    → WithinBudget uses (if str_eq g.id id then change g else g)
Quiet-WithinBudget change id uses g q w = elim (Bool-cases (str_eq g.id id)) [
  | inl e ↦ rw (e, q.same_id g, q.same_used g, q.same_max g) w
  | inr e ↦ rw (e) w
]

changed-Budgeted :
    (id : Bytes) (change : RunGrant → RunGrant) (t : Tables) (events : List Event)
    → Quiet change
    → Budgeted t
    → Budgeted (record t { grants = update_grant id change t.grants; events = events })
changed-Budgeted id change t events q b = record {
  distinct = update_grant-Distinct id change q.same_id t.grants b.distinct;
  within =
      update_grant-All (WithinBudget t.uses) (WithinBudget t.uses) id change t.grants
        (λ g w. Quiet-WithinBudget change id t.uses g q w) b.within;
  of_grants =
      All-imp (λ (u : GrantUse). known t.grants u.use_grant ≡ true) _ t.uses
        (λ u k. known-update_grant id change q.same_id t.grants u.use_grant ∙ k) b.of_grants;
}

end_grant-Quiet :
    (status : Status) (principal reason : Bytes) (now : ℕ)
    → Quiet (end_grant status principal reason now)
unfolding end_grant
end_grant-Quiet status principal reason now = record {
  same_id = λ g. ground arith;
  same_used = λ g. ground arith;
  same_max = λ g. ground arith;
}

raise_tokens-Quiet : (total now : ℕ) → Quiet (raise_tokens total now)
unfolding raise_tokens
raise_tokens-Quiet total now = record {
  same_id = λ g. ground arith;
  same_used = λ g. ground arith;
  same_max = λ g. ground arith;
}

-- A grant without uses, whose ID is new.
consumed_by-unknown :
    (id : Bytes) (grants : List RunGrant) (uses : List GrantUse)
    → known grants id ≡ false
    → All (λ u. known grants u.use_grant ≡ true) uses
    → consumed_by id uses ≡ 0
unfolding consumed_by
consumed_by-unknown id grants [] n k = refl
consumed_by-unknown id grants (u ∷ uses) n (h, k) = elim (Bool-cases (str_eq u.use_grant id)) [
  | inl e ↦ absurd (false≢true (sym n ∙ ap (known grants) (sym (str_eq→eq u.use_grant id e)) ∙ h))
  | inr e ↦ rw (e) (consumed_by-unknown id grants uses n k)
]

unknown-Other :
    (g : RunGrant) (grants : List RunGrant) → known grants g.id ≡ false → All (Other g) grants
unknown-Other g [] h = tt
unknown-Other g (k ∷ grants) h = (ground arith, unknown-Other g grants (ground arith))

admits-known :
    (g : RunGrant) (grants : List RunGrant) → admits g grants ≡ true → known grants g.id ≡ false
unfolding admits
admits-known g grants h = ground arith

insert_grant-Budgeted :
    (g : RunGrant) (before t : Tables)
    → g.attempts_used ≡ 0
    → Budgeted before
    → Budgeted t
    → Budgeted (insert_grant g before t).0
unfolding insert_grant
insert_grant-Budgeted g before t z b₀ b = elim (Bool-cases (admits g t.grants)) [
  | inl e ↦ rw (e) (
      let new : known t.grants g.id ≡ false = admits-known g t.grants e in
      let unused = consumed_by-unknown g.id t.grants t.uses new b.of_grants in
      record {
        distinct = (unknown-Other g t.grants new, b.distinct);
        within = ((unused ∙ sym z, omega (arith, z)), b.within);
        of_grants =
            All-imp (λ (u : GrantUse). known t.grants u.use_grant ≡ true) _ t.uses
              (λ u k. ground arith) b.of_grants;
      })
  | inr e ↦ rw (e) b₀
]

supersede-Budgeted :
    (id principal : Bytes) (now : ℕ) (o : Option RunGrant) (t : Tables)
    → Budgeted t
    → Budgeted (supersede id principal now o t)
unfolding supersede
supersede-Budgeted id principal now none t b = b
supersede-Budgeted id principal now (some g) t b =
    changed-Budgeted g.id _ t _ (end_grant-Quiet _ principal _ now) b

create_under-Budgeted :
    (id principal : Bytes) (now : ℕ) (g : RunGrant) (o : Option PlanHeader) (t : Tables)
    → g.attempts_used ≡ 0
    → Budgeted t
    → Budgeted (create_under id principal now g o t).0
unfolding create_under
create_under-Budgeted id principal now g none t z b = b
create_under-Budgeted id principal now g (some p) t z b =
    let previous = load_active_run_grant g.session g.plan t.grants in
    let ended = supersede-Budgeted id principal now previous t b in
    let made = insert_grant-Budgeted g t (supersede id principal now previous t) z b ended in
    elim (Bool-cases (is_closed p.plan_status)) [ inl e ↦ rw (e) b | inr e ↦ rw (e) made ]

create_with-Budgeted :
    (fails : Bool) (note_runes : ℕ) (id session plan principal : Bytes) (now : ℕ)
    (input : RunGrantInput) (o : Option (List Bytes)) (t : Tables)
    → Budgeted t
    → Budgeted (create_with fails note_runes id session plan principal now input o t).0
unfolding create_with
create_with-Budgeted fails note_runes id session plan principal now input none t b = b
create_with-Budgeted fails note_runes id session plan principal now input (some repositories) t b =
    let g = new_grant id session plan principal now repositories input in
    let z : g.attempts_used ≡ 0 = unfold new_grant in refl in
    let made =
      create_under-Budgeted id principal (now / 1000000) g (load_plan_header session plan t.plans) t
        z b in
    elim (Bool-cases (
      not (valid_ceiling (trim_space input.wanted_risk)) || not (valid_budgets note_runes input))) [
        | inl e ↦ rw (e) b
        | inr e ↦ elim (Bool-cases fails) [ inl f ↦ rw (e, f) b | inr f ↦ rw (e, f) made ]
      ]

pub create-Budgeted :
    (to_lower : Bytes → Bytes) (fails : Bool) (note_runes : ℕ) (id session plan principal : Bytes)
    (now : ℕ) (input : RunGrantInput) (t : Tables)
    → Budgeted t
    → Budgeted (create_run_grant to_lower fails note_runes id session plan principal now input t).0
unfolding create_run_grant
create-Budgeted to_lower fails note_runes id session plan principal now input t b =
    let made =
      create_with-Budgeted fails note_runes id session plan principal now input
        (normalize_repositories to_lower input.wanted_repositories) t b in
    elim (Bool-cases (str_eq session [] || str_eq plan [] || str_eq principal [])) [
      | inl e ↦ rw (e) b
      | inr e ↦ rw (e) made
    ]

revoke_under-Budgeted :
    (principal reason : Bytes) (now : ℕ) (p : Option PlanHeader) (g : Option RunGrant) (t : Tables)
    → Budgeted t
    → Budgeted (revoke_under principal reason now p g t).0
unfolding revoke_under
revoke_under-Budgeted principal reason now none g t b = b
revoke_under-Budgeted principal reason now (some p) none t b = b
revoke_under-Budgeted principal reason now (some p) (some g) t b =
    changed-Budgeted g.id _ t _ (end_grant-Quiet _ principal reason now) b

pub revoke-Budgeted :
    (fails : Bool) (session plan principal reason : Bytes) (now : ℕ) (t : Tables)
    → Budgeted t
    → Budgeted (revoke_run_grant fails session plan principal reason now t).0
unfolding revoke_run_grant
revoke-Budgeted fails session plan principal reason now t b =
    let done =
      revoke_under-Budgeted principal (trim_space reason) now
        (load_plan_header session plan t.plans) (load_active_run_grant session plan t.grants) t b in
    elim (Bool-cases (str_eq principal [] || str_eq (trim_space reason) [])) [
      | inl e ↦ rw (e) b
      | inr e ↦ elim (Bool-cases fails) [ inl f ↦ rw (e, f) b | inr f ↦ rw (e, f) done ]
    ]

report_under-Budgeted :
    (total now : ℕ) (p : Option PlanHeader) (g : Option RunGrant) (t : Tables)
    → Budgeted t
    → Budgeted (report_under total now p g t).0
unfolding report_under
report_under-Budgeted total now none g t b = b
report_under-Budgeted total now (some p) none t b = b
report_under-Budgeted total now (some p) (some g) t b =
    elim (Bool-cases (ltb g.tokens_used total)) [
      | inl e ↦ rw (e) (changed-Budgeted g.id _ t _ (raise_tokens-Quiet total now) b)
      | inr e ↦
          rw (e) (record { distinct = b.distinct; within = b.within; of_grants = b.of_grants })
    ]

pub report-Budgeted :
    (fails : Bool) (session plan principal : Bytes) (total : ℤ) (now : ℕ) (t : Tables)
    → Budgeted t
    → Budgeted (report_run_grant_usage fails session plan principal total now t).0
unfolding report_run_grant_usage
report-Budgeted fails session plan principal (negsuc n) now t b = b
report-Budgeted fails session plan principal (pos total) now t b =
    let done =
      report_under-Budgeted total now (load_plan_header session plan t.plans)
        (load_active_run_grant session plan t.grants) t b in
    elim (Bool-cases (str_eq principal [])) [
      | inl e ↦ rw (e) b
      | inr e ↦ elim (Bool-cases fails) [ inl f ↦ rw (e, f) b | inr f ↦ rw (e, f) done ]
    ]
