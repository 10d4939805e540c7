-- ===== src/Plan/Create/Bounds.antt =====
-- The bounds of a new grant.
use Prim.Native.Nat.{◌/◌}
use mcpx.Base.{
  ℕ, ◌+◌, ◌≤◌, ◌<◌, ◌≡◌, refl, Bool, true, false, not, ◌&&◌, ◌||◌, Option, none, some, List, [],
  ◌∷◌, ltb, any, inl, inr, arith, Bool-cases, Bytes, codes, str_eq, trim_space,
}
use mathlib.Core.Bool.{false≢true}
use mcpx.Base.Int.{ℤ, pos, negsuc, is_positive, pos_part}
use mcpx.Plan.Repository.{normalize_repositories}
use mcpx.Plan.Grant.{
  RunGrant, PlanHeader, Tables, is_active, is_closed, load_plan_header, load_active_run_grant,
}
use mcpx.Plan.Create.{
  RunGrantInput, Outcome, granted, failed, duration, in_lifetime, valid_ceiling, valid_budgets,
  new_grant, supersede, admits, insert_grant, create_under, create_with, create_run_grant,
}

-- What a new grant is like; 2592000000 milliseconds are 30 days.
pub record Bounded (now_ns : ℕ) (g : RunGrant) : Type 0 where
  pub running : is_active g.status ≡ true
  pub some_tokens : 0 < g.max_tokens
  pub some_attempts : 0 < g.max_attempts
  pub few_attempts : g.max_attempts ≤ 1000
  pub some_runtime : 0 < g.max_runtime_ms
  pub short_runtime : g.max_runtime_ms ≤ 2592000000
  pub short_lifetime : g.expires_at ≤ now_ns / 1000000 + 2592000000
  pub no_signoff : str_eq g.auto_merge_max_risk (codes "signoff") ≡ false
  pub unused : g.attempts_used ≡ 0

in_lifetime_bounds : (d : ℤ) → in_lifetime d ≡ true → pos_part d ≤ 2592000000000000
unfolding in_lifetime
in_lifetime_bounds d h = ground arith

is_positive_bounds : (z : ℤ) → is_positive z ≡ true → 0 < pos_part z
is_positive_bounds (pos n) h = ground arith
is_positive_bounds (negsuc n) h = ground arith

new_grant-Bounded :
    (id session plan principal : Bytes) (note_runes now_ns : ℕ) (repositories : List Bytes)
    (input : RunGrantInput)
    → valid_ceiling (trim_space input.wanted_risk) ≡ true
    → valid_budgets note_runes input ≡ true
    → ltb 0 (new_grant id session plan principal now_ns repositories input).max_runtime_ms ≡ true
    → Bounded now_ns (new_grant id session plan principal now_ns repositories input)
unfolding new_grant valid_ceiling valid_budgets
new_grant-Bounded id session plan principal note_runes now_ns repositories input c v r =
    let tokens = is_positive_bounds input.wanted_tokens (ground arith) in
    let attempts = is_positive_bounds input.wanted_attempts (ground arith) in
    let lifetime = in_lifetime_bounds (duration input.wanted_minutes) (ground arith) in
    let runtime = in_lifetime_bounds (duration input.wanted_runtime_minutes) (ground arith) in
    record {
      running = refl;
      some_tokens = tokens;
      some_attempts = attempts;
      few_attempts = ground arith;
      some_runtime = ground arith;
      short_runtime = omega (arith, runtime);
      short_lifetime = omega (arith, lifetime);
      no_signoff = ground arith;
      unused = refl;
    }

unfoldable pub is_granted : Outcome → Bool
is_granted (granted id) = true
is_granted (failed f) = false

-- The tables hold a new grant of the plan, and no other one of the plan is active.
pub record Made (id session plan : Bytes) (now_ns : ℕ) (t : Tables) : Type 0 where
  pub made : RunGrant
  pub others : List RunGrant
  pub stored : t.grants ≡ made ∷ others
  pub made_id : made.id ≡ id
  pub made_for : (made.session ≡ session) × (made.plan ≡ plan)
  pub bounded : Bounded now_ns made
  pub alone : any (λ (h : RunGrant). str_eq h.plan plan && is_active h.status) others ≡ false

admits_parts :
    (g : RunGrant) (grants : List RunGrant)
    → admits g grants ≡ true
    → (any (λ (h : RunGrant). str_eq h.plan g.plan && is_active h.status) grants ≡ false)
      × (ltb 0 g.max_runtime_ms ≡ true)
unfolding admits
admits_parts g grants h = (ground arith, ground arith)

insert_grant-Made :
    (g : RunGrant) (now_ns : ℕ) (before t : Tables)
    → (ltb 0 g.max_runtime_ms ≡ true → Bounded now_ns g)
    → is_granted (insert_grant g before t).1 ≡ true
    → Made g.id g.session g.plan now_ns (insert_grant g before t).0
unfolding insert_grant is_granted
insert_grant-Made g now_ns before t b h = elim (Bool-cases (admits g t.grants)) [
  | inl e ↦
      let (single, runs) = admits_parts g t.grants e in
      rw (e) (record {
        made = g;
        others = t.grants;
        stored = refl;
        made_id = refl;
        made_for = (refl, refl);
        bounded = b runs;
        alone = single;
      })
  | inr e ↦ absurd (false≢true (rw e at h))
]

create_under-Made :
    (id principal : Bytes) (now now_ns : ℕ) (g : RunGrant) (o : Option PlanHeader) (t : Tables)
    → (ltb 0 g.max_runtime_ms ≡ true → Bounded now_ns g)
    → is_granted (create_under id principal now g o t).1 ≡ true
    → Made g.id g.session g.plan now_ns (create_under id principal now g o t).0
unfolding create_under is_granted
create_under-Made id principal now now_ns g none t b h = absurd (false≢true h)
create_under-Made id principal now now_ns g (some p) t b h =
    elim (Bool-cases (is_closed p.plan_status)) [
      | inl e ↦ absurd (false≢true (rw e at h))
      | inr e ↦ rw (e) (
          insert_grant-Made g now_ns t
            (supersede id principal now (load_active_run_grant g.session g.plan t.grants) t) b
            (rw e at h))
    ]

create_with-Made :
    (fails : Bool) (note_runes : ℕ) (id session plan principal : Bytes) (now_ns : ℕ)
    (input : RunGrantInput) (o : Option (List Bytes)) (t : Tables)
    → is_granted (create_with fails note_runes id session plan principal now_ns input o t).1 ≡ true
    → Made id session plan now_ns
        (create_with fails note_runes id session plan principal now_ns input o t).0
unfolding create_with is_granted
create_with-Made fails note_runes id session plan principal now_ns input none t h =
    absurd (false≢true h)
create_with-Made fails note_runes id session plan principal now_ns input (some repositories) t h =
    let bad =
      not (valid_ceiling (trim_space input.wanted_risk)) || not (valid_budgets note_runes input) in
    elim (Bool-cases bad) [
      | inl e ↦ absurd (false≢true (rw e at h))
      | inr e ↦ elim (Bool-cases fails) [
        | inl f ↦ absurd (false≢true (rw (e, f) at h))
        | inr f ↦
            let g = new_grant id session plan principal now_ns repositories input in
            let made : Made g.id g.session g.plan now_ns
                (create_under id principal (now_ns / 1000000) g
                  (load_plan_header session plan t.plans) t).0 =
              create_under-Made id principal (now_ns / 1000000) now_ns g
                (load_plan_header session plan t.plans) t
                (new_grant-Bounded id session plan principal note_runes now_ns repositories input
                  (ground arith) (ground arith))
                (rw (e, f) at h) in
            rw (e, f) (unfold new_grant in made)
      ]
    ]

-- A grant is made only within its bounds, however large the numbers of the request are, products
-- that wrap around included: it is active, the only active one of its plan, with a positive number
-- of tokens, 1 to 1000 attempts and none used, a runtime of up to 30 days, an expiry within 30 days,
-- and a ceiling other than signoff.
pub created-Made :
    (to_lower : Bytes → Bytes) (fails : Bool) (note_runes : ℕ) (id session plan principal : Bytes)
    (now_ns : ℕ) (input : RunGrantInput) (t : Tables)
    → is_granted
        (create_run_grant to_lower fails note_runes id session plan principal now_ns input t).1
      ≡ true
    → Made id session plan now_ns
        (create_run_grant to_lower fails note_runes id session plan principal now_ns input t).0
unfolding create_run_grant is_granted
created-Made to_lower fails note_runes id session plan principal now_ns input t h =
    elim (Bool-cases (str_eq session [] || str_eq plan [] || str_eq principal [])) [
      | inl e ↦ absurd (false≢true (rw e at h))
      | inr e ↦ rw (e) (
          create_with-Made fails note_runes id session plan principal now_ns input
            (normalize_repositories to_lower input.wanted_repositories) t (rw e at h))
    ]
