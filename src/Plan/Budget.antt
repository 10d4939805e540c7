-- ===== src/Plan/Budget.antt =====
-- The attempts that a grant counts are those that its uses have consumed.
pub mod Calls
pub mod Changes
pub mod Runs
use mcpx.Base.{
  ℕ, zero, ◌+◌, ◌≤◌, ◌<◌, ◌≡◌, refl, sym, ap, ◌∙◌, Bool, true, false, not, ◌&&◌, ◌||◌, Option, none,
  some, List, [], ◌∷◌, ◌++◌, if◌then◌else◌, leb, any, All, All-at, All-imp, All-In, All-both, In,
  inl, inr, arith, Bool-cases, Bytes, str_eq, str_eq→eq, str_eq_refl, str_eq-sym,
}
use mathlib.Core.Bool.{false≢true}
use mcpx.Plan.Authorize.{spend_row, spend}
use mcpx.Plan.Grant.{RunGrant, GrantUse, Tables, is_active, load_active_run_grant, update_grant}

-- The attempts that the uses of a grant have consumed.
pub consumed_by : Bytes → List GrantUse → ℕ
consumed_by id [] = 0
consumed_by id (u ∷ uses) =
    if str_eq u.use_grant id && u.attempt_consumed
    then consumed_by id uses + 1
    else consumed_by id uses

abbrev pub Other : RunGrant → RunGrant → Type 0
Other g h = str_eq h.id g.id ≡ false

abbrev pub DistinctGrants : List RunGrant → Type 0
DistinctGrants [] = Unit
DistinctGrants (g ∷ grants) = All (Other g) grants × DistinctGrants grants

abbrev pub WithinBudget : List GrantUse → RunGrant → Type 0
WithinBudget uses g = (consumed_by g.id uses ≡ g.attempts_used) × (g.attempts_used ≤ g.max_attempts)

abbrev pub known : List RunGrant → Bytes → Bool
known grants id = any (λ (g : RunGrant). str_eq g.id id) grants

pub record Budgeted (t : Tables) : Type 0 where
  pub distinct : DistinctGrants t.grants
  pub within : All (WithinBudget t.uses) t.grants
  pub of_grants : All (λ u. known t.grants u.use_grant ≡ true) t.uses

-- In a list without a second row of an ID, the rows with that ID are one.
pub one_row :
    (grants : List RunGrant) (g h : RunGrant)
    → DistinctGrants grants
    → In g grants
    → In h grants
    → str_eq h.id g.id ≡ true
    → h ≡ g
one_row [] g h d i j e = absurd i
one_row (k ∷ grants) g h (others, d) (inl p) (inl q) e = q ∙ sym p
one_row (k ∷ grants) g h (others, d) (inl p) (inr j) e = absurd (
    false≢true (
      sym (All-at (Other k) h grants others j)
      ∙ ap (λ (r : RunGrant). str_eq h.id r.id) (sym p)
      ∙ e))
one_row (k ∷ grants) g h (others, d) (inr i) (inl q) e = absurd (
    false≢true (
      sym (All-at (Other k) g grants others i)
      ∙ str_eq-sym g.id k.id
      ∙ ap (λ (r : RunGrant). str_eq r.id g.id) (sym q)
      ∙ e))
one_row (k ∷ grants) g h (others, d) (inr i) (inr j) e = one_row grants g h d i j e

pub load_active_run_grant-In :
    (session plan : Bytes) (grants : List RunGrant) (g : RunGrant)
    → load_active_run_grant session plan grants ≡ some g
    → In g grants × (is_active g.status ≡ true)
unfolding load_active_run_grant
load_active_run_grant-In session plan [] g h = ground arith
load_active_run_grant-In session plan (k ∷ grants) g h =
    elim (Bool-cases (str_eq k.session session && str_eq k.plan plan && is_active k.status)) [
      | inl e ↦
          let same : k ≡ g = ground arith in
          (inl (sym same), sym (ap (λ (r : RunGrant). is_active r.status) same) ∙ (ground arith))
      | inr e ↦
          let (i, a) = load_active_run_grant-In session plan grants g (ground arith) in (inr i, a)
    ]

pub update_grant-All {κ μ} :
    (P : RunGrant → Type κ) (Q : RunGrant → Type μ) (id : Bytes) (change : RunGrant → RunGrant)
    (grants : List RunGrant)
    → ((h : RunGrant) → P h → Q (if str_eq h.id id then change h else h))
    → All P grants
    → All Q (update_grant id change grants)
unfolding update_grant
update_grant-All P Q id change [] f ps = tt
update_grant-All P Q id change (g ∷ grants) f (p, ps) =
    (f g p, update_grant-All P Q id change grants f ps)

module _ (id : Bytes) (change : RunGrant → RunGrant)
    (same : (g : RunGrant) → (change g).id ≡ g.id) where
  pub kept_id : (g : RunGrant) → (if str_eq g.id id then change g else g).id ≡ g.id
  kept_id g = let e = same g in ground arith

  pub update_grant-Distinct :
      (grants : List RunGrant)
      → DistinctGrants grants
      → DistinctGrants (update_grant id change grants)
  unfolding update_grant
  update_grant-Distinct [] d = tt
  update_grant-Distinct (g ∷ grants) (others, d) = (
    update_grant-All (Other g) (Other (if str_eq g.id id then change g else g)) id change grants
        (λ h o.
          ap (λ x. str_eq x (if str_eq g.id id then change g else g).id) (kept_id h)
          ∙ ap (str_eq h.id) (kept_id g)
          ∙ o)
        others,
    update_grant-Distinct grants d,
  )

  pub known-update_grant :
      (grants : List RunGrant) (wanted : Bytes)
      → known (update_grant id change grants) wanted ≡ known grants wanted
  unfolding update_grant
  known-update_grant [] wanted = refl
  known-update_grant (g ∷ grants) wanted = rw (kept_id g, known-update_grant grants wanted) refl

-- The rows when a use is added to a grant, which is active and whose attempts it may raise.
module _ (u : GrantUse) (g : RunGrant) (now : ℕ) (own : str_eq u.use_grant g.id ≡ true)
    (active_row : is_active g.status ≡ true) where
  pub spend_row-WithinBudget :
      (uses : List GrantUse) (h : RunGrant)
      → (u.attempt_consumed ≡ true → g.attempts_used < g.max_attempts)
      → (str_eq h.id g.id ≡ true → h ≡ g)
      → WithinBudget uses h
      → WithinBudget (u ∷ uses) (if str_eq h.id g.id then spend_row u.attempt_consumed now h else h)
  unfolding consumed_by spend_row
  spend_row-WithinBudget uses h room one w = elim (Bool-cases (str_eq h.id g.id)) [
    | inl e ↦
        let same = one e in
        let mine = ap (λ (r : RunGrant). str_eq u.use_grant r.id) same ∙ own in
        let running = ap (λ (r : RunGrant). is_active r.status) same ∙ active_row in
        let a = ap (λ (r : RunGrant). r.attempts_used) same in
        let m = ap (λ (r : RunGrant). r.max_attempts) same in ground (arith, room)
    | inr e ↦
        let other =
          ap (λ x. str_eq x h.id) (str_eq→eq u.use_grant g.id own) ∙ str_eq-sym g.id h.id ∙ e in
        ground arith
  ]

pub In-known : (g : RunGrant) (grants : List RunGrant) → In g grants → known grants g.id ≡ true
In-known g [] i = absurd i
In-known g (h ∷ grants) (inl e) =
    let same = ap (λ (r : RunGrant). str_eq r.id g.id) (sym e) ∙ str_eq_refl g.id in ground arith
In-known g (h ∷ grants) (inr i) = let found = In-known g grants i in ground arith

pub empty-Budgeted : (t : Tables) → t.grants ≡ [] → t.uses ≡ [] → Budgeted t
empty-Budgeted t g u = record { distinct = rw (g) tt; within = rw (g) tt; of_grants = rw (u) tt }
