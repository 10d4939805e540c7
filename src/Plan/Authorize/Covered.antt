-- ===== src/Plan/Authorize/Covered.antt =====
-- What an authorized call rests on.
use mcpx.Base.{
  ℕ, ◌+◌, ◌<◌, ◌≤◌, ◌≡◌, refl, sym, Bool, true, false, ◌&&◌, Option, none, some, List, [], ◌∷◌, leb,
  In, inl, inr, arith, Bool-cases, Bytes, codes, str_eq, str_eq→eq, trim_space,
}
use mathlib.Core.Bool.{false≢true}
use mcpx.Plan.Repository.{normalize_repository, contains_string}
use mcpx.Plan.Risk.{risk_rank, auto_merge_allowed}
use mcpx.Plan.Grant.{
  Status, active, revoked, superseded, RunGrant, PlanHeader, Tables, is_active, is_closed,
  compute_effective, past_deadline, effective_of, load_active_run_grant, load_plan_header,
  find_task_header,
}
use mcpx.Plan.Authorize.{
  RunGrantUse, Code, authorized, Answer, decided, usable, obstacle, deny, fresh_use, settle_use,
  judge, under_grant, under_plan, incomplete, authorize_run_grant_use,
}

unfoldable pub is_authorized : Answer → Bool
is_authorized (decided (authorized g merge consumed replay)) = true
is_authorized _ = false

-- The grant is in force at the time: not ended, not expired, its runtime and tokens not used up, and
-- its plan is open.
pub record InForce (now : ℕ) (p : PlanHeader) (g : RunGrant) : Type 0 where
  pub not_ended : is_active g.status ≡ true
  pub plan_open : is_closed p.plan_status ≡ false
  pub unexpired : now < g.expires_at
  pub in_time : (first : ℕ) → g.first_used_at ≡ some first → now < first + g.max_runtime_ms
  pub affordable : g.tokens_used < g.max_tokens

effective_of-usable :
    (status : Status) (closed late overrun broke spent : Bool)
    → usable (effective_of status closed late overrun broke spent) ≡ true
    → (is_active status ≡ true)
      × (closed ≡ false)
      × (late ≡ false)
      × (overrun ≡ false)
      × (broke ≡ false)
unfolding effective_of usable
effective_of-usable active true late overrun broke spent h = absurd (false≢true h)
effective_of-usable active false true overrun broke spent h = absurd (false≢true h)
effective_of-usable active false false true broke spent h = absurd (false≢true h)
effective_of-usable active false false false true spent h = absurd (false≢true h)
effective_of-usable active false false false false spent h = (refl, refl, refl, refl, refl)
effective_of-usable revoked closed late overrun broke spent h = absurd (false≢true h)
effective_of-usable superseded closed late overrun broke spent h = absurd (false≢true h)

in_time_of :
    (now runtime first : ℕ) (o : Option ℕ)
    → past_deadline now runtime o ≡ false
    → o ≡ some first
    → now < first + runtime
unfolding past_deadline
in_time_of now runtime first o h e = ground arith

usable-InForce :
    (now : ℕ) (p : PlanHeader) (g : RunGrant)
    → usable (compute_effective now p.plan_status g) ≡ true
    → InForce now p g
unfolding compute_effective
usable-InForce now p g h =
    let (a, c, l, o, k) = effective_of-usable g.status _ _ _ _ _ h in
    record {
      not_ended = a;
      plan_open = c;
      unexpired = ground arith;
      in_time = λ first e. in_time_of now g.max_runtime_ms first g.first_used_at o e;
      affordable = ground arith;
    }

contains_string-In :
    (values : List Bytes) (wanted : Bytes) → contains_string values wanted ≡ true → In wanted values
unfolding contains_string
contains_string-In [] wanted h = absurd (false≢true h)
contains_string-In (v ∷ values) wanted h = elim (Bool-cases (str_eq v wanted)) [
  | inl e ↦ inl (sym (str_eq→eq v wanted e))
  | inr e ↦ inr (contains_string-In values wanted (ground arith))
]

-- The grant covers the call: it is in force, names the repository, and the call's risk is one of the
-- four levels.
pub record Covers (now : ℕ) (p : PlanHeader) (g : RunGrant) (repo risk : Bytes) : Type 0 where
  pub in_force : InForce now p g
  pub in_scope : In repo g.repositories
  pub named : str_eq repo [] ≡ false
  pub rated : 0 < risk_rank risk

obstacle-Covers :
    (now : ℕ) (p : PlanHeader) (g : RunGrant) (repo risk : Bytes)
    → obstacle (compute_effective now p.plan_status g) repo risk g ≡ none
    → Covers now p g repo risk
unfolding obstacle
obstacle-Covers now p g repo risk h = record {
  in_force = usable-InForce now p g (ground arith);
  in_scope = contains_string-In g.repositories repo (ground arith);
  named = ground arith;
  rated = ground arith;
}

-- What the answer says of merging and of attempts is true.
pub record Honest (g : RunGrant) (risk : Bytes) (merge consumed replay : Bool) : Type 0 where
  pub merge_within : merge ≡ true → risk_rank risk ≤ risk_rank g.auto_merge_max_risk
  pub no_signoff : merge ≡ true → str_eq risk (codes "signoff") ≡ false
  pub had_attempts : consumed ≡ true → g.attempts_used < g.max_attempts
  pub free_replay : replay ≡ true → consumed ≡ false

abbrev pub IsHonest : RunGrant → Bytes → Answer → Type 0
IsHonest g risk (decided (authorized g' merge consumed replay)) =
    Honest g risk merge consumed replay
IsHonest g risk _ = Unit

auto_merge_within :
    (risk ceiling : Bytes)
    → auto_merge_allowed risk ceiling ≡ true
    → (risk_rank risk ≤ risk_rank ceiling) × (str_eq risk (codes "signoff") ≡ false)
unfolding auto_merge_allowed
auto_merge_within risk ceiling h = (ground arith, ground arith)

module _ (hash to_lower : Bytes → Bytes) where
  fresh_use-IsHonest :
      (call : RunGrantUse) (repo : Bytes) (consume : Bool) (now : ℕ) (g : RunGrant) (t : Tables)
      → IsHonest g
          (trim_space call.risk_level)
          (fresh_use hash to_lower call repo consume now g t).1
  unfolding fresh_use deny
  fresh_use-IsHonest call repo consume now g t =
      elim (Bool-cases (consume && leb g.max_attempts g.attempts_used)) [
        | inl e ↦ rw (e) tt
        | inr e ↦
            let within = auto_merge_within (trim_space call.risk_level) g.auto_merge_max_risk in
            rw (e) (record {
              merge_within = λ m. (within m).0;
              no_signoff = λ m. (within m).1;
              had_attempts = λ c. ground arith;
              free_replay = λ r. absurd (false≢true r);
            })
      ]

  settle_use-IsHonest :
      (call : RunGrantUse) (session plan repo : Bytes) (repeated : Bool) (now : ℕ) (g : RunGrant)
      (t : Tables)
      → IsHonest g
          (trim_space call.risk_level)
          (settle_use hash to_lower call session plan repo repeated now g t).1
  unfolding settle_use
  settle_use-IsHonest call session plan repo true now g t =
      let within = auto_merge_within (trim_space call.risk_level) g.auto_merge_max_risk in
      record {
        merge_within = λ m. (within m).0;
        no_signoff = λ m. (within m).1;
        had_attempts = λ c. absurd (false≢true c);
        free_replay = λ r. refl;
      }
  settle_use-IsHonest call session plan repo false now g t = fresh_use-IsHonest call repo _ now g t

  judge-IsHonest :
      (call : RunGrantUse) (session plan repo : Bytes) (now : ℕ) (g : RunGrant) (o : Option Code)
      (t : Tables)
      → is_authorized (judge hash to_lower call session plan repo now g o t).1 ≡ true
      → (o ≡ none)
        × IsHonest g
            (trim_space call.risk_level)
            (judge hash to_lower call session plan repo now g o t).1
  unfolding judge deny is_authorized
  judge-IsHonest call session plan repo now g (some code) t h = absurd (false≢true h)
  judge-IsHonest call session plan repo now g none t h =
      (refl, settle_use-IsHonest call session plan repo _ now g t)

  under_grant-Covers :
      (call : RunGrantUse) (session plan : Bytes) (now : ℕ) (p : PlanHeader) (o : Option RunGrant)
      (t : Tables)
      → is_authorized (under_grant hash to_lower call session plan now p o t).1 ≡ true
      → (g : RunGrant) × (o ≡ some g)
        × Covers now p g
            (normalize_repository to_lower call.repository)
            (trim_space call.risk_level)
        × IsHonest g
            (trim_space call.risk_level)
            (under_grant hash to_lower call session plan now p o t).1
  unfolding under_grant is_authorized
  under_grant-Covers call session plan now p none t h = absurd (false≢true h)
  under_grant-Covers call session plan now p (some g) t h =
      elim (Bool-cases (find_task_header plan call.plan_task t.tasks)) [
        | inl f ↦
            let (clear, honest) =
              judge-IsHonest call session plan (normalize_repository to_lower call.repository) now g
                (obstacle (compute_effective now p.plan_status g)
                  (normalize_repository to_lower call.repository) (trim_space call.risk_level) g)
                t (rw f at h) in
            (g, refl, obstacle-Covers now p g _ _ clear, rw f honest)
        | inr f ↦ absurd (false≢true (rw f at h))
      ]

  under_plan-Covers :
      (call : RunGrantUse) (session plan : Bytes) (now : ℕ) (o : Option PlanHeader) (t : Tables)
      → is_authorized (under_plan hash to_lower call session plan now o t).1 ≡ true
      → (p : PlanHeader) × (g : RunGrant) × (o ≡ some p)
        × (load_active_run_grant session plan t.grants ≡ some g)
        × Covers now p g
            (normalize_repository to_lower call.repository)
            (trim_space call.risk_level)
        × IsHonest g
            (trim_space call.risk_level)
            (under_plan hash to_lower call session plan now o t).1
  unfolding under_plan is_authorized
  under_plan-Covers call session plan now none t h = absurd (false≢true h)
  under_plan-Covers call session plan now (some p) t h =
      let (g, e, c, honest) =
        under_grant-Covers call session plan now p (load_active_run_grant session plan t.grants) t
          h in
      (p, g, refl, e, c, honest)

  -- A call that is authorized stands under a plan and an active grant of the session, and the grant
  -- covers it: neither ended nor expired, its plan open, its runtime and tokens not used up, the
  -- call's repository in its list, the call's risk one of the four levels. An attempt is consumed
  -- only where the grant had one left, never by a replay; merging without a human is offered only
  -- up to the grant's ceiling and never at the level signoff.
  pub authorized-Covers :
      (fails : Bool) (session plan : Bytes) (call : RunGrantUse) (now : ℕ) (t : Tables)
      → is_authorized (authorize_run_grant_use hash to_lower fails session plan call now t).1 ≡ true
      → (p : PlanHeader) × (g : RunGrant) × (load_plan_header session plan t.plans ≡ some p)
        × (load_active_run_grant session plan t.grants ≡ some g)
        × Covers now p g
            (normalize_repository to_lower call.repository)
            (trim_space call.risk_level)
        × IsHonest g
            (trim_space call.risk_level)
            (authorize_run_grant_use hash to_lower fails session plan call now t).1
  unfolding authorize_run_grant_use is_authorized
  authorized-Covers fails session plan call now t h =
      elim (Bool-cases (incomplete session plan call)) [
        | inl e ↦ absurd (false≢true (rw e at h))
        | inr e ↦ elim (Bool-cases fails) [
          | inl f ↦ absurd (false≢true (rw (e, f) at h))
          | inr f ↦
              rw (e, f)
                (under_plan-Covers call session plan now (load_plan_header session plan t.plans) t
                  (rw (e, f) at h))
        ]
      ]
