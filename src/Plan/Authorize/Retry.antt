-- ===== src/Plan/Authorize/Retry.antt =====
-- A call that is repeated with its key.
use mcpx.Base.{
  ℕ, ◌≡◌, refl, sym, ap, ◌∙◌, Bool, true, false, ◌&&◌, Option, none, some, List, [], ◌∷◌,
  if◌then◌else◌, leb, any, inl, inr, arith, Bool-cases, Bytes, str_eq, str_eq_refl, trim_space,
}
use mathlib.Core.Bool.{false≢true}
use mcpx.Plan.Grant.{
  RunGrant, PlanHeader, Tables, is_active, load_active_run_grant, load_plan_header,
  find_task_header, update_grant,
}
use mcpx.Plan.Authorize.{
  RunGrantUse, Code, authorized, denied, Answer, decided, failed, use_row, spend_row, spend,
  same_use, deny, fresh_use, settle_use, judge, under_grant, under_plan, incomplete,
  authorize_run_grant_use,
}
use mcpx.Plan.Authorize.Covered.{is_authorized}

-- An answer that does not authorize, or one that says that it repeats an earlier use.
abbrev pub SaysReplay : Answer → Type 0
SaysReplay (decided (authorized g auto_merge consumed replay)) =
    (consumed ≡ false) × (replay ≡ true)
SaysReplay (decided (denied code)) = Unit
SaysReplay (failed e) = Unit

-- Nothing but the events differs, and the answer charges nothing.
pub record IsFree (s : Tables) (result : Tables × Answer) : Type 0 where
  pub same_grants : result.0.grants ≡ s.grants
  pub same_uses : result.0.uses ≡ s.uses
  pub says_replay : SaysReplay result.1

charged_row :
    (consume : Bool) (now : ℕ) (g : RunGrant)
    → ((spend_row consume now g).id ≡ g.id)
      × ((spend_row consume now g).session ≡ g.session)
      × ((spend_row consume now g).plan ≡ g.plan)
      × ((spend_row consume now g).status ≡ g.status)
unfolding spend_row spend
charged_row consume now g = (ground arith, ground arith, ground arith, ground arith)

-- The row of an ID or another one, behind the charge.
kept_row :
    (id : Bytes) (consume : Bool) (now : ℕ) (g h : RunGrant)
    → h ≡ (if str_eq g.id id then spend_row consume now g else g)
    → (h.id ≡ g.id) × (h.session ≡ g.session) × (h.plan ≡ g.plan) × (h.status ≡ g.status)
kept_row id consume now g h e = elim (Bool-cases (str_eq g.id id)) [
  | inl m ↦
      let (i, s, p, a) = charged_row consume now g in
      let same : h ≡ spend_row consume now g = e ∙ rw (m) refl in
      (
        ap (λ (r : RunGrant). r.id) same ∙ i,
        ap (λ (r : RunGrant). r.session) same ∙ s,
        ap (λ (r : RunGrant). r.plan) same ∙ p,
        ap (λ (r : RunGrant). r.status) same ∙ a,
      )
  | inr m ↦
      let same : h ≡ g = e ∙ rw (m) refl in
      (
        ap (λ (r : RunGrant). r.id) same,
        ap (λ (r : RunGrant). r.session) same,
        ap (λ (r : RunGrant). r.plan) same,
        ap (λ (r : RunGrant). r.status) same,
      )
]

nothing_active :
    (session plan : Bytes) (g : RunGrant) → load_active_run_grant session plan [] ≡ some g → ⊥
unfolding load_active_run_grant
nothing_active session plan g e = cc

some_injective : (g h : RunGrant) → ◌≡◌ {A = Option RunGrant} (some g) (some h) → g ≡ h
some_injective g h e = cc

abbrev is_the_active : Bytes → Bytes → RunGrant → Bool
is_the_active session plan g = str_eq g.session session && str_eq g.plan plan && is_active g.status

active_head :
    (session plan : Bytes) (k h : RunGrant) (rows : List RunGrant)
    → is_the_active session plan k ≡ true
    → load_active_run_grant session plan (k ∷ rows) ≡ some h
    → k ≡ h
unfolding load_active_run_grant
active_head session plan k h rows m e = ground arith

active_tail :
    (session plan : Bytes) (k : RunGrant) (rows : List RunGrant) (o : Option RunGrant)
    → is_the_active session plan k ≡ false
    → load_active_run_grant session plan (k ∷ rows) ≡ o
    → load_active_run_grant session plan rows ≡ o
unfolding load_active_run_grant
active_tail session plan k rows o m e = ground arith

same_active :
    (session plan : Bytes) (k k' : RunGrant)
    → k'.session ≡ k.session
    → k'.plan ≡ k.plan
    → k'.status ≡ k.status
    → is_the_active session plan k' ≡ is_the_active session plan k
same_active session plan k k' s p a =
    ap (λ x. str_eq x session && str_eq k'.plan plan && is_active k'.status) s
    ∙ ap (λ x. str_eq k.session session && str_eq x plan && is_active k'.status) p
    ∙ ap (λ x. str_eq k.session session && str_eq k.plan plan && is_active x) a

-- The active grant of a plan is the same one behind the charge.
charged_active :
    (session plan id : Bytes) (consume : Bool) (now : ℕ) (grants : List RunGrant) (g h : RunGrant)
    → load_active_run_grant session plan grants ≡ some g
    → load_active_run_grant session plan (update_grant id (spend_row consume now) grants) ≡ some h
    → h.id ≡ g.id
unfolding update_grant
charged_active session plan id consume now [] g h e f = absurd (nothing_active session plan g e)
charged_active session plan id consume now (k ∷ grants) g h e f =
    let k' = (if str_eq k.id id then spend_row consume now k else k) in
    let (i, s, p, a) = kept_row id consume now k k' refl in
    let rest = charged_active session plan id consume now grants g h in
    let hits = same_active session plan k k' s p a in
    elim (Bool-cases (is_the_active session plan k)) [
      | inl m ↦
          ap (λ (r : RunGrant). r.id) (sym (active_head session plan k' h _ (hits ∙ m) f))
          ∙ i
          ∙ ap (λ (r : RunGrant). r.id) (active_head session plan k g grants m e)
      | inr m ↦
          rest (active_tail session plan k grants (some g) m e)
            (active_tail session plan k' _ (some h) (hits ∙ m) f)
    ]

-- The call has its row for the active grant, if there is one.
abbrev Recorded : (Bytes → Bytes) → Bytes → Bytes → RunGrantUse → Tables → Type 0
Recorded hash session plan call t =
    (g : RunGrant)
    → load_active_run_grant session plan t.grants ≡ some g
    → any (same_use g.id call.plan_task (hash (trim_space call.idempotency_key))) t.uses ≡ true

module _ (hash to_lower : Bytes → Bytes) (session plan : Bytes) (call : RunGrantUse) where
  judge-IsFree :
      (repo : Bytes) (now : ℕ) (g : RunGrant) (o : Option Code) (t : Tables)
      → any (same_use g.id call.plan_task (hash (trim_space call.idempotency_key))) t.uses ≡ true
      → IsFree t (judge hash to_lower call session plan repo now g o t)
  unfolding judge deny settle_use
  judge-IsFree repo now g (some code) t h = record {
    same_grants = refl;
    same_uses = refl;
    says_replay = tt;
  }
  judge-IsFree repo now g none t h =
      rw (h) (record { same_grants = refl; same_uses = refl; says_replay = (refl, refl) })

  under_grant-IsFree :
      (now : ℕ) (p : PlanHeader) (o : Option RunGrant) (t : Tables)
      → load_active_run_grant session plan t.grants ≡ o
      → Recorded hash session plan call t
      → IsFree t (under_grant hash to_lower call session plan now p o t)
  unfolding under_grant
  under_grant-IsFree now p none t e r = record {
    same_grants = refl;
    same_uses = refl;
    says_replay = tt;
  }
  under_grant-IsFree now p (some g) t e r =
      elim (Bool-cases (find_task_header plan call.plan_task t.tasks)) [
        | inl f ↦ rw (f) (judge-IsFree _ now g _ t (r g e))
        | inr f ↦ rw (f) (record { same_grants = refl; same_uses = refl; says_replay = tt })
      ]

  under_plan-IsFree :
      (now : ℕ) (o : Option PlanHeader) (t : Tables)
      → Recorded hash session plan call t
      → IsFree t (under_plan hash to_lower call session plan now o t)
  unfolding under_plan
  under_plan-IsFree now none t r = record { same_grants = refl; same_uses = refl; says_replay = tt }
  under_plan-IsFree now (some p) t r = under_grant-IsFree now p _ t refl r

  again-IsFree :
      (fails : Bool) (now : ℕ) (t : Tables)
      → Recorded hash session plan call t
      → IsFree t (authorize_run_grant_use hash to_lower fails session plan call now t)
  unfolding authorize_run_grant_use
  again-IsFree fails now t r =
      let checked = under_plan-IsFree now (load_plan_header session plan t.plans) t r in
      elim (Bool-cases (incomplete session plan call)) [
        | inl e ↦ rw (e) (record { same_grants = refl; same_uses = refl; says_replay = tt })
        | inr e ↦ elim (Bool-cases fails) [
          | inl f ↦ rw (e, f) (record { same_grants = refl; same_uses = refl; says_replay = tt })
          | inr f ↦ rw (e, f) checked
        ]
      ]

  fresh_use-Recorded :
      (repo : Bytes) (consume : Bool) (now : ℕ) (g : RunGrant) (t : Tables)
      → load_active_run_grant session plan t.grants ≡ some g
      → is_authorized (fresh_use hash to_lower call repo consume now g t).1 ≡ true
      → Recorded hash session plan call (fresh_use hash to_lower call repo consume now g t).0
  unfolding fresh_use deny is_authorized use_row same_use
  fresh_use-Recorded repo consume now g t e h =
      elim (Bool-cases (consume && leb g.max_attempts g.attempts_used)) [
        | inl m ↦ absurd (false≢true (rw m at h))
        | inr m ↦ rw (m) (λ g' f.
            let same = charged_active session plan g.id consume now t.grants g g' e f in
            let key = hash (trim_space call.idempotency_key) in
            rw (same, str_eq_refl g.id, str_eq_refl call.plan_task, str_eq_refl key) refl)
      ]

  settle_use-Recorded :
      (repo : Bytes) (repeated : Bool) (now : ℕ) (g : RunGrant) (t : Tables)
      → load_active_run_grant session plan t.grants ≡ some g
      → (repeated ≡ true
          → any (same_use g.id call.plan_task (hash (trim_space call.idempotency_key))) t.uses
            ≡ true)
      → is_authorized (settle_use hash to_lower call session plan repo repeated now g t).1 ≡ true
      → Recorded hash session plan call
          (settle_use hash to_lower call session plan repo repeated now g t).0
  unfolding settle_use
  settle_use-Recorded repo true now g t e r h = λ g' f.
      let same : g ≡ g' = some_injective g g' (sym e ∙ f) in
      ap
        (λ (x : RunGrant).
          any (same_use x.id call.plan_task (hash (trim_space call.idempotency_key))) t.uses)
        (sym same)
      ∙ r refl
  settle_use-Recorded repo false now g t e r h = fresh_use-Recorded repo _ now g t e h

  judge-Recorded :
      (repo : Bytes) (now : ℕ) (g : RunGrant) (o : Option Code) (t : Tables)
      → load_active_run_grant session plan t.grants ≡ some g
      → is_authorized (judge hash to_lower call session plan repo now g o t).1 ≡ true
      → Recorded hash session plan call (judge hash to_lower call session plan repo now g o t).0
  unfolding judge deny is_authorized
  judge-Recorded repo now g (some code) t e h = absurd (false≢true h)
  judge-Recorded repo now g none t e h = settle_use-Recorded repo _ now g t e (λ x. x) h

  under_grant-Recorded :
      (now : ℕ) (p : PlanHeader) (o : Option RunGrant) (t : Tables)
      → load_active_run_grant session plan t.grants ≡ o
      → is_authorized (under_grant hash to_lower call session plan now p o t).1 ≡ true
      → Recorded hash session plan call (under_grant hash to_lower call session plan now p o t).0
  unfolding under_grant is_authorized
  under_grant-Recorded now p none t e h = absurd (false≢true h)
  under_grant-Recorded now p (some g) t e h =
      elim (Bool-cases (find_task_header plan call.plan_task t.tasks)) [
        | inl f ↦ rw (f) (judge-Recorded _ now g _ t e (rw f at h))
        | inr f ↦ absurd (false≢true (rw f at h))
      ]

  under_plan-Recorded :
      (now : ℕ) (o : Option PlanHeader) (t : Tables)
      → is_authorized (under_plan hash to_lower call session plan now o t).1 ≡ true
      → Recorded hash session plan call (under_plan hash to_lower call session plan now o t).0
  unfolding under_plan is_authorized
  under_plan-Recorded now none t h = absurd (false≢true h)
  under_plan-Recorded now (some p) t h = under_grant-Recorded now p _ t refl h

  authorized-Recorded :
      (fails : Bool) (now : ℕ) (t : Tables)
      → is_authorized (authorize_run_grant_use hash to_lower fails session plan call now t).1 ≡ true
      → Recorded hash session plan call
          (authorize_run_grant_use hash to_lower fails session plan call now t).0
  unfolding authorize_run_grant_use is_authorized
  authorized-Recorded fails now t h = elim (Bool-cases (incomplete session plan call)) [
    | inl e ↦ absurd (false≢true (rw e at h))
    | inr e ↦ elim (Bool-cases fails) [
      | inl f ↦ absurd (false≢true (rw (e, f) at h))
      | inr f ↦
          rw (e, f)
            (under_plan-Recorded now (load_plan_header session plan t.plans) t (rw (e, f) at h))
    ]
  ]

  -- On the tables that an authorized call has left, the same call with the same key, at any time and
  -- whether or not the database fails then, changes no grant and adds no use, and if its answer
  -- authorizes, it says that no attempt was consumed and that it is a replay.
  pub retry-IsFree :
      (fails fails_again : Bool) (now later : ℕ) (t : Tables)
      → is_authorized (authorize_run_grant_use hash to_lower fails session plan call now t).1 ≡ true
      → IsFree (authorize_run_grant_use hash to_lower fails session plan call now t).0 (
          authorize_run_grant_use hash to_lower fails_again session plan call later
            (authorize_run_grant_use hash to_lower fails session plan call now t).0)
  retry-IsFree fails fails_again now later t h =
      again-IsFree fails_again later _ (authorized-Recorded fails now t h)
