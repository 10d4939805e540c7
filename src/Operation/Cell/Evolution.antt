-- ===== src/Operation/Cell/Evolution.antt =====
-- How the operations change the steps of an operation: each maps a function over them, and keeps
-- what the scheduler has established about dependencies.
use mcpx.Base.{
  ℕ, ◌≡◌, refl, sym, ◌∙◌, ◌⊎◌, inl, inr, Bool, true, false, List, [], ◌∷◌, map, arith,
  if◌then◌else◌, any, Bool-cases, All, All-at, All-imp, In, Bytes, str_eq, str_eq_refl, str_eq-sym,
  str_eq→eq,
}
use mathlib.Core.Bool.{false≢true}
use mathlib.Core.Path.{subst}
use mcpx.Operation.State.{
  State, running, succeeded, failed, waiting_confirmation, is_succeeded, StepRecord,
}
use mcpx.Operation.Cell.{
  state_of, deps_succeeded, ready_jobs, skip_blocked, start_step, starts, Finish, write_finish,
}

-- The states of a step that the executor has been called for.
abbrev pub started : State → Bool
started running = true
started succeeded = true
started failed = true
started waiting_confirmation = true
started _ = false

abbrev pub is_running : State → Bool
is_running running = true
is_running _ = false

-- What every operation does to a step at most: it keeps the identity, the dependencies and a
-- success, and it starts a step only if the dependencies have succeeded.
pub record Grows (steps : List StepRecord) (s t : StepRecord) : Type 0 where
  pub same_id : t.id ≡ s.id
  pub same_deps : t.depends_on ≡ s.depends_on
  pub keeps : is_succeeded s.state ≡ true → is_succeeded t.state ≡ true
  pub earns :
      started t.state ≡ true → (started s.state ≡ true) ⊎ (deps_succeeded steps s.depends_on ≡ true)

-- A started step has all its dependencies behind it.
abbrev pub Sound : List StepRecord → StepRecord → Type 0
Sound steps s = started s.state ≡ true → deps_succeeded steps s.depends_on ≡ true

pub deps_succeeded-All :
    (steps : List StepRecord) (ds : List Bytes)
    → deps_succeeded steps ds ≡ true
    → All (λ d. is_succeeded (state_of d steps) ≡ true) ds
unfolding deps_succeeded
deps_succeeded-All steps [] h = tt
deps_succeeded-All steps (d ∷ ds) h = (ground arith, deps_succeeded-All steps ds (ground arith))

-- Every step with this ID has all its dependencies behind it.
abbrev pub Ready : List StepRecord → List StepRecord → Bytes → Type 0
Ready steps among id =
    All (λ s. str_eq s.id id ≡ true → deps_succeeded steps s.depends_on ≡ true) among

-- Every step with this ID runs.
abbrev pub Runs : List StepRecord → Bytes → Type 0
Runs steps id = All (λ s. str_eq s.id id ≡ true → is_running s.state ≡ true) steps

abbrev pub Distinct : List StepRecord → Type 0
Distinct [] = Unit
Distinct (s ∷ steps) = All (λ t. str_eq s.id t.id ≡ false) steps × Distinct steps

module _ (f : StepRecord → StepRecord) (before : List StepRecord) where
  abbrev pub GrowsAll : List StepRecord → Type 0
  GrowsAll steps = All (λ s. Grows before s (f s)) steps

  state_of-map :
      (steps : List StepRecord) (d : Bytes)
      → GrowsAll steps
      → is_succeeded (state_of d steps) ≡ true
      → is_succeeded (state_of d (map f steps)) ≡ true
  unfolding state_of
  state_of-map [] d g h = h
  state_of-map (s ∷ steps) d (g, gs) h = ground (arith, g.same_id, g.keeps, state_of-map steps d gs)

  pub deps_succeeded-map :
      (steps : List StepRecord) (ds : List Bytes)
      → GrowsAll steps
      → deps_succeeded steps ds ≡ true
      → deps_succeeded (map f steps) ds ≡ true
  unfolding deps_succeeded
  deps_succeeded-map steps [] g h = refl
  deps_succeeded-map steps (d ∷ ds) g h =
      ground (arith, state_of-map steps d g, deps_succeeded-map steps ds g)

  pub Distinct-map :
      (steps : List StepRecord) → GrowsAll steps → Distinct steps → Distinct (map f steps)
  Distinct-map [] g h = tt
  Distinct-map (s ∷ steps) (g, gs) (h, hs) = (others steps gs h, Distinct-map steps gs hs)
    where
      others :
          (ts : List StepRecord)
          → GrowsAll ts
          → All (λ t. str_eq s.id t.id ≡ false) ts
          → All (λ t. str_eq (f s).id t.id ≡ false) (map f ts)
      others [] k a = tt
      others (t ∷ ts) (k, ks) (a, as') = (rw (g.same_id, k.same_id) a, others ts ks as')

  pub Sound-of_Grows :
      (steps : List StepRecord)
      → GrowsAll before
      → GrowsAll steps
      → All (Sound before) steps
      → All (Sound (map f before)) (map f steps)
  Sound-of_Grows [] g k h = tt
  Sound-of_Grows (s ∷ steps) g (k, ks) (h, hs) = (one, Sound-of_Grows steps g ks hs)
    where
      behind : started (f s).state ≡ true → deps_succeeded before s.depends_on ≡ true
      behind e = elim (k.earns e) [ inl was ↦ h was | inr now ↦ now ]

      one : Sound (map f before) (f s)
      one e = rw k.same_deps (deps_succeeded-map before s.depends_on g (behind e))

  pub Ready-map :
      (steps : List StepRecord) (id : Bytes)
      → GrowsAll before
      → GrowsAll steps
      → Ready before steps id
      → Ready (map f before) (map f steps) id
  Ready-map [] id g k h = tt
  Ready-map (s ∷ steps) id g (k, ks) (h, hs) = (one, Ready-map steps id g ks hs)
    where
      one : str_eq (f s).id id ≡ true → deps_succeeded (map f before) (f s).depends_on ≡ true
      one e = rw k.same_deps (deps_succeeded-map before s.depends_on g (h (rw k.same_id at e)))

  pub Ready-map-All :
      (ids : List Bytes)
      → GrowsAll before
      → All (Ready before before) ids
      → All (Ready (map f before) (map f before)) ids
  Ready-map-All [] g h = tt
  Ready-map-All (id ∷ ids) g (h, hs) = (Ready-map before id g g h, Ready-map-All ids g hs)

  -- A function that keeps running steps running keeps what is held.
  pub Runs-map :
      (steps : List StepRecord) (id : Bytes)
      → GrowsAll steps
      → All (λ s. is_running s.state ≡ true → is_running (f s).state ≡ true) steps
      → Runs steps id
      → Runs (map f steps) id
  Runs-map [] id g k h = tt
  Runs-map (s ∷ steps) id (g, gs) (k, ks) (h, hs) =
      (λ e. k (h (rw g.same_id at e)), Runs-map steps id gs ks hs)

  pub Runs-map-All :
      (ids : List Bytes)
      → GrowsAll before
      → All (λ s. is_running s.state ≡ true → is_running (f s).state ≡ true) before
      → All (Runs before) ids
      → All (Runs (map f before)) ids
  Runs-map-All [] g k h = tt
  Runs-map-All (id ∷ ids) g k (h, hs) = (Runs-map before id g k h, Runs-map-All ids g k hs)

-- The rounds of `reconcile`.
pub Grows-skip_blocked :
    (now : ℕ) (snapshot before : List StepRecord) (s : StepRecord)
    → Grows before s (skip_blocked now snapshot s)
unfolding skip_blocked
Grows-skip_blocked now snapshot before s = record {
  same_id = ground arith;
  same_deps = ground arith;
  keeps = ground arith;
  earns = ground arith;
}

pub skip_blocked-running :
    (now : ℕ) (snapshot : List StepRecord) (s : StepRecord)
    → is_running s.state ≡ true
    → is_running (skip_blocked now snapshot s).state ≡ true
unfolding skip_blocked
skip_blocked-running now snapshot s h = ground arith

pub Grows-start_step :
    (now : ℕ) (id : Bytes) (before : List StepRecord) (s : StepRecord)
    → (str_eq s.id id ≡ true → deps_succeeded before s.depends_on ≡ true)
    → Grows before s (start_step now id s)
unfolding start_step
Grows-start_step now id before s h = record {
  same_id = ground arith;
  same_deps = ground arith;
  keeps = ground arith;
  earns = ground arith;
}

pub start_step-running :
    (now : ℕ) (id : Bytes) (s : StepRecord)
    → is_running s.state ≡ true
    → is_running (start_step now id s).state ≡ true
unfolding start_step
start_step-running now id s h = ground arith

pub Grows-write_finish :
    (now : ℕ) (id : Bytes) (f : Finish) (before : List StepRecord) (s : StepRecord)
    → Sound before s
    → (str_eq s.id id ≡ true → is_running s.state ≡ true)
    → Grows before s (write_finish now id f s)
unfolding write_finish
Grows-write_finish now id f before s sound h = record {
  same_id = ground arith;
  same_deps = ground arith;
  keeps = ground arith;
  earns = ground arith;
}

-- The jobs that `enqueueReady` schedules have their dependencies behind them.
module _ (before : List StepRecord) where
  unlike :
      (id : Bytes) (among : List StepRecord)
      → All (λ t. str_eq id t.id ≡ false) among
      → Ready before among id
  unlike id [] h = tt
  unlike id (t ∷ among) (h, hs) = (
    λ e. absurd (false≢true (sym h ∙ rw (str_eq→eq t.id id e) (str_eq_refl id))),
    unlike id among hs,
  )

  Ready-of_eq :
      (s : StepRecord) (among : List StepRecord)
      → Distinct among
      → In s among
      → deps_succeeded before s.depends_on ≡ true
      → Ready before among s.id
  Ready-of_eq s [] d m h = tt
  Ready-of_eq s (t ∷ among) (d, ds) (inl e) h = (
    λ _. rw (← e) h,
    subst (λ (u : StepRecord). Ready before among u.id) (sym e) (unlike t.id among d),
  )
  Ready-of_eq s (t ∷ among) (d, ds) (inr m) h = (
    λ e. absurd (false≢true (sym (All-at (λ u. str_eq t.id u.id ≡ false) s among d m) ∙ e)),
    Ready-of_eq s among ds m h,
  )

  All-prepend :
      (b : Bool) (id : Bytes) (ids : List Bytes)
      → (b ≡ true → Ready before before id)
      → All (Ready before before) ids
      → All (Ready before before) (if b then id ∷ ids else ids)
  All-prepend true id ids h hs = (h refl, hs)
  All-prepend false id ids h hs = hs

  abbrev Among : List StepRecord → Type 0
  Among = All (λ s. In s before)

  ready_jobs_lem :
      (steps : List StepRecord) (enqueued : List Bytes)
      → Distinct before
      → Among steps
      → All (Ready before before) (ready_jobs before steps enqueued)
  unfolding ready_jobs
  ready_jobs_lem [] enqueued d m = tt
  ready_jobs_lem (s ∷ steps) enqueued d (m, ms) =
      All-prepend _ s.id _ (λ e. Ready-of_eq s before d m (ground arith))
        (ready_jobs_lem steps _ d ms)

pub In-self : (steps : List StepRecord) → All (λ s. In s steps) steps
In-self [] = tt
In-self (s ∷ steps) = (inl refl, All-imp (λ t. In t steps) _ steps (λ t m. inr m) (In-self steps))

pub ready_jobs-Ready :
    (steps : List StepRecord) (enqueued : List Bytes)
    → Distinct steps
    → All (Ready steps steps) (ready_jobs steps steps enqueued)
ready_jobs-Ready steps enqueued d = ready_jobs_lem steps steps enqueued d (In-self steps)

-- Where no step has the ID, nothing starts.
none_starts :
    (now : ℕ) (id : Bytes) (steps : List StepRecord)
    → All (λ t. str_eq id t.id ≡ false) steps
    → (any (starts id) steps ≡ false) × Runs (map (start_step now id) steps) id
unfolding start_step starts
none_starts now id [] h = (refl, tt)
none_starts now id (t ∷ steps) (h, hs) =
    let (quiet, runs) = none_starts now id steps hs in
    (ground (arith, str_eq-sym id t.id), (ground (arith, str_eq-sym id t.id), runs))

-- A claimed step runs: no other row has its ID.
pub start-Runs :
    (now : ℕ) (id : Bytes) (steps : List StepRecord)
    → Distinct steps
    → any (starts id) steps ≡ true
    → Runs (map (start_step now id) steps) id
start-Runs now id [] d h = tt
start-Runs now id (s ∷ steps) (d, ds) h = elim (Bool-cases (str_eq s.id id)) [
  | inl e ↦ hit (str_eq→eq s.id id e)
  | inr n ↦ (
    unfold start_step in ground arith,
    start-Runs now id steps ds (unfold starts in ground arith),
  )
]
  where
    hit : s.id ≡ id → Runs (map (start_step now id) (s ∷ steps)) id
    hit e =
        let (quiet, runs) =
          none_starts now id steps (subst (λ i. All (λ t. str_eq i t.id ≡ false) steps) e d) in
        (unfold start_step starts in ground (arith, quiet), runs)
