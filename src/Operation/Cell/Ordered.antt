-- ===== src/Operation/Cell/Ordered.antt =====
-- The scheduler's invariant, and the operations of Cell.antt under it.
use mcpx.Base.{
  ℕ, ◌≡◌, refl, sym, ◌∙◌, true, false, Option, none, some, List, [], ◌∷◌, map, arith, Bool-cases,
  inl, inr, any, str_eq, str_eq→eq, All, All-of, All-append, All-parts, append_assoc, ◌++◌, Bytes,
}
use mathlib.Core.Bool.{false≢true}
use mcpx.Operation.State.{State, StepRecord, Record, terminal}
use mcpx.Operation.Aggregate.{aggregate_state}
use mcpx.Operation.Cell.{
  Active, Cell, enqueue_from, ready_jobs, enqueue_active, finish_active, persist_state,
  reconcile_cancelled, reconcile_open, reconcile_locked, skip_blocked, starts, start_step,
  mark_step_running, Finish, write_finish, finish_step, remove,
}
use mcpx.Operation.Cell.Evolution.{
  start-Runs, Grows-start_step, start_step-running, Grows-write_finish, Sound, Ready, Runs,
  Distinct, Grows, GrowsAll, Distinct-map, Sound-of_Grows, Ready-map-All, Runs-map-All, is_running,
  Grows-skip_blocked, skip_blocked-running, ready_jobs-Ready,
}

-- The steps whose executor call is under way.
abbrev pub held : Option Active → List Bytes
held none = []
held (some a) = a.step_cancel

-- Started steps and scheduled jobs have all their dependencies behind them.
pub record IsOrdered (steps : List StepRecord) (jobs running : List Bytes) : Type 0 where
  pub distinct : Distinct steps
  pub sound : All (Sound steps) steps
  pub jobs_ready : All (Ready steps steps) jobs
  pub held_run : All (Runs steps) running

-- The invariant of a cell, and of jobs besides its own.
abbrev pub OrderedWith : List Bytes → Cell → Type 0
OrderedWith extra c = IsOrdered c.row.steps (extra ++ c.pending) (held c.active)

-- A function over the steps keeps the invariant if it grows every step and stops none that runs.
pub IsOrdered-map :
    (f : StepRecord → StepRecord) (steps : List StepRecord) {jobs running : List Bytes}
    → IsOrdered steps jobs running
    → GrowsAll f steps steps
    → All (λ s. is_running s.state ≡ true → is_running (f s).state ≡ true) steps
    → IsOrdered (map f steps) jobs running
IsOrdered-map f steps {jobs} {running} o g r = record {
  distinct = Distinct-map f steps steps g o.distinct;
  sound = Sound-of_Grows f steps steps g g o.sound;
  jobs_ready = Ready-map-All f steps jobs g o.jobs_ready;
  held_run = Runs-map-All f steps running g r o.held_run;
}

-- Other jobs, if they are ready too.
pub with_jobs :
    {steps : List StepRecord} {jobs running : List Bytes} (others : List Bytes)
    → IsOrdered steps jobs running
    → All (Ready steps steps) others
    → IsOrdered steps others running
with_jobs others o h = record {
  distinct = o.distinct;
  sound = o.sound;
  jobs_ready = h;
  held_run = o.held_run;
}

-- The jobs that a reading of the steps gives are ready, whatever is enqueued.
pub read_jobs :
    (extra enqueued : List Bytes) (c : Cell)
    → OrderedWith extra c
    → OrderedWith (ready_jobs c.row.steps c.row.steps enqueued ++ extra) c
read_jobs extra enqueued c o =
    let jobs = ready_jobs c.row.steps c.row.steps enqueued in
    with_jobs ((jobs ++ extra) ++ c.pending) o (
      rw (append_assoc jobs extra c.pending) (
        All-append _ jobs (extra ++ c.pending) (ready_jobs-Ready c.row.steps enqueued o.distinct)
          o.jobs_ready))

enqueue_active-Ordered :
    (steps : List StepRecord) (extra : List Bytes) (c : Cell) (a : Active)
    → c.active ≡ some a
    → OrderedWith (ready_jobs steps steps a.enqueued ++ extra) c
    → OrderedWith extra c
    → OrderedWith extra (enqueue_active steps c a)
unfolding enqueue_active
enqueue_active-Ordered steps extra c a e ready o = elim (Bool-cases a.cancel_requested) [
  | inl h ↦ rw h o
  | inr h ↦
      let jobs = ready_jobs steps steps a.enqueued in
      let (fresh, _) =
        All-parts _ jobs (extra ++ c.pending)
          (rw (append_assoc jobs extra c.pending) at ready.jobs_ready) in
      rw h (record {
        distinct = o.distinct;
        sound = o.sound;
        jobs_ready =
            rw (← append_assoc extra c.pending jobs)
              (All-append _ (extra ++ c.pending) jobs o.jobs_ready fresh);
        held_run = rw e at o.held_run;
      })
]

-- Scheduling by a reading of the steps whose jobs are still ready.
pub enqueue_from-Ordered :
    (steps : List StepRecord) (extra : List Bytes) (c : Cell)
    → ((enqueued : List Bytes) → OrderedWith (ready_jobs steps steps enqueued ++ extra) c)
    → OrderedWith extra c
    → OrderedWith extra (enqueue_from steps c)
unfolding enqueue_from
enqueue_from-Ordered steps extra c ready o = go c.active refl
  where
    go : (a : Option Active) → c.active ≡ a → OrderedWith extra (enqueue_from steps c)
    go none e = rw (e, enqueue_from) o
    go (some a) e =
        rw (e, enqueue_from) (enqueue_active-Ordered steps extra c a e (ready a.enqueued) o)

pub steps-persist_state :
    (now : ℕ) (s : State) (r : Record) → (persist_state now s r).steps ≡ r.steps
unfolding persist_state
steps-persist_state now s r = ground arith

-- Forgetting what runs, and the other fields of the row, keeps the invariant.
forget :
    {steps : List StepRecord} {jobs running : List Bytes}
    → IsOrdered steps jobs running
    → IsOrdered steps jobs []
forget o = record {
  distinct = o.distinct;
  sound = o.sound;
  jobs_ready = o.jobs_ready;
  held_run = tt;
}

skip-IsOrdered :
    (now : ℕ) (steps : List StepRecord) {jobs running : List Bytes}
    → IsOrdered steps jobs running
    → IsOrdered (map (skip_blocked now steps) steps) jobs running
skip-IsOrdered now steps o =
    IsOrdered-map (skip_blocked now steps) steps o
      (All-of _ steps (Grows-skip_blocked now steps steps))
      (All-of _ steps (skip_blocked-running now steps))

reconcile_cancelled-Ordered :
    (now : ℕ) (extra : List Bytes) (c : Cell) (a : Active)
    → OrderedWith extra c
    → OrderedWith extra (reconcile_cancelled now c a)
unfolding reconcile_cancelled finish_active
reconcile_cancelled-Ordered now extra c a o =
    elim a.step_cancel as (λ l. OrderedWith extra (reconcile_with l)) [
      | [] ↦ rw steps-persist_state (forget o)
      | x ∷ xs ↦ o
    ]
  where
    reconcile_with : List Bytes → Cell
    reconcile_with l = reconcile_cancelled now c (record a { step_cancel = l })

reconcile_open-Ordered :
    (now : ℕ) (extra : List Bytes) (c : Cell)
    → OrderedWith extra c
    → OrderedWith extra (reconcile_open now c).0
unfolding reconcile_open finish_active
reconcile_open-Ordered now extra c o =
    elim (Bool-cases
      (terminal (aggregate_state (map (skip_blocked now c.row.steps) c.row.steps)))) [
        | inl h ↦ rw h (rw steps-persist_state (forget (skip-IsOrdered now c.row.steps o)))
        | inr h ↦ rw h (rw steps-persist_state (skip-IsOrdered now c.row.steps o))
      ]

pub reconcile_locked-Ordered :
    (now : ℕ) (extra : List Bytes) (c : Cell)
    → OrderedWith extra c
    → OrderedWith extra (reconcile_locked now c).0
unfolding reconcile_locked
reconcile_locked-Ordered now extra c o = go c.active refl
  where
    go : (a : Option Active) → c.active ≡ a → OrderedWith extra (reconcile_locked now c).0
    go none e = rw (e, reconcile_locked) (reconcile_open-Ordered now extra c o)
    go (some a) e = elim (Bool-cases a.cancel_requested) [
      | inl h ↦ rw (e, reconcile_locked) (rw h (reconcile_cancelled-Ordered now extra c a o))
      | inr h ↦ rw (e, reconcile_locked) (rw h (reconcile_open-Ordered now extra c o))
    ]

Ready-starts :
    (now : ℕ) (id : Bytes) (before among : List StepRecord)
    → Ready before among id
    → All (λ s. Grows before s (start_step now id s)) among
Ready-starts now id before [] h = tt
Ready-starts now id before (s ∷ among) (h, hs) =
    (Grows-start_step now id before s h, Ready-starts now id before among hs)

-- Claiming a ready step.
pub mark_step_running-IsOrdered :
    (now : ℕ) (id : Bytes) (r : Record) {jobs running : List Bytes}
    → IsOrdered r.steps jobs running
    → Ready r.steps r.steps id
    → (mark_step_running now id r).1 ≡ true
    → IsOrdered (mark_step_running now id r).0.steps jobs (id ∷ running)
mark_step_running-IsOrdered now id r {jobs} {running} o ready claimed =
    rw (steps_lem claimed) (record {
      distinct = grown.distinct;
      sound = grown.sound;
      jobs_ready = grown.jobs_ready;
      held_run = (start-Runs now id r.steps o.distinct (found claimed), grown.held_run);
    })
  where
    grown : IsOrdered (map (start_step now id) r.steps) jobs running
    grown =
        IsOrdered-map (start_step now id) r.steps o (Ready-starts now id r.steps r.steps ready)
          (All-of _ r.steps (start_step-running now id))

    found : (mark_step_running now id r).1 ≡ true → any (starts id) r.steps ≡ true
    found h = unfold mark_step_running in ground arith

    steps_lem :
        (mark_step_running now id r).1 ≡ true
        → (mark_step_running now id r).0.steps ≡ map (start_step now id) r.steps
    steps_lem h = unfold mark_step_running in ground arith

finish-Grows :
    (now : ℕ) (id : Bytes) (f : Finish) (before among : List StepRecord)
    → All (Sound before) among
    → Runs among id
    → All (λ s. Grows before s (write_finish now id f s)) among
finish-Grows now id f before [] h k = tt
finish-Grows now id f before (s ∷ among) (h, hs) (k, ks) =
    (Grows-write_finish now id f before s h k, finish-Grows now id f before among hs ks)

finish_other :
    (now : ℕ) (id other : Bytes) (f : Finish) (steps : List StepRecord)
    → str_eq id other ≡ false
    → Runs steps other
    → Runs (map (write_finish now id f) steps) other
finish_other now id other f [] n h = tt
finish_other now id other f (s ∷ steps) n (h, hs) = (one, finish_other now id other f steps n hs)
  where
    one :
        str_eq (write_finish now id f s).id other ≡ true
        → is_running (write_finish now id f s).state ≡ true
    one e = elim (Bool-cases (str_eq s.id id)) [
      | inl same ↦ absurd (
          false≢true
            (sym n ∙ rw (← (str_eq→eq s.id id same)) (unfold write_finish in ground arith)))
      | inr differs ↦ unfold write_finish in ground arith
    ]

finish_others :
    (now : ℕ) (id : Bytes) (f : Finish) (steps : List StepRecord) (running : List Bytes)
    → All (Runs steps) running
    → All (Runs (map (write_finish now id f) steps)) (remove id running)
unfolding remove
finish_others now id f steps [] h = tt
finish_others now id f steps (x ∷ running) (h, hs) = elim (Bool-cases (str_eq id x)) [
  | inl e ↦ rw e (finish_others now id f steps running hs)
  | inr e ↦ rw e (finish_other now id x f steps e h, finish_others now id f steps running hs)
]

-- Recording the end of a step that runs.
pub finish_step-IsOrdered :
    (now : ℕ) (id : Bytes) (f : Finish) (r : Record) {jobs running : List Bytes}
    → IsOrdered r.steps jobs running
    → Runs r.steps id
    → IsOrdered (finish_step now id f r).steps jobs (remove id running)
unfolding finish_step
finish_step-IsOrdered now id f r {jobs} {running} o runs =
    let g = finish-Grows now id f r.steps r.steps o.sound runs in
    record {
      distinct = Distinct-map (write_finish now id f) r.steps r.steps g o.distinct;
      sound = Sound-of_Grows (write_finish now id f) r.steps r.steps g g o.sound;
      jobs_ready = Ready-map-All (write_finish now id f) r.steps jobs g o.jobs_ready;
      held_run = finish_others now id f r.steps running o.held_run;
    }
