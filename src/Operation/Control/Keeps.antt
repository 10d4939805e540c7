-- ===== src/Operation/Control/Keeps.antt =====
-- `Cancel`, `Resume` and a restart keep the scheduler's invariant.
use mcpx.Base.{
  append-nil, All-parts, ◌++◌, ℕ, ◌≡◌, refl, Bool, Option, none, some, List, [], map, arith, ◌⊎◌,
  Bool-cases, inl, inr, All-of, Bytes,
}
use mcpx.Operation.State.{State, interrupted, StepRecord, Record, terminal}
use mcpx.Operation.Cell.{Active, Cell}
use mcpx.Operation.Cell.Evolution.{Grows, GrowsAll, Ready-map-All, Distinct-map, Sound-of_Grows}
use mcpx.Operation.Cell.Final.{Final}
use mcpx.Operation.Cell.Ordered.{
  held, IsOrdered, OrderedWith, with_jobs, IsOrdered-map, steps-persist_state,
}
use mcpx.Operation.Control.{
  cancel_waiting, cancel_open, cancel_locked, requeue, resume_open, resume_locked, resume_active,
  active_or_restored, restore_active, recover_interrupted, interrupt_step, interrupt_steps, lost,
  restart,
}

Grows-cancel_waiting :
    (now : ℕ) (before : List StepRecord) (s : StepRecord) → Grows before s (cancel_waiting now s)
unfolding cancel_waiting
Grows-cancel_waiting now before s = record {
  same_id = ground arith;
  same_deps = ground arith;
  keeps = ground arith;
  earns = ground arith;
}

Grows-requeue :
    (id token : Bytes) (before : List StepRecord) (s : StepRecord)
    → Grows before s (requeue id token s)
unfolding requeue
Grows-requeue id token before s = record {
  same_id = ground arith;
  same_deps = ground arith;
  keeps = ground arith;
  earns = ground arith;
}

cancel_steps-IsOrdered :
    (now : ℕ) (steps : List StepRecord) {jobs running : List Bytes}
    → IsOrdered steps jobs running
    → IsOrdered (map (cancel_waiting now) steps) jobs running
cancel_steps-IsOrdered now steps o =
    IsOrdered-map (cancel_waiting now) steps o (All-of _ steps (Grows-cancel_waiting now steps))
      (All-of _ steps (λ s h. unfold cancel_waiting in ground arith))

cancel_open-Ordered :
    (now : ℕ) (extra : List Bytes) (c : Cell)
    → OrderedWith extra c
    → OrderedWith extra (cancel_open now c)
cancel_open-Ordered now extra c o = go c.active refl
  where
    go : (a : Option Active) → c.active ≡ a → OrderedWith extra (cancel_open now c)
    go none e =
        unfold cancel_open in
        rw e (rw steps-persist_state (rw e at (cancel_steps-IsOrdered now c.row.steps o)))
    go (some a) e = unfold cancel_open in rw e (rw e at (cancel_steps-IsOrdered now c.row.steps o))

pub cancel_locked-Ordered :
    (now : ℕ) (extra : List Bytes) (c : Cell)
    → OrderedWith extra c
    → OrderedWith extra (cancel_locked now c).0
unfolding cancel_locked
cancel_locked-Ordered now extra c o = elim (Bool-cases (terminal c.row.state)) [
  | inl h ↦ rw h o
  | inr h ↦ rw h (cancel_open-Ordered now extra c o)
]

resume_open-Ordered :
    (id token : Bytes) (extra : List Bytes) (c : Cell)
    → OrderedWith extra c
    → OrderedWith extra (resume_open id token c)
unfolding resume_open
resume_open-Ordered id token extra c o = go c.active refl
  where
    grown : IsOrdered (map (requeue id token) c.row.steps) (extra ++ c.pending) (held c.active)
    grown =
        IsOrdered-map (requeue id token) c.row.steps o
          (All-of _ c.row.steps (Grows-requeue id token c.row.steps))
          (All-of _ c.row.steps (λ s h. unfold requeue in ground arith))

    go :
        (a : Option Active)
        → c.active ≡ a
        → IsOrdered
            (map (requeue id token) c.row.steps)
            (extra ++ c.pending)
            (held (some (resume_active id token (active_or_restored c.active c.row.steps))))
    go none e = unfold resume_active active_or_restored restore_active in rw e (rw e at grown)
    go (some a) e = unfold resume_active active_or_restored in rw e (rw e at grown)

-- A resume writes nothing, or passes all its tests.
resume-cases :
    (id token : Bytes) (has_executor : Bool) (c : Cell)
    → ((resume_locked id token has_executor c).0 ≡ c)
      ⊎ ((resume_locked id token has_executor c).0 ≡ resume_open id token c)
unfolding resume_locked
resume-cases id token has_executor c = ground arith

pub resume_locked-Ordered :
    (id token : Bytes) (has_executor : Bool) (extra : List Bytes) (c : Cell)
    → OrderedWith extra c
    → OrderedWith extra (resume_locked id token has_executor c).0
resume_locked-Ordered id token has_executor extra c o =
    elim (resume-cases id token has_executor c) [
      | inl e ↦ rw e o
      | inr e ↦ rw e (resume_open-Ordered id token extra c o)
    ]

Grows-interrupt_step :
    (now : ℕ) (before : List StepRecord) (s : StepRecord) → Grows before s (interrupt_step now s)
unfolding interrupt_step
Grows-interrupt_step now before s = record {
  same_id = ground arith;
  same_deps = ground arith;
  keeps = ground arith;
  earns = ground arith;
}

interrupt_steps-IsOrdered :
    (now : ℕ) (r : Record) {jobs running : List Bytes}
    → IsOrdered r.steps jobs running
    → IsOrdered (interrupt_steps now r).steps jobs []
interrupt_steps-IsOrdered now r {jobs} o = go r.state refl
  where
    same : IsOrdered r.steps jobs []
    same = record {
      distinct = o.distinct;
      sound = o.sound;
      jobs_ready = o.jobs_ready;
      held_run = tt;
    }

    g : GrowsAll (interrupt_step now) r.steps r.steps
    g = All-of _ r.steps (Grows-interrupt_step now r.steps)

    mapped : IsOrdered (map (interrupt_step now) r.steps) jobs []
    mapped = record {
      distinct = Distinct-map (interrupt_step now) r.steps r.steps g o.distinct;
      sound = Sound-of_Grows (interrupt_step now) r.steps r.steps g g o.sound;
      jobs_ready = Ready-map-All (interrupt_step now) r.steps jobs g o.jobs_ready;
      held_run = tt;
    }

    go : (s : State) → r.state ≡ s → IsOrdered (interrupt_steps now r).steps jobs []
    go interrupted e = unfold interrupt_steps in rw e mapped
    go _ e = unfold interrupt_steps in rw e same

-- The new process has no job of its own.
without_jobs :
    {steps : List StepRecord} {running : List Bytes} (extra pending : List Bytes)
    → IsOrdered steps (extra ++ pending) running
    → IsOrdered steps (extra ++ []) running
without_jobs extra pending o =
    let (kept, _) = All-parts _ extra pending o.jobs_ready in
    with_jobs (extra ++ []) o (rw (append-nil extra) kept)

pub restart-Ordered :
    (now : ℕ) (extra : List Bytes) (c : Cell)
    → OrderedWith extra c
    → OrderedWith extra (restart now c)
unfolding restart recover_interrupted
restart-Ordered now extra c o =
    let kept = without_jobs extra c.pending o in
    elim (Bool-cases (lost c.row)) [
      | inl h ↦ rw h (
          interrupt_steps-IsOrdered now
            (record c.row { state = interrupted; completed_at = some now }) kept)
      | inr h ↦ rw h (interrupt_steps-IsOrdered now c.row kept)
    ]

pub Final-cancel_locked : (now : ℕ) (c : Cell) → Final c.row (cancel_locked now c).0.row
unfolding cancel_locked
Final-cancel_locked now c h = rw h refl

pub Final-resume_locked :
    (id token : Bytes) (has_executor : Bool) (c : Cell)
    → Final c.row (resume_locked id token has_executor c).0.row
unfolding resume_locked
Final-resume_locked id token has_executor c h = ground arith

pub Final-restart : (now : ℕ) (c : Cell) → Final c.row (restart now c).row
unfolding restart recover_interrupted lost interrupt_steps
Final-restart now c h = ground arith
