-- ===== src/Operation/Cell/Final.antt =====
-- A terminal state of an operation is final under the operations of Cell.antt.
use mcpx.Base.{
  ℕ, ◌≡◌, refl, true, Option, none, some, map, arith, Bool-cases, inl, inr, Bytes, List, [],
}
use mcpx.Operation.State.{State, Record, StepRecord, terminal, interrupted, cancelled}
use mcpx.Operation.Aggregate.{aggregate_state}
use mcpx.Operation.Cell.{
  Active, Cell, enqueue_ready, enqueue_from, enqueue_active, finish_active, persist_state,
  reconcile_cancelled, any_interrupted, reconcile_open, reconcile_locked, reconcile, skip_blocked,
  mark_step_running, Finish, finish_step,
}

-- From the first row to the second a terminal state stays.
abbrev pub Final : Record → Record → Type 0
Final r r' = terminal r.state ≡ true → r'.state ≡ r.state

pub Final-persist_state : (now : ℕ) (s : State) (r : Record) → Final r (persist_state now s r)
unfolding persist_state
Final-persist_state now s r h = ground arith

pub Final-mark_step_running :
    (now : ℕ) (id : Bytes) (r : Record) → Final r (mark_step_running now id r).0
unfolding mark_step_running
Final-mark_step_running now id r h = ground arith

pub Final-finish_step :
    (now : ℕ) (id : Bytes) (f : Finish) (r : Record) → Final r (finish_step now id f r)
unfolding finish_step
Final-finish_step now id f r h = refl

pub row-enqueue_from : (steps : List StepRecord) (c : Cell) → (enqueue_from steps c).row ≡ c.row
unfolding enqueue_from enqueue_active
row-enqueue_from steps c = ground arith

pub row-enqueue_ready : (c : Cell) → (enqueue_ready c).row ≡ c.row
unfolding enqueue_ready
row-enqueue_ready c = row-enqueue_from c.row.steps c

Final-reconcile_open : (now : ℕ) (c : Cell) → Final c.row (reconcile_open now c).0.row
unfolding reconcile_open finish_active
Final-reconcile_open now c h =
    let steps = map (skip_blocked now c.row.steps) c.row.steps in
    ground
      (arith, Final-persist_state now (aggregate_state steps) (record c.row { steps = steps }) h)

Final-reconcile_cancelled :
    (now : ℕ) (c : Cell) (a : Active) → Final c.row (reconcile_cancelled now c a).row
unfolding reconcile_cancelled finish_active persist_state
Final-reconcile_cancelled now c a h = ground arith

pub Final-reconcile_locked : (now : ℕ) (c : Cell) → Final c.row (reconcile_locked now c).0.row
unfolding reconcile_locked
Final-reconcile_locked now c h = go c.active refl
  where
    go : (a : Option Active) → c.active ≡ a → (reconcile_locked now c).0.row.state ≡ c.row.state
    go none e = rw (e, reconcile_locked) (Final-reconcile_open now c h)
    go (some a) e = elim (Bool-cases a.cancel_requested) [
      | inl k ↦ rw (e, reconcile_locked) (rw k (Final-reconcile_cancelled now c a h))
      | inr k ↦ rw (e, reconcile_locked) (rw k (Final-reconcile_open now c h))
    ]

pub Final-reconcile : (now : ℕ) (c : Cell) → Final c.row (reconcile now c).row
unfolding reconcile
Final-reconcile now c h =
    let (c', enqueue) = reconcile_locked now c in
    ground (arith, row-enqueue_ready (reconcile_locked now c).0, Final-reconcile_locked now c h)

pub terminal-persist_state :
    (now : ℕ) (s : State) (r : Record)
    → terminal s ≡ true
    → terminal (persist_state now s r).state ≡ true
unfolding persist_state
terminal-persist_state now s r h = ground arith

-- The reconciliation of a cancelled operation with no step under way ends it.
pub terminal-reconcile :
    (now : ℕ) (r : Record) (a : Active) (jobs : List Bytes)
    → a.cancel_requested ≡ true
    → a.step_cancel ≡ []
    → terminal (reconcile now (record { row = r; active = some a; pending = jobs })).row.state
      ≡ true
unfolding reconcile reconcile_locked
terminal-reconcile now r a jobs h k =
    rw (h, k)
      (elim (Bool-cases (any_interrupted r.steps)) [
        | inl e ↦ rw e (terminal-persist_state now interrupted r refl)
        | inr e ↦ rw e (terminal-persist_state now cancelled r refl)
      ])
