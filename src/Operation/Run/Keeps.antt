-- ===== src/Operation/Run/Keeps.antt =====
-- The two halves of `runStep` keep the scheduler's invariant.
use mcpx.Base.{
  List, ℕ, ◌≡◌, refl, Option, none, some, arith, Bool-cases, inl, inr, In, All-at, Bytes,
}
use mcpx.Operation.Cell.{Active, Cell, mark_step_running, remove}
use mcpx.Operation.Cell.Evolution.{Ready, Runs}
use mcpx.Operation.Cell.Final.{Final, Final-mark_step_running, Final-finish_step}
use mcpx.Operation.Cell.Ordered.{
  held, OrderedWith, mark_step_running-IsOrdered, finish_step-IsOrdered,
}
use mcpx.Operation.Run.{
  begin_active, begin_step, refuses, ExecuteResult, drop_cancel, finish_locked,
}

begin_active-Ordered :
    (now : ℕ) (id : Bytes) (extra : List Bytes) (c : Cell) (a : Active)
    → c.active ≡ some a
    → OrderedWith extra c
    → Ready c.row.steps c.row.steps id
    → OrderedWith extra (begin_active now id c a).0
begin_active-Ordered now id extra c a e o ready =
    elim (Bool-cases (refuses id a (mark_step_running now id c.row).1)) [
      | inl h ↦ unfold begin_active refuses in rw h o
      | inr h ↦
          unfold begin_active refuses in
          rw h (mark_step_running-IsOrdered now id c.row (rw e at o) ready (ground arith))
    ]

-- The first half, for a job whose dependencies have succeeded.
pub begin_step-Ordered :
    (now : ℕ) (id : Bytes) (extra : List Bytes) (c : Cell)
    → OrderedWith extra c
    → Ready c.row.steps c.row.steps id
    → OrderedWith extra (begin_step now id c).0
unfolding begin_step
begin_step-Ordered now id extra c o ready = go c.active refl
  where
    go : (a : Option Active) → c.active ≡ a → OrderedWith extra (begin_step now id c).0
    go none e = rw (e, begin_step) o
    go (some a) e = rw (e, begin_step) (begin_active-Ordered now id extra c a e o ready)

held-drop_cancel : (id : Bytes) (a : Option Active) → held (drop_cancel id a) ≡ remove id (held a)
held-drop_cancel id none = unfold remove in refl
held-drop_cancel id (some a) = refl

-- The second half, for a step that this process runs.
pub finish_locked-Ordered :
    (now : ℕ) (id fresh : Bytes) (r : ExecuteResult) (extra : List Bytes) (c : Cell)
    → OrderedWith extra c
    → In id (held c.active)
    → OrderedWith extra (finish_locked now id fresh r c)
unfolding finish_locked
finish_locked-Ordered now id fresh r extra c o m =
    rw held-drop_cancel
      (finish_step-IsOrdered now id _ c.row o (All-at (Runs c.row.steps) id _ o.held_run m))

pub Final-begin_step : (now : ℕ) (id : Bytes) (c : Cell) → Final c.row (begin_step now id c).0.row
unfolding begin_step begin_active refuses
Final-begin_step now id c h = ground (arith, Final-mark_step_running now id c.row h)

pub Final-finish_locked :
    (now : ℕ) (id fresh : Bytes) (r : ExecuteResult) (c : Cell)
    → Final c.row (finish_locked now id fresh r c).row
unfolding finish_locked
Final-finish_locked now id fresh r c h = Final-finish_step now id _ c.row h
