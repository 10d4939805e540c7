-- ===== src/Operation/Control/Cancelled.antt =====
-- Cancelling an operation that has no step under way ends it.
use mcpx.Base.{ℕ, ◌≡◌, refl, true, Option, none, some, [], if◌then◌else◌, Bool-cases, inl, inr}
use mcpx.Operation.State.{cancelled, terminal}
use mcpx.Operation.Cell.{Active, Cell, reconcile}
use mcpx.Operation.Cell.Final.{Final-reconcile, terminal-persist_state, terminal-reconcile}
use mcpx.Operation.Cell.Ordered.{held}
use mcpx.Operation.Control.{already_completed, cancel, cancel_locked, cancel_open}

cancel_open_idle :
    (now : ℕ) (c : Cell) (a : Option Active)
    → c.active ≡ a
    → held a ≡ []
    → terminal (reconcile now (cancel_open now c)).row.state ≡ true
unfolding cancel_open
cancel_open_idle now c none e h =
    let done : terminal (cancel_open now c).row.state ≡ true =
      rw (e, cancel_open) (terminal-persist_state now cancelled _ refl) in
    rw (Final-reconcile now (cancel_open now c) done) done
cancel_open_idle now c (some a) e h = rw (e, cancel_open) (terminal-reconcile now _ _ _ refl h)

-- `Cancel` of an operation that is not terminal and has no step under way makes it terminal; of a
-- terminal operation it is refused and leaves the state alone.
pub cancel_ends :
    (now : ℕ) (c : Cell)
    → held c.active ≡ []
    → (terminal (cancel now c).0.row.state ≡ true)
      × ((cancel now c).1 ≡ (if terminal c.row.state then some already_completed else none))
      × (terminal c.row.state ≡ true → (cancel now c).0.row.state ≡ c.row.state)
unfolding cancel cancel_locked
cancel_ends now c h = elim (Bool-cases (terminal c.row.state)) [
  | inl e ↦ rw e (rw (Final-reconcile now c e) e, refl, λ k. Final-reconcile now c e)
  | inr e ↦ rw e (cancel_open_idle now c c.active refl h, refl, λ k. cc)
]
