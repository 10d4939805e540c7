-- ===== src/Operation/Cell/Chain.antt =====
-- `reconcile` looks up dependencies in the snapshot it took before it skips anything, so one call
-- skips the direct dependants of a failed step only.
use mcpx.Base.{ℕ, ◌≡◌, refl, true, false, some, List, [], ◌∷◌, arith, Bytes, str_eq, str_eq_refl}
use mcpx.Operation.State.{queued, running, failed, skipped, StepRecord, Record, terminal}
use mcpx.Operation.Aggregate.{aggregate_state}
use mcpx.Operation.Cell.Final.{row-enqueue_ready}
use mcpx.Operation.Cell.{
  Active, Cell, state_of, any_blocks, skip_blocked, deps_succeeded, ready_jobs, enqueue_active,
  enqueue_ready, persist_state, reconcile_open, reconcile_locked, reconcile,
}

-- Three steps of an operation that this process runs: the first failed, the second depends on it,
-- and the third depends on the second.
pub record IsChain (r : Record) (a : Active) (x y z : StepRecord) : Type 0 where
  pub open_row : terminal r.state ≡ false
  pub not_cancelled : a.cancel_requested ≡ false
  pub x_failed : x.state ≡ failed
  pub y_queued : y.state ≡ queued
  pub z_queued : z.state ≡ queued
  pub y_after_x : y.depends_on ≡ x.id ∷ []
  pub z_after_y : z.depends_on ≡ y.id ∷ []
  pub x_not_y : str_eq x.id y.id ≡ false

abbrev pub chain : Record → Active → StepRecord → StepRecord → StepRecord → Cell
chain r a x y z = record {
  row = record r { steps = x ∷ y ∷ z ∷ [] };
  active = some a;
  pending = [];
}

module _ (now : ℕ) (r : Record) (a : Active) (x y z : StepRecord) (h : IsChain r a x y z) where
  abbrev snapshot : List StepRecord
  snapshot = x ∷ y ∷ z ∷ []

  abbrev skipped_y : StepRecord
  skipped_y = record y { state = skipped; completed_at = some now }

  skip_x : skip_blocked now snapshot x ≡ x
  unfolding skip_blocked
  skip_x = ground (arith, h.x_failed)

  skip_y : skip_blocked now snapshot y ≡ skipped_y
  unfolding skip_blocked any_blocks state_of
  skip_y = rw (h.y_queued, h.y_after_x, str_eq_refl, h.x_failed)

  skip_z : skip_blocked now snapshot z ≡ z
  unfolding skip_blocked any_blocks state_of
  skip_z = rw (h.z_queued, h.z_after_y, h.x_not_y, str_eq_refl, h.y_queued)

  abbrev after : List StepRecord
  after = x ∷ skipped_y ∷ z ∷ []

  state_after : aggregate_state after ≡ running
  unfolding aggregate_state
  state_after = rw (h.x_failed, h.z_queued)

  no_jobs : (enqueued : List Bytes) → ready_jobs after after enqueued ≡ []
  unfolding ready_jobs deps_succeeded state_of
  no_jobs enqueued = rw (h.x_failed, h.z_queued, h.z_after_y, h.x_not_y, str_eq_refl) (ground arith)

  abbrev settled_cell : Cell
  settled_cell = record {
    row = persist_state now running (record r { steps = after });
    active = some a;
    pending = [];
  }

  locked_chain : reconcile_locked now (chain r a x y z) ≡ (settled_cell, true)
  unfolding reconcile_locked reconcile_open
  locked_chain = simp (h.not_cancelled, skip_x, skip_y, skip_z, state_after)

  row_after : (settled_cell.row.state ≡ running) × (settled_cell.row.steps ≡ x ∷ skipped_y ∷ z ∷ [])
  unfolding persist_state
  row_after = rw h.open_row (refl, refl)

  jobs_after : ready_jobs settled_cell.row.steps settled_cell.row.steps a.enqueued ≡ []
  jobs_after = rw row_after.1 (no_jobs a.enqueued)

  enqueued_chain : (enqueue_ready settled_cell).pending ≡ []
  unfolding enqueue_ready enqueue_active
  enqueued_chain = rw (h.not_cancelled, jobs_after)

  -- Where the second of three steps depends on the first, which has failed, and the third on the
  -- second, a reconciliation skips the second only: the third is still queued, the operation counts
  -- as running, and no job is pending.
  pub reconcile-chain :
      ((reconcile now (chain r a x y z)).row.state ≡ running)
      × ((reconcile now (chain r a x y z)).row.steps ≡ x ∷ skipped_y ∷ z ∷ [])
      × ((reconcile now (chain r a x y z)).pending ≡ [])
  unfolding reconcile
  reconcile-chain = rw (locked_chain, row-enqueue_ready) (row_after.0, row_after.1, enqueued_chain)
