-- ===== src/Operation/Moves/Examples.antt =====
-- A submitted operation whose first step is begun; it is cancelled, an early reading is enqueued
-- late, and a new process recovers it.
use mcpx.Base.{◌≡◌, refl, All, List, [], ◌∷◌, inl, inr, codes}
use mcpx.Operation.Cell.{Cell, enqueue_from, ready_jobs, deps_succeeded, enqueue_active, state_of}
use mcpx.Operation.Run.{new_cell, new_steps, new_step, insert_by_id, bytes_le, begin_step}
use mcpx.Operation.Control.{cancel, cancel_locked, restart}
use mcpx.Operation.Control.Cancelled.{cancel_ends}
use mcpx.Operation.Moves.{Moves, done, then, schedule, begin, user_cancels, process_restarts}
use mcpx.Operation.Moves.Safety.{Behind, started_after_dependencies, terminal_is_final}
use mcpx.Operation.Validate.Examples.{two_steps, keys_in_order, two_marks, two_steps_accepted}
use mcpx.Operation.Control.Examples.{idle}

abbrev first : Cell
first = new_cell 5 two_steps

abbrev scheduled : Cell
scheduled = enqueue_from first.row.steps first

abbrev begun : Cell
begun = (begin_step 6 (codes "a") (record scheduled { pending = [] })).0

abbrev stopped : Cell
stopped = (cancel_locked 8 begun).0

abbrev again : Cell
again = enqueue_from first.row.steps stopped

abbrev passed : List Cell
passed = restart 9 again ∷ again ∷ stopped ∷ begun ∷ scheduled ∷ first ∷ []

one_job : scheduled.pending ≡ codes "a" ∷ []
unfolding new_cell new_steps new_step insert_by_id bytes_le enqueue_from enqueue_active ready_jobs
    deps_succeeded state_of
one_job = refl

life : Moves first passed (restart 9 again)
life =
    then
      (schedule first
        (then (then (schedule first done (inl refl)) (begin 6 (codes "a") [] [] scheduled one_job))
          (user_cancels 8 begun))
        (inr (inr (inr (inl refl)))))
      (process_restarts 9 again)

started_after_dependencies_example :
    All (Behind (restart 9 again).row.steps) (restart 9 again).row.steps
started_after_dependencies_example =
    started_after_dependencies keys_in_order 5 two_steps two_marks passed (restart 9 again)
      two_steps_accepted life

abbrev ended : Cell
ended = (cancel 8 idle).0

terminal_is_final_example : (restart 9 ended).row.state ≡ ended.row.state
terminal_is_final_example =
    terminal_is_final ended (restart 9 ended) (restart 9 ended ∷ ended ∷ [])
      (then done (process_restarts 9 ended)) (cancel_ends 8 idle refl).0
