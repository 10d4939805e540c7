-- ===== src/Operation/Moves.antt =====
-- internal/operation/service.go: the interleavings of one operation. A move is one critical section
-- of `reconcileMu`: the first or the second half of `runStep`, the locked part of `reconcile`, of
-- `Cancel` or of `Resume`; or the start of a new process. `enqueueReady` reads the steps without a
-- lock and enqueues later, so it stands apart: it may use any reading made so far. Between two moves
-- any others may come, and the workers reach their scheduled jobs in any order.
pub mod Safety
pub mod Examples
use mcpx.Base.{ℕ, ◌≡◌, Bool, List, [], ◌∷◌, ◌++◌, In, Bytes}
use mcpx.Operation.Cell.{Cell, enqueue_from, reconcile_locked}
use mcpx.Operation.Cell.Ordered.{held}
use mcpx.Operation.Run.{begin_step, ExecuteResult, finish_locked}
use mcpx.Operation.Control.{cancel_locked, resume_locked, restart}

-- `fresh` is the random token that a waiting step without one is given.
pub data Move : Cell → Cell → Type 0 where
  begin :
      (now : ℕ) (id : Bytes) (front back : List Bytes) (c : Cell)
      → c.pending ≡ front ++ id ∷ back
      → Move c (begin_step now id (record c { pending = front ++ back })).0
  finish :
      (now : ℕ) (id fresh : Bytes) (r : ExecuteResult) (c : Cell)
      → In id (held c.active)
      → Move c (finish_locked now id fresh r c)
  settle : (now : ℕ) (c : Cell) → Move c (reconcile_locked now c).0
  user_cancels : (now : ℕ) (c : Cell) → Move c (cancel_locked now c).0
  user_resumes :
      (id token : Bytes) (has_executor : Bool) (c : Cell)
      → Move c (resume_locked id token has_executor c).0
  process_restarts : (now : ℕ) (c : Cell) → Move c (restart now c)

-- The moves from one cell to another; `past` lists the cells passed, the last one first.
pub data Moves (c : Cell) : List Cell → Cell → Type 0 where
  done : Moves c (c ∷ []) c
  then : {past : List Cell} {d e : Cell} → Moves c past d → Move d e → Moves c (e ∷ past) e
  schedule :
      {past : List Cell} {e : Cell} (d : Cell)
      → Moves c past e
      → In d past
      → Moves c (enqueue_from d.row.steps e ∷ past) (enqueue_from d.row.steps e)
