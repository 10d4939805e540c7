-- ===== src/Approval/Answers.antt =====
-- What the calls answer.
use mcpx.Base.{◌≡◌, Bool, true, ◌&&◌, List, [], ◌∷◌, arith, All}
use mcpx.Approval.Store.{Pending, Row}
use mcpx.Approval.Once.{Call, call, rows_of, store_of}
use mcpx.Approval.Fresh.{IsStamped}
use mcpx.Approval.Stamps.{call_stamps}
use mcpx.Approval.Right.{is_ordered, Right, call-Right}

-- The answers of calls that processes with maps of any content make on one table.
pub Rights : List (List Pending × Call) → List Row → Type 0
Rights [] rows = Unit
Rights ((items, c) ∷ calls) rows =
    let (t, r) = call c (store_of items rows) in Right c r × Rights calls (rows_of t.db)

abbrev pub are_ordered : List (List Pending × Call) → Bool
are_ordered [] = true
are_ordered ((items, c) ∷ calls) = is_ordered c && are_ordered calls

-- Where the clock does not go back within a call and the table's times are those of its items, in any
-- run of calls on a shared table: an item that Get, Consume or ListRemoteSession answers is of the ID or
-- the session that was asked, and its thirty minutes were not over when the call started. PutPending
-- answers the given item as it filled it in, even if that is past its time, or another item that it
-- folds the given one onto: one of the same session with the same content key, which is not empty, and
-- then the thirty minutes of neither were over when the call started.
pub answers_right :
    (calls : List (List Pending × Call)) (rows : List Row)
    → are_ordered calls ≡ true
    → All IsStamped rows
    → Rights calls rows
unfolding Rights
answers_right [] rows order h = tt
answers_right ((items, c) ∷ calls) rows order h =
    let (t, r) = call c (store_of items rows) in
    (
      call-Right c (store_of items rows) (ground arith) h,
      answers_right calls (rows_of t.db) (ground arith) (call_stamps c (store_of items rows) h),
    )
