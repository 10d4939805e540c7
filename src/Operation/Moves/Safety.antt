-- ===== src/Operation/Moves/Safety.antt =====
-- What holds of an operation however its moves interleave.
use mcpx.Base.{
  ℕ, ◌≡◌, refl, ◌∙◌, true, List, [], ◌∷◌, ◌++◌, append-nil, append_assoc, All, All-at, All-imp,
  All-parts, All-append, Bytes,
}
use mcpx.Operation.State.{terminal, is_succeeded, SubmitSpec, StepRecord}
use mcpx.Operation.Cell.{Cell, state_of, ready_jobs, enqueue_from}
use mcpx.Operation.Cell.Evolution.{Sound, Ready, started, deps_succeeded-All}
use mcpx.Operation.Cell.Ordered.{
  OrderedWith, with_jobs, read_jobs, enqueue_from-Ordered, reconcile_locked-Ordered,
}
use mcpx.Operation.Cell.Final.{Final, row-enqueue_from, Final-reconcile_locked}
use mcpx.Operation.Run.{new_cell}
use mcpx.Operation.Run.Keeps.{
  begin_step-Ordered, finish_locked-Ordered, Final-begin_step, Final-finish_locked,
}
use mcpx.Operation.Run.Create.{DistinctIds, new_cell-Ordered}
use mcpx.Operation.Control.Keeps.{
  cancel_locked-Ordered, resume_locked-Ordered, restart-Ordered, Final-cancel_locked,
  Final-resume_locked, Final-restart,
}
use mcpx.Operation.Validate.{Graph, Marks, ok, validate_spec}
use mcpx.Operation.Validate.Accepted.{validate_spec_sound}
use mcpx.Operation.Moves.{
  Move, begin, finish, settle, user_cancels, user_resumes, process_restarts, Moves, done, then,
  schedule,
}

-- Any scheduled job is ready, and taking it leaves the others.
begin-Ready :
    (id : Bytes) (front back extra : List Bytes) (c : Cell)
    → c.pending ≡ front ++ id ∷ back
    → OrderedWith extra c
    → OrderedWith extra (record c { pending = front ++ back }) × Ready c.row.steps c.row.steps id
begin-Ready id front back extra c e o =
    let (others, jobs) = All-parts _ extra c.pending o.jobs_ready in
    let (before, (job, behind)) = All-parts _ front (id ∷ back) (rw e at jobs) in
    (
      with_jobs (extra ++ (front ++ back)) o
          (All-append _ extra (front ++ back) others (All-append _ front back before behind)),
      job,
    )

-- From the first cell to the second the invariant is kept, whatever other jobs it includes.
abbrev Kept : Cell → Cell → Type 0
Kept c d = (extra : List Bytes) → OrderedWith extra c → OrderedWith extra d

Kept-Move : {c d : Cell} → Move c d → Kept c d
Kept-Move (begin now id front back c e) extra o =
    let (o', ready) = begin-Ready id front back extra c e o in
    begin_step-Ordered now id extra (record c { pending = front ++ back }) o' ready
Kept-Move (finish now id fresh r c m) extra o = finish_locked-Ordered now id fresh r extra c o m
Kept-Move (settle now c) extra o = reconcile_locked-Ordered now extra c o
Kept-Move (user_cancels now c) extra o = cancel_locked-Ordered now extra c o
Kept-Move (user_resumes id token x c) extra o = resume_locked-Ordered id token x extra c o
Kept-Move (process_restarts now c) extra o = restart-Ordered now extra c o

-- A reading that the moves since then have kept ready.
Kept-enqueue_from : (d e : Cell) → OrderedWith [] d → Kept d e → Kept e (enqueue_from d.row.steps e)
Kept-enqueue_from d e od k extra o = enqueue_from-Ordered d.row.steps extra e ready o
  where
    ready :
        (enqueued : List Bytes)
        → OrderedWith (ready_jobs d.row.steps d.row.steps enqueued ++ extra) e
    ready enqueued =
        let jobs = ready_jobs d.row.steps d.row.steps enqueued in
        let later : OrderedWith (jobs ++ []) e = k (jobs ++ []) (read_jobs [] enqueued d od) in
        let (mine, _) = All-parts _ (jobs ++ []) e.pending later.jobs_ready in
        with_jobs ((jobs ++ extra) ++ e.pending) o (
          rw (append_assoc jobs extra e.pending)
            (All-append _ jobs (extra ++ e.pending) (rw (append-nil jobs) at mine) o.jobs_ready))

-- What holds of a cell passed on the way to another.
abbrev Passed : Cell → Cell → Type 0
Passed e d = OrderedWith [] d × Kept d e

further :
    (e e' : Cell) (past : List Cell)
    → OrderedWith [] e
    → Kept e e'
    → All (Passed e) past
    → All (Passed e') (e' ∷ past)
further e e' past o k h = (
  (k [] o, λ extra q. q),
  All-imp (Passed e) (Passed e') past (λ d p. (p.0, λ extra q. k extra (p.1 extra q))) h,
)

Moves-Passed :
    {c d : Cell} {past : List Cell}
    → Moves c past d
    → OrderedWith [] c
    → OrderedWith [] d × All (Passed d) past
Moves-Passed done o = (o, ((o, λ extra q. q), tt))
Moves-Passed (then {past} {d} {e} m s) o =
    let (od, h) = Moves-Passed m o in (Kept-Move s [] od, further d e past od (Kept-Move s) h)
Moves-Passed (schedule {past} {e} d m i) o =
    let (oe, h) = Moves-Passed m o in
    let (od, k) = All-at (Passed e) d past h i in
    let now = Kept-enqueue_from d e od k in
    (now [] oe, further e (enqueue_from d.row.steps e) past oe now h)

-- Each dependency has succeeded.
abbrev pub Behind : List StepRecord → StepRecord → Type 0
Behind steps s =
    started s.state ≡ true → All (λ d. is_succeeded (state_of d steps) ≡ true) s.depends_on

-- Whatever moves follow the submission of an accepted specification, each step that has been
-- started (it runs, waits for the user, succeeded or failed) has only dependencies that succeeded.
pub started_after_dependencies :
    (order : Graph → List Bytes) (now : ℕ) (spec : SubmitSpec) (m : Marks) (past : List Cell)
    (c : Cell)
    → validate_spec order spec ≡ ok m
    → Moves (new_cell now spec) past c
    → All (Behind c.row.steps) c.row.steps
started_after_dependencies order now spec m past c h moves =
    let distinct : DistinctIds spec.steps = (validate_spec_sound order spec m h).2 in
    let sound = (Moves-Passed moves (new_cell-Ordered now spec distinct)).0.sound in
    All-imp (Sound c.row.steps) (Behind c.row.steps) c.row.steps
      (λ s k e. deps_succeeded-All c.row.steps s.depends_on (k e)) sound

Move-Final : {c d : Cell} → Move c d → Final c.row d.row
Move-Final (begin now id front back c e) =
    Final-begin_step now id (record c { pending = front ++ back })
Move-Final (finish now id fresh r c m) = Final-finish_locked now id fresh r c
Move-Final (settle now c) = Final-reconcile_locked now c
Move-Final (user_cancels now c) = Final-cancel_locked now c
Move-Final (user_resumes id token x c) = Final-resume_locked id token x c
Move-Final (process_restarts now c) = Final-restart now c

-- Once the state of an operation is terminal, no sequence of moves changes it.
pub terminal_is_final :
    (c d : Cell) (past : List Cell)
    → Moves c past d
    → terminal c.row.state ≡ true
    → d.row.state ≡ c.row.state
terminal_is_final c _ _ done h = refl
terminal_is_final c _ _ (then {past} {d} m s) h =
    let e : d.row.state ≡ c.row.state = terminal_is_final c d past m h in Move-Final s (rw e h) ∙ e
terminal_is_final c _ _ (schedule {past} {e} d m i) h =
    rw row-enqueue_from (terminal_is_final c e past m h)
