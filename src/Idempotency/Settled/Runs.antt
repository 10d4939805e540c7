-- ===== src/Idempotency/Settled/Runs.antt =====
-- Runs of the operations on one store, and what they never undo.
use mcpx.Base.{ℕ, ◌≡◌, Bool, true, false, Option, Bytes}
use mcpx.Idempotency.Store.{State, Key, Store}
use mcpx.Idempotency.Claim.{Environment, claim}
use mcpx.Idempotency.Finish.{complete, update_pending, abandon, mark_in_doubt}
use mcpx.Idempotency.Settled.{settled, is_owner}
use mcpx.Idempotency.Settled.Owners.{claim-no_owner}
use mcpx.Idempotency.Settled.Keeps.{
  complete-settled, update_pending-settled, abandon-settled, mark_in_doubt-settled,
}
use mcpx.Idempotency.Settled.Claims.{claim-settled}

-- The operations with any arguments and any failures; what happens in the middle of a claim is a
-- run itself.
pub data Run : Store → Store → Type 0 where
  rest : {s : Store} → Run s s
  claims :
      {s t : Store} (env : Environment) (k : Key) (print : Bytes) (ttl : ℕ)
      → Run s t
      → Run t (env.meanwhile t)
      → Run s (claim env k print ttl t).0
  completes :
      {s t : Store} (fails rows_unknown : Bool) (now : ℕ) (k : Key) (print : Bytes) (state : State)
      (response metadata : Option Bytes)
      → Run s t
      → Run s (complete fails rows_unknown now k print state response metadata t).0
  updates :
      {s t : Store} (fails : Bool) (now : ℕ) (k : Key) (print : Bytes)
      (response metadata : Option Bytes)
      → Run s t
      → Run s (update_pending fails now k print response metadata t).0
  abandons :
      {s t : Store} (fails rows_unknown : Bool) (k : Key) (print : Bytes)
      → Run s t
      → Run s (abandon fails rows_unknown k print t).0
  marks :
      {s t : Store} (fails rows_unknown : Bool) (now : ℕ) (k : Key) (print : Bytes)
      (metadata : Option Bytes)
      → Run s t
      → Run s (mark_in_doubt fails rows_unknown now k print metadata t).0

Run-settled : (key : Key) {s t : Store} → Run s t → settled key s ≡ true → settled key t ≡ true
Run-settled key rest h = h
Run-settled key (claims {s} {t} env k print ttl run between) h =
    let before = Run-settled key run h in
    claim-settled env k print ttl key t before (Run-settled key between before)
Run-settled key (completes {s} {t} fails rows_unknown now k print state response metadata run) h =
    complete-settled fails rows_unknown now k print state response metadata key t
      (Run-settled key run h)
Run-settled key (updates {s} {t} fails now k print response metadata run) h =
    update_pending-settled fails now k print response metadata key t (Run-settled key run h)
Run-settled key (abandons {s} {t} fails rows_unknown k print run) h =
    abandon-settled fails rows_unknown k print key t (Run-settled key run h)
Run-settled key (marks {s} {t} fails rows_unknown now k print metadata run) h =
    mark_in_doubt-settled fails rows_unknown now k print metadata key t (Run-settled key run h)

-- A key whose record is no longer pending, or that has a tombstone, never gets an owner again: not
-- behind any run of the operations, with any arguments and failures, where what happens in the
-- middle of a claim is such a run itself.
pub settled_forever :
    (key : Key) (s t : Store)
    → settled key s ≡ true
    → Run s t
    → (env : Environment) (print : Bytes) (ttl : ℕ) → is_owner (claim env key print ttl t).1 ≡ false
settled_forever key s t h run env print ttl =
    claim-no_owner env key print ttl t (Run-settled key run h)
