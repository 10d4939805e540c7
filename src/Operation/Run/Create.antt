-- ===== src/Operation/Run/Create.antt =====
-- A new operation satisfies the scheduler's invariant.
use mcpx.Base.{ℕ, ◌≡◌, false, List, [], ◌∷◌, Bool-cases, inl, inr, All, Bytes, str_eq, str_eq-sym}
use mcpx.Operation.State.{queued, StepSpec, SubmitSpec, StepRecord}
use mcpx.Operation.Cell.Evolution.{Sound, Distinct}
use mcpx.Operation.Cell.Ordered.{OrderedWith}
use mcpx.Operation.Run.{bytes_le, insert_by_id, new_step, new_steps, new_cell}

abbrev pub DistinctIds : List StepSpec → Type 0
DistinctIds [] = Unit
DistinctIds (s ∷ specs) = All (λ (t : StepSpec). str_eq s.id t.id ≡ false) specs × DistinctIds specs

abbrev Queued : StepRecord → Type 0
Queued s = s.state ≡ queued

insert-All :
    (P : StepRecord → Type 0) (s : StepRecord) (steps : List StepRecord)
    → P s
    → All P steps
    → All P (insert_by_id s steps)
unfolding insert_by_id
insert-All P s [] h hs = (h, tt)
insert-All P s (t ∷ steps) h (k, ks) = elim (Bool-cases (bytes_le s.id t.id)) [
  | inl e ↦ rw e (h, (k, ks))
  | inr e ↦ rw e (k, insert-All P s steps h ks)
]

insert-Distinct :
    (s : StepRecord) (steps : List StepRecord)
    → All (λ t. str_eq s.id t.id ≡ false) steps
    → Distinct steps
    → Distinct (insert_by_id s steps)
unfolding insert_by_id
insert-Distinct s [] h d = (tt, tt)
insert-Distinct s (t ∷ steps) (h, hs) (d, ds) = elim (Bool-cases (bytes_le s.id t.id)) [
  | inl e ↦ rw e ((h, hs), (d, ds))
  | inr e ↦ rw e (
    insert-All (λ u. str_eq t.id u.id ≡ false) s steps (rw str_eq-sym h) d,
    insert-Distinct s steps hs ds,
  )
]

others_differ :
    (now : ℕ) (id : Bytes) (specs : List StepSpec)
    → All (λ t. str_eq id t.id ≡ false) specs
    → All (λ t. str_eq id t.id ≡ false) (new_steps now specs)
unfolding new_steps
others_differ now id [] h = tt
others_differ now id (s ∷ specs) (h, hs) =
    insert-All _ (new_step now s) _ (unfold new_step in h) (others_differ now id specs hs)

new_steps-Distinct :
    (now : ℕ) (specs : List StepSpec) → DistinctIds specs → Distinct (new_steps now specs)
unfolding new_steps
new_steps-Distinct now [] d = tt
new_steps-Distinct now (s ∷ specs) (d, ds) =
    insert-Distinct (new_step now s) _ (unfold new_step in others_differ now s.id specs d)
      (new_steps-Distinct now specs ds)

All-Sound :
    (before : List StepRecord) (now : ℕ) (specs : List StepSpec)
    → All (Sound before) (new_steps now specs)
unfolding new_steps
All-Sound before now [] = tt
All-Sound before now (s ∷ specs) =
    insert-All (Sound before) (new_step now s) _ (λ h. unfold new_step in cc)
      (All-Sound before now specs)

pub new_cell-Ordered :
    (now : ℕ) (spec : SubmitSpec) → DistinctIds spec.steps → OrderedWith [] (new_cell now spec)
unfolding new_cell
new_cell-Ordered now spec d = record {
  distinct = new_steps-Distinct now spec.steps d;
  sound = All-Sound _ now spec.steps;
  jobs_ready = tt;
  held_run = tt;
}
