-- ===== src/Operation/Validate/Accepted.antt =====
-- What an accepted specification is like: distinct step IDs and no cyclic dependency.
use mcpx.Base.{
  ◌≤◌, ◌≡◌, sym, ◌∙◌, true, false, List, [], ◌∷◌, arith, Bool-cases, inl, inr, All, All-imp, length,
  Bytes, str_eq, str_eq_refl, str_eq→eq, trim_space,
}
use mathlib.Core.Bool.{false≢true}
use mcpx.Operation.State.{StepSpec, SubmitSpec}
use mcpx.Operation.Cell.{contains}
use mcpx.Operation.Run.Create.{DistinctIds}
use mcpx.Operation.Validate.{
  ok, ◌>>=◌, Graph, has_key, deps_of, Marks, index_steps, search_graph, validate_spec, max_steps,
}
use mcpx.Operation.Validate.Topological.{Topological, >>=-eq-ok, search_graph_sound}
use mcpx.Operation.Validate.Rejections.{Reaches, edge, path, All-contains}

Topological-closed :
    (g : Graph) (ids : List Bytes) (x y : Bytes)
    → Topological g ids
    → contains x ids ≡ true
    → contains y (deps_of x g) ≡ true
    → contains y ids ≡ true
Topological-closed g [] x y t c d = cc
Topological-closed g (id ∷ ids) x y (t, ts) c d = elim (Bool-cases (str_eq x id)) [
  | inl e ↦
      let c' : contains y ids ≡ true =
        All-contains (λ z. contains z ids ≡ true) y (deps_of id g) t (rw (str_eq→eq x id e) at d) in
      ground arith
  | inr e ↦ ground (arith, Topological-closed g ids x y ts)
]

Reaches-after :
    (g : Graph) (ids : List Bytes)
    → Topological g ids
    → {x y : Bytes} → All (λ d. contains d ids ≡ true) (deps_of x g)
    → Reaches g x y
    → contains y ids ≡ true
Reaches-after g ids t h (edge c) = All-contains _ _ _ h c
Reaches-after g ids t h (path {y = y} {z = z} r c) =
    Topological-closed g ids y z t (Reaches-after g ids t h r) c

-- No step of a topological order depends on itself.
pub Topological-acyclic :
    (g : Graph) (ids : List Bytes) (x : Bytes)
    → Topological g ids
    → contains x ids ≡ true
    → ¬ Reaches g x x
Topological-acyclic g [] x t c r = cc
Topological-acyclic g (id ∷ ids) x (t, ts) c r = elim (Bool-cases (contains x ids)) [
  | inl e ↦ Topological-acyclic g ids x ts e r
  | inr e ↦
      let same : str_eq x id ≡ true = ground arith in
      absurd (false≢true (sym e ∙ Reaches-after g ids ts (rw (str_eq→eq x id same) t) r))
]

-- Accepted IDs are not among the keys so far, once trimmed.
abbrev Fresh : Graph → StepSpec → Type 0
Fresh g t = has_key (trim_space t.id) g ≡ false

index-eq-ok :
    (s : StepSpec) (steps : List StepSpec) (g g' : Graph)
    → index_steps (s ∷ steps) g ≡ ok g'
    → (has_key (trim_space s.id) g ≡ false)
      × (index_steps steps ((trim_space s.id, s.depends_on) ∷ g) ≡ ok g')
unfolding index_steps
index-eq-ok s steps g g' h = ground arith

index-Fresh :
    (steps : List StepSpec) (g g' : Graph) → index_steps steps g ≡ ok g' → All (Fresh g) steps
index-Fresh [] g g' h = tt
index-Fresh (s ∷ steps) g g' h =
    let (n, rest) = index-eq-ok s steps g g' h in
    (
      n,
      All-imp (Fresh ((trim_space s.id, s.depends_on) ∷ g)) (Fresh g) steps
          (λ t k. unfold has_key in ground arith) (index-Fresh steps _ g' rest),
    )

differs :
    (s t : StepSpec) (g : Graph)
    → Fresh ((trim_space s.id, s.depends_on) ∷ g) t
    → str_eq s.id t.id ≡ false
unfolding has_key
differs s t g h = elim (Bool-cases (str_eq s.id t.id)) [
  | inl e ↦
      let same : str_eq (trim_space t.id) (trim_space s.id) ≡ true =
        rw (str_eq→eq s.id t.id e) (str_eq_refl (trim_space t.id)) in
      ground arith
  | inr e ↦ e
]

index-DistinctIds :
    (steps : List StepSpec) (g g' : Graph) → index_steps steps g ≡ ok g' → DistinctIds steps
index-DistinctIds [] g g' h = tt
index-DistinctIds (s ∷ steps) g g' h =
    let (n, rest) = index-eq-ok s steps g g' h in
    (
      All-imp (Fresh ((trim_space s.id, s.depends_on) ∷ g)) _ steps (λ t. differs s t g)
          (index-Fresh steps ((trim_space s.id, s.depends_on) ∷ g) g' rest),
      index-DistinctIds steps ((trim_space s.id, s.depends_on) ∷ g) g' rest,
    )

validate-eq-ok :
    (order : Graph → List Bytes) (spec : SubmitSpec) (m : Marks)
    → validate_spec order spec ≡ ok m
    → (length spec.steps ≤ max_steps)
      × (1 ≤ length spec.steps)
      × ((index_steps spec.steps [] >>= λ g. search_graph (order g) g) ≡ ok m)
unfolding validate_spec
validate-eq-ok order spec m h = ground arith

-- An accepted specification has one to 32 steps with distinct IDs, and in its dependency graph no
-- step that the search was started from depends on itself, directly or through others.
pub validate_spec_sound :
    (order : Graph → List Bytes) (spec : SubmitSpec) (m : Marks)
    → validate_spec order spec ≡ ok m
    → (1 ≤ length spec.steps)
      × (length spec.steps ≤ max_steps)
      × DistinctIds spec.steps
      × ((g : Graph) × (index_steps spec.steps [] ≡ ok g)
          × ((x : Bytes) → contains x (order g) ≡ true → ¬ Reaches g x x))
validate_spec_sound order spec m h =
    let (few, some_steps, h') = validate-eq-ok order spec m h in
    let (g, e, h₁) = >>=-eq-ok (index_steps spec.steps []) (λ g. search_graph (order g) g) h' in
    let (t, c) = search_graph_sound (order g) g m h₁ in
    (
      some_steps,
      few,
      index-DistinctIds spec.steps [] g e,
      (
        g,
        e,
        λ x k.
            Topological-acyclic g m.visited x t
              (All-contains (λ z. contains z m.visited ≡ true) x (order g) c k),
      ),
    )
