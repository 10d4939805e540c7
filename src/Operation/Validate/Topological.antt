-- ===== src/Operation/Validate/Topological.antt =====
-- What an accepted dependency graph is like: the visited steps, read from the last to the first,
-- come after their dependencies.
use mcpx.Base.{
  ℕ, zero, suc, ◌≡◌, refl, ◌∙◌, true, false, List, [], ◌∷◌, arith, Bool-cases, inl, inr, All,
  length, Bytes, str_eq_refl,
}
use mathlib.Core.Path.{subst}
use mcpx.Operation.Cell.{contains, remove}
use mcpx.Operation.Validate.{
  Result, ok, err, ◌>>=◌, Graph, has_key, deps_of, Marks, enter, leave, visit_deps, visit,
  visit_all, search_graph, no_marks,
}

-- Each ID stands before all the IDs that it depends on.
abbrev pub Topological : Graph → List Bytes → Type 0
Topological g [] = Unit
Topological g (id ∷ ids) = All (λ d. contains d ids ≡ true) (deps_of id g) × Topological g ids

-- `m'` is a later state of the search than `m`: it has the same stack, the visited IDs are still
-- visited, and their order is topological.
pub record Later (g : Graph) (m m' : Marks) : Type 0 where
  pub same_stack : m'.visiting ≡ m.visiting
  pub topological : Topological g m'.visited
  pub grows : (x : Bytes) → contains x m.visited ≡ true → contains x m'.visited ≡ true

pub remove-absent : (id : Bytes) (ids : List Bytes) → contains id ids ≡ false → remove id ids ≡ ids
unfolding remove
remove-absent id [] h = refl
remove-absent id (x ∷ ids) h = ground (arith, remove-absent id ids)

pub remove-head :
    (id : Bytes) (ids : List Bytes) → contains id ids ≡ false → remove id (id ∷ ids) ≡ ids
unfolding remove
remove-head id ids h = ground (arith, str_eq_refl id, remove-absent id ids h)

-- Where a chain is accepted, so was its first part.
pub >>=-eq-ok :
    {Mid Last : Type 0} (r : Result Mid) (next : Mid → Result Last) {last : Last}
    → (r >>= next) ≡ ok last
    → (mid : Mid) × (r ≡ ok mid) × (next mid ≡ ok last)
>>=-eq-ok (err why) next rejected = cc
>>=-eq-ok (ok mid) next accepted = (mid, refl, accepted)

ok-injective : {A : Type 0} {a b : A} → ok a ≡ ok b → a ≡ b
ok-injective h = cc

Later-refl : (g : Graph) (m : Marks) → Topological g m.visited → Later g m m
Later-refl g m t = record { same_stack = refl; topological = t; grows = λ x h. h }

Later-trans : (g : Graph) (a b c : Marks) → Later g a b → Later g b c → Later g a c
Later-trans g a b c l k = record {
  same_stack = k.same_stack ∙ l.same_stack;
  topological = k.topological;
  grows = λ x h. k.grows x (l.grows x h);
}

abbrev pub Sound : Graph → (Bytes → Marks → Result Marks) → Type 0
Sound g next =
    (d : Bytes) (m m' : Marks)
    → Topological g m.visited
    → next d m ≡ ok m'
    → Later g m m' × (contains d m'.visited ≡ true)

visit_deps-eq-ok :
    (g : Graph) (next : Bytes → Marks → Result Marks) (d : Bytes) (ds : List Bytes) (m m' : Marks)
    → visit_deps next g (d ∷ ds) m ≡ ok m'
    → (m₁ : Marks) × (next d m ≡ ok m₁) × (visit_deps next g ds m₁ ≡ ok m')
unfolding visit_deps
visit_deps-eq-ok g next d ds m m' h = elim (Bool-cases (has_key d g)) [
  | inl e ↦ >>=-eq-ok (next d m) (visit_deps next g ds) (rw e at h)
  | inr e ↦ ground arith
]

-- A visited ID is left as it is.
visit_seen :
    (f : ℕ) (g : Graph) (d : Bytes) (m m' : Marks)
    → Topological g m.visited
    → contains d m.visited ≡ true
    → visit (suc f) g d m ≡ ok m'
    → Later g m m' × (contains d m'.visited ≡ true)
visit_seen f g d m m' t seen h =
    let e : m ≡ m' = unfold visit in ground arith in
    subst (λ u. Later g m u × (contains d u.visited ≡ true)) e (Later-refl g m t, seen)

visit_deps-Sound :
    (g : Graph) (next : Bytes → Marks → Result Marks)
    → Sound g next
    → (ds : List Bytes) (m m' : Marks) → Topological g m.visited
    → visit_deps next g ds m ≡ ok m'
    → Later g m m' × All (λ d. contains d m'.visited ≡ true) ds
unfolding visit_deps
visit_deps-Sound g next s [] m m' t h = (subst (Later g m) (ok-injective h) (Later-refl g m t), tt)
visit_deps-Sound g next s (d ∷ ds) m m' t h =
    let (m₁, e₁, e₂) = visit_deps-eq-ok g next d ds m m' h in
    let (l₁, c₁) = s d m m₁ t e₁ in
    let (l₂, c₂) = visit_deps-Sound g next s ds m₁ m' l₁.topological e₂ in
    (Later-trans g m m₁ m' l₁ l₂, (l₂.grows d c₁, c₂))

-- What an accepted ID that was not visited before went through.
visit-eq-ok :
    (f : ℕ) (g : Graph) (d : Bytes) (m m' : Marks)
    → contains d m.visited ≡ false
    → visit (suc f) g d m ≡ ok m'
    → (m₁ : Marks) × (contains d m.visiting ≡ false)
      × (visit_deps (visit f g) g (deps_of d g) (enter d m) ≡ ok m₁)
      × (leave d m₁ ≡ m')
unfolding visit
visit-eq-ok f g d m m' n h = elim (Bool-cases (contains d m.visiting)) [
  | inl e ↦ ground arith
  | inr e ↦
      let (m₁, e₁, e₂) =
        >>=-eq-ok (visit_deps (visit f g) g (deps_of d g) (enter d m)) (λ m'. ok (leave d m'))
          (rw (e, n) at h) in
      (m₁, e, e₁, ok-injective e₂)
]

visit_new :
    (g : Graph) (d : Bytes) (m m₁ m' : Marks)
    → contains d m.visiting ≡ false
    → Later g (enter d m) m₁
    → All (λ e. contains e m₁.visited ≡ true) (deps_of d g)
    → leave d m₁ ≡ m'
    → Later g m m' × (contains d m'.visited ≡ true)
unfolding enter leave
visit_new g d m m₁ m' n l c e =
    subst (λ u. Later g m u × (contains d u.visited ≡ true)) e
      (
        record {
          same_stack = rw l.same_stack (remove-head d m.visiting n);
          topological = (c, l.topological);
          grows = λ x h. ground (arith, l.grows x h);
        },
        ground (arith, str_eq_refl d),
      )

pub visit-Sound : (fuel : ℕ) (g : Graph) → Sound g (visit fuel g)
visit-Sound zero g d m m' t h = unfold visit in cc
visit-Sound (suc f) g d m m' t h = elim (Bool-cases (contains d m.visited)) [
  | inl seen ↦ visit_seen f g d m m' t seen h
  | inr fresh ↦
      let (m₁, n, e₁, e₂) = visit-eq-ok f g d m m' fresh h in
      let (l, c) =
        visit_deps-Sound g (visit f g) (visit-Sound f g) (deps_of d g) (enter d m) m₁
          (unfold enter in t) e₁ in
      visit_new g d m m₁ m' n l c e₂
]

visit_all_sound :
    (fuel : ℕ) (g : Graph) (ids : List Bytes) (m m' : Marks)
    → Topological g m.visited
    → visit_all fuel g ids m ≡ ok m'
    → Later g m m' × All (λ id. contains id m'.visited ≡ true) ids
unfolding visit_all
visit_all_sound fuel g [] m m' t h = (subst (Later g m) (ok-injective h) (Later-refl g m t), tt)
visit_all_sound fuel g (id ∷ ids) m m' t h =
    let (m₁, e₁, e₂) = >>=-eq-ok (visit fuel g id m) (visit_all fuel g ids) h in
    let (l₁, c₁) = visit-Sound fuel g id m m₁ t e₁ in
    let (l₂, c₂) = visit_all_sound fuel g ids m₁ m' l₁.topological e₂ in
    (Later-trans g m m₁ m' l₁ l₂, (l₂.grows id c₁, c₂))

-- An accepted graph has an order of its steps in which each comes after its dependencies: the
-- search hands it over, last step first, and every step that it was asked about stands in it.
pub search_graph_sound :
    (order : List Bytes) (g : Graph) (m : Marks)
    → search_graph order g ≡ ok m
    → Topological g m.visited × All (λ id. contains id m.visited ≡ true) order
unfolding search_graph
search_graph_sound order g m h =
    let (l, c) = visit_all_sound (suc (length g)) g order no_marks m tt h in (l.topological, c)
