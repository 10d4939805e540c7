-- ===== src/Operation/Validate/Rejections.antt =====
-- Why the search rejects a dependency graph, and that its fuel is enough.
use mathlib.Core.Path.{subst}
use mcpx.Base.{
  ℕ, zero, suc, ◌≤◌, ◌<◌, ◌≡◌, refl, ◌∙◌, ◌⊎◌, true, false, List, [], ◌∷◌, arith, if◌then◌else◌,
  Bool-cases, inl, inr, All, All-imp, length, Bytes, str_eq, str_eq_refl, str_eq-sym, str_eq→eq,
}
use mcpx.Operation.Cell.{contains}
use mcpx.Operation.Validate.{
  Result, ok, err, ◌>>=◌, SpecError, cycle, unknown_step, Graph, has_key, deps_of, Marks, enter,
  leave, visit_deps, visit, visit_all, search_graph, no_marks,
}
use mcpx.Operation.Validate.Topological.{Topological, visit-Sound}

-- The number of steps that are not on the stack.
abbrev free : Graph → List Bytes → ℕ
free [] ids = 0
free ((k, ds) ∷ g) ids = let rest = free g ids in if contains k ids then rest else suc rest

free-nil-le : (g : Graph) → free g [] ≤ length g
free-nil-le [] = omega arith
free-nil-le ((k, ds) ∷ g) = omega (arith, free-nil-le g)

free-cons-le : (g : Graph) (id : Bytes) (ids : List Bytes) → free g (id ∷ ids) ≤ free g ids
free-cons-le [] id ids = omega arith
free-cons-le ((k, ds) ∷ g) id ids = ground (arith, free-cons-le g id ids)

free-cons-lt :
    (g : Graph) (id : Bytes) (ids : List Bytes)
    → contains id ids ≡ false
    → has_key id g ≡ true
    → free g (id ∷ ids) < free g ids
free-cons-lt [] id ids n h = unfold has_key in cc
free-cons-lt ((k, ds) ∷ g) id ids n h = elim (Bool-cases (str_eq id k)) [
  | inl e ↦
      let absent : contains k ids ≡ false = rw (← (str_eq→eq id k e)) n in
      ground (arith, str_eq-sym id k, absent, free-cons-le g id ids)
  | inr e ↦
      let h' : has_key id g ≡ true = unfold has_key in ground arith in
      ground (arith, free-cons-lt g id ids n h')
]

-- A step depends on another, directly or through others.
pub data Reaches (g : Graph) : Bytes → Bytes → Type 0 where
  edge : {x y : Bytes} → contains y (deps_of x g) ≡ true → Reaches g x y
  path : {x y z : Bytes} → Reaches g x y → contains z (deps_of y g) ≡ true → Reaches g x z

-- A real fault of the graph for each error of the search.
pub data Fault (g : Graph) : SpecError → Type 0 where
  has_cycle : (x : Bytes) → Reaches g x x → Fault g cycle
  dangling :
      (x y : Bytes) → contains y (deps_of x g) ≡ true → has_key y g ≡ false → Fault g unknown_step

contains_self : (ids : List Bytes) → All (λ d. contains d ids ≡ true) ids
contains_self [] = tt
contains_self (x ∷ ids) =
    (ground (arith, str_eq_refl x), All-imp _ _ ids (λ d h. ground arith) (contains_self ids))

pub All-contains :
    (P : Bytes → Type 0) (x : Bytes) (ids : List Bytes) → All P ids → contains x ids ≡ true → P x
All-contains P x [] h c = cc
All-contains P x (y ∷ ids) (h, hs) c = elim (Bool-cases (str_eq x y)) [
  | inl e ↦ rw (str_eq→eq x y e) h
  | inr e ↦ All-contains P x ids hs (ground arith)
]

>>=-eq-err :
    {Mid Last : Type 0} (r : Result Mid) (next : Mid → Result Last) {why : SpecError}
    → (r >>= next) ≡ err why
    → (r ≡ err why) ⊎ ((mid : Mid) × (r ≡ ok mid) × (next mid ≡ err why))
>>=-eq-err (err why) next rejected = inl (cc)
>>=-eq-err (ok mid) next rejected = inr (mid, refl, rejected)

-- What holds where the search is about to visit `id`: there is fuel, and each step on the stack
-- reaches `id`.
record Poised (g : Graph) (fuel : ℕ) (id : Bytes) (m : Marks) : Type 0 where
  fuelled : free g m.visiting < fuel
  ordered : Topological g m.visited
  leads : All (λ x. Reaches g x id) m.visiting

abbrev Explained : Graph → ℕ → Type 0
Explained g fuel =
    (id : Bytes) (m : Marks) (e : SpecError)
    → Poised g fuel id m
    → visit fuel g id m ≡ err e
    → Fault g e

visit_deps-Explained :
    (g : Graph) (fuel : ℕ) (id : Bytes) (stack : List Bytes)
    → Explained g fuel
    → free g (id ∷ stack) < fuel
    → All (λ x. Reaches g x id) stack
    → (ds : List Bytes) (m : Marks) (e : SpecError) → All (λ d. contains d (deps_of id g) ≡ true) ds
    → m.visiting ≡ id ∷ stack
    → Topological g m.visited
    → visit_deps (visit fuel g) g ds m ≡ err e
    → Fault g e
unfolding visit_deps
visit_deps-Explained g fuel id stack x room leads [] m e c s t h = cc
visit_deps-Explained g fuel id stack x room leads (d ∷ ds) m e (c, cs) s t h =
    elim (Bool-cases (has_key d g)) [
      | inl k ↦ elim (>>=-eq-err (visit fuel g d m) (visit_deps (visit fuel g) g ds) (rw k at h)) [
        | inl h₁ ↦
            x d m e
              (record {
                fuelled = rw s room;
                ordered = t;
                leads = rw s (edge c, All-imp _ _ stack (λ y r. path r c) leads);
              })
              h₁
        | inr (m₁, h₁, h₂) ↦
            let (l, seen) = visit-Sound fuel g d m m₁ t h₁ in
            visit_deps-Explained g fuel id stack x room leads ds m₁ e cs (l.same_stack ∙ s)
              l.topological h₂
      ]
      | inr k ↦ let e' : unknown_step ≡ e = ground arith in subst (Fault g) e' (dangling id d c k)
    ]

no_deps : (id : Bytes) (g : Graph) → has_key id g ≡ false → deps_of id g ≡ []
unfolding has_key deps_of
no_deps id [] h = refl
no_deps id ((k, ds) ∷ g) h = ground (arith, no_deps id g)

enter-Explained :
    (f : ℕ) (g : Graph)
    → Explained g f
    → (id : Bytes) (m : Marks) (e : SpecError) → Poised g (suc f) id m
    → contains id m.visiting ≡ false
    → visit_deps (visit f g) g (deps_of id g) (enter id m) ≡ err e
    → Fault g e
unfolding enter
enter-Explained f g x id m e p n h = elim (Bool-cases (has_key id g)) [
  | inl k ↦
      visit_deps-Explained g f id m.visiting x
        (omega (arith, free-cons-lt g id m.visiting n k, p.fuelled)) p.leads (deps_of id g)
        (enter id m) e (contains_self (deps_of id g)) refl p.ordered h
  | inr k ↦ unfold visit_deps in cc (rw (no_deps id g k) at h)
]

visit-Explained : (fuel : ℕ) (g : Graph) → Explained g fuel
unfolding visit
visit-Explained zero g id m e p h = absurd (omega (arith, p.fuelled))
visit-Explained (suc f) g id m e p h = elim (Bool-cases (contains id m.visiting)) [
  | inl k ↦
      let e' : cycle ≡ e = ground arith in
      subst (Fault g) e' (has_cycle id (All-contains (λ x. Reaches g x id) id m.visiting p.leads k))
  | inr n ↦ elim (Bool-cases (contains id m.visited)) [
    | inl k ↦ absurd (ground arith)
    | inr k ↦
        elim (>>=-eq-err (visit_deps (visit f g) g (deps_of id g) (enter id m))
          (λ m'. ok (leave id m')) (rw (n, k) at h)) [
            | inl h₁ ↦ enter-Explained f g (visit-Explained f g) id m e p n h₁
            | inr (m₁, h₁, h₂) ↦ cc
          ]
  ]
]

visit_all_explained :
    (fuel : ℕ) (g : Graph) (ids : List Bytes) (m : Marks) (e : SpecError)
    → length g < fuel
    → m.visiting ≡ []
    → Topological g m.visited
    → visit_all fuel g ids m ≡ err e
    → Fault g e
unfolding visit_all
visit_all_explained fuel g [] m e room s t h = cc
visit_all_explained fuel g (id ∷ ids) m e room s t h =
    elim (>>=-eq-err (visit fuel g id m) (visit_all fuel g ids) h) [
      | inl h₁ ↦
          visit-Explained fuel g id m e
            (record { fuelled = rw s (omega (arith, free-nil-le g)); ordered = t; leads = rw s tt })
            h₁
      | inr (m₁, h₁, h₂) ↦
          let (l, seen) = visit-Sound fuel g id m m₁ t h₁ in
          visit_all_explained fuel g ids m₁ e room (l.same_stack ∙ s) l.topological h₂
    ]

-- Each rejection by the search is justified: `cycle` by a step that depends on itself, directly or
-- through others, and `unknown_step` by a dependency that names no step. The search never runs out
-- of fuel.
pub search_graph_explained :
    (order : List Bytes) (g : Graph) (e : SpecError) → search_graph order g ≡ err e → Fault g e
unfolding search_graph
search_graph_explained order g e h =
    visit_all_explained (suc (length g)) g order no_marks e (omega arith) refl tt h
