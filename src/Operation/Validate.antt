-- ===== src/Operation/Validate.antt =====
-- internal/operation/service.go, validateSpec: the checks before an operation is stored, with the
-- depth-first search over the dependencies. A Go map iterates in any order: the order of the keys
-- is the argument `order`. The fuel bounds the depth of the search; validate_spec gives one more
-- than the number of steps.
pub mod Topological
pub mod Rejections
pub mod Accepted
pub mod Examples
use mcpx.Base.{
  ℕ, zero, suc, Bool, true, false, ◌||◌, List, [], ◌∷◌, if◌then◌else◌, ltb, length, Bytes, str_eq,
  trim_space, is_blank,
}
use mcpx.Operation.State.{StepSpec, SubmitSpec}
use mcpx.Operation.Cell.{contains, remove}

-- `out_of_fuel` is the model's own.
pub data SpecError : Type 0 where
  missing_session bad_step_count missing_id_or_tool duplicate_id cycle unknown_step out_of_fuel :
      SpecError

pub data Result (A : Type 0) : Type 0 where
  ok : A → Result A
  err : SpecError → Result A

infixl 5 ◌>>=◌
abbrev pub ◌>>=◌ : {Mid Last : Type 0} → Result Mid → (Mid → Result Last) → Result Last
err why >>= next = err why
ok mid >>= next = next mid

-- byID, keyed by the trimmed ID; no key stands twice.
abbrev pub Graph : Type 0
Graph = List (Bytes × List Bytes)

pub has_key : Bytes → Graph → Bool
has_key id [] = false
has_key id ((k, ds) ∷ g) = str_eq id k || has_key id g

-- byID[id].DependsOn
pub deps_of : Bytes → Graph → List Bytes
deps_of id [] = []
deps_of id ((k, ds) ∷ g) = if str_eq id k then ds else deps_of id g

-- The loop that fills `byID`.
pub index_steps : List StepSpec → Graph → Result Graph
unfolding has_key
index_steps [] g = ok g
index_steps (s ∷ steps) g =
    let id = trim_space s.id in
    let rest = index_steps steps ((id, s.depends_on) ∷ g) in
    if str_eq id [] || is_blank s.tool
    then err missing_id_or_tool
    else if has_key id g
    then err duplicate_id
    else rest

-- The sets `visiting` and `visited`.
pub record Marks : Type 0 where
  pub visiting : List Bytes
  pub visited : List Bytes

enter : Bytes → Marks → Marks
enter id m = record m { visiting = id ∷ m.visiting }

leave : Bytes → Marks → Marks
leave id m = record { visiting = remove id m.visiting; visited = id ∷ m.visited }

-- The loop of `visit` over the dependencies; `next` is the recursive call.
visit_deps : (Bytes → Marks → Result Marks) → Graph → List Bytes → Marks → Result Marks
visit_deps next g [] m = ok m
visit_deps next g (d ∷ ds) m =
    if has_key d g then (next d m >>= visit_deps next g ds) else err unknown_step

pub visit : ℕ → Graph → Bytes → Marks → Result Marks
unfolding visit_deps enter leave
visit zero g id m = err out_of_fuel
visit (suc f) g id m =
    let rest = visit_deps (visit f g) g (deps_of id g) (enter id m) >>= λ m'. ok (leave id m') in
    if contains id m.visiting then err cycle else if contains id m.visited then ok m else rest

-- The last loop.
pub visit_all : ℕ → Graph → List Bytes → Marks → Result Marks
visit_all fuel g [] m = ok m
visit_all fuel g (id ∷ ids) m = visit fuel g id m >>= visit_all fuel g ids

abbrev pub max_steps : ℕ
max_steps = 32

abbrev pub no_marks : Marks
no_marks = record { visiting = []; visited = [] }

-- The search over a filled `byID`.
pub search_graph : List Bytes → Graph → Result Marks
search_graph order g = visit_all (suc (length g)) g order no_marks

pub validate_spec : (Graph → List Bytes) → SubmitSpec → Result Marks
unfolding index_steps search_graph
validate_spec order spec =
    if is_blank spec.remote_session_id || is_blank spec.workspace_name
    then err missing_session
    else if ltb (length spec.steps) 1 || ltb max_steps (length spec.steps)
    then err bad_step_count
    else (index_steps spec.steps [] >>= λ g. search_graph (order g) g)
