-- ===== src/Operation/Validate/Examples.antt =====
-- Specifications that the search accepts and rejects.
use mcpx.Base.{
  ◌≡◌, refl, true, false, List, [], ◌∷◌, All, Bytes, codes, length, ◌≤◌, trim_space, is_blank,
}
use mcpx.Operation.State.{StepSpec, SubmitSpec}
use mcpx.Operation.Cell.{contains, remove}
use mcpx.Operation.Run.Create.{DistinctIds}
use mcpx.Operation.Validate.{
  Graph, Marks, ok, err, cycle, search_graph, validate_spec, index_steps, has_key, deps_of, visit,
  visit_all, max_steps,
}
use mcpx.Operation.Validate.Topological.{Topological, search_graph_sound}
use mcpx.Operation.Validate.Rejections.{Fault, Reaches, search_graph_explained}
use mcpx.Operation.Validate.Accepted.{validate_spec_sound}

abbrev pub step_named : Bytes → List Bytes → StepSpec
step_named id deps = record {
  id = id;
  tool = codes "edit";
  arguments = [];
  depends_on = deps;
  exclusive = false;
}

-- `b` after `a`.
abbrev pub two_steps : SubmitSpec
two_steps = record {
  run_id = codes "r";
  id = codes "op";
  remote_session_id = codes "s";
  workspace_name = codes "w";
  request_id = codes "q";
  purpose = codes "p";
  steps = step_named (codes "b") (codes "a" ∷ []) ∷ step_named (codes "a") [] ∷ [];
}

abbrev pub keys_in_order : Graph → List Bytes
keys_in_order [] = []
keys_in_order ((k, ds) ∷ g) = k ∷ keys_in_order g

abbrev pub two_marks : Marks
two_marks = record { visiting = []; visited = codes "b" ∷ codes "a" ∷ [] }

pub two_steps_accepted : validate_spec keys_in_order two_steps ≡ ok two_marks
unfolding validate_spec trim_space is_blank visit visit_all has_key deps_of remove
two_steps_accepted = refl

abbrev pub two_graph : Graph
two_graph = (codes "a", []) ∷ (codes "b", codes "a" ∷ []) ∷ []

abbrev looped : Graph
looped = (codes "a", codes "b" ∷ []) ∷ (codes "b", codes "a" ∷ []) ∷ []

two_graph_accepted : search_graph (codes "b" ∷ codes "a" ∷ []) two_graph ≡ ok two_marks
unfolding search_graph visit visit_all has_key deps_of remove
two_graph_accepted = refl

looped_rejected : search_graph (codes "a" ∷ []) looped ≡ err cycle
unfolding search_graph visit visit_all has_key deps_of remove
looped_rejected = refl

search_graph_sound_example :
    Topological two_graph two_marks.visited
    × All (λ id. contains id two_marks.visited ≡ true) (codes "b" ∷ codes "a" ∷ [])
search_graph_sound_example =
    search_graph_sound (codes "b" ∷ codes "a" ∷ []) two_graph two_marks two_graph_accepted

search_graph_explained_example : Fault looped cycle
search_graph_explained_example =
    search_graph_explained (codes "a" ∷ []) looped cycle looped_rejected

validate_spec_sound_example :
    (1 ≤ length two_steps.steps)
    × (length two_steps.steps ≤ max_steps)
    × DistinctIds two_steps.steps
    × ((g : Graph) × (index_steps two_steps.steps [] ≡ ok g)
        × ((x : Bytes) → contains x (keys_in_order g) ≡ true → ¬ Reaches g x x))
validate_spec_sound_example =
    validate_spec_sound keys_in_order two_steps two_marks two_steps_accepted
