-- ===== src/Stacks/Prerequisites.antt =====
-- NormalizeStackPrerequisites and StackPrerequisiteCycle of internal/domain/domain.go. The recursion
-- of `visit` takes fuel; as many levels as the graph has rows, and one more, are enough.
pub mod Cases
pub mod Cycle
pub mod Layered
pub mod Acyclic
pub mod Fuel
use agent_shell.Base.{
  if◌then◌else◌, get_or, ℤ, pos, add_id, drop_id, length, Text, is_empty, trim_space, contains,
  lookup, insert, ℕ, zero, suc, Bool, true, false, Option, none, some, List, [], ◌∷◌, map,
}
use agent_shell.Env.Layers.{StackPrerequisite}
use agent_shell.Runs.Run.{start}

abbrev pub default_prerequisite_timeout : ℤ
default_prerequisite_timeout = pos 90000

abbrev is_zero : ℤ → Bool
is_zero (pos zero) = true
is_zero _ = false

abbrev pub normal_prerequisite : StackPrerequisite → StackPrerequisite
normal_prerequisite edge = record {
  stack_id = trim_space edge.stack_id;
  wait_timeout_ms =
      if is_zero edge.wait_timeout_ms then default_prerequisite_timeout else edge.wait_timeout_ms;
}

unfoldable pub normalize_stack_prerequisites : List StackPrerequisite → List StackPrerequisite
normalize_stack_prerequisites [] = []
normalize_stack_prerequisites (edge ∷ edges) =
    let rest = normalize_stack_prerequisites edges in
    if is_empty (trim_space edge.stack_id) then rest else normal_prerequisite edge ∷ rest

abbrev pub Graph : Type 0
Graph = List (Text × List Text)

abbrev pub next_ids : Graph → Text → List Text
next_ids deps id = get_or (lookup id deps) []

-- The maps that `visit` captures.
pub record Marks : Type 0 where
  pub visiting : List Text
  pub visited : List Text

abbrev pub Found : Type 0
Found = Option (Text × Marks)

abbrev pub open_mark : Text → Marks → Marks
open_mark id s = record s { visiting = add_id id s.visiting }

abbrev pub close_mark : Text → Marks → Marks
close_mark id s = record { visiting = drop_id id s.visiting; visited = add_id id s.visited }

-- The loop over the next ids, which returns the first id that is found; none is the end of the fuel.
unfoldable pub look_each : (Marks → Text → Found) → Marks → List Text → Found
look_each f s [] = some ([], s)
look_each f s (x ∷ xs) = elim (f s x) [
  | none ↦ none
  | some r ↦ elim (is_empty r.0) [ false ↦ some r | true ↦ look_each f r.1 xs ]
]

abbrev pub close_found : Text → Found → Found
close_found id none = none
close_found id (some ([], s)) = some ([], close_mark id s)
close_found id (some (c ∷ found, s)) = some (c ∷ found, s)

unfoldable pub look : ℕ → Graph → Marks → Text → Found
unfolding look_each contains lookup
look zero deps s id = none
look (suc fuel) deps s id = elim (contains s.visiting id) [
  | true ↦ some (id, s)
  | false ↦ elim (contains s.visited id) [
    | true ↦ some ([], s)
    | false ↦ close_found id (look_each (look fuel deps) (open_mark id s) (next_ids deps id))
  ]
]

abbrev pub no_marks : Marks
no_marks = record { visiting = []; visited = [] }

-- The graph with the candidate edges of the first id.
abbrev pub candidate_graph : Text → List StackPrerequisite → Graph → Graph
candidate_graph first_id edges graph = insert first_id (map (λ e. e.stack_id) edges) graph

unfoldable pub stack_prerequisite_cycle : Text → List StackPrerequisite → Graph → Found
unfolding look
stack_prerequisite_cycle first_id edges graph =
    let deps = candidate_graph first_id edges graph in
    look (suc (length deps)) deps no_marks first_id
