-- ===== src/Tests/Graphs.antt =====
-- Cycles among the prerequisites of stacks.
use agent_shell.Base.{
  is_some, pos, Text, lit, contains, lookup, insert, ◌≡◌, refl, inr, true, List, [], ◌∷◌, text_eq,
  trim_space, all, text_eq_iff, is_empty, lookup-All, false, not, arith,
}
use agent_shell.Env.Layers.{StackPrerequisite}
use agent_shell.Stacks.Prerequisites.{
  normalize_stack_prerequisites, Graph, candidate_graph, stack_prerequisite_cycle,
}
use agent_shell.Stacks.Prerequisites.Acyclic.{stack_prerequisite_cycle_none}
use agent_shell.Stacks.Prerequisites.Cycle.{
  Leads, stack_prerequisite_cycle-Leads, single, HasEdge-row,
}
use agent_shell.Stacks.Prerequisites.Fuel.{stack_prerequisite_cycle_fuel}
use agent_shell.Stacks.Prerequisites.Layered.{IsSolid}

abbrev prerequisite : Text → StackPrerequisite
prerequisite id = record { stack_id = id; wait_timeout_ms = pos 0 }

abbrev infra_graph : Graph
infra_graph = (lit "app", lit "infra" ∷ []) ∷ (lit "infra", lit "net" ∷ []) ∷ []

abbrev to_app : List StackPrerequisite
to_app = prerequisite (lit "app") ∷ []

abbrev to_infra : List StackPrerequisite
to_infra = prerequisite (lit "infra") ∷ []

normal_edges :
    normalize_stack_prerequisites (prerequisite (lit " infra ") ∷ prerequisite (lit "  ") ∷ [])
    ≡ record { stack_id = lit "infra"; wait_timeout_ms = pos 90000 } ∷ []
unfolding normalize_stack_prerequisites trim_space
normal_edges = refl

stack_prerequisite_cycle-Leads_example :
    Leads (candidate_graph (lit "net") to_app infra_graph) (lit "net") (lit "net")
unfolding stack_prerequisite_cycle insert text_eq
stack_prerequisite_cycle-Leads_example =
    stack_prerequisite_cycle-Leads (lit "net") to_app infra_graph (lit "net")
      (record { visiting = lit "infra" ∷ lit "app" ∷ lit "net" ∷ []; visited = [] }) refl refl

all_real :
    (xs : List Text)
    → all (λ x. not (is_empty x)) xs ≡ true
    → (y : Text) → contains xs y ≡ true
    → is_empty y ≡ false
unfolding contains
all_real [] h y c = cc
all_real (x ∷ xs) h y c = ground (arith, all_real xs (ground arith) y, text_eq_iff x y)

web-IsSolid : IsSolid (candidate_graph (lit "web") to_infra [])
unfolding insert
web-IsSolid x y e =
    let (nexts, found, here) = HasEdge-row (candidate_graph (lit "web") to_infra []) x y e in
    all_real nexts
      (lookup-All (λ k xs. all (λ z. not (is_empty z)) xs ≡ true)
        (candidate_graph (lit "web") to_infra []) (refl, tt) x nexts found)
      y here

stack_prerequisite_cycle_none_example :
    ¬ Leads (candidate_graph (lit "web") to_infra []) (lit "infra") (lit "infra")
unfolding stack_prerequisite_cycle insert lookup contains text_eq
stack_prerequisite_cycle_none_example =
    stack_prerequisite_cycle_none (lit "web") to_infra []
      (record { visiting = []; visited = lit "web" ∷ lit "infra" ∷ [] }) refl web-IsSolid refl
      (lit "infra") (inr (single (lit "web") (lit "infra") refl))

stack_prerequisite_cycle_fuel_example :
    is_some (stack_prerequisite_cycle (lit "net") to_app infra_graph) ≡ true
stack_prerequisite_cycle_fuel_example = stack_prerequisite_cycle_fuel (lit "net") to_app infra_graph
