-- ===== src/Stacks/Needed.antt =====
-- unreadyPrerequisites, stackUpEnough and memberUpEnough of internal/runtime/prerequisites.go. What
-- the database has on a command is the argument `facts`, none where the query fails. The recursion of
-- `walk` takes fuel, as the code has no bound but the absence of cycles.
pub mod Plans
pub mod Planned
pub mod Depth
use agent_shell.Base.{
  ltb, ◌==◌, if◌then◌else◌, map_some, ℤ, add_id, length, Text, contains, lookup, insert, Result,
  ◌>>=◌, ok, err, ℕ, zero, suc, Bool, true, false, not, Option, none, some, List, [], ◌∷◌, ◌++◌,
}
use agent_shell.Env.Layers.{StackMember, StackPrerequisite, Stack}
use agent_shell.Runs.Observe.{
  ObservedState, observe_external_run, prerequisite_member_ready, up, down, checking, unsure,
}
use agent_shell.Runs.Run.{Run}
use agent_shell.Stacks.Prerequisites.{normalize_stack_prerequisites}

-- The number of active runs of a command, whether its lifecycle is external, and its latest run.
pub record CommandFacts : Type 0 where
  pub active_runs : ℕ
  pub external : Bool
  pub latest : Option Run

pub record NeededStack : Type 0 where
  pub id : Text
  pub name : Text
  pub up_count : ℕ
  pub total_count : ℕ
  pub wait_timeout_ms : ℤ

pub data PlanError : Type 0 where
  unknown_prerequisite : Text → PlanError
  query_failed : PlanError
  out_of_depth : PlanError

abbrev can_stop : ObservedState → Bool
can_stop down = false
can_stop up = true
can_stop checking = true
can_stop unsure = true

abbrev latest_up : Option Run → Bool
latest_up none = false
latest_up (some r) =
    let s = (observe_external_run r).state in prerequisite_member_ready true s (can_stop s)

abbrev pub member_up_enough : CommandFacts → Bool
member_up_enough c =
    if ltb 0 c.active_runs then true else if not c.external then false else latest_up c.latest

abbrev pub Facts : Type 0
Facts = Text → Option CommandFacts

-- The loop over the members; none is a failed query.
abbrev pub count_up : Facts → ℕ → List StackMember → Option ℕ
count_up facts count [] = some count
count_up facts count (m ∷ ms) = elim (facts m.command_id) [
  | none ↦ none
  | some c ↦ count_up facts (if member_up_enough c then suc count else count) ms
]

abbrev pub is_up : Stack → Option ℕ → Option Bool
is_up s count = map_some (λ n. n == length s.members) count

abbrev pub stack_up_enough : Facts → Stack → Option Bool
stack_up_enough facts s = is_up s (count_up facts 0 s.members)

pub record Plan : Type 0 where
  pub seen : List Text
  pub needed : List NeededStack

abbrev pub Stacks : Type 0
Stacks = List (Text × Stack)

unfoldable pub stack_table : List Stack → Stacks → Stacks
stack_table [] table = table
stack_table (s ∷ stacks) table = stack_table stacks (insert s.id s table)

abbrev pub need : StackPrerequisite → Stack → ℕ → Plan → Plan
need edge s count p = record {
  seen = add_id s.id p.seen;
  needed =
      p.needed
      ++ record {
        id = s.id;
        name = s.name;
        up_count = count;
        total_count = length s.members;
        wait_timeout_ms = edge.wait_timeout_ms;
      }
        ∷ [];
}

-- What the loop body does after the walk of the prerequisite.
abbrev pub weigh : StackPrerequisite → Stack → Plan → Option ℕ → Result PlanError Plan
weigh edge s p none = err query_failed
weigh edge s p (some n) = if n == length s.members then ok p else ok (need edge s n p)

unfoldable pub consider : Facts → StackPrerequisite → Stack → Plan → Result PlanError Plan
unfolding contains
consider facts edge s p =
    if contains p.seen s.id then ok p else weigh edge s p (count_up facts 0 s.members)

unfoldable pub walk_edges :
    (Stack → Plan → Result PlanError Plan)
    → Facts
    → Stacks
    → Plan
    → List StackPrerequisite
    → Result PlanError Plan
unfolding lookup consider
walk_edges deeper facts table p [] = ok p
walk_edges deeper facts table p (edge ∷ edges) = elim (lookup edge.stack_id table) [
  | none ↦ err (unknown_prerequisite edge.stack_id)
  | some s ↦
      deeper s p >>= λ q. consider facts edge s q >>= λ r. walk_edges deeper facts table r edges
]

unfoldable pub walk : ℕ → Facts → Stacks → Stack → Plan → Result PlanError Plan
unfolding walk_edges normalize_stack_prerequisites
walk zero facts table current p = err out_of_depth
walk (suc fuel) facts table current p =
    walk_edges (walk fuel facts table) facts table p
      (normalize_stack_prerequisites current.depends_on_stacks)

abbrev pub no_plan : Plan
no_plan = record { seen = []; needed = [] }

unfoldable pub unready_prerequisites :
    ℕ → Facts → List Stack → Stack → Result PlanError (List NeededStack)
unfolding walk stack_table
unready_prerequisites fuel facts stacks first_stack =
    walk fuel facts (stack_table stacks []) first_stack no_plan >>= λ p. ok p.needed
