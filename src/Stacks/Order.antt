-- ===== src/Stacks/Order.antt =====
-- stackDependencyOrder of internal/runtime/manager.go. The recursion of `visit` takes fuel; as many
-- levels as there are members, and one more, are enough.
pub mod Table
pub mod Sorted
pub mod Fuel
pub mod Found
use agent_shell.Base.{
  add_id, drop_id, length, Text, contains, lookup, insert, Result, ◌>>=◌, ok, err, ℕ, zero, suc,
  true, false, none, some, List, [], ◌∷◌, ◌++◌, map,
}
use agent_shell.Env.Layers.{StackMember}

pub data OrderError : Type 0 where
  cycle unknown_command : Text → OrderError
  out_of_fuel : OrderError

-- The maps `visiting` and `visited` and the slice `out` that `visit` captures.
pub record Search : Type 0 where
  pub visiting : List Text
  pub visited : List Text
  pub order : List StackMember

abbrev pub Members : Type 0
Members = List (Text × StackMember)

-- The loop that fills `byID`.
unfoldable pub by_id : List StackMember → Members → Members
by_id [] table = table
by_id (m ∷ members) table = by_id members (insert m.command_id m table)

-- A loop over ids that stops at the first error.
abbrev pub visit_each :
    (Search → Text → Result OrderError Search) → Search → List Text → Result OrderError Search
visit_each f s [] = ok s
visit_each f s (x ∷ xs) = f s x >>= λ s'. visit_each f s' xs

abbrev pub enter : Text → Search → Search
enter id s = record s { visiting = add_id id s.visiting }

abbrev pub leave : Text → StackMember → Search → Search
leave id m s = record s {
  visiting = drop_id id s.visiting;
  visited = add_id id s.visited;
  order = s.order ++ m ∷ [];
}

unfoldable pub visit : ℕ → Members → Search → Text → Result OrderError Search
unfolding contains lookup
visit zero table s id = err out_of_fuel
visit (suc fuel) table s id = elim (contains s.visiting id) [
  | true ↦ err (cycle id)
  | false ↦ elim (contains s.visited id) [
    | true ↦ ok s
    | false ↦ elim (lookup id table) [
      | none ↦ err (unknown_command id)
      | some m ↦
          visit_each (visit fuel table) (enter id s) m.depends_on >>= λ s'. ok (leave id m s')
    ]
  ]
]

abbrev pub no_search : Search
no_search = record { visiting = []; visited = []; order = [] }

abbrev pub command_ids : List StackMember → List Text
command_ids members = map (λ m. m.command_id) members

abbrev pub search_members : List StackMember → Result OrderError Search
search_members members =
    visit_each (visit (suc (length members)) (by_id members [])) no_search (command_ids members)

unfoldable pub stack_dependency_order : List StackMember → Result OrderError (List StackMember)
unfolding visit by_id
stack_dependency_order members = search_members members >>= λ s. ok s.order
