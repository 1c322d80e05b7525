-- ===== src/Stacks/Selection.antt =====
-- stackMembersForStart and filterSelectedDependencies of internal/runtime/manager.go. The recursion of
-- `include` takes fuel; as many levels as there are members, and one more, are enough.
pub mod Closed
pub mod Kept
pub mod Enough
use agent_shell.Base.{
  if◌then◌else◌, get_or, ℤ, pos, negsuc, add_id, length, Text, lit, is_empty, contains, lookup,
  insert, keys, Result, ◌>>=◌, ok, err, ℕ, zero, suc, true, false, Option, none, some, List, [],
  ◌∷◌,
}
use agent_shell.Env.Layers.{StackMember}
use agent_shell.Http.Templates.{ids}
use agent_shell.Stacks.Order.{Members}

pub data SelectError : Type 0 where
  no_commands : SelectError
  not_a_member duplicate : Text → SelectError
  no_levels : SelectError

abbrev positive_or : ℤ → ℤ → ℤ
positive_or (pos zero) d = d
positive_or (pos (suc n)) d = pos (suc n)
positive_or (negsuc n) d = d

abbrev pub with_defaults : ℕ → StackMember → StackMember
with_defaults i m = record m {
  wait_for = if is_empty m.wait_for then lit "spawn" else m.wait_for;
  wait_timeout_ms = positive_or m.wait_timeout_ms (pos 30000);
  position = i;
}

-- The loop that fills `byID`.
unfoldable pub index_members : ℕ → List StackMember → Members → Members
index_members i [] table = table
index_members i (m ∷ members) table =
    index_members (suc i) members (insert m.command_id (with_defaults i m) table)

abbrev pub include_each :
    (List Text → Text → Result SelectError (List Text))
    → List Text
    → List Text
    → Result SelectError (List Text)
include_each f selected [] = ok selected
include_each f selected (x ∷ xs) = f selected x >>= λ more. include_each f more xs

unfoldable pub include : ℕ → Members → List Text → Text → Result SelectError (List Text)
unfolding contains lookup
include zero table selected id = err no_levels
include (suc fuel) table selected id = elim (lookup id table) [
  | none ↦ err (not_a_member id)
  | some m ↦ elim (contains selected id) [
    | true ↦ ok selected
    | false ↦ include_each (include fuel table) (add_id id selected) m.depends_on
  ]
]

-- The loop over the requested ids.
unfoldable pub include_requested :
    ℕ → Members → List Text → List Text → List Text → Result SelectError (List Text)
unfolding include
include_requested fuel table requested selected [] = ok selected
include_requested fuel table requested selected (id ∷ ids) = elim (contains requested id) [
  | true ↦ err (duplicate id)
  | false ↦ include fuel table selected id >>= λ more.
      include_requested fuel table (add_id id requested) more ids
]

unfoldable pub filter_selected_dependencies : List Text → List Text → List Text
unfolding contains
filter_selected_dependencies [] selected = []
filter_selected_dependencies (d ∷ ds) selected =
    let rest = filter_selected_dependencies ds selected in
    if contains selected d then d ∷ rest else rest

abbrev pub narrowed : List Text → StackMember → StackMember
narrowed selected n = record n { depends_on = filter_selected_dependencies n.depends_on selected }

abbrev pub picked : Members → List Text → StackMember → StackMember
picked table selected m = narrowed selected (get_or (lookup m.command_id table) m)

-- The loop that fills `out`.
unfoldable pub pick_members : Members → List Text → List StackMember → List StackMember
unfolding contains lookup filter_selected_dependencies
pick_members table selected [] = []
pick_members table selected (m ∷ members) =
    let rest = pick_members table selected members in
    if contains selected m.command_id then picked table selected m ∷ rest else rest

-- `commandIDs` is nil or a list.
abbrev pub select_ids : ℕ → Members → Option (List Text) → Result SelectError (List Text)
select_ids fuel table none = ok (keys table)
select_ids fuel table (some []) = err no_commands
select_ids fuel table (some (id ∷ ids)) = include_requested fuel table [] [] (id ∷ ids)

abbrev pub member_table : List StackMember → Members
member_table members = index_members 0 members []

unfoldable pub stack_members_for_start :
    List StackMember → Option (List Text) → Result SelectError (List StackMember)
unfolding index_members include_requested pick_members
stack_members_for_start members command_list =
    select_ids (suc (length members)) (member_table members) command_list >>= λ selected.
    ok (pick_members (member_table members) selected members)
