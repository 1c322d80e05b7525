-- ===== src/Stacks/Order/Table.antt =====
-- The table of a stack's members by command.
use agent_shell.Base.{
  is_some, Text, text_eq, text_eq_iff, contains, lookup, insert, lookup-insert, ◌≡◌, refl, Bool,
  ◌||◌, some, List, [], ◌∷◌, arith,
}
use agent_shell.Env.Layers.{StackMember}
use agent_shell.Stacks.Order.{Members, by_id, command_ids}

-- Each row stands at its own id.
abbrev pub AtIds : Members → Type 0
AtIds table = (id : Text) (m : StackMember) → lookup id table ≡ some m → m.command_id ≡ id

pub insert-AtIds :
    (m : StackMember) (table : Members) → AtIds table → AtIds (insert m.command_id m table)
insert-AtIds m table f id n e =
    ground (arith, lookup-insert m.command_id id m table, text_eq_iff m.command_id id, f id n)

pub by_id-AtIds :
    (members : List StackMember) (table : Members) → AtIds table → AtIds (by_id members table)
unfolding by_id
by_id-AtIds [] table f = f
by_id-AtIds (m ∷ members) table f =
    by_id-AtIds members (insert m.command_id m table) (insert-AtIds m table f)

pub empty-AtIds : AtIds []
unfolding lookup
empty-AtIds id m e = cc

-- What stands in the table is a member or was there before, and every member's id is there.
abbrev pub known : Members → Text → Bool
known table id = is_some (lookup id table)

pub known-insert :
    (k id : Text) (m : StackMember) (table : Members)
    → known (insert k m table) id ≡ (text_eq k id || known table id)
known-insert k id m table = ground (arith, lookup-insert k id m table)

pub by_id_known :
    (members : List StackMember) (table : Members) (id : Text)
    → known (by_id members table) id ≡ (contains (command_ids members) id || known table id)
unfolding by_id contains
by_id_known [] table id = refl
by_id_known (m ∷ members) table id = ground (
  arith,
  by_id_known members (insert m.command_id m table) id,
  known-insert m.command_id id m table,
)
