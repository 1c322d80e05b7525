-- ===== src/Stacks/Halt.antt =====
-- StopStack of internal/runtime/manager.go: the members of a stack are stopped one after the other, in
-- the reverse of their order. `stop_one` stands for Manager.StopCommand, and `s` for what it changes.
pub mod Ordered
use agent_shell.Base.{Text, Result, ok, err, Option, none, some, List, [], ◌∷◌, ◌++◌, reverse}
use agent_shell.Env.Layers.{StackMember}
use agent_shell.Stacks.Order.{OrderError, stack_dependency_order}

pub data HaltError {ℓ} (E : Type ℓ) : Type ℓ where
  bad_order : OrderError → HaltError E
  not_stopped : E → HaltError E

module _ {S R E : Type 0} (stop_one : S → Text → S × Result E (List R)) where
  -- The loop: what was stopped, and the error of the first command that was not.
  pub stop_members : S → List StackMember → List R → S × List R × Option (HaltError E)
  stop_members s [] out = (s, out, none)
  stop_members s (m ∷ ms) out = elim (stop_one s m.command_id).1 [
    | ok runs ↦ stop_members (stop_one s m.command_id).0 ms (out ++ runs)
    | err e ↦ ((stop_one s m.command_id).0, out, some (not_stopped e))
  ]

  abbrev pub stop_ordered :
      S → Result OrderError (List StackMember) → S × List R × Option (HaltError E)
  stop_ordered s (err e) = (s, [], some (bad_order e))
  stop_ordered s (ok order) = stop_members s (reverse order) []

  unfoldable pub stop_stack : S → List StackMember → S × List R × Option (HaltError E)
  unfolding stack_dependency_order stop_members
  stop_stack s members = stop_ordered s (stack_dependency_order members)
