-- ===== src/Stacks/Start/Answered.antt =====
-- What startStack of internal/runtime/prerequisites.go comes to: a refusal, or a plan that is followed.
use agent_shell.Base.{
  Text, CaseTable, ok, err, ℕ, ◌≡◌, ◌⊎◌, Bool, true, false, not, ◌&&◌, List, [], some,
}
use agent_shell.Env.Layers.{Stack}
use agent_shell.Stacks.Needed.{NeededStack, PlanError, stack_table, unready_prerequisites}
use agent_shell.Stacks.Needed.Depth.{prerequisite_ids}
use agent_shell.Stacks.Needed.Planned.{IsPlanFor}
use agent_shell.Stacks.Preflight.{StackAnswers}
use agent_shell.Stacks.Start.{
  no_plan_found, prerequisites, StackError, StackStart, has_needed, StartRequest, StackStore,
  asked_stack,
}
use agent_shell.Stacks.Start.Planned.{planned_events, FollowsPlan}

-- Why nothing is started: the stack or its environment cannot be had, no plan is found, or other stacks
-- are needed first and must not be started.
pub data IsRefused (t : CaseTable) (fuel : ℕ) (store : StackStore) (r : StartRequest)
    : StackError → Type 0 where
  unreadable :
      (e : StackError)
      → asked_stack t store r.environment store.stack ≡ err e
      → IsRefused t fuel store r e
  unplanned :
      (first_stack : Stack) (e : PlanError)
      → asked_stack t store r.environment store.stack ≡ ok first_stack
      → unready_prerequisites fuel store.facts store.stacks first_stack ≡ err e
      → IsRefused t fuel store r (no_plan_found e)
  unasked :
      (first_stack : Stack) (needed : List NeededStack)
      → asked_stack t store r.environment store.stack ≡ ok first_stack
      → unready_prerequisites fuel store.facts store.stacks first_stack ≡ ok needed
      → (has_needed needed && not r.start_prerequisites) ≡ true
      → IsRefused t fuel store r (prerequisites needed)

module _ (t : CaseTable) (is_number : Text → Bool) (fuel : ℕ) (store : StackStore)
    (answers : Text → StackAnswers) (r : StartRequest) where
  -- The start is refused with an error, or follows a plan.
  abbrev pub IsStackStart : StackStart → Type 0
  IsStackStart s =
      ((e : StackError) × (s.events ≡ []) × (s.error ≡ some e) × IsRefused t fuel store r e)
      ⊎ (first_stack : Stack) × (needed : List NeededStack) × (asked_stack t store r.environment
            store.stack
          ≡ ok first_stack)
        × IsPlanFor store.facts (stack_table store.stacks []) (prerequisite_ids first_stack) needed
        × ((has_needed needed && not r.start_prerequisites) ≡ false)
        × FollowsPlan is_number answers r (planned_events needed r.stack_id) s
