-- ===== src/Stacks/Preflight.antt =====
-- startStackMembersOnly of internal/runtime/manager.go around its loop: the selection, the check of the
-- parameters before any start, and the loop of Stacks.Waves. What the store and the processes answer
-- while one stack is started is the argument `a`.
use agent_shell.Base.{
  if◌then◌else◌, is_some, or_else, get_or, map_some, Text, lookup, Result, ok, err, Bool, true,
  false, not, ◌&&◌, ◌||◌, Option, none, some, List, [], ◌∷◌,
}
use agent_shell.Commands.Definition.{
  CommandDefinition, Policy, is_external, active_runs_for_command, runs_for_command, no_policy,
  forbid, replace, allow, other_policy,
}
use agent_shell.Commands.Lifecycle.{external_started}
use agent_shell.Commands.Params.{ParamError, resolve_command_parameters}
use agent_shell.Env.Layers.{StackMember, Stack}
use agent_shell.Runs.Manager.{Manager}
use agent_shell.Runs.Run.{Run}
use agent_shell.Stacks.Needed.{Facts}
use agent_shell.Stacks.Selection.{SelectError, stack_members_for_start}
use agent_shell.Stacks.Waves.{Attempt, WaveError, is_nil, start_in_waves}

-- One round of waitStackReady: what the database has, and whether then the deadline is over or the
-- context is done.
pub record ReadyRound : Type 0 where
  pub facts : Facts
  pub late : Bool
  pub cancelled : Bool

-- For the start of one stack: the stack as the store has it, its commands, the runs, whether the
-- library can be read, what each start gives, and the rounds of the wait. None is a failed query.
pub record StackAnswers : Type 0 where
  pub stack : Option Stack
  pub command : Text → Option CommandDefinition
  pub runs : Option Manager
  pub library_read : Bool
  pub attempt : StackMember → Attempt
  pub rounds : List ReadyRound

pub data MembersError : Type 0 where
  store_failed : MembersError
  bad_selection : SelectError → MembersError
  bad_member : Text → ParamError → MembersError
  bad_waves : WaveError → MembersError

abbrev pub Values : Type 0
Values = List (Text × List (Text × Text))

abbrev pub repeats : Policy → Bool
repeats replace = true
repeats allow = true
repeats no_policy = false
repeats forbid = false
repeats other_policy = false

abbrev pub no_active : List Run → Bool
no_active [] = true
no_active (r ∷ rs) = false

-- Whether the loop goes on to the next member before it looks at the parameters.
abbrev pub is_left_alone : Manager → CommandDefinition → Text → Bool
is_left_alone m c id =
    not (repeats c.concurrency_policy)
    && (not (no_active (active_runs_for_command m id))
        || (is_external c && (external_started (runs_for_command m c.id)).0))

abbrev pub checked_values :
    (Text → Bool) → CommandDefinition → Text → List (Text × Text) → Option MembersError
checked_values is_number c id values =
    elim (resolve_command_parameters is_number c.parameters values) [
      | ok t ↦ none
      | err e ↦ some (bad_member id e)
    ]

abbrev pub check_command :
    (Text → Bool) → Values → Option Manager → Text → Option CommandDefinition → Option MembersError
check_command is_number values runs id none = some store_failed
check_command is_number values none id (some c) = some store_failed
check_command is_number values (some m) id (some c) =
    if is_left_alone m c id
    then none
    else checked_values is_number c id (get_or (lookup id values) [])

-- The preflight.
unfoldable pub preflight :
    (Text → Bool)
    → Values
    → (Text → Option CommandDefinition)
    → Option Manager
    → List StackMember
    → Option MembersError
unfolding lookup resolve_command_parameters active_runs_for_command runs_for_command
    external_started is_external
preflight is_number values command runs [] = none
preflight is_number values command runs (member ∷ members) =
    or_else (check_command is_number values runs member.command_id (command member.command_id))
      (preflight is_number values command runs members)

-- The runs, the error, whether the loop has begun, and whether the stack's own checks are started.
pub record MembersOutcome : Type 0 where
  pub out : List Text
  pub error : Option MembersError
  pub began : Bool
  pub checks_started : Bool

abbrev pub not_begun : MembersError → MembersOutcome
not_begun e = record { out = []; error = some e; began = false; checks_started = false }

abbrev pub run_loop : StackAnswers → Stack → Option (List Text) → List StackMember → MembersOutcome
run_loop a s selected members =
    let ran = start_in_waves s.start_strategy s.failure_policy a.attempt members in
    record {
      out = ran.0.out;
      error = map_some bad_waves ran.1;
      began = true;
      checks_started = not (is_some ran.1) && is_nil ran.0.failures && not (is_some selected);
    }

-- What comes behind the preflight, by what it gave and whether the library can be read.
abbrev pub after_preflight :
    StackAnswers
    → Stack
    → Option (List Text)
    → List StackMember
    → Option MembersError
    → Bool
    → MembersOutcome
after_preflight a s selected members (some e) library_read = not_begun e
after_preflight a s selected members none false = not_begun store_failed
after_preflight a s selected members none true = run_loop a s selected members

abbrev pub after_selection :
    (Text → Bool)
    → Values
    → StackAnswers
    → Stack
    → Option (List Text)
    → Result SelectError (List StackMember)
    → MembersOutcome
after_selection is_number values a s selected (err e) = not_begun (bad_selection e)
after_selection is_number values a s selected (ok members) =
    after_preflight a s selected members (preflight is_number values a.command a.runs members)
      a.library_read

abbrev pub of_stack :
    (Text → Bool) → Values → StackAnswers → Option (List Text) → Option Stack → MembersOutcome
of_stack is_number values a selected none = not_begun store_failed
of_stack is_number values a selected (some s) =
    after_selection is_number values a s selected (stack_members_for_start s.members selected)

unfoldable pub start_stack_members_only :
    (Text → Bool) → Values → StackAnswers → Option (List Text) → MembersOutcome
unfolding preflight start_in_waves stack_members_for_start
start_stack_members_only is_number values a selected = of_stack is_number values a selected a.stack
