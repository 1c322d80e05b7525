-- ===== src/Stacks/Start.antt =====
-- startStack and waitStackReady of internal/runtime/prerequisites.go. What the store, the processes and
-- the clock answer while a stack is started is the argument `answers`.
pub mod Checked
pub mod Planned
pub mod Answered
use agent_shell.Base.{
  refl, if◌then◌else◌, is_some, or_else, get_or, map_some, Text, is_empty, trim_space, CaseTable,
  lookup, Result, ok, err, ℕ, Bool, true, false, not, ◌&&◌, ◌||◌, Option, none, some, List, [], ◌∷◌,
  ◌++◌,
}
use agent_shell.Commands.Definition.{
  CommandDefinition, Policy, is_external, active_runs_for_command, runs_for_command, no_policy,
  forbid, replace, allow, other_policy,
}
use agent_shell.Commands.Lifecycle.{external_started}
use agent_shell.Commands.Params.{ParamError, resolve_command_parameters}
use agent_shell.Env.Extras.{normalize_stack_environment}
use agent_shell.Env.Layers.{StackMember, Stack, apply_stack_environment}
use agent_shell.Env.Library.{EnvError}
use agent_shell.Runs.Manager.{Manager}
use agent_shell.Runs.Run.{Run}
use agent_shell.Stacks.Needed.{
  NeededStack, PlanError, Facts, stack_up_enough, unready_prerequisites,
}
use agent_shell.Stacks.Preflight.{
  ReadyRound, StackAnswers, MembersError, store_failed, bad_selection, bad_member, bad_waves,
  Values, is_left_alone, preflight, MembersOutcome, not_begun, run_loop, after_preflight,
  after_selection, of_stack, start_stack_members_only,
}
use agent_shell.Stacks.Selection.{SelectError, stack_members_for_start}
use agent_shell.Stacks.Waves.{Attempt, WaveError, is_nil, start_in_waves}

pub data StackError : Type 0 where
  query_failed : StackError
  bad_environment : EnvError → StackError
  no_plan_found : PlanError → StackError
  prerequisites : List NeededStack → StackError
  prerequisite_failed : Text → MembersError → StackError
  members_failed : MembersError → StackError
  not_ready : Text → StackError
  context_done rounds_over : StackError

-- What a round gives: an error, none where the stack is up, or what the rounds behind it give.
abbrev pub after_round : Stack → ReadyRound → Option StackError → Option Bool → Option StackError
after_round s r rest none = some query_failed
after_round s r rest (some true) = none
after_round s r rest (some false) =
    if r.late then some (not_ready s.name) else if r.cancelled then some context_done else rest

-- The loop ends at the first late round at the latest; `rounds_over` is where none is given.
unfoldable pub wait_rounds : Stack → List ReadyRound → Option StackError
wait_rounds s [] = some rounds_over
wait_rounds s (r ∷ rs) = after_round s r (wait_rounds s rs) (stack_up_enough r.facts s)

abbrev pub wait_stack_ready : Option Stack → List ReadyRound → Option StackError
wait_stack_ready none rounds = some query_failed
wait_stack_ready (some s) rounds = wait_rounds s rounds

-- The start of the members of a stack that is needed, the end of the wait for it, and the start of the
-- members of the stack that is asked for.
pub data StartEvent : Type 0 where
  members_began came_up itself_began : Text → StartEvent

-- What is started, and the stack that SaveStack has written.
pub record StackStart : Type 0 where
  pub events : List StartEvent
  pub out : List Text
  pub error : Option StackError
  pub saved_stack : Option Stack

abbrev pub began_events : StartEvent → MembersOutcome → List StartEvent
began_events event o = if o.began then event ∷ [] else []

-- The loop over the stacks to start first, and the stack itself behind it.
abbrev pub start_itself : Text → MembersOutcome → StackStart
start_itself id o = record {
  events = began_events (itself_began id) o;
  out = o.out;
  error = map_some members_failed o.error;
  saved_stack = none;
}

abbrev pub halted : List StartEvent → StackError → StackStart
halted events e = record { events = events; out = []; error = some e; saved_stack = none }

abbrev pub waited : Text → MembersOutcome → Option StackError → StackStart → StackStart
waited id o (some e) rest = halted (began_events (members_began id) o) e
waited id o none rest = record rest {
  events = began_events (members_began id) o ++ came_up id ∷ rest.events;
}

abbrev pub started_first :
    NeededStack → StackAnswers → MembersOutcome → Option MembersError → StackStart → StackStart
started_first n a o (some e) rest =
    halted (began_events (members_began n.id) o) (prerequisite_failed n.name e)
started_first n a o none rest = waited n.id o (wait_stack_ready a.stack a.rounds) rest

unfoldable pub start_each :
    (Text → Bool) → (Text → StackAnswers) → List NeededStack → StackStart → StackStart
unfolding start_stack_members_only wait_rounds
start_each is_number answers [] own = own
start_each is_number answers (n ∷ ns) own =
    let o = start_stack_members_only is_number [] (answers n.id) none in
    started_first n (answers n.id) o o.error (start_each is_number answers ns own)

-- The stack with the environment that the caller asks for, saved.
abbrev pub take_environment :
    CaseTable → Option (List Text) → Bool → Text → Stack → Result StackError Stack
take_environment t names saved environment s =
    if is_empty (trim_space environment) then ok s else elim names [
      | none ↦ err query_failed
      | some ns ↦ elim (normalize_stack_environment t (trim_space environment) ns) [
        | err e ↦ err (bad_environment e)
        | ok name ↦ if saved then ok (apply_stack_environment s name) else err query_failed
      ]
    ]

abbrev pub has_needed : List NeededStack → Bool
has_needed [] = false
has_needed (n ∷ ns) = true

pub record StartRequest : Type 0 where
  pub stack_id : Text
  pub command_ids : Option (List Text)
  pub values : Values
  pub start_prerequisites : Bool
  pub environment : Text

-- What the store has before the first start: the stack, the names of the library, whether SaveStack
-- succeeds, all stacks, and what is known of their commands.
pub record StackStore : Type 0 where
  pub stack : Option Stack
  pub names : Option (List Text)
  pub saved : Bool
  pub stacks : List Stack
  pub facts : Facts

abbrev pub start_needed :
    (Text → Bool) → (Text → StackAnswers) → StartRequest → List NeededStack → StackStart
start_needed is_number answers r needed =
    if has_needed needed && not r.start_prerequisites
    then halted [] (prerequisites needed)
    else start_each is_number answers needed (
        start_itself r.stack_id
          (start_stack_members_only is_number r.values (answers r.stack_id) r.command_ids))

abbrev pub start_planned :
    (Text → Bool)
    → (Text → StackAnswers)
    → StartRequest
    → Result PlanError (List NeededStack)
    → StackStart
start_planned is_number answers r (err e) = halted [] (no_plan_found e)
start_planned is_number answers r (ok needed) = start_needed is_number answers r needed

-- The stack is saved before its prerequisites are looked at.
abbrev pub saved_of : Text → Stack → Option Stack
saved_of environment s = if is_empty (trim_space environment) then none else some s

abbrev pub start_found :
    (Text → Bool)
    → ℕ
    → StackStore
    → (Text → StackAnswers)
    → StartRequest
    → Result StackError Stack
    → StackStart
start_found is_number fuel store answers r (err e) = halted [] e
start_found is_number fuel store answers r (ok s) =
    record (start_planned is_number answers r
      (unready_prerequisites fuel store.facts store.stacks s)) {
        saved_stack = saved_of r.environment s;
      }

abbrev pub asked_stack : CaseTable → StackStore → Text → Option Stack → Result StackError Stack
asked_stack t store environment none = err query_failed
asked_stack t store environment (some s) = take_environment t store.names store.saved environment s

unfoldable pub start_stack :
    CaseTable → (Text → Bool) → ℕ → StackStore → (Text → StackAnswers) → StartRequest → StackStart
unfolding unready_prerequisites start_each start_stack_members_only normalize_stack_environment
    apply_stack_environment trim_space
start_stack t is_number fuel store answers r =
    start_found is_number fuel store answers r (asked_stack t store r.environment store.stack)
