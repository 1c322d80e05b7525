-- ===== src/Commands/Lifecycle.antt =====
-- How internal/runtime/manager.go starts a saved command: externalStarted, waitCommandStopped and
-- startCommandLocked, which runs under `commandMu`.
pub mod Alone
use agent_shell.Base.{
  if◌then◌else◌, is_some, Text, lit, Result, ok, err, ℕ, Bool, true, false, not, ◌&&◌, ◌||◌, Option,
  none, some, List, [], ◌∷◌, ◌++◌,
}
use agent_shell.Commands.Actions.{
  CommandError, CommandOutcome, failed_with, World, action_spec, lifted, managed_outcome,
  with_ports, ports_saved, external_outcome, start_external_lifecycle_action,
  start_lifecycle_action, run_error, bad_parameters, already_running, update_failed, wait_over,
  bad_policy, read_failed,
}
use agent_shell.Commands.Definition.{
  Policy, CommandDefinition, is_external, restart_command_of, overlay_command_env,
  active_runs_for_command, runs_for_command, no_policy, forbid, replace, allow,
}
use agent_shell.Commands.Params.{ParamError, Transient, resolve_command_parameters}
use agent_shell.Runs.Manager.{
  Manager, Effect, RunError, stop, update_run_port_verifications, publish,
}
use agent_shell.Runs.Observe.{ObservedState, observe_external_run, up, down, checking, unsure}
use agent_shell.Runs.Ports.{Probe, snapshot_external_ports}
use agent_shell.Runs.Run.{
  RunStatus, LifecycleAction, ExpectedPort, PortVerification, Run, active, completed, failed,
  not_known, start, stop_action, restart,
}
use agent_shell.Runs.Start.{StartSpec, Os, StartOutcome, start_run}

-- Whether the last action of an external command has started it, and the run of that action.
abbrev is_failed : RunStatus → Bool
is_failed failed = true
is_failed _ = false

abbrev ended_well : RunStatus → Bool
ended_well completed = true
ended_well _ = false

abbrev pub started_by : LifecycleAction → Run → ObservedState → Option Bool
started_by stop_action r up = some true
started_by stop_action r checking = some true
started_by stop_action r unsure = some (is_failed r.status)
started_by stop_action r down = some false
started_by start r up = some true
started_by start r checking = some true
started_by start r down = some false
started_by start r unsure = some (ended_well r.status || active r)
started_by restart r up = some true
started_by restart r checking = some true
started_by restart r down = some false
started_by restart r unsure = some (ended_well r.status || active r)
started_by _ r state = none

-- The loop over RunsForCommand.
unfoldable pub external_started : List Run → Bool × Option Run
unfolding observe_external_run
external_started [] = (false, none)
external_started (r ∷ rs) = elim (started_by r.lifecycle_action r (observe_external_run r).state) [
  | some started ↦ (started, some r)
  | none ↦ external_started rs
]

-- The polls of waitCommandStopped before its deadline: the manager at that time, and whether the store
-- answered. The code takes no answer for no active run.
pub record Poll : Type 0 where
  pub manager : Manager
  pub answered : Bool

abbrev pub no_runs : List Run → Bool
no_runs [] = true
no_runs (r ∷ rs) = false

unfoldable pub wait_command_stopped : Text → List Poll → Option Manager
unfolding active_runs_for_command
wait_command_stopped id [] = none
wait_command_stopped id (p ∷ ps) =
    if not p.answered || no_runs (active_runs_for_command p.manager id)
    then some p.manager
    else wait_command_stopped id ps

-- Stop of each run of a list; the results are ignored. `stops` gives the answers to each stop.
pub record StopAnswer : Type 0 where
  pub now : ℕ
  pub alive : ℕ → Bool
  pub saved : Bool

unfoldable pub stop_each : StopAnswer → Manager → List Run → Manager × List Effect
unfolding stop
stop_each a m [] = (m, [])
stop_each a m (r ∷ rs) =
    let (m1, effects, _) = stop m r.id (lit "requested") a.now a.alive a.saved in
    let (m2, more) = stop_each a m1 rs in (m2, effects ++ more)

abbrev pub policy_of : Policy → Policy
policy_of no_policy = forbid
policy_of p = p

abbrev refused_run : Manager → List Effect → Option Run → CommandOutcome
refused_run m effects last = record {
  manager = m;
  effects = effects;
  run = last;
  error = some already_running;
  polling = false;
}

-- Behind the checks of the policy: an external command may be up already.
abbrev pub start_as :
    World
    → Manager
    → CommandDefinition
    → Text
    → List (Text × Text)
    → Policy
    → Bool × Option Run
    → CommandOutcome
start_as w m c stack_run_id overlay forbid (true, last) = refused_run m [] last
start_as w m c stack_run_id overlay replace (true, last) =
    start_lifecycle_action w m c (restart_command_of c) restart stack_run_id overlay
start_as w m c stack_run_id overlay _ _ =
    start_lifecycle_action w m c c.command start stack_run_id overlay

abbrev pub start_resolved :
    World
    → Manager
    → CommandDefinition
    → Text
    → List (Text × Text)
    → Policy
    → Result ParamError Transient
    → CommandOutcome
start_resolved w m c stack_run_id overlay rule (err e) = failed_with m [] (bad_parameters e)
start_resolved w m c stack_run_id overlay rule (ok t) =
    if is_external c
    then start_as w m c stack_run_id overlay rule (external_started (runs_for_command m c.id))
    else start_lifecycle_action w m c c.command start stack_run_id overlay

abbrev pub after_effects : List Effect → CommandOutcome → CommandOutcome
after_effects effects out = record out { effects = effects ++ out.effects }

abbrev pub after_wait :
    World
    → CommandDefinition
    → Text
    → List (Text × Text)
    → List (Text × Text)
    → Manager
    → Option Manager
    → CommandOutcome
after_wait w c stack_run_id values overlay m none = failed_with m [] wait_over
after_wait w c stack_run_id values overlay m (some m') =
    start_resolved w m' c stack_run_id overlay replace
      (resolve_command_parameters w.is_number c.parameters values)

-- The active runs of the command against its policy.
abbrev pub start_policy :
    World
    → StopAnswer
    → List Poll
    → Manager
    → CommandDefinition
    → Text
    → List (Text × Text)
    → List (Text × Text)
    → Policy
    → List Run
    → CommandOutcome
start_policy w a polls m c stack_run_id values overlay rule [] =
    start_resolved w m c stack_run_id overlay rule
      (resolve_command_parameters w.is_number c.parameters values)
start_policy w a polls m c stack_run_id values overlay forbid (r ∷ rs) = refused_run m [] (some r)
start_policy w a polls m c stack_run_id values overlay replace (r ∷ rs) =
    let (m1, effects) = stop_each a m (r ∷ rs) in
    after_effects effects
      (after_wait w c stack_run_id values overlay m1 (wait_command_stopped c.id polls))
start_policy w a polls m c stack_run_id values overlay allow (r ∷ rs) =
    start_resolved w m c stack_run_id overlay allow
      (resolve_command_parameters w.is_number c.parameters values)
start_policy w a polls m c stack_run_id values overlay _ (r ∷ rs) = failed_with m [] bad_policy

-- `c` is what the store has for the command's id.
unfoldable pub start_command_locked :
    World
    → StopAnswer
    → List Poll
    → Manager
    → CommandDefinition
    → Text
    → List (Text × Text)
    → List (Text × Text)
    → CommandOutcome
unfolding start_lifecycle_action external_started runs_for_command restart_command_of stop_each
    wait_command_stopped resolve_command_parameters is_external active_runs_for_command
start_command_locked w a polls m c stack_run_id values overlay =
    start_policy w a polls m c stack_run_id values overlay (policy_of c.concurrency_policy)
      (active_runs_for_command m c.id)
