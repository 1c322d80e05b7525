-- ===== src/Commands/Halt.antt =====
-- StopCommand, RestartCommandWithParameters and startCommandAfterStopLocked of
-- internal/runtime/manager.go. Each runs under `commandMu`.
pub mod Parameters
use agent_shell.Base.{
  if◌then◌else◌, get_or, map_some, Text, lit, Result, ok, err, not, Option, none, some, List, [],
  ◌∷◌, ◌++◌,
}
use agent_shell.Commands.Definition.{
  CommandDefinition, is_external, restart_command_of, active_runs_for_command,
}
use agent_shell.Commands.Lifecycle.{
  Poll, no_runs, wait_command_stopped, StopAnswer, stop_each, after_effects,
}
use agent_shell.Commands.Actions.{
  CommandError, CommandOutcome, failed_with, World, start_lifecycle_action, run_error,
  bad_parameters, wait_over,
}
use agent_shell.Commands.Params.{ParamError, Transient, resolve_command_parameters}
use agent_shell.Runs.Manager.{Manager, Effect, stop}
use agent_shell.Runs.Run.{Run, start, stop_action, restart}

pub record HaltOutcome : Type 0 where
  pub manager : Manager
  pub effects : List Effect
  pub runs : List Run
  pub error : Option CommandError

-- The loop of StopCommand: it ends at the first stop that fails.
unfoldable pub stop_all : StopAnswer → Manager → List Run → HaltOutcome
unfolding stop
stop_all a m [] = record { manager = m; effects = []; runs = []; error = none }
stop_all a m (r ∷ rs) =
    let (m1, effects, result) = stop m r.id (lit "requested") a.now a.alive a.saved in
    elim result [
      | err e ↦ record { manager = m1; effects = effects; runs = []; error = some (run_error e) }
      | ok s ↦
          let rest = stop_all a m1 rs in
          record rest { effects = effects ++ rest.effects; runs = s ∷ rest.runs }
    ]

-- The stop command of an external command, behind the stops.
abbrev stop_action_done : HaltOutcome → CommandOutcome → Option CommandError → HaltOutcome
stop_action_done h out (some e) = record {
  manager = out.manager;
  effects = h.effects ++ out.effects;
  runs = [];
  error = some e;
}
stop_action_done h out none = record {
  manager = out.manager;
  effects = h.effects ++ out.effects;
  runs = h.runs ++ get_or (map_some (λ r. r ∷ []) out.run) [];
  error = none;
}

abbrev run_stop_action : World → CommandDefinition → HaltOutcome → Option Manager → HaltOutcome
run_stop_action w c h none = record h { runs = []; error = some wait_over }
run_stop_action w c h (some m) =
    let out = start_lifecycle_action w m c c.stop_command stop_action [] [] in
    stop_action_done h out out.error

abbrev after_stops :
    World → List Poll → CommandDefinition → HaltOutcome → Option CommandError → HaltOutcome
after_stops w polls c h (some e) = h
after_stops w polls c h none =
    if not (is_external c)
    then h
    else run_stop_action w c h
        (if no_runs h.runs then some h.manager else wait_command_stopped c.id polls)

unfoldable pub stop_command :
    World → StopAnswer → List Poll → Manager → CommandDefinition → HaltOutcome
unfolding stop_all start_lifecycle_action wait_command_stopped is_external active_runs_for_command
stop_command w a polls m c =
    let h = stop_all a m (active_runs_for_command m c.id) in after_stops w polls c h h.error

-- What follows the stops of a restart: startCommandAfterStopLocked, or the restart of an external
-- command. `c'` is what the store has for the command after the wait.
abbrev restart_managed : World → CommandDefinition → Manager → Option Manager → CommandOutcome
restart_managed w c' m none = failed_with m [] wait_over
restart_managed w c' m (some m') = start_lifecycle_action w m' c' c'.command start [] []

abbrev restart_external : World → CommandDefinition → Manager → Option Manager → CommandOutcome
restart_external w c m none = failed_with m [] wait_over
restart_external w c m (some m') =
    start_lifecycle_action w m' c (restart_command_of c) restart [] []

abbrev restart_stopped :
    World
    → StopAnswer
    → List Poll
    → Manager
    → CommandDefinition
    → CommandDefinition
    → List Run
    → CommandOutcome
restart_stopped w a polls m c c' runs =
    let (m1, effects) = stop_each a m runs in
    after_effects effects (
      if is_external c
      then restart_external w c m1
          (if no_runs runs then some m1 else wait_command_stopped c.id polls)
      else restart_managed w c' m1 (wait_command_stopped c.id polls))

abbrev restart_resolved :
    World
    → StopAnswer
    → List Poll
    → Manager
    → CommandDefinition
    → CommandDefinition
    → Result ParamError Transient
    → CommandOutcome
restart_resolved w a polls m c c' (err e) = failed_with m [] (bad_parameters e)
restart_resolved w a polls m c c' (ok t) =
    restart_stopped w a polls m c c' (active_runs_for_command m c.id)

unfoldable pub restart_command_with_parameters :
    World
    → StopAnswer
    → List Poll
    → Manager
    → CommandDefinition
    → CommandDefinition
    → List (Text × Text)
    → CommandOutcome
unfolding stop_each start_lifecycle_action wait_command_stopped is_external active_runs_for_command
    restart_command_of resolve_command_parameters
restart_command_with_parameters w a polls m c c' values =
    restart_resolved w a polls m c c' (resolve_command_parameters w.is_number c.parameters values)
