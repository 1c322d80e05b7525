-- ===== src/Commands/Actions.antt =====
-- startLifecycleAction and startExternalLifecycleAction of internal/runtime/manager.go: the run that a
-- saved command starts, with the snapshot of its ports where its lifecycle is external.
use agent_shell.Base.{
  if◌then◌else◌, is_some, Text, lit, Bool, true, false, not, ◌&&◌, Option, none, some, List, [],
  ◌∷◌, ◌++◌,
}
use agent_shell.Commands.Definition.{CommandDefinition, is_external, overlay_command_env}
use agent_shell.Commands.Params.{ParamError}
use agent_shell.Runs.Manager.{Manager, Effect, RunError, update_run_port_verifications, publish}
use agent_shell.Runs.Ports.{Probe, snapshot_external_ports}
use agent_shell.Runs.Run.{
  LifecycleAction, ExpectedPort, PortVerification, Run, not_known, stop_action, restart,
}
use agent_shell.Runs.Start.{StartSpec, Os, StartOutcome, start_run}

pub data CommandError : Type 0 where
  run_error : RunError → CommandError
  bad_parameters : ParamError → CommandError
  already_running update_failed wait_over bad_policy read_failed : CommandError

-- `polling` is whether the goroutine of verifyExternalPorts was started.
pub record CommandOutcome : Type 0 where
  pub manager : Manager
  pub effects : List Effect
  pub run : Option Run
  pub error : Option CommandError
  pub polling : Bool

abbrev pub failed_with : Manager → List Effect → CommandError → CommandOutcome
failed_with m effects e = record {
  manager = m;
  effects = effects;
  run = none;
  error = some e;
  polling = false;
}

-- What the outside answers: `os` to Start, `probe` to the snapshot of ports, `updated` whether
-- UpdateRunPortVerifications succeeds, and `source` what RunSource gives.
pub record World : Type 0 where
  pub os : Os
  pub probe : Probe
  pub updated : Bool
  pub source : Text
  pub is_number : Text → Bool

abbrev action_label : CommandDefinition → LifecycleAction → Text
action_label c stop_action = c.name ++ lit " · Stop"
action_label c restart = c.name ++ lit " · Restart"
action_label c _ = c.name

abbrev action_kind : CommandDefinition → LifecycleAction → Text
action_kind c stop_action = lit "task"
action_kind c _ = c.kind

abbrev pub action_ports : CommandDefinition → LifecycleAction → List ExpectedPort
action_ports c stop_action = []
action_ports c _ = c.expected_ports

abbrev pub action_spec :
    World
    → CommandDefinition
    → Text
    → LifecycleAction
    → Text
    → List (Text × Text)
    → List ExpectedPort
    → StartSpec
action_spec w c command did stack_run_id overlay ports = record {
  command = command;
  cwd = c.cwd;
  label = action_label c did;
  shell = c.shell;
  kind = action_kind c did;
  source = w.source;
  env = overlay_command_env c.env overlay;
  expected_ports = ports;
  command_definition_id = c.id;
  stack_run_id = stack_run_id;
  project_id = c.project_id;
  lifecycle_action = did;
  check_definition_id = [];
}

abbrev pub lifted : Option RunError → Option CommandError
lifted none = none
lifted (some e) = some (run_error e)

abbrev pub managed_outcome : StartOutcome → CommandOutcome
managed_outcome out = record {
  manager = out.manager;
  effects = out.effects;
  run = out.run;
  error = lifted out.error;
  polling = false;
}

abbrev has_some : List PortVerification → Bool
has_some [] = false
has_some (v ∷ vs) = true

abbrev pub with_ports : Run → List ExpectedPort → List PortVerification → Run
with_ports r expected vs = record r {
  expected_ports = expected;
  port_verifications = vs;
  readiness = not_known;
}

-- The saved verifications of a run that Start returned.
abbrev pub ports_saved :
    World
    → List ExpectedPort
    → List PortVerification
    → StartOutcome
    → Run
    → Option RunError
    → CommandOutcome
ports_saved w expected vs out r e =
    if not w.updated && not (is_some e)
    then record {
      manager = out.manager;
      effects = out.effects;
      run = some (with_ports r expected vs);
      error = some update_failed;
      polling = false;
    }
    else record {
      manager =
          if w.updated
          then update_run_port_verifications out.manager r.id expected vs
          else out.manager;
      effects = out.effects ++ publish (with_ports r expected vs) ∷ [];
      run = some (with_ports r expected vs);
      error = lifted e;
      polling = not (is_some e) && has_some vs;
    }

abbrev pub external_outcome :
    World → List ExpectedPort → List PortVerification → StartOutcome → Option Run → CommandOutcome
external_outcome w expected vs out none = managed_outcome out
external_outcome w expected vs out (some r) = ports_saved w expected vs out r out.error

unfoldable pub start_external_lifecycle_action :
    World
    → Manager
    → CommandDefinition
    → Text
    → LifecycleAction
    → Text
    → List (Text × Text)
    → CommandOutcome
unfolding snapshot_external_ports start_run update_run_port_verifications
start_external_lifecycle_action w m c command did stack_run_id overlay =
    let vs = snapshot_external_ports w.probe did c.expected_ports in
    let out = start_run m w.os (action_spec w c command did stack_run_id overlay []) in
    external_outcome w c.expected_ports vs out out.run

unfoldable pub start_lifecycle_action :
    World
    → Manager
    → CommandDefinition
    → Text
    → LifecycleAction
    → Text
    → List (Text × Text)
    → CommandOutcome
unfolding is_external start_external_lifecycle_action start_run
start_lifecycle_action w m c command did stack_run_id overlay =
    if is_external c
    then start_external_lifecycle_action w m c command did stack_run_id overlay
    else managed_outcome
        (start_run m w.os (action_spec w c command did stack_run_id overlay (action_ports c did)))
