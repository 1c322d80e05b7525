-- ===== src/Runs/Start.antt =====
-- Manager.Start of internal/runtime/manager.go and the type StartSpec of internal/domain/domain.go,
-- less what only reaches the child process (stdin, transient environment, wait_for) and the run
-- timeout. What the operating system and the database answer is the argument `os`.
pub mod Started
use agent_shell.Base.{
  if◌then◌else◌, Text, lit, is_empty, trim_space, ℕ, Bool, not, Option, none, some, List, [], ◌∷◌,
  add_id,
}
use agent_shell.Runs.Manager.{
  Manager, Effect, RunError, save_run, publish, sigkill, save_failed, command_required, cwd_error,
  shell_error, dir_error, log_error, spawn_error, port_in_use,
}
use agent_shell.Runs.Run.{
  Readiness, LifecycleAction, ExpectedPort, Run, starting, running, failed, not_known, waiting,
  ready,
}

pub record StartSpec : Type 0 where
  pub command : Text
  pub cwd : Text
  pub label : Text
  pub shell : Text
  pub kind : Text
  pub source : Text
  pub env : List (Text × Text)
  pub expected_ports : List ExpectedPort
  pub command_definition_id : Text
  pub stack_run_id : Text
  pub project_id : Text
  pub lifecycle_action : LifecycleAction
  pub check_definition_id : Text

pub record Os : Type 0 where
  pub new_id : Text
  pub now : ℕ
  pub canonical_dir : Text → Option Text
  pub port_available : ℕ → Bool
  pub shell_exists : Text → Bool
  pub dir_made : Bool
  pub saved : Bool
  pub logs_opened : Bool
  pub spawned : Option ℕ
  pub spawn_message : Text
  pub saved_running : Bool

-- Start returns a run beside its error where the spawn failed.
pub record StartOutcome : Type 0 where
  pub manager : Manager
  pub effects : List Effect
  pub run : Option Run
  pub error : Option RunError

abbrev pub refused : Manager → RunError → StartOutcome
refused m e = record { manager = m; effects = []; run = none; error = some e }

abbrev pub or_text : Text → Text → Text
or_text [] d = d
or_text (c ∷ s) d = c ∷ s

-- The loop over the expected ports: the first that is in use.
unfoldable pub taken_port : (ℕ → Bool) → List ExpectedPort → Option ℕ
taken_port available [] = none
taken_port available (p ∷ ps) =
    if not (available p.port) then some p.port else taken_port available ps

abbrev pub waits_for : List ExpectedPort → Readiness → Readiness
waits_for [] otherwise = otherwise
waits_for (p ∷ ps) otherwise = waiting

abbrev pub new_run : Os → StartSpec → Text → Run
new_run os spec cwd = record {
  id = os.new_id;
  label = or_text (trim_space spec.label) spec.command;
  command = spec.command;
  cwd = cwd;
  shell = or_text spec.shell (lit "/bin/sh");
  kind = or_text spec.kind (lit "service");
  source = or_text spec.source (lit "user");
  status = starting;
  readiness = waits_for spec.expected_ports not_known;
  process_group_id = 0;
  exit_code = none;
  stop_reason = [];
  ended_at = none;
  expected_ports = spec.expected_ports;
  port_verifications = [];
  env = spec.env;
  command_definition_id = spec.command_definition_id;
  stack_run_id = spec.stack_run_id;
  restart_of_run_id = [];
  project_id = spec.project_id;
  lifecycle_action = spec.lifecycle_action;
  check_definition_id = spec.check_definition_id;
}

abbrev pub spawn_failed : Os → Run → Run
spawn_failed os r = record r {
  status = failed;
  ended_at = some os.now;
  stop_reason = os.spawn_message;
}

abbrev pub spawn_done : ℕ → Run → Run
spawn_done pid r = record r {
  process_group_id = pid;
  status = running;
  readiness = waits_for r.expected_ports ready;
}

abbrev pub supervised : Text → Manager → Manager
supervised id m = record m { cmds = add_id id m.cmds; waiters = add_id id m.waiters }

-- From the spawn on; the run `r` is in the table.
abbrev pub launch : Os → Run → Manager → StartOutcome
launch os r m = elim os.spawned [
  | none ↦ record {
    manager = save_run (spawn_failed os r) m;
    effects = publish (spawn_failed os r) ∷ [];
    run = some (spawn_failed os r);
    error = some spawn_error;
  }
  | some pid ↦
      if not os.saved_running
      then record { manager = m; effects = sigkill pid ∷ []; run = none; error = some save_failed }
      else record {
        manager = supervised r.id (save_run (spawn_done pid r) m);
        effects = publish (spawn_done pid r) ∷ [];
        run = some (spawn_done pid r);
        error = none;
      }
]

abbrev pub create : Os → Run → Manager → StartOutcome
create os r m =
    if not os.dir_made
    then refused m dir_error
    else if not os.saved
    then refused m save_failed
    else if not os.logs_opened
    then refused (save_run r m) log_error
    else launch os r (save_run r m)

abbrev pub start_in : Manager → Os → StartSpec → Option Text → StartOutcome
start_in m os spec none = refused m cwd_error
start_in m os spec (some cwd) = elim (taken_port os.port_available spec.expected_ports) [
  | some port ↦ refused m (port_in_use port)
  | none ↦
      if not (os.shell_exists (or_text spec.shell (lit "/bin/sh")))
      then refused m shell_error
      else create os (new_run os spec cwd) m
]

unfoldable pub start_run : Manager → Os → StartSpec → StartOutcome
unfolding taken_port
start_run m os spec =
    if is_empty (trim_space spec.command)
    then refused m command_required
    else start_in m os spec (os.canonical_dir spec.cwd)
