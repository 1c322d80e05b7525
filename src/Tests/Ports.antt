-- ===== src/Tests/Ports.antt =====
-- Ports of external commands, and the life of a run.
use agent_shell.Base.{
  pos, all, lit, text_eq, trim_space, contains, lookup, insert, ◌≡◌, refl, true, false, some, List,
  [], ◌∷◌,
}
use agent_shell.Runs.Manager.{Manager, wait_end}
use agent_shell.Runs.Observe.{observe_external_run, down}
use agent_shell.Runs.Ports.{
  Probe, snapshot_external_ports, is_waiting, Round, verify_external_ports,
}
use agent_shell.Runs.Ports.Early.{observe_external_run-early}
use agent_shell.Runs.Ports.Settled.{IsOver, verify_external_ports-IsOver}
use agent_shell.Runs.Run.{ExpectedPort, Run, running, completed, not_known, no_action, start}
use agent_shell.Runs.Start.{StartSpec, Os, new_run, spawn_done, start_run}
use agent_shell.Runs.Trace.{Traced, at_first, no_manager, starts, ends, empty, step}
use agent_shell.Runs.Trace.Life.{is_final, Steps-Follows, none_yet, then_step}
use agent_shell.Runs.Trace.Changes.{Follows}

abbrev web_port : ExpectedPort
web_port = record { port = 80; name = lit "web"; protocol = lit "tcp"; service = [] }

abbrev nothing_open : Probe
nothing_open port protocol = false

abbrev all_open : Probe
all_open port protocol = true

abbrev two_rounds : List Round
two_rounds =
    record { probe = nothing_open; late = false; shut = false }
    ∷ record { probe = all_open; late = true; shut = false }
    ∷ []

verify_external_ports-IsOver_example : IsOver start (
    verify_external_ports two_rounds start
      (snapshot_external_ports nothing_open start (web_port ∷ [])))
verify_external_ports-IsOver_example =
    verify_external_ports-IsOver two_rounds start nothing_open (web_port ∷ []) refl refl

abbrev started_run : Run
started_run = record {
  id = lit "run_1";
  label = lit "up";
  command = lit "up";
  cwd = lit "/srv";
  shell = lit "/bin/sh";
  kind = lit "task";
  source = lit "user";
  status = completed;
  readiness = not_known;
  process_group_id = 42;
  exit_code = some (pos 0);
  stop_reason = [];
  ended_at = some 9;
  expected_ports = web_port ∷ [];
  port_verifications = snapshot_external_ports nothing_open start (web_port ∷ []);
  env = [];
  command_definition_id = lit "cmd_1";
  stack_run_id = [];
  restart_of_run_id = [];
  project_id = [];
  lifecycle_action = start;
  check_definition_id = [];
}

ports_looked_at_too_early :
    (all (λ v. is_waiting v.status) started_run.port_verifications ≡ true)
    × ((observe_external_run started_run).state ≡ down)
ports_looked_at_too_early =
    observe_external_run-early nothing_open web_port [] started_run refl refl refl refl

abbrev api_spec : StartSpec
api_spec = record {
  command = lit "make";
  cwd = lit "/srv";
  label = [];
  shell = [];
  kind = [];
  source = [];
  env = [];
  expected_ports = [];
  command_definition_id = [];
  stack_run_id = [];
  project_id = [];
  lifecycle_action = no_action;
  check_definition_id = [];
}

abbrev linux : Os
linux = record {
  new_id = lit "run_1";
  now = 7;
  canonical_dir = λ dir. some dir;
  port_available = λ p. true;
  shell_exists = λ s. true;
  dir_made = true;
  saved = true;
  logs_opened = true;
  spawned = some 42;
  spawn_message = [];
  saved_running = true;
}

abbrev with_run : Manager
with_run = (start_run no_manager linux api_spec).manager

abbrev running_api : Run
running_api = spawn_done 42 (new_run linux api_spec (lit "/srv"))

abbrev before_end : Traced
before_end = record { manager = with_run; stale = [] }

abbrev then_ended : Traced
then_ended = record {
  manager = (wait_end with_run (lit "run_1") false (pos 0) 9 true).0;
  stale = [];
}

Steps-Follows_example :
    (f : Follows running_api (lookup (lit "run_1") then_ended.manager.runs)) × (is_final running
        ≡ true
      → f.after.status ≡ running)
unfolding lookup insert text_eq contains start_run trim_space
Steps-Follows_example =
    Steps-Follows before_end then_ended
      (step at_first before_end empty (starts linux api_spec refl))
      (then_step before_end then_ended none_yet (ends (lit "run_1") false (pos 0) 9 refl))
      (lit "run_1") running_api refl refl
