-- ===== src/Tests/Lives.antt =====
-- Lives of runs.
use agent_shell.Base.{
  ◌==◌, if◌then◌else◌, pos, lit, contains, lookup, insert, ℕ, ◌≡◌, refl, Bool, true, false, some,
  [], ◌∷◌, arith, text_eq, trim_space,
}
use agent_shell.Runs.Manager.{
  Manager, save_run, stop, wait_end, reconcile, newest_first, stopped_run, stopping_run,
}
use agent_shell.Runs.Manager.Flags.{FlagsAgree, saved-FlagsAgree}
use agent_shell.Runs.Manager.Offline.{AreRows, IsUnsupervised, is_picked, reconcile-IsUnsupervised}
use agent_shell.Runs.Manager.Stops.{
  IsEnded, wait_end-IsEnded, stop_and_wait, IsStopped, stop-wait_end, stop-wait_end_lost,
}
use agent_shell.Runs.Observe.{observe_external_run, up, checking}
use agent_shell.Runs.Observe.Evidence.{shown_state, observe_external_run-state}
use agent_shell.Runs.Run.{
  Run, active, completed, stopped, listening, closed, verified, no_action, start,
}
use agent_shell.Runs.Start.{StartSpec, Os, new_run, spawn_done, start_run}
use agent_shell.Runs.Start.Started.{IsStarted, start_run-IsStarted}
use agent_shell.Runs.Trace.{Traced, at_first, no_manager, starts, stops, resaves, empty, step}
use agent_shell.Runs.Trace.Invariant.{Reach-IsSound}
use agent_shell.Runs.Trace.Sound.{IsSound}

abbrev api_spec : StartSpec
api_spec = record {
  command = lit "make";
  cwd = lit "/srv";
  label = [];
  shell = [];
  kind = [];
  source = [];
  env = [];
  expected_ports = [];
  command_definition_id = [];
  stack_run_id = [];
  project_id = [];
  lifecycle_action = no_action;
  check_definition_id = [];
}

abbrev linux : Os
linux = record {
  new_id = lit "run_1";
  now = 7;
  canonical_dir = λ dir. some dir;
  port_available = λ p. true;
  shell_exists = λ s. true;
  dir_made = true;
  saved = true;
  logs_opened = true;
  spawned = some 42;
  spawn_message = [];
  saved_running = true;
}

abbrev full_disk : Os
full_disk = record linux { logs_opened = false }

abbrev one_alive : ℕ → Bool
one_alive p = p == 42

abbrev none_alive : ℕ → Bool
none_alive p = false

abbrev api_run : Run
api_run = spawn_done 42 (new_run linux api_spec (lit "/srv"))

abbrev one_run : Manager
one_run = save_run api_run no_manager

no_manager-FlagsAgree : FlagsAgree no_manager
unfolding lookup contains
no_manager-FlagsAgree = record { at_id = λ id r e. cc; agree = λ id. refl }

one_run-FlagsAgree : FlagsAgree one_run
unfolding contains
one_run-FlagsAgree =
    saved-FlagsAgree no_manager api_run [] no_manager-FlagsAgree (λ x. ground arith)

abbrev after_start : Traced
after_start = record { manager = (start_run no_manager linux api_spec).manager; stale = [] }

abbrev after_late_save : Traced
after_late_save = record {
  manager =
      save_run api_run
        (stop after_start.manager (lit "run_1") (lit "requested") 8 one_alive true).0;
  stale = lit "run_1" ∷ [];
}

-- A stop, and then the save of Restart with its copy of the run.
Reach-IsSound_example : IsSound after_late_save.stale after_late_save.manager
unfolding lookup
Reach-IsSound_example = Reach-IsSound after_late_save (
    step _ after_late_save
      (step after_start _ (step at_first after_start empty (starts linux api_spec refl))
        (stops (lit "run_1") (lit "requested") 8 one_alive true))
      (resaves api_run))

-- The copy is active though its process was asked to stop.
resaved_running : (lookup (lit "run_1") after_late_save.manager.runs ≡ some api_run)
unfolding lookup insert text_eq start_run stop trim_space
resaved_running = refl

stop-wait_end_example :
    IsStopped
      (lit "run_1")
      (lit "requested")
      stopped
      true
      (stopping_run (lit "requested") api_run)
      (stop_and_wait one_run
        (lit "run_1")
        (lit "requested")
        42
        one_alive
        none_alive
        8
        true
        (pos 1)
        true)
unfolding lookup insert contains text_eq
stop-wait_end_example =
    stop-wait_end one_run (lit "run_1") (lit "requested") one_alive none_alive 8 true (pos 1) true
      api_run refl refl refl refl

wait_end-IsEnded_example :
    IsEnded one_run
      (lit "run_1")
      false
      (pos 3)
      false
      api_run
      (wait_end one_run (lit "run_1") false (pos 3) 9 false)
unfolding lookup insert text_eq
wait_end-IsEnded_example =
    wait_end-IsEnded one_run (lit "run_1") false (pos 3) 9 false api_run refl refl

start_run-IsStarted_example :
    IsStarted no_manager linux api_spec (start_run no_manager linux api_spec)
unfolding start_run trim_space
start_run-IsStarted_example = start_run-IsStarted no_manager linux api_spec refl

abbrev external_run : Run
external_run = record api_run {
  status = completed;
  lifecycle_action = start;
  port_verifications =
      record {
        port = 80;
        protocol = lit "tcp";
        before = closed;
        after = listening;
        current = listening;
        status = verified;
      }
      ∷ [];
}

external_is_up : (observe_external_run external_run).state ≡ up
unfolding observe_external_run
external_is_up = refl

observe_external_run-state_example : (observe_external_run external_run).state ≡ (
    if active external_run
    then checking
    else shown_state external_run.lifecycle_action external_run.status
        external_run.port_verifications)
observe_external_run-state_example = observe_external_run-state external_run

stop-wait_end_lost_example :
    IsStopped
      (lit "run_1")
      (lit "requested")
      completed
      true
      (stopped_run (lit "requested") 8 api_run)
      (wait_end
        (stop one_run (lit "run_1") (lit "requested") 8 none_alive true).0
        (lit "run_1")
        false
        (pos 0)
        9
        true)
unfolding lookup insert text_eq
stop-wait_end_lost_example =
    stop-wait_end_lost one_run (lit "run_1") (lit "requested") none_alive 8 9 false (pos 0) true
      api_run refl refl refl refl

one_run-AreRows : AreRows one_run (newest_first one_run.runs)
unfolding lookup insert contains text_eq
one_run-AreRows = record { each_once = (refl, tt); as_saved = (refl, tt) }

abbrev all_gone : Manager
all_gone = reconcile (λ r. false) (λ r. true) 20 true one_run

reconcile-IsUnsupervised_example :
    (s : Run) × (lookup (lit "run_1") all_gone.runs ≡ some s)
    × (is_picked one_run (λ r. true) true (lit "run_1") api_run ≡ true
        → IsUnsupervised false 20 api_run s)
    × (is_picked one_run (λ r. true) true (lit "run_1") api_run ≡ false → s ≡ api_run)
unfolding insert lookup text_eq
reconcile-IsUnsupervised_example =
    reconcile-IsUnsupervised (λ r. false) (λ r. true) 20 true one_run one_run-AreRows (lit "run_1")
      api_run refl

api_run_picked : is_picked one_run (λ r. true) true (lit "run_1") api_run ≡ true
unfolding insert text_eq contains
api_run_picked = refl
