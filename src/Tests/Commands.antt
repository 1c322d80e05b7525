-- ===== src/Tests/Commands.antt =====
-- Saved commands.
use agent_shell.Base.{
  contains, All, Text, lit, text_eq, trim_space, Distinct, lookup, insert, ◌≤◌, ◌≡◌, refl, Bool,
  true, false, none, some, List, [], ◌∷◌,
}
use agent_shell.Commands.Definition.{CommandDefinition, active_runs_for_command, replace}
use agent_shell.Commands.Halt.{restart_command_with_parameters}
use agent_shell.Commands.Halt.Parameters.{IsLost, replace-IsLost}
use agent_shell.Commands.Lifecycle.{Poll, wait_command_stopped, StopAnswer, start_command_locked}
use agent_shell.Commands.Actions.{CommandOutcome, failed_with, World, action_spec, bad_parameters}
use agent_shell.Commands.Lifecycle.Alone.{IsOnly, start_command_locked-StartsAlone}
use agent_shell.Commands.Params.{
  CommandParameter, validate_command_parameters, Transient, parameter_keys,
  resolve_command_parameters, secret, choice, env_var, stdin, value_required,
}
use agent_shell.Commands.Params.Bound.{IsBound, resolve_command_parameters-IsBound}
use agent_shell.Commands.Params.Valid.{
  IsParameter, count_stdin, validate_command_parameters-AreParameters,
}
use agent_shell.Runs.Manager.{Manager, save_run}
use agent_shell.Runs.Run.{Run, start}
use agent_shell.Runs.Start.{StartSpec, Os, new_run, spawn_done, start_run}
use agent_shell.Runs.Trace.{no_manager}

abbrev is_word : Text → Bool
is_word s = false

abbrev region : CommandParameter
region = record {
  key = lit "region";
  label = lit "Region";
  type = choice;
  required = true;
  default = lit "eu";
  options = lit "eu" ∷ lit "us" ∷ [];
  binding = env_var;
  variable = lit "REGION";
  append_newline = false;
}

abbrev token : CommandParameter
token = record {
  key = lit "token";
  label = lit "Token";
  type = secret;
  required = true;
  default = [];
  options = [];
  binding = stdin;
  variable = [];
  append_newline = true;
}

abbrev both : List CommandParameter
both = region ∷ token ∷ []

validate_command_parameters-AreParameters_example :
    All (IsParameter is_word) both × Distinct (parameter_keys both) × (count_stdin both ≤ 1)
unfolding validate_command_parameters text_eq trim_space
validate_command_parameters-AreParameters_example =
    validate_command_parameters-AreParameters is_word both refl

abbrev given_token : List (Text × Text)
given_token = (lit "token", lit "s3") ∷ []

abbrev bound_token : Transient
bound_token = record { env = (lit "REGION", lit "eu") ∷ []; input = some (lit "s3\n") }

resolve_command_parameters-IsBound_example : IsBound is_word both given_token bound_token
unfolding resolve_command_parameters text_eq trim_space
resolve_command_parameters-IsBound_example =
    resolve_command_parameters-IsBound is_word both given_token bound_token refl

abbrev linux : Os
linux = record {
  new_id = lit "run_2";
  now = 7;
  canonical_dir = λ dir. some dir;
  port_available = λ p. true;
  shell_exists = λ s. true;
  dir_made = true;
  saved = true;
  logs_opened = true;
  spawned = some 43;
  spawn_message = [];
  saved_running = true;
}

abbrev world : World
world = record {
  os = linux;
  probe = λ port protocol. false;
  updated = true;
  source = lit "catalog";
  is_number = is_word;
}

abbrev api_command : CommandDefinition
api_command = record {
  id = lit "cmd_1";
  project_id = [];
  name = lit "api";
  command = lit "make api";
  cwd = lit "/srv";
  shell = [];
  kind = lit "service";
  concurrency_policy = replace;
  env = [];
  expected_ports = [];
  lifecycle_mode = [];
  stop_command = [];
  restart_command = [];
  parameters = both;
}

abbrev old_spec : StartSpec
old_spec = action_spec world api_command (lit "make api") start [] [] []

abbrev old_run : Run
old_run = spawn_done 42 (new_run (record linux { new_id = lit "run_1" }) old_spec (lit "/srv"))

abbrev busy_manager : Manager
busy_manager = save_run old_run no_manager

abbrev one_poll : List Poll
one_poll = record { manager = no_manager; answered = true } ∷ []

abbrev gone_group : StopAnswer
gone_group = record { now = 8; alive = λ p. false; saved = true }

abbrev replaced_api : CommandOutcome
replaced_api =
    start_command_locked world gone_group one_poll busy_manager api_command [] given_token []

replaced_api_fine : replaced_api.error ≡ none
unfolding start_command_locked insert text_eq lookup trim_space resolve_command_parameters start_run
replaced_api_fine = refl

start_command_locked-StartsAlone_example :
    IsOnly (lit "cmd_1") (lit "run_2") replaced_api.manager.runs
start_command_locked-StartsAlone_example =
    start_command_locked-StartsAlone world gone_group one_poll busy_manager api_command []
      given_token [] (λ e. cc) refl replaced_api_fine

replace-IsLost_example :
    (restart_command_with_parameters world gone_group one_poll busy_manager api_command api_command
        []
      ≡ failed_with busy_manager []
          (bad_parameters (record { key = lit "token"; problem = value_required })))
    × IsLost gone_group no_manager
        (old_run ∷ [])
        (record { key = lit "token"; problem = value_required })
        (start_command_locked world gone_group one_poll busy_manager api_command [] [] [])
unfolding lookup contains active_runs_for_command wait_command_stopped resolve_command_parameters
    text_eq insert trim_space
replace-IsLost_example =
    replace-IsLost world gone_group one_poll busy_manager no_manager api_command [] [] [] old_run []
      (record { key = lit "token"; problem = value_required }) refl refl
      (record { each_once = (refl, tt); as_saved = (refl, tt) }) (refl, tt) refl refl refl
