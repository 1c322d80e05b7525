-- ===== src/Commands/Definition.antt =====
-- CommandDefinition of internal/domain/domain.go, and what internal/runtime/manager.go reads from it:
-- lifecycleMode, restartCommand, overlayCommandEnv, and the runs of a command that the store finds.
use agent_shell.Base.{
  if◌then◌else◌, take, keep, Text, lit, text_eq, is_empty, trim_space, copy_into, Bool, not, ◌&&◌,
  List, [], ◌∷◌, ◌++◌, reverse,
}
use agent_shell.Commands.Params.{CommandParameter}
use agent_shell.Runs.Manager.{Manager}
use agent_shell.Runs.Run.{ExpectedPort, Run, active}

pub data Policy : Type 0 where
  no_policy forbid replace allow other_policy : Policy

pub record CommandDefinition : Type 0 where
  pub id : Text
  pub project_id : Text
  pub name : Text
  pub command : Text
  pub cwd : Text
  pub shell : Text
  pub kind : Text
  pub concurrency_policy : Policy
  pub env : List (Text × Text)
  pub expected_ports : List ExpectedPort
  pub lifecycle_mode : Text
  pub stop_command : Text
  pub restart_command : Text
  pub parameters : List CommandParameter

unfoldable pub is_external : CommandDefinition → Bool
unfolding text_eq
is_external c = text_eq c.lifecycle_mode (lit "external")

unfoldable pub restart_command_of : CommandDefinition → Text
unfolding trim_space
restart_command_of c =
    if not (is_empty (trim_space c.restart_command))
    then c.restart_command
    else lit "(" ++ (c.stop_command ++ (lit ") && (" ++ (c.command ++ lit ")")))

unfoldable pub overlay_command_env : List (Text × Text) → List (Text × Text) → List (Text × Text)
unfolding copy_into
overlay_command_env base [] = base
overlay_command_env base (entry ∷ overlay) = copy_into (copy_into [] base) (entry ∷ overlay)

-- The rows of a table.
abbrev pub rows : List (Text × Run) → List Run
rows [] = []
rows ((id, r) ∷ runs) = r ∷ rows runs

-- ActiveRunsForCommand and RunsForCommand of internal/store/store.go: the newest run first.
abbrev pub is_of : Text → Run → Bool
is_of id r = text_eq r.command_definition_id id

unfoldable pub active_runs_for_command : Manager → Text → List Run
active_runs_for_command m id = reverse (keep (λ r. is_of id r && active r) (rows m.runs))

unfoldable pub runs_for_command : Manager → Text → List Run
runs_for_command m id = take 100 (reverse (keep (is_of id) (rows m.runs)))
