-- ===== src/Tests/Plans.antt =====
-- Stacks that need other stacks.
use agent_shell.Base.{
  if◌then◌else◌, pos, All, Text, lit, text_eq, trim_space, insert, lookup-All, fails_with, ℕ, ◌<◌,
  ◌≡◌, refl, false, none, some, List, [], ◌∷◌, arith, CaseTable, true,
}
use agent_shell.Commands.Definition.{CommandDefinition, forbid}
use agent_shell.Env.Layers.{StackMember, StackPrerequisite, Stack}
use agent_shell.Runs.Trace.{no_manager}
use agent_shell.Stacks.Needed.{NeededStack, Facts, stack_table, unready_prerequisites}
use agent_shell.Stacks.Needed.Depth.{
  is_out_of_depth, prerequisite_ids, AreRanked, unready_prerequisites-depth,
}
use agent_shell.Stacks.Needed.Planned.{IsPlanFor, unready_prerequisites-IsPlanFor}
use agent_shell.Stacks.Preflight.{StackAnswers}
use agent_shell.Stacks.Prerequisites.{normalize_stack_prerequisites}
use agent_shell.Stacks.Start.{
  StackStart, StartRequest, StackStore, start_stack, members_began, itself_began, came_up,
}
use agent_shell.Stacks.Waves.{no_error}

abbrev one_member : Text → StackMember
one_member id = record {
  command_id = id;
  position = 0;
  depends_on = [];
  wait_for = [];
  wait_timeout_ms = pos 0;
  environment = [];
  env = [];
}

abbrev stack_with : Text → List StackPrerequisite → Stack
stack_with id edges = record {
  id = id;
  name = id;
  start_strategy = [];
  failure_policy = [];
  members = one_member id ∷ [];
  depends_on_stacks = edges;
  environment = [];
  env = [];
}

abbrev on : Text → List StackPrerequisite
on id = record { stack_id = id; wait_timeout_ms = pos 5 } ∷ []

abbrev net : Stack
net = stack_with (lit "net") []

abbrev infra : Stack
infra = stack_with (lit "infra") (on (lit "net"))

abbrev app : Stack
app = stack_with (lit "app") (on (lit "infra"))

abbrev idle_command : Facts
idle_command id = some (record { active_runs = 0; external = false; latest = none })

abbrev needs : Text → NeededStack
needs id = record { id = id; name = id; up_count = 0; total_count = 1; wait_timeout_ms = pos 5 }

unready_prerequisites-IsPlanFor_example :
    IsPlanFor idle_command
      (stack_table (app ∷ infra ∷ net ∷ []) [])
      (prerequisite_ids app)
      (needs (lit "net") ∷ needs (lit "infra") ∷ [])
unfolding unready_prerequisites trim_space insert text_eq
unready_prerequisites-IsPlanFor_example =
    unready_prerequisites-IsPlanFor 4 idle_command (app ∷ infra ∷ net ∷ []) app
      (needs (lit "net") ∷ needs (lit "infra") ∷ []) refl

abbrev stack_rank : Text → ℕ
stack_rank id = if text_eq id (lit "infra") then 1 else 0

infra-AreRanked : AreRanked (stack_table (infra ∷ net ∷ []) []) stack_rank
unfolding stack_table insert text_eq normalize_stack_prerequisites trim_space
infra-AreRanked =
    lookup-All (λ id s. All (λ d. stack_rank d < stack_rank id) (prerequisite_ids s))
      (stack_table (infra ∷ net ∷ []) []) ((omega arith, tt), (tt, tt))

unready_prerequisites-depth_example :
    fails_with is_out_of_depth (unready_prerequisites 3 idle_command (infra ∷ net ∷ []) app) ≡ false
unfolding normalize_stack_prerequisites trim_space text_eq
unready_prerequisites-depth_example =
    unready_prerequisites-depth 3 idle_command (infra ∷ net ∷ []) app stack_rank infra-AreRanked
      (omega arith, tt) (omega arith)

abbrev no_letters : CaseTable
no_letters = record { upper = λ c. c; lower = λ c. c }

abbrev quiet_command : Text → CommandDefinition
quiet_command id = record {
  id = id;
  project_id = [];
  name = id;
  command = lit "make";
  cwd = lit "/srv";
  shell = [];
  kind = [];
  concurrency_policy = forbid;
  env = [];
  expected_ports = [];
  lifecycle_mode = [];
  stop_command = [];
  restart_command = [];
  parameters = [];
}

abbrev busy_command : Facts
busy_command id = some (record { active_runs = 1; external = false; latest = none })

abbrev named : Text → Stack
named id = if text_eq id (lit "app") then app else if text_eq id (lit "infra") then infra else net

abbrev all_well : Text → StackAnswers
all_well id = record {
  stack = some (named id);
  command = λ c. some (quiet_command c);
  runs = some no_manager;
  library_read = true;
  attempt = λ m. record { run_id = some m.command_id; start_error = no_error; wait_fails = false };
  rounds =
      record { facts = idle_command; late = false; cancelled = false }
      ∷ record { facts = busy_command; late = true; cancelled = false }
      ∷ [];
}

abbrev three_stacks : StackStore
three_stacks = record {
  stack = some app;
  names = none;
  saved = true;
  stacks = app ∷ infra ∷ net ∷ [];
  facts = idle_command;
}

abbrev with_prerequisites : StartRequest
with_prerequisites = record {
  stack_id = lit "app";
  command_ids = none;
  values = [];
  start_prerequisites = true;
  environment = [];
}

abbrev app_start : StackStart
app_start = start_stack no_letters (λ s. false) 4 three_stacks all_well with_prerequisites

app_start_in_order :
    app_start.events
    ≡ members_began (lit "net")
      ∷ came_up (lit "net")
      ∷ members_began (lit "infra")
      ∷ came_up (lit "infra")
      ∷ itself_began (lit "app")
      ∷ []
unfolding start_stack
app_start_in_order = refl
