-- ===== src/Env/Layers.antt =====
-- The environment of a stack member in internal/domain/env.go: MemberEnvironmentName,
-- StackResolvedEnvironment, LayerValues, ResolveStackMemberEnv, ApplyStackEnvironment,
-- RemapDeletedEnvironment; and the types Stack and StackMember of internal/domain/domain.go, less
-- the fields that no modelled operation reads.
pub mod Precedence
pub mod Profiles
use agent_shell.Base.{
  if◌then◌else◌, ℤ, Text, text_eq, is_empty, trim_space, lookup, insert, copy_into, ℕ, not, Option,
  none, some, List, [], ◌∷◌, map,
}
use agent_shell.Env.Library.{Row, EnvironmentLibrary}
use agent_shell.Env.Names.{reserved_environment_name, default_environment_name}

pub record StackMember : Type 0 where
  pub command_id : Text
  pub position : ℕ
  pub depends_on : List Text
  pub wait_for : Text
  pub wait_timeout_ms : ℤ
  pub environment : Text
  pub env : Row

pub record StackPrerequisite : Type 0 where
  pub stack_id : Text
  pub wait_timeout_ms : ℤ

pub record Stack : Type 0 where
  pub id : Text
  pub name : Text
  pub start_strategy : Text
  pub failure_policy : Text
  pub members : List StackMember
  pub depends_on_stacks : List StackPrerequisite
  pub environment : Text
  pub env : List (Text × Row)

unfoldable pub member_environment_name : Text → Text → Text
member_environment_name stack_env pin =
    if not (is_empty (trim_space pin))
    then trim_space pin
    else if not (is_empty (trim_space stack_env))
    then trim_space stack_env
    else default_environment_name

abbrev resolved_from : Text → Text → List StackMember → Text
resolved_from base stack_env [] = base
resolved_from base stack_env (m ∷ members) =
    if not (text_eq (member_environment_name stack_env m.environment) base)
    then reserved_environment_name
    else resolved_from base stack_env members

unfoldable pub stack_resolved_environment : Text → List StackMember → Text
stack_resolved_environment stack_env members =
    resolved_from (member_environment_name stack_env []) stack_env members

abbrev pub put_some : Text → Option Text → Row → Row
put_some key none out = out
put_some key (some value) out = insert key value out

unfoldable pub layer_from : Text → Row → List (Text × Row) → Row
layer_from env_name out [] = out
layer_from env_name out ((key, by_env) ∷ values) =
    layer_from env_name (put_some key (lookup env_name by_env) out) values

unfoldable pub layer_values : List (Text × Row) → Text → Row
unfolding layer_from
layer_values values env_name = layer_from env_name [] values

unfoldable pub resolve_stack_member_env :
    EnvironmentLibrary → Text → List (Text × Row) → StackMember → Row → Row
unfolding layer_values member_environment_name
resolve_stack_member_env lib stack_env stack_extras m command_env =
    let name = member_environment_name stack_env m.environment in
    let out = copy_into [] command_env in
    let out' = copy_into out (layer_values lib.values name) in
    let out'' = copy_into out' (layer_values stack_extras name) in copy_into out'' m.env

abbrev unpin : StackMember → StackMember
unpin m = record m { environment = [] }

unfoldable pub apply_stack_environment : Stack → Text → Stack
apply_stack_environment stack name = record stack {
  environment = trim_space name;
  members = map unpin stack.members;
}

abbrev unpinned : Text → StackMember → StackMember
unpinned deleted m = if text_eq m.environment deleted then unpin m else m

unfoldable pub remap_deleted_environment : Stack → Text → Text → Stack
remap_deleted_environment stack deleted fallback = record stack {
  environment = if text_eq stack.environment deleted then fallback else stack.environment;
  members = map (unpinned deleted) stack.members;
}
