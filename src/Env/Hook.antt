-- ===== src/Env/Hook.antt =====
-- ApplyHTTPHookEnv of internal/domain/env.go: the values that a hook script changed are written to
-- one environment of the library.
pub mod Writes
pub mod Effect
use agent_shell.Base.{
  if◌then◌else◌, get_or, Text, text_eq, trim_space, CaseTable, to_lower, contains, lookup, insert,
  keys, Result, ok, err, Bool, true, false, not, ◌||◌, List, [], ◌∷◌, ◌++◌,
}
use agent_shell.Env.Library.{Row, EnvironmentLibrary, EnvError, normalize_environment_library}
use agent_shell.Env.Names.{valid_environment_name, valid_env_key}

-- `before[key]`, the empty text where it is missing.
abbrev pub value_or_empty : Text → Row → Text
value_or_empty key m = get_or (lookup key m) []

unfoldable pub hook_writes : Row → Row → Row → Row
hook_writes before writes [] = writes
hook_writes before writes ((raw, value) ∷ after) =
    let key = trim_space raw in
    hook_writes before
      (if not (valid_env_key key) || text_eq (value_or_empty key before) value
        then writes
        else insert key value writes)
      after

-- `if values[key] == nil { values[key] = … }; values[key][envName] = value`
abbrev pub write_value : Text → Text → Text → List (Text × Row) → List (Text × Row)
write_value env key value values =
    insert key (insert env value (get_or (lookup key values) [])) values

-- The loop over the writes. `seen` holds exactly what `keys` holds.
unfoldable pub apply_writes :
    Text → Row → List Text → List (Text × Row) → List Text × List (Text × Row)
apply_writes env [] ks values = (ks, values)
apply_writes env ((key, value) ∷ writes) ks values =
    apply_writes env writes (if contains ks key then ks else ks ++ key ∷ [])
      (write_value env key value values)

abbrev pub with_writes : Text → Row → EnvironmentLibrary → EnvironmentLibrary
with_writes env writes lib = record lib {
  keys = (apply_writes env writes lib.keys lib.values).0;
  values = (apply_writes env writes lib.keys lib.values).1;
}

abbrev pub or_unchanged :
    EnvironmentLibrary → Result EnvError EnvironmentLibrary → EnvironmentLibrary × Bool
or_unchanged lib (ok normalized) = (normalized, true)
or_unchanged lib (err e) = (lib, false)

abbrev if_written : CaseTable → EnvironmentLibrary → Text → Row → EnvironmentLibrary × Bool
if_written t lib env [] = (lib, false)
if_written t lib env (w ∷ writes) =
    or_unchanged lib (normalize_environment_library t (with_writes env (w ∷ writes) lib))

unfoldable pub apply_http_hook_env :
    CaseTable → EnvironmentLibrary → Text → Row → Row → EnvironmentLibrary × Bool
unfolding hook_writes apply_writes
apply_http_hook_env t lib env_name before after =
    let env = to_lower t (trim_space env_name) in
    if not (valid_environment_name env)
    then (lib, false)
    else if_written t lib env (hook_writes before [] after)
