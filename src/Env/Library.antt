-- ===== src/Env/Library.antt =====
-- NormalizeEnvironmentLibrary of internal/domain/env.go.
pub mod Normal
pub mod Fixed
use agent_shell.Base.{
  ◌≡◌, Bool, true, not, ◌||◌, List, [], ◌∷◌, ◌++◌, if◌then◌else◌, Text, text_eq, is_empty,
  trim_space, CaseTable, to_lower, contains, insert, Result, ok, err, ◌>>=◌,
}
use agent_shell.Env.Names.{valid_environment_name, valid_env_key, reserved_environment_name}

-- The values of one key by environment.
abbrev pub Row : Type 0
Row = List (Text × Text)

pub record EnvironmentLibrary : Type 0 where
  pub names : List Text
  pub keys : List Text
  pub secret_keys : List Text
  pub values : List (Text × Row)

-- The messages under ErrInvalidEnvironment, with what they quote.
pub data EnvError : Type 0 where
  reserved no_names : EnvError
  invalid_name invalid_key unknown_environment : Text → EnvError

-- In these loops `seenNames`, `seenKeys` and `seenSecrets` hold exactly what the slice holds.
unfoldable pub normalize_names : CaseTable → List Text → List Text → Result EnvError (List Text)
normalize_names t [] names = ok names
normalize_names t (raw ∷ raws) names =
    let name = to_lower t (trim_space raw) in
    let skip = normalize_names t raws names in
    let add = normalize_names t raws (names ++ name ∷ []) in
    if is_empty name
    then skip
    else if text_eq name reserved_environment_name
    then err reserved
    else if not (valid_environment_name name)
    then err (invalid_name raw)
    else if contains names name
    then skip
    else add

unfoldable pub normalize_keys : List Text → List Text → Result EnvError (List Text)
normalize_keys [] keys = ok keys
normalize_keys (raw ∷ raws) keys =
    let key = trim_space raw in
    let skip = normalize_keys raws keys in
    let add = normalize_keys raws (keys ++ key ∷ []) in
    if is_empty key
    then skip
    else if not (valid_env_key key)
    then err (invalid_key raw)
    else if contains keys key
    then skip
    else add

unfoldable pub normalize_row : CaseTable → List Text → Row → Row → Row
normalize_row t names row [] = row
normalize_row t names row ((raw, value) ∷ by_env) =
    let env = to_lower t (trim_space raw) in
    normalize_row t names (if contains names env then insert env value row else row) by_env

-- `if len(row) > 0 { values[key] = row }`
abbrev pub put_row : Text → Row → List (Text × Row) → List (Text × Row)
put_row key [] values = values
put_row key (cell ∷ row) values = insert key (cell ∷ row) values

unfoldable pub normalize_values :
    CaseTable → List Text → List Text → List (Text × Row) → List (Text × Row) → List (Text × Row)
unfolding normalize_row
normalize_values t names keys values [] = values
normalize_values t names keys values ((raw, by_env) ∷ given) =
    let key = trim_space raw in
    normalize_values t names keys
      (if contains keys key then put_row key (normalize_row t names [] by_env) values else values)
      given

unfoldable pub normalize_secrets : List Text → List Text → List Text → List Text
normalize_secrets keys secrets [] = secrets
normalize_secrets keys secrets (raw ∷ raws) =
    let key = trim_space raw in
    normalize_secrets keys
      (if not (contains keys key) || contains secrets key then secrets else secrets ++ key ∷ [])
      raws

abbrev pub some_names : List Text → Result EnvError (List Text)
some_names [] = err no_names
some_names (name ∷ names) = ok (name ∷ names)

-- The library that is returned, from the names and keys that were accepted.
abbrev pub with_names_and_keys :
    CaseTable → EnvironmentLibrary → List Text → List Text → EnvironmentLibrary
with_names_and_keys t lib names keys = record {
  names = names;
  keys = keys;
  secret_keys = normalize_secrets keys [] lib.secret_keys;
  values = normalize_values t names keys [] lib.values;
}

unfoldable pub normalize_environment_library :
    CaseTable → EnvironmentLibrary → Result EnvError EnvironmentLibrary
unfolding normalize_names normalize_keys normalize_values normalize_secrets
normalize_environment_library t lib = do
  found ← normalize_names t lib.names []
  names ← some_names found
  keys ← normalize_keys lib.keys []
  ok (with_names_and_keys t lib names keys)
