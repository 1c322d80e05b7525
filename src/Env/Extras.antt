-- ===== src/Env/Extras.antt =====
-- The extra values of a stack in internal/domain/env.go: NormalizeStackExtras, RestrictExtrasToNames
-- and NormalizeStackEnvironment.
pub mod Known
use agent_shell.Base.{
  if◌then◌else◌, any, Text, text_eq, is_empty, trim_space, CaseTable, to_lower, contains, insert,
  Result, ok, err, not, List, [], ◌∷◌, ◌>>=◌,
}
use agent_shell.Env.Library.{Row, EnvError, put_row, reserved, invalid_key, unknown_environment}
use agent_shell.Env.Names.{reserved_environment_name, valid_env_key, default_environment_name_in}

-- The inner loop for one key; `by_env` is what is left of the row.
unfoldable pub normalize_extra_row : CaseTable → List Text → Row → Row → Result EnvError Row
normalize_extra_row t allowed row [] = ok row
normalize_extra_row t allowed row ((raw, value) ∷ by_env) =
    let env = to_lower t (trim_space raw) in
    let skip = normalize_extra_row t allowed row by_env in
    let add = normalize_extra_row t allowed (insert env value row) by_env in
    if is_empty env
    then skip
    else if not (contains allowed env)
    then err (unknown_environment env)
    else add

unfoldable pub normalize_extras_from :
    CaseTable
    → List Text
    → List (Text × Row)
    → List (Text × Row)
    → Result EnvError (List (Text × Row))
unfolding normalize_extra_row
normalize_extras_from t allowed out [] = ok out
normalize_extras_from t allowed out ((raw, by_env) ∷ extras) =
    let key = trim_space raw in
    let skip = normalize_extras_from t allowed out extras in
    let add = normalize_extra_row t allowed [] by_env >>= λ row.
    normalize_extras_from t allowed (put_row key row out) extras in
    if is_empty key then skip else if not (valid_env_key key) then err (invalid_key key) else add

unfoldable pub normalize_stack_extras :
    CaseTable → List (Text × Row) → List Text → Result EnvError (List (Text × Row))
unfolding normalize_extras_from
normalize_stack_extras t extras names = normalize_extras_from t names [] extras

unfoldable pub restrict_row : List Text → Row → Row → Row
restrict_row allowed row [] = row
restrict_row allowed row ((env, value) ∷ by_env) =
    restrict_row allowed (if contains allowed env then insert env value row else row) by_env

unfoldable pub restrict_from : List Text → List (Text × Row) → List (Text × Row) → List (Text × Row)
unfolding restrict_row
restrict_from allowed out [] = out
restrict_from allowed out ((key, by_env) ∷ extras) =
    restrict_from allowed (put_row key (restrict_row allowed [] by_env) out) extras

unfoldable pub restrict_extras_to_names : List (Text × Row) → List Text → List (Text × Row)
unfolding restrict_from
restrict_extras_to_names extras names = restrict_from names [] extras

unfoldable pub normalize_stack_environment : CaseTable → Text → List Text → Result EnvError Text
normalize_stack_environment t raw names =
    let name = to_lower t (trim_space raw) in
    if is_empty name
    then ok (default_environment_name_in names)
    else if text_eq name reserved_environment_name
    then err reserved
    else if any (λ allowed. text_eq allowed name) names
    then ok name
    else err (unknown_environment name)
