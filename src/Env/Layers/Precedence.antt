-- ===== src/Env/Layers/Precedence.antt =====
-- Which layer of a member's environment wins.
use agent_shell.Base.{
  or_else, get_or, or_else-none, Text, text_eq_iff, Distinct, lookup, keys, lookup-insert,
  Distinct-insert, lookup_fresh, copy_into, lookup-copy_into, ◌≡◌, refl, ◌∙◌, Option, none, some,
  List, [], ◌∷◌, arith,
}
use agent_shell.Env.Layers.{
  layer_from, layer_values, resolve_stack_member_env, StackMember, member_environment_name,
  put_some,
}
use agent_shell.Env.Library.{Row, EnvironmentLibrary}

abbrev pub row_value : Text → Option Row → Option Text
row_value env none = none
row_value env (some row) = lookup env row

-- The value of a key in an environment.
abbrev pub value_at : List (Text × Row) → Text → Text → Option Text
value_at values key env = row_value env (lookup key values)

lookup-layer_from :
    (key env : Text) (out : Row) (values : List (Text × Row))
    → Distinct (keys values)
    → lookup key (layer_from env out values) ≡ or_else (value_at values key env) (lookup key out)
unfolding layer_from lookup
lookup-layer_from key env out [] d = refl
lookup-layer_from key env out ((j, row) ∷ values) (fresh, d) = ground (
  arith,
  lookup-layer_from key env (put_some j (lookup env row) out) values d,
  lookup-insert j key (get_or (lookup env row) []) out,
  text_eq_iff j key,
  lookup_fresh j values fresh,
)

-- A layer has exactly the values that the environment has, key by key.
pub lookup-layer_values :
    (key env : Text) (values : List (Text × Row))
    → Distinct (keys values)
    → lookup key (layer_values values env) ≡ value_at values key env
unfolding layer_values lookup
lookup-layer_values key env values d =
    lookup-layer_from key env [] values d ∙ or_else-none (value_at values key env)

Distinct-layer_from :
    (env : Text) (out : Row) (values : List (Text × Row))
    → Distinct (keys out)
    → Distinct (keys (layer_from env out values))
unfolding layer_from
Distinct-layer_from env out [] d = d
Distinct-layer_from env out ((j, row) ∷ values) d = ground (
  arith,
  Distinct-layer_from env (put_some j (lookup env row) out) values,
  Distinct-insert j (get_or (lookup env row) []) out d,
)

-- A member's own value wins over the stack's extras, these over the library's values in the member's
-- environment, and these over the command's, for each key.
pub lookup-resolve_stack_member_env :
    (lib : EnvironmentLibrary) (stack_env : Text) (extras : List (Text × Row)) (m : StackMember)
    (command_env : Row) (key : Text)
    → Distinct (keys lib.values)
    → Distinct (keys extras)
    → Distinct (keys m.env)
    → Distinct (keys command_env)
    → lookup key (resolve_stack_member_env lib stack_env extras m command_env)
      ≡ or_else (lookup key m.env) (
          or_else (value_at extras key (member_environment_name stack_env m.environment)) (
            or_else
              (value_at lib.values key (member_environment_name stack_env m.environment))
              (lookup key command_env)))
unfolding resolve_stack_member_env lookup
lookup-resolve_stack_member_env lib stack_env extras m command_env key d e f g =
    let name = member_environment_name stack_env m.environment in
    let out = copy_into [] command_env in
    let out' = copy_into out (layer_values lib.values name) in
    rw (
      lookup-copy_into key m.env (copy_into out' (layer_values extras name)) f,
      lookup-copy_into key (layer_values extras name) out' (Distinct-layer_from name [] extras tt),
      lookup-layer_values key name extras e,
      lookup-copy_into key (layer_values lib.values name) out
          (Distinct-layer_from name [] lib.values tt),
      lookup-layer_values key name lib.values d,
      lookup-copy_into key command_env [] g,
      or_else-none (lookup key command_env),
    )
