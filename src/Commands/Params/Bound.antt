-- ===== src/Commands/Params/Bound.antt =====
-- What ResolveCommandParameters of internal/domain/domain.go gives to the process.
use agent_shell.Base.{
  if◌then◌else◌, or_else, map_some, or_else-none, All, Text, text_eq, is_empty, byte_len, contains,
  lookup, lookup-insert, Result, ◌>>=◌, >>=-eq-ok, ok-injective, ok, err, ◌≤◌, ◌≡◌, refl, sym, ap,
  ◌∙◌, Bool, true, false, not, ◌&&◌, Option, none, some, List, [], ◌∷◌, arith,
}
use agent_shell.Commands.Params.{
  Binding, CommandParameter, ParamProblem, max_parameter_size, validate_command_parameter_value,
  is_stdin, validate_command_parameters, Transient, value_of, with_newline, bind_value, check_value,
  resolve_one, named, resolve_each, parameter_keys, check_known, nothing_bound,
  resolve_command_parameters, env_var, stdin, no_binding, other_binding,
}

-- The value that the environment has for a variable: that of the last parameter that is bound to it
-- and has one.
abbrev pub bound_to : Text → CommandParameter → Bool
bound_to name p = not (is_stdin p.binding) && text_eq p.variable name

abbrev pub env_value : List (Text × Text) → Text → List CommandParameter → Option Text
env_value values name [] = none
env_value values name (p ∷ ps) =
    or_else (env_value values name ps) (if bound_to name p then value_of values p else none)

-- The input: the value of the parameter that is bound to it, with a newline where it asks for one.
abbrev pub input_value : List (Text × Text) → List CommandParameter → Option Text
input_value values [] = none
input_value values (p ∷ ps) = or_else (input_value values ps) (
    if is_stdin p.binding
    then map_some (with_newline p.append_newline) (value_of values p)
    else none)

-- A value that the parameter allows.
abbrev pub Allows : (Text → Bool) → CommandParameter → Text → Type 0
Allows is_number p value =
    (byte_len value ≤ max_parameter_size)
    × ((p.required && is_empty value) ≡ false)
    × (validate_command_parameter_value is_number p value ≡ ok tt)

-- What each parameter has: a value that it allows, or none where it is not required.
abbrev pub IsMet : (Text → Bool) → CommandParameter → Option Text → Type 0
IsMet is_number p none = p.required ≡ false
IsMet is_number p (some value) = Allows is_number p value

pub record IsBound (is_number : Text → Bool) (ps : List CommandParameter)
    (values : List (Text × Text)) (t : Transient) : Type 0 where
  pub env_bound : (name : Text) → lookup name t.env ≡ env_value values name ps
  pub input_bound : t.input ≡ input_value values ps
  pub met : All (λ p. IsMet is_number p (value_of values p)) ps
  pub known : All (λ c. contains (parameter_keys ps) c.0 ≡ true) values

value_allowed :
    (is_number : Text → Bool) (p : CommandParameter) (value : Text)
    → check_value is_number p value ≡ ok tt
    → Allows is_number p value
value_allowed is_number p value h = (ground arith, ground arith, ground arith)

module _ (is_number : Text → Bool) (p : CommandParameter) (t t' : Transient) where
  -- One parameter that is resolved is met, and binds its value and nothing else.
  one-IsMet : (o : Option Text) → resolve_one is_number p t o ≡ ok t' → IsMet is_number p o
  one-IsMet none h = ground arith
  one-IsMet (some value) h = value_allowed is_number p value (ground arith)

  bound_env :
      (value name : Text) (b : Binding)
      → lookup name (bind_value p value t b).env
        ≡ or_else
            (if not (is_stdin b) && text_eq p.variable name then some value else none)
            (lookup name t.env)
  bound_env value name stdin = refl
  bound_env value name env_var = lookup-insert p.variable name value t.env ∙ ground arith
  bound_env value name no_binding = lookup-insert p.variable name value t.env ∙ ground arith
  bound_env value name other_binding = lookup-insert p.variable name value t.env ∙ ground arith

  bound_input :
      (value : Text) (b : Binding)
      → (bind_value p value t b).input
        ≡ or_else (if is_stdin b then some (with_newline p.append_newline value) else none) t.input
  bound_input value stdin = refl
  bound_input value env_var = refl
  bound_input value no_binding = refl
  bound_input value other_binding = refl

  resolved_value :
      (value : Text)
      → resolve_one is_number p t (some value) ≡ ok t'
      → t' ≡ bind_value p value t p.binding
  resolved_value value h =
      let (_, _, e) =
        >>=-eq-ok (check_value is_number p value) (λ _. ok (bind_value p value t p.binding)) h in
      sym (ok-injective _ _ e)

  one_env :
      (name : Text) (o : Option Text)
      → resolve_one is_number p t o ≡ ok t'
      → lookup name t'.env ≡ or_else (if bound_to name p then o else none) (lookup name t.env)
  one_env name none h = let same : t' ≡ t = ground arith in rw same (ground arith)
  one_env name (some value) h = rw (resolved_value value h) (bound_env value name p.binding)

  one_input :
      (o : Option Text)
      → resolve_one is_number p t o ≡ ok t'
      → t'.input
        ≡ or_else
            (if is_stdin p.binding then map_some (with_newline p.append_newline) o else none)
            t.input
  one_input none h = let same : t' ≡ t = ground arith in rw same (ground arith)
  one_input (some value) h = rw (resolved_value value h) (bound_input value p.binding)

or_else_assoc {ℓ} :
    {A : Type ℓ} (a b c : Option A) → or_else (or_else a b) c ≡ or_else a (or_else b c)
or_else_assoc none b c = refl
or_else_assoc (some x) b c = refl

named-ok {ℓ} :
    {A : Type ℓ} (key : Text) (r : Result ParamProblem A) {a : A} → named key r ≡ ok a → r ≡ ok a
named-ok key (ok a) h = ap ok (ok-injective _ _ h)
named-ok key (err e) h = cc

resolve_each-binds :
    (is_number : Text → Bool) (values : List (Text × Text)) (ps : List CommandParameter)
    (t out : Transient)
    → resolve_each is_number values ps t ≡ ok out
    → ((name : Text) → lookup name out.env ≡ or_else (env_value values name ps) (lookup name t.env))
      × (out.input ≡ or_else (input_value values ps) t.input)
      × All (λ p. IsMet is_number p (value_of values p)) ps
unfolding resolve_each
resolve_each-binds is_number values [] t out h =
    let same : out ≡ t = ground arith in ((λ name. rw same), rw same, tt)
resolve_each-binds is_number values (p ∷ ps) t out h =
    let (mid, first, rest) =
      >>=-eq-ok (named p.key (resolve_one is_number p t (value_of values p)))
        (resolve_each is_number values ps) h in
    let one = named-ok p.key (resolve_one is_number p t (value_of values p)) first in
    let (env_rest, input_rest, met) = resolve_each-binds is_number values ps mid out rest in
    (
      λ name.
          env_rest name
          ∙ ap (or_else (env_value values name ps))
              (one_env is_number p t mid name (value_of values p) one)
          ∙ sym (
              or_else_assoc (env_value values name ps)
                (if bound_to name p then value_of values p else none) (lookup name t.env)),
      input_rest
          ∙ ap (or_else (input_value values ps))
              (one_input is_number p t mid (value_of values p) one)
          ∙ sym (
              or_else_assoc (input_value values ps)
                (if is_stdin p.binding
                  then map_some (with_newline p.append_newline) (value_of values p)
                  else none)
                t.input),
      (one-IsMet is_number p t mid (value_of values p) one, met),
    )

check_known-All :
    (allowed : List Text) (values : List (Text × Text))
    → check_known allowed values ≡ ok tt
    → All (λ c. contains allowed c.0 ≡ true) values
unfolding check_known
check_known-All allowed [] h = tt
check_known-All allowed ((key, value) ∷ values) h =
    (ground arith, check_known-All allowed values (ground arith))

-- Where ResolveCommandParameters reports no error, the process gets exactly this: each variable has
-- the value of the last parameter that is bound to it and has one, given or by default; the input is
-- the value of the parameter bound to it; each parameter has a value that its type and size allow, not
-- empty where it is required, or is not required; and each given value has a parameter.
pub resolve_command_parameters-IsBound :
    (is_number : Text → Bool) (ps : List CommandParameter) (values : List (Text × Text))
    (t : Transient)
    → resolve_command_parameters is_number ps values ≡ ok t
    → IsBound is_number ps values t
unfolding resolve_command_parameters
resolve_command_parameters-IsBound is_number ps values t h =
    let (_, _, h1) =
      >>=-eq-ok (validate_command_parameters is_number ps)
        (λ _. resolve_each is_number values ps nothing_bound >>= λ t.
          check_known (parameter_keys ps) values >>= λ _. ok t)
        h in
    let (out, each, h2) =
      >>=-eq-ok (resolve_each is_number values ps nothing_bound)
        (λ t. check_known (parameter_keys ps) values >>= λ _. ok t) h1 in
    let (_, known, h3) = >>=-eq-ok (check_known (parameter_keys ps) values) (λ _. ok out) h2 in
    let (envs, input, met) = resolve_each-binds is_number values ps nothing_bound out each in
    let same : t ≡ out = sym (ok-injective out t h3) in
    rw same (record {
      env_bound = λ name. envs name ∙ or_else-none (env_value values name ps);
      input_bound = input ∙ or_else-none (input_value values ps);
      met = met;
      known = check_known-All (parameter_keys ps) values known;
    })
