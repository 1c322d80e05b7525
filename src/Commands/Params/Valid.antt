-- ===== src/Commands/Params/Valid.antt =====
-- What ValidateCommandParameters of internal/domain/domain.go accepts.
use agent_shell.Base.{
  if◌then◌else◌, all, All, Text, is_empty, trim_space, contains, Distinct, ◌>>=◌, ok, ℕ, suc, ◌≡◌,
  refl, ◌≢◌, ◌⊎◌, Bool, true, false, not, List, [], ◌∷◌, text_eq_iff, ◌&&◌, arith, leb, byte_len,
  ◌+◌, ◌≤◌, sym, ap, ◌∙◌, inl, inr, ◌||◌,
}
use agent_shell.Commands.Params.{
  CommandParameter, ParamProblem, Check, ensure, parameter_key_matches,
  validate_command_parameter_value, check_options, is_stdin, secret, choice, env_var, stdin,
  is_secret, check_choice, check_default, check_binding, check_parameter, ParamType, Binding,
  max_parameter_size, known_type, check_parameters, validate_command_parameters, parameter_keys,
  no_binding, other_binding, bad_key, duplicate_key, label_required, bad_type, secret_default,
  default_too_large,
}
use agent_shell.Env.Names.{valid_env_key}

-- The options of a choice: none is empty, none stands twice, and the default is one of them.
pub record IsChoice (p : CommandParameter) : Type 0 where
  pub full : all (λ o. not (is_empty o)) p.options ≡ true
  pub distinct : Distinct p.options
  pub default_listed : is_empty p.default ≡ false → contains p.options p.default ≡ true

pub record IsParameter (is_number : Text → Bool) (p : CommandParameter) : Type 0 where
  pub key_formed : parameter_key_matches p.key ≡ true
  pub labelled : is_empty (trim_space p.label) ≡ false
  pub no_secret_default : p.type ≡ secret → is_empty p.default ≡ true
  pub chosen : p.type ≡ choice → IsChoice p
  pub unlisted : p.type ≢ choice → p.options ≡ []
  pub default_checked :
      is_empty p.default ≡ false → validate_command_parameter_value is_number p p.default ≡ ok tt
  pub to_env : p.binding ≡ env_var → valid_env_key p.variable ≡ true
  pub to_input : p.binding ≡ stdin → p.variable ≡ []
  pub bound : (p.binding ≡ env_var) ⊎ (p.binding ≡ stdin)

-- How many parameters are bound to the input.
abbrev pub count_stdin : List CommandParameter → ℕ
count_stdin [] = 0
count_stdin (p ∷ ps) = if is_stdin p.binding then suc (count_stdin ps) else count_stdin ps

-- Texts that are new to a set with `x` are new to the set, and none is `x`.
new_to-cons :
    (x : Text) (seen xs : List Text)
    → All (λ o. contains (x ∷ seen) o ≡ false) xs
    → (contains xs x ≡ false) × All (λ o. contains seen o ≡ false) xs
unfolding contains
new_to-cons x seen [] h = (refl, tt)
new_to-cons x seen (o ∷ xs) (h, hs) =
    let (apart, news) = new_to-cons x seen xs hs in
    (ground (arith, text_eq_iff x o, text_eq_iff o x), (ground arith, news))

check_options_sound :
    (options seen : List Text)
    → check_options options seen ≡ ok tt
    → (all (λ o. not (is_empty o)) options ≡ true)
      × Distinct options
      × All (λ o. contains seen o ≡ false) options
unfolding check_options
check_options_sound [] seen h = (refl, tt, tt)
check_options_sound (option ∷ options) seen h =
    let rest : check_options options (option ∷ seen) ≡ ok tt = ground arith in
    let (fulls, distinct, news) = check_options_sound options (option ∷ seen) rest in
    let (apart, olds) = new_to-cons option seen options news in
    (ground arith, (apart, distinct), (ground arith, olds))

check_choice_sound : (p : CommandParameter) → check_choice p choice ≡ ok tt → IsChoice p
check_choice_sound p h =
    let options : check_options p.options [] ≡ ok tt = ground arith in
    let (full, distinct, _) = check_options_sound p.options [] options in
    record { full = full; distinct = distinct; default_listed = λ given. ground arith }

-- What the checks of one parameter have found.
record Checked (is_number : Text → Bool) (seen : List Text) (taken : Bool) (p : CommandParameter)
    : Type 0 where
  formed : parameter_key_matches p.key ≡ true
  fresh : contains seen p.key ≡ false
  labelled : is_empty (trim_space p.label) ≡ false
  no_secret : (is_secret p.type && not (is_empty p.default)) ≡ false
  choice_checked : check_choice p p.type ≡ ok tt
  default_checked : check_default is_number p ≡ ok tt
  binding_checked : check_binding p taken p.binding ≡ ok tt

-- Nine checks in a row that pass have each passed.
nine_passed :
    (b1 b2 b3 b4 b5 b6 : Bool) (e1 e2 e3 e4 e5 e6 : ParamProblem) (c1 c2 c3 : Check)
    → (ensure b1 e1 >>= λ _. ensure b2 e2 >>= λ _. ensure b3 e3 >>= λ _. ensure b4 e4 >>= λ _.
        ensure b5 e5 >>= λ _. ensure b6 e6 >>= λ _. c1 >>= λ _. c2 >>= λ _. c3)
      ≡ ok tt
    → (b1 ≡ true)
      × (b2 ≡ true)
      × (b3 ≡ true)
      × (b5 ≡ true)
      × (c1 ≡ ok tt)
      × (c2 ≡ ok tt)
      × (c3 ≡ ok tt)
nine_passed b1 b2 b3 b4 b5 b6 e1 e2 e3 e4 e5 e6 c1 c2 c3 h = (
  ground arith,
  ground arith,
  ground arith,
  ground arith,
  ground arith,
  ground arith,
  ground arith,
)

check_parameter-Checked :
    (is_number : Text → Bool) (seen : List Text) (taken : Bool) (p : CommandParameter)
    → check_parameter is_number seen taken p ≡ ok tt
    → Checked is_number seen taken p
unfolding check_parameter
check_parameter-Checked is_number seen taken p h =
    let (b1, b2, b3, b5, c1, c2, c3) =
      nine_passed (parameter_key_matches p.key) (not (contains seen p.key))
        (not (is_empty (trim_space p.label))) (known_type p.type)
        (not (is_secret p.type && not (is_empty p.default)))
        (leb (byte_len p.default) max_parameter_size) bad_key duplicate_key label_required bad_type
        secret_default default_too_large (check_choice p p.type) (check_default is_number p)
        (check_binding p taken p.binding) h in
    record {
      formed = b1;
      fresh = ground arith;
      labelled = ground arith;
      no_secret = ground arith;
      choice_checked = c1;
      default_checked = c2;
      binding_checked = c3;
    }

unlisted_of :
    (p : CommandParameter) (t : ParamType) → check_choice p t ≡ ok tt → t ≢ choice → p.options ≡ []
unlisted_of p choice h ne = absurd (ne refl)
unlisted_of p _ h ne = ground arith

bound_of :
    (p : CommandParameter) (taken : Bool) (b : Binding)
    → check_binding p taken b ≡ ok tt
    → (b ≡ env_var) ⊎ (b ≡ stdin)
bound_of p taken env_var h = inl refl
bound_of p taken stdin h = inr refl
bound_of p taken no_binding h = cc
bound_of p taken other_binding h = cc

Checked-IsParameter :
    (is_number : Text → Bool) (seen : List Text) (taken : Bool) (p : CommandParameter)
    → Checked is_number seen taken p
    → IsParameter is_number p
Checked-IsParameter is_number seen taken p c = record {
  key_formed = c.formed;
  labelled = c.labelled;
  no_secret_default = λ e. ground (arith, c.no_secret);
  chosen = λ e. check_choice_sound p (ap (check_choice p) (sym e) ∙ c.choice_checked);
  unlisted = unlisted_of p p.type c.choice_checked;
  default_checked = λ given. ground (arith, c.default_checked);
  to_env = λ e. ground (arith, c.binding_checked);
  to_input = λ e. ground (arith, c.binding_checked);
  bound = bound_of p taken p.binding c.binding_checked;
}

-- The input is not bound twice.
once_bound :
    (p : CommandParameter) (taken : Bool)
    → check_binding p taken p.binding ≡ ok tt
    → taken ≡ true
    → is_stdin p.binding ≡ false
once_bound p taken h e = ground arith

check_parameters_sound :
    (is_number : Text → Bool) (ps : List CommandParameter) (seen : List Text) (taken : Bool)
    → check_parameters is_number ps seen taken ≡ ok tt
    → All (IsParameter is_number) ps
      × Distinct (parameter_keys ps)
      × All (λ k. contains seen k ≡ false) (parameter_keys ps)
      × (count_stdin ps + (if taken then 1 else 0) ≤ 1)
unfolding check_parameters
check_parameters_sound is_number [] seen taken h = (tt, tt, tt, ground arith)
check_parameters_sound is_number (p ∷ ps) seen taken h =
    let first : check_parameter is_number seen taken p ≡ ok tt = ground arith in
    let checked = check_parameter-Checked is_number seen taken p first in
    let rest : check_parameters is_number ps (p.key ∷ seen) (taken || is_stdin p.binding) ≡ ok tt =
      ground arith in
    let (each, distinct, news, count) =
      check_parameters_sound is_number ps (p.key ∷ seen) (taken || is_stdin p.binding) rest in
    let (apart, olds) = new_to-cons p.key seen (parameter_keys ps) news in
    (
      (Checked-IsParameter is_number seen taken p checked, each),
      (apart, distinct),
      (checked.fresh, olds),
      ground (arith, once_bound p taken checked.binding_checked),
    )

-- Where ValidateCommandParameters reports no error, each parameter is well formed (its key and label,
-- the options of a choice, which are distinct, not empty and hold the default, the variable of one
-- that is bound to the environment, and no default where it is secret), no key stands twice, and at
-- most one parameter is bound to the input.
pub validate_command_parameters-AreParameters :
    (is_number : Text → Bool) (ps : List CommandParameter)
    → validate_command_parameters is_number ps ≡ ok tt
    → All (IsParameter is_number) ps × Distinct (parameter_keys ps) × (count_stdin ps ≤ 1)
unfolding validate_command_parameters
validate_command_parameters-AreParameters is_number ps h =
    let (each, distinct, news, count) = check_parameters_sound is_number ps [] false h in
    (each, distinct, omega arith)
