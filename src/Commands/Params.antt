-- ===== src/Commands/Params.antt =====
-- CommandParameter, ValidateCommandParameters, ResolveCommandParameters and
-- validateCommandParameterValue of internal/domain/domain.go. Whether strconv.ParseFloat accepts a
-- text is the parameter `is_number`.
pub mod Valid
pub mod Bound
use agent_shell.Base.{
  leb, ◌==◌, if◌then◌else◌, or_else, length, all, Text, lit, text_eq, is_empty, trim_space,
  byte_len, contains, lookup, insert, Result, ◌>>=◌, ok, err, ℕ, Bool, true, false, not, ◌&&◌, ◌||◌,
  Option, none, some, List, [], ◌∷◌, ◌++◌,
}
use agent_shell.Env.Names.{is_lower, is_digit, valid_env_key}

pub data ParamType : Type 0 where
  text secret number boolean choice other_type : ParamType

pub data Binding : Type 0 where
  env_var stdin no_binding other_binding : Binding

pub record CommandParameter : Type 0 where
  pub key : Text
  pub label : Text
  pub type : ParamType
  pub required : Bool
  pub default : Text
  pub options : List Text
  pub binding : Binding
  pub variable : Text
  pub append_newline : Bool

-- The messages under ErrInvalidCommandParameters.
pub data ParamProblem : Type 0 where
  bad_key duplicate_key label_required bad_type secret_default default_too_large : ParamProblem
  options_required empty_option duplicate_option default_no_option options_for_choice : ParamProblem
  not_a_number not_a_boolean not_an_option : ParamProblem
  bad_variable newline_for_stdin second_stdin variable_for_env : ParamProblem
  binding_required bad_binding : ParamProblem
  value_required value_too_large value_empty unknown_parameter : ParamProblem

-- The key of a parameter with what is wrong with it.
pub record ParamError : Type 0 where
  pub key : Text
  pub problem : ParamProblem

abbrev pub max_parameter_size : ℕ
max_parameter_size = 65536

abbrev pub Check : Type 0
Check = Result ParamProblem (Unit {0})

abbrev pub ensure : Bool → ParamProblem → Check
ensure true problem = ok tt
ensure false problem = err problem

-- `^[a-z][a-z0-9_]{0,63}$`
abbrev is_parameter_rune : ℕ → Bool
is_parameter_rune c = is_lower c || is_digit c || c == b'_'

unfoldable pub parameter_key_matches : Text → Bool
parameter_key_matches [] = false
parameter_key_matches (c ∷ s) = is_lower c && all is_parameter_rune s && leb (length s) 63

abbrev pub value_problem : (Text → Bool) → CommandParameter → Text → ParamType → Check
value_problem is_number p value number = ensure (is_number value) not_a_number
value_problem is_number p value boolean =
    ensure (text_eq value (lit "true") || text_eq value (lit "false")) not_a_boolean
value_problem is_number p value choice = ensure (contains p.options value) not_an_option
value_problem is_number p value _ = ok tt

unfoldable pub validate_command_parameter_value : (Text → Bool) → CommandParameter → Text → Check
unfolding text_eq contains
validate_command_parameter_value is_number p value = value_problem is_number p value p.type

abbrev pub known_type : ParamType → Bool
known_type other_type = false
known_type _ = true

abbrev pub is_secret : ParamType → Bool
is_secret secret = true
is_secret _ = false

-- The loop over the options of a choice; `seen` is the map `options`.
unfoldable pub check_options : List Text → List Text → Check
unfolding contains
check_options [] seen = ok tt
check_options (option ∷ options) seen = ensure (not (is_empty option)) empty_option >>= λ _.
    ensure (not (contains seen option)) duplicate_option >>= λ _.
    check_options options (option ∷ seen)

abbrev is_nil : List Text → Bool
is_nil [] = true
is_nil (x ∷ xs) = false

abbrev pub check_choice : CommandParameter → ParamType → Check
check_choice p choice = ensure (not (is_nil p.options)) options_required >>= λ _.
    check_options p.options [] >>= λ _.
    ensure (is_empty p.default || contains p.options p.default) default_no_option
check_choice p _ = ensure (is_nil p.options) options_for_choice

abbrev pub check_default : (Text → Bool) → CommandParameter → Check
check_default is_number p =
    if is_empty p.default then ok tt else validate_command_parameter_value is_number p p.default

abbrev pub check_binding : CommandParameter → Bool → Binding → Check
check_binding p taken env_var = ensure (valid_env_key p.variable) bad_variable >>= λ _.
    ensure (not p.append_newline) newline_for_stdin
check_binding p taken stdin =
    ensure (not taken) second_stdin >>= λ _. ensure (is_empty p.variable) variable_for_env
check_binding p taken no_binding = err binding_required
check_binding p taken other_binding = err bad_binding

-- The body of the loop; `seen` holds the keys before, `taken` whether one of them is bound to stdin.
unfoldable pub check_parameter : (Text → Bool) → List Text → Bool → CommandParameter → Check
unfolding parameter_key_matches contains trim_space byte_len check_options valid_env_key
    validate_command_parameter_value
check_parameter is_number seen taken p = ensure (parameter_key_matches p.key) bad_key >>= λ _.
    ensure (not (contains seen p.key)) duplicate_key >>= λ _.
    ensure (not (is_empty (trim_space p.label))) label_required >>= λ _.
    ensure (known_type p.type) bad_type >>= λ _.
    ensure (not (is_secret p.type && not (is_empty p.default))) secret_default >>= λ _.
    ensure (leb (byte_len p.default) max_parameter_size) default_too_large >>= λ _.
    check_choice p p.type >>= λ _.
    check_default is_number p >>= λ _. check_binding p taken p.binding

abbrev pub is_stdin : Binding → Bool
is_stdin stdin = true
is_stdin _ = false

abbrev pub at_key : Text → Check → Result ParamError (Unit {0})
at_key key (ok _) = ok tt
at_key key (err problem) = err (record { key = key; problem = problem })

unfoldable pub check_parameters :
    (Text → Bool) → List CommandParameter → List Text → Bool → Result ParamError (Unit {0})
unfolding check_parameter
check_parameters is_number [] seen taken = ok tt
check_parameters is_number (p ∷ ps) seen taken =
    at_key p.key (check_parameter is_number seen taken p) >>= λ _.
    check_parameters is_number ps (p.key ∷ seen) (taken || is_stdin p.binding)

unfoldable pub validate_command_parameters :
    (Text → Bool) → List CommandParameter → Result ParamError (Unit {0})
unfolding check_parameters
validate_command_parameters is_number ps = check_parameters is_number ps [] false

-- What goes to the process: its extra environment and its input.
pub record Transient : Type 0 where
  pub env : List (Text × Text)
  pub input : Option Text

-- The value of a parameter: the one that is given, else its default where it has one.
abbrev pub default_of : Text → Option Text
default_of [] = none
default_of (c ∷ s) = some (c ∷ s)

abbrev pub value_of : List (Text × Text) → CommandParameter → Option Text
value_of values p = or_else (lookup p.key values) (default_of p.default)

abbrev pub with_newline : Bool → Text → Text
with_newline newline value = if newline then value ++ b'\n' ∷ [] else value

abbrev pub bind_value : CommandParameter → Text → Transient → Binding → Transient
bind_value p value t stdin = record t { input = some (with_newline p.append_newline value) }
bind_value p value t _ = record t { env = insert p.variable value t.env }

abbrev pub check_value : (Text → Bool) → CommandParameter → Text → Check
check_value is_number p value =
    ensure (leb (byte_len value) max_parameter_size) value_too_large >>= λ _.
    ensure (not (p.required && is_empty value)) value_empty >>= λ _.
    validate_command_parameter_value is_number p value

-- One parameter of the loop.
abbrev pub resolve_one :
    (Text → Bool) → CommandParameter → Transient → Option Text → Result ParamProblem Transient
resolve_one is_number p t none = if p.required then err value_required else ok t
resolve_one is_number p t (some value) =
    check_value is_number p value >>= λ _. ok (bind_value p value t p.binding)

abbrev pub named {ℓ} : {A : Type ℓ} → Text → Result ParamProblem A → Result ParamError A
named key (ok a) = ok a
named key (err problem) = err (record { key = key; problem = problem })

unfoldable pub resolve_each :
    (Text → Bool)
    → List (Text × Text)
    → List CommandParameter
    → Transient
    → Result ParamError Transient
unfolding lookup insert byte_len validate_command_parameter_value
resolve_each is_number values [] t = ok t
resolve_each is_number values (p ∷ ps) t =
    named p.key (resolve_one is_number p t (value_of values p)) >>= resolve_each is_number values ps

abbrev pub parameter_keys : List CommandParameter → List Text
parameter_keys [] = []
parameter_keys (p ∷ ps) = p.key ∷ parameter_keys ps

-- The last loop: each value has a parameter.
unfoldable pub check_known : List Text → List (Text × Text) → Result ParamError (Unit {0})
unfolding contains
check_known allowed [] = ok tt
check_known allowed ((key, value) ∷ values) =
    if contains allowed key
    then check_known allowed values
    else err (record { key = key; problem = unknown_parameter })

abbrev pub nothing_bound : Transient
nothing_bound = record { env = []; input = none }

unfoldable pub resolve_command_parameters :
    (Text → Bool) → List CommandParameter → List (Text × Text) → Result ParamError Transient
unfolding validate_command_parameters resolve_each check_known
resolve_command_parameters is_number ps values = validate_command_parameters is_number ps >>= λ _.
    resolve_each is_number values ps nothing_bound >>= λ t.
    check_known (parameter_keys ps) values >>= λ _. ok t
