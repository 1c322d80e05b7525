-- ===== src/Http/Request.antt =====
-- NormalizeHTTPMethod, NormalizeHTTPRequestTimeout, ValidateHTTPHookScript,
-- HTTPCollectionEnvironment, ResolveHTTPRequestVars and RemapHTTPCollectionEnvironment of
-- internal/domain/http.go.
pub mod Bounds
use agent_shell.Base.{
  ltb, if◌then◌else◌, ℤ, pos, negsuc, Text, lit, text_eq, is_empty, trim_space, CaseTable, to_lower,
  to_upper, byte_len, contains, copy_into, Result, ok, err, ℕ, zero, suc, not, Option, none, some,
  List, [], ◌∷◌,
}
use agent_shell.Env.Layers.{Stack, member_environment_name, layer_values}
use agent_shell.Env.Library.{Row, EnvironmentLibrary}
use agent_shell.Env.Names.{default_environment_name_in}

-- The messages under ErrHTTPRequest, with what they quote.
pub data HttpError : Type 0 where
  unsupported_method : Text → HttpError
  unresolved : List Text → HttpError
  invalid_placeholder unknown_template duplicate_template : HttpError
  too_many_templates template_id_required template_name_required keep_one_template : HttpError
  script_too_long unterminated_quote not_curl invalid_max_time credentials missing_url : HttpError
  flag_requires_value invalid_header : Text → HttpError

abbrev pub default_http_request_timeout_ms : ℕ
default_http_request_timeout_ms = 10000

abbrev pub max_http_request_timeout_ms : ℕ
max_http_request_timeout_ms = 120000

abbrev pub max_http_hook_script : ℕ
max_http_hook_script = 65536

abbrev pub http_methods : List Text
http_methods =
    lit "GET"
    ∷ lit "HEAD"
    ∷ lit "POST"
    ∷ lit "PUT"
    ∷ lit "PATCH"
    ∷ lit "DELETE"
    ∷ lit "OPTIONS"
    ∷ []

-- `if method == "" { method = "GET" }`
abbrev or_get : Text → Text
or_get [] = lit "GET"
or_get (c ∷ s) = c ∷ s

unfoldable pub normalize_http_method : CaseTable → Text → Result HttpError Text
normalize_http_method t raw =
    let m = or_get (to_upper t (trim_space raw)) in
    if contains http_methods m then ok m else err (unsupported_method m)

-- The timeout of a positive `ms`.
abbrev clamped_timeout : ℕ → ℕ
clamped_timeout ms =
    if ltb ms 100
    then 100
    else if ltb max_http_request_timeout_ms ms
    then max_http_request_timeout_ms
    else ms

unfoldable pub normalize_http_request_timeout : ℤ → ℕ
normalize_http_request_timeout (pos zero) = default_http_request_timeout_ms
normalize_http_request_timeout (pos (suc ms)) = clamped_timeout (suc ms)
normalize_http_request_timeout (negsuc n) = default_http_request_timeout_ms

unfoldable pub validate_http_hook_script : Text → Option HttpError
validate_http_hook_script script =
    if ltb max_http_hook_script (byte_len script) then some script_too_long else none

unfoldable pub http_collection_environment :
    CaseTable → EnvironmentLibrary → Text → Option Stack → Text
http_collection_environment t lib collection_env (some stack) =
    member_environment_name stack.environment []
http_collection_environment t lib collection_env none =
    if not (is_empty (trim_space collection_env))
    then to_lower t (trim_space collection_env)
    else default_environment_name_in lib.names

abbrev stack_layer : Option Stack → Text → Row → Row
stack_layer none name out = out
stack_layer (some stack) name out = copy_into out (layer_values stack.env name)

unfoldable pub resolve_http_request_vars :
    CaseTable → EnvironmentLibrary → Text → Option Stack → Text × Row
unfolding http_collection_environment
resolve_http_request_vars t lib collection_env stack =
    let name = http_collection_environment t lib collection_env stack in
    (name, stack_layer stack name (copy_into [] (layer_values lib.values name)))

-- The environment field of an HTTPCollection.
unfoldable pub remap_http_collection_environment : Text → Text → Text → Text
remap_http_collection_environment environment deleted fallback =
    if text_eq environment deleted then fallback else environment
