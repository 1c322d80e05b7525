-- ===== src/Tests/Environments.antt =====
-- Environments of a small workspace.
use agent_shell.Base.{
  or_else, pos, Text, lit, trim_space, CaseTable, contains, lookup, ◌≡◌, refl, ◌⊎◌, true, List, [],
  ◌∷◌, text_eq, to_lower, insert, text_eq_iff, sym, ◌∙◌, ◌≢◌, false, arith,
}
use agent_shell.Env.Hook.{hook_writes, apply_http_hook_env}
use agent_shell.Env.Hook.Effect.{IsOverlaid, apply_http_hook_env-IsOverlaid}
use agent_shell.Env.Layers.{StackMember, Stack, member_environment_name, resolve_stack_member_env}
use agent_shell.Env.Layers.Precedence.{value_at, lookup-resolve_stack_member_env}
use agent_shell.Env.Library.{Row, EnvironmentLibrary, normalize_environment_library}
use agent_shell.Env.Library.Normal.{IsNormal, normalize_environment_library-IsNormal}
use agent_shell.Env.Names.{env_name_matches, valid_environment_name, valid_env_key}
use agent_shell.Env.Redact.{redacted_secret, redact_environment_library, restore_redacted_secrets}
use agent_shell.Env.Redact.RoundTrip.{restore-redact, redact-hides}

abbrev no_case : CaseTable
no_case = record { lower = λ c. c; upper = λ c. c }

abbrev dev : Text
dev = lit "dev"

abbrev live : Text
live = lit "live"

abbrev url : Text
url = lit "API_URL"

abbrev token : Text
token = lit "TOKEN"

abbrev small_library : EnvironmentLibrary
small_library = record {
  names = dev ∷ live ∷ [];
  keys = url ∷ token ∷ [];
  secret_keys = token ∷ [];
  values =
      (url, (dev, lit "http://a") ∷ (live, lit "http://b") ∷ [])
      ∷ (token, (dev, lit "s3cret") ∷ [])
      ∷ [];
}

small_library-IsNormal : IsNormal small_library
unfolding normalize_environment_library to_lower trim_space text_eq valid_environment_name
    env_name_matches contains valid_env_key insert
small_library-IsNormal =
    normalize_environment_library-IsNormal no_case small_library small_library refl

-- Names and keys come out trimmed, and the values of unknown keys are dropped.
abbrev untidy_library : EnvironmentLibrary
untidy_library = record {
  names = lit " Dev " ∷ [];
  keys = lit " TOKEN" ∷ [];
  secret_keys = [];
  values = (lit "OTHER", (dev, lit "x") ∷ []) ∷ [];
}

normalize_environment_library-IsNormal_example :
    IsNormal (record { names = dev ∷ []; keys = token ∷ []; secret_keys = []; values = [] })
unfolding normalize_environment_library to_lower trim_space text_eq valid_environment_name
    env_name_matches contains valid_env_key
normalize_environment_library-IsNormal_example =
    normalize_environment_library-IsNormal no_case untidy_library
      (record { names = dev ∷ []; keys = token ∷ []; secret_keys = []; values = [] }) refl

restore-redact_example :
    restore_redacted_secrets small_library (redact_environment_library small_library)
    ≡ small_library
restore-redact_example = restore-redact small_library small_library-IsNormal

redact-hides_example : (redacted_secret ≡ []) ⊎ (redacted_secret ≡ redacted_secret)
unfolding redact_environment_library contains lookup text_eq insert
redact-hides_example =
    redact-hides small_library token dev redacted_secret ((dev, redacted_secret) ∷ [])
      small_library-IsNormal refl refl refl

abbrev api_member : StackMember
api_member = record {
  command_id = lit "api";
  position = 0;
  depends_on = [];
  wait_for = [];
  wait_timeout_ms = pos 0;
  environment = live;
  env = (lit "PORT", lit "80") ∷ [];
}

abbrev stack_extras : List (Text × Row)
stack_extras = (url, (live, lit "http://c") ∷ []) ∷ []

abbrev command_env : Row
command_env = (lit "PORT", lit "1") ∷ (lit "HOME", lit "/") ∷ []

lookup-resolve_stack_member_env_example :
    lookup url (resolve_stack_member_env small_library dev stack_extras api_member command_env)
    ≡ or_else (lookup url api_member.env) (
        or_else (value_at stack_extras url (member_environment_name dev live)) (
          or_else
            (value_at small_library.values url (member_environment_name dev live))
            (lookup url command_env)))
unfolding contains text_eq
lookup-resolve_stack_member_env_example =
    lookup-resolve_stack_member_env small_library dev stack_extras api_member command_env url
      (refl, (refl, tt)) (refl, tt) (refl, tt) (refl, (refl, tt))

abbrev small_stack : Stack
small_stack = record {
  id = lit "s";
  name = lit "S";
  start_strategy = [];
  failure_policy = [];
  members = api_member ∷ [];
  depends_on_stacks = [];
  environment = dev;
  env = [];
}

texts_differ : (s t : Text) → text_eq s t ≡ false → s ≢ t
texts_differ s t h e = absurd (ground (arith, text_eq_iff s t))

abbrev seen_before : Row
seen_before = (url, lit "http://a") ∷ []

abbrev seen_after : Row
seen_after = (url, lit "http://z") ∷ []

seen_writes : hook_writes seen_before [] seen_after ≡ seen_after
unfolding hook_writes valid_env_key trim_space text_eq lookup insert
seen_writes = refl

seen_some : hook_writes seen_before [] seen_after ≢ []
seen_some e = let nothing : seen_after ≡ [] = sym seen_writes ∙ e in cc

dev_valid : valid_environment_name dev ≡ true
unfolding valid_environment_name env_name_matches text_eq
dev_valid = refl

dev_named : contains small_library.names dev ≡ true
unfolding contains text_eq
dev_named = refl

apply_http_hook_env-IsOverlaid_example :
    ((apply_http_hook_env no_case small_library dev seen_before seen_after).1 ≡ true)
    × IsOverlaid dev seen_before seen_after small_library
        (apply_http_hook_env no_case small_library dev seen_before seen_after).0
unfolding contains trim_space
apply_http_hook_env-IsOverlaid_example =
    apply_http_hook_env-IsOverlaid no_case small_library dev seen_before seen_after
      small_library-IsNormal dev_valid dev_named (refl, tt) seen_some
