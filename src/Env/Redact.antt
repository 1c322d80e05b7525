-- ===== src/Env/Redact.antt =====
-- Secrets in internal/domain/env.go: SecretKeySet, RedactEnvironmentLibrary and
-- RestoreRedactedSecrets.
pub mod Maps
pub mod RoundTrip
use agent_shell.Base.{
  ℕ, ◌≡◌, Bool, true, false, not, ◌&&◌, ◌||◌, Option, none, some, List, [], ◌∷◌, ◌++◌, ltb,
  if◌then◌else◌, Text, lit, text_eq, is_empty, byte_len, contains, lookup, insert, get_or,
}
use agent_shell.Env.Library.{Row, EnvironmentLibrary, put_row}

abbrev pub redacted_secret : Text
redacted_secret = lit "***"

-- A set of keys answers `secrets[key]`.
unfoldable pub secret_key_set : List Text → Text → Bool
secret_key_set ks key = contains ks key

-- The inner loop of RedactEnvironmentLibrary for one key.
unfoldable pub redact_row : Bool → Row → Row → Row
redact_row secret row [] = row
redact_row secret row ((env, value) ∷ by_env) =
    redact_row secret
      (insert env (if secret && not (is_empty value) then redacted_secret else value) row) by_env

unfoldable pub redact_values :
    (Text → Bool) → List (Text × Row) → List (Text × Row) → List (Text × Row)
unfolding redact_row
redact_values secrets values [] = values
redact_values secrets values ((key, by_env) ∷ given) =
    redact_values secrets (put_row key (redact_row (secrets key) [] by_env) values) given

unfoldable pub redact_environment_library : EnvironmentLibrary → EnvironmentLibrary
unfolding redact_values secret_key_set
redact_environment_library lib = record lib {
  values = redact_values (secret_key_set lib.secret_keys) [] lib.values;
}

-- What one incoming value becomes; `stored_row` is `stored.Values[key]`, none when it is missing.
unfoldable pub restored_value : Bool → Option Row → Text → Text → Text
restored_value secret none env value = value
restored_value secret (some stored_row) env value =
    if secret && text_eq value redacted_secret then get_or (lookup env stored_row) value else value

unfoldable pub restore_row : Bool → Option Row → Row → Row → Row
unfolding restored_value
restore_row secret stored_row row [] = row
restore_row secret stored_row row ((env, value) ∷ by_env) =
    restore_row secret stored_row (insert env (restored_value secret stored_row env value) row)
      by_env

unfoldable pub restore_values :
    (Text → Bool) → List (Text × Row) → List (Text × Row) → List (Text × Row) → List (Text × Row)
unfolding restore_row
restore_values secrets stored values [] = values
restore_values secrets stored values ((key, by_env) ∷ given) =
    restore_values secrets stored
      (put_row key (restore_row (secrets key) (lookup key stored) [] by_env) values) given

abbrev restore_with : List Text → EnvironmentLibrary → EnvironmentLibrary → EnvironmentLibrary
restore_with [] stored incoming = incoming
restore_with (key ∷ secret_keys) stored incoming = record incoming {
  values = restore_values (secret_key_set (key ∷ secret_keys)) stored.values [] incoming.values;
}

unfoldable pub restore_redacted_secrets :
    EnvironmentLibrary → EnvironmentLibrary → EnvironmentLibrary
unfolding restore_values secret_key_set
restore_redacted_secrets stored incoming = restore_with incoming.secret_keys stored incoming
