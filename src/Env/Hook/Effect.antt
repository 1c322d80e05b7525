-- ===== src/Env/Hook/Effect.antt =====
-- Which values a hook's changes reach, and when the library stays as it was.
use agent_shell.Base.{
  if◌then◌else◌, or_else, get_or, Text, text_eq, text_eq_iff, trim_space, CaseTable, contains,
  Distinct, lookup, insert, keys, lookup-insert, lookup_fresh, ◌≡◌, refl, Bool, true, false, not,
  ◌&&◌, ◌||◌, Option, none, some, List, [], ◌∷◌, ◌++◌, arith, or_else-none, ap, ◌∙◌, ◌≢◌,
}
use agent_shell.Env.Hook.{
  value_or_empty, hook_writes, write_value, apply_writes, with_writes, apply_http_hook_env,
  if_written,
}
use agent_shell.Env.Hook.Writes.{
  AreWrites, hook_writes-AreWrites, AllIn-keys_grow, apply_writes-Written,
}
use agent_shell.Env.Layers.Precedence.{value_at}
use agent_shell.Env.Library.{Row, EnvironmentLibrary}
use agent_shell.Env.Library.Fixed.{normalize_environment_library_fixed}
use agent_shell.Env.Library.Normal.{IsNormal}
use agent_shell.Env.Names.{valid_env_key, valid_environment_name, valid_name_kept}

-- The value that a hook changed at a key, where it changed one.
abbrev pub changed_if : Bool → Text → Option Text → Option Text
changed_if valid old none = none
changed_if valid old (some value) = if not valid || text_eq old value then none else some value

-- The values that a script has set, at their keys without the space round them.
abbrev pub trimmed_keys : Row → Row
trimmed_keys [] = []
trimmed_keys ((raw, value) ∷ m) = (trim_space raw, value) ∷ trimmed_keys m

abbrev pub changed_value : Row → Row → Text → Option Text
changed_value before after key =
    changed_if (valid_env_key key) (value_or_empty key before) (lookup key (trimmed_keys after))

lookup-hook_writes :
    (before : Row) (j : Text) (writes after : Row)
    → Distinct (keys (trimmed_keys after))
    → lookup j (hook_writes before writes after)
      ≡ or_else (changed_value before after j) (lookup j writes)
unfolding hook_writes lookup
lookup-hook_writes before j writes [] d = refl
lookup-hook_writes before j writes ((raw, value) ∷ after) (fresh, d) = ground (
  arith,
  lookup-hook_writes before j writes after d,
  lookup-hook_writes before j (insert (trim_space raw) value writes) after d,
  lookup-insert (trim_space raw) j value writes,
  text_eq_iff (trim_space raw) j,
  lookup_fresh (trim_space raw) (trimmed_keys after) fresh,
)

value_at-write_value :
    (env key value j e : Text) (values : List (Text × Row))
    → value_at (write_value env key value values) j e
      ≡ (if text_eq key j && text_eq env e then some value else value_at values j e)
unfolding lookup
value_at-write_value env key value j e values = ground (
  arith,
  lookup-insert key j (insert env value (get_or (lookup key values) [])) values,
  text_eq_iff key j,
  lookup-insert env e value (get_or (lookup key values) []),
)

-- The written value at its environment, and the old one elsewhere.
abbrev pub overlaid : Text → Text → Option Text → Option Text → Option Text
overlaid env e new old = if text_eq env e then or_else new old else old

value_at-apply_writes :
    (env j e : Text) (writes : Row) (ks : List Text) (values : List (Text × Row))
    → Distinct (keys writes)
    → value_at (apply_writes env writes ks values).1 j e
      ≡ overlaid env e (lookup j writes) (value_at values j e)
unfolding apply_writes lookup
value_at-apply_writes env j e [] ks values d = ground arith
value_at-apply_writes env j e ((key, value) ∷ writes) ks values (fresh, d) = ground (
  arith,
  value_at-apply_writes env j e writes (if contains ks key then ks else ks ++ key ∷ [])
      (write_value env key value values) d,
  value_at-write_value env key value j e values,
  text_eq_iff key j,
  lookup_fresh key writes fresh,
)

with_writes-IsNormal :
    (env : Text) (writes : Row) (lib : EnvironmentLibrary)
    → IsNormal lib
    → contains lib.names env ≡ true
    → AreWrites writes
    → IsNormal (with_writes env writes lib)
with_writes-IsNormal env writes lib n known w =
    let v = apply_writes-Written env lib.names known writes lib.keys lib.values w.1 (record {
      keys_valid = n.keys_valid;
      distinct = n.values_distinct;
      in_keys = n.values_known;
      rows = n.rows;
    }) in
    record {
      names_some = n.names_some;
      names_valid = n.names_valid;
      keys_valid = v.keys_valid;
      secrets_distinct = n.secrets_distinct;
      secrets_known =
          AllIn-keys_grow env writes lib.keys lib.values lib.secret_keys n.secrets_known;
      values_distinct = v.distinct;
      values_known = v.in_keys;
      rows = v.rows;
    }

if_written-eq :
    (t : CaseTable) (lib : EnvironmentLibrary) (env : Text) (writes : Row)
    → writes ≢ []
    → IsNormal (with_writes env writes lib)
    → if_written t lib env writes ≡ (with_writes env writes lib, true)
if_written-eq t lib env [] h n = absurd (h refl)
if_written-eq t lib env (w ∷ writes) h n =
    rw (normalize_environment_library_fixed t (with_writes env (w ∷ writes) lib) n)

-- What a hook's run makes of the library: names and secret keys stay, each key has the changed value
-- in the hook's environment, and nothing else changes.
pub record IsOverlaid (env : Text) (before after : Row) (lib out : EnvironmentLibrary)
    : Type 0 where
  pub normal : IsNormal out
  pub names_kept : out.names ≡ lib.names
  pub secrets_kept : out.secret_keys ≡ lib.secret_keys
  pub values_changed :
      (key e : Text)
      → value_at out.values key e
        ≡ overlaid env e (changed_value before after key) (value_at lib.values key e)

with_writes-IsOverlaid :
    (env : Text) (before after : Row) (lib : EnvironmentLibrary)
    → IsNormal lib
    → contains lib.names env ≡ true
    → Distinct (keys (trimmed_keys after))
    → IsOverlaid env before after lib (with_writes env (hook_writes before [] after) lib)
unfolding lookup
with_writes-IsOverlaid env before after lib n known d =
    let writes = hook_writes before [] after in
    let w = hook_writes-AreWrites before [] after (tt, tt) in
    record {
      normal = with_writes-IsNormal env writes lib n known w;
      names_kept = refl;
      secrets_kept = refl;
      values_changed = λ key e.
          value_at-apply_writes env key e writes lib.keys lib.values w.0
          ∙ ap (λ new. overlaid env e new (value_at lib.values key e))
              (lookup-hook_writes before key [] after d
                ∙ or_else-none (changed_value before after key));
    }

-- A hook that changed something in one of the environments of a normalised library, where no two keys
-- of its values differ only by the space round them, is applied: the library that comes out is overlaid
-- with exactly the changed values. A value counts as changed where its key without the space round it
-- is valid and the value is not the one that was there under that key before.
pub apply_http_hook_env-IsOverlaid :
    (t : CaseTable) (lib : EnvironmentLibrary) (env : Text) (before after : Row)
    → IsNormal lib
    → valid_environment_name env ≡ true
    → contains lib.names env ≡ true
    → Distinct (keys (trimmed_keys after))
    → hook_writes before [] after ≢ []
    → ((apply_http_hook_env t lib env before after).1 ≡ true)
      × IsOverlaid env before after lib (apply_http_hook_env t lib env before after).0
unfolding apply_http_hook_env
apply_http_hook_env-IsOverlaid t lib env before after n v known d wrote =
    let writes = hook_writes before [] after in
    let w = hook_writes-AreWrites before [] after (tt, tt) in
    rw
      (
        valid_name_kept t env v,
        v,
        if_written-eq t lib env writes wrote (with_writes-IsNormal env writes lib n known w),
      )
      (refl, with_writes-IsOverlaid env before after lib n known d)

-- A library that the hook leaves unchanged is returned as it was, whatever the reason.
pub apply_http_hook_env_unchanged :
    (t : CaseTable) (lib : EnvironmentLibrary) (env_name : Text) (before after : Row)
    → (apply_http_hook_env t lib env_name before after).1 ≡ false
    → (apply_http_hook_env t lib env_name before after).0 ≡ lib
unfolding apply_http_hook_env
apply_http_hook_env_unchanged t lib env_name before after h = ground arith
