-- ===== src/Env/Redact/RoundTrip.antt =====
-- Redaction hides each secret, and saving a redacted library back restores the secrets.
use agent_shell.Base.{
  map_some, map_some-eq-some, All, Text, text_eq_refl, text_eq_iff, contains, Distinct, lookup,
  lookup_each, ◌≡◌, refl, sym, ap, ◌∙◌, subst, ◌⊎◌, inl, inr, Bool, true, false, some, List, [],
  ◌∷◌, arith,
}
use agent_shell.Env.Library.{Row, EnvironmentLibrary}
use agent_shell.Env.Library.Normal.{IsRow, IsNormal}
use agent_shell.Env.Redact.{
  redacted_secret, secret_key_set, redact_values, redact_environment_library, restored_value,
  restore_values, restore_redacted_secrets, restore_with,
}
use agent_shell.Env.Redact.Maps.{
  redacted_value, map_row, map_values, keys-map_row, keys-map_values, map_row-ne-nil, RowsOk,
  redacted, redact_values-map, restored, restore_values-map,
}
use agent_shell.Runs.Observe.Evidence.{shows}
use agent_shell.Stacks.Order.Table.{known}

RowsOk-redacted :
    (secrets : Text → Bool) (values : List (Text × Row))
    → RowsOk values
    → RowsOk (map_values (redacted secrets) values)
RowsOk-redacted secrets [] h = tt
RowsOk-redacted secrets ((key, row) ∷ values) ((filled, d), h) = (
  (map_row-ne-nil _ row filled, subst Distinct (sym (keys-map_row _ row)) d),
  RowsOk-redacted secrets values h,
)

-- One cell survives the trip, and so do a row and the values.
restored-redacted_value :
    (secret : Bool) (full : Row) (env value : Text)
    → lookup env full ≡ some value
    → restored_value secret (some full) env (redacted_value secret value) ≡ value
unfolding restored_value
restored-redacted_value secret full env [] e = ground (arith, text_eq_iff [] redacted_secret)
restored-redacted_value secret full env (c ∷ value) e = ground (arith, text_eq_refl redacted_secret)

restored-redacted_row :
    (secret : Bool) (full row : Row)
    → All (λ c. lookup c.0 full ≡ some c.1) row
    → map_row (restored_value secret (some full)) (map_row (λ _. redacted_value secret) row) ≡ row
restored-redacted_row secret full [] h = refl
restored-redacted_row secret full ((env, value) ∷ row) (e, h) =
    cc (restored-redacted_value secret full env value e, restored-redacted_row secret full row h)

restored-redacted_values :
    (secrets : Text → Bool) (full values : List (Text × Row))
    → RowsOk values
    → All (λ c. lookup c.0 full ≡ some c.1) values
    → map_values (restored secrets full) (map_values (redacted secrets) values) ≡ values
restored-redacted_values secrets full [] _ h = refl
restored-redacted_values secrets full ((key, row) ∷ values) ((filled, d), r) (e, h) = rw e (
    cc (
      restored-redacted_row (secrets key) row row (lookup_each row d),
      restored-redacted_values secrets full values r h,
    ))

rows-RowsOk :
    (names : List Text) (values : List (Text × Row))
    → All (λ v. IsRow names v.1) values
    → RowsOk values
rows-RowsOk names [] h = tt
rows-RowsOk names ((key, row) ∷ values) ((filled, d, known), h) =
    ((filled, d), rows-RowsOk names values h)

redacted_library :
    (lib : EnvironmentLibrary)
    → IsNormal lib
    → (redact_environment_library lib).values
      ≡ map_values (redacted (secret_key_set lib.secret_keys)) lib.values
unfolding redact_environment_library
redacted_library lib n =
    redact_values-map (secret_key_set lib.secret_keys) lib.values []
      (rows-RowsOk lib.names lib.values n.rows) n.values_distinct

restore_values-redacted :
    (secrets : Text → Bool) (lib : EnvironmentLibrary)
    → IsNormal lib
    → restore_values secrets lib.values [] (map_values (redacted secrets) lib.values) ≡ lib.values
restore_values-redacted secrets lib n =
    let rows = rows-RowsOk lib.names lib.values n.rows in
    let d =
      subst Distinct (sym (keys-map_values (redacted secrets) lib.values)) n.values_distinct in
    restore_values-map secrets lib.values (map_values (redacted secrets) lib.values) []
      (RowsOk-redacted secrets lib.values rows) d
    ∙ restored-redacted_values secrets lib.values lib.values rows
        (lookup_each lib.values n.values_distinct)

-- With no secret key nothing is redacted.
redacted_none :
    (values : List (Text × Row)) → map_values (redacted (secret_key_set [])) values ≡ values
unfolding secret_key_set contains
redacted_none [] = refl
redacted_none ((key, row) ∷ values) = cc (redacted_row_none row, redacted_none values)
  where
    redacted_row_none : (r : Row) → map_row (λ _. redacted_value false) r ≡ r
    redacted_row_none [] = refl
    redacted_row_none ((env, value) ∷ r) = ap (λ t. (env, value) ∷ t) (redacted_row_none r)

restore_with-eq :
    (ks : List Text) (lib : EnvironmentLibrary) (values : List (Text × Row))
    → restore_values (secret_key_set ks) lib.values [] values ≡ lib.values
    → (ks ≡ [] → values ≡ lib.values)
    → restore_with ks lib (record lib { values = values }) ≡ lib
restore_with-eq [] lib values h none_secret = λ i. record lib { values = none_secret refl i }
restore_with-eq (k ∷ ks) lib values h none_secret = λ i. record lib { values = h i }

-- A normalised library that goes out redacted and comes back unchanged is restored to what was
-- stored, whatever its secrets are.
pub restore-redact :
    (lib : EnvironmentLibrary)
    → IsNormal lib
    → restore_redacted_secrets lib (redact_environment_library lib) ≡ lib
unfolding restore_redacted_secrets redact_environment_library
restore-redact lib n =
    let secrets = secret_key_set lib.secret_keys in
    let shown = redacted_library lib n in
    restore_with-eq lib.secret_keys lib (redact_values secrets [] lib.values)
      (ap (restore_values secrets lib.values []) shown ∙ restore_values-redacted secrets lib n)
      (λ e. shown ∙ (rw e (redacted_none lib.values)))

lookup-map_values :
    (f : Text → Row → Row) (key : Text) (values : List (Text × Row))
    → lookup key (map_values f values) ≡ map_some (f key) (lookup key values)
unfolding lookup
lookup-map_values f key [] = refl
lookup-map_values f key ((j, row) ∷ values) =
    ground (arith, text_eq_iff j key, lookup-map_values f key values)

lookup-map_row :
    (g : Text → Text) (env : Text) (row : Row)
    → lookup env (map_row (λ _. g) row) ≡ map_some g (lookup env row)
unfolding lookup
lookup-map_row g env [] = refl
lookup-map_row g env ((j, value) ∷ row) = ground (arith, lookup-map_row g env row)

redacted_value-hides :
    (secret : Bool) (hidden value : Text)
    → secret ≡ true
    → redacted_value secret hidden ≡ value
    → (value ≡ []) ⊎ (value ≡ redacted_secret)
redacted_value-hides secret [] value h e = inl (ground arith)
redacted_value-hides secret (c ∷ hidden) value h e = inr (ground arith)

-- In the redacted library a secret key shows no value but "***" and the empty text.
pub redact-hides :
    (lib : EnvironmentLibrary) (key env value : Text) (row : Row)
    → IsNormal lib
    → contains lib.secret_keys key ≡ true
    → lookup key (redact_environment_library lib).values ≡ some row
    → lookup env row ≡ some value
    → (value ≡ []) ⊎ (value ≡ redacted_secret)
unfolding secret_key_set
redact-hides lib key env value row n secret e f =
    let secrets = secret_key_set lib.secret_keys in
    let shown = sym (ap (lookup key) (redacted_library lib n)) ∙ e in
    let (plain, found, same) =
      map_some-eq-some (redacted secrets key) (lookup key lib.values) row
        (sym (lookup-map_values (redacted secrets) key lib.values) ∙ shown) in
    let (hidden, there, shows) =
      map_some-eq-some (redacted_value (secrets key)) (lookup env plain) value (
        sym (lookup-map_row (redacted_value (secrets key)) env plain) ∙ ap (lookup env) same ∙ f) in
    redacted_value-hides (secrets key) hidden value secret shows
