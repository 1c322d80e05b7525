-- ===== src/Env/Redact/Maps.antt =====
-- The loops of the redaction and of the restoration as maps over the values of a library.
use agent_shell.Base.{
  if◌then◌else◌, All, Text, is_empty, Distinct, lookup, keys, insert_fresh, Distinct-keys-middle,
  Distinct-keys-replace, ◌≡◌, refl, ap, ◌≢◌, Bool, not, ◌&&◌, Option, List, [], ◌∷◌, ◌++◌,
  append_assoc, append-nil, arith,
}
use agent_shell.Env.Library.{Row}
use agent_shell.Env.Library.Fixed.{put_row_fresh}
use agent_shell.Env.Redact.{
  redacted_secret, redact_row, redact_values, restored_value, restore_row, restore_values,
}

abbrev pub redacted_value : Bool → Text → Text
redacted_value secret value = if secret && not (is_empty value) then redacted_secret else value

-- A row whose values are changed in place.
abbrev pub map_row : (Text → Text → Text) → Row → Row
map_row f [] = []
map_row f ((env, value) ∷ row) = (env, f env value) ∷ map_row f row

abbrev pub map_values : (Text → Row → Row) → List (Text × Row) → List (Text × Row)
map_values f [] = []
map_values f ((key, row) ∷ values) = (key, f key row) ∷ map_values f values

pub keys-map_row : (f : Text → Text → Text) (row : Row) → keys (map_row f row) ≡ keys row
keys-map_row f [] = refl
keys-map_row f ((env, value) ∷ row) = ap (λ ks. env ∷ ks) (keys-map_row f row)

pub keys-map_values :
    (f : Text → Row → Row) (values : List (Text × Row)) → keys (map_values f values) ≡ keys values
keys-map_values f [] = refl
keys-map_values f ((key, row) ∷ values) = ap (λ ks. key ∷ ks) (keys-map_values f values)

pub map_row-ne-nil : (f : Text → Text → Text) (row : Row) → row ≢ [] → map_row f row ≢ []
map_row-ne-nil f [] h e = h refl
map_row-ne-nil f ((env, value) ∷ row) h e = cc

-- The keys of a prefix that was replaced stay apart from the rest.
pub redact_row-map :
    (secret : Bool) (by_env row : Row)
    → Distinct (keys (row ++ by_env))
    → redact_row secret row by_env ≡ row ++ map_row (λ _. redacted_value secret) by_env
unfolding redact_row
redact_row-map secret [] row d = rw append-nil
redact_row-map secret ((env, value) ∷ by_env) row d =
    let new = redacted_value secret value in
    let assoc = append_assoc row ((env, new) ∷ []) (map_row (λ _. redacted_value secret) by_env) in
    ground (
      arith,
      insert_fresh env new row (Distinct-keys-middle row env value by_env d),
      assoc,
      redact_row-map secret by_env (row ++ (env, new) ∷ [])
          (Distinct-keys-replace row env value new by_env d),
    )

pub restore_row-map :
    (secret : Bool) (stored : Option Row) (by_env row : Row)
    → Distinct (keys (row ++ by_env))
    → restore_row secret stored row by_env ≡ row ++ map_row (restored_value secret stored) by_env
unfolding restore_row
restore_row-map secret stored [] row d = rw append-nil
restore_row-map secret stored ((env, value) ∷ by_env) row d =
    let new = restored_value secret stored env value in
    let assoc =
      append_assoc row ((env, new) ∷ []) (map_row (restored_value secret stored) by_env) in
    ground (
      arith,
      insert_fresh env new row (Distinct-keys-middle row env value by_env d),
      assoc,
      restore_row-map secret stored by_env (row ++ (env, new) ∷ [])
          (Distinct-keys-replace row env value new by_env d),
    )

-- Every row has a cell, and one for each environment.
abbrev pub RowsOk : List (Text × Row) → Type 0
RowsOk values = All (λ v. (v.1 ≢ []) × Distinct (keys v.1)) values

abbrev pub redacted : (Text → Bool) → Text → Row → Row
redacted secrets key row = map_row (λ _. redacted_value (secrets key)) row

pub redact_values-map :
    (secrets : Text → Bool) (given values : List (Text × Row))
    → RowsOk given
    → Distinct (keys (values ++ given))
    → redact_values secrets values given ≡ values ++ map_values (redacted secrets) given
unfolding redact_values
redact_values-map secrets [] values h d = rw append-nil
redact_values-map secrets ((key, row) ∷ given) values ((filled, rd), h) d =
    let new = redacted secrets key row in
    let assoc = append_assoc values ((key, new) ∷ []) (map_values (redacted secrets) given) in
    ground (
      arith,
      redact_row-map (secrets key) row [] rd,
      put_row_fresh key new values (map_row-ne-nil _ row filled)
          (Distinct-keys-middle values key row given d),
      assoc,
      redact_values-map secrets given (values ++ (key, new) ∷ []) h
          (Distinct-keys-replace values key row new given d),
    )

abbrev pub restored : (Text → Bool) → List (Text × Row) → Text → Row → Row
restored secrets stored key row = map_row (restored_value (secrets key) (lookup key stored)) row

pub restore_values-map :
    (secrets : Text → Bool) (stored given values : List (Text × Row))
    → RowsOk given
    → Distinct (keys (values ++ given))
    → restore_values secrets stored values given
      ≡ values ++ map_values (restored secrets stored) given
unfolding restore_values
restore_values-map secrets stored [] values h d = rw append-nil
restore_values-map secrets stored ((key, row) ∷ given) values ((filled, rd), h) d =
    let new = restored secrets stored key row in
    let assoc =
      append_assoc values ((key, new) ∷ []) (map_values (restored secrets stored) given) in
    ground (
      arith,
      restore_row-map (secrets key) (lookup key stored) row [] rd,
      put_row_fresh key new values (map_row-ne-nil _ row filled)
          (Distinct-keys-middle values key row given d),
      assoc,
      restore_values-map secrets stored given (values ++ (key, new) ∷ []) h
          (Distinct-keys-replace values key row new given d),
    )
