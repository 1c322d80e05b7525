-- ===== src/Env/Library/Normal.antt =====
-- What NormalizeEnvironmentLibrary returns is in normal form, and a library in normal form is
-- returned as it is.
use agent_shell.Base.{
  ◌≡◌, subst, ◌≢◌, inl, inr, true, List, [], ◌∷◌, ◌++◌, arith, All, All-append, Bool-cases, Text,
  trim_space, CaseTable, to_lower, contains, Distinct, Distinct-snoc, insert, All-keys-insert,
  All-insert, keys, Distinct-insert, ok, >>=-eq-ok, ok-injective,
}
use agent_shell.Env.Library.{
  Row, EnvironmentLibrary, normalize_names, normalize_keys, normalize_row, normalize_values,
  normalize_secrets, put_row, some_names, with_names_and_keys, normalize_environment_library,
}
use agent_shell.Env.Names.{valid_environment_name, valid_env_key}

abbrev pub AreNames : List Text → Type 0
AreNames names = All (λ n. valid_environment_name n ≡ true) names × Distinct names

abbrev pub AreKeys : List Text → Type 0
AreKeys ks = All (λ k. valid_env_key k ≡ true) ks × Distinct ks

abbrev pub AllIn : List Text → List Text → Type 0
AllIn known xs = All (λ x. contains known x ≡ true) xs

-- The row has a cell, one for each environment, and knows its environments.
abbrev pub IsRow : List Text → Row → Type 0
IsRow names row = (row ≢ []) × Distinct (keys row) × AllIn names (keys row)

pub record IsNormal (lib : EnvironmentLibrary) : Type 0 where
  pub names_some : lib.names ≢ []
  pub names_valid : AreNames lib.names
  pub keys_valid : AreKeys lib.keys
  pub secrets_distinct : Distinct lib.secret_keys
  pub secrets_known : AllIn lib.keys lib.secret_keys
  pub values_distinct : Distinct (keys lib.values)
  pub values_known : AllIn lib.keys (keys lib.values)
  pub rows : All (λ v. IsRow lib.names v.1) lib.values

normalize_names-AreNames :
    (t : CaseTable) (raws names out : List Text)
    → AreNames names
    → normalize_names t raws names ≡ ok out
    → AreNames out
unfolding normalize_names
normalize_names-AreNames t [] names out h e = ground arith
normalize_names-AreNames t (raw ∷ raws) names out (valid, distinct) e =
    let name = to_lower t (trim_space raw) in
    ground (
      arith,
      normalize_names-AreNames t raws names out,
      normalize_names-AreNames t raws (names ++ name ∷ []) out,
      All-append (λ n. valid_environment_name n ≡ true) names (name ∷ []) valid,
      Distinct-snoc names name distinct,
    )

normalize_keys-AreKeys :
    (raws ks out : List Text) → AreKeys ks → normalize_keys raws ks ≡ ok out → AreKeys out
unfolding normalize_keys
normalize_keys-AreKeys [] ks out h e = ground arith
normalize_keys-AreKeys (raw ∷ raws) ks out (valid, distinct) e =
    let key = trim_space raw in
    ground (
      arith,
      normalize_keys-AreKeys raws ks out,
      normalize_keys-AreKeys raws (ks ++ key ∷ []) out,
      All-append (λ k. valid_env_key k ≡ true) ks (key ∷ []) valid,
      Distinct-snoc ks key distinct,
    )

module _ (ks : List Text) where
  normalize_secrets-known :
      (secrets raws : List Text)
      → Distinct secrets
      → AllIn ks secrets
      → Distinct (normalize_secrets ks secrets raws) × AllIn ks (normalize_secrets ks secrets raws)
  unfolding normalize_secrets
  normalize_secrets-known secrets [] d h = (d, h)
  normalize_secrets-known secrets (raw ∷ raws) d h =
      let key = trim_space raw in
      ground (
        arith,
        normalize_secrets-known secrets raws,
        normalize_secrets-known (secrets ++ key ∷ []) raws,
        All-append (λ k. contains ks k ≡ true) secrets (key ∷ []) h,
        Distinct-snoc secrets key d,
      )

module _ (t : CaseTable) (names : List Text) where
  normalize_row-known :
      (row by_env : Row)
      → Distinct (keys row)
      → AllIn names (keys row)
      → Distinct (keys (normalize_row t names row by_env))
        × AllIn names (keys (normalize_row t names row by_env))
  unfolding normalize_row
  normalize_row-known row [] d h = (d, h)
  normalize_row-known row ((raw, value) ∷ by_env) d h =
      let env = to_lower t (trim_space raw) in
      ground (
        arith,
        normalize_row-known row by_env,
        normalize_row-known (insert env value row) by_env,
        All-keys-insert (λ e. contains names e ≡ true) env value row,
        Distinct-insert env value row d,
      )

  -- The invariant of the loop over the values.
  record AreValues (ks : List Text) (values : List (Text × Row)) : Type 0 where
    distinct : Distinct (keys values)
    known : AllIn ks (keys values)
    rows : All (λ v. IsRow names v.1) values

  put_row-AreValues :
      (ks : List Text) (key : Text) (row : Row) (values : List (Text × Row))
      → contains ks key ≡ true
      → Distinct (keys row)
      → AllIn names (keys row)
      → AreValues ks values
      → AreValues ks (put_row key row values)
  put_row-AreValues ks key [] values known d h v = v
  put_row-AreValues ks key (cell ∷ row) values known d h v = record {
    distinct = Distinct-insert key (cell ∷ row) values v.distinct;
    known = All-keys-insert (λ k. contains ks k ≡ true) key (cell ∷ row) values known v.known;
    rows = All-insert (IsRow names) key (cell ∷ row) values ((λ e. cc), d, h) v.rows;
  }

  normalize_values-AreValues :
      (ks : List Text) (values given : List (Text × Row))
      → AreValues ks values
      → AreValues ks (normalize_values t names ks values given)
  unfolding normalize_values
  normalize_values-AreValues ks values [] v = v
  normalize_values-AreValues ks values ((raw, by_env) ∷ given) v =
      let key = trim_space raw in
      let row = normalize_row t names [] by_env in
      let (d, h) = normalize_row-known [] by_env tt tt in
      elim (Bool-cases (contains ks key)) [
        | inl known ↦ rw known (
            normalize_values-AreValues ks (put_row key row values) given
              (put_row-AreValues ks key row values known d h v))
        | inr unlisted ↦ rw unlisted (normalize_values-AreValues ks values given v)
      ]

some_names-ok :
    (found names : List Text) → some_names found ≡ ok names → (found ≡ names) × (names ≢ [])
some_names-ok [] names e = cc
some_names-ok (n ∷ found) names e = let same = ok-injective (n ∷ found) names e in (same, λ h. cc)

with_names_and_keys-IsNormal :
    (t : CaseTable) (lib : EnvironmentLibrary) (names ks : List Text)
    → names ≢ []
    → AreNames names
    → AreKeys ks
    → IsNormal (with_names_and_keys t lib names ks)
with_names_and_keys-IsNormal t lib names ks filled n k =
    let v =
      normalize_values-AreValues t names ks [] lib.values
        (record { distinct = tt; known = tt; rows = tt }) in
    let (d, h) = normalize_secrets-known ks [] lib.secret_keys tt tt in
    record {
      names_some = filled;
      names_valid = n;
      keys_valid = k;
      secrets_distinct = d;
      secrets_known = h;
      values_distinct = v.distinct;
      values_known = v.known;
      rows = v.rows;
    }

-- Whatever the normalisation accepts comes out with at least one name, names and keys that are
-- valid and distinct, secret keys that are distinct keys of the library, and values only at known
-- keys and environments, with no empty row.
pub normalize_environment_library-IsNormal :
    (t : CaseTable) (lib out : EnvironmentLibrary)
    → normalize_environment_library t lib ≡ ok out
    → IsNormal out
unfolding normalize_environment_library
normalize_environment_library-IsNormal t lib out e =
    let (found, names_ok, e') = >>=-eq-ok (normalize_names t lib.names []) _ e in
    let (names, some_ok, f) = >>=-eq-ok (some_names found) _ e' in
    let (ks, keys_ok, g) = >>=-eq-ok (normalize_keys lib.keys []) _ f in
    let (same, filled) = some_names-ok found names some_ok in
    let valid = normalize_names-AreNames t lib.names [] found (tt, tt) names_ok in
    let ks_valid = normalize_keys-AreKeys lib.keys [] ks (tt, tt) keys_ok in
    subst IsNormal (ok-injective (with_names_and_keys t lib names ks) out g)
      (with_names_and_keys-IsNormal t lib names ks filled (subst AreNames same valid) ks_valid)
