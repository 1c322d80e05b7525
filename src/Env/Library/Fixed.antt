-- ===== src/Env/Library/Fixed.antt =====
-- A library in normal form is a fixed point of NormalizeEnvironmentLibrary.
use agent_shell.Base.{
  ◌≡◌, refl, sym, subst, ◌≢◌, Bool, true, false, List, [], ◌∷◌, ◌++◌, arith, append_assoc,
  append-nil, All, Text, text_eq_iff, trim_space, CaseTable, to_lower, contains, Distinct,
  Distinct-middle, insert_fresh, keys, Distinct-keys-middle, ok,
}
use agent_shell.Env.Library.{
  Row, EnvironmentLibrary, normalize_names, normalize_keys, normalize_row, normalize_values,
  normalize_secrets, put_row, some_names, normalize_environment_library,
}
use agent_shell.Env.Library.Normal.{AllIn, IsRow, IsNormal}
use agent_shell.Env.Names.{
  valid_environment_name, valid_env_key, valid_name_kept, valid_key_kept, valid_name-ne-empty,
  valid_name-ne-reserved, valid_key-ne-empty,
}
use agent_shell.Stacks.Order.Table.{known}

normalize_names_fixed :
    (t : CaseTable) (raws names : List Text)
    → All (λ n. valid_environment_name n ≡ true) raws
    → Distinct (names ++ raws)
    → normalize_names t raws names ≡ ok (names ++ raws)
unfolding normalize_names
normalize_names_fixed t [] names h d = rw append-nil
normalize_names_fixed t (raw ∷ raws) names (h, hs) d =
    let assoc = append_assoc names (raw ∷ []) raws in
    ground (
      arith,
      valid_name_kept t raw h,
      valid_name-ne-empty raw h,
      valid_name-ne-reserved raw h,
      Distinct-middle names raw raws d,
      assoc,
      normalize_names_fixed t raws (names ++ raw ∷ []) hs (subst Distinct (sym assoc) d),
    )

normalize_keys_fixed :
    (raws ks : List Text)
    → All (λ k. valid_env_key k ≡ true) raws
    → Distinct (ks ++ raws)
    → normalize_keys raws ks ≡ ok (ks ++ raws)
unfolding normalize_keys
normalize_keys_fixed [] ks h d = rw append-nil
normalize_keys_fixed (raw ∷ raws) ks (h, hs) d =
    let assoc = append_assoc ks (raw ∷ []) raws in
    ground (
      arith,
      valid_key_kept raw h,
      valid_key-ne-empty raw h,
      Distinct-middle ks raw raws d,
      assoc,
      normalize_keys_fixed raws (ks ++ raw ∷ []) hs (subst Distinct (sym assoc) d),
    )

abbrev Kept : (Text → Text) → List Text → Type 0
Kept clean known = (x : Text) → contains known x ≡ true → clean x ≡ x

clean-Kept :
    (clean : Text → Text) (P : Text → Bool) (known : List Text)
    → ((x : Text) → P x ≡ true → clean x ≡ x)
    → All (λ x. P x ≡ true) known
    → Kept clean known
unfolding contains
clean-Kept clean P [] f h x e = cc
clean-Kept clean P (y ∷ known) f (h, hs) x e =
    ground (arith, f x, text_eq_iff y x, clean-Kept clean P known f hs x)

normalize_secrets_fixed :
    (ks raws secrets : List Text)
    → Kept trim_space ks
    → AllIn ks raws
    → Distinct (secrets ++ raws)
    → normalize_secrets ks secrets raws ≡ secrets ++ raws
unfolding normalize_secrets
normalize_secrets_fixed ks [] secrets f h d = rw append-nil
normalize_secrets_fixed ks (raw ∷ raws) secrets f (h, hs) d =
    let assoc = append_assoc secrets (raw ∷ []) raws in
    ground (
      arith,
      f raw h,
      Distinct-middle secrets raw raws d,
      assoc,
      normalize_secrets_fixed ks raws (secrets ++ raw ∷ []) f hs (subst Distinct (sym assoc) d),
    )

normalize_row_fixed :
    (t : CaseTable) (names : List Text) (by_env row : Row)
    → Kept (λ x. to_lower t (trim_space x)) names
    → AllIn names (keys by_env)
    → Distinct (keys (row ++ by_env))
    → normalize_row t names row by_env ≡ row ++ by_env
unfolding normalize_row
normalize_row_fixed t names [] row f h d = rw append-nil
normalize_row_fixed t names ((raw, v) ∷ by_env) row f (h, hs) d =
    let assoc = append_assoc row ((raw, v) ∷ []) by_env in
    ground (
      arith,
      f raw h,
      insert_fresh raw v row (Distinct-keys-middle row raw v by_env d),
      assoc,
      normalize_row_fixed t names by_env (row ++ (raw, v) ∷ []) f hs
          (subst (λ r. Distinct (keys r)) (sym assoc) d),
    )

pub put_row_fresh :
    (key : Text) (row : Row) (values : List (Text × Row))
    → row ≢ []
    → contains (keys values) key ≡ false
    → put_row key row values ≡ values ++ (key, row) ∷ []
put_row_fresh key [] values filled h = absurd (filled refl)
put_row_fresh key (cell ∷ row) values filled h = insert_fresh key (cell ∷ row) values h

normalize_values_fixed :
    (t : CaseTable) (names ks : List Text) (given values : List (Text × Row))
    → Kept trim_space ks
    → Kept (λ x. to_lower t (trim_space x)) names
    → AllIn ks (keys given)
    → All (λ v. IsRow names v.1) given
    → Distinct (keys (values ++ given))
    → normalize_values t names ks values given ≡ values ++ given
unfolding normalize_values
normalize_values_fixed t names ks [] values f g h r d = rw append-nil
normalize_values_fixed t names ks ((raw, row) ∷ given) values f g (h, hs) ((filled, rd, rk), rs) d =
    let assoc = append_assoc values ((raw, row) ∷ []) given in
    ground (
      arith,
      f raw h,
      normalize_row_fixed t names row [] g rk rd,
      put_row_fresh raw row values filled (Distinct-keys-middle values raw row given d),
      assoc,
      normalize_values_fixed t names ks given (values ++ (raw, row) ∷ []) f g hs rs
          (subst (λ m. Distinct (keys m)) (sym assoc) d),
    )

some_names_fixed : (names : List Text) → names ≢ [] → some_names names ≡ ok names
some_names_fixed [] h = absurd (h refl)
some_names_fixed (n ∷ names) h = refl

-- A library in normal form is accepted and returned as it is.
pub normalize_environment_library_fixed :
    (t : CaseTable) (lib : EnvironmentLibrary)
    → IsNormal lib
    → normalize_environment_library t lib ≡ ok lib
unfolding normalize_environment_library
normalize_environment_library_fixed t lib n =
    let kept_keys = clean-Kept trim_space valid_env_key lib.keys valid_key_kept n.keys_valid.0 in
    let kept_names =
      clean-Kept (λ x. to_lower t (trim_space x)) valid_environment_name lib.names
        (valid_name_kept t) n.names_valid.0 in
    rw (
      normalize_names_fixed t lib.names [] n.names_valid.0 n.names_valid.1,
      some_names_fixed lib.names n.names_some,
      normalize_keys_fixed lib.keys [] n.keys_valid.0 n.keys_valid.1,
      normalize_secrets_fixed lib.keys lib.secret_keys [] kept_keys n.secrets_known
          n.secrets_distinct,
      normalize_values_fixed t lib.names lib.keys lib.values [] kept_keys kept_names n.values_known
          n.rows n.values_distinct,
    )
