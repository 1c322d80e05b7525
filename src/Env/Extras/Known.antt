-- ===== src/Env/Extras/Known.antt =====
-- What the loops over a stack's extra values let through.
use agent_shell.Base.{
  Bool-cases, any, All, Text, text_eq, text_eq_refl, is_empty, trim_space, CaseTable, to_lower,
  contains, Distinct, insert, keys, Distinct-insert, All-keys-insert, All-insert, >>=-eq-ok,
  ok-injective, ok, err, ◌≡◌, refl, subst, ◌≢◌, inl, inr, true, List, [], ◌∷◌, arith,
}
use agent_shell.Env.Extras.{
  normalize_extra_row, normalize_extras_from, normalize_stack_extras, normalize_stack_environment,
}
use agent_shell.Env.Library.{Row, put_row, invalid_key}
use agent_shell.Env.Names.{default_environment_name, valid_env_key, default_environment_name_in}

-- A row that names allowed environments only, each once.
abbrev pub IsExtraRow : List Text → Row → Type 0
IsExtraRow allowed row = Distinct (keys row) × All (λ e. contains allowed e ≡ true) (keys row)

normalize_extra_row-known :
    (t : CaseTable) (allowed : List Text) (row by_env out : Row)
    → IsExtraRow allowed row
    → normalize_extra_row t allowed row by_env ≡ ok out
    → IsExtraRow allowed out
unfolding normalize_extra_row
normalize_extra_row-known t allowed row [] out h e = ground arith
normalize_extra_row-known t allowed row ((raw, value) ∷ by_env) out (d, h) e =
    let env = to_lower t (trim_space raw) in
    ground (
      arith,
      normalize_extra_row-known t allowed row by_env out,
      normalize_extra_row-known t allowed (insert env value row) by_env out,
      Distinct-insert env value row d,
      All-keys-insert (λ e. contains allowed e ≡ true) env value row,
    )

-- The extras of a stack: valid keys, each once, and no row that is empty or names an unknown
-- environment.
pub record AreExtras (allowed : List Text) (extras : List (Text × Row)) : Type 0 where
  pub distinct : Distinct (keys extras)
  pub valid : All (λ k. valid_env_key k ≡ true) (keys extras)
  pub rows : All (λ v. (v.1 ≢ []) × IsExtraRow allowed v.1) extras

put_row-AreExtras :
    (allowed : List Text) (key : Text) (row : Row) (out : List (Text × Row))
    → valid_env_key key ≡ true
    → IsExtraRow allowed row
    → AreExtras allowed out
    → AreExtras allowed (put_row key row out)
put_row-AreExtras allowed key [] out k r x = x
put_row-AreExtras allowed key (cell ∷ row) out k r x = record {
  distinct = Distinct-insert key (cell ∷ row) out x.distinct;
  valid = All-keys-insert (λ k. valid_env_key k ≡ true) key (cell ∷ row) out k x.valid;
  rows =
      All-insert (λ r. (r ≢ []) × IsExtraRow allowed r) key (cell ∷ row) out ((λ e. cc), r) x.rows;
}

normalize_extras_from-AreExtras :
    (t : CaseTable) (allowed : List Text) (out extras result : List (Text × Row))
    → AreExtras allowed out
    → normalize_extras_from t allowed out extras ≡ ok result
    → AreExtras allowed result
unfolding normalize_extras_from
normalize_extras_from-AreExtras t allowed out [] result x e =
    subst (AreExtras allowed) (ok-injective out result e) x
normalize_extras_from-AreExtras t allowed out ((raw, by_env) ∷ extras) result x e =
    elim (Bool-cases (is_empty (trim_space raw))) [
      | inl blank ↦ normalize_extras_from-AreExtras t allowed out extras result x (rw blank at e)
      | inr some_key ↦ elim (Bool-cases (valid_env_key (trim_space raw))) [
        | inl ok_key ↦
            let e' = rw (some_key, ok_key) at e in
            let (row, row_ok, rest) =
              >>=-eq-ok (normalize_extra_row t allowed [] by_env)
                (λ row. normalize_extras_from t allowed (put_row (trim_space raw) row out) extras)
                e' in
            normalize_extras_from-AreExtras t allowed (put_row (trim_space raw) row out) extras
              result
              (put_row-AreExtras allowed (trim_space raw) row out ok_key
                (normalize_extra_row-known t allowed [] by_env row (tt, tt) row_ok) x)
              rest
        | inr bad_key ↦ absurd (unusable (rw (some_key, bad_key) at e))
      ]
    ]
  where
    unusable : err (invalid_key (trim_space raw)) ≡ ok result → ⊥
    unusable h = cc

-- The extras that are accepted have valid keys, no empty row, and only environments of the library.
pub normalize_stack_extras-AreExtras :
    (t : CaseTable) (extras : List (Text × Row)) (names : List Text) (out : List (Text × Row))
    → normalize_stack_extras t extras names ≡ ok out
    → AreExtras names out
unfolding normalize_stack_extras
normalize_stack_extras-AreExtras t extras names out e =
    normalize_extras_from-AreExtras t names [] extras out
      (record { distinct = tt; valid = tt; rows = tt }) e

any_eq : (names : List Text) (x : Text) → any (λ n. text_eq n x) names ≡ contains names x
unfolding contains
any_eq [] x = refl
any_eq (n ∷ names) x = ground (arith, any_eq names x)

default_in :
    (names : List Text) → names ≢ [] → contains names (default_environment_name_in names) ≡ true
unfolding default_environment_name_in contains
default_in [] h = absurd (h refl)
default_in (n ∷ names) h = ground (arith, any_eq names default_environment_name, text_eq_refl n)

-- The environment that a stack is given is one of the library's, also where the request is blank.
pub normalize_stack_environment-known :
    (t : CaseTable) (raw : Text) (names : List Text) (out : Text)
    → names ≢ []
    → normalize_stack_environment t raw names ≡ ok out
    → contains names out ≡ true
unfolding normalize_stack_environment
normalize_stack_environment-known t raw names out h e =
    ground (arith, default_in names h, any_eq names (to_lower t (trim_space raw)))
