-- ===== src/Env/Hook/Writes.antt =====
-- What a hook's changes do to the library.
use agent_shell.Base.{
  if◌then◌else◌, Bool-cases, get_or, All, All-append, Text, text_eq, trim_space, contains,
  contains-append, contains-snoc_self, Distinct, Distinct-snoc, lookup, insert, keys,
  Distinct-insert, All-keys-insert, All-insert, insert-ne-nil, ◌≡◌, refl, inl, inr, true, List, [],
  ◌∷◌, ◌++◌, arith,
}
use agent_shell.Env.Hook.{hook_writes, write_value, apply_writes}
use agent_shell.Env.Library.{Row}
use agent_shell.Env.Library.Normal.{AreKeys, AllIn, IsRow}
use agent_shell.Env.Names.{valid_env_key}

-- The writes: valid keys, each once.
abbrev pub AreWrites : Row → Type 0
AreWrites writes = Distinct (keys writes) × All (λ k. valid_env_key k ≡ true) (keys writes)

pub hook_writes-AreWrites :
    (before writes after : Row) → AreWrites writes → AreWrites (hook_writes before writes after)
unfolding hook_writes
hook_writes-AreWrites before writes [] h = h
hook_writes-AreWrites before writes ((raw, value) ∷ after) (d, h) =
    let key = trim_space raw in
    ground (
      arith,
      hook_writes-AreWrites before writes after,
      hook_writes-AreWrites before (insert key value writes) after,
      Distinct-insert key value writes d,
      All-keys-insert (λ k. valid_env_key k ≡ true) key value writes,
    )

AllIn-snoc :
    (ks : List Text) (key : Text) (xs : List Text) → AllIn ks xs → AllIn (ks ++ key ∷ []) xs
AllIn-snoc ks key [] h = tt
AllIn-snoc ks key (x ∷ xs) (e, h) =
    (ground (arith, contains-append ks (key ∷ []) x), AllIn-snoc ks key xs h)

pub AllIn-keys_grow :
    (env : Text) (writes : Row) (ks : List Text) (values : List (Text × Row)) (xs : List Text)
    → AllIn ks xs
    → AllIn (apply_writes env writes ks values).0 xs
unfolding apply_writes
AllIn-keys_grow env [] ks values xs h = h
AllIn-keys_grow env ((key, value) ∷ writes) ks values xs h =
    AllIn-keys_grow env writes (if contains ks key then ks else ks ++ key ∷ [])
      (write_value env key value values) xs
      (elim (Bool-cases (contains ks key)) [
        | inl old ↦ rw old h
        | inr new ↦ rw new (AllIn-snoc ks key xs h)
      ])

-- A library that is normal stays so when a value is written at a valid key in one of its
-- environments.
module _ (env : Text) (names : List Text) (known : contains names env ≡ true) where
  row-IsRow :
      (key : Text) (values : List (Text × Row)) (value : Text)
      → All (λ v. IsRow names v.1) values
      → IsRow names (insert env value (get_or (lookup key values) []))
  unfolding lookup insert contains
  row-IsRow key [] value h = ((λ e. cc), (refl, tt), (known, tt))
  row-IsRow key ((j, row) ∷ values) value ((filled, d, k), h) = elim (Bool-cases (text_eq j key)) [
    | inl same ↦ rw same (
      insert-ne-nil env value row,
      Distinct-insert env value row d,
      All-keys-insert (λ e. contains names e ≡ true) env value row known k,
    )
    | inr other ↦ rw other (row-IsRow key values value h)
  ]

  pub record Written (ks : List Text) (values : List (Text × Row)) : Type 0 where
    pub keys_valid : AreKeys ks
    pub distinct : Distinct (keys values)
    pub in_keys : AllIn ks (keys values)
    pub rows : All (λ v. IsRow names v.1) values

  Written-step :
      (key value : Text) (ks : List Text) (values : List (Text × Row))
      → valid_env_key key ≡ true
      → Written ks values
      → Written (if contains ks key then ks else ks ++ key ∷ []) (write_value env key value values)
  Written-step key value ks values v w =
      let row = insert env value (get_or (lookup key values) []) in
      let rows =
        All-insert (IsRow names) key row values (row-IsRow key values value w.rows) w.rows in
      let distinct = Distinct-insert key row values w.distinct in
      elim (Bool-cases (contains ks key)) [
        | inl old ↦ rw old (record {
          keys_valid = w.keys_valid;
          distinct = distinct;
          in_keys = All-keys-insert (λ k. contains ks k ≡ true) key row values old w.in_keys;
          rows = rows;
        })
        | inr new ↦ rw new (record {
          keys_valid = (
            All-append (λ k. valid_env_key k ≡ true) ks (key ∷ []) w.keys_valid.0 (v, tt),
            Distinct-snoc ks key w.keys_valid.1 new,
          );
          distinct = distinct;
          in_keys =
              All-keys-insert (λ k. contains (ks ++ key ∷ []) k ≡ true) key row values
                (contains-snoc_self ks key) (AllIn-snoc ks key (keys values) w.in_keys);
          rows = rows;
        })
      ]

  pub apply_writes-Written :
      (writes : Row) (ks : List Text) (values : List (Text × Row))
      → All (λ k. valid_env_key k ≡ true) (keys writes)
      → Written ks values
      → Written (apply_writes env writes ks values).0 (apply_writes env writes ks values).1
  unfolding apply_writes
  apply_writes-Written [] ks values h w = w
  apply_writes-Written ((key, value) ∷ writes) ks values (v, h) w =
      apply_writes-Written writes (if contains ks key then ks else ks ++ key ∷ [])
        (write_value env key value values) h (Written-step key value ks values v w)
