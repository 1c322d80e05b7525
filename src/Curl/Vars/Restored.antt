-- ===== src/Curl/Vars/Restored.antt =====
-- A URL that RewriteURLWithVars of internal/domain/curl.go has rewritten is sent as it was.
use agent_shell.Base.{
  ltb, Bool-cases, or-false, length, drop, all, All, Text, lit, is_empty, byte_len, has_prefix,
  Distinct, lookup, keys, lookup_each, ok, has_part, ℕ, zero, suc, ◌≡◌, refl, inl, inr, true, false,
  not, ◌||◌, some, List, [], ◌∷◌, ◌++◌, arith, lookup-All, ap, ◌∙◌,
}
use agent_shell.Curl.Vars.{ends_part, Best, better, best_of, replaced, rewrite_url_with_vars}
use agent_shell.Env.Names.{valid_env_key}
use agent_shell.Http.Interpolate.{nothing_filled, interpolate, fill, filled}
use agent_shell.Http.Interpolate.Plain.{fill-plain, braced, fill-braced}

-- The best value so far is one of the environment's and stands at the front of the URL.
abbrev IsFront : Text → List (Text × Text) → Best → Type 0
IsFront raw vars (key, value) =
    is_empty key ≡ false → (lookup key vars ≡ some value) × (has_prefix raw value ≡ true)

better-IsFront :
    (raw key value : Text) (vars : List (Text × Text)) (best : Best)
    → lookup key vars ≡ some value
    → IsFront raw vars best
    → IsFront raw vars (better raw key value best)
better-IsFront raw key value vars (best_key, best_value) found front =
    elim (Bool-cases (is_empty value || not (has_prefix raw value))) [
      | inl passed ↦ rw passed front
      | inr fits_front ↦ elim (Bool-cases (ends_part (drop (length value) raw))) [
        | inr inside ↦ rw (fits_front, inside) front
        | inl whole ↦ elim (Bool-cases (ltb (byte_len best_value) (byte_len value))) [
          | inr shorter ↦ rw (fits_front, whole, shorter) front
          | inl longer ↦ rw (fits_front, whole, longer) (λ given. (found, ground arith))
        ]
      ]
    ]

best_of-IsFront :
    (raw : Text) (vars more : List (Text × Text)) (best : Best)
    → All (λ c. lookup c.0 vars ≡ some c.1) more
    → IsFront raw vars best
    → IsFront raw vars (best_of raw more best)
unfolding best_of
best_of-IsFront raw vars [] best all front = front
best_of-IsFront raw vars ((key, value) ∷ more) best (found, all) front =
    best_of-IsFront raw vars more (better raw key value best) all
      (better-IsFront raw key value vars best found front)

prefix-drop : (s p : Text) → has_prefix s p ≡ true → p ++ drop (length p) s ≡ s
unfolding has_prefix
prefix-drop s [] h = refl
prefix-drop [] (d ∷ p) h = cc
prefix-drop (c ∷ s) (d ∷ p) h = ground (arith, prefix-drop s p)

-- What is left of a text without `{{` is without it too.
has_part-drop : (n : ℕ) (s part : Text) → has_part s part ≡ false → has_part (drop n s) part ≡ false
unfolding has_part
has_part-drop zero s part h = h
has_part-drop (suc n) [] part h = h
has_part-drop (suc n) (c ∷ s) part h =
    has_part-drop n s part (or-false (has_prefix (c ∷ s) part) (has_part s part) h).1

-- A text without placeholders is its own interpolation.
pub interpolate-plain :
    (raw : Text) (vars : List (Text × Text))
    → has_part raw (lit "{{") ≡ false
    → interpolate raw vars ≡ ok raw
unfolding interpolate
interpolate-plain raw vars h = rw (fill-plain vars raw nothing_filled h) (rw h refl)

interpolate-replaced :
    (raw : Text) (vars : List (Text × Text)) (best : Best)
    → All (λ c. valid_env_key c.0 ≡ true) vars
    → has_part raw (lit "{{") ≡ false
    → IsFront raw vars best
    → interpolate (replaced raw best) vars ≡ ok raw
unfolding interpolate
interpolate-replaced raw vars (key, value) valid plain front = elim (Bool-cases (is_empty key)) [
  | inl blank ↦ rw blank (interpolate-plain raw vars plain)
  | inr given ↦
      let (found, fits_front) = front given in
      let rest = drop (length value) raw in
      let whole : value ++ rest ≡ raw = prefix-drop raw value fits_front in
      let key_valid = lookup-All (λ k v. valid_env_key k ≡ true) vars valid key value found in
      let after = has_part-drop (length value) raw (lit "{{") plain in
      let done : fill vars 0 (braced key ++ rest) nothing_filled
          ≡ record { out = raw; missing = [] } =
        fill-braced vars key value rest nothing_filled key_valid found
        ∙ fill-plain vars rest (record { out = value; missing = [] }) after
        ∙ ap (λ o. record { out = o; missing = [] }) whole in
      rw given (ap (λ f. filled f f.missing) done ∙ rw plain refl)
]

-- A URL without placeholders, rewritten for an environment whose keys are valid and distinct, is sent
-- to the same place: interpolating it in that environment gives it back.
pub interpolate-rewrite_url_with_vars :
    (raw : Text) (vars : List (Text × Text))
    → All (λ c. valid_env_key c.0 ≡ true) vars
    → Distinct (keys vars)
    → has_part raw (lit "{{") ≡ false
    → interpolate (rewrite_url_with_vars raw vars) vars ≡ ok raw
unfolding rewrite_url_with_vars
interpolate-rewrite_url_with_vars raw vars valid d plain =
    interpolate-replaced raw vars (best_of raw vars ([], [])) valid plain
      (best_of-IsFront raw vars vars ([], []) (lookup_each vars d) (λ given. cc))
