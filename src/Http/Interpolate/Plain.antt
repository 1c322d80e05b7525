-- ===== src/Http/Interpolate/Plain.antt =====
-- What Interpolate of internal/domain/http.go leaves as it is, and what it puts for a placeholder.
use agent_shell.Base.{
  and-true, or-false, length, length-append, all, all-cons, Text, lit, has_prefix, lookup, has_part,
  ℕ, ◌≡◌, refl, ap, ◌∙◌, true, false, none, some, List, [], ◌∷◌, ◌++◌, append_assoc, append-nil,
  arith,
}
use agent_shell.Env.Names.{is_key_start, is_key_rune, valid_env_key}
use agent_shell.Http.Interpolate.{
  is_blank, skip_blank, key_runes, placeholder, Filled, fill, closed, split_cons, key_at,
  fill_match, match_skip,
}

-- A text without `{{` holds no placeholder.
plain_front :
    (c : ℕ) (s : Text)
    → has_part (c ∷ s) (lit "{{") ≡ false
    → (has_prefix (c ∷ s) (lit "{{") ≡ false) × (has_part s (lit "{{") ≡ false)
unfolding has_part
plain_front c s h = or-false (has_prefix (c ∷ s) (lit "{{")) (has_part s (lit "{{")) h

placeholder-plain :
    (c : ℕ) (s : Text) → has_part (c ∷ s) (lit "{{") ≡ false → placeholder (c ∷ s) ≡ none
unfolding placeholder
placeholder-plain c s h = rw (plain_front c s h).0 refl

pub fill-plain :
    (vars : List (Text × Text)) (s : Text) (f : Filled)
    → has_part s (lit "{{") ≡ false
    → fill vars 0 s f ≡ record f { out = f.out ++ s }
unfolding fill
fill-plain vars [] f h = rw append-nil
fill-plain vars (c ∷ s) f h =
    ap (λ p. fill vars (match_skip s p) s (fill_match vars c s f p)) (placeholder-plain c s h)
    ∙ fill-plain vars s (record f { out = f.out ++ c ∷ [] }) (plain_front c s h).1
    ∙ simp append_assoc

fill-skip :
    (vars : List (Text × Text)) (t s : Text) (f : Filled)
    → fill vars (length t) (t ++ s) f ≡ fill vars 0 s f
unfolding fill
fill-skip vars [] s f = refl
fill-skip vars (c ∷ t) s f = fill-skip vars t s f

-- The text of a placeholder.
abbrev pub braced : Text → Text
braced key = b'{' ∷ b'{' ∷ (key ++ b'}' ∷ b'}' ∷ [])

key_runes-end :
    (key rest : Text)
    → all is_key_rune key ≡ true
    → key_runes (key ++ b'}' ∷ rest) ≡ (key, b'}' ∷ rest)
unfolding key_runes
key_runes-end [] rest h = refl
key_runes-end (c ∷ key) rest h =
    let (first, others) = all-cons is_key_rune c key h in
    rw first (ap (λ p. split_cons true c (key ++ b'}' ∷ rest) p) (key_runes-end key rest others))

start_no_blank : (c : ℕ) → is_key_start c ≡ true → is_blank c ≡ false
start_no_blank c h = ground arith

key_at-braced :
    (key rest : Text)
    → valid_env_key key ≡ true
    → key_at (skip_blank (key ++ b'}' ∷ b'}' ∷ rest)) ≡ some (key, rest)
unfolding valid_env_key skip_blank has_prefix
key_at-braced [] rest h = cc
key_at-braced (c ∷ key) rest h =
    let (opens, others) = and-true (is_key_start c) (all is_key_rune key) h in
    let runes : all is_key_rune (c ∷ key) ≡ true = ground arith in
    rw (start_no_blank c opens) (rw opens (ap closed (key_runes-end (c ∷ key) (b'}' ∷ rest) runes)))

placeholder-braced :
    (key rest : Text)
    → valid_env_key key ≡ true
    → placeholder (braced key ++ rest) ≡ some (key, rest)
unfolding placeholder has_prefix
placeholder-braced key rest h =
    ap (λ s. key_at (skip_blank s)) (append_assoc key (b'}' ∷ b'}' ∷ []) rest)
    ∙ key_at-braced key rest h

-- A placeholder with a value becomes that value.
pub fill-braced :
    (vars : List (Text × Text)) (key value rest : Text) (f : Filled)
    → valid_env_key key ≡ true
    → lookup key vars ≡ some value
    → fill vars 0 (braced key ++ rest) f ≡ fill vars 0 rest (record f { out = f.out ++ value })
unfolding fill
fill-braced vars key value rest f valid found =
    let tail = b'{' ∷ (key ++ b'}' ∷ b'}' ∷ []) in
    ap
      (λ p.
        fill vars (match_skip (tail ++ rest) p) (tail ++ rest)
          (fill_match vars b'{' (tail ++ rest) f p))
      (placeholder-braced key rest valid)
    ∙ ap
        (λ n. fill vars n (tail ++ rest) (fill_match vars b'{' (tail ++ rest) f (some (key, rest))))
        {y = length tail} (omega (arith, length-append tail rest))
    ∙ fill-skip vars tail rest (fill_match vars b'{' (tail ++ rest) f (some (key, rest)))
    ∙ rw found refl
