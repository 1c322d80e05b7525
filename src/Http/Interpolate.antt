-- ===== src/Http/Interpolate.antt =====
-- Interpolate of internal/domain/http.go: the placeholders of a request are replaced by the values of
-- its environment.
pub mod Plain
use agent_shell.Base.{
  ◌==◌, if◌then◌else◌, length, take, drop, Text, lit, has_prefix, contains, lookup, keys, Result,
  ok, err, has_part, ℕ, zero, suc, ◌-◌, Bool, true, false, ◌||◌, Option, none, some, List, [], ◌∷◌,
  ◌++◌,
}
use agent_shell.Env.Names.{is_key_start, is_key_rune}
use agent_shell.Http.Request.{HttpError, unresolved, invalid_placeholder}
use agent_shell.Stacks.Waves.{skip}

-- `\s` of package regexp.
abbrev pub is_blank : ℕ → Bool
is_blank c = c == b'\t' || c == b'\n' || c == 12 || c == b'\r' || c == 32

unfoldable pub skip_blank : Text → Text
skip_blank [] = []
skip_blank (c ∷ s) = if is_blank c then skip_blank s else c ∷ s

-- The longest run of `[A-Za-z0-9_]*`, and what follows.
abbrev split_cons : Bool → ℕ → Text → Text × Text → Text × Text
split_cons true c s (key, rest) = (c ∷ key, rest)
split_cons false c s whole = ([], c ∷ s)

unfoldable pub key_runes : Text → Text × Text
key_runes [] = ([], [])
key_runes (c ∷ s) = split_cons (is_key_rune c) c s (key_runes s)

abbrev closed : Text × Text → Option (Text × Text)
closed (key, rest) =
    if has_prefix (skip_blank rest) (lit "}}") then some (key, drop 2 (skip_blank rest)) else none

abbrev key_at : Text → Option (Text × Text)
key_at [] = none
key_at (c ∷ s) = if is_key_start c then closed (key_runes (c ∷ s)) else none

-- `\{\{\s*([A-Za-z_][A-Za-z0-9_]*)\s*\}\}` at the start of a text: the key, and what follows.
unfoldable pub placeholder : Text → Option (Text × Text)
unfolding has_prefix skip_blank key_runes
placeholder s = if has_prefix s (lit "{{") then key_at (skip_blank (drop 2 s)) else none

-- The text so far, and the keys without a value, each once.
pub record Filled : Type 0 where
  pub out : Text
  pub missing : List Text

abbrev put : Text → Text → Filled → Option Text → Filled
put whole key f (some value) = record f { out = f.out ++ value }
put whole key f none = record f {
  out = f.out ++ whole;
  missing = if contains f.missing key then f.missing else f.missing ++ key ∷ [];
}

-- The match at the front of a text that starts with `c`.
abbrev fill_match : List (Text × Text) → ℕ → Text → Filled → Option (Text × Text) → Filled
fill_match vars c s f none = record f { out = f.out ++ c ∷ [] }
fill_match vars c s f (some (key, rest)) =
    put (take (length (c ∷ s) - length rest) (c ∷ s)) key f (lookup key vars)

abbrev match_skip : Text → Option (Text × Text) → ℕ
match_skip s none = 0
match_skip s (some (key, rest)) = length s - length rest

-- ReplaceAllStringFunc; `skip` counts the runes of the last match that are still to be passed over.
unfoldable pub fill : List (Text × Text) → ℕ → Text → Filled → Filled
unfolding placeholder contains lookup
fill vars skip [] f = f
fill vars (suc skip) (c ∷ s) f = fill vars skip s f
fill vars zero (c ∷ s) f =
    fill vars (match_skip s (placeholder (c ∷ s))) s (fill_match vars c s f (placeholder (c ∷ s)))

abbrev pub filled : Filled → List Text → Result HttpError Text
filled f (key ∷ keys) = err (unresolved (key ∷ keys))
filled f [] = if has_part f.out (lit "{{") then err invalid_placeholder else ok f.out

abbrev pub nothing_filled : Filled
nothing_filled = record { out = []; missing = [] }

unfoldable pub interpolate : Text → List (Text × Text) → Result HttpError Text
unfolding fill has_part
interpolate template vars = let f = fill vars 0 template nothing_filled in filled f f.missing
