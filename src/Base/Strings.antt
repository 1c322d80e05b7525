-- ===== src/Base/Strings.antt =====
-- More of the package strings: HasSuffix, TrimSuffix, Contains, Cut, Trim, Split, ReplaceAll.
use Prim.Native.Nat.{ℕ, zero, suc, ◌-◌}
use mathlib.Core.Path.{◌≡◌, refl, ap}
use mathlib.Core.Bool.{Bool, true, false, not, ◌||◌}
use mathlib.Core.List.{List, [], ◌∷◌, ◌++◌, reverse}
use mathlib.Core.Option.{Option, none, some}
use native.Mathlib.Omega.{arith}
use agent_shell.Base.Tests.{◌==◌, if◌then◌else◌}
use agent_shell.Base.Lists.{all, any, length, all-cons}
use agent_shell.Base.Texts.{Text, text_eq, has_prefix}

-- strings.HasSuffix
unfoldable pub has_suffix : Text → Text → Bool
unfolding text_eq
has_suffix [] suffix = text_eq [] suffix
has_suffix (c ∷ s) suffix = text_eq (c ∷ s) suffix || has_suffix s suffix

-- strings.TrimSuffix
unfoldable pub trim_suffix : Text → Text → Text
unfolding text_eq
trim_suffix [] suffix = []
trim_suffix (c ∷ s) suffix = if text_eq (c ∷ s) suffix then [] else c ∷ trim_suffix s suffix

-- strings.Contains
unfoldable pub has_part : Text → Text → Bool
unfolding has_prefix
has_part [] part = has_prefix [] part
has_part (c ∷ s) part = has_prefix (c ∷ s) part || has_part s part

-- strings.Cut at one rune: what stands before and behind the first one.
abbrev cons_before : ℕ → Option (Text × Text) → Option (Text × Text)
cons_before c none = none
cons_before c (some (before, after)) = some (c ∷ before, after)

unfoldable pub cut : ℕ → Text → Option (Text × Text)
cut sep [] = none
cut sep (c ∷ s) = if c == sep then some ([], s) else cons_before c (cut sep s)

-- strings.TrimLeft and strings.Trim by a set of runes.
unfoldable pub trim_left_set : List ℕ → Text → Text
trim_left_set set [] = []
trim_left_set set (c ∷ s) = if any (λ d. c == d) set then trim_left_set set s else c ∷ s

unfoldable pub trim_set : List ℕ → Text → Text
unfolding trim_left_set
trim_set set s = reverse (trim_left_set set (reverse (trim_left_set set s)))

-- strings.Split at one rune: one part more than there are separators.
abbrev cons_first : ℕ → List Text → List Text
cons_first c [] = (c ∷ []) ∷ []
cons_first c (p ∷ ps) = (c ∷ p) ∷ ps

unfoldable pub split_at : ℕ → Text → List Text
split_at sep [] = [] ∷ []
split_at sep (c ∷ s) = if c == sep then [] ∷ split_at sep s else cons_first c (split_at sep s)

-- strings.ReplaceAll; `skip` counts the runes of the last match that are still to be passed over.
unfoldable pub replace_from : Text → Text → ℕ → Text → Text
unfolding has_prefix
replace_from old new skip [] = []
replace_from old new (suc skip) (c ∷ s) = replace_from old new skip s
replace_from old new zero (c ∷ s) =
    let found = has_prefix (c ∷ s) old in
    let rest = replace_from old new (if found then length old - 1 else 0) s in
    if found then new ++ rest else c ∷ rest

abbrev pub replace_all : Text → Text → Text → Text
replace_all s old new = replace_from old new 0 s

-- A rune that a text lacks cuts it nowhere, and its first one cuts there.
pub cut-append :
    (sep : ℕ) (before after : Text)
    → all (λ c. not (c == sep)) before ≡ true
    → cut sep (before ++ sep ∷ after) ≡ some (before, after)
unfolding cut
cut-append sep [] after h = ground arith
cut-append sep (c ∷ s) after h =
    let (first, rest) = all-cons (λ d. not (d == sep)) c s h in
    ground (arith, cut-append sep s after rest)

-- A text with a rune stands in no text that lacks it.
has_prefix-lacks :
    (d : ℕ) (s old : Text)
    → all (λ c. not (c == d)) s ≡ true
    → any (λ c. c == d) old ≡ true
    → has_prefix s old ≡ false
unfolding has_prefix
has_prefix-lacks d s [] h k = cc
has_prefix-lacks d [] (e ∷ old) h k = refl
has_prefix-lacks d (c ∷ s) (e ∷ old) h k = ground (arith, has_prefix-lacks d s old)

pub replace_all-lacks :
    (d : ℕ) (s old new : Text)
    → all (λ c. not (c == d)) s ≡ true
    → any (λ c. c == d) old ≡ true
    → replace_all s old new ≡ s
unfolding replace_from
replace_all-lacks d [] old new h k = refl
replace_all-lacks d (c ∷ s) old new h k =
    rw (has_prefix-lacks d (c ∷ s) old h k)
      (ap (λ t. c ∷ t) (replace_all-lacks d s old new (all-cons (λ e. not (e == d)) c s h).1 k))
