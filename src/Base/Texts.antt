-- ===== src/Base/Texts.antt =====
-- Go strings as lists of code points (the text is valid UTF-8), with what the code uses of the
-- package strings: TrimSpace, ToLower, ToUpper, HasPrefix, Join; and of len, which counts bytes.
use Prim.Native.Nat.{ℕ, ◌+◌, ◌-◌}
use Prim.Native.Char.{code}
use Prim.Native.String.{String}
use mathlib.Core.Path.{◌≡◌, refl}
use mathlib.Core.Logic.{◌↔◌}
use mathlib.Core.Bool.{Bool, true, false, not, ◌&&◌, ◌||◌}
use mathlib.Core.List.{List, [], ◌∷◌, ◌++◌}
use native.Mathlib.Omega.{arith}
use agent_shell.Base.Tests.{ltb, leb, ◌==◌, if◌then◌else◌, and-true}
use agent_shell.Base.Lists.{all}

abbrev pub Text : Type 0
Text = List ℕ

-- A literal of the source.
abbrev pub lit : String → Text
lit String.[] = []
lit (String.◌∷◌ c s) = code c ∷ lit s

unfoldable pub text_eq : Text → Text → Bool
text_eq [] [] = true
text_eq (c ∷ s) (d ∷ t) = (c == d) && text_eq s t
text_eq _ _ = false

pub text_eq_refl : (s : Text) → text_eq s s ≡ true
unfolding text_eq
text_eq_refl [] = refl
text_eq_refl (c ∷ s) = ground (arith, text_eq_refl s)

pub text_eq_sound : (s t : Text) → text_eq s t ≡ true → s ≡ t
unfolding text_eq
text_eq_sound [] [] h = refl
text_eq_sound (c ∷ s) (d ∷ t) h = ground (arith, text_eq_sound s t)
text_eq_sound _ _ h = cc

pub text_eq_iff : (s t : Text) → (text_eq s t ≡ true) ↔ (s ≡ t)
text_eq_iff s t = (text_eq_sound s t, λ e. rw e (text_eq_refl t))

abbrev pub is_empty : Text → Bool
is_empty [] = true
is_empty (c ∷ s) = false

-- unicode.IsSpace
unfoldable pub is_space : ℕ → Bool
is_space c =
    (leb 9 c && leb c 13)
    || c == 32
    || c == 0x85
    || c == 0xa0
    || c == 0x1680
    || (leb 0x2000 c && leb c 0x200a)
    || c == 0x2028
    || c == 0x2029
    || c == 0x202f
    || c == 0x205f
    || c == 0x3000

unfoldable pub trim_left : Text → Text
trim_left [] = []
trim_left (c ∷ s) = if is_space c then trim_left s else c ∷ s

abbrev trimmed_cons : ℕ → Text → Text
trimmed_cons c (d ∷ s) = c ∷ d ∷ s
trimmed_cons c [] = if is_space c then [] else c ∷ []

unfoldable pub trim_right : Text → Text
trim_right [] = []
trim_right (c ∷ s) = trimmed_cons c (trim_right s)

-- strings.TrimSpace
unfoldable pub trim_space : Text → Text
unfolding is_space trim_left trim_right
trim_space s = trim_right (trim_left s)

-- unicode.ToLower and unicode.ToUpper outside ASCII: the tables of package unicode.
pub record CaseTable : Type 0 where
  pub lower : ℕ → ℕ
  pub upper : ℕ → ℕ

-- The runes of ASCII go by the formula of the standard library.
unfoldable pub lower_rune : CaseTable → ℕ → ℕ
lower_rune t c = if ltb c 128 then (if leb b'A' c && leb c b'Z' then c + 32 else c) else t.lower c

unfoldable pub upper_rune : CaseTable → ℕ → ℕ
upper_rune t c = if ltb c 128 then (if leb b'a' c && leb c b'z' then c - 32 else c) else t.upper c

abbrev pub map_text : (ℕ → ℕ) → Text → Text
map_text f [] = []
map_text f (c ∷ s) = f c ∷ map_text f s

-- strings.ToLower and strings.ToUpper
unfoldable pub to_lower : CaseTable → Text → Text
unfolding lower_rune
to_lower t s = map_text (lower_rune t) s

unfoldable pub to_upper : CaseTable → Text → Text
unfolding upper_rune
to_upper t s = map_text (upper_rune t) s

-- The bytes that a rune takes in UTF-8; Go's len sums them.
abbrev rune_len : ℕ → ℕ
rune_len c = if ltb c 0x80 then 1 else if ltb c 0x800 then 2 else if ltb c 0x10000 then 3 else 4

unfoldable pub byte_len : Text → ℕ
byte_len [] = 0
byte_len (c ∷ s) = rune_len c + byte_len s

-- strings.HasPrefix
unfoldable pub has_prefix : Text → Text → Bool
has_prefix s [] = true
has_prefix [] (d ∷ p) = false
has_prefix (c ∷ s) (d ∷ p) = c == d && has_prefix s p

-- strings.Join
unfoldable pub join : List Text → Text → Text
join [] sep = []
join (s ∷ []) sep = s
join (s ∷ t ∷ rest) sep = s ++ sep ++ join (t ∷ rest) sep

-- Trimming keeps a text whose ends are no spaces.
abbrev pub starts_clean : Text → Bool
starts_clean [] = true
starts_clean (c ∷ s) = not (is_space c)

trim_left-starts_clean : (s : Text) → starts_clean (trim_left s) ≡ true
unfolding trim_left
trim_left-starts_clean [] = refl
trim_left-starts_clean (c ∷ s) = ground (arith, trim_left-starts_clean s)

trim_left_of_clean : (s : Text) → starts_clean s ≡ true → trim_left s ≡ s
unfolding trim_left
trim_left_of_clean [] h = refl
trim_left_of_clean (c ∷ s) h = ground arith

trim_right-starts_clean : (s : Text) → starts_clean s ≡ true → starts_clean (trim_right s) ≡ true
unfolding trim_right
trim_right-starts_clean [] h = refl
trim_right-starts_clean (c ∷ s) h = ground arith

trim_right-trimmed_cons :
    (c : ℕ) (r : Text) → trim_right r ≡ r → trim_right (trimmed_cons c r) ≡ trimmed_cons c r
unfolding trim_right
trim_right-trimmed_cons c [] h = ground arith
trim_right-trimmed_cons c (d ∷ r) h = rw h

trim_right_idem : (s : Text) → trim_right (trim_right s) ≡ trim_right s
unfolding trim_right
trim_right_idem [] = refl
trim_right_idem (c ∷ s) = trim_right-trimmed_cons c (trim_right s) (trim_right_idem s)

pub trim_space_idem : (s : Text) → trim_space (trim_space s) ≡ trim_space s
unfolding trim_space
trim_space_idem s =
    let clean = trim_right-starts_clean (trim_left s) (trim_left-starts_clean s) in
    rw (trim_left_of_clean (trim_right (trim_left s)) clean) (trim_right_idem (trim_left s))

trim_right_of_no_space : (s : Text) → all (λ c. not (is_space c)) s ≡ true → trim_right s ≡ s
unfolding trim_right
trim_right_of_no_space [] h = refl
trim_right_of_no_space (c ∷ []) h = ground arith
trim_right_of_no_space (c ∷ d ∷ s) h =
    let (first, rest) = and-true _ _ h in rw (trim_right_of_no_space (d ∷ s) rest)

pub trim_space_of_no_space : (s : Text) → all (λ c. not (is_space c)) s ≡ true → trim_space s ≡ s
unfolding trim_space
trim_space_of_no_space [] h = unfold trim_left trim_right in refl
trim_space_of_no_space (c ∷ s) h =
    let (first, rest) = and-true _ _ h in
    rw (trim_left_of_clean (c ∷ s) first) (trim_right_of_no_space (c ∷ s) h)

pub trim_space-nil : trim_space [] ≡ []
unfolding trim_space
trim_space-nil = refl
