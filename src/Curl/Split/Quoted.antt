-- ===== src/Curl/Split/Quoted.antt =====
-- How a user writes the words of a command line for splitCurl of internal/domain/curl.go: a word is
-- made of pieces, bare ones and ones in quotes, and a space ends it.
use agent_shell.Base.{
  ◌==◌, if◌then◌else◌, all, all-cons, Text, is_space, ℕ, ◌≡◌, refl, Bool, true, not, ◌&&◌, ◌||◌,
  List, [], ◌∷◌, ◌++◌, arith, ==_iff, Bool-cases, inl, inr, false,
}

pub data Piece : Type 0 where
  bare single double : Text → Piece

abbrev pub escaped : Text → Text
escaped [] = []
escaped (c ∷ s) = if c == b'\\' || c == b'"' then b'\\' ∷ c ∷ escaped s else c ∷ escaped s

-- What is typed for a piece, and what it stands for.
abbrev pub typed : Piece → Text
typed (bare s) = s
typed (single s) = b'\'' ∷ (s ++ b'\'' ∷ [])
typed (double s) = b'"' ∷ (escaped s ++ b'"' ∷ [])

abbrev pub content : Piece → Text
content (bare s) = s
content (single s) = s
content (double s) = s

abbrev pub is_bare : ℕ → Bool
is_bare c = not (is_space c) && not (c == b'\\') && not (c == b'\'') && not (c == b'"')

abbrev pub in_single : ℕ → Bool
in_single c = not (c == b'\'') && not (c == b'\n')

-- A bare piece has no space, quote or backslash, one in single quotes has none of these, and no
-- piece has an end of line.
abbrev pub can_stand : Piece → Bool
can_stand (bare s) = all is_bare s
can_stand (single s) = all in_single s
can_stand (double s) = all (λ c. not (c == b'\n')) s

abbrev pub typed_word : List Piece → Text
typed_word [] = []
typed_word (p ∷ ps) = typed p ++ typed_word ps

abbrev pub word_of : List Piece → Text
word_of [] = []
word_of (p ∷ ps) = content p ++ word_of ps

abbrev pub typed_line : List (List Piece) → Text
typed_line [] = []
typed_line (w ∷ ws) = typed_word w ++ 32 ∷ typed_line ws

-- No line of words has an end of line in it.
abbrev unbroken : ℕ → Bool
unbroken c = not (c == b'\n')

escaped-unbroken : (s : Text) → all unbroken s ≡ true → all unbroken (escaped s) ≡ true
escaped-unbroken [] h = refl
escaped-unbroken (c ∷ s) h =
    let (first, rest) = all-cons unbroken c s h in ground (arith, escaped-unbroken s rest)

-- Within ASCII the end of a line is a space.
bare_rune-unbroken : (c : ℕ) → is_bare c ≡ true → unbroken c ≡ true
unfolding is_space
bare_rune-unbroken c h = elim (Bool-cases (c == b'\n')) [
  | inl newline ↦ let broken : is_bare c ≡ false = rw ((==_iff c b'\n').0 newline) refl in cc
  | inr other ↦ rw other refl
]

bare-unbroken : (s : Text) → all is_bare s ≡ true → all unbroken s ≡ true
bare-unbroken [] h = refl
bare-unbroken (c ∷ s) h =
    let (first, rest) = all-cons is_bare c s h in
    rw (bare_rune-unbroken c first) (bare-unbroken s rest)

single-unbroken : (s : Text) → all in_single s ≡ true → all unbroken s ≡ true
single-unbroken [] h = refl
single-unbroken (c ∷ s) h =
    let (first, rest) = all-cons in_single c s h in ground (arith, single-unbroken s rest)

all-append : (p : ℕ → Bool) (s t : Text) → all p s ≡ true → all p t ≡ true → all p (s ++ t) ≡ true
all-append p [] t h k = k
all-append p (c ∷ s) t h k =
    let (first, rest) = all-cons p c s h in ground (arith, all-append p s t rest k)

typed-unbroken : (p : Piece) → can_stand p ≡ true → all unbroken (typed p) ≡ true
typed-unbroken (bare s) h = bare-unbroken s h
typed-unbroken (single s) h = all-append unbroken s (b'\'' ∷ []) (single-unbroken s h) refl
typed-unbroken (double s) h =
    all-append unbroken (escaped s) (b'"' ∷ []) (escaped-unbroken s h) refl

typed_word-unbroken :
    (ps : List Piece) → all can_stand ps ≡ true → all unbroken (typed_word ps) ≡ true
typed_word-unbroken [] h = refl
typed_word-unbroken (p ∷ ps) h =
    let (first, rest) = all-cons can_stand p ps h in
    all-append unbroken (typed p) (typed_word ps) (typed-unbroken p first)
      (typed_word-unbroken ps rest)

pub typed_line-unbroken :
    (ws : List (List Piece))
    → all (all can_stand) ws ≡ true
    → all (λ c. not (c == b'\n')) (typed_line ws) ≡ true
typed_line-unbroken [] h = refl
typed_line-unbroken (w ∷ ws) h =
    let (first, rest) = all-cons (all can_stand) w ws h in
    all-append unbroken (typed_word w) (32 ∷ typed_line ws) (typed_word-unbroken w first)
      (typed_line-unbroken ws rest)
