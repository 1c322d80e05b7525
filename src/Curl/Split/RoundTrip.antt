-- ===== src/Curl/Split/RoundTrip.antt =====
-- splitCurl of internal/domain/curl.go reads the words that were typed.
use agent_shell.Base.{
  ◌==◌, if◌then◌else◌, Bool-cases, all, all-cons, Text, is_empty, is_space, ok, replace_all-lacks,
  ℕ, ◌≡◌, refl, ap, ◌∙◌, inl, inr, true, false, ◌||◌, List, [], ◌∷◌, ◌++◌, append_assoc, append-nil,
  arith,
}
use agent_shell.Curl.Split.{Scan, flush, scan_rune, scan, split_curl}
use agent_shell.Curl.Split.Quoted.{
  single, double, Piece, escaped, typed, content, is_bare, in_single, can_stand, typed_word,
  word_of, typed_line, typed_line-unbroken, bare,
}

abbrev scan_at : List Text → Text → ℕ → Scan
scan_at ts w q = record { tokens = ts; word = w; quote = q; escape = false }

scan-append : (s : Scan) (a b : Text) → scan s (a ++ b) ≡ scan (scan s a) b
unfolding scan
scan-append s [] b = refl
scan-append s (c ∷ a) b = scan-append (scan_rune s c) a b

bare_rune :
    (ts : List Text) (w : Text) (c : ℕ)
    → is_bare c ≡ true
    → scan_rune (scan_at ts w 0) c ≡ scan_at ts (w ++ c ∷ []) 0
unfolding scan_rune
bare_rune ts w c h = ground arith

single_rune :
    (ts : List Text) (w : Text) (c : ℕ)
    → in_single c ≡ true
    → scan_rune (scan_at ts w b'\'') c ≡ scan_at ts (w ++ c ∷ []) b'\''
unfolding scan_rune
single_rune ts w c h = ground arith

scan-bare :
    (ts : List Text) (w s : Text)
    → all is_bare s ≡ true
    → scan (scan_at ts w 0) s ≡ scan_at ts (w ++ s) 0
unfolding scan
scan-bare ts w [] h = rw append-nil
scan-bare ts w (c ∷ s) h =
    let (first, rest) = all-cons is_bare c s h in
    rw (bare_rune ts w c first) (scan-bare ts (w ++ c ∷ []) s rest ∙ simp append_assoc)

scan-single :
    (ts : List Text) (w s : Text)
    → all in_single s ≡ true
    → scan (scan_at ts w b'\'') s ≡ scan_at ts (w ++ s) b'\''
unfolding scan
scan-single ts w [] h = rw append-nil
scan-single ts w (c ∷ s) h =
    let (first, rest) = all-cons in_single c s h in
    rw (single_rune ts w c first) (scan-single ts (w ++ c ∷ []) s rest ∙ simp append_assoc)

-- In double quotes each rune takes one step, or two where it is escaped.
double_rune :
    (ts : List Text) (w : Text) (c : ℕ) (s : Text)
    → scan (scan_at ts w b'"') (escaped (c ∷ s)) ≡ scan (scan_at ts (w ++ c ∷ []) b'"') (escaped s)
unfolding scan scan_rune
double_rune ts w c s = elim (Bool-cases (c == b'\\' || c == b'"')) [
  | inl special ↦ rw special refl
  | inr plain ↦ rw plain (ap (λ x. scan x (escaped s)) (ground arith))
]

scan-double :
    (ts : List Text) (w s : Text) → scan (scan_at ts w b'"') (escaped s) ≡ scan_at ts (w ++ s) b'"'
unfolding scan
scan-double ts w [] = rw append-nil
scan-double ts w (c ∷ s) = double_rune ts w c s ∙ scan-double ts (w ++ c ∷ []) s ∙ simp append_assoc

scan-piece :
    (ts : List Text) (w : Text) (p : Piece)
    → can_stand p ≡ true
    → scan (scan_at ts w 0) (typed p) ≡ scan_at ts (w ++ content p) 0
unfolding scan scan_rune
scan-piece ts w (bare s) h = scan-bare ts w s h
scan-piece ts w (single s) h =
    scan-append (scan_at ts w b'\'') s (b'\'' ∷ []) ∙ rw (scan-single ts w s h)
scan-piece ts w (double s) h =
    scan-append (scan_at ts w b'"') (escaped s) (b'"' ∷ []) ∙ rw (scan-double ts w s)

scan-word :
    (ts : List Text) (w : Text) (ps : List Piece)
    → all can_stand ps ≡ true
    → scan (scan_at ts w 0) (typed_word ps) ≡ scan_at ts (w ++ word_of ps) 0
unfolding scan
scan-word ts w [] h = rw append-nil
scan-word ts w (p ∷ ps) h =
    let (first, rest) = all-cons can_stand p ps h in
    scan-append (scan_at ts w 0) (typed p) (typed_word ps)
    ∙ rw (scan-piece ts w p first) (scan-word ts (w ++ content p) ps rest ∙ simp append_assoc)

-- The words that are not empty.
abbrev pub words_of : List (List Piece) → List Text
words_of [] = []
words_of (w ∷ ws) = if is_empty (word_of w) then words_of ws else word_of w ∷ words_of ws

space_rune : (ts : List Text) (w : Text) → scan_rune (scan_at ts w 0) 32 ≡ flush (scan_at ts w 0)
unfolding scan_rune is_space
space_rune ts w = refl

-- A line behind one that ends a word.
scan-flushed :
    (ts : List Text) (w : Text) (ws : List (List Piece)) (rest : Text)
    → ((us : List Text) → scan (scan_at us [] 0) rest ≡ scan_at (us ++ words_of ws) [] 0)
    → scan (flush (scan_at ts w 0)) rest
      ≡ scan_at (ts ++ (if is_empty w then words_of ws else w ∷ words_of ws)) [] 0
scan-flushed ts [] ws rest h = h ts
scan-flushed ts (c ∷ w) ws rest h = h (ts ++ (c ∷ w) ∷ []) ∙ simp append_assoc

scan-line :
    (ts : List Text) (ws : List (List Piece))
    → all (all can_stand) ws ≡ true
    → scan (scan_at ts [] 0) (typed_line ws) ≡ scan_at (ts ++ words_of ws) [] 0
unfolding scan
scan-line ts [] h = rw append-nil
scan-line ts (w ∷ ws) h =
    let (first, rest) = all-cons (all can_stand) w ws h in
    scan-append (scan_at ts [] 0) (typed_word w) (32 ∷ typed_line ws)
    ∙ ap (λ s. scan s (32 ∷ typed_line ws)) (scan-word ts [] w first)
    ∙ ap (λ s. scan s (typed_line ws)) (space_rune ts (word_of w))
    ∙ scan-flushed ts (word_of w) ws (typed_line ws) (λ us. scan-line us ws rest)

-- The words of a command line are read as they were typed, bare, in single quotes or in double quotes
-- and mixed, as long as none has an end of line; but a word that stands for the empty text, such as
-- '', is lost.
pub split_curl-typed_line :
    (ws : List (List Piece))
    → all (all can_stand) ws ≡ true
    → split_curl (typed_line ws) ≡ ok (words_of ws)
unfolding split_curl
split_curl-typed_line ws h =
    let whole = typed_line-unbroken ws h in
    rw (replace_all-lacks b'\n' (typed_line ws) (b'\\' ∷ b'\r' ∷ b'\n' ∷ []) (32 ∷ []) whole refl) (
      rw (replace_all-lacks b'\n' (typed_line ws) (b'\\' ∷ b'\n' ∷ []) (32 ∷ []) whole refl)
        (rw (scan-line [] ws h)))
