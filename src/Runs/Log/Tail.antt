-- ===== src/Runs/Log/Tail.antt =====
-- The last lines that tailFile of internal/runtime/manager.go finds are those of the whole file.
use agent_shell.Base.{
  ◌==◌, Bool-cases, length, drop, length-append, Text, split_at, ℕ, suc, ◌+◌, ◌-◌, ◌≤◌, ◌<◌, ◌≡◌,
  refl, ap, ◌∙◌, inl, inr, List, [], ◌∷◌, ◌++◌, arith, ltb, ltb→lt, ℤ, take, join, zero, sym, ◌⊎◌,
}
use agent_shell.Runs.Log.{
  newline_byte, count_newlines, drop_blank_end, last_lines, lines_of, Read, read_back, tail_count,
  tail_of_read, tail_file,
}

-- The parts of a text but the first, and how many there are.
split_at-cons :
    (s : Text)
    → (first : Text) × (rest : List Text) × (split_at newline_byte s ≡ first ∷ rest)
      × (length rest ≡ count_newlines s)
unfolding split_at count_newlines
split_at-cons [] = ([], [], refl, refl)
split_at-cons (c ∷ s) =
    let (first, rest, is, count) = split_at-cons s in
    elim (Bool-cases (c == newline_byte)) [
      | inl ends_line ↦
          ([], split_at newline_byte s, rw ends_line refl, rw (ends_line, is) (ap suc count))
      | inr inside ↦ (c ∷ first, rest, rw (inside, is) refl, rw inside count)
    ]

-- What stands before a text only adds to its first part.
split_at-append :
    (p s first : Text) (rest : List Text)
    → split_at newline_byte s ≡ first ∷ rest
    → (line : Text) × (before : List Text) × (split_at newline_byte (p ++ s)
        ≡ (line ∷ before) ++ rest)
unfolding split_at
split_at-append [] s first rest e = (first, [], e)
split_at-append (c ∷ p) s first rest e =
    let (line, before, is) = split_at-append p s first rest e in
    elim (Bool-cases (c == newline_byte)) [
      | inl ends_line ↦ ([], line ∷ before, rw (ends_line, is) refl)
      | inr inside ↦ (c ∷ line, before, rw (inside, is) refl)
    ]

drop_blank_end-append :
    (xs : List Text) (y : Text) (ys : List Text)
    → drop_blank_end (xs ++ y ∷ ys) ≡ xs ++ drop_blank_end (y ∷ ys)
drop_blank_end-append [] y ys = refl
drop_blank_end-append (x ∷ []) y ys = refl
drop_blank_end-append (x ∷ x' ∷ xs) y ys = ap (λ l. x ∷ l) (drop_blank_end-append (x' ∷ xs) y ys)

length-drop_blank_end : (y : Text) (ys : List Text) → length ys ≤ length (drop_blank_end (y ∷ ys))
length-drop_blank_end y [] = ground arith
length-drop_blank_end y (z ∷ ys) = omega (arith, length-drop_blank_end z ys)

drop-append_more : (xs ys : List Text) (n : ℕ) → drop (length xs + n) (xs ++ ys) ≡ drop n ys
drop-append_more [] ys n = ap (λ k. drop k ys) (omega arith)
drop-append_more (x ∷ xs) ys n =
    let shift : length (x ∷ xs) + n ≡ suc (length xs + n) = omega arith in
    rw shift (drop-append_more xs ys n)

-- The last lines of a list do not see what stands before them.
last_lines-append :
    (n : ℕ) (xs ys : List Text) → n ≤ length ys → last_lines n (xs ++ ys) ≡ last_lines n ys
last_lines-append n xs ys h =
    let shift : length (xs ++ ys) - n ≡ length xs + (length ys - n) =
      omega (arith, length-append xs ys) in
    ap (λ k. drop k (xs ++ ys)) shift ∙ drop-append_more xs ys (length ys - n)

behind :
    (n : ℕ) (first line : Text) (before rest : List Text)
    → n < length rest
    → last_lines n (drop 1 (drop_blank_end (first ∷ rest)))
      ≡ last_lines n (drop_blank_end ((line ∷ before) ++ rest))
behind n first line before [] h = absurd (omega arith)
behind n first line before (y ∷ ys) h =
    let long : n ≤ length (drop_blank_end (y ∷ ys)) = omega (arith, length-drop_blank_end y ys) in
    sym (
      ap (last_lines n) (drop_blank_end-append (line ∷ before) y ys)
      ∙ last_lines-append n (line ∷ before) (drop_blank_end (y ∷ ys)) long)

-- Behind more newlines than lines are wanted, the rest of the file shows only in the first line.
last_lines-suffix :
    (n : ℕ) (p s : Text)
    → n < count_newlines s
    → last_lines n (drop 1 (lines_of s)) ≡ last_lines n (lines_of (p ++ s))
last_lines-suffix n p s h =
    let (first, rest, is, count) = split_at-cons s in
    let (line, before, whole) = split_at-append p s first rest is in
    ap (λ parts. last_lines n (drop 1 (drop_blank_end parts))) is
    ∙ behind n first line before rest (rw count h)
    ∙ ap (λ parts. last_lines n (drop_blank_end parts)) (sym whole)

count_newlines-append : (s t : Text) → count_newlines (s ++ t) ≡ count_newlines s + count_newlines t
unfolding count_newlines
count_newlines-append [] t = omega arith
count_newlines-append (c ∷ s) t = ground (arith, count_newlines-append s t)

take-drop : (k : ℕ) (s : Text) → take k s ++ drop k s ≡ s
take-drop zero s = refl
take-drop (suc k) [] = refl
take-drop (suc k) (c ∷ s) = ap (λ t. c ∷ t) (take-drop k s)

drop_nil {ℓ} : {A : Type ℓ} → (k : ℕ) → drop {A = A} k [] ≡ []
drop_nil zero = refl
drop_nil (suc k) = refl

drop-drop : (j k : ℕ) (s : Text) → drop k (drop j s) ≡ drop (j + k) s
drop-drop zero k s = ap (λ i. drop i s) (omega arith)
drop-drop (suc j) k [] = let shift : suc j + k ≡ suc (j + k) = omega arith in rw shift (drop_nil k)
drop-drop (suc j) k (c ∷ s) =
    let shift : suc j + k ≡ suc (j + k) = omega arith in rw shift (drop-drop j k s)

drop_whole : (s : Text) → drop (length s) s ≡ []
drop_whole [] = refl
drop_whole (c ∷ s) = drop_whole s

-- The bytes from a position to a later one, and those behind.
chunk-drop : (j k : ℕ) (s : Text) → j ≤ k → take (k - j) (drop j s) ++ drop k s ≡ drop j s
chunk-drop j k s h =
    let at : drop (k - j) (drop j s) ≡ drop k s =
      drop-drop j (k - j) s ∙ ap (λ i. drop i s) (omega arith) in
    ap (λ t. take (k - j) (drop j s) ++ t) (sym at) ∙ take-drop (k - j) (drop j s)

-- What has been read is the end of the file from a position on.
record IsEndOf (n : ℕ) (file : Text) (r : Read) : Type 0 where
  behind_position : r.bytes ≡ drop r.position file
  enough : (r.position ≡ 0) ⊎ (n < count_newlines r.bytes)

read_back-IsEndOf :
    (size n : ℕ) (file : Text) (fuel : ℕ) (r : Read) (newlines : ℕ)
    → 0 < size
    → r.position ≤ fuel
    → r.bytes ≡ drop r.position file
    → newlines ≡ count_newlines r.bytes
    → IsEndOf n file (read_back size n file fuel r newlines)
unfolding read_back
read_back-IsEndOf size n file zero r newlines pos_size f e c = record {
  behind_position = e;
  enough = inl (omega arith);
}
read_back-IsEndOf size n file (suc fuel) r newlines pos_size f e c =
    let start_at = r.position - size in
    let chunk = take (r.position - start_at) (drop start_at file) in
    let r' : Read = record { bytes = chunk ++ r.bytes; position = start_at } in
    let e' : r'.bytes ≡ drop start_at file =
      ap (λ t. chunk ++ t) e ∙ chunk-drop start_at r.position file (omega arith) in
    let c' : newlines + count_newlines chunk ≡ count_newlines r'.bytes =
      omega (arith, count_newlines-append chunk r.bytes) in
    elim (Bool-cases (r.position == 0)) [
      | inl whole ↦ rw whole (record { behind_position = e; enough = inl (ground arith) })
      | inr more ↦ elim (Bool-cases (ltb n (newlines + count_newlines chunk))) [
        | inl full ↦
            rw (more, full)
              (record {
                behind_position = e';
                enough = inr (omega (arith, ltb→lt n (newlines + count_newlines chunk) full));
              })
        | inr few ↦
            rw (more, few)
              (read_back-IsEndOf size n file fuel r' (newlines + count_newlines chunk) pos_size
                (ground arith) e' c')
      ]
    ]

tail_of_read-lines :
    (n : ℕ) (file : Text) (r : Read)
    → IsEndOf n file r
    → tail_of_read n r ≡ join (last_lines n (lines_of file)) (newline_byte ∷ [])
tail_of_read-lines n file r h = elim (Bool-cases (ltb 0 r.position)) [
  | inr start_of_file ↦
      let none_left : r.position ≡ 0 = ground arith in
      let whole : r.bytes ≡ file = h.behind_position ∙ ap (λ k. drop k file) none_left in
      rw start_of_file (ap (λ s. join (last_lines n (lines_of s)) (newline_byte ∷ [])) whole)
  | inl later ↦
      let many : n < count_newlines r.bytes = ground (arith, h.enough) in
      let split_here : take r.position file ++ r.bytes ≡ file =
        ap (λ t. take r.position file ++ t) h.behind_position ∙ take-drop r.position file in
      rw later (
        ap (λ ls. join ls (newline_byte ∷ []))
          (last_lines-suffix n (take r.position file) r.bytes many
            ∙ ap (λ s. last_lines n (lines_of s)) split_here))
]

-- Whatever the size of the chunks, reading a log from its end gives the same as splitting the whole
-- file into its lines, without the empty one at the end, and joining the last of them: as many as are
-- asked for, or 200 where that is no positive number.
pub tail_file-last_lines :
    (size : ℕ) (file : Text) (lines : ℤ)
    → 0 < size
    → tail_file size file lines
      ≡ join (last_lines (tail_count lines) (lines_of file)) (newline_byte ∷ [])
unfolding tail_file join
tail_file-last_lines size [] lines pos_size =
    ap (λ ls. join ls (newline_byte ∷ [])) (sym (drop_nil {A = Text} (0 - tail_count lines)))
tail_file-last_lines size (c ∷ s) lines pos_size =
    let file = c ∷ s in
    let n = tail_count lines in
    tail_of_read-lines n file
      (read_back size n file (length file) (record { bytes = []; position = length file }) 0)
      (read_back-IsEndOf size n file (length file) (record { bytes = []; position = length file }) 0
        pos_size (omega arith) (sym (drop_whole file)) refl)
