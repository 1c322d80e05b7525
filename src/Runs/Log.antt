-- ===== src/Runs/Log.antt =====
-- tailFile and the choice of the file in Log of internal/runtime/manager.go: the last lines of a log
-- are read from its end, one chunk after the other. The file is the list of its bytes, and does not
-- change meanwhile; the chunk size is an argument.
pub mod Tail
use agent_shell.Base.{
  ltb, ◌==◌, if◌then◌else◌, ℤ, pos, negsuc, length, take, drop, Text, is_empty, join, split_at, ℕ,
  zero, suc, ◌+◌, ◌-◌, List, [], ◌∷◌, ◌++◌,
}

abbrev pub chunk_size : ℕ
chunk_size = 65536

abbrev pub newline_byte : ℕ
newline_byte = 10

-- bytes.Count of one byte.
unfoldable pub count_newlines : Text → ℕ
count_newlines [] = 0
count_newlines (c ∷ s) = if c == newline_byte then suc (count_newlines s) else count_newlines s

-- What has been read, joined, and where in the file it starts.
pub record Read : Type 0 where
  pub bytes : Text
  pub position : ℕ

-- The loop, until the file is read or has given more than `n` newlines. Each round lowers the
-- position, so as much fuel as there are bytes is enough.
unfoldable pub read_back : ℕ → ℕ → Text → ℕ → Read → ℕ → Read
unfolding count_newlines
read_back size n file zero r newlines = r
read_back size n file (suc fuel) r newlines =
    let start_at = r.position - size in
    let chunk = take (r.position - start_at) (drop start_at file) in
    let r' : Read = record { bytes = chunk ++ r.bytes; position = start_at } in
    let next = read_back size n file fuel r' (newlines + count_newlines chunk) in
    if r.position == 0 then r else if ltb n (newlines + count_newlines chunk) then r' else next

-- `if lines[len(lines)-1] == "" { lines = lines[:len(lines)-1] }`
abbrev pub drop_blank_end : List Text → List Text
drop_blank_end [] = []
drop_blank_end (line ∷ []) = if is_empty line then [] else line ∷ []
drop_blank_end (line ∷ next ∷ lines) = line ∷ drop_blank_end (next ∷ lines)

-- `lines[len(lines)-n:]` where there are more than `n`.
abbrev pub last_lines : ℕ → List Text → List Text
last_lines n lines = drop (length lines - n) lines

abbrev pub lines_of : Text → List Text
lines_of s = drop_blank_end (split_at newline_byte s)

-- `if n <= 0 { n = 200 }`
abbrev pub tail_count : ℤ → ℕ
tail_count (pos zero) = 200
tail_count (pos (suc n)) = suc n
tail_count (negsuc n) = 200

abbrev pub tail_of_read : ℕ → Read → Text
tail_of_read n r =
    join (last_lines n (if ltb 0 r.position then drop 1 (lines_of r.bytes) else lines_of r.bytes))
      (newline_byte ∷ [])

unfoldable pub tail_file : ℕ → Text → ℤ → Text
unfolding read_back split_at join
tail_file size file lines =
    let n = tail_count lines in
    if is_empty file
    then []
    else tail_of_read n
        (read_back size n file (length file) (record { bytes = []; position = length file }) 0)
