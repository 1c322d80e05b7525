-- ===== src/Curl/Split.antt =====
-- splitCurl of internal/domain/curl.go: the words of a command line.
pub mod Quoted
pub mod RoundTrip
use agent_shell.Base.{
  ◌==◌, if◌then◌else◌, Text, is_empty, is_space, Result, ok, err, replace_from, replace_all, ℕ,
  Bool, true, false, not, ◌&&◌, ◌||◌, List, [], ◌∷◌, ◌++◌,
}
use agent_shell.Http.Request.{HttpError, unterminated_quote}

-- The variables of the loop; `quote` is 0 outside of quotes.
pub record Scan : Type 0 where
  pub tokens : List Text
  pub word : Text
  pub quote : ℕ
  pub escape : Bool

abbrev pub flush : Scan → Scan
flush s = if is_empty s.word then s else record s { tokens = s.tokens ++ s.word ∷ []; word = [] }

abbrev pub write_rune : ℕ → Scan → Scan
write_rune r s = record s { word = s.word ++ r ∷ [] }

-- The body of the loop, in the order of its tests.
unfoldable pub scan_rune : Scan → ℕ → Scan
unfolding is_space
scan_rune s r =
    if s.escape
    then record (write_rune r s) { escape = false }
    else if not (s.quote == 0)
    then if r == b'\\' && s.quote == b'"'
      then record s { escape = true }
      else if r == s.quote
      then record s { quote = 0 }
      else write_rune r s
    else if r == b'\\'
    then record s { escape = true }
    else if r == b'\'' || r == b'"'
    then record s { quote = r }
    else if is_space r
    then flush s
    else write_rune r s

unfoldable pub scan : Scan → Text → Scan
scan s [] = s
scan s (r ∷ rs) = scan (scan_rune s r) rs

abbrev pub no_words : Scan
no_words = record { tokens = []; word = []; quote = 0; escape = false }

-- `\` before the end of a line joins it to the next one.
abbrev pub join_lines : Text → Text
join_lines raw =
    replace_all (replace_all raw (b'\\' ∷ b'\r' ∷ b'\n' ∷ []) (32 ∷ [])) (b'\\' ∷ b'\n' ∷ [])
      (32 ∷ [])

abbrev pub scanned : Scan → Result HttpError (List Text)
scanned s = if not (s.quote == 0) then err unterminated_quote else ok (flush s).tokens

unfoldable pub split_curl : Text → Result HttpError (List Text)
unfolding scan replace_from
split_curl raw = scanned (scan no_words (join_lines raw))
