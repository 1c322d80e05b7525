-- ===== src/Curl/Vars.antt =====
-- RewriteURLWithVars of internal/domain/curl.go: the longest value of the environment that a URL starts
-- with is replaced by its placeholder.
pub mod Restored
use agent_shell.Base.{
  ltb, ◌==◌, if◌then◌else◌, length, drop, Text, is_empty, byte_len, has_prefix, Bool, true, not,
  ◌||◌, List, [], ◌∷◌, ◌++◌,
}

-- `rest == "" || rest[0] == '/' || rest[0] == '?' || rest[0] == '#'`
abbrev pub ends_part : Text → Bool
ends_part [] = true
ends_part (c ∷ s) = c == b'/' || c == b'?' || c == b'#'

-- The best key and value so far.
abbrev pub Best : Type 0
Best = Text × Text

abbrev pub better : Text → Text → Text → Best → Best
better raw key value (best_key, best_value) =
    if is_empty value || not (has_prefix raw value)
    then (best_key, best_value)
    else if not (ends_part (drop (length value) raw))
    then (best_key, best_value)
    else if ltb (byte_len best_value) (byte_len value)
    then (key, value)
    else (best_key, best_value)

-- The loop over the environment, in any order.
unfoldable pub best_of : Text → List (Text × Text) → Best → Best
unfolding has_prefix byte_len
best_of raw [] best = best
best_of raw ((key, value) ∷ vars) best = best_of raw vars (better raw key value best)

abbrev pub replaced : Text → Best → Text
replaced raw (best_key, best_value) =
    if is_empty best_key
    then raw
    else b'{' ∷ b'{' ∷ (best_key ++ b'}' ∷ b'}' ∷ []) ++ drop (length best_value) raw

unfoldable pub rewrite_url_with_vars : Text → List (Text × Text) → Text
unfolding best_of
rewrite_url_with_vars raw vars = replaced raw (best_of raw vars ([], []))
