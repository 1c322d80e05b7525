-- ===== src/Curl/Flags.antt =====
-- What ParseCurl of internal/domain/curl.go takes a word of the command for: the switch of its loop,
-- isCurlBinary, flagTakesValue and isBooleanCurlFlag.
use agent_shell.Base.{
  ◌==◌, if◌then◌else◌, Text, lit, text_eq, CaseTable, to_lower, has_prefix, contains, has_suffix,
  trim_suffix, has_part, trim_set, ◌≡◌, refl, Bool, true, false, not, ◌&&◌, ◌||◌, List, [], ◌∷◌,
  arith,
}

-- The cases of the switch; its default case falls in three: a flag that takes a value, another flag,
-- and a word that is no flag.
pub data Flag : Type 0 where
  request_flag header_flag content_flag json_flag url_flag agent_flag time_flag user_flag : Flag
  head_flag valued_flag plain_flag no_flag : Flag

abbrev pub boolean_flags : List Text
boolean_flags =
    lit "-s"
    ∷ lit "--silent"
    ∷ lit "-S"
    ∷ lit "--show-error"
    ∷ lit "-v"
    ∷ lit "--verbose"
    ∷ lit "-k"
    ∷ lit "--insecure"
    ∷ lit "-L"
    ∷ lit "--location"
    ∷ lit "-g"
    ∷ lit "--globoff"
    ∷ lit "--compressed"
    ∷ lit "-f"
    ∷ lit "--fail"
    ∷ lit "-i"
    ∷ lit "--include"
    ∷ lit "-I"
    ∷ lit "--head"
    ∷ lit "-N"
    ∷ lit "--no-buffer"
    ∷ []

abbrev pub valued_flags : List Text
valued_flags =
    lit "-o"
    ∷ lit "--output"
    ∷ lit "-w"
    ∷ lit "--write-out"
    ∷ lit "-D"
    ∷ lit "--dump-header"
    ∷ lit "--retry"
    ∷ lit "--connect-timeout"
    ∷ lit "--resolve"
    ∷ lit "--proxy"
    ∷ lit "-x"
    ∷ lit "--cacert"
    ∷ lit "--cert"
    ∷ lit "--key"
    ∷ lit "-E"
    ∷ lit "-b"
    ∷ lit "--cookie"
    ∷ lit "-c"
    ∷ lit "--cookie-jar"
    ∷ lit "--unix-socket"
    ∷ lit "--interface"
    ∷ lit "--keepalive-time"
    ∷ lit "--limit-rate"
    ∷ lit "--max-redirs"
    ∷ lit "--retry-delay"
    ∷ []

unfoldable pub is_boolean_curl_flag : Text → Bool
unfolding contains
is_boolean_curl_flag flag = contains boolean_flags flag

unfoldable pub flag_takes_value : Text → Bool
unfolding contains has_prefix has_part is_boolean_curl_flag
flag_takes_value flag =
    contains valued_flags flag
    || (has_prefix flag (lit "--")
        && not (has_part flag (lit "="))
        && not (is_boolean_curl_flag flag))

-- The default case.
unfoldable pub other_flag : Text → Flag
unfolding flag_takes_value has_prefix
other_flag token =
    if not (has_prefix token (lit "-"))
    then no_flag
    else if flag_takes_value token
    then valued_flag
    else plain_flag

unfoldable pub flag_of : Text → Flag
unfolding contains other_flag
flag_of token =
    if contains (lit "-X" ∷ lit "--request" ∷ []) token
    then request_flag
    else if contains (lit "-H" ∷ lit "--header" ∷ []) token
    then header_flag
    else if contains
        (lit "-d"
          ∷ lit "--data"
          ∷ lit "--data-raw"
          ∷ lit "--data-binary"
          ∷ lit "--data-urlencode"
          ∷ [])
        token
    then content_flag
    else if text_eq token (lit "--json")
    then json_flag
    else if text_eq token (lit "--url")
    then url_flag
    else if contains (lit "-A" ∷ lit "--user-agent" ∷ []) token
    then agent_flag
    else if contains (lit "-m" ∷ lit "--max-time" ∷ []) token
    then time_flag
    else if contains (lit "-I" ∷ lit "--head" ∷ []) token
    then head_flag
    else if contains (lit "-u" ∷ lit "--user" ∷ []) token
    then user_flag
    else other_flag token

-- The cases that call `next`.
abbrev pub calls_next : Flag → Bool
calls_next head_flag = false
calls_next plain_flag = false
calls_next no_flag = false
calls_next _ = true

unfoldable pub is_curl_binary : CaseTable → Text → Bool
unfolding trim_set to_lower trim_suffix has_suffix text_eq
is_curl_binary t token =
    let name = trim_suffix (to_lower t (trim_set (b'"' ∷ b'\'' ∷ []) token)) (lit ".exe") in
    text_eq name (lit "curl") || has_suffix name (lit "/curl")

-- A word that does not start with a dash is no flag.
pub flag_of-no_dash : (token : Text) → has_prefix token (lit "-") ≡ false → flag_of token ≡ no_flag
unfolding flag_of text_eq
flag_of-no_dash [] h = refl
flag_of-no_dash (c ∷ s) h =
    let other : (c == b'-') ≡ false = ground arith in
    let other' : (b'-' == c) ≡ false = ground arith in rw (other', other) refl
