-- ===== src/Curl/Parse.antt =====
-- ParseCurl and curlRequestName of internal/domain/curl.go. What the standard library makes of a
-- number of seconds and of a URL is the parameter `lib`.
pub mod RoundTrip
use agent_shell.Base.{
  if◌then◌else◌, is_some, or_else, get_or, Text, lit, is_empty, trim_space, CaseTable, join, lookup,
  insert, Result, ◌>>=◌, ok, err, cut, trim_set, split_at, ℕ, Bool, true, false, not, ◌&&◌, ◌||◌,
  Option, none, some, List, [], ◌∷◌, ◌++◌,
}
use agent_shell.Curl.Flags.{
  Flag, flag_of, calls_next, is_curl_binary, request_flag, header_flag, content_flag, json_flag,
  url_flag, agent_flag, time_flag, user_flag, head_flag, no_flag,
}
use agent_shell.Curl.Split.{split_curl}
use agent_shell.Http.Request.{
  HttpError, normalize_http_method, not_curl, invalid_max_time, credentials, missing_url,
  flag_requires_value, invalid_header,
}

pub record CurlLibrary : Type 0 where
  pub table : CaseTable
  -- `int(seconds * 1000)` of strconv.ParseFloat, where that is no error and not negative.
  pub milliseconds : Text → Option ℕ
  -- The path and the host of url.Parse, where that is no error.
  pub url_parse : Text → Option (Text × Text)

pub record ParsedCurl : Type 0 where
  pub name : Text
  pub method : Text
  pub url : Text
  pub headers : List (Text × Text)
  pub body : Text
  pub timeout_ms : ℕ

-- The variables of the loop.
pub record CurlArgs : Type 0 where
  pub headers : List (Text × Text)
  pub contents : List Text
  pub explicit_method : Text
  pub head : Bool
  pub json_body : Bool
  pub timeout_ms : ℕ
  pub target : Text

abbrev pub no_args : CurlArgs
no_args = record {
  headers = [];
  contents = [];
  explicit_method = [];
  head = false;
  json_body = false;
  timeout_ms = 0;
  target = [];
}

-- `if _, ok := headers[key]; !ok { headers[key] = value }`
abbrev set_default : Text → Text → List (Text × Text) → List (Text × Text)
set_default key value headers =
    if is_some (lookup key headers) then headers else insert key value headers

abbrev set_header : Text → CurlArgs → Option (Text × Text) → Result HttpError CurlArgs
set_header value a none = err (invalid_header value)
set_header value a (some (key, rest)) =
    if is_empty (trim_space key)
    then err (invalid_header value)
    else ok (record a { headers = insert (trim_space key) (trim_space rest) a.headers })

abbrev set_timeout : CurlArgs → Option ℕ → Result HttpError CurlArgs
set_timeout a none = err invalid_max_time
set_timeout a (some ms) = ok (record a { timeout_ms = ms })

abbrev add_json : Text → CurlArgs → CurlArgs
add_json value a = record a {
  json_body = true;
  contents = a.contents ++ value ∷ [];
  headers =
      set_default (lit "Accept") (lit "application/json")
        (set_default (lit "Content-Type") (lit "application/json") a.headers);
}

-- The cases that have called `next`, with the value that it gave.
unfoldable pub with_value : CurlLibrary → Flag → Text → CurlArgs → Result HttpError CurlArgs
unfolding cut trim_space insert lookup
with_value lib request_flag value a = ok (record a { explicit_method = value })
with_value lib header_flag value a = set_header value a (cut b':' value)
with_value lib content_flag value a = ok (record a { contents = a.contents ++ value ∷ [] })
with_value lib json_flag value a = ok (add_json value a)
with_value lib url_flag value a = ok (record a { target = value })
with_value lib agent_flag value a =
    ok (record a { headers = insert (lit "User-Agent") value a.headers })
with_value lib time_flag value a = set_timeout a (lib.milliseconds value)
with_value lib user_flag value a = err credentials
with_value lib _ value a = ok a

-- The other cases.
unfoldable pub without_value : Flag → Text → CurlArgs → CurlArgs
without_value head_flag token a = record a { head = true }
without_value no_flag token a = if is_empty a.target then record a { target = token } else a
without_value _ token a = a

-- The loop; a flag at the end whose value is missing is an error.
unfoldable pub read_words : CurlLibrary → List Text → CurlArgs → Result HttpError CurlArgs
unfolding flag_of with_value without_value
read_words lib [] a = ok a
read_words lib (token ∷ []) a =
    if calls_next (flag_of token)
    then err (flag_requires_value token)
    else ok (without_value (flag_of token) token a)
read_words lib (token ∷ value ∷ words) a = elim (calls_next (flag_of token)) [
  | true ↦ with_value lib (flag_of token) value a >>= read_words lib words
  | false ↦ read_words lib (value ∷ words) (without_value (flag_of token) token a)
]

-- The last part of a path that is not empty.
abbrev last_part : List Text → Option Text
last_part [] = none
last_part (p ∷ ps) = or_else (last_part ps) (if is_empty p then none else some p)

abbrev name_of_parts : Option (Text × Text) → Text
name_of_parts none = lit "Imported request"
name_of_parts (some (path, host)) =
    get_or (last_part (split_at b'/' (trim_set (b'/' ∷ []) path)))
      (if is_empty host then lit "Imported request" else host)

unfoldable pub curl_request_name : CurlLibrary → Text → Text
unfolding split_at trim_set
curl_request_name lib raw = name_of_parts (lib.url_parse raw)

abbrev is_given : List Text → Bool
is_given [] = false
is_given (d ∷ ds) = true

unfoldable pub curl_method : CurlArgs → Text
curl_method a =
    if not (is_empty a.explicit_method)
    then a.explicit_method
    else if (is_given a.contents || a.json_body) && not a.head
    then lit "POST"
    else if a.head
    then lit "HEAD"
    else lit "GET"

-- `if jsonBody && len(data) == 1 { body = data[0] }`
abbrev curl_body : CurlArgs → List Text → Text
curl_body a (only ∷ []) = if a.json_body then only else join (only ∷ []) (lit "&")
curl_body a contents = join contents (lit "&")

unfoldable pub finish_curl : CurlLibrary → CurlArgs → Result HttpError ParsedCurl
unfolding curl_method curl_request_name trim_space normalize_http_method join
finish_curl lib a =
    if is_empty (trim_space a.target)
    then err missing_url
    else normalize_http_method lib.table (curl_method a) >>= λ method. ok (record {
      name = curl_request_name lib a.target;
      method = method;
      url = trim_space a.target;
      headers = a.headers;
      body = curl_body a a.contents;
      timeout_ms = a.timeout_ms;
    })

unfoldable pub parse_words : CurlLibrary → List Text → Result HttpError ParsedCurl
unfolding is_curl_binary read_words finish_curl
parse_words lib [] = err not_curl
parse_words lib (token ∷ words) =
    if not (is_curl_binary lib.table token)
    then err not_curl
    else read_words lib words no_args >>= finish_curl lib

unfoldable pub parse_curl : CurlLibrary → Text → Result HttpError ParsedCurl
unfolding split_curl parse_words
parse_curl lib raw = split_curl raw >>= parse_words lib
