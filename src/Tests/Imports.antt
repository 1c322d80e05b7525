-- ===== src/Tests/Imports.antt =====
-- Curl commands.
use agent_shell.Base.{
  Text, lit, text_eq, is_space, trim_space, CaseTable, to_upper, has_prefix, contains, ok, err,
  has_part, ◌≡◌, refl, none, some, List, [], ◌∷◌,
}
use agent_shell.Curl.Parse.{CurlLibrary, ParsedCurl, curl_request_name, parse_curl}
use agent_shell.Curl.Parse.RoundTrip.{IsWritable, parse_curl-typed_line}
use agent_shell.Curl.Split.{split_curl, scan_rune}
use agent_shell.Curl.Split.Quoted.{single, Piece, typed_line, bare, double}
use agent_shell.Curl.Split.RoundTrip.{split_curl-typed_line}
use agent_shell.Curl.Vars.{rewrite_url_with_vars}
use agent_shell.Curl.Vars.Restored.{interpolate-rewrite_url_with_vars}
use agent_shell.Env.Names.{valid_env_key}
use agent_shell.Http.Interpolate.{interpolate}
use agent_shell.Http.Request.{normalize_http_method, unresolved, missing_url}

abbrev ascii : CaseTable
ascii = record { lower = λ c. c; upper = λ c. c }

abbrev plain_urls : CurlLibrary
plain_urls = record {
  table = ascii;
  milliseconds = λ s. none;
  url_parse = λ s. some (lit "/v1/users", lit "api.local");
}

abbrev typed_words : List (List Piece)
typed_words =
    (bare (lit "curl") ∷ [])
    ∷ (bare (lit "-X") ∷ [])
    ∷ (bare (lit "PUT") ∷ [])
    ∷ (bare (lit "-H") ∷ [])
    ∷ (single (lit "Accept: text/plain") ∷ [])
    ∷ (bare (lit "--data-raw") ∷ [])
    ∷ (double (lit "{\"name\": ") ∷ single (lit "\"x y\"") ∷ bare (lit "}") ∷ [])
    ∷ (bare (lit "http://api.local/v1/users") ∷ [])
    ∷ []

abbrev put_user : ParsedCurl
put_user = record {
  name = lit "users";
  method = lit "PUT";
  url = lit "http://api.local/v1/users";
  headers = (lit "Accept", lit "text/plain") ∷ [];
  body = lit "{\"name\": \"x y\"}";
  timeout_ms = 0;
}

put_user-IsWritable : IsWritable plain_urls put_user
unfolding trim_space has_prefix normalize_http_method to_upper text_eq contains curl_request_name
put_user-IsWritable = record {
  method_known = refl;
  method_given = refl;
  distinct = (refl, tt);
  header_each = refl;
  url_trimmed = refl;
  url_given = refl;
  url_no_flag = refl;
  named = refl;
  no_timeout = refl;
}

parse_curl-typed_line_example : parse_curl plain_urls (typed_line typed_words) ≡ ok put_user
unfolding is_space
parse_curl-typed_line_example =
    parse_curl-typed_line plain_urls put_user typed_words put_user-IsWritable refl refl

-- `curl -d '' http://a`: the flag takes the URL for its value.
abbrev empty_body : List (List Piece)
empty_body =
    (bare (lit "curl") ∷ [])
    ∷ (bare (lit "-d") ∷ [])
    ∷ (single [] ∷ [])
    ∷ (bare (lit "http://a") ∷ [])
    ∷ []

empty_body_splits :
    split_curl (typed_line empty_body) ≡ ok (lit "curl" ∷ lit "-d" ∷ lit "http://a" ∷ [])
unfolding is_space
empty_body_splits = split_curl-typed_line empty_body refl

empty_body_lost : parse_curl plain_urls (typed_line empty_body) ≡ err missing_url
unfolding parse_curl trim_space scan_rune
empty_body_lost = refl

abbrev base_urls : List (Text × Text)
base_urls = (lit "host", lit "http://a") ∷ (lit "api", lit "http://a/v1") ∷ []

rewritten : rewrite_url_with_vars (lit "http://a/v1/x") base_urls ≡ lit "{{api}}/x"
unfolding rewrite_url_with_vars
rewritten = refl

interpolate-rewrite_url_with_vars_example :
    interpolate (rewrite_url_with_vars (lit "http://a/v1/x") base_urls) base_urls
    ≡ ok (lit "http://a/v1/x")
unfolding valid_env_key text_eq contains has_part
interpolate-rewrite_url_with_vars_example =
    interpolate-rewrite_url_with_vars (lit "http://a/v1/x") base_urls (refl, (refl, tt))
      (refl, (refl, tt)) refl

missing_value : interpolate (lit "{{ host }}/{{id}}") base_urls ≡ err (unresolved (lit "id" ∷ []))
unfolding interpolate text_eq
missing_value = refl
