-- ===== src/Curl/Parse/RoundTrip.antt =====
-- ParseCurl of internal/domain/curl.go reads a request that was written as a curl command.
use agent_shell.Base.{
  ◌==◌, all, all-cons, Text, lit, text_eq, text_eq_iff, is_empty, trim_space, to_lower, has_prefix,
  join, Distinct, insert, keys, insert_fresh, Distinct-keys-middle, ◌>>=◌, ok, cut-append, ◌≡◌,
  refl, sym, ap, ◌∙◌, subst, Bool, true, false, not, ◌&&◌, List, [], ◌∷◌, ◌++◌, append_assoc,
  append-nil, arith,
}
use agent_shell.Curl.Flags.{flag_of, is_curl_binary, flag_of-no_dash, header_flag}
use agent_shell.Curl.Parse.{
  CurlLibrary, ParsedCurl, CurlArgs, no_args, with_value, without_value, read_words,
  curl_request_name, curl_method, finish_curl, parse_words, parse_curl, curl_body,
}
use agent_shell.Curl.Split.Quoted.{Piece, can_stand, typed_line}
use agent_shell.Curl.Split.RoundTrip.{words_of, split_curl-typed_line}
use agent_shell.Http.Request.{normalize_http_method}

-- The words of the command for a request: method, headers, body where there is one, URL.
abbrev pub header_words : List (Text × Text) → List Text
header_words [] = []
header_words ((key, value) ∷ headers) = lit "-H" ∷ (key ++ b':' ∷ 32 ∷ value) ∷ header_words headers

abbrev pub body_words : Text → List Text
body_words [] = []
body_words (c ∷ body) = lit "--data-raw" ∷ (c ∷ body) ∷ []

abbrev pub curl_words : ParsedCurl → List Text
curl_words q =
    lit "curl" ∷ lit "-X" ∷ q.method ∷ (header_words q.headers ++ (body_words q.body ++ q.url ∷ []))

abbrev pub is_header : Text × Text → Bool
is_header (key, value) =
    all (λ c. not (c == b':')) key
    && not (is_empty key)
    && text_eq (trim_space key) key
    && text_eq (trim_space (32 ∷ value)) value

-- A request that a command can stand for: a method as it is saved, headers whose names and values are
-- trimmed, none twice and no name with a colon, and a URL that is trimmed, not empty, and no flag.
pub record IsWritable (lib : CurlLibrary) (q : ParsedCurl) : Type 0 where
  pub method_known : normalize_http_method lib.table q.method ≡ ok q.method
  pub method_given : is_empty q.method ≡ false
  pub distinct : Distinct (keys q.headers)
  pub header_each : all is_header q.headers ≡ true
  pub url_trimmed : trim_space q.url ≡ q.url
  pub url_given : is_empty q.url ≡ false
  pub url_no_flag : has_prefix q.url (lit "-") ≡ false
  pub named : q.name ≡ curl_request_name lib q.url
  pub no_timeout : q.timeout_ms ≡ 0

header_read :
    (lib : CurlLibrary) (key value : Text) (a : CurlArgs)
    → is_header (key, value) ≡ true
    → with_value lib header_flag (key ++ b':' ∷ 32 ∷ value) a
      ≡ ok (record a { headers = insert key value a.headers })
unfolding with_value
header_read lib key value a h =
    let no_colon : all (λ c. not (c == b':')) key ≡ true = ground arith in
    let full : is_empty key ≡ false = ground arith in
    let trimmed : trim_space key ≡ key = (text_eq_iff (trim_space key) key).0 (ground arith) in
    let clean : trim_space (32 ∷ value) ≡ value =
      (text_eq_iff (trim_space (32 ∷ value)) value).0 (ground arith) in
    rw (cut-append b':' key (32 ∷ value) no_colon) (rw (trimmed, clean) (rw full refl))

-- The headers are read one after the other.
headers_read :
    (lib : CurlLibrary) (hs : List (Text × Text)) (rest : List Text) (a : CurlArgs)
    → all is_header hs ≡ true
    → Distinct (keys (a.headers ++ hs))
    → read_words lib (header_words hs ++ rest) a
      ≡ read_words lib rest (record a { headers = a.headers ++ hs })
unfolding read_words flag_of text_eq
headers_read lib [] rest a h d = rw append-nil
headers_read lib ((key, value) ∷ hs) rest a h d =
    let (first, others) = all-cons is_header (key, value) hs h in
    let fresh = Distinct-keys-middle a.headers key value hs d in
    let a' = record a { headers = a.headers ++ (key, value) ∷ [] } in
    ap (λ r. r >>= read_words lib (header_words hs ++ rest))
      (header_read lib key value a first
        ∙ ap (λ m. ok (record a { headers = m })) (insert_fresh key value a.headers fresh))
    ∙ headers_read lib hs rest a' others
        (subst (λ m. Distinct (keys m)) (sym (append_assoc a.headers ((key, value) ∷ []) hs)) d)
    ∙ ap (λ m. read_words lib rest (record a { headers = m }))
        (append_assoc a.headers ((key, value) ∷ []) hs)

abbrev contents_of : Text → List Text
contents_of [] = []
contents_of (c ∷ body) = (c ∷ body) ∷ []

url_read :
    (lib : CurlLibrary) (url : Text) (a : CurlArgs)
    → has_prefix url (lit "-") ≡ false
    → a.target ≡ []
    → read_words lib (url ∷ []) a ≡ ok (record a { target = url })
unfolding read_words without_value
url_read lib url a h e = rw (flag_of-no_dash url h) (rw e refl)

body_read :
    (lib : CurlLibrary) (body url : Text) (a : CurlArgs)
    → has_prefix url (lit "-") ≡ false
    → a.contents ≡ []
    → a.target ≡ []
    → read_words lib (body_words body ++ url ∷ []) a
      ≡ ok (record a { contents = contents_of body; target = url })
unfolding read_words flag_of with_value text_eq
body_read lib [] url a h e f = url_read lib url a h f ∙ rw e refl
body_read lib (c ∷ body) url a h e f =
    url_read lib url (record a { contents = a.contents ++ (c ∷ body) ∷ [] }) h f ∙ rw e refl

abbrev args_of : ParsedCurl → CurlArgs
args_of q = record {
  headers = q.headers;
  contents = contents_of q.body;
  explicit_method = q.method;
  head = false;
  json_body = false;
  timeout_ms = 0;
  target = q.url;
}

words_read :
    (lib : CurlLibrary) (q : ParsedCurl)
    → IsWritable lib q
    → parse_words lib (curl_words q) ≡ finish_curl lib (args_of q)
unfolding parse_words read_words flag_of with_value is_curl_binary to_lower
words_read lib q w =
    ap (λ r. r >>= finish_curl lib)
      (headers_read lib q.headers (body_words q.body ++ q.url ∷ [])
          (record no_args { explicit_method = q.method }) w.header_each w.distinct
        ∙ body_read lib q.body q.url
            (record no_args { explicit_method = q.method; headers = q.headers }) w.url_no_flag refl
            refl)

body_joined : (a : CurlArgs) (body : Text) → curl_body a (contents_of body) ≡ body
unfolding join
body_joined a [] = refl
body_joined a (c ∷ body) = ground arith

finished :
    (lib : CurlLibrary) (q : ParsedCurl) → IsWritable lib q → finish_curl lib (args_of q) ≡ ok q
unfolding finish_curl curl_method
finished lib q w =
    rw (w.url_trimmed, w.url_given, w.method_given)
      (rw w.method_known (rw (body_joined (args_of q) q.body) (cc (w.named, w.no_timeout))))

-- A request that is written as a curl command, each word bare or in quotes of either kind as long as
-- it has no end of line, is parsed into the same request: its method, URL, headers and body.
pub parse_curl-typed_line :
    (lib : CurlLibrary) (q : ParsedCurl) (ws : List (List Piece))
    → IsWritable lib q
    → all (all can_stand) ws ≡ true
    → words_of ws ≡ curl_words q
    → parse_curl lib (typed_line ws) ≡ ok q
unfolding parse_curl
parse_curl-typed_line lib q ws w h e =
    rw (split_curl-typed_line ws h) (rw e (words_read lib q w ∙ finished lib q w))
