-- ===== src/Env/Names.antt =====
-- The names of internal/domain/env.go: ValidEnvironmentName, ValidEnvKey, DefaultEnvironmentNameIn,
-- EnsureSeededEnvironmentNames.
use agent_shell.Base.{
  ℕ, ◌≡◌, refl, Bool, true, false, not, ◌&&◌, ◌||◌, List, [], ◌∷◌, ◌++◌, arith, ◌==◌, leb,
  if◌then◌else◌, length, all, any, Text, lit, text_eq, is_empty, is_space, trim_space,
  trim_space_of_no_space, CaseTable, lower_rune, to_lower, map_text, contains, and-true, all-cons,
}

abbrev pub reserved_environment_name : Text
reserved_environment_name = lit "custom"

abbrev pub default_environment_name : Text
default_environment_name = lit "local"

abbrev pub seeded_environment_names : List Text
seeded_environment_names = default_environment_name ∷ lit "prod" ∷ lit "stage" ∷ lit "test" ∷ []

abbrev pub is_lower : ℕ → Bool
is_lower c = leb b'a' c && leb c b'z'

abbrev is_upper : ℕ → Bool
is_upper c = leb b'A' c && leb c b'Z'

abbrev pub is_digit : ℕ → Bool
is_digit c = leb b'0' c && leb c b'9'

abbrev pub is_name_rune : ℕ → Bool
is_name_rune c = is_lower c || is_digit c || c == b'_' || c == b'-'

-- `^[a-z][a-z0-9_-]{0,31}$`
unfoldable pub env_name_matches : Text → Bool
env_name_matches [] = false
env_name_matches (c ∷ s) = is_lower c && all is_name_rune s && leb (length s) 31

unfoldable pub valid_environment_name : Text → Bool
valid_environment_name name = env_name_matches name && not (text_eq name reserved_environment_name)

abbrev pub is_key_start : ℕ → Bool
is_key_start c = is_upper c || is_lower c || c == b'_'

abbrev pub is_key_rune : ℕ → Bool
is_key_rune c = is_key_start c || is_digit c

-- `^[A-Za-z_][A-Za-z0-9_]*$`
unfoldable pub valid_env_key : Text → Bool
valid_env_key [] = false
valid_env_key (c ∷ s) = is_key_start c && all is_key_rune s

unfoldable pub first_or_default : List Text → Text
first_or_default [] = default_environment_name
first_or_default (name ∷ names) = name

unfoldable pub default_environment_name_in : List Text → Text
unfolding first_or_default
default_environment_name_in names =
    if any (λ name. text_eq name default_environment_name) names
    then default_environment_name
    else first_or_default names

-- The first loop of EnsureSeededEnvironmentNames; `seen` holds exactly what `out` holds.
unfoldable pub distinct_names : CaseTable → List Text → List Text → List Text
distinct_names t [] out = out
distinct_names t (raw ∷ names) out =
    let name = to_lower t (trim_space raw) in
    distinct_names t names (if is_empty name || contains out name then out else out ++ name ∷ [])

-- The second loop.
unfoldable pub add_missing : List Text → List Text → List Text
add_missing [] out = out
add_missing (name ∷ names) out =
    add_missing names (if contains out name then out else out ++ name ∷ [])

abbrev or_seeded : List Text → List Text
or_seeded [] = seeded_environment_names
or_seeded (name ∷ names) = name ∷ names

unfoldable pub ensure_seeded_environment_names : CaseTable → List Text → List Text
unfolding distinct_names add_missing
ensure_seeded_environment_names t names =
    or_seeded (add_missing seeded_environment_names (distinct_names t names []))

-- A valid name or key is left alone by the trimming and the lower case.
no_space_of_name_rune : (c : ℕ) → is_name_rune c ≡ true → is_space c ≡ false
unfolding is_space
no_space_of_name_rune c h = ground arith

lower_of_name_rune : (t : CaseTable) (c : ℕ) → is_name_rune c ≡ true → lower_rune t c ≡ c
unfolding lower_rune
lower_of_name_rune t c h = ground arith

all_no_space : (s : Text) → all is_name_rune s ≡ true → all (λ c. not (is_space c)) s ≡ true
all_no_space [] h = refl
all_no_space (c ∷ s) h =
    let (first, rest) = all-cons is_name_rune c s h in
    ground (arith, no_space_of_name_rune c first, all_no_space s rest)

map_lower : (t : CaseTable) (s : Text) → all is_name_rune s ≡ true → map_text (lower_rune t) s ≡ s
map_lower t [] h = refl
map_lower t (c ∷ s) h =
    let (first, rest) = all-cons is_name_rune c s h in
    cc (lower_of_name_rune t c first, map_lower t s rest)

name_runes : (s : Text) → env_name_matches s ≡ true → all is_name_rune s ≡ true
unfolding env_name_matches
name_runes [] h = cc
name_runes (c ∷ s) h = ground arith

pub valid_name_kept :
    (t : CaseTable) (s : Text) → valid_environment_name s ≡ true → to_lower t (trim_space s) ≡ s
unfolding valid_environment_name to_lower
valid_name_kept t s h =
    let runes = name_runes s (and-true _ _ h).0 in
    rw (trim_space_of_no_space s (all_no_space s runes)) (map_lower t s runes)

key_no_space : (s : Text) → all is_key_rune s ≡ true → all (λ c. not (is_space c)) s ≡ true
unfolding is_space
key_no_space [] h = refl
key_no_space (c ∷ s) h =
    let (first, rest) = all-cons is_key_rune c s h in ground (arith, key_no_space s rest)

pub valid_key_kept : (s : Text) → valid_env_key s ≡ true → trim_space s ≡ s
unfolding valid_env_key
valid_key_kept [] h = cc
valid_key_kept (c ∷ s) h = trim_space_of_no_space (c ∷ s) (key_no_space (c ∷ s) (ground arith))

pub valid_name-ne-empty : (s : Text) → valid_environment_name s ≡ true → is_empty s ≡ false
unfolding valid_environment_name env_name_matches
valid_name-ne-empty [] h = cc
valid_name-ne-empty (c ∷ s) h = refl

pub valid_name-ne-reserved :
    (s : Text) → valid_environment_name s ≡ true → text_eq s reserved_environment_name ≡ false
unfolding valid_environment_name
valid_name-ne-reserved s h = ground arith

pub valid_key-ne-empty : (s : Text) → valid_env_key s ≡ true → is_empty s ≡ false
unfolding valid_env_key
valid_key-ne-empty [] h = cc
valid_key-ne-empty (c ∷ s) h = refl
