-- ===== src/Base/Dicts.antt =====
-- Go maps with text keys, as association lists in the order in which a range loop meets the keys
-- (the runtime picks it, so a theorem holds for each order), and sets of texts as lists.
use mathlib.Core.Path.{subst, sym, ◌∙◌, ap, ◌≡◌, refl}
use mathlib.Core.Bool.{Bool, true, false, ◌||◌}
use mathlib.Core.Option.{Option, none, some}
use mathlib.Core.Logic.{◌≢◌, inl, inr}
use mathlib.Core.List.{append_assoc, List, [], ◌∷◌, ◌++◌}
use native.Mathlib.Omega.{arith}
use agent_shell.Base.Lists.{All}
use agent_shell.Base.Tests.{if◌then◌else◌, or_else, Bool-cases}
use agent_shell.Base.Texts.{Text, text_eq, text_eq_refl, text_eq_iff}

-- `seen[x]` for a `map[string]bool` that only ever gets the value true.
unfoldable pub contains : List Text → Text → Bool
contains [] x = false
contains (y ∷ ys) x = text_eq y x || contains ys x

pub contains-append :
    (xs ys : List Text) (x : Text) → contains (xs ++ ys) x ≡ (contains xs x || contains ys x)
unfolding contains
contains-append [] ys x = refl
contains-append (y ∷ xs) ys x = ground (arith, contains-append xs ys x)

pub contains-snoc_self : (xs : List Text) (x : Text) → contains (xs ++ x ∷ []) x ≡ true
unfolding contains
contains-snoc_self [] x = ground (arith, text_eq_refl x)
contains-snoc_self (y ∷ xs) x = ground (arith, contains-snoc_self xs x)

-- No text stands twice.
abbrev pub Distinct : List Text → Type 0
Distinct [] = Unit
Distinct (x ∷ xs) = (contains xs x ≡ false) × Distinct xs

text_eq_swap : (x y : Text) → text_eq x y ≡ false → text_eq y x ≡ false
text_eq_swap x y h = ground (arith, text_eq_iff x y, text_eq_iff y x)

pub Distinct-snoc :
    (xs : List Text) (x : Text) → Distinct xs → contains xs x ≡ false → Distinct (xs ++ x ∷ [])
unfolding contains
Distinct-snoc [] x d h = (refl, tt)
Distinct-snoc (y ∷ xs) x (fresh, d) h = (
  ground (arith, contains-append xs (x ∷ []) y, text_eq_swap y x),
  Distinct-snoc xs x d (ground arith),
)

module _ {ℓ} {V : Type ℓ} where
  -- `m[k]` with its second value.
  unfoldable pub lookup : Text → List (Text × V) → Option V
  lookup k [] = none
  lookup k ((j, v) ∷ m) = if text_eq j k then some v else lookup k m

  -- `m[k] = v`
  unfoldable pub insert : Text → V → List (Text × V) → List (Text × V)
  insert k v [] = (k, v) ∷ []
  insert k v ((j, w) ∷ m) = if text_eq j k then (k, v) ∷ m else (j, w) ∷ insert k v m

  -- `delete(m, k)`
  unfoldable pub delete : Text → List (Text × V) → List (Text × V)
  delete k [] = []
  delete k ((j, w) ∷ m) = if text_eq j k then delete k m else (j, w) ∷ delete k m

  abbrev pub keys : List (Text × V) → List Text
  keys [] = []
  keys ((k, v) ∷ m) = k ∷ keys m

  pub lookup-insert :
      (k j : Text) (v : V) (m : List (Text × V))
      → lookup j (insert k v m) ≡ (if text_eq k j then some v else lookup j m)
  unfolding lookup insert
  lookup-insert k j v [] = refl
  lookup-insert k j v ((i, w) ∷ m) =
      ground (arith, text_eq_iff k j, text_eq_iff i k, text_eq_iff i j, lookup-insert k j v m)

  pub lookup-delete :
      (k j : Text) (m : List (Text × V))
      → lookup j (delete k m) ≡ (if text_eq k j then none else lookup j m)
  unfolding lookup delete
  lookup-delete k j [] = ground arith
  lookup-delete k j ((i, w) ∷ m) =
      ground (arith, text_eq_iff k j, text_eq_iff i k, text_eq_iff i j, lookup-delete k j m)

  pub contains-keys-insert :
      (k j : Text) (v : V) (m : List (Text × V))
      → contains (keys (insert k v m)) j ≡ (text_eq k j || contains (keys m) j)
  unfolding contains insert
  contains-keys-insert k j v [] = refl
  contains-keys-insert k j v ((i, w) ∷ m) =
      ground (arith, text_eq_iff i k, contains-keys-insert k j v m)

  pub Distinct-insert :
      (k : Text) (v : V) (m : List (Text × V)) → Distinct (keys m) → Distinct (keys (insert k v m))
  unfolding contains insert
  Distinct-insert k v [] d = (refl, tt)
  Distinct-insert k v ((i, w) ∷ m) (fresh, d) = ground (
    arith,
    text_eq_iff i k,
    text_eq_iff k i,
    contains-keys-insert k i v m,
    Distinct-insert k v m d,
  )

  -- A key that the map lacks.
  pub lookup_fresh :
      (k : Text) (m : List (Text × V)) → contains (keys m) k ≡ false → lookup k m ≡ none
  unfolding contains lookup
  lookup_fresh k [] h = refl
  lookup_fresh k ((i, w) ∷ m) h = ground (arith, lookup_fresh k m)

-- `for k, v := range extra { m[k] = v }`
unfoldable pub copy_into {ℓ} : {V : Type ℓ} → List (Text × V) → List (Text × V) → List (Text × V)
copy_into m [] = m
copy_into m ((k, v) ∷ extra) = copy_into (insert k v m) extra

-- The copied map wins.
pub lookup-copy_into {ℓ} :
    {V : Type ℓ} (k : Text) (extra m : List (Text × V))
    → Distinct (keys extra)
    → lookup k (copy_into m extra) ≡ or_else (lookup k extra) (lookup k m)
unfolding copy_into lookup
lookup-copy_into k [] m d = refl
lookup-copy_into k ((j, v) ∷ extra) m (fresh, d) = ground (
  arith,
  lookup-copy_into k extra (insert j v m) d,
  lookup-insert j k v m,
  text_eq_iff j k,
  lookup_fresh j extra,
)

pub insert_fresh {ℓ} :
    {V : Type ℓ} (k : Text) (v : V) (m : List (Text × V))
    → contains (keys m) k ≡ false
    → insert k v m ≡ m ++ (k, v) ∷ []
unfolding contains insert
insert_fresh k v [] h = refl
insert_fresh k v ((i, w) ∷ m) h = ground (arith, insert_fresh k v m)

pub keys-append {ℓ} : {V : Type ℓ} (m n : List (Text × V)) → keys (m ++ n) ≡ keys m ++ keys n
keys-append [] n = refl
keys-append ((k, v) ∷ m) n = ap (λ ks. k ∷ ks) (keys-append m n)

-- In a list without repetition a text does not stand before itself.
pub Distinct-middle :
    (xs : List Text) (x : Text) (ys : List Text) → Distinct (xs ++ x ∷ ys) → contains xs x ≡ false
unfolding contains
Distinct-middle [] x ys d = refl
Distinct-middle (y ∷ xs) x ys (fresh, d) =
    ground (arith, Distinct-middle xs x ys d, contains-append xs (x ∷ ys) y, text_eq_swap x y)

module _ {ℓ κ} {V : Type ℓ} (P : Text → Type κ) where
  pub All-keys-insert :
      (k : Text) (v : V) (m : List (Text × V)) → P k → All P (keys m) → All P (keys (insert k v m))
  unfolding insert
  All-keys-insert k v [] p h = (p, tt)
  All-keys-insert k v ((i, w) ∷ m) p (q, h) = ground (arith, All-keys-insert k v m p h)

module _ {ℓ κ} {V : Type ℓ} (P : V → Type κ) where
  pub All-insert :
      (k : Text) (v : V) (m : List (Text × V))
      → P v
      → All (λ c. P c.1) m
      → All (λ c. P c.1) (insert k v m)
  unfolding insert
  All-insert k v [] p h = (p, tt)
  All-insert k v ((i, w) ∷ m) p (q, h) = ground (arith, All-insert k v m p h)

pub Distinct-keys-middle {ℓ} :
    {V : Type ℓ} (m : List (Text × V)) (k : Text) (v : V) (n : List (Text × V))
    → Distinct (keys (m ++ (k, v) ∷ n))
    → contains (keys m) k ≡ false
Distinct-keys-middle m k v n d =
    Distinct-middle (keys m) k (keys n) (subst Distinct (keys-append m ((k, v) ∷ n)) d)

-- Another value at a key leaves the keys as they are.
pub Distinct-keys-replace {ℓ} :
    {V : Type ℓ} (m : List (Text × V)) (k : Text) (v w : V) (n : List (Text × V))
    → Distinct (keys (m ++ (k, v) ∷ n))
    → Distinct (keys ((m ++ (k, w) ∷ []) ++ n))
Distinct-keys-replace m k v w n d =
    subst Distinct
      (keys-append m ((k, v) ∷ n)
        ∙ sym (keys-append m ((k, w) ∷ n))
        ∙ ap keys (sym (append_assoc m ((k, w) ∷ []) n)))
      d

lookup_each-cons {ℓ} :
    {V : Type ℓ} (k : Text) (v : V) (m n : List (Text × V))
    → contains (keys n) k ≡ false
    → All (λ c. lookup c.0 m ≡ some c.1) n
    → All (λ c. lookup c.0 ((k, v) ∷ m) ≡ some c.1) n
unfolding contains lookup
lookup_each-cons k v m [] fresh h = tt
lookup_each-cons k v m ((j, w) ∷ n) fresh (e, h) =
    (ground (arith, text_eq_iff j k, text_eq_iff k j), lookup_each-cons k v m n (ground arith) h)

-- Where no key stands twice, each entry is the one that is found.
pub lookup_each {ℓ} :
    {V : Type ℓ} (m : List (Text × V)) → Distinct (keys m) → All (λ c. lookup c.0 m ≡ some c.1) m
unfolding lookup
lookup_each [] d = tt
lookup_each ((k, v) ∷ m) (fresh, d) =
    (ground (arith, text_eq_refl k), lookup_each-cons k v m m fresh (lookup_each m d))

pub insert-ne-nil {ℓ} : {V : Type ℓ} (k : Text) (v : V) (m : List (Text × V)) → insert k v m ≢ []
unfolding insert
insert-ne-nil k v [] e = cc
insert-ne-nil k v ((j, w) ∷ m) e = ground arith

-- What is found in a map has what each entry has.
pub lookup-All {ℓ κ} :
    {V : Type ℓ} (P : Text → V → Type κ) (m : List (Text × V))
    → All (λ c. P c.0 c.1) m
    → (k : Text) (v : V) → lookup k m ≡ some v
    → P k v
unfolding lookup
lookup-All P [] h k v e = cc
lookup-All P ((j, w) ∷ m) (p, h) k v e = elim (Bool-cases (text_eq j k)) [
  | inl same ↦
      let is : j ≡ k = (text_eq_iff j k).0 same in
      let here : w ≡ v = ground (arith, e, same) in
      subst (λ u. P k u) here (subst (λ i. P i w) is p)
  | inr other ↦ lookup-All P m h k v (ground (arith, e, other))
]
