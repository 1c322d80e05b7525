-- ===== src/Base/Sets.antt =====
-- Sets of ids as lists without repetition.
use mathlib.Core.Path.{◌≡◌, refl}
use mathlib.Core.Bool.{true, false, not, ◌&&◌, ◌||◌}
use mathlib.Core.List.{List, [], ◌∷◌}
use native.Mathlib.Omega.{arith}
use Prim.Native.Nat.{◌≤◌, ◌<◌}
use agent_shell.Base.Lists.{keep, length, length-keep}
use agent_shell.Base.Tests.{if◌then◌else◌}
use agent_shell.Base.Texts.{Text, text_eq, text_eq_iff, text_eq_refl}
use agent_shell.Base.Dicts.{contains, Distinct}

-- `m[id] = true` and `delete(m, id)` on a set of ids.
abbrev pub add_id : Text → List Text → List Text
add_id id xs = if contains xs id then xs else id ∷ xs

abbrev pub drop_id : Text → List Text → List Text
drop_id id xs = keep (λ x. not (text_eq x id)) xs

pub contains-add_id :
    (id x : Text) (xs : List Text) → contains (add_id id xs) x ≡ (text_eq id x || contains xs x)
unfolding contains
contains-add_id id x xs = ground (arith, text_eq_iff id x)

pub contains-drop_id :
    (id x : Text) (xs : List Text)
    → contains (drop_id id xs) x ≡ (not (text_eq id x) && contains xs x)
unfolding contains
contains-drop_id id x [] = ground arith
contains-drop_id id x (y ∷ xs) =
    ground (arith, text_eq_iff y id, text_eq_iff y x, text_eq_iff id x, contains-drop_id id x xs)

pub contains-drop_id_self : (id : Text) (xs : List Text) → contains (drop_id id xs) id ≡ false
unfolding contains
contains-drop_id_self id [] = refl
contains-drop_id_self id (y ∷ xs) = ground (arith, contains-drop_id_self id xs)

pub contains-drop_id_other :
    (id x : Text) (xs : List Text)
    → text_eq id x ≡ false
    → contains (drop_id id xs) x ≡ contains xs x
contains-drop_id_other id x xs ne = ground (arith, contains-drop_id id x xs)

pub contains-add_id_other :
    (id x : Text) (xs : List Text)
    → text_eq id x ≡ false
    → contains (add_id id xs) x ≡ contains xs x
contains-add_id_other id x xs ne = ground (arith, contains-add_id id x xs)

pub drop_id-fresh : (id : Text) (xs : List Text) → contains xs id ≡ false → drop_id id xs ≡ xs
unfolding contains
drop_id-fresh id [] e = refl
drop_id-fresh id (y ∷ xs) e = ground (arith, text_eq_iff y id, drop_id-fresh id xs)

pub drop-add :
    (id : Text) (xs : List Text) → contains xs id ≡ false → drop_id id (add_id id xs) ≡ xs
drop-add id xs e = rw e (ground (arith, text_eq_refl id, drop_id-fresh id xs e))

pub length-drop_id :
    (id : Text) (xs : List Text) → contains xs id ≡ true → length (drop_id id xs) < length xs
unfolding contains
length-drop_id id [] e = ground arith
length-drop_id id (y ∷ xs) e =
    ground (arith, length-drop_id id xs, length-keep (λ x. not (text_eq x id)) xs)

-- The pigeonhole principle.
pub length-Distinct :
    (xs ys : List Text)
    → Distinct xs
    → ((x : Text) → contains xs x ≡ true → contains ys x ≡ true)
    → length xs ≤ length ys
unfolding contains
length-Distinct [] ys d sub = omega arith
length-Distinct (x ∷ xs) ys (fresh, d) sub =
    let here = length-drop_id x ys (sub x (ground (arith, text_eq_refl x))) in
    omega (
      arith,
      here,
      length-Distinct xs (drop_id x ys) d
          (λ z c. ground (arith, contains-drop_id x z ys, sub z, text_eq_iff x z)),
    )
