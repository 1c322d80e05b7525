-- ===== src/Stacks/Selection/Closed.antt =====
-- What is selected has its dependencies selected.
use agent_shell.Base.{
  Bool-cases, Option-cases, and-true, add_id, contains-add_id, all, Text, text_eq, text_eq_refl,
  text_eq_iff, contains, lookup, Result, >>=-eq-ok, ok-injective, ok, ℕ, zero, suc, ◌≡◌, refl, ◌⊎◌,
  inl, inr, true, some, List, [], ◌∷◌, arith,
}
use agent_shell.Env.Layers.{StackMember}
use agent_shell.Stacks.Order.{Members}
use agent_shell.Stacks.Order.Sorted.{all-imp}
use agent_shell.Stacks.Selection.{SelectError, include_each, include}

-- The row of an id, with all its dependencies selected.
pub record IsClosed (table : Members) (selected : List Text) (id : Text) : Type 0 where
  pub row : StackMember
  pub found : lookup id table ≡ some row
  pub covered : all (contains selected) row.depends_on ≡ true

-- From `old` to `new`, with `ids` in it: what is new is closed.
pub record Includes (table : Members) (old ids new : List Text) : Type 0 where
  pub more : (x : Text) → contains old x ≡ true → contains new x ≡ true
  pub here : all (contains new) ids ≡ true
  pub closed_new :
      (x : Text) → contains new x ≡ true → (contains old x ≡ true) ⊎ IsClosed table new x

abbrev pub Including : Members → (List Text → Text → Result SelectError (List Text)) → Type 0
Including table f =
    (old : List Text) (id : Text) (new : List Text)
    → f old id ≡ ok new
    → Includes table old (id ∷ []) new

pub wider-IsClosed :
    (table : Members) (s t : List Text) (id : Text)
    → ((x : Text) → contains s x ≡ true → contains t x ≡ true)
    → IsClosed table s id
    → IsClosed table t id
wider-IsClosed table s t id w c = record {
  row = c.row;
  found = c.found;
  covered = all-imp (contains s) (contains t) c.row.depends_on w c.covered;
}

include_each-Includes :
    (table : Members) (f : List Text → Text → Result SelectError (List Text))
    → Including table f
    → (xs old new : List Text) → include_each f old xs ≡ ok new
    → Includes table old xs new
include_each-Includes table f each [] old new e =
    let is : old ≡ new = ok-injective old new e in
    rw (← is) (record { more = λ x h. h; here = refl; closed_new = λ x h. inl h })
include_each-Includes table f each (x ∷ xs) old new e =
    let (mid, first, rest) = >>=-eq-ok (f old x) (λ s. include_each f s xs) e in
    let a = each old x mid first in
    let b = include_each-Includes table f each xs mid new rest in
    record {
      more = λ y h. b.more y (a.more y h);
      here = rw (b.more x (and-true (contains mid x) true a.here).0, b.here) refl;
      closed_new = λ y h. elim (b.closed_new y h) [
        | inr closed_one ↦ inr closed_one
        | inl h' ↦ elim (a.closed_new y h') [
          | inl old_one ↦ inl old_one
          | inr closed_one ↦ inr (wider-IsClosed table mid new y b.more closed_one)
        ]
      ];
    }

pub include-Including : (fuel : ℕ) (table : Members) → Including table (include fuel table)
unfolding include
include-Including zero table old id new e = cc
include-Including (suc fuel) table old id new e = elim (Option-cases (lookup id table)) [
  | inl missing ↦ absurd (ground arith)
  | inr (m, found) ↦ elim (Bool-cases (contains old id)) [
    | inl before ↦
        let is : old ≡ new = ground arith in
        rw (← is) (record { more = λ x h. h; here = rw before refl; closed_new = λ x h. inl h })
    | inr fresh ↦
        let e' : include_each (include fuel table) (add_id id old) m.depends_on ≡ ok new =
          ground arith in
        let a =
          include_each-Includes table (include fuel table) (include-Including fuel table)
            m.depends_on (add_id id old) new e' in
        let own : contains new id ≡ true =
          a.more id (ground (arith, contains-add_id id id old, text_eq_refl id)) in
        record {
          more = λ x h. a.more x (ground (arith, contains-add_id id x old));
          here = rw own refl;
          closed_new = λ x h. elim (a.closed_new x h) [
            | inr closed_one ↦ inr closed_one
            | inl added ↦ elim (Bool-cases (text_eq id x)) [
              | inr other ↦ inl (ground (arith, contains-add_id id x old))
              | inl same ↦
                  let is : id ≡ x = (text_eq_iff id x).0 same in
                  inr (rw (← is) (record { row = m; found = found; covered = a.here }))
            ]
          ];
        }
  ]
]
