-- ===== src/Stacks/Selection/Enough.antt =====
-- The fuel of stackMembersForStart is enough.
use agent_shell.Base.{
  Bool-cases, Option-cases, add_id, length-Distinct, length, Text, text_eq_iff, contains, Distinct,
  lookup, Result, ◌>>=◌, >>=-eq-ok, ok-injective, fails_with, fails_with-bind, ok, ℕ, zero, suc,
  ◌+◌, ◌≤◌, ◌<◌, ◌≡◌, refl, sym, subst, inl, inr, Bool, true, false, Option, none, some, List, [],
  ◌∷◌, arith,
}
use agent_shell.Env.Layers.{StackMember}
use agent_shell.Http.Templates.{ids}
use agent_shell.Stacks.Order.{Members, command_ids}
use agent_shell.Stacks.Order.Fuel.{add_id-fresh, length-command_ids}
use agent_shell.Stacks.Order.Table.{known}
use agent_shell.Stacks.Selection.{
  SelectError, include_each, include, include_requested, pick_members, select_ids, member_table,
  stack_members_for_start, no_levels,
}
use agent_shell.Stacks.Selection.Kept.{index_members_known}

abbrev pub is_no_levels : SelectError → Bool
is_no_levels no_levels = true
is_no_levels _ = false

-- The selected ids are a set of known ids.
record IsSelection (table : Members) (selected : List Text) : Type 0 where
  distinct : Distinct selected
  rows : (x : Text) → contains selected x ≡ true → known table x ≡ true

record Grows (table : Members) (old new : List Text) : Type 0 where
  selection : IsSelection table new
  longer : length old ≤ length new

abbrev Growing : Members → (List Text → Text → Result SelectError (List Text)) → Type 0
Growing table f =
    (old : List Text) (id : Text) (new : List Text)
    → IsSelection table old
    → f old id ≡ ok new
    → Grows table old new

include_each-Grows :
    (table : Members) (f : List Text → Text → Result SelectError (List Text))
    → Growing table f
    → (xs old new : List Text) → IsSelection table old
    → include_each f old xs ≡ ok new
    → Grows table old new
include_each-Grows table f each [] old new s e =
    let is : old ≡ new = ok-injective old new e in
    rw (← is) (record { selection = s; longer = omega arith })
include_each-Grows table f each (x ∷ xs) old new s e =
    let (mid, first, rest) = >>=-eq-ok (f old x) (λ t. include_each f t xs) e in
    let a = each old x mid s first in
    let b = include_each-Grows table f each xs mid new a.selection rest in
    record { selection = b.selection; longer = omega (arith, a.longer, b.longer) }

push-IsSelection :
    (table : Members) (selected : List Text) (id : Text)
    → IsSelection table selected
    → contains selected id ≡ false
    → known table id ≡ true
    → IsSelection table (id ∷ selected)
unfolding contains
push-IsSelection table selected id s fresh here = record {
  distinct = (fresh, s.distinct);
  rows = λ x h. ground (arith, s.rows x, text_eq_iff id x);
}

include-Growing : (fuel : ℕ) (table : Members) → Growing table (include fuel table)
unfolding include
include-Growing zero table old id new s e = cc
include-Growing (suc fuel) table old id new s e = elim (Option-cases (lookup id table)) [
  | inl missing ↦ absurd (ground arith)
  | inr (m, found) ↦ elim (Bool-cases (contains old id)) [
    | inl before ↦
        let is : old ≡ new = ground arith in
        rw (← is) (record { selection = s; longer = omega arith })
    | inr fresh ↦
        let added = add_id-fresh id old fresh in
        let e' : include_each (include fuel table) (add_id id old) m.depends_on ≡ ok new =
          ground arith in
        let a =
          include_each-Grows table (include fuel table) (include-Growing fuel table) m.depends_on
            (id ∷ old) new (push-IsSelection table old id s fresh (rw found refl))
            (rw added at e') in
        record { selection = a.selection; longer = omega (arith, a.longer) }
  ]
]

-- The selected ids and the fuel are more than the ids of the stack.
record HasLevels (table : Members) (ids selected : List Text) (fuel : ℕ) : Type 0 where
  selection : IsSelection table selected
  listed : (x : Text) → known table x ≡ true → contains ids x ≡ true
  more : length ids < length selected + fuel

grown-HasLevels :
    (table : Members) (ids old new : List Text) (fuel : ℕ)
    → HasLevels table ids old fuel
    → Grows table old new
    → HasLevels table ids new fuel
grown-HasLevels table ids old new fuel l g = record {
  selection = g.selection;
  listed = l.listed;
  more = omega (arith, l.more, g.longer);
}

abbrev Enough :
    Members → List Text → ℕ → (List Text → Text → Result SelectError (List Text)) → Type 0
Enough table ids fuel f =
    (old : List Text) (id : Text)
    → HasLevels table ids old fuel
    → fails_with is_no_levels (f old id) ≡ false

include_each-Enough :
    (table : Members) (ids : List Text) (fuel : ℕ)
    (f : List Text → Text → Result SelectError (List Text))
    → Growing table f
    → Enough table ids fuel f
    → (xs old : List Text) → HasLevels table ids old fuel
    → fails_with is_no_levels (include_each f old xs) ≡ false
include_each-Enough table ids fuel f grows each [] old l = refl
include_each-Enough table ids fuel f grows each (x ∷ xs) old l =
    fails_with-bind is_no_levels (f old x) (λ t. include_each f t xs) (each old x l)
      (λ t e.
        include_each-Enough table ids fuel f grows each xs t
          (grown-HasLevels table ids old t fuel l (grows old x t l.selection e)))

include-Enough :
    (fuel : ℕ) (table : Members) (ids : List Text) → Enough table ids fuel (include fuel table)
unfolding include
include-Enough zero table ids old id l = absurd (
    omega (
      arith,
      l.more,
      length-Distinct old ids l.selection.distinct (λ x h. l.listed x (l.selection.rows x h)),
    ))
include-Enough (suc fuel) table ids old id l = elim (Option-cases (lookup id table)) [
  | inl missing ↦ ground arith
  | inr (m, found) ↦ elim (Bool-cases (contains old id)) [
    | inl before ↦ ground arith
    | inr fresh ↦
        let deeper : HasLevels table ids (id ∷ old) fuel = record {
          selection = push-IsSelection table old id l.selection fresh (rw found refl);
          listed = l.listed;
          more = omega (arith, l.more);
        } in
        let same : include (suc fuel) table old id
            ≡ include_each (include fuel table) (add_id id old) m.depends_on =
          ground arith in
        rw same (
          include_each-Enough table ids fuel (include fuel table) (include-Growing fuel table)
            (include-Enough fuel table ids) m.depends_on (add_id id old)
            (subst (λ s. HasLevels table ids s fuel) (sym (add_id-fresh id old fresh)) deeper))
  ]
]

include_requested-Enough :
    (fuel : ℕ) (table : Members) (ids requested old xs : List Text)
    → HasLevels table ids old fuel
    → fails_with is_no_levels (include_requested fuel table requested old xs) ≡ false
unfolding include_requested
include_requested-Enough fuel table ids requested old [] l = refl
include_requested-Enough fuel table ids requested old (x ∷ xs) l =
    elim (Bool-cases (contains requested x)) [
      | inl twice ↦ ground arith
      | inr once ↦
          let same : include_requested fuel table requested old (x ∷ xs) ≡ (
              include fuel table old x >>= λ s.
              include_requested fuel table (add_id x requested) s xs) =
            ground arith in
          rw same (
            fails_with-bind is_no_levels (include fuel table old x)
              (λ s. include_requested fuel table (add_id x requested) s xs)
              (include-Enough fuel table ids old x l)
              (λ s e. include_requested-Enough fuel table ids (add_id x requested) s xs (
                grown-HasLevels table ids old s fuel l
                  (include-Growing fuel table old x s l.selection e))))
    ]

no-IsSelection : (table : Members) → IsSelection table []
unfolding contains
no-IsSelection table = record { distinct = tt; rows = λ x h. cc }

select_ids-Enough :
    (members : List StackMember) (command_list : Option (List Text))
    → fails_with is_no_levels
        (select_ids (suc (length members)) (member_table members) command_list)
      ≡ false
unfolding lookup
select_ids-Enough members none = refl
select_ids-Enough members (some []) = refl
select_ids-Enough members (some (id ∷ xs)) =
    include_requested-Enough (suc (length members)) (member_table members) (command_ids members) []
      [] (id ∷ xs)
      (record {
        selection = no-IsSelection (member_table members);
        listed = λ x h. ground (arith, index_members_known 0 members [] x);
        more = omega (arith, length-command_ids members);
      })

-- stackMembersForStart does not run out of fuel.
pub stack_members_for_start_fuel :
    (members : List StackMember) (command_list : Option (List Text))
    → fails_with is_no_levels (stack_members_for_start members command_list) ≡ false
unfolding stack_members_for_start
stack_members_for_start_fuel members command_list =
    fails_with-bind is_no_levels
      (select_ids (suc (length members)) (member_table members) command_list)
      (λ selected. ok (pick_members (member_table members) selected members))
      (select_ids-Enough members command_list) (λ s e. refl)
