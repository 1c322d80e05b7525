-- ===== src/Stacks/Selection/Kept.antt =====
-- The members that are to be started: the requested ones and all that they depend on, with their
-- dependencies as they were.
use agent_shell.Base.{
  Bool-cases, and-true, add_id, all, All, all-cons, Text, contains, lookup, insert, ◌>>=◌,
  >>=-eq-ok, ok-injective, ok, ℕ, suc, ◌≡◌, refl, inl, inr, true, ◌||◌, some, List, [], ◌∷◌, arith,
  get_or, length, text_eq_iff, sym, ap, ◌∙◌, subst, ◌⊎◌, ◌&&◌,
}
use agent_shell.Env.Layers.{StackMember}
use agent_shell.Stacks.Order.{Members, command_ids}
use agent_shell.Stacks.Order.Sorted.{all-imp}
use agent_shell.Stacks.Order.Table.{AtIds, insert-AtIds, known, known-insert, empty-AtIds}
use agent_shell.Stacks.Selection.{
  with_defaults, index_members, include, include_requested, filter_selected_dependencies, picked,
  pick_members, narrowed, member_table, stack_members_for_start,
}
use agent_shell.Stacks.Selection.Closed.{IsClosed, Includes, wider-IsClosed, include-Including}

include_requested-Includes :
    (fuel : ℕ) (table : Members) (requested ids_left old new : List Text)
    → include_requested fuel table requested old ids_left ≡ ok new
    → Includes table old ids_left new
unfolding include_requested
include_requested-Includes fuel table requested [] old new e =
    let is : old ≡ new = ok-injective old new e in
    rw (← is) (record { more = λ x h. h; here = refl; closed_new = λ x h. inl h })
include_requested-Includes fuel table requested (id ∷ ids_left) old new e =
    elim (Bool-cases (contains requested id)) [
      | inl twice ↦ absurd (ground arith)
      | inr once ↦
          let e' : (include fuel table old id >>= λ s.
          include_requested fuel table (add_id id requested) s ids_left)
              ≡ ok new =
            ground arith in
          let (mid, first, rest) =
            >>=-eq-ok (include fuel table old id)
              (λ s. include_requested fuel table (add_id id requested) s ids_left) e' in
          let a = include-Including fuel table old id mid first in
          let b =
            include_requested-Includes fuel table (add_id id requested) ids_left mid new rest in
          record {
            more = λ y h. b.more y (a.more y h);
            here = rw (b.more id (and-true (contains mid id) true a.here).0, b.here) refl;
            closed_new = λ y h. elim (b.closed_new y h) [
              | inr closed_one ↦ inr closed_one
              | inl h' ↦ elim (a.closed_new y h') [
                | inl old_one ↦ inl old_one
                | inr closed_one ↦ inr (wider-IsClosed table mid new y b.more closed_one)
              ]
            ];
          }
    ]

index_members-AtIds :
    (i : ℕ) (members : List StackMember) (table : Members)
    → AtIds table
    → AtIds (index_members i members table)
unfolding index_members
index_members-AtIds i [] table f = f
index_members-AtIds i (m ∷ members) table f =
    index_members-AtIds (suc i) members (insert m.command_id (with_defaults i m) table)
      (insert-AtIds (with_defaults i m) table f)

pub index_members_known :
    (i : ℕ) (members : List StackMember) (table : Members) (id : Text)
    → known (index_members i members table) id
      ≡ (contains (command_ids members) id || known table id)
unfolding index_members contains
index_members_known i [] table id = refl
index_members_known i (m ∷ members) table id = ground (
  arith,
  index_members_known (suc i) members (insert m.command_id (with_defaults i m) table) id,
  known-insert m.command_id id (with_defaults i m) table,
)

filter_selected_dependencies_kept :
    (ds selected : List Text)
    → all (contains selected) ds ≡ true
    → filter_selected_dependencies ds selected ≡ ds
unfolding filter_selected_dependencies
filter_selected_dependencies_kept [] selected h = refl
filter_selected_dependencies_kept (d ∷ ds) selected h =
    let (a, b) = all-cons (contains selected) d ds h in
    let rest = filter_selected_dependencies_kept ds selected b in ground arith

-- A member that is started stands in the table, with all its dependencies, and they are started too.
pub record IsWhole (table : Members) (started : List Text) (m : StackMember) : Type 0 where
  pub row : StackMember
  pub found : lookup m.command_id table ≡ some row
  pub dependencies : m.depends_on ≡ row.depends_on
  pub covered : all (contains started) m.depends_on ≡ true

-- The row of a closed id is picked as it is.
picked-row :
    (table : Members) (selected : List Text) (m : StackMember)
    → (c : IsClosed table selected m.command_id) → picked table selected m ≡ c.row
picked-row table selected m c =
    let row_of : get_or (lookup m.command_id table) m ≡ c.row = ap (λ o. get_or o m) c.found in
    let kept = filter_selected_dependencies_kept c.row.depends_on selected c.covered in
    ap (narrowed selected) row_of ∙ ap (λ ds. record c.row { depends_on = ds }) kept

pick_members-All :
    (table : Members) (selected started : List Text) (members : List StackMember)
    → AtIds table
    → ((x : Text) → contains selected x ≡ true → IsClosed table selected x)
    → ((x : Text) → contains selected x ≡ true → contains started x ≡ true)
    → All (IsWhole table started) (pick_members table selected members)
unfolding pick_members
pick_members-All table selected started [] at closed_all sub = tt
pick_members-All table selected started (m ∷ members) at closed_all sub =
    let rest = pick_members-All table selected started members at closed_all sub in
    elim (Bool-cases (contains selected m.command_id)) [
      | inr out_of ↦ rw out_of rest
      | inl in_it ↦
          let c = closed_all m.command_id in_it in
          let whole : IsWhole table started c.row = record {
            row = c.row;
            found = ap (λ k. lookup k table) (at m.command_id c.row c.found) ∙ c.found;
            dependencies = refl;
            covered = all-imp (contains selected) (contains started) c.row.depends_on sub c.covered;
          } in
          rw in_it (subst (IsWhole table started) (sym (picked-row table selected m c)) whole, rest)
    ]

contains-pick_members :
    (table : Members) (selected : List Text) (members : List StackMember) (x : Text)
    → AtIds table
    → ((y : Text) → contains selected y ≡ true → IsClosed table selected y)
    → contains (command_ids (pick_members table selected members)) x
      ≡ (contains (command_ids members) x && contains selected x)
unfolding pick_members contains
contains-pick_members table selected [] x at closed_all = refl
contains-pick_members table selected (m ∷ members) x at closed_all =
    let rest = contains-pick_members table selected members x at closed_all in
    elim (Bool-cases (contains selected m.command_id)) [
      | inr out_of ↦ ground (arith, rest, text_eq_iff m.command_id x)
      | inl in_it ↦
          let c = closed_all m.command_id in_it in
          let own =
            ap (λ n. n.command_id) (picked-row table selected m c)
            ∙ at m.command_id c.row c.found in
          ground (arith, rest, own, text_eq_iff m.command_id x)
    ]

-- All of `requested` are started, and whole.
abbrev pub StartsWhole : Members → List Text → List StackMember → Type 0
StartsWhole table requested out =
    (all (contains (command_ids out)) requested ≡ true) × All (IsWhole table (command_ids out)) out

all-IsClosed :
    (table : Members) (selected : List Text)
    → ((x : Text) → contains selected x ≡ true → (contains [] x ≡ true) ⊎ IsClosed table selected x)
    → (x : Text) → contains selected x ≡ true
    → IsClosed table selected x
unfolding contains
all-IsClosed table selected f x h = elim (f x h) [ inl e ↦ cc | inr c ↦ c ]

selected_started :
    (members : List StackMember) (selected : List Text) (x : Text)
    → ((y : Text) → contains selected y ≡ true → IsClosed (member_table members) selected y)
    → contains selected x ≡ true
    → contains (command_ids (pick_members (member_table members) selected members)) x
      ≡ (contains (command_ids members) x && contains selected x)
    → contains (command_ids (pick_members (member_table members) selected members)) x ≡ true
unfolding lookup
selected_started members selected x closed_all h listed =
    let c = closed_all x h in
    let is_known : known (member_table members) x ≡ true = rw c.found refl in
    ground (arith, index_members_known 0 members [] x, is_known, listed)

-- Where some members are requested and accepted, the ones that are started hold all the requested
-- ones, and each of them has all the dependencies that the stack gives it, which are started too.
pub stack_members_for_start-IsWhole :
    (members : List StackMember) (id : Text) (ids_left : List Text) (out : List StackMember)
    → stack_members_for_start members (some (id ∷ ids_left)) ≡ ok out
    → StartsWhole (member_table members) (id ∷ ids_left) out
unfolding stack_members_for_start
stack_members_for_start-IsWhole members id ids_left out e =
    let table = member_table members in
    let requested = id ∷ ids_left in
    let (selected, found, last) =
      >>=-eq-ok (include_requested (suc (length members)) table [] [] requested)
        (λ s. ok (pick_members table s members)) e in
    let at = index_members-AtIds 0 members [] empty-AtIds in
    let inc =
      include_requested-Includes (suc (length members)) table [] requested [] selected found in
    let closed_all = all-IsClosed table selected inc.closed_new in
    let is : pick_members table selected members ≡ out = ok-injective _ out last in
    let listed = λ (x : Text). contains-pick_members table selected members x at closed_all in
    let sub = λ (x : Text) (h : contains selected x ≡ true).
      selected_started members selected x closed_all h (listed x) in
    subst (StartsWhole table requested) is (
      all-imp (contains selected) (contains (command_ids (pick_members table selected members)))
          requested sub inc.here,
      pick_members-All table selected (command_ids (pick_members table selected members)) members at
          closed_all sub,
    )
