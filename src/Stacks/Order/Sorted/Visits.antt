-- ===== src/Stacks/Order/Sorted/Visits.antt =====
-- What a successful call of `visit` does to the search.
use agent_shell.Base.{
  Bool-cases, Option-cases, and-true, contains-add_id, all, All, Text, text_eq_iff, contains,
  lookup, Result, >>=-eq-ok, ok-injective, ok, ℕ, zero, suc, ◌≡◌, refl, ◌∙◌, inl, inr, true, false,
  some, List, [], ◌∷◌, arith, contains-drop_id, All-append, text_eq_refl, ◌>>=◌, ◌||◌, length, sym,
  ap, drop-add,
}
use agent_shell.Env.Layers.{StackMember}
use agent_shell.Stacks.Order.{
  OrderError, Search, Members, visit_each, enter, leave, visit, command_ids, by_id, no_search,
  search_members, stack_dependency_order,
}
use agent_shell.Stacks.Order.Sorted.{
  is_ordered, all-imp, contains-command_ids-snoc, is_ordered-snoc,
}
use agent_shell.Stacks.Order.Table.{AtIds, by_id-AtIds, empty-AtIds}

pub record Sorted (table : Members) (s : Search) : Type 0 where
  pub agree : (x : Text) → contains s.visited x ≡ contains (command_ids s.order) x
  pub sorted : is_ordered [] s.order ≡ true
  pub drawn : All (λ m. lookup m.command_id table ≡ some m) s.order
  pub apart : (x : Text) → contains s.visiting x ≡ true → contains s.visited x ≡ false

-- From `s` to `s'`, with all of `ids` visited.
pub record Visits (table : Members) (s : Search) (ids : List Text) (s' : Search) : Type 0 where
  pub result : Sorted table s'
  pub same : s'.visiting ≡ s.visiting
  pub keeps : (x : Text) → contains s.visited x ≡ true → contains s'.visited x ≡ true
  pub done : all (contains s'.visited) ids ≡ true

abbrev pub Sound1 : Members → (Search → Text → Result OrderError Search) → Type 0
Sound1 table f =
    (s : Search) (id : Text) (s' : Search)
    → Sorted table s
    → f s id ≡ ok s'
    → Visits table s (id ∷ []) s'

pub visit_each-Visits :
    (table : Members) (f : Search → Text → Result OrderError Search)
    → Sound1 table f
    → (xs : List Text) (s s' : Search) → Sorted table s
    → visit_each f s xs ≡ ok s'
    → Visits table s xs s'
visit_each-Visits table f each [] s s' inv e =
    let is : s ≡ s' = ok-injective s s' e in
    rw (← is) (record { result = inv; same = refl; keeps = λ x h. h; done = refl })
visit_each-Visits table f each (x ∷ xs) s s' inv e =
    let (s1, first, rest) = >>=-eq-ok (f s x) (λ t. visit_each f t xs) e in
    let a = each s x s1 inv first in
    let b = visit_each-Visits table f each xs s1 s' a.result rest in
    record {
      result = b.result;
      same = b.same ∙ a.same;
      keeps = λ y h. b.keeps y (a.keeps y h);
      done = rw (b.keeps x (and-true (contains s1.visited x) true a.done).0, b.done) refl;
    }

enter-Sorted :
    (table : Members) (s : Search) (id : Text)
    → Sorted table s
    → contains s.visited id ≡ false
    → Sorted table (enter id s)
enter-Sorted table s id inv fresh = record {
  agree = inv.agree;
  sorted = inv.sorted;
  drawn = inv.drawn;
  apart = λ x h. ground (arith, contains-add_id id x s.visiting, inv.apart x, text_eq_iff id x);
}

leave-Visits :
    (table : Members) (s s' : Search) (id : Text) (m : StackMember)
    → AtIds table
    → lookup id table ≡ some m
    → contains s.visiting id ≡ false
    → Visits table (enter id s) m.depends_on s'
    → Visits table s (id ∷ []) (leave id m s')
unfolding contains
leave-Visits table s s' id m at found idle v =
    let own : m.command_id ≡ id = at id m found in
    let here : contains s'.visiting id ≡ true =
      rw v.same (ground (arith, contains-add_id id id s.visiting, text_eq_refl id)) in
    let fresh : contains s'.visited id ≡ false = v.result.apart id here in
    let unlisted : contains (command_ids s'.order) m.command_id ≡ false =
      ground (arith, v.result.agree id) in
    record {
      result = record {
        agree = λ x. ground (
          arith,
          contains-add_id id x s'.visited,
          contains-command_ids-snoc s'.order m x,
          v.result.agree x,
        );
        sorted =
            is_ordered-snoc [] s'.order m v.result.sorted
              (all-imp (contains s'.visited)
                (λ d. contains [] d || contains (command_ids s'.order) d) m.depends_on
                (λ x h. ground (arith, v.result.agree x)) v.done)
              refl unlisted;
        drawn =
            All-append (λ n. lookup n.command_id table ≡ some n) s'.order (m ∷ []) v.result.drawn
              (ap (λ k. lookup k table) own ∙ found, tt);
        apart = λ x h. ground (
          arith,
          contains-drop_id id x s'.visiting,
          contains-add_id id x s'.visited,
          v.result.apart x,
        );
      };
      same = rw v.same (rw (drop-add id s.visiting idle) refl);
      keeps = λ x h. ground (arith, contains-add_id id x s'.visited, v.keeps x h);
      done = ground (arith, contains-add_id id id s'.visited, text_eq_refl id);
    }

pub visit-Sound1 : (fuel : ℕ) (table : Members) → AtIds table → Sound1 table (visit fuel table)
unfolding visit
visit-Sound1 zero table at s id s' inv e = cc
visit-Sound1 (suc fuel) table at s id s' inv e = elim (Bool-cases (contains s.visiting id)) [
  | inl busy ↦ absurd (ground arith)
  | inr idle ↦ elim (Bool-cases (contains s.visited id)) [
    | inl old ↦
        let is : s ≡ s' = ground arith in
        rw (← is) (record { result = inv; same = refl; keeps = λ x h. h; done = rw old refl })
    | inr fresh ↦ elim (Option-cases (lookup id table)) [
      | inl missing ↦ absurd (ground arith)
      | inr (m, found) ↦
          let e' : (visit_each (visit fuel table) (enter id s) m.depends_on >>= λ t.
          ok (leave id m t))
              ≡ ok s' =
            ground arith in
          let (t, deps, last) =
            >>=-eq-ok (visit_each (visit fuel table) (enter id s) m.depends_on)
              (λ t. ok (leave id m t)) e' in
          let v =
            visit_each-Visits table (visit fuel table) (visit-Sound1 fuel table at) m.depends_on
              (enter id s) t (enter-Sorted table s id inv fresh) deps in
          let is : leave id m t ≡ s' = ok-injective (leave id m t) s' last in
          rw (← is) (leave-Visits table s t id m at found idle v)
    ]
  ]
]

-- An order of a stack's members: no command stands twice, each stands after its dependencies, each
-- member's command is there, and what is there is what the stack's table has for the command.
pub record IsOrderOf (members : List StackMember) (order : List StackMember) : Type 0 where
  pub after_dependencies : is_ordered [] order ≡ true
  pub complete : all (contains (command_ids order)) (command_ids members) ≡ true
  pub from_table : All (λ m. lookup m.command_id (by_id members []) ≡ some m) order

no_search-Sorted : (table : Members) → Sorted table no_search
unfolding contains is_ordered
no_search-Sorted table = record { agree = λ x. refl; sorted = refl; drawn = tt; apart = λ x h. cc }

-- Where stackDependencyOrder returns an order, each member's command stands in it, none stands twice,
-- each stands after its dependencies, and each is what the stack's table has for its command.
pub stack_dependency_order-IsOrderOf :
    (members order : List StackMember)
    → stack_dependency_order members ≡ ok order
    → IsOrderOf members order
unfolding stack_dependency_order
stack_dependency_order-IsOrderOf members order e =
    let table = by_id members [] in
    let (s, found, last) = >>=-eq-ok (search_members members) (λ s. ok s.order) e in
    let at = by_id-AtIds members [] empty-AtIds in
    let v =
      visit_each-Visits table (visit (suc (length members)) table)
        (visit-Sound1 (suc (length members)) table at) (command_ids members) no_search s
        (no_search-Sorted table) found in
    let is : s.order ≡ order = ok-injective s.order order last in
    rw (← is) (record {
      after_dependencies = v.result.sorted;
      complete =
          all-imp (contains s.visited) (contains (command_ids s.order)) (command_ids members)
            (λ x h. sym (v.result.agree x) ∙ h) v.done;
      from_table = v.result.drawn;
    })
