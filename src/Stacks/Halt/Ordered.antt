-- ===== src/Stacks/Halt/Ordered.antt =====
-- StopStack of internal/runtime/manager.go stops no command before those that depend on it.
use agent_shell.Base.{
  Bool-cases, all, all-cons, Text, text_eq, text_eq_refl, text_eq_iff, contains, Result,
  Result-cases, ok, ◌≡◌, refl, sym, ap, ◌∙◌, subst, inl, inr, Bool, true, false, not, ◌&&◌, ◌||◌,
  none, List, [], ◌∷◌, ◌++◌, reverse, reverse-reverse, reverse-append, append_assoc, append-nil,
  arith,
}
use agent_shell.Env.Layers.{StackMember}
use agent_shell.Http.Templates.{ids}
use agent_shell.Stacks.Halt.{stop_members, stop_ordered, stop_stack}
use agent_shell.Stacks.Order.{command_ids, stack_dependency_order}
use agent_shell.Stacks.Order.Sorted.{is_ordered, is_ordered-cons}
use agent_shell.Stacks.Order.Sorted.Visits.{stack_dependency_order-IsOrderOf}

-- Each command is stopped after all members of the stack that depend on it; `seen` has been stopped.
unfoldable pub is_stop_order : List StackMember → List Text → List Text → Bool
unfolding contains
is_stop_order whole seen [] = true
is_stop_order whole seen (id ∷ ids) =
    all (λ n. not (contains n.depends_on id) || contains seen n.command_id) whole
    && is_stop_order whole (id ∷ seen) ids

-- A member of the rest does not stand in `seen`.
not_seen :
    (seen : List Text) (pre : List StackMember) (m : StackMember) (post : List StackMember)
    → is_ordered seen (pre ++ m ∷ post) ≡ true
    → contains seen m.command_id ≡ false
unfolding contains
not_seen seen [] m post o = (is_ordered-cons seen m post o).1
not_seen seen (n ∷ pre) m post o =
    let (_, _, rest) = is_ordered-cons seen n (pre ++ m ∷ post) o in
    ground (arith, not_seen (n.command_id ∷ seen) pre m post rest)

all-contains :
    (seen xs : List Text) (x : Text)
    → all (contains seen) xs ≡ true
    → contains seen x ≡ false
    → contains xs x ≡ false
unfolding contains
all-contains seen [] x h fresh = refl
all-contains seen (y ∷ xs) x h fresh =
    let (first, rest) = all-cons (contains seen) y xs h in
    elim (Bool-cases (text_eq y x)) [
      | inl same ↦
          let is : y ≡ x = (text_eq_iff y x).0 same in
          absurd (let clash = rw is at first in ground arith)
      | inr other ↦ ground (arith, all-contains seen xs x rest fresh)
    ]

abbrev is_later : Text → List StackMember → StackMember → Bool
is_later id post n = not (contains n.depends_on id) || contains (command_ids post) n.command_id

own_ids :
    (post : List StackMember) (id : Text) (more : List StackMember)
    → all (λ n. contains (command_ids post) n.command_id) more ≡ true
    → all (is_later id post) more ≡ true
own_ids post id [] h = refl
own_ids post id (n ∷ more) h = ground (arith, own_ids post id more)

contains-wider :
    (post : List StackMember) (m : StackMember) (more : List StackMember)
    → all (λ n. contains (command_ids post) n.command_id) more ≡ true
    → all (λ n. contains (command_ids (m ∷ post)) n.command_id) more ≡ true
unfolding contains
contains-wider post m [] h = refl
contains-wider post m (n ∷ more) h = ground (arith, contains-wider post m more)

ids_self :
    (post : List StackMember) → all (λ n. contains (command_ids post) n.command_id) post ≡ true
unfolding contains
ids_self [] = refl
ids_self (m ∷ post) = rw (text_eq_refl m.command_id) (contains-wider post m post (ids_self post))

-- The members that depend on one stand behind it.
dependants_later :
    (seen : List Text) (pre : List StackMember) (m : StackMember) (post : List StackMember)
    → is_ordered seen (pre ++ m ∷ post) ≡ true
    → all (is_later m.command_id post) (pre ++ m ∷ post) ≡ true
dependants_later seen [] m post o =
    let (deps, fresh, _) = is_ordered-cons seen m post o in
    let alone = all-contains seen m.depends_on m.command_id deps fresh in
    rw alone (own_ids post m.command_id post (ids_self post))
dependants_later seen (n ∷ pre) m post o =
    let (deps, _, rest) = is_ordered-cons seen n (pre ++ m ∷ post) o in
    let fresh = not_seen seen (n ∷ pre) m post o in
    let apart = all-contains seen n.depends_on m.command_id deps fresh in
    rw apart (dependants_later (n.command_id ∷ seen) pre m post rest)

-- The order is gone through from its end; `post` has been stopped.
reversed-stops :
    (rest post : List StackMember)
    → is_ordered [] (reverse rest ++ post) ≡ true
    → is_stop_order (reverse rest ++ post) (command_ids post) (command_ids rest) ≡ true
unfolding is_stop_order
reversed-stops [] post o = refl
reversed-stops (m ∷ rest) post o =
    let moved : reverse (m ∷ rest) ++ post ≡ reverse rest ++ m ∷ post =
      ap (λ xs. xs ++ post) (reverse-append (m ∷ []) rest)
      ∙ append_assoc (reverse rest) (m ∷ []) post in
    let o' : is_ordered [] (reverse rest ++ m ∷ post) ≡ true =
      subst (λ w. is_ordered [] w ≡ true) moved o in
    subst (λ w. is_stop_order w (command_ids post) (command_ids (m ∷ rest)) ≡ true) (sym moved)
      (rw (dependants_later [] (reverse rest) m post o') (reversed-stops rest (m ∷ post) o'))

order-stops :
    (order : List StackMember)
    → is_ordered [] order ≡ true
    → is_stop_order order [] (command_ids (reverse order)) ≡ true
order-stops order o =
    let same : reverse (reverse order) ++ [] ≡ order = append-nil _ ∙ reverse-reverse order in
    subst (λ w. is_stop_order w [] (command_ids (reverse order)) ≡ true) same
      (reversed-stops (reverse order) [] (subst (λ w. is_ordered [] w ≡ true) (sym same) o))

module _ {R E : Type 0} (answer : Text → Result E (List R)) where
  -- A StopCommand that is written down.
  abbrev pub recorded : List Text → Text → List Text × Result E (List R)
  recorded done_so_far id = (done_so_far ++ id ∷ [], answer id)

  -- Members that are gone through one after the other, up to the first that fails.
  prefix_stops :
      (whole : List StackMember) (seen trace : List Text) (ms : List StackMember) (out : List R)
      → is_stop_order whole seen (command_ids ms) ≡ true
      → (extra : List Text) × ((stop_members recorded trace ms out).0 ≡ trace ++ extra)
        × (is_stop_order whole seen extra ≡ true)
        × ((stop_members recorded trace ms out).2 ≡ none → extra ≡ command_ids ms)
  unfolding stop_members is_stop_order
  prefix_stops whole seen trace [] out h = ([], rw append-nil, refl, λ e. refl)
  prefix_stops whole seen trace (m ∷ ms) out h =
      let id = m.command_id in
      elim (Result-cases (answer id)) [
        | inl (runs, fine) ↦
            let (extra, is, ordered, full) =
              prefix_stops whole (id ∷ seen) (trace ++ id ∷ []) ms (out ++ runs) (ground arith) in
            (
              id ∷ extra,
              rw fine (is ∙ append_assoc trace (id ∷ []) extra),
              ground arith,
              λ e. ap (λ xs. id ∷ xs) (full (rw fine at e)),
            )
        | inr (e, bad) ↦ (id ∷ [], rw bad refl, ground arith, λ never. ground (arith, bad))
      ]

  -- Whatever StopCommand answers, StopStack stops no command before all members that depend on it, also
  -- where it ends early; and where it reports no error it has stopped each member, in the reverse of
  -- their order.
  pub stop_stack-IsStopOrder :
      (members order : List StackMember)
      → stack_dependency_order members ≡ ok order
      → (is_stop_order order [] (stop_stack recorded [] members).0 ≡ true)
        × ((stop_stack recorded [] members).2 ≡ none
            → (stop_stack recorded [] members).0 ≡ command_ids (reverse order))
  unfolding stop_stack
  stop_stack-IsStopOrder members order e =
      let sorted = (stack_dependency_order-IsOrderOf members order e).after_dependencies in
      let (extra, is, stops_well, full) =
        prefix_stops order [] [] (reverse order) [] (order-stops order sorted) in
      let run : stop_stack recorded [] members ≡ stop_members recorded [] (reverse order) [] =
        ap (stop_ordered recorded []) e in
      (
        ap (λ r. is_stop_order order [] r.0) run ∙ ap (is_stop_order order []) is ∙ stops_well,
        λ fine. ap (λ r. r.0) run ∙ is ∙ full (ap (λ r. r.2) (sym run) ∙ fine),
      )
