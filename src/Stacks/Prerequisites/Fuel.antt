-- ===== src/Stacks/Prerequisites/Fuel.antt =====
-- The fuel of StackPrerequisiteCycle is enough.
use agent_shell.Base.{
  Option-cases, is_some, drop_id, drop-add, length-Distinct, length, Text, text_eq_iff, is_empty,
  contains, Distinct, lookup, keys, ℕ, zero, suc, ◌+◌, ◌<◌, ◌≡◌, refl, sym, ap, ◌∙◌, ◌⊎◌, inl, inr,
  true, false, none, some, List, [], ◌∷◌, arith,
}
use agent_shell.Env.Layers.{StackPrerequisite}
use agent_shell.Stacks.Order.Fuel.{add_id-fresh}
use agent_shell.Stacks.Prerequisites.{
  Graph, next_ids, Marks, Found, open_mark, look_each, close_found, look, no_marks, candidate_graph,
  stack_prerequisite_cycle,
}
use agent_shell.Stacks.Prerequisites.Cases.{
  look_cases, each_cases, close_found-some, on_path, seen_before, goes_in, no_fuel, stops_at,
  goes_past,
}

contains-keys :
    {V : Type 0} (id : Text) (deps : List (Text × V)) (v : V)
    → lookup id deps ≡ some v
    → contains (keys deps) id ≡ true
unfolding lookup contains
contains-keys id [] v e = cc
contains-keys id ((k, w) ∷ deps) v e = ground (arith, contains-keys id deps v)

length-keys : {V : Type 0} (deps : List (Text × V)) → length (keys deps) ≡ length deps
length-keys [] = refl
length-keys (row ∷ deps) = omega (arith, length-keys deps)

-- The open ids are rows of the graph.
record IsWithin (deps : Graph) (path : List Text) (fuel : ℕ) : Type 0 where
  distinct : Distinct path
  rows : (x : Text) → contains path x ≡ true → contains (keys deps) x ≡ true
  longer : length deps < length path + fuel

-- A call that finds nothing leaves the open ids as they were.
abbrev KeepsOpen : (Marks → Text → Found) → Type 0
KeepsOpen f =
    (s : Marks) (x found : Text) (t : Marks)
    → f s x ≡ some (found, t)
    → is_empty found ≡ true
    → t.visiting ≡ s.visiting

look_each-open :
    (f : Marks → Text → Found)
    → KeepsOpen f
    → (xs : List Text) (s : Marks) (found : Text) (t : Marks) → look_each f s xs ≡ some (found, t)
    → is_empty found ≡ true
    → t.visiting ≡ s.visiting
unfolding look_each
look_each-open f each [] s found t e blank = ground arith
look_each-open f each (x ∷ xs) s found t e blank = elim (each_cases f s x xs) [
  | no_fuel _ e' ↦ absurd (ground arith)
  | stops_at found' t' some_found real e' ↦ absurd (ground arith)
  | goes_past found' t' some_found blank' e' ↦
      look_each-open f each xs t' found t (sym e' ∙ e) blank ∙ each s x found' t' some_found blank'
]

look-KeepsOpen : (fuel : ℕ) (deps : Graph) → KeepsOpen (look fuel deps)
unfolding look
look-KeepsOpen zero deps s id found t e blank = cc
look-KeepsOpen (suc fuel) deps s id found t e blank = elim (look_cases fuel deps s id) [
  | on_path busy e' ↦ ground arith
  | seen_before idle old e' ↦ ground arith
  | goes_in idle fresh e' ↦
      let r = look_each (look fuel deps) (open_mark id s) (next_ids deps id) in
      let (t0, some_found, closed_as) = close_found-some id r found t (sym e' ∙ e) in
      let same =
        look_each-open (look fuel deps) (look-KeepsOpen fuel deps) (next_ids deps id)
          (open_mark id s) found t0 some_found blank in
      ap (λ m. m.visiting) (closed_as blank) ∙ ap (drop_id id) same ∙ drop-add id s.visiting idle
]

look_each_fuel :
    (f : Marks → Text → Found) (path : List Text)
    → KeepsOpen f
    → ((s : Marks) (x : Text) → s.visiting ≡ path → is_some (f s x) ≡ true)
    → (xs : List Text) (s : Marks) → s.visiting ≡ path
    → is_some (look_each f s xs) ≡ true
unfolding look_each
look_each_fuel f path keeps each [] s v = refl
look_each_fuel f path keeps each (x ∷ xs) s v = elim (each_cases f s x xs) [
  | no_fuel nothing e' ↦ absurd (ground (arith, each s x v))
  | stops_at found t some_found real e' ↦ rw e' refl
  | goes_past found t some_found blank e' ↦
      rw e' (look_each_fuel f path keeps each xs t (keeps s x found t some_found blank ∙ v))
]

is_some-close_found : (id : Text) (r : Found) → is_some r ≡ true → is_some (close_found id r) ≡ true
is_some-close_found id none h = cc
is_some-close_found id (some ([], s)) h = refl
is_some-close_found id (some (c ∷ word, s)) h = refl

-- An id with next ids is a row.
row_of : (deps : Graph) (id : Text) → (next_ids deps id ≡ []) ⊎ (contains (keys deps) id ≡ true)
row_of deps id = elim (Option-cases (lookup id deps)) [
  | inl missing ↦ inl (rw missing refl)
  | inr (ids_of, found) ↦ inr (contains-keys id deps ids_of found)
]

push-IsWithin :
    (deps : Graph) (path : List Text) (id : Text) (fuel : ℕ)
    → IsWithin deps path (suc fuel)
    → contains path id ≡ false
    → contains (keys deps) id ≡ true
    → IsWithin deps (id ∷ path) fuel
unfolding contains
push-IsWithin deps path id fuel b idle here = record {
  distinct = (idle, b.distinct);
  rows = λ x h. ground (arith, b.rows x, text_eq_iff id x);
  longer = omega (arith, b.longer);
}

look_fuel :
    (fuel : ℕ) (deps : Graph) (s : Marks) (id : Text)
    → IsWithin deps s.visiting fuel
    → is_some (look fuel deps s id) ≡ true
unfolding look look_each
look_fuel zero deps s id b = absurd (
    omega
      (arith, b.longer, length-keys deps, length-Distinct s.visiting (keys deps) b.distinct b.rows))
look_fuel (suc fuel) deps s id b = elim (look_cases fuel deps s id) [
  | on_path busy e' ↦ rw e' refl
  | seen_before idle old e' ↦ rw e' refl
  | goes_in idle fresh e' ↦
      let r = look_each (look fuel deps) (open_mark id s) (next_ids deps id) in
      let enough : is_some r ≡ true = elim (row_of deps id) [
        | inl last ↦ ap (λ xs. is_some (look_each (look fuel deps) (open_mark id s) xs)) last
        | inr row ↦
            look_each_fuel (look fuel deps) (id ∷ s.visiting) (look-KeepsOpen fuel deps)
              (λ t x v.
                look_fuel fuel deps t x (rw v (push-IsWithin deps s.visiting id fuel b idle row)))
              (next_ids deps id) (open_mark id s) (add_id-fresh id s.visiting idle)
      ] in
      rw e' (is_some-close_found id r enough)
]

-- StackPrerequisiteCycle returns an answer within its fuel, whatever the graph is.
pub stack_prerequisite_cycle_fuel :
    (first_id : Text) (edges : List StackPrerequisite) (graph : Graph)
    → is_some (stack_prerequisite_cycle first_id edges graph) ≡ true
unfolding stack_prerequisite_cycle contains
stack_prerequisite_cycle_fuel first_id edges graph =
    let deps = candidate_graph first_id edges graph in
    look_fuel (suc (length deps)) deps no_marks first_id
      (record { distinct = tt; rows = λ x h. cc; longer = omega arith })
