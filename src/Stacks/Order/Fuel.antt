-- ===== src/Stacks/Order/Fuel.antt =====
-- The fuel of stackDependencyOrder is enough.
use agent_shell.Base.{
  Bool-cases, Option-cases, add_id, drop-add, length-Distinct, length, Text, text_eq_iff, contains,
  Distinct, lookup, Result, ◌>>=◌, >>=-eq-ok, ok-injective, ok, err, ℕ, zero, suc, ◌+◌, ◌<◌, ◌≡◌,
  refl, sym, ap, ◌∙◌, inl, inr, Bool, true, false, List, [], ◌∷◌, arith,
}
use agent_shell.Env.Layers.{StackMember}
use agent_shell.Http.Templates.{ids}
use agent_shell.Stacks.Order.{
  OrderError, Search, Members, by_id, visit_each, enter, leave, visit, no_search, command_ids,
  search_members, stack_dependency_order, cycle, unknown_command, out_of_fuel,
}
use agent_shell.Stacks.Order.Table.{known, by_id_known}

abbrev pub runs_out {ℓ} : {A : Type ℓ} → Result OrderError A → Bool
runs_out (err out_of_fuel) = true
runs_out _ = false

pub runs_out-bind {ℓ κ} :
    {A : Type ℓ} {B : Type κ} (r : Result OrderError A) (f : A → Result OrderError B)
    → runs_out r ≡ false
    → ((a : A) → r ≡ ok a → runs_out (f a) ≡ false)
    → runs_out (r >>= f) ≡ false
runs_out-bind (ok a) f h k = k a refl
runs_out-bind (err (cycle x)) f h k = refl
runs_out-bind (err (unknown_command x)) f h k = refl
runs_out-bind (err out_of_fuel) f h k = cc

-- A call that succeeds leaves `visiting` as it was.
abbrev pub KeepsVisiting : (Search → Text → Result OrderError Search) → Type 0
KeepsVisiting f = (s : Search) (id : Text) (s' : Search) → f s id ≡ ok s' → s'.visiting ≡ s.visiting

visit_each-visiting :
    (f : Search → Text → Result OrderError Search)
    → KeepsVisiting f
    → (xs : List Text) (s s' : Search) → visit_each f s xs ≡ ok s'
    → s'.visiting ≡ s.visiting
visit_each-visiting f each [] s s' e = ap (λ t. t.visiting) (sym (ok-injective s s' e))
visit_each-visiting f each (x ∷ xs) s s' e =
    let (t, first, rest) = >>=-eq-ok (f s x) (λ t. visit_each f t xs) e in
    visit_each-visiting f each xs t s' rest ∙ each s x t first

pub visit-KeepsVisiting : (fuel : ℕ) (table : Members) → KeepsVisiting (visit fuel table)
unfolding visit
visit-KeepsVisiting zero table s id s' e = cc
visit-KeepsVisiting (suc fuel) table s id s' e = elim (Bool-cases (contains s.visiting id)) [
  | inl busy ↦ absurd (ground arith)
  | inr idle ↦ elim (Bool-cases (contains s.visited id)) [
    | inl old ↦ ground arith
    | inr fresh ↦ elim (Option-cases (lookup id table)) [
      | inl missing ↦ absurd (ground arith)
      | inr (m, found) ↦
          let e' : (visit_each (visit fuel table) (enter id s) m.depends_on >>= λ t.
          ok (leave id m t))
              ≡ ok s' =
            ground arith in
          let (t, deps, last) =
            >>=-eq-ok (visit_each (visit fuel table) (enter id s) m.depends_on)
              (λ t. ok (leave id m t)) e' in
          let is : leave id m t ≡ s' = ok-injective (leave id m t) s' last in
          let same =
            visit_each-visiting (visit fuel table) (visit-KeepsVisiting fuel table) m.depends_on
              (enter id s) t deps in
          rw (← is) (rw same (drop-add id s.visiting idle))
    ]
  ]
]

-- The visited path is a set of known ids, and with the fuel it is longer than the list of known ids.
pub record Bounded (table : Members) (ids visiting : List Text) (fuel : ℕ) : Type 0 where
  pub listed : (x : Text) → known table x ≡ true → contains ids x ≡ true
  pub distinct : Distinct visiting
  pub path_known : (x : Text) → contains visiting x ≡ true → known table x ≡ true
  pub longer : length ids < length visiting + fuel

visit_each_fuel :
    (f : Search → Text → Result OrderError Search) (path : List Text)
    → KeepsVisiting f
    → ((s : Search) (id : Text) → s.visiting ≡ path → runs_out (f s id) ≡ false)
    → (xs : List Text) (s : Search) → s.visiting ≡ path
    → runs_out (visit_each f s xs) ≡ false
visit_each_fuel f path keeps each [] s p = refl
visit_each_fuel f path keeps each (x ∷ xs) s p =
    runs_out-bind (f s x) (λ t. visit_each f t xs) (each s x p)
      (λ t e. visit_each_fuel f path keeps each xs t (keeps s x t e ∙ p))

pub add_id-fresh : (id : Text) (xs : List Text) → contains xs id ≡ false → add_id id xs ≡ id ∷ xs
add_id-fresh id xs e = rw e refl

step-Bounded :
    (table : Members) (ids path : List Text) (id : Text) (fuel : ℕ)
    → Bounded table ids path (suc fuel)
    → contains path id ≡ false
    → known table id ≡ true
    → Bounded table ids (id ∷ path) fuel
unfolding contains
step-Bounded table ids path id fuel b idle here = record {
  listed = b.listed;
  distinct = (idle, b.distinct);
  path_known = λ x h. ground (arith, b.path_known x, text_eq_iff id x);
  longer = omega (arith, b.longer);
}

pub visit_fuel :
    (fuel : ℕ) (table : Members) (ids : List Text) (s : Search) (id : Text)
    → Bounded table ids s.visiting fuel
    → runs_out (visit fuel table s id) ≡ false
unfolding visit
visit_fuel zero table ids s id b = absurd (
    omega (
      arith,
      b.longer,
      length-Distinct s.visiting ids b.distinct (λ x h. b.listed x (b.path_known x h)),
    ))
visit_fuel (suc fuel) table ids s id b = elim (Bool-cases (contains s.visiting id)) [
  | inl busy ↦ ground arith
  | inr idle ↦ elim (Bool-cases (contains s.visited id)) [
    | inl old ↦ ground arith
    | inr fresh ↦ elim (Option-cases (lookup id table)) [
      | inl missing ↦ ground arith
      | inr (m, found) ↦
          let path = add_id-fresh id s.visiting idle in
          let b' = step-Bounded table ids s.visiting id fuel b idle (rw found refl) in
          let deps = visit_each (visit fuel table) (enter id s) m.depends_on in
          let same : visit (suc fuel) table s id ≡ (deps >>= λ t. ok (leave id m t)) =
            ground arith in
          rw same (
            runs_out-bind deps (λ t. ok (leave id m t))
              (visit_each_fuel (visit fuel table) (id ∷ s.visiting) (visit-KeepsVisiting fuel table)
                (λ t x p. visit_fuel fuel table ids t x (rw p b')) m.depends_on (enter id s) path)
              (λ t e. refl))
    ]
  ]
]

pub length-command_ids :
    (members : List StackMember) → length (command_ids members) ≡ length members
length-command_ids [] = refl
length-command_ids (m ∷ members) = omega (arith, length-command_ids members)

start-Bounded :
    (members : List StackMember)
    → Bounded (by_id members []) (command_ids members) [] (suc (length members))
unfolding contains lookup
start-Bounded members = record {
  listed = λ x h. ground (arith, by_id_known members [] x);
  distinct = tt;
  path_known = λ x h. cc;
  longer = omega (arith, length-command_ids members);
}

-- stackDependencyOrder does not run out of fuel, whatever the members and their dependencies are.
pub stack_dependency_order_fuel :
    (members : List StackMember) → runs_out (stack_dependency_order members) ≡ false
unfolding stack_dependency_order
stack_dependency_order_fuel members =
    let table = by_id members [] in
    runs_out-bind (search_members members) (λ s. ok s.order)
      (visit_each_fuel (visit (suc (length members)) table) []
        (visit-KeepsVisiting (suc (length members)) table)
        (λ t x p.
          visit_fuel (suc (length members)) table (command_ids members) t x
            (rw p (start-Bounded members)))
        (command_ids members) no_search refl)
      (λ s e. refl)
