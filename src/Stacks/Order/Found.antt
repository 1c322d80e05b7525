-- ===== src/Stacks/Order/Found.antt =====
-- stackDependencyOrder finds an order where there is one.
use agent_shell.Base.{
  Bool-cases, Option-cases, length, All, All-map, Text, text_eq_refl, text_eq_iff, contains, lookup,
  Result, ◌>>=◌, ok, err, ℕ, zero, suc, ◌<◌, ◌≡◌, refl, ◌∙◌, inl, inr, Bool, true, false, some,
  List, [], ◌∷◌, arith,
}
use agent_shell.Env.Layers.{StackMember}
use agent_shell.Stacks.Order.{
  OrderError, Search, Members, by_id, visit_each, enter, leave, visit, no_search, command_ids,
  search_members, stack_dependency_order, cycle, unknown_command, out_of_fuel,
}
use agent_shell.Stacks.Order.Fuel.{
  runs_out, KeepsVisiting, visit-KeepsVisiting, add_id-fresh, stack_dependency_order_fuel,
}
use agent_shell.Stacks.Order.Table.{known, by_id_known}

abbrev fails {ℓ} : {A : Type ℓ} → Result OrderError A → Bool
fails (err (cycle x)) = true
fails (err (unknown_command x)) = true
fails _ = false

fails-bind {ℓ κ} :
    {A : Type ℓ} {B : Type κ} (r : Result OrderError A) (f : A → Result OrderError B)
    → fails r ≡ false
    → ((a : A) → r ≡ ok a → fails (f a) ≡ false)
    → fails (r >>= f) ≡ false
fails-bind (ok a) f h k = k a refl
fails-bind (err (cycle x)) f h k = cc
fails-bind (err (unknown_command x)) f h k = cc
fails-bind (err out_of_fuel) f h k = refl

succeeds {ℓ} :
    {A : Type ℓ} (r : Result OrderError A)
    → runs_out r ≡ false
    → fails r ≡ false
    → (a : A) × (r ≡ ok a)
succeeds (ok a) h k = (a, refl)
succeeds (err (cycle x)) h k = cc
succeeds (err (unknown_command x)) h k = cc
succeeds (err out_of_fuel) h k = cc

-- A dependency is known and has a lower rank.
abbrev pub IsBelow : Members → (Text → ℕ) → Text → Text → Type 0
IsBelow table rank id d = (known table d ≡ true) × (rank d < rank id)

abbrev pub IsRanked : Members → (Text → ℕ) → Type 0
IsRanked table rank =
    (id : Text) (m : StackMember)
    → lookup id table ≡ some m
    → All (IsBelow table rank id) m.depends_on

-- An id that a path may go on with.
abbrev IsFree : Members → (Text → ℕ) → List Text → Text → Type 0
IsFree table rank path id =
    (known table id ≡ true) × ((x : Text) → contains path x ≡ true → rank id < rank x)

visit_each_succeeds :
    (f : Search → Text → Result OrderError Search) (path : List Text) (P : Text → Type 0)
    → KeepsVisiting f
    → ((s : Search) (id : Text) → s.visiting ≡ path → P id → fails (f s id) ≡ false)
    → (xs : List Text) (s : Search) → s.visiting ≡ path
    → All P xs
    → fails (visit_each f s xs) ≡ false
visit_each_succeeds f path P keeps each [] s p h = refl
visit_each_succeeds f path P keeps each (x ∷ xs) s p (h, hs) =
    fails-bind (f s x) (λ t. visit_each f t xs) (each s x p h)
      (λ t e. visit_each_succeeds f path P keeps each xs t (keeps s x t e ∙ p) hs)

below-IsFree :
    (table : Members) (rank : Text → ℕ) (path : List Text) (id d : Text)
    → IsFree table rank path id
    → IsBelow table rank id d
    → IsFree table rank (id ∷ path) d
unfolding contains
below-IsFree table rank path id d (here, low) (there, lower) =
    (there, λ x h. ground (arith, low x, text_eq_iff id x))

visit_succeeds :
    (fuel : ℕ) (table : Members) (rank : Text → ℕ)
    → IsRanked table rank
    → (s : Search) (id : Text) → IsFree table rank s.visiting id
    → fails (visit fuel table s id) ≡ false
unfolding visit
visit_succeeds zero table rank ranked s id free = refl
visit_succeeds (suc fuel) table rank ranked s id (here, low) =
    elim (Bool-cases (contains s.visiting id)) [
      | inl busy ↦ absurd (omega (arith, low id busy))
      | inr idle ↦ elim (Bool-cases (contains s.visited id)) [
        | inl old ↦ ground arith
        | inr fresh ↦ elim (Option-cases (lookup id table)) [
          | inl missing ↦ absurd (ground arith)
          | inr (m, found) ↦
              let deps = visit_each (visit fuel table) (enter id s) m.depends_on in
              let same : visit (suc fuel) table s id ≡ (deps >>= λ t. ok (leave id m t)) =
                ground arith in
              let free =
                All-map (λ d h. below-IsFree table rank s.visiting id d (here, low) h) m.depends_on
                  (ranked id m found) in
              rw same (
                fails-bind deps (λ t. ok (leave id m t))
                  (visit_each_succeeds (visit fuel table) (id ∷ s.visiting)
                    (IsFree table rank (id ∷ s.visiting)) (visit-KeepsVisiting fuel table)
                    (λ t x p h. visit_succeeds fuel table rank ranked t x (rw p h)) m.depends_on
                    (enter id s) (add_id-fresh id s.visiting idle) free)
                  (λ t e. refl))
        ]
      ]
    ]

members-IsFree :
    (members : List StackMember) (table : Members) (rank : Text → ℕ)
    → ((x : Text) → contains (command_ids members) x ≡ true → known table x ≡ true)
    → All (IsFree table rank []) (command_ids members)
unfolding contains
members-IsFree [] table rank h = tt
members-IsFree (m ∷ members) table rank h = (
  (h m.command_id (ground (arith, text_eq_refl m.command_id)), λ x c. cc),
  members-IsFree members table rank (λ x c. h x (ground arith)),
)

-- Where the members can be ranked so that each dependency is a member of a lower rank,
-- stackDependencyOrder returns an order.
pub stack_dependency_order_found :
    (members : List StackMember) (rank : Text → ℕ)
    → IsRanked (by_id members []) rank
    → (order : List StackMember) × (stack_dependency_order members ≡ ok order)
unfolding stack_dependency_order
stack_dependency_order_found members rank ranked =
    let table = by_id members [] in
    let fuel = suc (length members) in
    succeeds (stack_dependency_order members) (stack_dependency_order_fuel members) (
      fails-bind (search_members members) (λ s. ok s.order)
        (visit_each_succeeds (visit fuel table) [] (IsFree table rank [])
          (visit-KeepsVisiting fuel table)
          (λ t x p h. visit_succeeds fuel table rank ranked t x (rw p h)) (command_ids members)
          no_search refl
          (members-IsFree members table rank (λ x h. ground (arith, by_id_known members [] x))))
        (λ s e. refl))
