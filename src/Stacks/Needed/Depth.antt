-- ===== src/Stacks/Needed/Depth.antt =====
-- The walk over the prerequisites ends where they can be ranked.
use agent_shell.Base.{
  ◌==◌, Bool-cases, Option-cases, length, All, All-map, Text, contains, lookup, Result, fails_with,
  fails_with-bind, ok, ℕ, zero, suc, ◌<◌, ◌≡◌, refl, inl, inr, Bool, true, false, some, List, [],
  ◌∷◌, map, arith, ◌>>=◌,
}
use agent_shell.Env.Layers.{StackPrerequisite, Stack}
use agent_shell.Stacks.Needed.{
  PlanError, Facts, count_up, Plan, Stacks, stack_table, consider, walk_edges, walk, no_plan,
  unready_prerequisites, out_of_depth,
}
use agent_shell.Stacks.Prerequisites.{normalize_stack_prerequisites}

abbrev pub is_out_of_depth : PlanError → Bool
is_out_of_depth out_of_depth = true
is_out_of_depth _ = false

abbrev pub prerequisite_ids : Stack → List Text
prerequisite_ids s = map (λ e. e.stack_id) (normalize_stack_prerequisites s.depends_on_stacks)

-- Each stack of the table has only prerequisites of a lower rank.
abbrev pub AreRanked : Stacks → (Text → ℕ) → Type 0
AreRanked table rank =
    (id : Text) (s : Stack)
    → lookup id table ≡ some s
    → All (λ d. rank d < rank id) (prerequisite_ids s)

consider-depth :
    (facts : Facts) (edge : StackPrerequisite) (s : Stack) (p : Plan)
    → fails_with is_out_of_depth (consider facts edge s p) ≡ false
unfolding consider
consider-depth facts edge s p = elim (Bool-cases (contains p.seen s.id)) [
  | inl before ↦ rw before refl
  | inr fresh ↦ elim (Option-cases (count_up facts 0 s.members)) [
    | inl failed_query ↦ rw (fresh, failed_query) refl
    | inr (n, counted) ↦ elim (Bool-cases (n == length s.members)) [
      | inl all_up ↦ rw (fresh, counted, all_up) refl
      | inr some_down ↦ rw (fresh, counted, some_down) refl
    ]
  ]
]

walk_edges-depth :
    (deeper : Stack → Plan → Result PlanError Plan) (facts : Facts) (table : Stacks)
    → (edges : List StackPrerequisite) (p : Plan)
    → All
        (λ e.
          (s : Stack) (q : Plan)
          → lookup e.stack_id table ≡ some s
          → fails_with is_out_of_depth (deeper s q) ≡ false)
        edges
    → fails_with is_out_of_depth (walk_edges deeper facts table p edges) ≡ false
unfolding walk_edges
walk_edges-depth deeper facts table [] p h = refl
walk_edges-depth deeper facts table (edge ∷ edges) p (h, hs) =
    elim (Option-cases (lookup edge.stack_id table)) [
      | inl missing ↦ ground arith
      | inr (s, found) ↦
          let same : walk_edges deeper facts table p (edge ∷ edges) ≡ (
              deeper s p >>= λ q.
              consider facts edge s q >>= λ r. walk_edges deeper facts table r edges) =
            ground arith in
          rw same (
            fails_with-bind is_out_of_depth (deeper s p)
              (λ q. consider facts edge s q >>= λ r. walk_edges deeper facts table r edges)
              (h s p found)
              (λ q e.
                fails_with-bind is_out_of_depth (consider facts edge s q)
                  (λ r. walk_edges deeper facts table r edges) (consider-depth facts edge s q)
                  (λ r e'. walk_edges-depth deeper facts table edges r hs)))
    ]

edges-All :
    (P : Text → Type 0) (Q : StackPrerequisite → Type 0)
    → ((e : StackPrerequisite) → P e.stack_id → Q e)
    → (edges : List StackPrerequisite) → All P (map (λ e. e.stack_id) edges)
    → All Q edges
edges-All P Q f [] h = tt
edges-All P Q f (e ∷ edges) (h, hs) = (f e h, edges-All P Q f edges hs)

walk-depth :
    (fuel : ℕ) (facts : Facts) (table : Stacks) (rank : Text → ℕ)
    → AreRanked table rank
    → (current : Stack) (p : Plan) → All (λ d. suc (rank d) < fuel) (prerequisite_ids current)
    → 0 < fuel
    → fails_with is_out_of_depth (walk fuel facts table current p) ≡ false
unfolding walk
walk-depth zero facts table rank ranked current p below some_fuel =
    absurd (omega (arith, some_fuel))
walk-depth (suc fuel) facts table rank ranked current p below some_fuel =
    walk_edges-depth (walk fuel facts table) facts table
      (normalize_stack_prerequisites current.depends_on_stacks) p
      (edges-All (λ d. suc (rank d) < suc fuel) _
        (λ e low s q found.
          walk-depth fuel facts table rank ranked s q
            (All-map (λ d lower. omega (arith, lower, low)) (prerequisite_ids s)
              (ranked e.stack_id s found))
            (omega (arith, low)))
        (normalize_stack_prerequisites current.depends_on_stacks) below)

-- Where the prerequisites can be ranked, each below what needs it, the walk ends: one level of fuel
-- more than the rank of the first stack's prerequisites and the next is enough.
pub unready_prerequisites-depth :
    (fuel : ℕ) (facts : Facts) (stacks : List Stack) (first_stack : Stack) (rank : Text → ℕ)
    → AreRanked (stack_table stacks []) rank
    → All (λ d. suc (rank d) < fuel) (prerequisite_ids first_stack)
    → 0 < fuel
    → fails_with is_out_of_depth (unready_prerequisites fuel facts stacks first_stack) ≡ false
unfolding unready_prerequisites
unready_prerequisites-depth fuel facts stacks first_stack rank ranked below some_fuel =
    fails_with-bind is_out_of_depth (walk fuel facts (stack_table stacks []) first_stack no_plan)
      (λ p. ok p.needed)
      (walk-depth fuel facts (stack_table stacks []) rank ranked first_stack no_plan below
        some_fuel)
      (λ p e. refl)
