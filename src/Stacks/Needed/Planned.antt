-- ===== src/Stacks/Needed/Planned.antt =====
-- What unreadyPrerequisites returns: the stacks that are to be started first, in the order in which
-- they are.
use agent_shell.Base.{
  ◌==◌, Bool-cases, Option-cases, and-true, add_id, contains-add_id, length, all, Text, text_eq_iff,
  contains, lookup, insert, lookup-insert, Result, ◌>>=◌, >>=-eq-ok, ok-injective, ok, ℕ, zero, suc,
  ◌≡◌, refl, sym, ap, ◌∙◌, subst, inl, inr, true, false, some, List, [], ◌∷◌, map, arith,
}
use agent_shell.Env.Layers.{StackPrerequisite, Stack}
use agent_shell.Stacks.Needed.{
  NeededStack, PlanError, Facts, count_up, stack_up_enough, Plan, Stacks, stack_table, need,
  consider, walk_edges, walk, no_plan, unready_prerequisites,
}
use agent_shell.Stacks.Needed.Depth.{prerequisite_ids}
use agent_shell.Stacks.Needed.Plans.{
  is_yes, settled_stack, settled, is_planned, last_first, last_first-snoc, needed_ids,
  needed_ids-snoc, IsPlan,
}
use agent_shell.Stacks.Order.Fuel.{add_id-fresh}
use agent_shell.Stacks.Prerequisites.{normalize_stack_prerequisites}

record Walks (facts : Facts) (table : Stacks) (p : Plan) (ids_done : List Text) (q : Plan)
    : Type 0 where
  plan : IsPlan facts table q
  more : (x : Text) → contains p.seen x ≡ true → contains q.seen x ≡ true
  covered : all (settled facts table q.seen) ids_done ≡ true

settled_more :
    (facts : Facts) (table : Stacks) (a b : List Text)
    → ((x : Text) → contains a x ≡ true → contains b x ≡ true)
    → (d : Text) → settled facts table a d ≡ true
    → settled facts table b d ≡ true
settled_more facts table a b f d h = elim (Option-cases (lookup d table)) [
  | inl missing ↦ absurd (ground (arith, h, missing))
  | inr (s, found) ↦
      rw found (ground (arith, f d, subst (λ o. settled_stack facts a d o ≡ true) found h))
]

need-IsPlan :
    (facts : Facts) (table : Stacks) (edge : StackPrerequisite) (s : Stack) (n : ℕ) (p : Plan)
    → lookup s.id table ≡ some s
    → count_up facts 0 s.members ≡ some n
    → (n == length s.members) ≡ false
    → contains p.seen s.id ≡ false
    → all (settled facts table p.seen) (prerequisite_ids s) ≡ true
    → IsPlan facts table p
    → IsPlan facts table (need edge s n p)
unfolding is_planned
need-IsPlan facts table edge s n p found counted some_down fresh deps plan = record {
  told =
      ap (last_first []) (needed_ids-snoc p.needed _)
      ∙ last_first-snoc [] (needed_ids p.needed) s.id
      ∙ ap (λ xs. s.id ∷ xs) plan.told
      ∙ sym (add_id-fresh s.id p.seen fresh);
  planned =
      rw (add_id-fresh s.id p.seen fresh)
        (rw (found, counted, some_down, fresh, deps, plan.planned) refl);
}

consider-Walks :
    (facts : Facts) (table : Stacks) (edge : StackPrerequisite) (s : Stack) (p q : Plan)
    → lookup edge.stack_id table ≡ some s
    → s.id ≡ edge.stack_id
    → all (settled facts table p.seen) (prerequisite_ids s) ≡ true
    → IsPlan facts table p
    → consider facts edge s p ≡ ok q
    → Walks facts table p (edge.stack_id ∷ []) q
unfolding consider
consider-Walks facts table edge s p q found own deps plan e =
    elim (Bool-cases (contains p.seen s.id)) [
      | inl before ↦
          let is : p ≡ q = ground arith in
          rw (← is)
            (record { plan = plan; more = λ x h. h; covered = rw (found, ← own, before) refl })
      | inr fresh ↦ elim (Option-cases (count_up facts 0 s.members)) [
        | inl failed_query ↦ absurd (ground arith)
        | inr (n, counted) ↦ elim (Bool-cases (n == length s.members)) [
          | inl all_up ↦
              let is : p ≡ q = ground arith in
              let yes : is_yes (stack_up_enough facts s) ≡ true = rw (counted, all_up) refl in
              rw (← is)
                (record { plan = plan; more = λ x h. h; covered = rw found (ground (arith, yes)) })
          | inr some_down ↦
              let is : need edge s n p ≡ q = ground arith in
              let at_own = ap (λ k. lookup k table) own ∙ found in
              let mine : contains (add_id s.id p.seen) edge.stack_id ≡ true = ground (
                arith,
                contains-add_id s.id edge.stack_id p.seen,
                text_eq_iff s.id edge.stack_id,
              ) in
              rw (← is) (record {
                plan = need-IsPlan facts table edge s n p at_own counted some_down fresh deps plan;
                more = λ x h. ground (arith, contains-add_id s.id x p.seen);
                covered = rw found (ground (arith, mine));
              })
        ]
      ]
    ]

-- The walk of one stack, as the loop over the edges uses it.
abbrev Walking : Facts → Stacks → (Stack → Plan → Result PlanError Plan) → Type 0
Walking facts table deeper =
    (s : Stack) (p q : Plan)
    → IsPlan facts table p
    → deeper s p ≡ ok q
    → Walks facts table p (prerequisite_ids s) q

-- Each row of the table stands at its own id.
abbrev AtOwnIds : Stacks → Type 0
AtOwnIds table = (id : Text) (s : Stack) → lookup id table ≡ some s → s.id ≡ id

walk_edges-Walks :
    (deeper : Stack → Plan → Result PlanError Plan) (facts : Facts) (table : Stacks)
    → AtOwnIds table
    → Walking facts table deeper
    → (edges : List StackPrerequisite) (p q : Plan) → IsPlan facts table p
    → walk_edges deeper facts table p edges ≡ ok q
    → Walks facts table p (map (λ e. e.stack_id) edges) q
unfolding walk_edges
walk_edges-Walks deeper facts table at each [] p q plan e =
    let is : p ≡ q = ok-injective p q e in
    rw (← is) (record { plan = plan; more = λ x h. h; covered = refl })
walk_edges-Walks deeper facts table at each (edge ∷ edges) p q plan e =
    elim (Option-cases (lookup edge.stack_id table)) [
      | inl missing ↦ absurd (ground arith)
      | inr (s, found) ↦
          let e' : (deeper s p >>= λ t.
          consider facts edge s t >>= λ r. walk_edges deeper facts table r edges)
              ≡ ok q =
            ground arith in
          let (t, first, rest) =
            >>=-eq-ok (deeper s p)
              (λ t. consider facts edge s t >>= λ r. walk_edges deeper facts table r edges) e' in
          let (r, second, last) =
            >>=-eq-ok (consider facts edge s t) (λ r. walk_edges deeper facts table r edges) rest in
          let a = each s p t plan first in
          let own = at edge.stack_id s found in
          let b = consider-Walks facts table edge s t r found own a.covered a.plan second in
          let c = walk_edges-Walks deeper facts table at each edges r q b.plan last in
          let here = (and-true (settled facts table r.seen edge.stack_id) true b.covered).0 in
          record {
            plan = c.plan;
            more = λ x h. c.more x (b.more x (a.more x h));
            covered =
                rw (settled_more facts table r.seen q.seen c.more edge.stack_id here, c.covered)
                  refl;
          }
    ]

walk-Walking :
    (fuel : ℕ) (facts : Facts) (table : Stacks)
    → AtOwnIds table
    → Walking facts table (walk fuel facts table)
unfolding walk
walk-Walking zero facts table at s p q plan e = cc
walk-Walking (suc fuel) facts table at s p q plan e =
    walk_edges-Walks (walk fuel facts table) facts table at (walk-Walking fuel facts table at)
      (normalize_stack_prerequisites s.depends_on_stacks) p q plan e

stack_table-AtOwnIds :
    (stacks : List Stack) (table : Stacks) → AtOwnIds table → AtOwnIds (stack_table stacks table)
unfolding stack_table
stack_table-AtOwnIds [] table f = f
stack_table-AtOwnIds (s ∷ stacks) table f =
    stack_table-AtOwnIds stacks (insert s.id s table)
      (λ id t e. ground (arith, lookup-insert s.id id s table, text_eq_iff s.id id, f id t))

-- A list of stacks to start first, for a stack with the given prerequisites.
pub record IsPlanFor (facts : Facts) (table : Stacks) (ids_first : List Text)
    (out : List NeededStack) : Type 0 where
  pub in_order : is_planned facts table (last_first [] (needed_ids out)) ≡ true
  pub enough : all (settled facts table (last_first [] (needed_ids out))) ids_first ≡ true

no_plan-IsPlan : (facts : Facts) (table : Stacks) → IsPlan facts table no_plan
unfolding is_planned
no_plan-IsPlan facts table = record { told = refl; planned = refl }

-- Where unreadyPrerequisites returns a list, each stack of it is known, is not up, stands once, and
-- stands after those of its own prerequisites that are not up; and each prerequisite of the first
-- stack is up or in the list.
pub unready_prerequisites-IsPlanFor :
    (fuel : ℕ) (facts : Facts) (stacks : List Stack) (first_stack : Stack) (out : List NeededStack)
    → unready_prerequisites fuel facts stacks first_stack ≡ ok out
    → IsPlanFor facts (stack_table stacks []) (prerequisite_ids first_stack) out
unfolding unready_prerequisites lookup
unready_prerequisites-IsPlanFor fuel facts stacks first_stack out e =
    let table = stack_table stacks [] in
    let (p, found, last) =
      >>=-eq-ok (walk fuel facts table first_stack no_plan) (λ p. ok p.needed) e in
    let at = stack_table-AtOwnIds stacks [] (λ id s h. cc) in
    let w =
      walk-Walking fuel facts table at first_stack no_plan p (no_plan-IsPlan facts table) found in
    let is : p.needed ≡ out = ok-injective p.needed out last in
    let plan_for : IsPlanFor facts table (prerequisite_ids first_stack) p.needed = record {
      in_order = ap (is_planned facts table) w.plan.told ∙ w.plan.planned;
      enough =
          subst (λ xs. all (settled facts table xs) (prerequisite_ids first_stack) ≡ true)
            (sym w.plan.told) w.covered;
    } in
    subst (IsPlanFor facts table (prerequisite_ids first_stack)) is plan_for
