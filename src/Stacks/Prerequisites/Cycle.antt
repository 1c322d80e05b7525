-- ===== src/Stacks/Prerequisites/Cycle.antt =====
-- An id that StackPrerequisiteCycle reports lies on a cycle.
use agent_shell.Base.{
  Bool-cases, All, Text, text_eq, text_eq_refl, text_eq_iff, is_empty, contains, ℕ, zero, suc, ◌≡◌,
  sym, ◌∙◌, inl, inr, true, false, some, List, [], ◌∷◌, arith, drop_id, drop_id-fresh, length, refl,
  ap, subst, Option-cases, lookup,
}
use agent_shell.Env.Layers.{StackPrerequisite}
use agent_shell.Stacks.Order.Fuel.{add_id-fresh}
use agent_shell.Stacks.Prerequisites.{
  Graph, next_ids, Marks, Found, look_each, look, open_mark, no_marks, candidate_graph,
  stack_prerequisite_cycle,
}
use agent_shell.Stacks.Prerequisites.Cases.{
  look_cases, each_cases, on_path, seen_before, goes_in, no_fuel, stops_at, goes_past,
  close_found-some,
}

abbrev pub HasEdge : Graph → Text → Text → Type 0
HasEdge deps x y = contains (next_ids deps x) y ≡ true

pub HasEdge-row :
    (deps : Graph) (x y : Text)
    → HasEdge deps x y
    → (nexts : List Text) × (lookup x deps ≡ some nexts) × (contains nexts y ≡ true)
unfolding contains
HasEdge-row deps x y e = elim (Option-cases (lookup x deps)) [
  | inl missing ↦ absurd (ground (arith, e, missing))
  | inr (nexts, found) ↦ (nexts, found, ground (arith, e, found))
]

-- A way of one or more edges.
pub data Leads (deps : Graph) : Text → Text → Type 0 where
  single : (x y : Text) → HasEdge deps x y → Leads deps x y
  onward : (x y z : Text) → HasEdge deps x y → Leads deps y z → Leads deps x z

Leads-edge : (deps : Graph) (x y z : Text) → Leads deps x y → HasEdge deps y z → Leads deps x z
Leads-edge deps _ _ z (single x y h) k = onward x y z h (single y z k)
Leads-edge deps _ _ z (onward x y w h l) k = onward x y z h (Leads-edge deps y w z l k)

-- The open ids, the last first, are a way.
abbrev IsTrail : Graph → List Text → Type 0
IsTrail deps [] = Unit
IsTrail deps (x ∷ []) = Unit
IsTrail deps (x ∷ y ∷ r) = HasEdge deps y x × IsTrail deps (y ∷ r)

trail-Leads :
    (deps : Graph) (y : Text) (path : List Text) (x : Text)
    → IsTrail deps (y ∷ path)
    → contains path x ≡ true
    → Leads deps x y
unfolding contains
trail-Leads deps y [] x t h = cc
trail-Leads deps y (z ∷ r) x (step_to, t) h = elim (Bool-cases (text_eq z x)) [
  | inl same ↦ let is : z ≡ x = (text_eq_iff z x).0 same in rw (← is) (single z y step_to)
  | inr other ↦ Leads-edge deps x z y (trail-Leads deps z r x t (ground arith)) step_to
]

-- What an answer of the search says, given the open ids.
record Answers (deps : Graph) (path : List Text) (found : Text) (t : Marks) : Type 0 where
  on_cycle : is_empty found ≡ false → Leads deps found found
  back : is_empty found ≡ true → t.visiting ≡ path

abbrev Answering : Graph → List Text → (Text → Type 0) → (Marks → Text → Found) → Type 0
Answering deps path P f =
    (s : Marks) (x found : Text) (t : Marks)
    → s.visiting ≡ path
    → P x
    → f s x ≡ some (found, t)
    → Answers deps path found t

look_each-Answers :
    (deps : Graph) (path : List Text) (P : Text → Type 0) (f : Marks → Text → Found)
    → Answering deps path P f
    → (xs : List Text) (s : Marks) (found : Text) (t : Marks) → s.visiting ≡ path
    → All P xs
    → look_each f s xs ≡ some (found, t)
    → Answers deps path found t
unfolding look_each
look_each-Answers deps path P f each [] s found t v h e = record {
  on_cycle = λ real. absurd (ground arith);
  back = λ blank. ground arith;
}
look_each-Answers deps path P f each (x ∷ xs) s found t v (h, hs) e = elim (each_cases f s x xs) [
  | no_fuel _ e' ↦ absurd (ground arith)
  | stops_at found' t' some_found real e' ↦ each s x found t v h (ground arith)
  | goes_past found' t' some_found blank e' ↦
      let a = each s x found' t' v h some_found in
      look_each-Answers deps path P f each xs t' found t (a.back blank) hs (sym e' ∙ e)
]

pub drop_id_self :
    (id : Text) (path : List Text) → contains path id ≡ false → drop_id id (id ∷ path) ≡ path
drop_id_self id path idle = ground (arith, text_eq_refl id, drop_id-fresh id path idle)

edges-All :
    (deps : Graph) (id : Text) (path xs : List Text)
    → IsTrail deps (id ∷ path)
    → ((x : Text) → contains xs x ≡ true → HasEdge deps id x)
    → All (λ x. IsTrail deps (x ∷ id ∷ path)) xs
unfolding contains
edges-All deps id path [] t f = tt
edges-All deps id path (x ∷ xs) t f = (
  (f x (ground (arith, text_eq_refl x)), t),
  edges-All deps id path xs t (λ y h. f y (ground arith)),
)

look-Answers :
    (fuel : ℕ) (deps : Graph) (path : List Text)
    → Answering deps path (λ x. IsTrail deps (x ∷ path)) (look fuel deps)
unfolding look
look-Answers zero deps path s id found t v trail e = cc
look-Answers (suc fuel) deps path s id found t v trail e = elim (look_cases fuel deps s id) [
  | on_path busy e' ↦
      let same : id ≡ found = ground arith in
      let l = trail-Leads deps id path id trail (rw v at busy) in
      record { on_cycle = λ real. subst (λ z. Leads deps z z) same l; back = λ blank. ground arith }
  | seen_before idle old e' ↦ record {
    on_cycle = λ real. absurd (ground arith);
    back = λ blank. ground arith;
  }
  | goes_in idle fresh e' ↦
      let r = look_each (look fuel deps) (open_mark id s) (next_ids deps id) in
      let (t0, some_found, closed_as) = close_found-some id r found t (sym e' ∙ e) in
      let a =
        look_each-Answers deps (id ∷ path) (λ x. IsTrail deps (x ∷ id ∷ path)) (look fuel deps)
          (look-Answers fuel deps (id ∷ path)) (next_ids deps id) (open_mark id s) found t0
          (add_id-fresh id s.visiting idle ∙ ap (λ z. id ∷ z) v)
          (edges-All deps id path (next_ids deps id) trail (λ x h. h)) some_found in
      record {
        on_cycle = a.on_cycle;
        back = λ blank.
            let idle' : contains path id ≡ false = rw (← v) idle in
            ap (λ m. m.visiting) (closed_as blank)
            ∙ ap (drop_id id) (a.back blank)
            ∙ drop_id_self id path idle';
      }
]

-- Where StackPrerequisiteCycle returns an id that is not empty, that id leads back to itself.
pub stack_prerequisite_cycle-Leads :
    (first_id : Text) (edges : List StackPrerequisite) (graph : Graph) (found : Text) (t : Marks)
    → stack_prerequisite_cycle first_id edges graph ≡ some (found, t)
    → is_empty found ≡ false
    → Leads (candidate_graph first_id edges graph) found found
unfolding stack_prerequisite_cycle
stack_prerequisite_cycle-Leads first_id edges graph found t e real =
    let deps = candidate_graph first_id edges graph in
    (look-Answers (suc (length deps)) deps [] no_marks first_id found t refl tt e).on_cycle real
