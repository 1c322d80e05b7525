-- ===== src/Stacks/Prerequisites/Acyclic.antt =====
-- Where StackPrerequisiteCycle reports nothing, nothing that the first id leads to lies on a cycle.
use agent_shell.Base.{
  and-true, drop_id, contains-add_id, contains-drop_id, drop-add, length, all, Text, text_eq_refl,
  text_eq_iff, is_empty, contains, ℕ, zero, suc, ◌≡◌, refl, sym, ap, ◌∙◌, ◌⊎◌, inl, inr, true,
  false, some, List, [], ◌∷◌, arith,
}
use agent_shell.Env.Layers.{StackPrerequisite}
use agent_shell.Stacks.Prerequisites.{
  Graph, next_ids, Marks, Found, open_mark, close_mark, look_each, look, no_marks, candidate_graph,
  stack_prerequisite_cycle,
}
use agent_shell.Stacks.Prerequisites.Cases.{
  look_cases, each_cases, close_found-some, on_path, seen_before, goes_in, no_fuel, stops_at,
  goes_past,
}
use agent_shell.Stacks.Prerequisites.Cycle.{Leads}
use agent_shell.Stacks.Prerequisites.Layered.{
  IsSolid, is_layered, is_layered-push, layered-Leads, layered-no-cycle,
}

record IsKept (deps : Graph) (s : Marks) : Type 0 where
  layered : is_layered deps s.visited ≡ true
  apart : (x : Text) → contains s.visiting x ≡ true → contains s.visited x ≡ false

-- An answer that nothing was found.
record Clears (deps : Graph) (s : Marks) (xs : List Text) (t : Marks) : Type 0 where
  kept : IsKept deps t
  same : t.visiting ≡ s.visiting
  more : (x : Text) → contains s.visited x ≡ true → contains t.visited x ≡ true
  done_all : all (contains t.visited) xs ≡ true

abbrev Clearing : Graph → (Marks → Text → Found) → Type 0
Clearing deps f =
    (s : Marks) (x found : Text) (t : Marks)
    → IsKept deps s
    → is_empty x ≡ false
    → f s x ≡ some (found, t)
    → is_empty found ≡ true
    → Clears deps s (x ∷ []) t

look_each-Clears :
    (deps : Graph) (f : Marks → Text → Found)
    → Clearing deps f
    → (xs : List Text) (s : Marks) (found : Text) (t : Marks) → IsKept deps s
    → ((x : Text) → contains xs x ≡ true → is_empty x ≡ false)
    → look_each f s xs ≡ some (found, t)
    → is_empty found ≡ true
    → Clears deps s xs t
unfolding look_each contains
look_each-Clears deps f each [] s found t k solid e blank =
    let is : s ≡ t = ground arith in
    rw (← is) (record { kept = k; same = refl; more = λ x h. h; done_all = refl })
look_each-Clears deps f each (x ∷ xs) s found t k solid e blank = elim (each_cases f s x xs) [
  | no_fuel _ e' ↦ absurd (ground arith)
  | stops_at found' t' some_found real e' ↦ absurd (ground arith)
  | goes_past found' t' some_found blank' e' ↦
      let a = each s x found' t' k (solid x (ground (arith, text_eq_refl x))) some_found blank' in
      let b =
        look_each-Clears deps f each xs t' found t a.kept (λ y h. solid y (ground arith))
          (sym e' ∙ e) blank in
      record {
        kept = b.kept;
        same = b.same ∙ a.same;
        more = λ y h. b.more y (a.more y h);
        done_all =
            rw (b.more x (and-true (contains t'.visited x) true a.done_all).0, b.done_all) refl;
      }
]

open-IsKept :
    (deps : Graph) (s : Marks) (id : Text)
    → IsKept deps s
    → contains s.visited id ≡ false
    → IsKept deps (open_mark id s)
open-IsKept deps s id k fresh = record {
  layered = k.layered;
  apart = λ x h. ground (arith, contains-add_id id x s.visiting, k.apart x, text_eq_iff id x);
}

close-Clears :
    (deps : Graph) (s t : Marks) (id : Text)
    → contains s.visiting id ≡ false
    → Clears deps (open_mark id s) (next_ids deps id) t
    → Clears deps s (id ∷ []) (close_mark id t)
close-Clears deps s t id idle c =
    let here : contains t.visiting id ≡ true =
      rw c.same (ground (arith, contains-add_id id id s.visiting, text_eq_refl id)) in
    let fresh = c.kept.apart id here in
    record {
      kept = record {
        layered = is_layered-push deps id t.visited c.done_all fresh c.kept.layered;
        apart = λ x h. ground (
          arith,
          contains-drop_id id x t.visiting,
          contains-add_id id x t.visited,
          c.kept.apart x,
        );
      };
      same = ap (drop_id id) c.same ∙ drop-add id s.visiting idle;
      more = λ x h. ground (arith, contains-add_id id x t.visited, c.more x h);
      done_all = ground (arith, contains-add_id id id t.visited, text_eq_refl id);
    }

look-Clears : (fuel : ℕ) (deps : Graph) → IsSolid deps → Clearing deps (look fuel deps)
unfolding look
look-Clears zero deps solid s id found t k real e blank = cc
look-Clears (suc fuel) deps solid s id found t k real e blank = elim (look_cases fuel deps s id) [
  | on_path busy e' ↦ absurd (ground arith)
  | seen_before idle old e' ↦
      let is : s ≡ t = ground arith in
      rw (← is) (record { kept = k; same = refl; more = λ x h. h; done_all = rw old refl })
  | goes_in idle fresh e' ↦
      let r = look_each (look fuel deps) (open_mark id s) (next_ids deps id) in
      let (t0, some_found, closed_as) = close_found-some id r found t (sym e' ∙ e) in
      let c =
        look_each-Clears deps (look fuel deps) (look-Clears fuel deps solid) (next_ids deps id)
          (open_mark id s) found t0 (open-IsKept deps s id k fresh) (λ x h. solid id x h) some_found
          blank in
      rw (closed_as blank) (close-Clears deps s t0 id idle c)
]

no_marks-IsKept : (deps : Graph) → IsKept deps no_marks
unfolding is_layered contains
no_marks-IsKept deps = record { layered = refl; apart = λ x h. cc }

-- Where no id is empty and StackPrerequisiteCycle returns the empty text, no id that the first one
-- leads to leads back to itself, and neither does the first.
pub stack_prerequisite_cycle_none :
    (first_id : Text) (edges : List StackPrerequisite) (graph : Graph) (t : Marks)
    → is_empty first_id ≡ false
    → IsSolid (candidate_graph first_id edges graph)
    → stack_prerequisite_cycle first_id edges graph ≡ some ([], t)
    → (x : Text) → (first_id ≡ x) ⊎ Leads (candidate_graph first_id edges graph) first_id x
    → ¬ Leads (candidate_graph first_id edges graph) x x
unfolding stack_prerequisite_cycle
stack_prerequisite_cycle_none first_id edges graph t real solid e x reached =
    let deps = candidate_graph first_id edges graph in
    let c =
      look-Clears (suc (length deps)) deps solid no_marks first_id [] t (no_marks-IsKept deps) real
        e refl in
    let here = (and-true (contains t.visited first_id) true c.done_all).0 in
    let there : contains t.visited x ≡ true = elim reached [
      | inl same ↦ rw (← same) here
      | inr w ↦ layered-Leads deps t.visited first_id x c.kept.layered here w
    ] in
    layered-no-cycle deps t.visited x c.kept.layered there
