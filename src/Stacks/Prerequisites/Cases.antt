-- ===== src/Stacks/Prerequisites/Cases.antt =====
-- The branches of the search for a cycle, each with what the search gives there.
use agent_shell.Base.{
  Bool-cases, Option-cases, Text, is_empty, contains, ℕ, suc, ◌≡◌, inl, inr, true, false, none,
  some, List, [], ◌∷◌, arith,
}
use agent_shell.Stacks.Prerequisites.{
  Graph, next_ids, Marks, Found, open_mark, look_each, close_found, look, close_mark,
}

pub data LookCase (fuel : ℕ) (deps : Graph) (s : Marks) (id : Text) : Type 0 where
  on_path :
      contains s.visiting id ≡ true
      → look (suc fuel) deps s id ≡ some (id, s)
      → LookCase fuel deps s id
  seen_before :
      contains s.visiting id ≡ false
      → contains s.visited id ≡ true
      → look (suc fuel) deps s id ≡ some ([], s)
      → LookCase fuel deps s id
  goes_in :
      contains s.visiting id ≡ false
      → contains s.visited id ≡ false
      → look (suc fuel) deps s id
        ≡ close_found id (look_each (look fuel deps) (open_mark id s) (next_ids deps id))
      → LookCase fuel deps s id

pub look_cases : (fuel : ℕ) (deps : Graph) (s : Marks) (id : Text) → LookCase fuel deps s id
unfolding look
look_cases fuel deps s id = elim (Bool-cases (contains s.visiting id)) [
  | inl busy ↦ on_path busy (ground arith)
  | inr idle ↦ elim (Bool-cases (contains s.visited id)) [
    | inl old ↦ seen_before idle old (ground arith)
    | inr fresh ↦ goes_in idle fresh (ground arith)
  ]
]

pub data EachCase (f : Marks → Text → Found) (s : Marks) (x : Text) (xs : List Text) : Type 0 where
  no_fuel : f s x ≡ none → look_each f s (x ∷ xs) ≡ none → EachCase f s x xs
  stops_at :
      (found : Text) (t : Marks)
      → f s x ≡ some (found, t)
      → is_empty found ≡ false
      → look_each f s (x ∷ xs) ≡ some (found, t)
      → EachCase f s x xs
  goes_past :
      (found : Text) (t : Marks)
      → f s x ≡ some (found, t)
      → is_empty found ≡ true
      → look_each f s (x ∷ xs) ≡ look_each f t xs
      → EachCase f s x xs

pub each_cases :
    (f : Marks → Text → Found) (s : Marks) (x : Text) (xs : List Text) → EachCase f s x xs
unfolding look_each
each_cases f s x xs = elim (Option-cases (f s x)) [
  | inl nothing ↦ no_fuel nothing (ground arith)
  | inr ((found, t), some_found) ↦ elim (Bool-cases (is_empty found)) [
    | inl blank ↦ goes_past found t some_found blank (ground arith)
    | inr real ↦ stops_at found t some_found real (ground arith)
  ]
]

pub close_found-some :
    (id : Text) (r : Found) (found : Text) (t : Marks)
    → close_found id r ≡ some (found, t)
    → (t0 : Marks) × (r ≡ some (found, t0)) × (is_empty found ≡ true → t ≡ close_mark id t0)
close_found-some id none found t e = cc
close_found-some id (some ([], s)) found t e = (s, ground arith, λ blank. ground arith)
close_found-some id (some (c ∷ word, s)) found t e =
    (s, ground arith, λ blank. absurd (ground arith))
