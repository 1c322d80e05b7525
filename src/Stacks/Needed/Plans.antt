-- ===== src/Stacks/Needed/Plans.antt =====
-- Lists of stacks to start first, and what makes one a plan.
use agent_shell.Base.{
  all, Text, contains, lookup, ◌≡◌, refl, ap, Bool, true, false, not, ◌&&◌, ◌||◌, Option, none,
  some, List, [], ◌∷◌, ◌++◌, map,
}
use agent_shell.Env.Layers.{Stack}
use agent_shell.Stacks.Needed.{NeededStack, Facts, stack_up_enough, Plan, Stacks}
use agent_shell.Stacks.Needed.Depth.{prerequisite_ids}
use agent_shell.Stacks.Prerequisites.{normalize_stack_prerequisites}

abbrev pub is_yes : Option Bool → Bool
is_yes none = false
is_yes (some b) = b

abbrev pub is_no : Option Bool → Bool
is_no none = false
is_no (some b) = not b

-- A known stack that is up, or that is among the ids.
abbrev pub settled_stack : Facts → List Text → Text → Option Stack → Bool
settled_stack facts ids_before d none = false
settled_stack facts ids_before d (some s) =
    contains ids_before d || is_yes (stack_up_enough facts s)

abbrev pub settled : Facts → Stacks → List Text → Text → Bool
settled facts table ids_before d = settled_stack facts ids_before d (lookup d table)

-- A stack that is not up, with all its prerequisites settled.
abbrev pub fits_plan : Facts → Stacks → List Text → Option Stack → Bool
fits_plan facts table older none = false
fits_plan facts table older (some s) =
    is_no (stack_up_enough facts s) && all (settled facts table older) (prerequisite_ids s)

-- Each of the ids, the last first, is of a stack that is not up, stands once, and stands after its
-- own prerequisites that are not up.
unfoldable pub is_planned : Facts → Stacks → List Text → Bool
unfolding contains lookup normalize_stack_prerequisites
is_planned facts table [] = true
is_planned facts table (x ∷ older) =
    fits_plan facts table older (lookup x table)
    && not (contains older x)
    && is_planned facts table older

abbrev pub last_first : List Text → List Text → List Text
last_first acc [] = acc
last_first acc (x ∷ xs) = last_first (x ∷ acc) xs

pub last_first-snoc :
    (acc xs : List Text) (y : Text) → last_first acc (xs ++ y ∷ []) ≡ y ∷ last_first acc xs
last_first-snoc acc [] y = refl
last_first-snoc acc (x ∷ xs) y = last_first-snoc (x ∷ acc) xs y

abbrev pub needed_ids : List NeededStack → List Text
needed_ids ns = map (λ n. n.id) ns

pub needed_ids-snoc :
    (ns : List NeededStack) (n : NeededStack)
    → needed_ids (ns ++ n ∷ []) ≡ needed_ids ns ++ n.id ∷ []
needed_ids-snoc [] n = refl
needed_ids-snoc (m ∷ ns) n = ap (λ xs. m.id ∷ xs) (needed_ids-snoc ns n)

pub record IsPlan (facts : Facts) (table : Stacks) (p : Plan) : Type 0 where
  pub told : last_first [] (needed_ids p.needed) ≡ p.seen
  pub planned : is_planned facts table p.seen ≡ true
