-- ===== src/Stacks/Prerequisites/Layered.antt =====
-- Ids in layers, each before what it leads to: none of them lies on a cycle.
use agent_shell.Base.{
  Bool-cases, add_id, all, all-cons, Text, text_eq, text_eq_iff, is_empty, contains, lookup, ◌≡◌,
  refl, sym, subst, inl, inr, Bool, true, false, not, ◌&&◌, List, [], ◌∷◌, arith,
}
use agent_shell.Stacks.Order.Fuel.{add_id-fresh}
use agent_shell.Stacks.Prerequisites.{Graph, next_ids}
use agent_shell.Stacks.Prerequisites.Cycle.{HasEdge, Leads, single, onward}

-- No edge leads to the empty text, which as an answer means that nothing was found.
abbrev pub IsSolid : Graph → Type 0
IsSolid deps = (x y : Text) → HasEdge deps x y → is_empty y ≡ false

-- Each id's next ids stand behind it, and it does not.
unfoldable pub is_layered : Graph → List Text → Bool
unfolding contains lookup
is_layered deps [] = true
is_layered deps (x ∷ older) =
    all (contains older) (next_ids deps x) && not (contains older x) && is_layered deps older

pub is_layered-cons :
    (deps : Graph) (x : Text) (older : List Text)
    → is_layered deps (x ∷ older) ≡ true
    → (all (contains older) (next_ids deps x) ≡ true)
      × (contains older x ≡ false)
      × (is_layered deps older ≡ true)
unfolding is_layered
is_layered-cons deps x older l = ground arith

pub is_layered-push :
    (deps : Graph) (x : Text) (older : List Text)
    → all (contains older) (next_ids deps x) ≡ true
    → contains older x ≡ false
    → is_layered deps older ≡ true
    → is_layered deps (add_id x older) ≡ true
unfolding is_layered
is_layered-push deps x older nexts fresh l =
    rw (add_id-fresh x older fresh) (rw (nexts, fresh, l) refl)

pub all-contains :
    (p : Text → Bool) (xs : List Text)
    → all p xs ≡ true
    → (x : Text) → contains xs x ≡ true
    → p x ≡ true
unfolding contains
all-contains p [] h x c = cc
all-contains p (y ∷ xs) h x c =
    let (a, b) = all-cons p y xs h in
    elim (Bool-cases (text_eq y x)) [
      | inl same ↦ rw (← ((text_eq_iff y x).0 same)) a
      | inr other ↦ all-contains p xs b x (ground arith)
    ]

pub layered-edge :
    (deps : Graph) (vs : List Text) (x y : Text)
    → is_layered deps vs ≡ true
    → contains vs x ≡ true
    → HasEdge deps x y
    → contains vs y ≡ true
unfolding contains
layered-edge deps [] x y l h e = cc
layered-edge deps (v ∷ vs) x y l h e =
    let (nexts, fresh, later) = is_layered-cons deps v vs l in
    elim (Bool-cases (text_eq v x)) [
      | inl same ↦
          let is : v ≡ x = (text_eq_iff v x).0 same in
          ground (arith, all-contains (contains vs) (next_ids deps v) nexts y (rw is e))
      | inr other ↦ ground (arith, layered-edge deps vs x y later (ground arith) e)
    ]

pub layered-Leads :
    (deps : Graph) (vs : List Text) (x y : Text)
    → is_layered deps vs ≡ true
    → contains vs x ≡ true
    → Leads deps x y
    → contains vs y ≡ true
layered-Leads deps vs _ _ l h (single x y e) = layered-edge deps vs x y l h e
layered-Leads deps vs _ _ l h (onward x y z e w) =
    layered-Leads deps vs y z l (layered-edge deps vs x y l h e) w

-- The first edge of a way from the head of a layered list goes behind it.
pub head-Leads :
    (deps : Graph) (v : Text) (vs : List Text) (y : Text)
    → all (contains vs) (next_ids deps v) ≡ true
    → is_layered deps vs ≡ true
    → Leads deps v y
    → contains vs y ≡ true
head-Leads deps _ vs _ nexts l (single v y e) =
    all-contains (contains vs) (next_ids deps v) nexts y e
head-Leads deps _ vs _ nexts l (onward v x y e w) =
    layered-Leads deps vs x y l (all-contains (contains vs) (next_ids deps v) nexts x e) w

pub layered-no-cycle :
    (deps : Graph) (vs : List Text) (x : Text)
    → is_layered deps vs ≡ true
    → contains vs x ≡ true
    → ¬ Leads deps x x
unfolding contains
layered-no-cycle deps [] x l h w = cc
layered-no-cycle deps (v ∷ vs) x l h w =
    let (nexts, fresh, later) = is_layered-cons deps v vs l in
    elim (Bool-cases (text_eq v x)) [
      | inl same ↦
          let is : v ≡ x = (text_eq_iff v x).0 same in
          let w' : Leads deps v v = subst (λ z. Leads deps z z) (sym is) w in
          absurd (ground (arith, head-Leads deps v vs v nexts later w'))
      | inr other ↦ layered-no-cycle deps vs x later (ground arith) w
    ]
