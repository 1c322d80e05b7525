-- ===== src/Stacks/Order/Sorted.antt =====
-- The order that stackDependencyOrder returns: each member stands once, after its dependencies.
pub mod Visits
use agent_shell.Base.{
  all, all-cons, Text, text_eq, contains, ◌≡◌, refl, Bool, true, false, not, ◌&&◌, ◌||◌, List, [],
  ◌∷◌, ◌++◌, arith,
}
use agent_shell.Env.Layers.{StackMember}
use agent_shell.Stacks.Order.{command_ids}

-- Each member's dependencies are in `seen` or stand before it, and it does not stand before.
unfoldable pub is_ordered : List Text → List StackMember → Bool
unfolding contains
is_ordered seen [] = true
is_ordered seen (m ∷ ms) =
    all (contains seen) m.depends_on
    && not (contains seen m.command_id)
    && is_ordered (m.command_id ∷ seen) ms

pub all-imp :
    {A : Type 0} (p q : A → Bool) (xs : List A)
    → ((x : A) → p x ≡ true → q x ≡ true)
    → all p xs ≡ true
    → all q xs ≡ true
all-imp p q [] f h = refl
all-imp p q (x ∷ xs) f h = let (a, b) = all-cons p x xs h in rw (f x a, all-imp p q xs f b) refl

pub contains-command_ids-snoc :
    (ms : List StackMember) (m : StackMember) (x : Text)
    → contains (command_ids (ms ++ m ∷ [])) x
      ≡ (contains (command_ids ms) x || text_eq m.command_id x)
unfolding contains
contains-command_ids-snoc [] m x = ground arith
contains-command_ids-snoc (n ∷ ms) m x = ground (arith, contains-command_ids-snoc ms m x)

pub is_ordered-snoc :
    (seen : List Text) (ms : List StackMember) (m : StackMember)
    → is_ordered seen ms ≡ true
    → all (λ d. contains seen d || contains (command_ids ms) d) m.depends_on ≡ true
    → contains seen m.command_id ≡ false
    → contains (command_ids ms) m.command_id ≡ false
    → is_ordered seen (ms ++ m ∷ []) ≡ true
unfolding is_ordered contains
is_ordered-snoc seen [] m o deps a b =
    let deps' =
      all-imp (λ d. contains seen d || false) (contains seen) m.depends_on (λ x h. ground arith)
        deps in
    rw (deps', a) refl
is_ordered-snoc seen (n ∷ ms) m o deps a b =
    let deps' =
      all-imp (λ d. contains seen d || contains (command_ids (n ∷ ms)) d)
        (λ d. contains (n.command_id ∷ seen) d || contains (command_ids ms) d) m.depends_on
        (λ x h. ground arith) deps in
    let rest =
      is_ordered-snoc (n.command_id ∷ seen) ms m (ground arith) deps' (ground arith)
        (ground arith) in
    ground (arith, rest)

pub is_ordered-cons :
    (seen : List Text) (m : StackMember) (ms : List StackMember)
    → is_ordered seen (m ∷ ms) ≡ true
    → (all (contains seen) m.depends_on ≡ true)
      × (contains seen m.command_id ≡ false)
      × (is_ordered (m.command_id ∷ seen) ms ≡ true)
unfolding is_ordered
is_ordered-cons seen m ms o = ground arith
