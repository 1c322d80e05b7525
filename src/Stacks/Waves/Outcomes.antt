-- ===== src/Stacks/Waves/Outcomes.antt =====
-- How the schedule of a stack comes out.
use agent_shell.Base.{
  length, all, Text, text_eq_refl, contains, ℕ, zero, suc, ◌≡◌, refl, sym, ap, ◌∙◌, Bool, true,
  false, ◌||◌, none, List, [], ◌∷◌, arith,
}
use agent_shell.Env.Layers.{StackMember}
use agent_shell.Http.Templates.{ids}
use agent_shell.Stacks.Order.{command_ids}
use agent_shell.Stacks.Waves.{
  Attempt, Progress, sweep, is_nil, round, waves, first_progress, is_sequential, stops_at_failure,
  start_in_waves,
}
use agent_shell.Stacks.Waves.Accounts.{Accounts, waves-Accounts, first_progress-Accounts}
use agent_shell.Stacks.Waves.Cases.{
  round_cases, waves_cases, none_eligible, some_eligible, finished, goes_on, breaks,
}

abbrev pub placed : Progress → Text → Bool
placed p x = contains p.succeeded x || contains p.failures x

-- Nothing is pending, and each member has succeeded or failed.
pub record IsFinished (members : List StackMember) (p : Progress) : Type 0 where
  pub none_pending : p.pending ≡ []
  pub each_placed : all (placed p) (command_ids members) ≡ true

pub is_nil-nil : (xs : List Text) → is_nil xs ≡ true → xs ≡ []
is_nil-nil [] e = refl
is_nil-nil (x ∷ xs) e = cc

finished_all :
    (ids : List Text) (p : Progress) (xs : List Text)
    → Accounts ids p
    → p.pending ≡ []
    → ((x : Text) → contains xs x ≡ true → contains ids x ≡ true)
    → all (placed p) xs ≡ true
unfolding contains
finished_all ids p [] a e f = refl
finished_all ids p (x ∷ xs) a e f =
    let here : contains (x ∷ xs) x ≡ true = ground (arith, text_eq_refl x) in
    let none_here : contains p.pending x ≡ false = rw e refl in
    let first : placed p x ≡ true = ground (arith, a.somewhere x (f x here)) in
    let rest = finished_all ids p xs a e (λ y h. f y (ground arith)) in rw (first, rest) refl

waves-none-pending :
    (fuel : ℕ) (sequential halts : Bool) (attempt : StackMember → Attempt)
    (members : List StackMember) (p : Progress)
    → (waves fuel sequential halts attempt members p).1 ≡ none
    → (waves fuel sequential halts attempt members p).0.pending ≡ []
unfolding waves
waves-none-pending zero sequential halts attempt members p h = cc
waves-none-pending (suc fuel) sequential halts attempt members p h =
    elim (waves_cases fuel sequential halts attempt members p) [
      | finished empty_now e ↦ rw e (is_nil-nil p.pending empty_now)
      | goes_on _ _ e ↦ rw e (
          waves-none-pending fuel sequential halts attempt members
            (round sequential halts attempt members p).0 (rw e at h))
      | breaks error _ shut e ↦
          let no_error : error ≡ none = ap (λ r. r.1) (sym e) ∙ h in
          rw e (elim (round_cases sequential halts attempt members p) [
            | none_eligible _ e' ↦ rw e' (
                is_nil-nil (sweep sequential members p).0.pending
                  (ground (arith, ap (λ r. r.1) e')))
            | some_eligible m ms found e' ↦ absurd (ground (arith, ap (λ r. r.1) e'))
          ])
    ]

-- Where the schedule of a stack reports no error, nothing is pending and each member has succeeded or
-- failed.
pub start_in_waves-IsFinished :
    (strategy policy : Text) (attempt : StackMember → Attempt) (members : List StackMember)
    → (start_in_waves strategy policy attempt members).1 ≡ none
    → IsFinished members (start_in_waves strategy policy attempt members).0
unfolding start_in_waves
start_in_waves-IsFinished strategy policy attempt members h =
    let fuel = suc (length members) in
    let a =
      waves-Accounts (command_ids members) fuel (is_sequential strategy) (stops_at_failure policy)
        attempt members (first_progress members) (first_progress-Accounts members) in
    let nil =
      waves-none-pending fuel (is_sequential strategy) (stops_at_failure policy) attempt members
        (first_progress members) h in
    record {
      none_pending = nil;
      each_placed =
          finished_all (command_ids members)
            (waves fuel (is_sequential strategy) (stops_at_failure policy) attempt members
              (first_progress members)).0
            (command_ids members) a nil (λ x c. c);
    }
