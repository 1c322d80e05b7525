-- ===== src/Stacks/Waves/Ordered.antt =====
-- A stack whose members stand after their dependencies, under the failure policy `continue`.
use agent_shell.Base.{
  contains-add_id, all, all-cons, Text, text_eq_refl, text_eq_iff, contains, ◌≡◌, refl, ap, ◌⊎◌,
  inr, Bool, true, ◌&&◌, ◌||◌, none, some, List, [], ◌∷◌, arith, false, Option, length, ℕ, zero,
  suc, sym, ◌∙◌,
}
use agent_shell.Env.Layers.{StackMember}
use agent_shell.Http.Templates.{ids}
use agent_shell.Stacks.Order.{command_ids}
use agent_shell.Stacks.Order.Sorted.{is_ordered, all-imp, is_ordered-cons}
use agent_shell.Stacks.Waves.{
  Progress, dependency_check, skip, sweep, Attempt, succeed, lose, settle, WaveError, is_nil, round,
  try_all, waves, first_progress, is_sequential, stops_at_failure, start_in_waves,
}
use agent_shell.Stacks.Waves.Accounts.{
  Accounts, skip-Accounts, sweep-Accounts, round-Accounts, first_progress-Accounts,
}
use agent_shell.Stacks.Waves.Cases.{
  sweep_cases, over, waits, blocked, first_ready, next_ready, settle_cases, round_cases, good,
  bad_result, ended, none_eligible, some_eligible, waves_cases, finished, goes_on, breaks,
}
use agent_shell.Stacks.Waves.Ends.{runs_out_of_waves, start_in_waves_fuel}
use agent_shell.Stacks.Waves.Outcomes.{placed, IsFinished, start_in_waves-IsFinished}

-- Where each dependency has succeeded or failed, the check does not wait.
check-placed :
    (p : Progress) (met : Bool) (ds : List Text)
    → all (placed p) ds ≡ true
    → (dependency_check p met ds ≡ none) ⊎ (dependency_check p met ds ≡ some met)
check-placed p met [] h = inr refl
check-placed p met (d ∷ ds) h =
    let (here, rest) = all-cons (placed p) d ds h in
    let next = check-placed p (met && contains p.succeeded d) ds rest in ground arith

sweep-placed :
    (sequential : Bool) (ids seen : List Text) (ms : List StackMember) (p : Progress)
    → is_ordered seen ms ≡ true
    → Accounts ids p
    → ((x : Text) → contains seen x ≡ true → placed p x ≡ true)
    → ((x : Text) → contains (command_ids ms) x ≡ true → contains ids x ≡ true)
    → (sweep sequential ms p).1 ≡ []
    → (x : Text) → (contains seen x || contains (command_ids ms) x) ≡ true
    → placed (sweep sequential ms p).0 x ≡ true
unfolding sweep contains
sweep-placed sequential ids seen [] p o a old sub none_left x h = old x (ground arith)
sweep-placed sequential ids seen (m ∷ ms) p o a old sub none_left x h =
    let (deps, fresh, later) = is_ordered-cons seen m ms o in
    let here : contains (command_ids (m ∷ ms)) m.command_id ≡ true =
      ground (arith, text_eq_refl m.command_id) in
    let place =
      check-placed p true m.depends_on (all-imp (contains seen) (placed p) m.depends_on old deps) in
    let same_id = text_eq_iff m.command_id in
    elim (sweep_cases sequential m ms p) [
      | over gone e ↦
          let at : placed p m.command_id ≡ true =
            ground (arith, a.somewhere m.command_id (sub m.command_id here)) in
          rw e (
            sweep-placed sequential ids (m.command_id ∷ seen) ms p later a
              (λ y k. ground (arith, old y, same_id y)) (λ y k. sub y (ground arith))
              (rw e at none_left) x (ground arith))
      | waits _ unmet e ↦ absurd (ground arith)
      | blocked _ _ e ↦ rw e (
          sweep-placed sequential ids (m.command_id ∷ seen) ms (skip m p) later
            (skip-Accounts ids m p a)
            (λ y k. ground (arith, old y, contains-add_id m.command_id y p.failures))
            (λ y k. sub y (ground arith)) (rw e at none_left) x (ground arith))
      | first_ready _ _ e ↦ absurd (ground (arith, ap (λ r. r.1) e))
      | next_ready _ _ e ↦ absurd (ground (arith, ap (λ r. r.1) e))
    ]

no_ids :
    (xs : List Text)
    → ((x : Text) → contains xs x ≡ true → contains xs x ≡ false)
    → is_nil xs ≡ true
unfolding contains
no_ids [] f = refl
no_ids (x ∷ xs) f = absurd (ground (arith, f x, text_eq_refl x))

settle_unhalted :
    (attempt : StackMember → Attempt) (ms : List StackMember) (p : Progress)
    → (settle false attempt ms p).1 ≡ none
unfolding settle
settle_unhalted attempt [] p = refl
settle_unhalted attempt (m ∷ ms) p = elim (settle_cases false attempt m ms p) [
  | good _ e ↦ rw e (settle_unhalted attempt ms (succeed m p))
  | bad_result _ _ e ↦ rw e (settle_unhalted attempt ms (lose m p))
  | ended _ h e ↦ cc
]

-- With such members and that policy, no round ends the loop but where nothing is pending.
round-ordered :
    (sequential : Bool) (attempt : StackMember → Attempt) (members : List StackMember)
    (p : Progress) (error : Option WaveError)
    → is_ordered [] members ≡ true
    → Accounts (command_ids members) p
    → (round sequential false attempt members p).1 ≡ some error
    → error ≡ none
unfolding contains
round-ordered sequential attempt members p error o a shut =
    elim (round_cases sequential false attempt members p) [
      | none_eligible none_left e ↦
          let p1 = (sweep sequential members p).0 in
          let a1 = sweep-Accounts (command_ids members) sequential members p a in
          let placed_all =
            sweep-placed sequential (command_ids members) [] members p o a (λ x k. cc) (λ x k. k)
              none_left in
          let empty_now =
            no_ids p1.pending
              (λ x k. ground (arith, placed_all x (a1.from_ids x k), a1.apart x k)) in
          let is = ap (λ r. r.1) (sym e) ∙ shut in ground (arith, is, empty_now)
      | some_eligible m ms found e ↦
          let unhalted =
            settle_unhalted attempt (m ∷ ms)
              (try_all attempt (m ∷ ms) (sweep sequential members p).0) in
          absurd (ground (arith, ap (λ r. r.1) (sym e) ∙ shut, unhalted))
    ]

waves-ordered :
    (fuel : ℕ) (sequential : Bool) (attempt : StackMember → Attempt) (members : List StackMember)
    (p : Progress)
    → is_ordered [] members ≡ true
    → Accounts (command_ids members) p
    → runs_out_of_waves (waves fuel sequential false attempt members p).1 ≡ false
    → (waves fuel sequential false attempt members p).1 ≡ none
unfolding waves
waves-ordered zero sequential attempt members p o a h = cc
waves-ordered (suc fuel) sequential attempt members p o a h =
    elim (waves_cases fuel sequential false attempt members p) [
      | finished _ e ↦ rw e refl
      | goes_on _ _ e ↦ rw e (
          waves-ordered fuel sequential attempt members (round sequential false attempt members p).0
            o (round-Accounts (command_ids members) sequential false attempt members p a)
            (rw e at h))
      | breaks error _ shut e ↦ rw e (round-ordered sequential attempt members p error o a shut)
    ]

-- Where each member stands after its dependencies and the failure policy is to go on, the schedule
-- reports no error, whatever fails: each member then has succeeded or failed, and none is pending.
pub start_in_waves-ordered :
    (strategy policy : Text) (attempt : StackMember → Attempt) (members : List StackMember)
    → is_ordered [] members ≡ true
    → stops_at_failure policy ≡ false
    → ((start_in_waves strategy policy attempt members).1 ≡ none)
      × IsFinished members (start_in_waves strategy policy attempt members).0
unfolding start_in_waves
start_in_waves-ordered strategy policy attempt members o goes =
    let fuel = suc (length members) in
    let enough = start_in_waves_fuel strategy policy attempt members in
    let no_error : (start_in_waves strategy policy attempt members).1 ≡ none = rw goes (
      waves-ordered fuel (is_sequential strategy) attempt members (first_progress members) o
        (first_progress-Accounts members) (rw goes at enough)) in
    (no_error, start_in_waves-IsFinished strategy policy attempt members no_error)
