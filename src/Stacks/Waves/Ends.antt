-- ===== src/Stacks/Waves/Ends.antt =====
-- The schedule ends: the fuel is enough.
use agent_shell.Base.{
  drop_id, length-drop_id, length, length-keep, All, Text, text_eq, contains, ◌≤◌, ◌<◌, ◌≡◌, refl,
  ◌⊎◌, inl, inr, Bool, true, not, List, [], ◌∷◌, ◌++◌, arith, add_id, contains-drop_id, ℕ, zero,
  suc, ◌+◌, ap, subst, false, Option, none, some,
}
use agent_shell.Env.Layers.{StackMember}
use agent_shell.Http.Templates.{ids}
use agent_shell.Stacks.Order.{command_ids}
use agent_shell.Stacks.Order.Fuel.{length-command_ids}
use agent_shell.Stacks.Waves.{
  Attempt, Progress, skip, sweep, run_ids, try_all, succeed, lose, settle, tried, WaveError, round,
  waves, add_ids, first_progress, is_sequential, stops_at_failure, start_in_waves, out_of_waves,
}
use agent_shell.Stacks.Waves.Cases.{
  sweep_cases, settle_cases, over, waits, blocked, first_ready, next_ready, good, bad_result, ended,
  round_cases, waves_cases, none_eligible, some_eligible, finished, goes_on, breaks,
}

abbrev NotMore : Progress → Progress → Type 0
NotMore p p' = length p'.pending ≤ length p.pending

length-drop_id_le : (id : Text) (xs : List Text) → length (drop_id id xs) ≤ length xs
length-drop_id_le id xs = length-keep (λ x. not (text_eq x id)) xs

try_all_pending :
    (attempt : StackMember → Attempt) (ms : List StackMember) (p : Progress)
    → (try_all attempt ms p).pending ≡ p.pending
unfolding try_all
try_all_pending attempt [] p = refl
try_all_pending attempt (m ∷ ms) p =
    try_all_pending attempt ms
      (record p { out = p.out ++ run_ids (attempt m).run_id; history = tried m ∷ p.history })

settle-NotMore :
    (halts : Bool) (attempt : StackMember → Attempt) (ms : List StackMember) (p : Progress)
    → NotMore p (settle halts attempt ms p).0
unfolding settle
settle-NotMore halts attempt [] p = omega arith
settle-NotMore halts attempt (m ∷ ms) p =
    let less = length-drop_id_le m.command_id p.pending in
    elim (settle_cases halts attempt m ms p) [
      | good _ e ↦ rw e (omega (arith, less, settle-NotMore halts attempt ms (succeed m p)))
      | bad_result _ _ e ↦ rw e (omega (arith, less, settle-NotMore halts attempt ms (lose m p)))
      | ended _ _ e ↦ rw e less
    ]

-- The first result takes its member out of `pending`.
settle_less :
    (halts : Bool) (attempt : StackMember → Attempt) (m : StackMember) (ms : List StackMember)
    (p : Progress)
    → contains p.pending m.command_id ≡ true
    → length (settle halts attempt (m ∷ ms) p).0.pending < length p.pending
unfolding settle
settle_less halts attempt m ms p due =
    let less = length-drop_id m.command_id p.pending due in
    elim (settle_cases halts attempt m ms p) [
      | good _ e ↦ rw e (omega (arith, less, settle-NotMore halts attempt ms (succeed m p)))
      | bad_result _ _ e ↦ rw e (omega (arith, less, settle-NotMore halts attempt ms (lose m p)))
      | ended _ _ e ↦ rw e less
    ]

-- The sweep takes out of `pending` or leaves it.
sweep-taken :
    (sequential : Bool) (ms : List StackMember) (p : Progress)
    → ((sweep sequential ms p).0.pending ≡ p.pending)
      ⊎ (length (sweep sequential ms p).0.pending < length p.pending)
unfolding sweep
sweep-taken sequential [] p = inl refl
sweep-taken sequential (m ∷ ms) p = elim (sweep_cases sequential m ms p) [
  | over _ e ↦ rw e (sweep-taken sequential ms p)
  | waits _ _ e ↦ rw e (sweep-taken sequential ms p)
  | blocked due _ e ↦
      let less = length-drop_id m.command_id p.pending due in
      rw e (elim (sweep-taken sequential ms (skip m p)) [
        | inl same ↦ inr (rw same less)
        | inr lesser ↦ inr (omega (arith, less, lesser))
      ])
  | first_ready _ _ e ↦ rw e (inl refl)
  | next_ready _ _ e ↦ rw e (sweep-taken sequential ms p)
]

-- What is eligible was in `pending`.
sweep-due :
    (sequential : Bool) (ms : List StackMember) (p : Progress) (ids : List Text)
    → ((x : Text) → contains p.pending x ≡ true → contains ids x ≡ true)
    → All (λ m. contains ids m.command_id ≡ true) (sweep sequential ms p).1
unfolding sweep
sweep-due sequential [] p ids f = tt
sweep-due sequential (m ∷ ms) p ids f = elim (sweep_cases sequential m ms p) [
  | over _ e ↦ rw e (sweep-due sequential ms p ids f)
  | waits _ _ e ↦ rw e (sweep-due sequential ms p ids f)
  | blocked due _ e ↦ rw e (
      sweep-due sequential ms (skip m p) ids
        (λ x h. f x (ground (arith, contains-drop_id m.command_id x p.pending))))
  | first_ready due _ e ↦ rw e (f m.command_id due, tt)
  | next_ready due _ e ↦ rw e (f m.command_id due, sweep-due sequential ms p ids f)
]

-- A round after which the loop goes on has left fewer members.
round-less :
    (sequential halts : Bool) (attempt : StackMember → Attempt) (members : List StackMember)
    (p : Progress)
    → (round sequential halts attempt members p).1 ≡ none
    → length (round sequential halts attempt members p).0.pending < length p.pending
round-less sequential halts attempt members p open_still =
    let p1 = (sweep sequential members p).0 in
    elim (round_cases sequential halts attempt members p) [
      | none_eligible _ e ↦ absurd (ground arith)
      | some_eligible m ms found e ↦
          let (due, _) =
            subst (λ l. All (λ n. contains p.pending n.command_id ≡ true) l) found
              (sweep-due sequential members p p.pending (λ x h. h)) in
          let p2 = try_all attempt (m ∷ ms) p1 in
          let kept = try_all_pending attempt (m ∷ ms) p1 in
          rw e (elim (sweep-taken sequential members p) [
            | inl same ↦
                let here = settle_less halts attempt m ms p2 (rw (kept, same) due) in
                omega (arith, here, ap length kept, ap length same)
            | inr less ↦
                omega (arith, settle-NotMore halts attempt (m ∷ ms) p2, ap length kept, less)
          ])
    ]

abbrev pub runs_out_of_waves : Option WaveError → Bool
runs_out_of_waves (some out_of_waves) = true
runs_out_of_waves _ = false

round_error :
    (sequential halts : Bool) (attempt : StackMember → Attempt) (members : List StackMember)
    (p : Progress) (error : Option WaveError)
    → (round sequential halts attempt members p).1 ≡ some error
    → runs_out_of_waves error ≡ false
round_error sequential halts attempt members p error shut =
    elim (round_cases sequential halts attempt members p) [
      | none_eligible _ e ↦ ground arith
      | some_eligible m ms found e ↦ ground arith
    ]

waves_fuel :
    (fuel : ℕ) (sequential halts : Bool) (attempt : StackMember → Attempt)
    (members : List StackMember) (p : Progress)
    → length p.pending < fuel
    → runs_out_of_waves (waves fuel sequential halts attempt members p).1 ≡ false
unfolding waves
waves_fuel zero sequential halts attempt members p h = absurd (omega (arith, h))
waves_fuel (suc fuel) sequential halts attempt members p h =
    elim (waves_cases fuel sequential halts attempt members p) [
      | finished _ e ↦ rw e refl
      | goes_on _ open_still e ↦ rw e (
          waves_fuel fuel sequential halts attempt members
            (round sequential halts attempt members p).0
            (omega (arith, h, round-less sequential halts attempt members p open_still)))
      | breaks error _ shut e ↦ rw e (round_error sequential halts attempt members p error shut)
    ]

length-add_ids : (xs ids : List Text) → length (add_ids xs ids) ≤ length xs + length ids
length-add_ids [] ids = omega arith
length-add_ids (x ∷ xs) ids = ground (arith, length-add_ids xs (add_id x ids))

-- The schedule of a stack does not run out of fuel, whatever the starts and the waits give.
pub start_in_waves_fuel :
    (strategy policy : Text) (attempt : StackMember → Attempt) (members : List StackMember)
    → runs_out_of_waves (start_in_waves strategy policy attempt members).1 ≡ false
unfolding start_in_waves
start_in_waves_fuel strategy policy attempt members =
    waves_fuel (suc (length members)) (is_sequential strategy) (stops_at_failure policy) attempt
      members (first_progress members)
      (omega (arith, length-add_ids (command_ids members) [], length-command_ids members))
