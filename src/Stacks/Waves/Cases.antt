-- ===== src/Stacks/Waves/Cases.antt =====
-- The branches of the loops, each with what the loop does there.
use agent_shell.Base.{
  Bool-cases, contains, ◌≡◌, refl, ◌⊎◌, inl, inr, Bool, true, false, Option, none, some, List, [],
  ◌∷◌, arith, if◌then◌else◌, Option-cases, map_some, ℕ, suc, ap,
}
use agent_shell.Env.Layers.{StackMember}
use agent_shell.Stacks.Waves.{
  Attempt, attempt_failed, Progress, dependency_check, skip, sweep, succeed, lose, settle, try_all,
  WaveError, is_nil, round, waves, member_failed, cyclic_or_incomplete, run_round,
}

pub data SweepCase (sequential : Bool) (m : StackMember) (ms : List StackMember) (p : Progress)
    : Type 0 where
  over :
      contains p.pending m.command_id ≡ false
      → sweep sequential (m ∷ ms) p ≡ sweep sequential ms p
      → SweepCase sequential m ms p
  waits :
      contains p.pending m.command_id ≡ true
      → dependency_check p true m.depends_on ≡ some false
      → sweep sequential (m ∷ ms) p ≡ sweep sequential ms p
      → SweepCase sequential m ms p
  blocked :
      contains p.pending m.command_id ≡ true
      → dependency_check p true m.depends_on ≡ none
      → sweep sequential (m ∷ ms) p ≡ sweep sequential ms (skip m p)
      → SweepCase sequential m ms p
  first_ready :
      contains p.pending m.command_id ≡ true
      → dependency_check p true m.depends_on ≡ some true
      → sweep sequential (m ∷ ms) p ≡ (p, m ∷ [])
      → SweepCase sequential m ms p
  next_ready :
      contains p.pending m.command_id ≡ true
      → dependency_check p true m.depends_on ≡ some true
      → sweep sequential (m ∷ ms) p ≡ ((sweep sequential ms p).0, m ∷ (sweep sequential ms p).1)
      → SweepCase sequential m ms p

check_cases : (o : Option Bool) → (o ≡ none) ⊎ ((o ≡ some false) ⊎ (o ≡ some true))
check_cases none = inl refl
check_cases (some false) = inr (inl refl)
check_cases (some true) = inr (inr refl)

pub sweep_cases :
    (sequential : Bool) (m : StackMember) (ms : List StackMember) (p : Progress)
    → SweepCase sequential m ms p
unfolding sweep
sweep_cases sequential m ms p = elim (Bool-cases (contains p.pending m.command_id)) [
  | inr old ↦ over old (ground arith)
  | inl due ↦ elim (check_cases (dependency_check p true m.depends_on)) [
    | inl lost_one ↦ blocked due lost_one (ground arith)
    | inr (inl unmet) ↦ waits due unmet (ground arith)
    | inr (inr met) ↦ elim (Bool-cases sequential) [
      | inl alone ↦ first_ready due met (ground arith)
      | inr more ↦ next_ready due met (ground arith)
    ]
  ]
]

-- The loop over the results, at a result that did not fail, one that did, and one that ends it.
pub data SettleCase (halts : Bool) (attempt : StackMember → Attempt) (m : StackMember)
    (ms : List StackMember) (p : Progress) : Type 0 where
  good :
      attempt_failed (attempt m) ≡ false
      → settle halts attempt (m ∷ ms) p ≡ settle halts attempt ms (succeed m p)
      → SettleCase halts attempt m ms p
  bad_result :
      attempt_failed (attempt m) ≡ true
      → halts ≡ false
      → settle halts attempt (m ∷ ms) p ≡ settle halts attempt ms (lose m p)
      → SettleCase halts attempt m ms p
  ended :
      attempt_failed (attempt m) ≡ true
      → halts ≡ true
      → settle halts attempt (m ∷ ms) p ≡ (lose m p, some m.command_id)
      → SettleCase halts attempt m ms p

pub settle_cases :
    (halts : Bool) (attempt : StackMember → Attempt) (m : StackMember) (ms : List StackMember)
    (p : Progress)
    → SettleCase halts attempt m ms p
unfolding settle
settle_cases halts attempt m ms p = elim (Bool-cases (attempt_failed (attempt m))) [
  | inr fine ↦ good fine (ground arith)
  | inl wrong ↦ elim (Bool-cases halts) [
    | inl h ↦ ended wrong h (ground arith)
    | inr h ↦ bad_result wrong h (ground arith)
  ]
]

-- One round and the rounds after it.
pub data RoundCase (sequential halts : Bool) (attempt : StackMember → Attempt)
    (members : List StackMember) (p : Progress) : Type 0 where
  none_eligible :
      (sweep sequential members p).1 ≡ []
      → round sequential halts attempt members p ≡ (
        (sweep sequential members p).0,
        some (
            if is_nil (sweep sequential members p).0.pending
            then none
            else some cyclic_or_incomplete),
      )
      → RoundCase sequential halts attempt members p
  some_eligible :
      (e : StackMember) (es : List StackMember)
      → (sweep sequential members p).1 ≡ e ∷ es
      → round sequential halts attempt members p ≡ (
        (settle halts attempt (e ∷ es) (try_all attempt (e ∷ es) (sweep sequential members p).0)).0,
        map_some
            (λ id. some (member_failed id))
            (settle halts attempt
              (e ∷ es)
              (try_all attempt (e ∷ es) (sweep sequential members p).0)).1,
      )
      → RoundCase sequential halts attempt members p

list_cases :
    (ms : List StackMember)
    → (ms ≡ []) ⊎ ((e : StackMember) × (es : List StackMember) × (ms ≡ e ∷ es))
list_cases [] = inl refl
list_cases (e ∷ es) = inr (e, es, refl)

pub round_cases :
    (sequential halts : Bool) (attempt : StackMember → Attempt) (members : List StackMember)
    (p : Progress)
    → RoundCase sequential halts attempt members p
round_cases sequential halts attempt members p = elim (list_cases (sweep sequential members p).1) [
  | inl none_left ↦
      none_eligible none_left
        (ap (run_round halts attempt (sweep sequential members p).0) none_left)
  | inr (e, es, found) ↦
      some_eligible e es found (ap (run_round halts attempt (sweep sequential members p).0) found)
]

pub data WavesCase (fuel : ℕ) (sequential halts : Bool) (attempt : StackMember → Attempt)
    (members : List StackMember) (p : Progress) : Type 0 where
  finished :
      is_nil p.pending ≡ true
      → waves (suc fuel) sequential halts attempt members p ≡ (p, none)
      → WavesCase fuel sequential halts attempt members p
  goes_on :
      is_nil p.pending ≡ false
      → (round sequential halts attempt members p).1 ≡ none
      → waves (suc fuel) sequential halts attempt members p
        ≡ waves fuel sequential halts attempt members (round sequential halts attempt members p).0
      → WavesCase fuel sequential halts attempt members p
  breaks :
      (error : Option WaveError)
      → is_nil p.pending ≡ false
      → (round sequential halts attempt members p).1 ≡ some error
      → waves (suc fuel) sequential halts attempt members p
        ≡ ((round sequential halts attempt members p).0, error)
      → WavesCase fuel sequential halts attempt members p

pub waves_cases :
    (fuel : ℕ) (sequential halts : Bool) (attempt : StackMember → Attempt)
    (members : List StackMember) (p : Progress)
    → WavesCase fuel sequential halts attempt members p
unfolding waves
waves_cases fuel sequential halts attempt members p = elim (Bool-cases (is_nil p.pending)) [
  | inl empty_now ↦ finished empty_now (ground arith)
  | inr left ↦ elim (Option-cases (round sequential halts attempt members p).1) [
    | inl no_end ↦ goes_on left no_end (ground arith)
    | inr (error, end_of) ↦ breaks error left end_of (ground arith)
  ]
]
