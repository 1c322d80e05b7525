-- ===== src/Stacks/Waves/Safe.antt =====
-- A member is started only after all its dependencies have succeeded.
use agent_shell.Base.{
  contains-add_id, all, any, All, Text, text_eq, contains, ◌≡◌, refl, Bool, true, false, ◌&&◌, some,
  List, [], ◌∷◌, arith, ℕ, zero, suc, sym, ◌∙◌, ◌++◌, length, subst, is_some, not, ◌||◌,
}
use agent_shell.Env.Layers.{StackMember}
use agent_shell.Stacks.Order.Sorted.{all-imp}
use agent_shell.Stacks.Waves.{
  StackEvent, Progress, dependency_check, skip, sweep, succeed, lose, tried, done, lost, skipped,
  Attempt, run_ids, try_all, settle, waves, round, first_progress, is_sequential, stops_at_failure,
  start_in_waves, attempt_failed, no_error, already_running, other_error,
}
use agent_shell.Stacks.Waves.Cases.{
  sweep_cases, settle_cases, round_cases, waves_cases, over, waits, blocked, first_ready,
  next_ready, good, bad_result, ended, none_eligible, some_eligible, finished, goes_on, breaks,
}

abbrev pub is_done : Text → StackEvent → Bool
is_done id (done m) = text_eq m.command_id id
is_done id _ = false

-- A start without an error, or of a command that runs already, whose run, if it gave one, came to what
-- the member waits for.
abbrev pub has_succeeded : Attempt → Bool
has_succeeded a = elim a.start_error [
  | other_error ↦ false
  | no_error ↦ not (is_some a.run_id) || not a.wait_fails
  | already_running ↦ not (is_some a.run_id) || not a.wait_fails
]

-- Whether a history, the latest first, has no start before the success of all dependencies, and no
-- success that the start and the wait did not give.
unfoldable pub is_safe : (StackMember → Attempt) → List StackEvent → Bool
is_safe attempt [] = true
is_safe attempt (tried m ∷ older) =
    all (λ d. any (is_done d) older) m.depends_on && is_safe attempt older
is_safe attempt (done m ∷ older) = has_succeeded (attempt m) && is_safe attempt older
is_safe attempt (lost m ∷ older) = is_safe attempt older
is_safe attempt (skipped m ∷ older) = is_safe attempt older

-- The history tells what has succeeded, and it is safe.
pub record IsSafe (attempt : StackMember → Attempt) (p : Progress) : Type 0 where
  pub told : (x : Text) → contains p.succeeded x ≡ any (is_done x) p.history
  pub safe : is_safe attempt p.history ≡ true

fine-has_succeeded : (a : Attempt) → attempt_failed a ≡ false → has_succeeded a ≡ true
fine-has_succeeded a h = ground arith

skip-IsSafe :
    (attempt : StackMember → Attempt) (m : StackMember) (p : Progress)
    → IsSafe attempt p
    → IsSafe attempt (skip m p)
unfolding is_safe
skip-IsSafe attempt m p h = record { told = h.told; safe = h.safe }

lose-IsSafe :
    (attempt : StackMember → Attempt) (m : StackMember) (p : Progress)
    → IsSafe attempt p
    → IsSafe attempt (lose m p)
unfolding is_safe
lose-IsSafe attempt m p h = record { told = h.told; safe = h.safe }

succeed-IsSafe :
    (attempt : StackMember → Attempt) (m : StackMember) (p : Progress)
    → attempt_failed (attempt m) ≡ false
    → IsSafe attempt p
    → IsSafe attempt (succeed m p)
unfolding is_safe
succeed-IsSafe attempt m p fine h = record {
  told = λ x. ground (arith, contains-add_id m.command_id x p.succeeded, h.told x);
  safe = rw (fine-has_succeeded (attempt m) fine, h.safe) refl;
}

-- The eligible members have all their dependencies among those that succeeded.
abbrev IsReady : List Text → StackMember → Type 0
IsReady succeeded m = all (contains succeeded) m.depends_on ≡ true

dependency_check-ready :
    (p : Progress) (met : Bool) (ds : List Text)
    → dependency_check p met ds ≡ some true
    → (met ≡ true) × (all (contains p.succeeded) ds ≡ true)
dependency_check-ready p met [] e = ground arith
dependency_check-ready p met (d ∷ ds) e =
    let e' : dependency_check p (met && contains p.succeeded d) ds ≡ some true = ground arith in
    let (a, b) = dependency_check-ready p (met && contains p.succeeded d) ds e' in ground arith

record Swept (attempt : StackMember → Attempt) (p p' : Progress) (eligible : List StackMember)
    : Type 0 where
  same : p'.succeeded ≡ p.succeeded
  safe_still : IsSafe attempt p'
  ready_all : All (IsReady p.succeeded) eligible

sweep-Swept :
    (attempt : StackMember → Attempt) (sequential : Bool) (ms : List StackMember) (p : Progress)
    → IsSafe attempt p
    → Swept attempt p (sweep sequential ms p).0 (sweep sequential ms p).1
unfolding sweep
sweep-Swept attempt sequential [] p h = record { same = refl; safe_still = h; ready_all = tt }
sweep-Swept attempt sequential (m ∷ ms) p h = elim (sweep_cases sequential m ms p) [
  | over _ e ↦ rw e (sweep-Swept attempt sequential ms p h)
  | waits _ _ e ↦ rw e (sweep-Swept attempt sequential ms p h)
  | blocked _ _ e ↦
      let r = sweep-Swept attempt sequential ms (skip m p) (skip-IsSafe attempt m p h) in
      rw e (record { same = r.same; safe_still = r.safe_still; ready_all = r.ready_all })
  | first_ready _ met e ↦
      let (_, deps) = dependency_check-ready p true m.depends_on met in
      rw e (record { same = refl; safe_still = h; ready_all = (deps, tt) })
  | next_ready _ met e ↦
      let (_, deps) = dependency_check-ready p true m.depends_on met in
      let r = sweep-Swept attempt sequential ms p h in
      rw e (record { same = r.same; safe_still = r.safe_still; ready_all = (deps, r.ready_all) })
]

try_all-IsSafe :
    (attempt : StackMember → Attempt) (ms : List StackMember) (p : Progress)
    → IsSafe attempt p
    → All (IsReady p.succeeded) ms
    → IsSafe attempt (try_all attempt ms p)
unfolding try_all is_safe
try_all-IsSafe attempt [] p h _ = h
try_all-IsSafe attempt (m ∷ ms) p h (deps, rest) =
    let deps' =
      all-imp (contains p.succeeded) (λ d. any (is_done d) p.history) m.depends_on
        (λ x e. sym (h.told x) ∙ e) deps in
    try_all-IsSafe attempt ms
      (record p { out = p.out ++ run_ids (attempt m).run_id; history = tried m ∷ p.history })
      (record { told = h.told; safe = rw (deps', h.safe) refl }) rest

settle-IsSafe :
    (halts : Bool) (attempt : StackMember → Attempt) (ms : List StackMember) (p : Progress)
    → IsSafe attempt p
    → IsSafe attempt (settle halts attempt ms p).0
unfolding settle
settle-IsSafe halts attempt [] p h = h
settle-IsSafe halts attempt (m ∷ ms) p h = elim (settle_cases halts attempt m ms p) [
  | good fine e ↦
      rw e (settle-IsSafe halts attempt ms (succeed m p) (succeed-IsSafe attempt m p fine h))
  | bad_result _ _ e ↦ rw e (settle-IsSafe halts attempt ms (lose m p) (lose-IsSafe attempt m p h))
  | ended _ _ e ↦ rw e (lose-IsSafe attempt m p h)
]

round-IsSafe :
    (sequential halts : Bool) (attempt : StackMember → Attempt) (members : List StackMember)
    (p : Progress)
    → IsSafe attempt p
    → IsSafe attempt (round sequential halts attempt members p).0
round-IsSafe sequential halts attempt members p h =
    let s = sweep-Swept attempt sequential members p h in
    elim (round_cases sequential halts attempt members p) [
      | none_eligible _ e ↦ rw e s.safe_still
      | some_eligible m ms found e ↦
          let ready_ones : All (IsReady (sweep sequential members p).0.succeeded) (m ∷ ms) =
            subst (λ done_ids. All (IsReady done_ids) (m ∷ ms)) (sym s.same)
              (subst (λ l. All (IsReady p.succeeded) l) found s.ready_all) in
          rw e (
            settle-IsSafe halts attempt (m ∷ ms)
              (try_all attempt (m ∷ ms) (sweep sequential members p).0)
              (try_all-IsSafe attempt (m ∷ ms) (sweep sequential members p).0 s.safe_still
                ready_ones))
    ]

waves-IsSafe :
    (fuel : ℕ) (sequential halts : Bool) (attempt : StackMember → Attempt)
    (members : List StackMember) (p : Progress)
    → IsSafe attempt p
    → IsSafe attempt (waves fuel sequential halts attempt members p).0
unfolding waves
waves-IsSafe zero sequential halts attempt members p h = h
waves-IsSafe (suc fuel) sequential halts attempt members p h =
    let r = round-IsSafe sequential halts attempt members p h in
    elim (waves_cases fuel sequential halts attempt members p) [
      | finished _ e ↦ rw e h
      | goes_on _ _ e ↦ rw e (
          waves-IsSafe fuel sequential halts attempt members
            (round sequential halts attempt members p).0 r)
      | breaks _ _ _ e ↦ rw e r
    ]

-- Whatever the starts and the waits give, and however the schedule ends, no member of a stack is
-- started before all its dependencies have succeeded; and a member only counts as succeeded if its
-- start gave no error but that it runs already, and the wait for the run that it gave, if any, did not
-- fail.
pub start_in_waves-IsSafe :
    (strategy policy : Text) (attempt : StackMember → Attempt) (members : List StackMember)
    → is_safe attempt (start_in_waves strategy policy attempt members).0.history ≡ true
unfolding start_in_waves is_safe contains
start_in_waves-IsSafe strategy policy attempt members =
    (waves-IsSafe (suc (length members)) (is_sequential strategy) (stops_at_failure policy) attempt
      members (first_progress members) (record { told = λ x. refl; safe = refl })).safe
