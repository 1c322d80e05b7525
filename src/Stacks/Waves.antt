-- ===== src/Stacks/Waves.antt =====
-- The waves of startStackMembersOnly in internal/runtime/manager.go: the loop over `pending`. What
-- startCommandFromStack and waitStackMember give for a member is the argument `attempt`, since it is
-- for the processes to say. The loop takes fuel, one wave for each member and one more.
pub mod Cases
pub mod Safe
pub mod Ends
pub mod Accounts
pub mod Outcomes
pub mod Ordered
use agent_shell.Base.{
  if◌then◌else◌, is_some, map_some, add_id, drop_id, length, Text, lit, text_eq, is_empty, contains,
  ℕ, zero, suc, Bool, true, false, not, ◌&&◌, Option, none, some, List, [], ◌∷◌, ◌++◌, map,
}
use agent_shell.Env.Layers.{StackMember}
use agent_shell.Http.Templates.{ids}
use agent_shell.Stacks.Order.{command_ids}

pub data StartError : Type 0 where
  no_error already_running other_error : StartError

-- The run that the start gave, its error, and whether the wait for it fails.
pub record Attempt : Type 0 where
  pub run_id : Option Text
  pub start_error : StartError
  pub wait_fails : Bool

-- A start's error counts but for ErrAlreadyRunning; there is a wait where there is no error and a run.
abbrev pub attempt_failed : Attempt → Bool
attempt_failed a = elim a.start_error [ other_error ↦ true | _ ↦ is_some a.run_id && a.wait_fails ]

pub data StackEvent : Type 0 where
  tried done lost skipped : StackMember → StackEvent

-- The maps of the loop, the ids of `out`, and what the loop did, the latest first.
pub record Progress : Type 0 where
  pub pending : List Text
  pub succeeded : List Text
  pub failures : List Text
  pub out : List Text
  pub history : List StackEvent

-- The loop over the dependencies: none where one of them failed, else whether all have succeeded.
abbrev pub dependency_check : Progress → Bool → List Text → Option Bool
dependency_check p met [] = some met
dependency_check p met (d ∷ ds) =
    let rest = dependency_check p (met && contains p.succeeded d) ds in
    if contains p.failures d then none else rest

abbrev pub skip : StackMember → Progress → Progress
skip m p = record p {
  pending = drop_id m.command_id p.pending;
  failures = add_id m.command_id p.failures;
  history = skipped m ∷ p.history;
}

-- The loop that fills `eligible`; a sequential stack takes the first.
unfoldable pub sweep : Bool → List StackMember → Progress → Progress × List StackMember
unfolding contains
sweep sequential [] p = (p, [])
sweep sequential (m ∷ ms) p = elim (contains p.pending m.command_id) [
  | false ↦ sweep sequential ms p
  | true ↦ elim (dependency_check p true m.depends_on) [
    | none ↦ sweep sequential ms (skip m p)
    | some false ↦ sweep sequential ms p
    | some true ↦ elim sequential [
      | true ↦ (p, m ∷ [])
      | false ↦ let r = sweep sequential ms p in (r.0, m ∷ r.1)
    ]
  ]
]

abbrev pub run_ids : Option Text → List Text
run_ids none = []
run_ids (some id) = id ∷ []

-- The loop that starts the eligible members.
unfoldable pub try_all : (StackMember → Attempt) → List StackMember → Progress → Progress
try_all attempt [] p = p
try_all attempt (m ∷ ms) p =
    try_all attempt ms
      (record p { out = p.out ++ run_ids (attempt m).run_id; history = tried m ∷ p.history })

abbrev pub succeed : StackMember → Progress → Progress
succeed m p = record p {
  pending = drop_id m.command_id p.pending;
  succeeded = add_id m.command_id p.succeeded;
  history = done m ∷ p.history;
}

abbrev pub lose : StackMember → Progress → Progress
lose m p = record p {
  pending = drop_id m.command_id p.pending;
  failures = add_id m.command_id p.failures;
  history = lost m ∷ p.history;
}

-- The loop over the results; where the failure policy is not `continue`, it ends at the first error.
unfoldable pub settle :
    Bool → (StackMember → Attempt) → List StackMember → Progress → Progress × Option Text
settle halts attempt [] p = (p, none)
settle halts attempt (m ∷ ms) p = elim (attempt_failed (attempt m)) [
  | false ↦ settle halts attempt ms (succeed m p)
  | true ↦ elim halts [
    | true ↦ (lose m p, some m.command_id)
    | false ↦ settle halts attempt ms (lose m p)
  ]
]

pub data WaveError : Type 0 where
  member_failed : Text → WaveError
  cyclic_or_incomplete out_of_waves : WaveError

abbrev pub is_nil : List Text → Bool
is_nil [] = true
is_nil (x ∷ xs) = false

-- One round from the eligible members on: what the loop body leaves, and none where the loop goes on.
abbrev pub run_round :
    Bool
    → (StackMember → Attempt)
    → Progress
    → List StackMember
    → Progress × Option (Option WaveError)
run_round halts attempt p [] =
    (p, some (if is_nil p.pending then none else some cyclic_or_incomplete))
run_round halts attempt p (e ∷ es) =
    let settled = settle halts attempt (e ∷ es) (try_all attempt (e ∷ es) p) in
    (settled.0, map_some (λ id. some (member_failed id)) settled.1)

abbrev pub round :
    Bool
    → Bool
    → (StackMember → Attempt)
    → List StackMember
    → Progress
    → Progress × Option (Option WaveError)
round sequential halts attempt members p =
    let swept = sweep sequential members p in run_round halts attempt swept.0 swept.1

unfoldable pub waves :
    ℕ
    → Bool
    → Bool
    → (StackMember → Attempt)
    → List StackMember
    → Progress
    → Progress × Option WaveError
unfolding sweep settle try_all
waves zero sequential halts attempt members p = (p, some out_of_waves)
waves (suc fuel) sequential halts attempt members p = elim (is_nil p.pending) [
  | true ↦ (p, none)
  | false ↦
      let r = round sequential halts attempt members p in
      elim r.1 [
        | none ↦ waves fuel sequential halts attempt members r.0
        | some error ↦ (r.0, error)
      ]
]

abbrev pub add_ids : List Text → List Text → List Text
add_ids [] ids = ids
add_ids (x ∷ xs) ids = add_ids xs (add_id x ids)

abbrev pub first_progress : List StackMember → Progress
first_progress members = record {
  pending = add_ids (command_ids members) [];
  succeeded = [];
  failures = [];
  out = [];
  history = [];
}

-- The strategy is `parallel` and the failure policy `continue` where the stack names none.
abbrev pub is_sequential : Text → Bool
is_sequential strategy = text_eq strategy (lit "sequential")

abbrev pub stops_at_failure : Text → Bool
stops_at_failure policy = not (is_empty policy) && not (text_eq policy (lit "continue"))

unfoldable pub start_in_waves :
    Text → Text → (StackMember → Attempt) → List StackMember → Progress × Option WaveError
unfolding waves
start_in_waves strategy policy attempt members =
    waves (suc (length members)) (is_sequential strategy) (stops_at_failure policy) attempt members
      (first_progress members)
