-- ===== src/Stacks/Start/Checked.antt =====
-- The starts of members in startStack of internal/runtime/prerequisites.go: what is checked before, and
-- what is seen behind.
use agent_shell.Base.{
  arith, All, Option-cases, Bool-cases, Result-cases, lookup, get_or, ◌≢◌, true, false, Text, refl,
  any, ok, ◌≡◌, ◌⊎◌, inl, inr, Bool, Option, none, some, List, [], ◌∷◌, Result, err,
}
use agent_shell.Commands.Definition.{
  CommandDefinition, is_external, active_runs_for_command, runs_for_command, replace, allow, Policy,
  no_policy, forbid, other_policy,
}
use agent_shell.Commands.Lifecycle.{external_started}
use agent_shell.Commands.Params.{Transient, resolve_command_parameters}
use agent_shell.Runs.Manager.{Manager}
use agent_shell.Env.Layers.{StackMember, Stack}
use agent_shell.Runs.Run.{Run}
use agent_shell.Stacks.Needed.{stack_up_enough}
use agent_shell.Stacks.Needed.Plans.{is_yes}
use agent_shell.Stacks.Preflight.{
  StackAnswers, is_left_alone, check_command, repeats, no_active, ReadyRound, MembersError, Values,
  preflight, MembersOutcome, not_begun, after_selection, of_stack, start_stack_members_only,
  store_failed, bad_selection, after_preflight,
}
use agent_shell.Stacks.Selection.{stack_members_for_start, SelectError}
use agent_shell.Stacks.Start.{wait_rounds, wait_stack_ready, StackError, after_round}

-- The parameters are not looked at: the start would only say that the command runs already.
abbrev pub IsLeftAlone : Manager → CommandDefinition → Text → Type 0
IsLeftAlone m c id =
    (c.concurrency_policy ≢ replace)
    × (c.concurrency_policy ≢ allow)
    × ((active_runs_for_command m id ≢ [])
        ⊎ (is_external c ≡ true) × ((external_started (runs_for_command m c.id)).0 ≡ true))

-- The command and its runs are found, and it is left alone or its values fit its parameters.
abbrev pub Passes : (Text → Bool) → Values → StackAnswers → StackMember → Type 0
Passes is_number values a member =
    (c : CommandDefinition) × (m : Manager) × (a.command member.command_id ≡ some c)
    × (a.runs ≡ some m)
    × (IsLeftAlone m c member.command_id
        ⊎ ((t : Transient) × (resolve_command_parameters is_number c.parameters
                (get_or (lookup member.command_id values) [])
              ≡ ok t)))

not_repeated : (p : Policy) → repeats p ≡ false → (p ≢ replace) × (p ≢ allow)
not_repeated replace h = absurd cc
not_repeated allow h = absurd cc
not_repeated no_policy h = ((λ e. cc), λ e. cc)
not_repeated forbid h = ((λ e. cc), λ e. cc)
not_repeated other_policy h = ((λ e. cc), λ e. cc)

some_active : (rs : List Run) → no_active rs ≡ false → rs ≢ []
some_active [] h = absurd cc
some_active (r ∷ rs) h = λ e. cc

left_alone :
    (m : Manager) (c : CommandDefinition) (id : Text)
    → is_left_alone m c id ≡ true
    → IsLeftAlone m c id
left_alone m c id h =
    let (once, twice) = not_repeated c.concurrency_policy (ground (arith, h)) in
    elim (Bool-cases (no_active (active_runs_for_command m id))) [
      | inr busy ↦ (once, twice, inl (some_active (active_runs_for_command m id) busy))
      | inl idle ↦ (once, twice, inr (ground (arith, h, idle), ground (arith, h, idle)))
    ]

checked-Passes :
    (is_number : Text → Bool) (values : Values) (a : StackAnswers) (member : StackMember)
    → check_command is_number values a.runs member.command_id (a.command member.command_id) ≡ none
    → Passes is_number values a member
checked-Passes is_number values a member h = elim (Option-cases (a.command member.command_id)) [
  | inl missing ↦ absurd (ground (arith, missing, h))
  | inr (c, found) ↦ elim (Option-cases a.runs) [
    | inl failed ↦ absurd (ground (arith, found, failed, h))
    | inr (m, read) ↦ elim (Bool-cases (is_left_alone m c member.command_id)) [
      | inl alone ↦ (c, m, found, read, inl (left_alone m c member.command_id alone))
      | inr looked_at ↦
          elim (Result-cases (
            resolve_command_parameters is_number c.parameters
              (get_or (lookup member.command_id values) []))) [
                | inl (t, fits) ↦ (c, m, found, read, inr (t, fits))
                | inr (e, wrong) ↦ absurd (ground (arith, found, read, looked_at, wrong, h))
              ]
    ]
  ]
]

preflight-Passes :
    (is_number : Text → Bool) (values : Values) (a : StackAnswers) (members : List StackMember)
    → preflight is_number values a.command a.runs members ≡ none
    → All (Passes is_number values a) members
unfolding preflight
preflight-Passes is_number values a [] h = tt
preflight-Passes is_number values a (member ∷ members) h = (
  checked-Passes is_number values a member (ground arith),
  preflight-Passes is_number values a members (ground arith),
)

-- Each selected member passes.
pub record HasPassed (is_number : Text → Bool) (values : Values) (selected : Option (List Text))
    (a : StackAnswers) : Type 0 where
  pub found : Stack
  pub members : List StackMember
  pub is_found : a.stack ≡ some found
  pub are_selected : stack_members_for_start found.members selected ≡ ok members
  pub passed : All (Passes is_number values a) members

-- A round in which the stack is up.
abbrev pub is_seen_up : Stack → ReadyRound → Bool
is_seen_up s r = is_yes (stack_up_enough r.facts s)

abbrev pub SeenUp : StackAnswers → Type 0
SeenUp a = (s : Stack) × (a.stack ≡ some s) × (any (is_seen_up s) a.rounds ≡ true)

-- A start of the members that has begun has passed the checks, and one without an error has begun.
pub record HasBegun (is_number : Text → Bool) (values : Values) (selected : Option (List Text))
    (a : StackAnswers) (o : MembersOutcome) : Type 0 where
  pub begins : o.error ≡ none → o.began ≡ true
  pub passes : o.began ≡ true → HasPassed is_number values selected a

HasBegun-not_begun :
    (is_number : Text → Bool) (values : Values) (selected : Option (List Text)) (a : StackAnswers)
    (e : MembersError)
    → HasBegun is_number values selected a (not_begun e)
HasBegun-not_begun is_number values selected a e = record {
  begins = λ h. absurd cc;
  passes = λ h. absurd cc;
}

module _ (is_number : Text → Bool) (values : Values) (selected : Option (List Text))
    (a : StackAnswers) where
  preflight-HasBegun :
      (s : Stack) (members : List StackMember) (result : Option MembersError) (library_read : Bool)
      → a.stack ≡ some s
      → stack_members_for_start s.members selected ≡ ok members
      → preflight is_number values a.command a.runs members ≡ result
      → HasBegun is_number values selected a
          (after_preflight a s selected members result library_read)
  preflight-HasBegun s members (some problem) library_read e k p =
      HasBegun-not_begun is_number values selected a problem
  preflight-HasBegun s members none false e k p =
      HasBegun-not_begun is_number values selected a store_failed
  preflight-HasBegun s members none true e k p = record {
    begins = λ _. refl;
    passes = λ _. record {
      found = s;
      members = members;
      is_found = e;
      are_selected = k;
      passed = preflight-Passes is_number values a members p;
    };
  }

  selection_HasBegun :
      (s : Stack) (result : Result SelectError (List StackMember))
      → a.stack ≡ some s
      → stack_members_for_start s.members selected ≡ result
      → HasBegun is_number values selected a (after_selection is_number values a s selected result)
  selection_HasBegun s (err problem) e k =
      HasBegun-not_begun is_number values selected a (bad_selection problem)
  selection_HasBegun s (ok members) e k =
      preflight-HasBegun s members (preflight is_number values a.command a.runs members)
        a.library_read e k refl

  found_HasBegun :
      (found : Option Stack)
      → a.stack ≡ found
      → HasBegun is_number values selected a (of_stack is_number values a selected found)
  found_HasBegun none e = HasBegun-not_begun is_number values selected a store_failed
  found_HasBegun (some s) e =
      selection_HasBegun s (stack_members_for_start s.members selected) e refl

  pub start_HasBegun :
      HasBegun is_number values selected a (start_stack_members_only is_number values a selected)
  unfolding start_stack_members_only
  start_HasBegun = found_HasBegun a.stack refl

seen_in_round :
    (s : Stack) (r : ReadyRound) (rest : Option StackError) (answer : Option Bool)
    → after_round s r rest answer ≡ none
    → (is_yes answer ≡ true) ⊎ (rest ≡ none)
seen_in_round s r rest none h = absurd cc
seen_in_round s r rest (some true) h = inl refl
seen_in_round s r rest (some false) h = inr (ground arith)

seen_in_rounds :
    (s : Stack) (rounds : List ReadyRound)
    → wait_rounds s rounds ≡ none
    → any (is_seen_up s) rounds ≡ true
unfolding wait_rounds
seen_in_rounds s [] h = absurd cc
seen_in_rounds s (r ∷ rs) h =
    elim (seen_in_round s r (wait_rounds s rs) (stack_up_enough r.facts s) h) [
      | inl now ↦ rw now refl
      | inr later ↦ ground (arith, seen_in_rounds s rs later)
    ]

pub ready_SeenUp :
    (a : StackAnswers) (found : Option Stack)
    → a.stack ≡ found
    → wait_stack_ready found a.rounds ≡ none
    → SeenUp a
ready_SeenUp a none e h = absurd cc
ready_SeenUp a (some s) e h = (s, e, seen_in_rounds s a.rounds h)
