-- ===== src/Commands/Lifecycle/Alone.antt =====
-- A command that is not allowed to run twice is started by internal/runtime/manager.go only where no
-- run of it is active.
use agent_shell.Base.{
  Bool-cases, Option-cases, keep, Text, text_eq, lookup, ◌≡◌, refl, sym, ap, ◌∙◌, inl, inr, Bool,
  true, false, ◌&&◌, Option, none, some, List, [], ◌∷◌, reverse, reverse-reverse, arith,
  if◌then◌else◌, all, all-cons, Result, ok, err, subst, ◌≢◌,
}
use agent_shell.Commands.Definition.{
  CommandDefinition, is_external, rows, is_of, active_runs_for_command, Policy, restart_command_of,
  runs_for_command, no_policy, forbid, replace, allow, other_policy,
}
use agent_shell.Commands.Lifecycle.{
  no_runs, external_started, Poll, wait_command_stopped, StopAnswer, stop_each, policy_of, start_as,
  start_resolved, after_wait, start_policy, start_command_locked,
}
use agent_shell.Commands.Actions.{
  action_ports, World, action_spec, lifted, with_ports, ports_saved, external_outcome,
  start_external_lifecycle_action, start_lifecycle_action, already_running, CommandError,
  CommandOutcome, managed_outcome, bad_parameters, wait_over, bad_policy,
}
use agent_shell.Commands.Params.{ParamError, Transient, resolve_command_parameters}
use agent_shell.Runs.Manager.{Manager, RunError, update_run_port_verifications}
use agent_shell.Runs.Manager.Flags.{lookup-update_run}
use agent_shell.Runs.Ports.{snapshot_external_ports}
use agent_shell.Runs.Run.{
  LifecycleAction, ExpectedPort, PortVerification, Run, active, start, restart,
}
use agent_shell.Runs.Start.{StartSpec, Os, StartOutcome, start_run}
use agent_shell.Runs.Start.Started.{start_run-IsStarted}

-- No run of the command is active but the one with the given id.
abbrev pub IsOnly : Text → Text → List (Text × Run) → Type 0
IsOnly command only runs =
    (x : Text) (r : Run)
    → lookup x runs ≡ some r
    → (is_of command r && active r) ≡ true
    → text_eq only x ≡ true

abbrev IsIdle : Text → List (Text × Run) → Type 0
IsIdle command runs =
    (x : Text) (r : Run) → lookup x runs ≡ some r → (is_of command r && active r) ≡ false

kept_none :
    (p : Run → Bool) (runs : List (Text × Run))
    → keep p (rows runs) ≡ []
    → (x : Text) (r : Run) → lookup x runs ≡ some r
    → p r ≡ false
unfolding lookup
kept_none p [] e x r h = cc
kept_none p ((id, s) ∷ runs) e x r h = elim (Bool-cases (p s)) [
  | inl kept ↦ absurd (ground arith)
  | inr dropped ↦ elim (Bool-cases (text_eq id x)) [
    | inl same ↦ ground arith
    | inr other ↦ kept_none p runs (ground arith) x r (ground arith)
  ]
]

reverse_nil {ℓ} : {A : Type ℓ} (xs : List A) → reverse xs ≡ [] → xs ≡ []
reverse_nil xs e = sym (reverse-reverse xs) ∙ ap reverse e

no_runs-nil : (rs : List Run) → no_runs rs ≡ true → rs ≡ []
no_runs-nil [] h = refl
no_runs-nil (r ∷ rs) h = cc

active_runs-IsIdle :
    (m : Manager) (id : Text) → active_runs_for_command m id ≡ [] → IsIdle id m.runs
unfolding active_runs_for_command
active_runs-IsIdle m id e = kept_none (λ r. is_of id r && active r) m.runs (reverse_nil _ e)

-- A run that is started in such a table is the only one.
started-IsOnly :
    (m : Manager) (os : Os) (spec : StartSpec) (id : Text)
    → IsIdle id m.runs
    → (start_run m os spec).error ≡ none
    → IsOnly id os.new_id (start_run m os spec).manager.runs
started-IsOnly m os spec id idle e x r found busy = elim (Bool-cases (text_eq os.new_id x)) [
  | inl same ↦ same
  | inr other ↦
      let before : lookup x m.runs ≡ some r =
        sym ((start_run-IsStarted m os spec e).others x other) ∙ found in
      absurd (ground (arith, idle x r before))
]

-- The saved ports of a run change neither its command nor its status.
updated-IsOnly :
    (m : Manager) (id command only : Text) (es : List ExpectedPort) (vs : List PortVerification)
    → IsOnly command only m.runs
    → IsOnly command only (update_run_port_verifications m id es vs).runs
unfolding update_run_port_verifications
updated-IsOnly m id command only es vs h x r found busy = elim (Option-cases (lookup x m.runs)) [
  | inl missing ↦ absurd (ground (arith, lookup-update_run id x (λ r. with_ports r es vs) m.runs))
  | inr (s, here) ↦
      h x s here (ground (arith, lookup-update_run id x (λ r. with_ports r es vs) m.runs))
]

ports_saved-IsOnly :
    (w : World) (es : List ExpectedPort) (vs : List PortVerification) (out : StartOutcome) (r : Run)
    (command only : Text) (e : Option RunError)
    → (ports_saved w es vs out r e).error ≡ none
    → (e ≡ none → IsOnly command only out.manager.runs)
    → IsOnly command only (ports_saved w es vs out r e).manager.runs
ports_saved-IsOnly w es vs out r command only (some e) none_failed h = absurd (ground arith)
ports_saved-IsOnly w es vs out r command only none none_failed h = elim (Bool-cases w.updated) [
  | inl saved ↦ rw saved (updated-IsOnly out.manager r.id command only es vs (h refl))
  | inr unsaved ↦ absurd (ground arith)
]

lifted-none : (e : Option RunError) → lifted e ≡ none → e ≡ none
lifted-none none h = refl
lifted-none (some e) h = cc

module _ (w : World) (m : Manager) (c : CommandDefinition) (command : Text) (did : LifecycleAction)
    (stack_run_id : Text) (overlay : List (Text × Text)) where
  external-IsOnly :
      (out : StartOutcome) (vs : List PortVerification) (r : Option Run)
      → (external_outcome w c.expected_ports vs out r).error ≡ none
      → (out.error ≡ none → IsOnly c.id w.os.new_id out.manager.runs)
      → IsOnly c.id w.os.new_id (external_outcome w c.expected_ports vs out r).manager.runs
  external-IsOnly out vs none e h = h (lifted-none out.error e)
  external-IsOnly out vs (some r) e h =
      ports_saved-IsOnly w c.expected_ports vs out r c.id w.os.new_id out.error e h

  start_external-IsOnly :
      IsIdle c.id m.runs
      → (start_external_lifecycle_action w m c command did stack_run_id overlay).error ≡ none
      → IsOnly c.id w.os.new_id
          (start_external_lifecycle_action w m c command did stack_run_id overlay).manager.runs
  unfolding start_external_lifecycle_action
  start_external-IsOnly idle e =
      let spec = action_spec w c command did stack_run_id overlay [] in
      let out = start_run m w.os spec in
      external-IsOnly out (snapshot_external_ports w.probe did c.expected_ports) out.run e
        (λ h. started-IsOnly m w.os spec c.id idle h)

-- Where a run is started, it is the only one of the command.
abbrev pub StartsAlone : World → CommandDefinition → CommandOutcome → Type 0
StartsAlone w c out = out.error ≡ none → IsOnly c.id w.os.new_id out.manager.runs

either_alone :
    (w : World) (c : CommandDefinition) (b : Bool) (x y : CommandOutcome)
    → StartsAlone w c x
    → StartsAlone w c y
    → StartsAlone w c (if b then x else y)
either_alone w c true x y h k = h
either_alone w c false x y h k = k

refusal_alone :
    (w : World) (c : CommandDefinition) (out : CommandOutcome) (e : CommandError)
    → out.error ≡ some e
    → StartsAlone w c out
refusal_alone w c out e failure h = cc

wait-IsIdle :
    (id : Text) (polls : List Poll) (m : Manager)
    → all (λ p. p.answered) polls ≡ true
    → wait_command_stopped id polls ≡ some m
    → IsIdle id m.runs
unfolding wait_command_stopped
wait-IsIdle id [] m h e = cc
wait-IsIdle id (p ∷ ps) m h e =
    let (first, rest) = all-cons (λ p. p.answered) p ps h in
    elim (Bool-cases (no_runs (active_runs_for_command p.manager id))) [
      | inl gone ↦
          let here : p.manager ≡ m = ground arith in
          subst (λ n. IsIdle id n.runs) here
            (active_runs-IsIdle p.manager id
              (no_runs-nil (active_runs_for_command p.manager id) gone))
      | inr busy ↦ wait-IsIdle id ps m rest (ground arith)
    ]

module _ (w : World) (c : CommandDefinition) (stack_run_id : Text)
    (overlay : List (Text × Text)) where
  action_alone :
      (m : Manager) (command : Text) (did : LifecycleAction)
      → IsIdle c.id m.runs
      → StartsAlone w c (start_lifecycle_action w m c command did stack_run_id overlay)
  unfolding start_lifecycle_action
  action_alone m command did idle =
      let spec = action_spec w c command did stack_run_id overlay (action_ports c did) in
      let out = start_run m w.os spec in
      either_alone w c (is_external c)
        (start_external_lifecycle_action w m c command did stack_run_id overlay)
        (managed_outcome out) (start_external-IsOnly w m c command did stack_run_id overlay idle)
        (λ e. started-IsOnly m w.os spec c.id idle (lifted-none out.error e))

  start_as-alone :
      (m : Manager) (rule : Policy) (up : Bool) (last : Option Run)
      → IsIdle c.id m.runs
      → StartsAlone w c (start_as w m c stack_run_id overlay rule (up, last))
  start_as-alone m forbid true last idle =
      refusal_alone w c (start_as w m c stack_run_id overlay forbid (true, last)) already_running
        refl
  start_as-alone m replace true last idle = action_alone m (restart_command_of c) restart idle
  start_as-alone m no_policy true last idle = action_alone m c.command start idle
  start_as-alone m allow true last idle = action_alone m c.command start idle
  start_as-alone m other_policy true last idle = action_alone m c.command start idle
  start_as-alone m forbid false last idle = action_alone m c.command start idle
  start_as-alone m replace false last idle = action_alone m c.command start idle
  start_as-alone m no_policy false last idle = action_alone m c.command start idle
  start_as-alone m allow false last idle = action_alone m c.command start idle
  start_as-alone m other_policy false last idle = action_alone m c.command start idle

  resolved_alone :
      (m : Manager) (rule : Policy) (given : Result ParamError Transient)
      → IsIdle c.id m.runs
      → StartsAlone w c (start_resolved w m c stack_run_id overlay rule given)
  resolved_alone m rule (err e) idle =
      refusal_alone w c (start_resolved w m c stack_run_id overlay rule (err e)) (bad_parameters e)
        refl
  resolved_alone m rule (ok t) idle =
      let (up, last) = external_started (runs_for_command m c.id) in
      either_alone w c (is_external c) (start_as w m c stack_run_id overlay rule (up, last))
        (start_lifecycle_action w m c c.command start stack_run_id overlay)
        (start_as-alone m rule up last idle) (action_alone m c.command start idle)

  waited_alone :
      (values : List (Text × Text)) (m : Manager) (later : Option Manager)
      → ((m' : Manager) → later ≡ some m' → IsIdle c.id m'.runs)
      → StartsAlone w c (after_wait w c stack_run_id values overlay m later)
  waited_alone values m none idle =
      refusal_alone w c (after_wait w c stack_run_id values overlay m none) wait_over refl
  waited_alone values m (some m') idle =
      resolved_alone m' replace (resolve_command_parameters w.is_number c.parameters values)
        (idle m' refl)

  policy_alone :
      (a : StopAnswer) (polls : List Poll) (m : Manager) (values : List (Text × Text))
      (rule : Policy) (rs : List Run)
      → rule ≢ allow
      → all (λ p. p.answered) polls ≡ true
      → active_runs_for_command m c.id ≡ rs
      → StartsAlone w c (start_policy w a polls m c stack_run_id values overlay rule rs)
  policy_alone a polls m values rule [] ne answered e =
      resolved_alone m rule (resolve_command_parameters w.is_number c.parameters values)
        (active_runs-IsIdle m c.id e)
  policy_alone a polls m values forbid (r ∷ rs) ne answered e =
      refusal_alone w c (start_policy w a polls m c stack_run_id values overlay forbid (r ∷ rs))
        already_running refl
  policy_alone a polls m values replace (r ∷ rs) ne answered e =
      waited_alone values (stop_each a m (r ∷ rs)).0 (wait_command_stopped c.id polls)
        (λ m' e. wait-IsIdle c.id polls m' answered e)
  policy_alone a polls m values allow (r ∷ rs) ne answered e = absurd (ne refl)
  policy_alone a polls m values no_policy (r ∷ rs) ne answered e =
      refusal_alone w c (start_policy w a polls m c stack_run_id values overlay no_policy (r ∷ rs))
        bad_policy refl
  policy_alone a polls m values other_policy (r ∷ rs) ne answered e =
      refusal_alone w c
        (start_policy w a polls m c stack_run_id values overlay other_policy (r ∷ rs)) bad_policy
        refl

policy_of-ne : (rule : Policy) → rule ≢ allow → policy_of rule ≢ allow
policy_of-ne no_policy ne e = cc
policy_of-ne rule ne e = ne (ground arith)

-- A saved command whose policy is not to allow several runs is started only where no run of it is
-- active: where startCommandLocked reports no error, the started run is the only active one of the
-- command in the table, as long as the store answers while the old runs are waited for.
pub start_command_locked-StartsAlone :
    (w : World) (a : StopAnswer) (polls : List Poll) (m : Manager) (c : CommandDefinition)
    (stack_run_id : Text) (values overlay : List (Text × Text))
    → c.concurrency_policy ≢ allow
    → all (λ p. p.answered) polls ≡ true
    → StartsAlone w c (start_command_locked w a polls m c stack_run_id values overlay)
unfolding start_command_locked
start_command_locked-StartsAlone w a polls m c stack_run_id values overlay ne answered =
    policy_alone w c stack_run_id overlay a polls m values (policy_of c.concurrency_policy)
      (active_runs_for_command m c.id) (policy_of-ne c.concurrency_policy ne) answered refl
