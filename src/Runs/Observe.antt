-- ===== src/Runs/Observe.antt =====
-- ObserveExternalRun and PrerequisiteMemberReady of internal/domain/domain.go, and
-- stackMemberCondition of internal/runtime/manager.go.
pub mod Evidence
use agent_shell.Base.{
  ltb, ◌==◌, if◌then◌else◌, ℤ, pos, negsuc, length, all, Text, lit, text_eq, Result, ok, err, ℕ,
  zero, suc, Bool, true, false, not, ◌&&◌, ◌||◌, Option, none, some, List, [], ◌∷◌,
}
use agent_shell.Runs.Run.{
  RunStatus, Readiness, PortState, PortStatus, LifecycleAction, PortVerification, Run, active,
  completed, ready, listening, closed, other_state, pending, verified, preexisting, still_listening,
  port_stopped, unavailable, other_status, start, stop_action, restart,
}

pub data ObservedState : Type 0 where
  up down checking unsure : ObservedState

pub data Confidence : Type 0 where
  by_action by_nothing high observed : Confidence

pub record ExternalObservation : Type 0 where
  pub state : ObservedState
  pub confidence : Confidence

abbrev observation : ObservedState → Confidence → ExternalObservation
observation s c = record { state = s; confidence = c }

pub record Counts : Type 0 where
  pub listening_ports : ℕ
  pub closed_ports : ℕ
  pub pending_ports : ℕ

abbrev count_listening : Counts → Counts
count_listening n = record n { listening_ports = suc n.listening_ports }

abbrev count_closed : Counts → Counts
count_closed n = record n { closed_ports = suc n.closed_ports }

abbrev count_pending : Counts → Counts
count_pending n = record n { pending_ports = suc n.pending_ports }

-- The second switch of the loop body.
abbrev pub count_status : PortStatus → Counts → Counts
count_status verified n = count_listening n
count_status preexisting n = count_listening n
count_status still_listening n = count_listening n
count_status port_stopped n = count_closed n
count_status unavailable n = count_closed n
count_status pending n = count_pending n
count_status other_status n = n

abbrev pub count_one : PortState → PortStatus → Counts → Counts
count_one listening status n = count_listening n
count_one closed status n = count_closed n
count_one other_state status n = count_status status n

unfoldable pub count_ports : Counts → List PortVerification → Counts
count_ports n [] = n
count_ports n (v ∷ vs) = count_ports (count_one v.current v.status n) vs

abbrev is_verified : PortStatus → Bool
is_verified verified = true
is_verified _ = false

abbrev is_completed : RunStatus → Bool
is_completed completed = true
is_completed _ = false

-- After an action that stops.
abbrev observe_stopped : RunStatus → List PortVerification → Counts → ExternalObservation
observe_stopped status vs n =
    if ltb 0 n.listening_ports
    then observation up observed
    else if is_completed status && (length vs == 0 || n.closed_ports == length vs)
    then observation down (if length vs == 0 then by_action else high)
    else observation unsure by_nothing

-- After an action that starts.
abbrev observe_started : List PortVerification → Counts → ExternalObservation
observe_started vs n =
    if length vs == 0
    then observation unsure by_action
    else if n.listening_ports == length vs
    then observation up (if all (λ v. is_verified v.status) vs then high else observed)
    else if n.closed_ports == length vs
    then observation down high
    else observation unsure observed

abbrev observe_counts :
    LifecycleAction → RunStatus → List PortVerification → Counts → ExternalObservation
observe_counts stop_action status vs n =
    if ltb 0 n.pending_ports then observation checking observed else observe_stopped status vs n
observe_counts start status vs n =
    if ltb 0 n.pending_ports then observation checking observed else observe_started vs n
observe_counts restart status vs n =
    if ltb 0 n.pending_ports then observation checking observed else observe_started vs n
observe_counts _ status vs n = observation unsure by_nothing

abbrev no_ports : Counts
no_ports = record { listening_ports = 0; closed_ports = 0; pending_ports = 0 }

unfoldable pub observe_external_run : Run → ExternalObservation
unfolding count_ports
observe_external_run r =
    if active r
    then observation checking by_action
    else observe_counts r.lifecycle_action r.status r.port_verifications
        (count_ports no_ports r.port_verifications)

-- `lifecycleMode != "external"` is the first argument's negation.
unfoldable pub prerequisite_member_ready : Bool → ObservedState → Bool → Bool
prerequisite_member_ready false state can_stop = can_stop
prerequisite_member_ready true up can_stop = true
prerequisite_member_ready true checking can_stop = true
prerequisite_member_ready true unsure can_stop = can_stop
prerequisite_member_ready true down can_stop = false

-- The errors of stackMemberCondition.
pub data WaitError : Type 0 where
  no_run : WaitError
  exited_with : RunStatus → WaitError
  unsupported_wait : Text → WaitError
  exited_before_ready : WaitError
  port_is : ℕ → PortStatus → WaitError

abbrev zero_exit : Option ℤ → Bool
zero_exit none = true
zero_exit (some (pos zero)) = true
zero_exit (some (pos (suc n))) = false
zero_exit (some (negsuc n)) = false

abbrev exit_condition : Run → Result WaitError Bool
exit_condition r =
    if active r
    then ok false
    else if is_completed r.status && zero_exit r.exit_code
    then ok true
    else err (exited_with r.status)

-- The loop over the verifications; the flag is `pending`.
unfoldable pub ports_condition : Bool → List PortVerification → Result WaitError Bool
ports_condition waits [] = ok (not waits)
ports_condition waits (v ∷ vs) = elim v.status [
  | verified ↦ ports_condition waits vs
  | preexisting ↦ ports_condition waits vs
  | pending ↦ ports_condition true vs
  | s ↦ err (port_is v.port s)
]

abbrev is_ready : Readiness → Bool
is_ready ready = true
is_ready _ = false

abbrev is_start : LifecycleAction → Bool
is_start start = true
is_start restart = true
is_start _ = false

abbrev ready_condition : Run → Result WaitError Bool
ready_condition r =
    if is_ready r.readiness
    then ok true
    else if is_start r.lifecycle_action
    then (if length r.port_verifications == 0
        then (if not (active r) && not (is_completed r.status)
            then err exited_before_ready
            else ok false)
        else ports_condition false r.port_verifications)
    else if not (active r)
    then err exited_before_ready
    else ok false

unfoldable pub stack_member_condition : Option Run → Text → Result WaitError Bool
unfolding ports_condition
stack_member_condition none mode = err no_run
stack_member_condition (some r) mode =
    if text_eq mode (lit "exit")
    then exit_condition r
    else if not (text_eq mode (lit "ready"))
    then err (unsupported_wait mode)
    else ready_condition r
