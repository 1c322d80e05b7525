-- ===== src/Runs/Observe/Evidence.antt =====
-- What the observation of an external run rests on, port by port.
use agent_shell.Base.{
  length, ℕ, ◌+◌, ◌≤◌, List, ltb, ◌==◌, if◌then◌else◌, Bool-cases, all, any, suc, ◌≡◌, refl, inl,
  inr, Bool, true, false, ◌&&◌, [], ◌∷◌, arith,
}
use agent_shell.Runs.Observe.{
  Counts, ObservedState, count_one, count_ports, observe_external_run, up, down, checking, unsure,
  is_completed, observe_counts, no_ports,
}
use agent_shell.Runs.Run.{
  PortState, PortStatus, PortVerification, listening, closed, other_state, pending, verified,
  preexisting, still_listening, port_stopped, unavailable, other_status, RunStatus, LifecycleAction,
  Run, active, start, stop_action, restart,
}

-- What one port shows: the current probe decides, and the recorded status where there is none.
pub data Shows : Type 0 where
  shows_open shows_closed shows_pending shows_nothing : Shows

abbrev of_status : PortStatus → Shows
of_status verified = shows_open
of_status preexisting = shows_open
of_status still_listening = shows_open
of_status port_stopped = shows_closed
of_status unavailable = shows_closed
of_status pending = shows_pending
of_status other_status = shows_nothing

abbrev of_port : PortState → PortStatus → Shows
of_port listening status = shows_open
of_port closed status = shows_closed
of_port other_state status = of_status status

abbrev pub shows : PortVerification → Shows
shows v = of_port v.current v.status

abbrev pub is_open : Shows → Bool
is_open shows_open = true
is_open _ = false

abbrev pub is_closed : Shows → Bool
is_closed shows_closed = true
is_closed _ = false

abbrev pub is_pending : Shows → Bool
is_pending shows_pending = true
is_pending _ = false

-- How many ports pass a test.
number : (Shows → Bool) → List PortVerification → ℕ
number p [] = 0
number p (v ∷ vs) = if p (shows v) then suc (number p vs) else number p vs

number-le-length : (p : Shows → Bool) (vs : List PortVerification) → number p vs ≤ length vs
unfolding number
number-le-length p [] = omega arith
number-le-length p (v ∷ vs) = ground (arith, number-le-length p vs)

number-all :
    (p : Shows → Bool) (vs : List PortVerification)
    → (number p vs == length vs) ≡ all (λ v. p (shows v)) vs
unfolding number
number-all p [] = refl
number-all p (v ∷ vs) = ground (arith, number-all p vs, number-le-length p vs)

number-any :
    (p : Shows → Bool) (vs : List PortVerification)
    → ltb 0 (number p vs) ≡ any (λ v. p (shows v)) vs
unfolding number
number-any p [] = refl
number-any p (v ∷ vs) = ground (arith, number-any p vs)

record Counted (n m : Counts) (vs : List PortVerification) : Type 0 where
  opened : m.listening_ports ≡ n.listening_ports + number is_open vs
  shut : m.closed_ports ≡ n.closed_ports + number is_closed vs
  waiting : m.pending_ports ≡ n.pending_ports + number is_pending vs

count_one-Counted :
    (c : PortState) (s : PortStatus) (n : Counts)
    → ((count_one c s n).listening_ports
        ≡ n.listening_ports + (if is_open (of_port c s) then 1 else 0))
      × ((count_one c s n).closed_ports
          ≡ n.closed_ports + (if is_closed (of_port c s) then 1 else 0))
      × ((count_one c s n).pending_ports
          ≡ n.pending_ports + (if is_pending (of_port c s) then 1 else 0))
count_one-Counted c s n = ground arith

count_ports-Counted : (n : Counts) (vs : List PortVerification) → Counted n (count_ports n vs) vs
unfolding count_ports number
count_ports-Counted n [] = ground arith
count_ports-Counted n (v ∷ vs) =
    let (o, c, p) = count_one-Counted v.current v.status n in
    let h = count_ports-Counted (count_one v.current v.status n) vs in
    record {
      opened = ground (arith, o, h.opened);
      shut = ground (arith, c, h.shut);
      waiting = ground (arith, p, h.waiting);
    }

-- The state, port by port: by what each port shows.
abbrev pub started_state : List PortVerification → ObservedState
started_state [] = unsure
started_state (v ∷ vs) =
    if all (λ w. is_open (shows w)) (v ∷ vs)
    then up
    else if all (λ w. is_closed (shows w)) (v ∷ vs)
    then down
    else unsure

abbrev pub stopped_state : RunStatus → List PortVerification → ObservedState
stopped_state status vs =
    if any (λ w. is_open (shows w)) vs
    then up
    else if is_completed status && all (λ w. is_closed (shows w)) vs
    then down
    else unsure

abbrev pub shown_state : LifecycleAction → RunStatus → List PortVerification → ObservedState
shown_state stop_action status vs =
    if any (λ w. is_pending (shows w)) vs then checking else stopped_state status vs
shown_state start status vs =
    if any (λ w. is_pending (shows w)) vs then checking else started_state vs
shown_state restart status vs =
    if any (λ w. is_pending (shows w)) vs then checking else started_state vs
shown_state _ status vs = unsure

observe_counts-state :
    (did : LifecycleAction) (status : RunStatus) (vs : List PortVerification)
    → (observe_counts did status vs (count_ports no_ports vs)).state ≡ shown_state did status vs
observe_counts-state did status [] =
    let h = count_ports-Counted no_ports [] in unfold count_ports in ground arith
observe_counts-state did status (v ∷ vs) =
    let h = count_ports-Counted no_ports (v ∷ vs) in
    ground (
      arith,
      h.opened,
      h.shut,
      h.waiting,
      number-all is_open (v ∷ vs),
      number-all is_closed (v ∷ vs),
      number-any is_open (v ∷ vs),
      number-any is_pending (v ∷ vs),
    )

-- An external run's state is that of its ports. A port whose current probe is listening shows open, and
-- one whose current probe is closed shows closed, whatever its status is, pending included; only where
-- there is no such probe does its status say whether it shows open, closed, pending or nothing. While
-- the action runs, or some port shows pending, the state is checking; after a start it runs where every
-- port shows open and is down where every port shows closed; after a stop it still runs where some port
-- shows open, and is down where the stop completed and every port shows closed; everything else is
-- unknown.
pub observe_external_run-state :
    (r : Run)
    → (observe_external_run r).state ≡ (
        if active r then checking else shown_state r.lifecycle_action r.status r.port_verifications)
unfolding observe_external_run
observe_external_run-state r = elim (Bool-cases (active r)) [
  | inl busy ↦ rw busy
  | inr idle ↦ rw idle (observe_counts-state r.lifecycle_action r.status r.port_verifications)
]
