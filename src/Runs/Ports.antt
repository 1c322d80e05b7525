-- ===== src/Runs/Ports.antt =====
-- snapshotExternalPorts and verifyExternalPorts of internal/runtime/manager.go: the ports of an
-- external command are looked at before it runs and polled after it. What platform.PortOpen answers,
-- by port and protocol, is an argument; confidence and times are left out.
pub mod Settled
pub mod Early
use agent_shell.Base.{
  if◌then◌else◌, Text, ℕ, Bool, true, false, not, ◌&&◌, ◌||◌, Option, none, some, List, [], ◌∷◌,
  map,
}
use agent_shell.Runs.Run.{
  PortState, PortStatus, LifecycleAction, ExpectedPort, PortVerification, listening, closed,
  other_state, pending, verified, preexisting, still_listening, port_stopped, unavailable,
  stop_action,
}

abbrev pub Probe : Type 0
Probe = ℕ → Text → Bool

abbrev pub stops_ports : LifecycleAction → Bool
stops_ports stop_action = true
stops_ports _ = false

abbrev pub port_state : Bool → PortState
port_state true = listening
port_state false = closed

abbrev snapshot_status : Bool → Bool → PortStatus
snapshot_status true false = port_stopped
snapshot_status true true = pending
snapshot_status false true = preexisting
snapshot_status false false = pending

-- `other_state` is the empty text.
abbrev snapshot_after : Bool → Bool → PortState
snapshot_after true false = closed
snapshot_after true true = other_state
snapshot_after false true = listening
snapshot_after false false = other_state

abbrev pub snapshot_port : Probe → LifecycleAction → ExpectedPort → PortVerification
snapshot_port probe did p =
    let open_now = probe p.port p.protocol in
    record {
      port = p.port;
      protocol = p.protocol;
      before = port_state open_now;
      after = snapshot_after (stops_ports did) open_now;
      current = port_state open_now;
      status = snapshot_status (stops_ports did) open_now;
    }

unfoldable pub snapshot_external_ports :
    Probe → LifecycleAction → List ExpectedPort → List PortVerification
snapshot_external_ports probe did [] = []
snapshot_external_ports probe did (p ∷ ps) =
    snapshot_port probe did p ∷ snapshot_external_ports probe did ps

abbrev pub is_waiting : PortStatus → Bool
is_waiting pending = true
is_waiting _ = false

abbrev pub settle_port : PortState → PortStatus → PortVerification → PortVerification
settle_port state status v = record v { after = state; current = state; status = status }

-- The body of the inner loop: the verification, and whether it is still pending.
abbrev pub poll_port : Probe → LifecycleAction → PortVerification → PortVerification × Bool
poll_port probe did v =
    if not (is_waiting v.status)
    then (v, false)
    else if stops_ports did && not (probe v.port v.protocol)
    then (settle_port closed port_stopped v, false)
    else if not (stops_ports did) && probe v.port v.protocol
    then (settle_port listening verified v, false)
    else (v, true)

unfoldable pub poll_ports :
    Probe → LifecycleAction → List PortVerification → List PortVerification × Bool
poll_ports probe did [] = ([], false)
poll_ports probe did (v ∷ vs) =
    let (vs', left) = poll_ports probe did vs in
    let (v', wait) = poll_port probe did v in (v' ∷ vs', wait || left)

-- The loop at the deadline.
abbrev pub give_up : LifecycleAction → PortVerification → PortVerification
give_up did v =
    if not (is_waiting v.status)
    then v
    else if stops_ports did
    then settle_port listening still_listening v
    else settle_port closed unavailable v

-- One round of the outer loop: what the ports answer, whether the deadline is over after it, and
-- whether the manager is closed before the next one.
pub record Round : Type 0 where
  pub probe : Probe
  pub late : Bool
  pub shut : Bool

-- The verifications that are saved at the end; none where the manager is closed before, or where the
-- rounds that are given are over.
unfoldable pub verify_external_ports :
    List Round → LifecycleAction → List PortVerification → Option (List PortVerification)
unfolding poll_ports
verify_external_ports [] did vs = none
verify_external_ports (r ∷ rs) did vs =
    let (vs', left) = poll_ports r.probe did vs in
    let next = verify_external_ports rs did vs' in
    if not left || r.late
    then some (if left then map (give_up did) vs' else vs')
    else if r.shut
    then none
    else next
