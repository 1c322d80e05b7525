-- ===== src/Runs/Ports/Settled.antt =====
-- The polling of ports in internal/runtime/manager.go comes to an end, and what it then has found.
use agent_shell.Base.{
  Bool-cases, or-false, all, any, all-cons, ◌≡◌, refl, inl, inr, Bool, true, false, not, ◌||◌,
  Option, none, some, List, [], ◌∷◌, map, arith,
}
use agent_shell.Runs.Ports.{
  Probe, stops_ports, snapshot_port, snapshot_external_ports, is_waiting, poll_port, poll_ports,
  give_up, Round, verify_external_ports,
}
use agent_shell.Runs.Run.{
  PortState, PortStatus, LifecycleAction, ExpectedPort, PortVerification, listening, closed,
  verified, preexisting, still_listening, port_stopped, unavailable,
}

-- A verification that is over: its status fits the action, and what the port showed last.
abbrev pub settled_as : Bool → PortStatus → PortState → Bool
settled_as true port_stopped closed = true
settled_as true still_listening listening = true
settled_as false verified listening = true
settled_as false preexisting listening = true
settled_as false unavailable closed = true
settled_as halts status state = false

abbrev pub is_settled : LifecycleAction → PortVerification → Bool
is_settled did v = settled_as (stops_ports did) v.status v.current

-- One that is settled or still pending.
abbrev is_begun : LifecycleAction → PortVerification → Bool
is_begun did v = is_waiting v.status || is_settled did v

snapshot_port-begun :
    (probe : Probe) (did : LifecycleAction) (p : ExpectedPort)
    → is_begun did (snapshot_port probe did p) ≡ true
snapshot_port-begun probe did p = ground arith

snapshot-begun :
    (probe : Probe) (did : LifecycleAction) (ps : List ExpectedPort)
    → all (is_begun did) (snapshot_external_ports probe did ps) ≡ true
unfolding snapshot_external_ports
snapshot-begun probe did [] = refl
snapshot-begun probe did (p ∷ ps) =
    rw (snapshot_port-begun probe did p) (snapshot-begun probe did ps)

poll_port-begun :
    (probe : Probe) (did : LifecycleAction) (v : PortVerification)
    → is_begun did v ≡ true
    → is_begun did (poll_port probe did v).0 ≡ true
poll_port-begun probe did v h = ground arith

poll_port-done :
    (probe : Probe) (did : LifecycleAction) (v : PortVerification)
    → is_begun did v ≡ true
    → (poll_port probe did v).1 ≡ false
    → is_settled did (poll_port probe did v).0 ≡ true
poll_port-done probe did v h e = ground arith

give_up-settled :
    (did : LifecycleAction) (v : PortVerification)
    → is_begun did v ≡ true
    → is_settled did (give_up did v) ≡ true
give_up-settled did v h = ground arith

poll_ports-begun :
    (probe : Probe) (did : LifecycleAction) (vs : List PortVerification)
    → all (is_begun did) vs ≡ true
    → all (is_begun did) (poll_ports probe did vs).0 ≡ true
unfolding poll_ports
poll_ports-begun probe did [] h = refl
poll_ports-begun probe did (v ∷ vs) h =
    let (first, rest) = all-cons (is_begun did) v vs h in
    rw (poll_port-begun probe did v first) (poll_ports-begun probe did vs rest)

poll_ports-done :
    (probe : Probe) (did : LifecycleAction) (vs : List PortVerification)
    → all (is_begun did) vs ≡ true
    → (poll_ports probe did vs).1 ≡ false
    → all (is_settled did) (poll_ports probe did vs).0 ≡ true
unfolding poll_ports
poll_ports-done probe did [] h e = refl
poll_ports-done probe did (v ∷ vs) h e =
    let (first, rest) = all-cons (is_begun did) v vs h in
    let (one, others) = or-false (poll_port probe did v).1 (poll_ports probe did vs).1 e in
    rw (poll_port-done probe did v first one) (poll_ports-done probe did vs rest others)

map-give_up :
    (did : LifecycleAction) (vs : List PortVerification)
    → all (is_begun did) vs ≡ true
    → all (is_settled did) (map (give_up did) vs) ≡ true
map-give_up did [] h = refl
map-give_up did (v ∷ vs) h =
    let (first, rest) = all-cons (is_begun did) v vs h in
    rw (give_up-settled did v first) (map-give_up did vs rest)

-- The verifications are over: each is settled.
abbrev pub IsOver : LifecycleAction → Option (List PortVerification) → Type 0
IsOver did none = ⊥
IsOver did (some vs) = all (is_settled did) vs ≡ true

verify-IsOver :
    (rs : List Round) (did : LifecycleAction) (vs : List PortVerification)
    → all (is_begun did) vs ≡ true
    → any (λ r. r.late) rs ≡ true
    → all (λ r. not r.shut) rs ≡ true
    → IsOver did (verify_external_ports rs did vs)
unfolding verify_external_ports
verify-IsOver [] did vs h late open_all = cc
verify-IsOver (r ∷ rs) did vs h late open_all = elim (Bool-cases (poll_ports r.probe did vs).1) [
  | inr done ↦ rw done (poll_ports-done r.probe did vs h done)
  | inl left ↦ elim (Bool-cases r.late) [
    | inl past ↦
        rw (left, past)
          (map-give_up did (poll_ports r.probe did vs).0 (poll_ports-begun r.probe did vs h))
    | inr early ↦
        let (first, rest) = all-cons (λ r. not r.shut) r rs open_all in
        let open_now : r.shut ≡ false = ground arith in
        rw (left, early, open_now)
          (verify-IsOver rs did (poll_ports r.probe did vs).0 (poll_ports-begun r.probe did vs h)
            (ground arith) rest)
  ]
]

-- From the snapshot on, the polling of the ports of an external command ends at the latest with the
-- first round behind the deadline, as long as the manager is not closed. Each port is then settled:
-- after a stop as stopped and closed or as still listening, and after a start as verified or
-- preexisting and listening or as unavailable and closed.
pub verify_external_ports-IsOver :
    (rs : List Round) (did : LifecycleAction) (probe : Probe) (ps : List ExpectedPort)
    → any (λ r. r.late) rs ≡ true
    → all (λ r. not r.shut) rs ≡ true
    → IsOver did (verify_external_ports rs did (snapshot_external_ports probe did ps))
verify_external_ports-IsOver rs did probe ps late open_all =
    verify-IsOver rs did (snapshot_external_ports probe did ps) (snapshot-begun probe did ps) late
      open_all
