-- ===== src/Runs/Ports/Early.antt =====
-- What ObserveExternalRun of internal/domain/domain.go says of a start while its ports are still polled.
use agent_shell.Base.{
  all, any, all-cons, ◌≡◌, refl, ◌∙◌, Bool, true, false, not, List, [], ◌∷◌, arith,
}
use agent_shell.Runs.Observe.{observe_external_run, down}
use agent_shell.Runs.Observe.Evidence.{
  Shows, shows, is_open, is_closed, is_pending, started_state, observe_external_run-state,
}
use agent_shell.Runs.Ports.{Probe, snapshot_port, snapshot_external_ports, is_waiting}
use agent_shell.Runs.Run.{ExpectedPort, PortVerification, Run, active, start}

-- No port is open yet.
abbrev pub all_shut : Probe → List ExpectedPort → Bool
all_shut probe ps = all (λ p. not (probe p.port p.protocol)) ps

snapshot-unopened :
    (probe : Probe) (ps : List ExpectedPort)
    → all_shut probe ps ≡ true
    → (all (λ v. is_waiting v.status) (snapshot_external_ports probe start ps) ≡ true)
      × (all (λ v. is_closed (shows v)) (snapshot_external_ports probe start ps) ≡ true)
unfolding snapshot_external_ports
snapshot-unopened probe [] h = (refl, refl)
snapshot-unopened probe (p ∷ ps) h =
    let (first, rest) = all-cons (λ p. not (probe p.port p.protocol)) p ps h in
    let (left, shut) = snapshot-unopened probe ps rest in (ground arith, ground arith)

closed-not_open : (s : Shows) → is_closed s ≡ true → is_open s ≡ false
closed-not_open s h = ground arith

closed-not_pending : (s : Shows) → is_closed s ≡ true → is_pending s ≡ false
closed-not_pending s h = ground arith

shut-not_open :
    (v : PortVerification) (vs : List PortVerification)
    → all (λ w. is_closed (shows w)) (v ∷ vs) ≡ true
    → started_state (v ∷ vs) ≡ down
shut-not_open v vs h =
    let (first, rest) = all-cons (λ w. is_closed (shows w)) v vs h in
    let not_open : is_open (shows v) ≡ false = closed-not_open (shows v) first in
    rw (not_open, h) refl

shut-not_pending :
    (vs : List PortVerification)
    → all (λ w. is_closed (shows w)) vs ≡ true
    → any (λ w. is_pending (shows w)) vs ≡ false
shut-not_pending [] h = refl
shut-not_pending (v ∷ vs) h =
    let (first, rest) = all-cons (λ w. is_closed (shows w)) v vs h in
    rw (closed-not_pending (shows v) first) (shut-not_pending vs rest)

-- A start of an external command whose process has ended is taken for stopped as long as its ports
-- have not opened, though each of them is still pending and polled: only a run without a state of its
-- ports would be taken for one that is being checked.
pub observe_external_run-early :
    (probe : Probe) (p : ExpectedPort) (ps : List ExpectedPort) (r : Run)
    → all_shut probe (p ∷ ps) ≡ true
    → active r ≡ false
    → r.lifecycle_action ≡ start
    → r.port_verifications ≡ snapshot_external_ports probe start (p ∷ ps)
    → (all (λ v. is_waiting v.status) r.port_verifications ≡ true)
      × ((observe_external_run r).state ≡ down)
unfolding snapshot_external_ports
observe_external_run-early probe p ps r h idle did saved =
    let (polled, shut) = snapshot-unopened probe (p ∷ ps) h in
    let vs = snapshot_external_ports probe start (p ∷ ps) in
    (
      rw saved polled,
      observe_external_run-state r
          ∙ rw (idle, did, saved)
              (rw (shut-not_pending vs shut) (
                shut-not_open (snapshot_port probe start p) (snapshot_external_ports probe start ps)
                  shut)),
    )
