-- ===== src/Controller/Shutdown.antt =====
-- What a request to shut down comes to, by internal/lifecycle/controller.go.
use agent_shell.Base.{
  length, Text, ◌≤◌, ◌≡◌, Bool, true, false, List, [], ◌∷◌, ◌++◌, refl, arith, ap, ◌∙◌, sym, ltb,
  Bool-cases, inl, inr, length-append, ◌+◌, ◌⊎◌, not, ◌||◌,
}
use agent_shell.Controller.{
  Controller, accepting_commands, snapshot, register_mcp, unregister_mcp, request_shutdown,
  timer_sends, receive_shutdown, mark_stopped, close, reap, request_once, send_next, receive_next,
  InstanceRecord, new_controller,
}
use agent_shell.Controller.Operations.{
  Steps, has_no, IsOrderly, heartbeat_mcp-ok, start, requests, sends, receives, marks, closes,
  reaps, shows, registers, beats, unregisters,
}
use agent_shell.Controller.Orderly.{Steps-IsOrderly}

kept_refusing :
    (c d : Controller) (e : Bool)
    → (accepting_commands c || not (accepting_commands d)) ≡ true
    → (e ≡ accepting_commands d) ⊎ (e ≡ false)
    → (accepting_commands c || not e) ≡ true
kept_refusing c d e h k = ground (arith, h, k)

requested_accepts :
    (reason : Text) (c : Controller) (done : Bool)
    → (accepting_commands (request_once reason c done).0 ≡ accepting_commands c)
      ⊎ (accepting_commands (request_once reason c done).0 ≡ false)
unfolding accepting_commands
requested_accepts reason c true = inl refl
requested_accepts reason c false = inr refl

sent_accepts :
    (c : Controller) (timers : List Text)
    → accepting_commands (send_next c timers) ≡ accepting_commands c
unfolding accepting_commands
sent_accepts c [] = refl
sent_accepts c (reason ∷ timers) = elim (Bool-cases (ltb (length c.shutdown) 1)) [
  | inr full ↦ rw full refl
  | inl room ↦ rw room refl
]

received_accepts :
    (c : Controller) (queue : List Text)
    → accepting_commands (receive_next c queue).0 ≡ accepting_commands c
unfolding accepting_commands
received_accepts c [] = refl
received_accepts c (reason ∷ rest) = refl

-- A controller that refuses commands refuses them from then on.
Steps-refuses :
    {c d : Controller} {granted received : List Text}
    → Steps c granted received d
    → (accepting_commands c || not (accepting_commands d)) ≡ true
unfolding request_shutdown timer_sends receive_shutdown mark_stopped close accepting_commands reap
    snapshot register_mcp unregister_mcp
Steps-refuses start = ground arith
Steps-refuses {c} (requests {granted} {received} {d} reason s) =
    kept_refusing c d (accepting_commands (request_once reason d d.shutdown_done).0)
      (Steps-refuses s) (requested_accepts reason d d.shutdown_done)
Steps-refuses {c} (sends {granted} {received} {d} s) =
    kept_refusing c d (accepting_commands (send_next d d.timers)) (Steps-refuses s)
      (inl (sent_accepts d d.timers))
Steps-refuses {c} (receives {granted} {received} {d} s) =
    kept_refusing c d (accepting_commands (receive_next d d.shutdown).0) (Steps-refuses s)
      (inl (received_accepts d d.shutdown))
Steps-refuses {c} (marks {granted} {received} {d} s) =
    kept_refusing c d false (Steps-refuses s) (inr refl)
Steps-refuses (closes s) = Steps-refuses s
Steps-refuses (reaps now alive s) = Steps-refuses s
Steps-refuses (shows now later alive runs s) = Steps-refuses s
Steps-refuses (registers name pid id now s) = Steps-refuses s
Steps-refuses (unregisters id s) = Steps-refuses s
Steps-refuses {c} (beats {granted} {received} {d} {d'} id now s e) =
    let (clients, is) = heartbeat_mcp-ok d d' id now e in
    kept_refusing c d (accepting_commands d') (Steps-refuses s) (inl (ap accepting_commands is))

answered :
    (reason : Text) (c : Controller) (done : Bool) → (request_once reason c done).1 ≡ not done
answered reason c true = refl
answered reason c false = refl

answer :
    (c : Controller) (granted : List Text)
    → has_no granted ≡ not c.shutdown_done
    → (reason : Text) → (request_shutdown reason c).1 ≡ has_no granted
unfolding request_shutdown
answer c granted h reason = answered reason c c.shutdown_done ∙ sym h

-- From the start of the Runtime on, whatever operations of the controller follow each other: at most
-- one request to shut down is granted; its reason waits for its timer or in the channel, or has been
-- received, and no other reason ever was there, so that the timer never waits for room; the next
-- request is granted exactly if none was; and from a granted request on no commands are accepted.
-- Whatever operations follow later, where commands are refused they stay refused.
pub request_shutdown-IsOrderly :
    (r : InstanceRecord) (path : Text) (bus : Bool) {c d : Controller}
    {granted received more_granted more_received : List Text}
    → Steps (new_controller r path bus) granted received c
    → Steps c more_granted more_received d
    → IsOrderly granted received c
      × (length (c.shutdown ++ c.timers) ≤ 1)
      × ((reason : Text) → (request_shutdown reason c).1 ≡ has_no granted)
      × ((accepting_commands c || not (accepting_commands d)) ≡ true)
unfolding new_controller accepting_commands
request_shutdown-IsOrderly r path bus {c} {granted = granted} {received} s later =
    let h =
      Steps-IsOrderly
        (record { once = omega arith; sent = refl; asked = refl; refuses = λ asked. absurd cc })
        s in
    let size : length granted ≡ length received + length (c.shutdown ++ c.timers) =
      ap length h.sent ∙ length-append received (c.shutdown ++ c.timers) in
    (h, omega (arith, size, h.once), answer c granted h.asked, Steps-refuses later)
