-- ===== src/Controller/Orderly.antt =====
-- The one request to shut down, along the operations of the controller of
-- internal/lifecycle/controller.go.
use agent_shell.Base.{
  length, Text, ◌≡◌, Bool, true, false, List, [], ◌∷◌, ◌++◌, refl, arith, ap, ◌∙◌, sym, ltb,
  Bool-cases, subst, inl, inr, append_assoc, append-nil, not,
}
use agent_shell.Controller.{
  Controller, accepting_commands, snapshot, register_mcp, unregister_mcp, request_shutdown,
  timer_sends, receive_shutdown, mark_stopped, close, reap, McpClient, prune, request_once,
  send_next, receive_next,
}
use agent_shell.Controller.Operations.{
  Steps, granted_reason, has_no, IsOrderly, heartbeat_mcp-ok, start, requests, sends, receives,
  marks, closes, reaps, shows, registers, beats, unregisters,
}

has_no→nil : (s : List Text) → has_no s ≡ true → s ≡ []
has_no→nil [] h = refl
has_no→nil (x ∷ s) h = absurd cc

requested :
    (granted received : List Text) (c : Controller) (reason : Text) (done : Bool)
    → c.shutdown_done ≡ done
    → IsOrderly granted received c
    → IsOrderly
        (granted ++ granted_reason reason (request_once reason c done).1)
        received
        (request_once reason c done).0
unfolding accepting_commands
requested granted received c reason true e h =
    subst (λ g. IsOrderly g received c) (sym (append-nil granted)) h
requested granted received c reason false e h =
    let none_before : granted ≡ [] = has_no→nil granted (h.asked ∙ ap not e) in
    record {
      once = rw none_before (ground arith);
      sent =
          ap (λ g. g ++ reason ∷ []) h.sent
          ∙ append_assoc received (c.shutdown ++ c.timers) (reason ∷ [])
          ∙ ap (λ l. received ++ l) (append_assoc c.shutdown c.timers (reason ∷ []));
      asked = rw none_before refl;
      refuses = λ _. refl;
    }

sent_next :
    (granted received : List Text) (c : Controller) (timers : List Text)
    → c.timers ≡ timers
    → IsOrderly granted received c
    → IsOrderly granted received (send_next c timers)
unfolding accepting_commands
sent_next granted received c [] e h = h
sent_next granted received c (reason ∷ timers) e h = elim (Bool-cases (ltb (length c.shutdown) 1)) [
  | inr full ↦ rw full h
  | inl room ↦ rw room (record {
    once = h.once;
    sent =
        h.sent
        ∙ ap (λ t. received ++ (c.shutdown ++ t)) e
        ∙ ap (λ l. received ++ l) (sym (append_assoc c.shutdown (reason ∷ []) timers));
    asked = h.asked;
    refuses = h.refuses;
  })
]

received_next :
    (granted received : List Text) (c : Controller) (queue : List Text)
    → c.shutdown ≡ queue
    → IsOrderly granted received c
    → IsOrderly granted (received ++ (receive_next c queue).1) (receive_next c queue).0
unfolding accepting_commands
received_next granted received c [] e h =
    subst (λ r. IsOrderly granted r c) (sym (append-nil received)) h
received_next granted received c (reason ∷ rest) e h = record {
  once = h.once;
  sent =
      h.sent
      ∙ ap (λ q. received ++ (q ++ c.timers)) e
      ∙ sym (append_assoc received (reason ∷ []) (rest ++ c.timers));
  asked = h.asked;
  refuses = h.refuses;
}

IsOrderly-mark_stopped :
    (granted received : List Text) (c : Controller)
    → IsOrderly granted received c
    → IsOrderly granted received (mark_stopped c).0
unfolding mark_stopped accepting_commands
IsOrderly-mark_stopped granted received c h = record {
  once = h.once;
  sent = h.sent;
  asked = h.asked;
  refuses = λ _. refl;
}

with_clients :
    (granted received : List Text) (c : Controller) (clients : List (Text × McpClient))
    → IsOrderly granted received c
    → IsOrderly granted received (record c { clients = clients })
unfolding accepting_commands
with_clients granted received c clients h = record {
  once = h.once;
  sent = h.sent;
  asked = h.asked;
  refuses = h.refuses;
}

pub Steps-IsOrderly :
    {c d : Controller} {granted received : List Text}
    → IsOrderly [] [] c
    → Steps c granted received d
    → IsOrderly granted received d
unfolding request_shutdown timer_sends receive_shutdown close accepting_commands reap snapshot
    register_mcp unregister_mcp
Steps-IsOrderly h start = h
Steps-IsOrderly h (requests {granted} {received} {d} reason s) =
    requested granted received d reason d.shutdown_done refl (Steps-IsOrderly h s)
Steps-IsOrderly h (sends {granted} {received} {d} s) =
    sent_next granted received d d.timers refl (Steps-IsOrderly h s)
Steps-IsOrderly h (receives {granted} {received} {d} s) =
    received_next granted received d d.shutdown refl (Steps-IsOrderly h s)
Steps-IsOrderly h (marks {granted} {received} {d} s) =
    IsOrderly-mark_stopped granted received d (Steps-IsOrderly h s)
Steps-IsOrderly h (closes s) =
    let h' = Steps-IsOrderly h s in
    record { once = h'.once; sent = h'.sent; asked = h'.asked; refuses = h'.refuses }
Steps-IsOrderly h (reaps {granted} {received} {d} now alive s) =
    with_clients granted received d (prune now alive d).0.clients (Steps-IsOrderly h s)
Steps-IsOrderly h (shows {granted} {received} {d} now later alive runs s) =
    with_clients granted received d (prune now alive d).0.clients (Steps-IsOrderly h s)
Steps-IsOrderly h (registers {granted} {received} {d} name pid id now s) =
    with_clients granted received d (register_mcp name pid id now d).0.clients (Steps-IsOrderly h s)
Steps-IsOrderly h (unregisters {granted} {received} {d} id s) =
    with_clients granted received d (unregister_mcp id d).0.clients (Steps-IsOrderly h s)
Steps-IsOrderly h (beats {granted} {received} {d} {d'} id now s e) =
    let (clients, is) = heartbeat_mcp-ok d d' id now e in
    subst (λ k. IsOrderly granted received k) (sym is)
      (with_clients granted received d clients (Steps-IsOrderly h s))
