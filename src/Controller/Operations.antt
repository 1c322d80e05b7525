-- ===== src/Controller/Operations.antt =====
-- The operations of the controller of internal/lifecycle/controller.go, in any order.
use agent_shell.Base.{
  ok-injective, if◌then◌else◌, ℤ, length, Text, ok, ℕ, ◌≤◌, ◌≡◌, Bool, true, false, List, [], ◌∷◌,
  ◌++◌, refl, arith, ◌∙◌, sym, Option-cases, lookup, insert, inl, inr, not,
}
use agent_shell.Controller.{
  Controller, accepting_commands, snapshot, register_mcp, heartbeat_mcp, unregister_mcp,
  request_shutdown, timer_sends, receive_shutdown, mark_stopped, close, reap, McpClient,
}

abbrev pub granted_reason : Text → Bool → List Text
granted_reason reason granted = if granted then reason ∷ [] else []

-- A run of operations, with the reasons for which RequestShutdown has returned true and those that have
-- been received, both in their order.
pub data Steps (c : Controller) : List Text → List Text → Controller → Type 0 where
  start : Steps c [] [] c
  requests :
      {granted received : List Text} {d : Controller} (reason : Text)
      → Steps c granted received d
      → Steps c
          (granted ++ granted_reason reason (request_shutdown reason d).1)
          received
          (request_shutdown reason d).0
  sends :
      {granted received : List Text} {d : Controller}
      → Steps c granted received d
      → Steps c granted received (timer_sends d)
  receives :
      {granted received : List Text} {d : Controller}
      → Steps c granted received d
      → Steps c granted (received ++ (receive_shutdown d).1) (receive_shutdown d).0
  marks :
      {granted received : List Text} {d : Controller}
      → Steps c granted received d
      → Steps c granted received (mark_stopped d).0
  closes :
      {granted received : List Text} {d : Controller}
      → Steps c granted received d
      → Steps c granted received (close d)
  reaps :
      {granted received : List Text} {d : Controller} (now : ℕ) (alive : ℕ → Bool)
      → Steps c granted received d
      → Steps c granted received (reap now alive d).0
  shows :
      {granted received : List Text} {d : Controller} (now later : ℕ) (alive : ℕ → Bool) (runs : ℕ)
      → Steps c granted received d
      → Steps c granted received (snapshot now later alive runs d).0
  registers :
      {granted received : List Text} {d : Controller} (name : Text) (pid : ℤ) (id : Text) (now : ℕ)
      → Steps c granted received d
      → Steps c granted received (register_mcp name pid id now d).0
  beats :
      {granted received : List Text} {d d' : Controller} (id : Text) (now : ℕ)
      → Steps c granted received d
      → heartbeat_mcp id now d ≡ ok d'
      → Steps c granted received d'
  unregisters :
      {granted received : List Text} {d : Controller} (id : Text)
      → Steps c granted received d
      → Steps c granted received (unregister_mcp id d).0

abbrev pub has_no : List Text → Bool
has_no [] = true
has_no (reason ∷ reasons) = false

-- Each reason for which a request was granted is on its way or has been received.
pub record IsOrderly (granted received : List Text) (c : Controller) : Type 0 where
  pub once : length granted ≤ 1
  pub sent : granted ≡ received ++ (c.shutdown ++ c.timers)
  pub asked : has_no granted ≡ not c.shutdown_done
  pub refuses : c.shutdown_done ≡ true → accepting_commands c ≡ false

-- What a heartbeat leaves as it is.
pub heartbeat_mcp-ok :
    (c c' : Controller) (id : Text) (now : ℕ)
    → heartbeat_mcp id now c ≡ ok c'
    → (clients : List (Text × McpClient)) × (c' ≡ record c { clients = clients })
unfolding heartbeat_mcp
heartbeat_mcp-ok c c' id now e = elim (Option-cases (lookup id c.clients)) [
  | inl missing ↦ absurd (ground (arith, e, missing))
  | inr (client, found) ↦
      let is : ok
            (record c { clients = insert id (record client { last_seen_at = now }) c.clients })
          ≡ ok c' =
        sym (rw found refl) ∙ e in
      (
        insert id (record client { last_seen_at = now }) c.clients,
        sym (
            ok-injective
              (record c { clients = insert id (record client { last_seen_at = now }) c.clients }) c'
              is),
      )
]
