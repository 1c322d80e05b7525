-- ===== src/Controller/Leases.antt =====
-- The leases of the MCP clients of internal/lifecycle/controller.go.
use agent_shell.Base.{
  ltb, if◌then◌else◌, Bool-cases, Option-cases, Text, text_eq, text_eq_refl, text_eq_iff, contains,
  Distinct, lookup, insert, keys, lookup-insert, Distinct-insert, lookup_fresh, ok, err, ℕ, ◌+◌,
  ◌≡◌, sym, ap, ◌∙◌, subst, ◌⊎◌, inl, inr, Bool, false, ◌||◌, Option, none, some, List, [], ◌∷◌,
  refl, arith, ◌-◌,
}
use agent_shell.Controller.{
  Controller, McpClient, is_dead, is_gone, prune_clients, prune, heartbeat_mcp, client_not_found,
}

-- A client as a prune leaves it.
abbrev pub left_of : ℕ → ℕ → (ℕ → Bool) → Option McpClient → Option McpClient
left_of ttl now alive none = none
left_of ttl now alive (some client) = if is_gone ttl now alive client then none else some client

lookup-prune_clients :
    (ttl now : ℕ) (alive : ℕ → Bool) (id : Text) (clients : List (Text × McpClient))
    → Distinct (keys clients)
    → lookup id (prune_clients ttl now alive clients).0 ≡ left_of ttl now alive (lookup id clients)
unfolding lookup prune_clients
lookup-prune_clients ttl now alive id [] d = refl
lookup-prune_clients ttl now alive id ((j, client) ∷ clients) (fresh, d) =
    let rest = lookup-prune_clients ttl now alive id clients d in
    elim (Bool-cases (text_eq j id)) [
      | inl same ↦
          let is : j ≡ id = (text_eq_iff j id).0 same in
          let none_left : lookup id clients ≡ none =
            lookup_fresh id clients (subst (λ k. contains (keys clients) k ≡ false) is fresh) in
          let none_kept : lookup id (prune_clients ttl now alive clients).0 ≡ none =
            rest ∙ ap (left_of ttl now alive) none_left in
          elim (Bool-cases (is_gone ttl now alive client)) [
            | inl gone ↦ rw (gone, same, gone) none_kept
            | inr kept ↦ rw (kept, same, kept) refl
          ]
      | inr other ↦ elim (Bool-cases (is_gone ttl now alive client)) [
        | inl gone ↦ rw (gone, other) rest
        | inr kept ↦ rw (kept, other) rest
      ]
    ]

-- What a heartbeat at `beat_at` means for a prune at `now`.
abbrev pub after_beat : ℕ → ℕ → ℕ → (ℕ → Bool) → McpClient → Option McpClient
after_beat ttl beat_at now alive client =
    if ltb (beat_at + ttl) now || is_dead alive client.pid
    then none
    else some (record client { last_seen_at = beat_at })

same_time :
    (ttl beat_at now : ℕ) (alive : ℕ → Bool) (client : McpClient)
    → left_of ttl now alive (some (record client { last_seen_at = beat_at }))
      ≡ after_beat ttl beat_at now alive client
same_time ttl beat_at now alive client =
    let over : ltb ttl (now - beat_at) ≡ ltb (beat_at + ttl) now = ground arith in rw over refl

-- A heartbeat for a client and a later prune, where no id stands twice: an id that the controller has
-- not is an error. A client of the controller is in it after the prune, with the time of the heartbeat
-- and else as it was, exactly if its lease, counted from the heartbeat, is not over and the process
-- that it named, if it named one, lives. Every other client is left by the prune as without the
-- heartbeat.
pub heartbeat_mcp-prune :
    (c : Controller) (id : Text) (beat_at now : ℕ) (alive : ℕ → Bool)
    → Distinct (keys c.clients)
    → ((lookup id c.clients ≡ none) × (heartbeat_mcp id beat_at c ≡ err client_not_found))
      ⊎ (client : McpClient) × (c' : Controller) × (lookup id c.clients ≡ some client)
        × (heartbeat_mcp id beat_at c ≡ ok c')
        × (lookup id (prune now alive c').0.clients
            ≡ after_beat c.lease_ttl beat_at now alive client)
        × ((j : Text)
            → text_eq id j ≡ false
            → lookup j (prune now alive c').0.clients ≡ lookup j (prune now alive c).0.clients)
unfolding heartbeat_mcp
heartbeat_mcp-prune c id beat_at now alive d = elim (Option-cases (lookup id c.clients)) [
  | inl missing ↦ inl (missing, rw missing refl)
  | inr (client, found) ↦
      let seen : McpClient = record client { last_seen_at = beat_at } in
      let clients' = insert id seen c.clients in
      let d' = Distinct-insert id seen c.clients d in
      let same : left_of c.lease_ttl now alive (some seen)
          ≡ after_beat c.lease_ttl beat_at now alive client =
        same_time c.lease_ttl beat_at now alive client in
      let other : (j : Text)
          → text_eq id j ≡ false
          → lookup j (prune now alive (record c { clients = clients' })).0.clients
            ≡ lookup j (prune now alive c).0.clients =
        λ j h.
          lookup-prune_clients c.lease_ttl now alive j clients' d'
          ∙ ap (left_of c.lease_ttl now alive) {y = lookup j c.clients}
              (lookup-insert id j seen c.clients ∙ rw h refl)
          ∙ sym (lookup-prune_clients c.lease_ttl now alive j c.clients d) in
      inr (
        client,
        record c { clients = clients' },
        found,
        rw found refl,
        lookup-prune_clients c.lease_ttl now alive id clients' d'
            ∙ ap (left_of c.lease_ttl now alive) {y = some seen}
                (lookup-insert id id seen c.clients ∙ rw (text_eq_refl id) refl)
            ∙ same,
        other,
      )
]
