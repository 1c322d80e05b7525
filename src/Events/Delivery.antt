-- ===== src/Events/Delivery.antt =====
-- What waits for a subscriber.
use agent_shell.Base.{
  ltb, Bool-cases, length, ℕ, zero, suc, ◌≤◌, ◌≡◌, refl, ap, inl, inr, List, [], ◌∷◌, ◌++◌, arith,
  ltb→lt, length-append, All, sym, ◌∙◌, true, false, map, append_assoc, append-nil,
}
use agent_shell.Events.{Subscription, Bus, queue_size, offer, publish_event}

module _ {ℓ} {Event : Type ℓ} where
  abbrev pub publish_all : List Event → Bus Event → Bus Event
  publish_all [] b = b
  publish_all (e ∷ es) b = publish_all es (publish_event e b)

  -- The first `n` of a list.
  abbrev pub first_of : ℕ → List Event → List Event
  first_of zero es = []
  first_of (suc n) [] = []
  first_of (suc n) (e ∷ es) = e ∷ first_of n es

  -- A subscription that has received nothing since it was made.
  abbrev pub holding : List Event → Subscription Event → Subscription Event
  holding es s = record s { queue = first_of queue_size (s.queue ++ es) }

  first_of-short : (n : ℕ) (es : List Event) → length es ≤ n → first_of n es ≡ es
  first_of-short zero [] h = refl
  first_of-short zero (e ∷ es) h = absurd (omega (arith, h))
  first_of-short (suc n) [] h = refl
  first_of-short (suc n) (e ∷ es) h = ap (λ xs. e ∷ xs) (first_of-short n es (omega (arith, h)))

  first_of-full : (n : ℕ) (es more : List Event) → length es ≡ n → first_of n (es ++ more) ≡ es
  first_of-full zero [] more h = refl
  first_of-full zero (e ∷ es) more h = absurd (omega (arith, h))
  first_of-full (suc n) [] more h = absurd (omega (arith, h))
  first_of-full (suc n) (e ∷ es) more h =
      ap (λ xs. e ∷ xs) (first_of-full n es more (omega (arith, h)))

  with_room :
      (e : Event) (es : List Event) (s : Subscription Event)
      → ltb (length s.queue) queue_size ≡ true
      → (holding es (offer e s) ≡ holding (e ∷ es) s) × (length (offer e s).queue ≤ queue_size)
  with_room e es s room =
      let longer = length-append s.queue (e ∷ []) in
      rw room (
        ap (λ q. record s { queue = first_of queue_size q }) (append_assoc s.queue (e ∷ []) es),
        omega (arith, longer, ltb→lt (length s.queue) queue_size room),
      )

  without_room :
      (e : Event) (es : List Event) (s : Subscription Event)
      → length s.queue ≡ queue_size
      → ltb (length s.queue) queue_size ≡ false
      → (holding es (offer e s) ≡ holding (e ∷ es) s) × (length (offer e s).queue ≤ queue_size)
  without_room e es s size full = rw full (
    ap (λ q. record s { queue = q })
        (first_of-full queue_size s.queue es size
          ∙ sym (first_of-full queue_size s.queue (e ∷ es) size)),
    omega (arith, size),
  )

  offered :
      (e : Event) (es : List Event) (s : Subscription Event)
      → length s.queue ≤ queue_size
      → (holding es (offer e s) ≡ holding (e ∷ es) s) × (length (offer e s).queue ≤ queue_size)
  offered e es s h = elim (Bool-cases (ltb (length s.queue) queue_size)) [
    | inl room ↦ with_room e es s room
    | inr full ↦ without_room e es s (ground (arith, h, full)) full
  ]

  abbrev pub Bounded1 : List (Subscription Event) → Type 0
  Bounded1 subs = All (λ s. length s.queue ≤ queue_size) subs

  offered_all :
      (e : Event) (es : List Event) (subs : List (Subscription Event))
      → Bounded1 subs
      → (map (holding es) (map (offer e) subs) ≡ map (holding (e ∷ es)) subs)
        × Bounded1 (map (offer e) subs)
  offered_all e es [] h = (refl, tt)
  offered_all e es (s ∷ subs) (h, hs) =
      let (same, short) = offered e es s h in
      let (rest, rest_short) = offered_all e es subs hs in
      (rw (same, rest) refl, (short, rest_short))

  holding_none : (subs : List (Subscription Event)) → Bounded1 subs → map (holding []) subs ≡ subs
  holding_none [] h = refl
  holding_none (s ∷ subs) (h, hs) =
      let same : first_of queue_size (s.queue ++ []) ≡ s.queue =
        ap (first_of queue_size) (append-nil s.queue) ∙ first_of-short queue_size s.queue h in
      rw (same, holding_none subs hs) refl

  -- Where no queue is over its size, publishing events one after the other leaves each subscriber that
  -- receives nothing meanwhile with its queue and the events behind it, in their order, cut at the size
  -- of the queue: what is over is dropped, and a full queue keeps no other subscriber from its events.
  pub publish_all-holding :
      (es : List Event) (b : Bus Event)
      → Bounded1 b.subs
      → (publish_all es b).subs ≡ map (holding es) b.subs
  unfolding publish_event
  publish_all-holding [] b h = sym (holding_none b.subs h)
  publish_all-holding (e ∷ es) b h =
      let (same, short) = offered_all e es b.subs h in
      publish_all-holding es (publish_event e b) short ∙ same
