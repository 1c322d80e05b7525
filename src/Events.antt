-- ===== src/Events.antt =====
-- The event bus of internal/events/bus.go. A channel is the list of the events that wait in it, the
-- oldest first; what a subscriber receives leaves it, which is not a step of the bus.
pub mod Delivery
use agent_shell.Base.{ltb, ◌==◌, if◌then◌else◌, length, keep, ℕ, suc, not, List, [], ◌∷◌, ◌++◌, map}

abbrev pub queue_size : ℕ
queue_size = 32

module _ {ℓ} (Event : Type ℓ) where
  pub record Subscription : Type ℓ where
    pub sub_id : ℕ
    pub queue : List Event

  pub record Bus : Type ℓ where
    pub next_id : ℕ
    pub subs : List Subscription

module _ {ℓ} {Event : Type ℓ} where
  abbrev pub new_bus : Bus Event
  new_bus = record { next_id = 0; subs = [] }

  unfoldable pub subscribe : Bus Event → ℕ × Bus Event
  subscribe b = (
    b.next_id,
    record {
      next_id = suc b.next_id;
      subs = b.subs ++ record { sub_id = b.next_id; queue = [] } ∷ [];
    },
  )

  -- The function that Subscribe returns, called once or more.
  unfoldable pub unsubscribe : ℕ → Bus Event → Bus Event
  unsubscribe id b = record b { subs = keep (λ s. not (s.sub_id == id)) b.subs }

  -- The send that does not block: the event is dropped where the queue is full.
  abbrev pub offer : Event → Subscription Event → Subscription Event
  offer e s = if ltb (length s.queue) queue_size then record s { queue = s.queue ++ e ∷ [] } else s

  unfoldable pub publish_event : Event → Bus Event → Bus Event
  publish_event e b = record b { subs = map (offer e) b.subs }
