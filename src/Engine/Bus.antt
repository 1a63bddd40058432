-- ===== src/Engine/Bus.antt =====
-- core/engine/events.go: `EventBus`. A channel is its identity, its buffer and what it holds; the
-- channels are in the order in which Go visits the map. `closed` holds the channels that were
-- closed, `next` is the identity of the next `make(chan Event)`, and `panicked` says whether a
-- closed channel was sent to or closed again.
pub mod Runs
use sora_client.Prelude.{
  ℕ, zero, suc, ◌+◌, Bool, true, false, ◌||◌, not, List, [], ◌∷◌, ◌++◌, length, keep, any, ltb,
  ◌==◌, u64, if◌then◌else◌,
}
use sora_client.Engine.Events.{Event}

pub record Channel : Type 0 where
  pub id : ℕ
  pub buffer : ℕ
  pub held : List Event

-- `dropped` is the 64 bits of an int64.
pub record EventBus : Type 0 where
  pub subs : List Channel
  pub dropped : ℕ
  pub queue : ℕ
  pub closed : List ℕ
  pub next : ℕ
  pub panicked : Bool

unfoldable pub new_bus : ℕ → EventBus
new_bus queue_len = record {
  subs = [];
  dropped = 0;
  queue = if queue_len == 0 then 64 else queue_len;
  closed = [];
  next = 0;
  panicked = false;
}

abbrev pub member : ℕ → List ℕ → Bool
member id = any (λ k. k == id)

-- `case ch <- ev`
abbrev pub offer : Event → Channel → Channel
offer ev c = if ltb (length c.held) c.buffer then record c { held = c.held ++ ev ∷ [] } else c

unfoldable pub publish_loop : Event → List Channel → EventBus → EventBus
publish_loop ev [] b = b
publish_loop ev (c ∷ rest) b =
    let b1 = publish_loop ev rest b in
    record b1 {
      subs = offer ev c ∷ b1.subs;
      dropped = if ltb (length c.held) c.buffer then b1.dropped else u64 (b1.dropped + 1);
      panicked = b1.panicked || member c.id b.closed;
    }

-- `Publish`; `now` is what the clock reads.
unfoldable pub publish : ℕ → Event → EventBus → EventBus
unfolding publish_loop
publish now ev b =
    publish_loop (record ev { at = if ev.at == 0 then now else ev.at }) b.subs
      (record b { subs = [] })

-- `Subscribe`
unfoldable pub subscribe : EventBus → EventBus
subscribe b = record b {
  subs = record { id = b.next; buffer = b.queue; held = [] } ∷ b.subs;
  next = b.next + 1;
}

abbrev pub registered : ℕ → List Channel → Bool
registered id = any (λ c. c.id == id)

-- The function that `Subscribe` returns.
unfoldable pub unsubscribe : ℕ → EventBus → EventBus
unsubscribe id b =
    if registered id b.subs
    then record b {
      subs = keep (λ c. not (c.id == id)) b.subs;
      closed = id ∷ b.closed;
      panicked = b.panicked || member id b.closed;
    }
    else b
