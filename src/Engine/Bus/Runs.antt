-- ===== src/Engine/Bus/Runs.antt =====
-- core/engine/events.go: what every use of an event bus keeps.
use sora_client.Prelude.{
  ℕ, ◌+◌, ◌≤◌, ◌<◌, ◌≡◌, refl, sym, true, false, not, Bool-cases, inl, inr, List, [], ◌∷◌, arith,
  length, length-append, keep, ltb, ◌==◌, if◌then◌else◌,
}
use sora_client.Engine.Events.{Event}
use sora_client.Engine.Bus.{
  Channel, EventBus, new_bus, member, offer, publish_loop, publish, subscribe, registered,
  unsubscribe,
}

pub data Op : Type 0 where
  publishes : ℕ → Event → Op
  subscribes : Op
  unsubscribes : ℕ → Op

unfoldable pub apply : Op → EventBus → EventBus
unfolding publish subscribe unsubscribe
apply (publishes now ev) b = publish now ev b
apply subscribes b = subscribe b
apply (unsubscribes id) b = unsubscribe id b

pub run : List Op → EventBus → EventBus
unfolding apply
run [] b = b
run (o ∷ os) b = run os (apply o b)

-- Channels made before `next`, not closed, and not fuller than their buffers.
abbrev AllOpen : ℕ → List ℕ → List Channel → Type 0
AllOpen next closed [] = Unit
AllOpen next closed (c ∷ rest) =
    (c.id < next)
    × ((member c.id closed ≡ false) × ((length c.held ≤ c.buffer) × AllOpen next closed rest))

abbrev AllBelow : ℕ → List ℕ → Type 0
AllBelow next [] = Unit
AllBelow next (k ∷ rest) = (k < next) × AllBelow next rest

-- No closed channel was used, and the registered channels are open and within their buffers.
abbrev pub IsSound : EventBus → Type 0
IsSound b = (b.panicked ≡ false) × (AllOpen b.next b.closed b.subs × AllBelow b.next b.closed)

member-below : (next : ℕ) (ks : List ℕ) → AllBelow next ks → member next ks ≡ false
member-below next [] h = refl
member-below next (k ∷ rest) h = let q = h.0 in ground (arith, member-below next rest h.1)

AllBelow-suc : (next : ℕ) (ks : List ℕ) → AllBelow next ks → AllBelow (next + 1) ks
AllBelow-suc next [] h = tt
AllBelow-suc next (k ∷ rest) (q, h) = (omega arith, AllBelow-suc next rest h)

AllOpen-suc :
    (next : ℕ) (closed : List ℕ) (cs : List Channel)
    → AllOpen next closed cs
    → AllOpen (next + 1) closed cs
AllOpen-suc next closed [] h = tt
AllOpen-suc next closed (c ∷ rest) (q, (o, (l, h))) =
    (omega arith, (o, (l, AllOpen-suc next closed rest h)))

publish_loop-same :
    (ev : Event) (cs : List Channel) (b : EventBus)
    → let b1 = publish_loop ev cs b in (b1.next ≡ b.next) × (b1.closed ≡ b.closed)
unfolding publish_loop
publish_loop-same ev [] b = (refl, refl)
publish_loop-same ev (c ∷ rest) b = publish_loop-same ev rest b

offered :
    (ev : Event) (c : Channel) (b : EventBus) (rest : List Channel)
    → c.id < b.next
    → member c.id b.closed ≡ false
    → length c.held ≤ c.buffer
    → AllOpen b.next b.closed rest
    → AllOpen b.next b.closed (offer ev c ∷ rest)
offered ev c b rest q o l h = elim (Bool-cases (ltb (length c.held) c.buffer)) [
  | inl y ↦ rw y (q, (o, (rw length-append (ground arith), h)))
  | inr n ↦ rw n (q, (o, (l, h)))
]

publish_loop-open :
    (ev : Event) (cs : List Channel) (b : EventBus)
    → b.panicked ≡ false
    → b.subs ≡ []
    → AllOpen b.next b.closed cs
    → let b1 = publish_loop ev cs b in (b1.panicked ≡ false) × AllOpen b.next b.closed b1.subs
unfolding publish_loop
publish_loop-open ev [] b p e h = (p, rw e tt)
publish_loop-open ev (c ∷ rest) b p e (q, (o, (l, h))) =
    let (p1, h1) = publish_loop-open ev rest b p e h in
    (ground arith, offered ev c b (publish_loop ev rest b).subs q o l h1)

AllOpen-closed :
    (next id : ℕ) (closed : List ℕ) (cs : List Channel)
    → AllOpen next closed cs
    → AllOpen next (id ∷ closed) (keep (λ c. not (c.id == id)) cs)
AllOpen-closed next id closed [] h = tt
AllOpen-closed next id closed (c ∷ rest) (q, (o, (l, h))) = elim (Bool-cases (c.id == id)) [
  | inl y ↦ rw y (AllOpen-closed next id closed rest h)
  | inr n ↦ rw n (q, (ground arith, (l, AllOpen-closed next id closed rest h)))
]

registered-below :
    (next id : ℕ) (closed : List ℕ) (cs : List Channel)
    → AllOpen next closed cs
    → registered id cs ≡ true
    → (id < next) × (member id closed ≡ false)
registered-below next id closed [] h r = absurd (ground arith)
registered-below next id closed (c ∷ rest) (q, (o, (l, h))) r = elim (Bool-cases (c.id == id)) [
  | inl y ↦ let e : c.id ≡ id = ground arith in rw (sym e) (q, o)
  | inr n ↦ registered-below next id closed rest h (ground arith)
]

publish-IsSound : (now : ℕ) (ev : Event) (b : EventBus) → IsSound b → IsSound (publish now ev b)
unfolding publish
publish-IsSound now ev b (p, (h, k)) =
    let stamped = record ev { at = if ev.at == 0 then now else ev.at } in
    let start = record b { subs = [] } in
    let (next, closed) = publish_loop-same stamped b.subs start in
    let (p1, h1) = publish_loop-open stamped b.subs start p refl h in
    rw (next, closed) (p1, (h1, k))

apply-IsSound : (o : Op) (b : EventBus) → IsSound b → IsSound (apply o b)
unfolding apply publish subscribe unsubscribe
apply-IsSound (publishes now ev) b (p, (h, k)) = publish-IsSound now ev b (p, (h, k))
apply-IsSound subscribes b (p, (h, k)) = (
  p,
  (
    (
      omega arith,
      (member-below b.next b.closed k, (omega arith, AllOpen-suc b.next b.closed b.subs h)),
    ),
    AllBelow-suc b.next b.closed k,
  ),
)
apply-IsSound (unsubscribes id) b (p, (h, k)) = elim (Bool-cases (registered id b.subs)) [
  | inl y ↦
      let (lt, free) = registered-below b.next id b.closed b.subs h y in
      rw y (ground arith, (AllOpen-closed b.next id b.closed b.subs h, (lt, k)))
  | inr n ↦ rw n (p, (h, k))
]

run-keeps : (os : List Op) (b : EventBus) → IsSound b → IsSound (run os b)
unfolding run
run-keeps [] b h = h
run-keeps (o ∷ os) b h = run-keeps os (apply o b) (apply-IsSound o b h)

-- Whatever is published, subscribed and cancelled, in any order, on a new event bus, no closed
-- channel is ever sent to or closed again, and no channel holds more than its buffer.
pub run-IsSound : (queue_len : ℕ) (os : List Op) → IsSound (run os (new_bus queue_len))
unfolding new_bus
run-IsSound queue_len os = run-keeps os (new_bus queue_len) (refl, (tt, tt))
