-- ===== src/Session/Journal.antt =====
-- core/session/journal.go: bounded event history with sequence numbers, and live subscribers.
-- `append` and the other operations are whole critical sections, and the deliveries of an append
-- follow its critical section at once; Session/Journal/Race.antt takes them apart. A capacity or a
-- limit that is not positive is 0, and time 0 is Go's zero time.
pub mod History
pub mod Since
pub mod Race
use sora_client.Prelude.{
  ℕ, ◌+◌, ◌-◌, String, Bool, true, false, ◌||◌, Option, none, List, [], ◌∷◌, ◌++◌, drop, length,
  any, keep, leb, ltb, ◌==◌, not, u64, if◌then◌else◌,
}
use sora_client.Errs.{Code, no_code, Key, Err}
use sora_client.Session.State.{State, disconnected}

pub data EventKind : Type 0 where
  no_kind state_event counters_event log_event probe_event error_event group_event : EventKind

pub record GroupSwitch : Type 0 where
  pub group : String
  pub previous : String
  pub selected : String

pub record Counters : Type 0 where
  pub bytes_up : ℕ
  pub bytes_down : ℕ
  pub active_connections : ℕ
  pub at : ℕ

pub record ProbeOutcome : Type 0 where
  pub server_id : String
  pub reachable : Bool
  pub latency_ms : ℕ
  pub err : Option Err

pub record Event : Type 0 where
  pub sequence : ℕ
  pub at : ℕ
  pub kind : EventKind
  pub state : State
  pub reason : Code
  pub key : Key
  pub detail : String
  pub counters : Counters
  pub probe : Option ProbeOutcome
  pub switch : Option GroupSwitch
  pub retry_after : ℕ
  pub log_line : String

abbrev pub zero_counters : Counters
zero_counters = record { bytes_up = 0; bytes_down = 0; active_connections = 0; at = 0 }

-- `Event{}`
abbrev pub zero_event : Event
zero_event = record {
  sequence = 0;
  at = 0;
  kind = no_kind;
  state = disconnected;
  reason = no_code;
  key = "";
  detail = "";
  counters = zero_counters;
  probe = none;
  switch = none;
  retry_after = 0;
  log_line = "";
}

-- A subscriber's channel: its buffer size and what waits in it.
pub record Channel : Type 0 where
  pub id : ℕ
  pub buffer : ℕ
  pub queue : List Event

pub record Journal : Type 0 where
  pub next : ℕ
  pub capacity : ℕ
  pub history : List Event
  pub subs : List Channel
  pub dropped : ℕ

abbrev pub default_capacity : ℕ
default_capacity = 512

unfoldable pub new_journal : ℕ → Journal
new_journal capacity = record {
  next = 0;
  capacity = if capacity == 0 then default_capacity else capacity;
  history = [];
  subs = [];
  dropped = 0;
}

-- The deliveries of `Append`: a full channel loses the event and is counted.
unfoldable pub deliver : Event → List Channel → ℕ → List Channel × ℕ
deliver ev [] dropped = ([], dropped)
deliver ev (ch ∷ rest) dropped =
    let room = ltb (length ch.queue) ch.buffer in
    let (rest', dropped') = deliver ev rest (if room then dropped else u64 (dropped + 1)) in
    ((if room then record ch { queue = ch.queue ++ ev ∷ [] } else ch) ∷ rest', dropped')

-- The history is cut to the newest `capacity` events.
unfoldable pub trim : ℕ → List Event → List Event
trim capacity h = if ltb capacity (length h) then drop (length h - capacity) h else h

-- The event that `Append` stores: numbered, and dated by the clock if it has no time.
unfoldable pub stamp : Journal → Event → ℕ → Event
stamp j ev now = record ev { sequence = u64 (j.next + 1); at = if ev.at == 0 then now else ev.at }

-- `Append`, whose clock reads `now`.
unfoldable pub append : Event → ℕ → Journal → Event × Journal
unfolding deliver trim stamp
append ev now j =
    let ev' = stamp j ev now in
    let (subs', dropped') = deliver ev' j.subs j.dropped in
    (
      ev',
      record j {
        next = u64 (j.next + 1);
        history = trim j.capacity (j.history ++ ev' ∷ []);
        subs = subs';
        dropped = dropped';
      },
    )

-- The loop of `Since`; it leaves at the `limit`-th event.
since_loop : ℕ → ℕ → List Event → List Event → List Event
since_loop after limit [] out = out
since_loop after limit (ev ∷ rest) out =
    let skip = since_loop after limit rest out in
    let more = since_loop after limit rest (out ++ ev ∷ []) in
    if leb ev.sequence after
    then skip
    else if length (out ++ ev ∷ []) == limit
    then out ++ ev ∷ []
    else more

unfoldable pub since : ℕ → ℕ → Journal → List Event
unfolding since_loop
since after limit j =
    since_loop after (if limit == 0 || ltb j.capacity limit then j.capacity else limit) j.history []

pub latest : Journal → ℕ
latest j = j.next

-- `Subscribe`; `id` is the new channel's identity.
pub subscribe : ℕ → ℕ → Journal → Journal
subscribe id buffer j = record j {
  subs = record { id = id; buffer = if buffer == 0 then 64 else buffer; queue = [] } ∷ j.subs;
}

-- The cancellation that `Subscribe` returns; the channel is closed and forgotten.
pub unsubscribe : ℕ → Journal → Journal
unsubscribe id j = record j { subs = keep (λ ch. not (ch.id == id)) j.subs }
