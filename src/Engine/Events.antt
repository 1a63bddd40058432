-- ===== src/Engine/Events.antt =====
-- core/engine/engine.go and core/engine/events.go: engine states and the notifications of an engine.
use sora_client.Prelude.{ℕ, String, Bool, true, false, Option, List, str_eq}
use sora_client.Errs.{Err}

-- `type State string` of core/engine/engine.go.
pub data State : Type 0 where
  idle starting running applying recovering stopping stopped failed : State

pub state_text : State → String
state_text idle = "idle"
state_text starting = "starting"
state_text running = "running"
state_text applying = "applying"
state_text recovering = "recovering"
state_text stopping = "stopping"
state_text stopped = "stopped"
state_text failed = "failed"

-- The comparison `==` of two states.
unfoldable pub same_state : State → State → Bool
unfolding state_text
same_state a b = str_eq (state_text a) (state_text b)

abbrev pub is_stopped : State → Bool
is_stopped stopped = true
is_stopped _ = false

pub record Counters : Type 0 where
  pub bytes_up : ℕ
  pub bytes_down : ℕ
  pub active_connections : ℕ
  pub memory_bytes : ℕ
  pub at : ℕ

-- `LatencyMS` is a map; here it is the list of its entries in the order in which Go visits them.
pub record GroupStatus : Type 0 where
  pub name : String
  pub selected : String
  pub latency_ms : List (String × ℕ)

pub data EventKind : Type 0 where
  state_event log_event counters_event group_event restart_event engine_down fatal : EventKind

-- The state is `none` where the Go event leaves it empty.
pub record Event : Type 0 where
  pub kind : EventKind
  pub state : Option State
  pub message : String
  pub err : Option Err
  pub counters : Counters
  pub group : Option GroupStatus
  pub at : ℕ
