-- ===== src/Session/State.antt =====
-- core/session/session.go: the session states, their legal transitions, and the status snapshot.
use sora_client.Prelude.{ℕ, String, Bool, true, false, List, [], ◌∷◌, any}
use sora_client.Errs.{Code, no_code, Key}

pub data State : Type 0 where
  disconnected connecting connected reconnecting failed : State

-- Go compares the numbers of the constants; here each pair is written out.
abbrev pub same_state : State → State → Bool
same_state disconnected disconnected = true
same_state connecting connecting = true
same_state connected connected = true
same_state reconnecting reconnecting = true
same_state failed failed = true
same_state _ _ = false

-- `func (s State) String() string`; only the five constants are ever used.
pub state_name : State → String
state_name disconnected = "disconnected"
state_name connecting = "connecting"
state_name connected = "connected"
state_name reconnecting = "reconnecting"
state_name failed = "failed"

unfoldable pub allowed_transitions : State → List State
allowed_transitions disconnected = connecting ∷ []
allowed_transitions connecting = connected ∷ reconnecting ∷ failed ∷ disconnected ∷ []
allowed_transitions connected = reconnecting ∷ disconnected ∷ failed ∷ []
allowed_transitions reconnecting = connected ∷ failed ∷ disconnected ∷ []
allowed_transitions failed = connecting ∷ disconnected ∷ []

unfoldable pub can_transition : State → State → Bool
unfolding allowed_transitions
can_transition from to = any (λ candidate. same_state candidate to) (allowed_transitions from)

unfoldable pub terminal : State → Bool
terminal failed = true
terminal disconnected = true
terminal _ = false

pub record Status : Type 0 where
  pub state : State
  pub session_id : String
  pub reason : Code
  pub key : Key
  pub detail : String
  pub changed_at : ℕ
  pub retry_after : ℕ
  pub kill_switch : Bool
  pub bypass : List String
  pub tunnel_mode : String

-- `Status{}`
abbrev pub zero_status : Status
zero_status = record {
  state = disconnected;
  session_id = "";
  reason = no_code;
  key = "";
  detail = "";
  changed_at = 0;
  retry_after = 0;
  kill_switch = false;
  bypass = [];
  tunnel_mode = "";
}
