-- ===== src/Session/World.antt =====
-- What a session is surrounded by: the engine and the guard that it calls (core/engine/engine.go,
-- core/session/guard.go), the clock, and the redactor. An environment answers each call, and its
-- answers may depend on everything that was called before.
use sora_client.Prelude.{ℕ, String, Bool, true, false, Option, none, some, List, [], ◌∷◌}
use sora_client.Errs.{Err, Fields, Key}
use sora_client.Engine.Events.{GroupStatus}
use sora_client.Engine.Events
use sora_client.Session.Journal.{Counters}

-- `type Settings struct` of core/session/guard.go.
pub record Settings : Type 0 where
  pub tun_networks : List String
  pub fake_ip_range : String
  pub kill_switch : Bool
  pub bypass : List String
  pub tunnel_mode : String

-- The calls that leave the session package.
pub data Call : Type 0 where
  eng_validate eng_apply eng_stop eng_close eng_counters eng_groups : Call
  close_connections unsubscribe guard_restore : Call
  prepare_tun factory plan_validate context_err : Call
  guard_apply : Settings → Call
  tun_up : String → Call
  eng_select : String → String → Call

-- What happened so far, the newest call first, each with the error that it returned.
pub record World : Type 0 where
  pub trace : List (Call × Option Err)
  pub reads : ℕ  -- how often a clock was read

pub record Env : Type 0 where
  pub answer : World → Call → Option Err
  pub clock : ℕ → ℕ
  pub mask : String → String  -- `Redactor.String`, or the identity where there is no redactor
  pub classify : Err → Fields
  pub retryable_key : Key → Bool
  pub engine_state : World → Events.State
  pub counters : World → Counters
  pub groups : World → List GroupStatus
  pub tracks_connections : Bool  -- the engine implements `ConnectionTracker`

-- What the guard's calls so far leave in force, as it is for a `compositeGuard` and, with less doubt, for
-- a guard that stands alone: nothing; all settings; a part that the next `Restore` takes back, since one
-- has failed; in doubt, a part or nothing that the next `Restore` takes back, since the first `Apply` has
-- failed; or lost, a part that `Restore` may no longer reach, since `Apply` has failed over settings that
-- may be in force, until an `Apply` returns no error.
pub data Hold : Type 0 where
  clear held partial doubtful lost : Hold

abbrev pub refused : Hold → Hold
refused clear = doubtful
refused _ = lost

abbrev pub restored : Hold → Hold
restored lost = lost
restored _ = clear

abbrev pub unrestored : Hold → Hold
unrestored held = partial
unrestored h = h

abbrev pub hold : List (Call × Option Err) → Hold
hold [] = clear
hold ((guard_apply x, none) ∷ t) = held
hold ((guard_apply x, some e) ∷ t) = refused (hold t)
hold ((guard_restore, none) ∷ t) = restored (hold t)
hold ((guard_restore, some e) ∷ t) = unrestored (hold t)
hold (_ ∷ t) = hold t

-- The guard has refused settings, and it is open what is in force.
abbrev pub in_doubt : Hold → Bool
in_doubt doubtful = true
in_doubt lost = true
in_doubt _ = false

-- Nothing is in force, and all settings are, unless the guard is in doubt.
abbrev pub is_free : Hold → Bool
is_free clear = true
is_free h = in_doubt h

abbrev pub is_full : Hold → Bool
is_full held = true
is_full h = in_doubt h

abbrev pub freed : List (Call × Option Err) → Bool
freed t = is_free (hold t)

abbrev pub covers : List (Call × Option Err) → Bool
covers t = is_full (hold t)
