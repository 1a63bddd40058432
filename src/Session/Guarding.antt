-- ===== src/Session/Guarding.antt =====
-- core/session/runner.go: what start, shutdown and the kill switch do to the guard.
use sora_client.Prelude.{◌≡◌, Bool, true, false, none, some, arith}
use sora_client.Errs.{Err}
use sora_client.Session.State.{
  connecting, same_state, State, disconnected, connected, reconnecting, failed, can_transition,
}
use sora_client.Session.World.{Env, Hold, clear, hold, in_doubt, is_free, freed, covers}
use sora_client.Session.Runner.{
  Sys, call, read_clock, log_append, set_state_locked, log_error, fail, restore_guard,
}
use sora_client.Session.Lifecycle.{start, stop, set_kill_switch}

-- Traffic is meant to run through the tunnel.
abbrev pub live : State → Bool
live connected = true
live reconnecting = true
live _ = false

-- The session owns whatever may be in force, and a live session has all settings in force, unless the
-- guard is in doubt.
pub record IsGuarded (s : Sys) : Type 0 where
  pub owned : freed s.world.trace ≡ false → s.session.guard_applied ≡ true
  pub covered : live s.session.state ≡ true → covers s.world.trace ≡ true
  pub settled : same_state s.session.state connecting ≡ false
  pub resting : s.session.stopping ≡ true → s.session.state ≡ disconnected

-- What is free and not in doubt is clear.
pub free_kept : (h : Hold) → is_free h ≡ true → in_doubt h ≡ false → h ≡ clear
free_kept h f n = ground arith

module _ (env : Env) where
  pub stop-frees :
      (s : Sys) → IsGuarded s → (stop env s).0 ≡ none → freed (stop env s).1.world.trace ≡ true
  unfolding stop restore_guard call set_state_locked log_append read_clock
  stop-frees s g h = ground arith

  -- `Stop` brings no doubt.
  pub stop-sure :
      (s : Sys)
      → in_doubt (hold s.world.trace) ≡ false
      → in_doubt (hold (stop env s).1.world.trace) ≡ false
  unfolding stop restore_guard call set_state_locked log_append read_clock
  stop-sure s n = ground arith

  -- If a guarded session is stopped without an error, and the guard is not in doubt because it has refused
  -- settings, then nothing is in force any more, on the first call of `Stop` and on a retry.
  pub stop-restores :
      (s : Sys)
      → IsGuarded s
      → in_doubt (hold s.world.trace) ≡ false
      → (stop env s).0 ≡ none
      → hold (stop env s).1.world.trace ≡ clear
  stop-restores s g n h =
      free_kept (hold (stop env s).1.world.trace) (stop-frees s g h) (stop-sure s n)

  -- The first `Stop` of a session leaves it disconnected, with or without an error.
  pub stop-disconnects :
      (s : Sys) → s.session.stopping ≡ false → (stop env s).1.session.state ≡ disconnected
  unfolding stop restore_guard call set_state_locked log_append read_clock can_transition
  stop-disconnects s h = ground arith

  -- A `Start` of a disconnected session that returns no error leaves it connected.
  pub start-connects :
      (s : Sys)
      → s.session.state ≡ disconnected
      → (start env s).0 ≡ none
      → (start env s).1.session.state ≡ connected
  unfolding start restore_guard call set_state_locked log_append read_clock can_transition
  start-connects s d h = ground arith

  -- A `Start` of a disconnected session that returns an error leaves it failed, whether or not the
  -- error can be retried.
  pub start-fails :
      (s : Sys) (e : Err)
      → s.session.state ≡ disconnected
      → (start env s).0 ≡ some e
      → (start env s).1.session.state ≡ failed
  unfolding start fail log_error restore_guard call set_state_locked log_append read_clock
      can_transition
  start-fails s e d h = ground arith

  -- A `Start` of a guarded session that was not stopped leaves it guarded, on every branch: settings
  -- in force are the session's, and a live session has its settings in force.
  pub start-IsGuarded :
      (s : Sys) → s.session.stopping ≡ false → IsGuarded s → IsGuarded (start env s).1
  unfolding start fail log_error restore_guard call set_state_locked log_append read_clock
      can_transition
  start-IsGuarded s n g = ground arith

  pub stop-IsGuarded : (s : Sys) → IsGuarded s → IsGuarded (stop env s).1
  unfolding stop restore_guard call set_state_locked log_append read_clock can_transition
  stop-IsGuarded s g = ground arith

  -- `SetKillSwitch` on a guarded session leaves it guarded, whether or not the change is made.
  pub set_kill_switch-IsGuarded :
      (s : Sys) (enabled : Bool) → IsGuarded s → IsGuarded (set_kill_switch env enabled s).1
  unfolding set_kill_switch call
  set_kill_switch-IsGuarded s enabled g = ground arith
