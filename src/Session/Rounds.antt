-- ===== src/Session/Rounds.antt =====
-- core/session/runner.go: the rounds of the background loop never touch the guard.
use sora_client.Prelude.{◌≡◌, true, false, arith, List, [], ◌∷◌}
use sora_client.Engine.Events
use sora_client.Engine.Events.{GroupStatus}
use sora_client.Session.State.{failed, can_transition}
use sora_client.Session.World.{eng_groups, Env, hold, covers}
use sora_client.Session.Runner.{
  Sys, call, read_clock, log_append, set_state_locked, set_state_reconnecting, log_error, fail,
}
use sora_client.Session.Notices.{Loop, publish_counters, notice_one, notice_all, notice_fallbacks}
use sora_client.Session.Supervise.{Input, look, event, renew_connections, on_event, supervise}
use sora_client.Session.Guarding.{live, IsGuarded}

-- Nothing that bears on the guard has changed.
pub record Untouched (s t : Sys) : Type 0 where
  pub same_guard : hold t.world.trace ≡ hold s.world.trace
  pub same_owner : t.session.guard_applied ≡ s.session.guard_applied
  pub same_stopping : t.session.stopping ≡ s.session.stopping

-- Neither has the session's state.
pub record IsQuiet (s t : Sys) : Type 0 where
  pub untouched : Untouched s t
  pub open untouched use *
  pub same_phase : t.session.state ≡ s.session.state

module _ (env : Env) where
  notice_one-IsQuiet : (g : GroupStatus) (l : Loop) → IsQuiet l.sys (notice_one env g l).sys
  unfolding notice_one log_append read_clock
  notice_one-IsQuiet g l = ground arith

  notice_all-IsQuiet : (gs : List GroupStatus) (l : Loop) → IsQuiet l.sys (notice_all env gs l).sys
  unfolding notice_all
  notice_all-IsQuiet [] l = ground arith
  notice_all-IsQuiet (g ∷ rest) l =
      ground (arith, notice_one-IsQuiet g l, notice_all-IsQuiet rest (notice_one env g l))

  notice_fallbacks-IsQuiet : (l : Loop) → IsQuiet l.sys (notice_fallbacks env l).sys
  unfolding notice_fallbacks call
  notice_fallbacks-IsQuiet l =
      let s = (call env eng_groups l.sys).1 in
      ground (arith, notice_all-IsQuiet (env.groups s.world) (record l { sys = s }))

  -- No round of the background loop touches the guard or its ownership.
  pub supervise-Untouched : (i : Input) (l : Loop) → Untouched l.sys (supervise env i l).sys
  unfolding supervise publish_counters renew_connections on_event log_append read_clock
      set_state_locked set_state_reconnecting fail log_error call
  supervise-Untouched (event ev) l = ground arith
  supervise-Untouched look l = ground (arith, notice_fallbacks-IsQuiet l)
  supervise-Untouched _ l = ground arith

  -- Every round of the background loop leaves a guarded session guarded.
  pub supervise-IsGuarded :
      (i : Input) (l : Loop) → IsGuarded l.sys → IsGuarded (supervise env i l).sys
  unfolding supervise publish_counters renew_connections on_event log_append read_clock
      set_state_locked set_state_reconnecting fail log_error call can_transition
  supervise-IsGuarded (event ev) l g = ground arith
  supervise-IsGuarded look l g = ground (arith, notice_fallbacks-IsQuiet l)
  supervise-IsGuarded _ l g = ground arith

  -- On a fatal engine event, the loop of a live guarded session ends, the session is failed, and what
  -- the guard has in force stays as it is: all settings, unless the guard is in doubt.
  pub fatal-keeps_guard :
      (ev : Events.Event) (l : Loop)
      → ev.kind ≡ Events.fatal
      → l.ended ≡ false
      → live l.sys.session.state ≡ true
      → IsGuarded l.sys
      → let t = supervise env (event ev) l in
        (t.ended ≡ true)
        × (t.sys.session.state ≡ failed)
        × (hold t.sys.world.trace ≡ hold l.sys.world.trace)
        × (covers t.sys.world.trace ≡ true)
  unfolding supervise on_event log_append read_clock set_state_locked fail log_error call
      can_transition
  fatal-keeps_guard ev l k e h g = ground arith
