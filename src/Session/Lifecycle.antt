-- ===== src/Session/Lifecycle.antt =====
-- core/session/runner.go: `Start`, `Stop` and `SetKillSwitch`.
use sora_client.Prelude.{
  Bool, true, false, ◌&&◌, ◌||◌, not, Option, none, some, if◌then◌else◌, str_eq,
}
use mathlib.Core.Option
use sora_client.Errs.{
  invalid_argument, no_code, failed_precondition, unavailable, internal, Err, newf, text,
}
use sora_client.Errs.Line.{cat}
use sora_client.Engine.Events.{is_stopped}
use sora_client.Session.State.{
  disconnected, connecting, connected, same_state, state_name, terminal,
}
use sora_client.Session.World.{
  Env, eng_validate, eng_apply, eng_stop, eng_close, unsubscribe, guard_apply, tun_up,
}
use sora_client.Session.Runner.{
  Sys, key_busy, key_required, key_outbounds, key_start_failed, key_restore_failed, key_firewall,
  call, set_state, code_of, wrap_as, log_error, fail, settings_locked, own_guard, restore_guard,
}

module _ (env : Env) where
  -- A failure of `Start`: it is recorded, and returned.
  reject : Err → Sys → Option Err × Sys
  reject e s = (some e, fail env e s)

  journal_restore : Option Err × Sys → Sys
  journal_restore (none, s) = s
  journal_restore (some r, s) =
      log_error env (code_of env r) key_restore_failed (env.mask (text r)) s

  -- The engine or its adapter did not come up: the guard is taken back first.
  undo_start : Err → Sys → Option Err × Sys
  unfolding reject journal_restore
  undo_start e s = reject e (journal_restore (restore_guard env s))

  finish_start : Sys → Option Err × Sys
  finish_start s =
      let s1 = set_state env connected no_code "" "" s in
      (none, record s1 { session = record s1.session { engine_sub = true } })

  await_tun : Option Err × Sys → Option Err × Sys
  unfolding undo_start finish_start
  await_tun (none, s) = finish_start s
  await_tun (some e, s) = undo_start e (call env eng_stop s).1

  start_tun : Option Err × Sys → Option Err × Sys
  unfolding await_tun
  start_tun (some e, s) = undo_start (wrap_as env unavailable key_start_failed e) s
  start_tun (none, s) =
      let c = s.session.config in
      if c.tun_enabled && not (str_eq c.tun_device "")
      then await_tun (call env (tun_up c.tun_device) s)
      else finish_start s

  start_engine : Option Err × Sys → Option Err × Sys
  unfolding start_tun
  start_engine (some e, s) = reject (wrap_as env failed_precondition key_firewall e) s
  start_engine (none, s) = start_tun (call env eng_apply s)

  start_guard : Option Err × Sys → Option Err × Sys
  unfolding start_engine
  start_guard (some e, s) = reject (wrap_as env invalid_argument key_outbounds e) s
  start_guard (none, s) =
      let s1 = own_guard env true s in
      start_engine (call env (guard_apply (settings_locked env s1.session)) s1)

  begin_start : Sys → Sys
  begin_start s =
      let status = record s.session.status { session_id = s.session.config.session_id } in
      let s1 = record s { session = record s.session { status = status; cancelled = false } } in
      set_state env connecting no_code "" "" s1

  unfoldable pub start : Sys → Option Err × Sys
  unfolding start_guard begin_start
  start s =
      if not (same_state s.session.state disconnected)
      then (
        some (
            newf failed_precondition key_busy
              (cat "session: already " (state_name s.session.state))),
        s,
      )
      else start_guard (call env eng_validate (begin_start s))

  abbrev restore_error : Option Err → Option Err
  restore_error = Option.map (wrap_as env internal key_restore_failed)

  -- `Stop` of a session that is being stopped or was: cleanup is tried again.
  restore_again : Option Err × Sys → Option Err × Sys
  restore_again (some e, s) = (restore_error (some e), s)
  restore_again (none, s) = let (e, s1) = restore_guard env s in (restore_error e, s1)

  stop_again : Sys → Option Err × Sys
  unfolding restore_again
  stop_again s =
      restore_again
        (if is_stopped (env.engine_state s.world) then (none, s) else call env eng_stop s)

  -- `engineSub()` and `eng.Close()` under the session's lock.
  end_subscription : Sys → Sys
  end_subscription s =
      let s1 = (call env unsubscribe s).1 in
      if not s.session.engine_sub
      then s
      else record s1 { session = record s1.session { engine_sub = false } }

  release : Sys → Sys
  unfolding end_subscription
  release s = (call env eng_close (end_subscription s)).1

  -- The engine's error comes first; that of the guard counts if there is no other.
  stop_error : Option Err → Option Err → Option Err
  stop_error (some e) restore = some e
  stop_error none restore = restore_error restore

  finish_stop : Option Err → Option Err × Sys → Option Err × Sys
  unfolding release stop_error
  finish_stop stop_err (e, s) =
      (restore_error (stop_error stop_err e), release (set_state env disconnected no_code "" "" s))

  stop_first : Sys → Option Err × Sys
  unfolding finish_stop
  stop_first s =
      let s1 = record s { session = record s.session { stopping = true; cancelled = true } } in
      let (stop_err, s2) = call env eng_stop s1 in finish_stop stop_err (restore_guard env s2)

  unfoldable pub stop : Sys → Option Err × Sys
  unfolding stop_again stop_first
  stop s = if s.session.stopping then stop_again s else stop_first s

  switched : Bool → Option Err × Sys → Option Err × Sys
  switched enabled (some e, s) = (some (wrap_as env internal key_firewall e), s)
  switched enabled (none, s) =
      let status = record s.session.status { kill_switch = enabled } in
      (none, record s { session = record s.session { guard_applied = true; status = status } })

  unfoldable pub set_kill_switch : Bool → Sys → Option Err × Sys
  unfolding switched
  set_kill_switch enabled s =
      let x = s.session in
      if x.stopping
        || (enabled && terminal x.state)
        || (not enabled && same_state x.state disconnected)
      then (
        some (
            newf failed_precondition key_required
              (cat "session: cannot change the kill switch while " (state_name x.state))),
        s,
      )
      else switched enabled
          (call env (guard_apply (record (settings_locked env x) { kill_switch = enabled })) s)
