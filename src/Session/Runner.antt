-- ===== src/Session/Runner.antt =====
-- core/session/runner.go: the session's fields, its start, its shutdown and the kill switch. Each
-- operation is run from its first to its last lock without another between them.
use sora_client.Prelude.{
  ℕ, ◌+◌, String, Bool, true, false, not, Option, none, some, List, ◌∷◌, if◌then◌else◌,
}
use sora_client.Errs.{
  Code, no_code, invalid_argument, failed_precondition, unavailable, internal, Key, Fields, Err,
  wrap, newf, detail_of,
}
use sora_client.Errs
use sora_client.Session.State.{State, reconnecting, failed, can_transition, Status}
use sora_client.Session.Journal.{Event, Journal, zero_event, state_event, error_event, append}
use sora_client.Session.World.{Settings, Call, World, Env, guard_restore}

-- The parts of `Config` and of its plan that the session reads.
pub record Config : Type 0 where
  pub session_id : String
  pub tun_enabled : Bool
  pub tun_device : String
  pub tun_networks : List String
  pub fake_ip_range : String
  pub fallback_groups : List String

-- `type Session struct`. `engine_sub` tells whether the subscription's cancellation is held, and
-- `cancelled` whether the session's context was.
pub record Session : Type 0 where
  pub config : Config
  pub state : State
  pub status : Status
  pub stopping : Bool
  pub guard_applied : Bool
  pub engine_sub : Bool
  pub cancelled : Bool
  pub log : Journal

pub record Sys : Type 0 where
  pub session : Session
  pub world : World

abbrev pub key_busy : Key
key_busy = "core.session.busy"

abbrev pub key_required : Key
key_required = "core.session.required"

abbrev pub key_outbounds : Key
key_outbounds = "core.plan.outbounds_invalid"

abbrev pub key_start_failed : Key
key_start_failed = "core.engine.start_failed"

abbrev pub key_restore_failed : Key
key_restore_failed = "core.guard.restore_failed"

abbrev pub key_firewall : Key
key_firewall = "core.guard.firewall_failed"

module _ (env : Env) where
  -- A call of the engine or of the guard: its error, and the world that has seen it.
  unfoldable pub call : Call → Sys → Option Err × Sys
  call c s =
      let e = env.answer s.world c in
      (e, record s { world = record s.world { trace = (c, e) ∷ s.world.trace } })

  unfoldable pub read_clock : Sys → ℕ × Sys
  read_clock s =
      (env.clock s.world.reads, record s { world = record s.world { reads = s.world.reads + 1 } })

  -- `s.log.Append`; the session's events carry no time, so the journal reads the clock.
  unfoldable pub log_append : Event → Sys → Sys
  unfolding read_clock
  log_append ev s =
      let (now, s') = read_clock s in
      record s' { session = record s'.session { log = (append ev now s'.session.log).1 } }

  set_state_fields : State → Code → Key → String → ℕ → Session → Session
  set_state_fields next reason key masked now x = record x {
    state = next;
    status = record x.status {
      state = next;
      reason = reason;
      key = key;
      detail = masked;
      changed_at = now;
      retry_after = 0;
    };
  }

  -- `setStateLocked`: a transition that is not legal is discarded.
  unfoldable pub set_state_locked : State → Code → Key → String → Sys → Bool × Sys
  unfolding set_state_fields
  set_state_locked next reason key detail s =
      if not (can_transition s.session.state next)
      then (false, s)
      else let masked = env.mask detail in
        let (now, s1) = read_clock s in
        let s2 = record s1 { session = set_state_fields next reason key masked now s1.session } in
        (
          true,
          log_append
              (record zero_event {
                kind = state_event;
                state = next;
                reason = reason;
                key = key;
                detail = masked;
              })
              s2,
        )

  abbrev pub set_state : State → Code → Key → String → Sys → Sys
  set_state next reason key detail s = (set_state_locked next reason key detail s).1

  unfoldable pub set_state_reconnecting : Code → Key → ℕ → Sys → Sys
  set_state_reconnecting reason key delay s =
      if not (can_transition s.session.state reconnecting)
      then s
      else let (now, s1) = read_clock s in
        let status = record s1.session.status {
          state = reconnecting;
          reason = reason;
          key = key;
          changed_at = now;
          retry_after = delay;
        } in
        log_append
          (record zero_event {
            kind = state_event;
            state = reconnecting;
            reason = reason;
            key = key;
            retry_after = delay;
          })
          (record s1 { session = record s1.session { state = reconnecting; status = status } })

  abbrev pub code_of : Err → Code
  code_of e = Errs.code_of env.classify e

  abbrev pub key_of : Err → Key
  key_of e = Errs.key_of env.classify e

  abbrev pub wrap_as : Code → Key → Err → Err
  wrap_as code key e = wrap env.retryable_key e code key

  unfoldable pub log_error : Code → Key → String → Sys → Sys
  log_error reason key detail =
      log_append
        (record zero_event { kind = error_event; reason = reason; key = key; detail = detail })

  unfoldable pub fail : Err → Sys → Sys
  unfolding log_error
  fail e s =
      log_error (code_of e) (key_of e) (env.mask (detail_of e))
        (set_state failed (code_of e) (key_of e) (env.mask (detail_of e)) s)

  unfoldable pub settings_locked : Session → Settings
  settings_locked x = record {
    tun_networks = x.config.tun_networks;
    fake_ip_range = x.config.fake_ip_range;
    kill_switch = x.status.kill_switch;
    bypass = x.status.bypass;
    tunnel_mode = x.status.tunnel_mode;
  }

  abbrev pub own_guard : Bool → Sys → Sys
  own_guard b s = record s { session = record s.session { guard_applied = b } }

  restored : Option Err × Sys → Option Err × Sys
  restored (some e, s) = (some e, s)
  restored (none, s) = (none, own_guard false s)

  unfoldable pub restore_guard : Sys → Option Err × Sys
  unfolding restored
  restore_guard s =
      if not s.session.guard_applied then (none, s) else restored (call guard_restore s)
