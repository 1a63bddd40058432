-- ===== src/Tests/Sessions.antt =====
-- Sessions, their manager and the composite guard on concrete inputs.
use sora_client.Session.Guard.Holds.{Holds}
use sora_client.Prelude.{
  zero, suc, ◌≡◌, refl, true, false, Option, none, some, List, [], ◌∷◌, ◌++◌, arith, ◌&&◌, not,
  str_eq, if◌then◌else◌,
}
use sora_client.Errs.{Err, Fields, foreign, internal, unavailable, wrap}
use sora_client.Engine.Events
use sora_client.Session.State.{failed, can_transition}
use sora_client.Session.Journal.{zero_counters}
use sora_client.Session.World.{
  Settings, Call, World, Env, clear, hold, covers, eng_validate, eng_apply, eng_stop, eng_close,
  unsubscribe, guard_apply, guard_restore, tun_up,
}
use sora_client.Session.Runner.{
  Config, Sys, call, set_state_locked, log_append, restore_guard, settings_locked, key_start_failed,
}
use sora_client.Session.Lifecycle.{start, stop}
use sora_client.Session.Notices.{Loop}
use sora_client.Session.Supervise.{tick, event, network, supervise}
use sora_client.Session.Guarding.{
  start-IsGuarded, IsGuarded, stop-restores, start-fails, start-IsGuarded,
}
use sora_client.Session.Ordering.{stop_order, start_order}
use sora_client.Session.Ordering
use sora_client.Session.Rounds.{fatal-keeps_guard}
use sora_client.Session.Manager.{Manager, new_session, connect, new_manager}
use sora_client.Session.Manager.Connects.{IsUp, connect-IsUp}
use sora_client.Session.Manager.Runs.{Op, connects, switches, rounds, run}
use sora_client.Session.Guard.{
  PartCall, apply_part, restore_part, Trace, PartEnv, Composite, in_force,
}
use sora_client.Session.Guard
use sora_client.Session.Guard.Rollback.{IsOwned, apply-IsOwned}
use sora_client.Session.Guard.Reapply.{reapply-forgets}

abbrev as_internal : Err → Fields
as_internal e = record {
  code = internal;
  key = "";
  detail = "";
  retryable = false;
  retry_after = 0;
}

abbrev healthy : Env
healthy = record {
  answer = λ w c. none;
  clock = λ n. n;
  mask = λ s. s;
  classify = as_internal;
  retryable_key = λ k. false;
  engine_state = λ w. Events.running;
  counters = λ w. zero_counters;
  groups = λ w. [];
  tracks_connections = true;
}

abbrev is_apply : Call → Option Err
is_apply eng_apply = some (foreign "exec: not found")
is_apply _ = none

-- The engine does not start.
abbrev broken : Env
broken = record healthy { answer = λ w c. is_apply c }

abbrev tunnel : Config
tunnel = record {
  session_id = "s";
  tun_enabled = true;
  tun_device = "sora0";
  tun_networks = "172.19.0.0/30" ∷ [];
  fake_ip_range = "198.18.0.0/15";
  fallback_groups = "auto" ∷ [];
}

abbrev guarded : Settings
guarded = record {
  tun_networks = [];
  fake_ip_range = "";
  kill_switch = true;
  bypass = [];
  tunnel_mode = "tun";
}

abbrev begin : World
begin = record { trace = []; reads = 0 }

abbrev created : Loop
created = new_session healthy tunnel guarded 8 begin

created-IsGuarded : IsGuarded created.sys
unfolding new_session
created-IsGuarded = ground arith

start-fails_example : (start broken created.sys).1.session.state ≡ failed
unfolding new_session start call wrap
start-fails_example =
    start-fails broken created.sys
      (wrap (λ k. false) (foreign "exec: not found") unavailable key_start_failed) refl refl

abbrev up : Sys
up = (start healthy created.sys).1

up-IsGuarded : IsGuarded up
unfolding new_session
up-IsGuarded = start-IsGuarded healthy created.sys refl created-IsGuarded

stop-restores_example : hold (stop healthy up).1.world.trace ≡ clear
unfolding new_session start stop call set_state_locked can_transition log_append restore_guard
stop-restores_example = stop-restores healthy up up-IsGuarded refl refl

stop_order_example :
    Ordering.calls (stop healthy up).1.world.trace
    ≡ eng_close ∷ (if up.session.engine_sub then unsubscribe ∷ [] else [])
      ++ (if up.session.guard_applied then guard_restore ∷ [] else [])
      ++ eng_stop ∷ Ordering.calls up.world.trace
unfolding new_session start call set_state_locked can_transition log_append
stop_order_example = stop_order healthy up refl

start_order_example :
    Ordering.calls up.world.trace
    ≡ (if created.sys.session.config.tun_enabled
          && not (str_eq created.sys.session.config.tun_device "")
        then tun_up created.sys.session.config.tun_device ∷ []
        else [])
      ++ eng_apply
        ∷ guard_apply (settings_locked healthy created.sys.session)
        ∷ eng_validate
        ∷ Ordering.calls created.sys.world.trace
unfolding new_session start call set_state_locked can_transition log_append
start_order_example = start_order healthy created.sys refl refl

abbrev looping : Loop
looping = record { sys = up; fallbacks = ("auto", "") ∷ []; ended = false }

abbrev fatal_event : Events.Event
fatal_event = record {
  kind = Events.fatal;
  state = some Events.failed;
  message = "";
  err = some (foreign "exit status 1");
  counters = record {
    bytes_up = 0;
    bytes_down = 0;
    active_connections = 0;
    memory_bytes = 0;
    at = 0;
  };
  group = none;
  at = 0;
}

fatal-keeps_guard_example :
    let t = supervise healthy (event fatal_event) looping in
    (t.ended ≡ true)
    × (t.sys.session.state ≡ failed)
    × (hold t.sys.world.trace ≡ hold looping.sys.world.trace)
    × (covers t.sys.world.trace ≡ true)
unfolding new_session start call set_state_locked can_transition log_append
fatal-keeps_guard_example =
    fatal-keeps_guard healthy fatal_event looping refl refl refl up-IsGuarded

abbrev requests : List Op
requests =
    connects tunnel guarded
    ∷ rounds tick
    ∷ connects tunnel guarded
    ∷ rounds (network "wifi")
    ∷ switches false
    ∷ rounds (event fatal_event)
    ∷ []

abbrev served : Manager
served = run healthy (connects tunnel guarded ∷ []) (new_manager healthy 8 begin)

connect-IsUp_example : IsUp (connect healthy tunnel guarded (new_manager healthy 8 begin)).1.current
unfolding new_manager connect start call set_state_locked can_transition log_append
connect-IsUp_example = connect-IsUp healthy tunnel guarded (new_manager healthy 8 begin) refl

abbrev obliging : PartEnv
obliging = record { answer = λ t c. none; classify = as_internal; retryable_key = λ k. false }

abbrev two_parts : Composite
two_parts = record { parts = 1 ∷ 2 ∷ []; active = 0; trace = [] }

apply-IsOwned_example : IsOwned (Guard.apply obliging guarded two_parts).1
apply-IsOwned_example = apply-IsOwned obliging guarded two_parts (λ p. refl)

abbrev applied : Composite
applied = (Guard.apply obliging guarded two_parts).1

-- Its first part takes settings once.
abbrev once : Trace → PartCall → Option Err
once [] c = none
once (x ∷ t) (apply_part (suc zero) y) = some (foreign "table is locked")
once (x ∷ t) c = none

abbrev refusing : PartEnv
refusing = record obliging { answer = once }

reapply-forgets_example :
    let c = (Guard.apply refusing guarded applied).1 in
    (in_force 2 c.trace ≡ true)
    × ((Guard.restore refusing c).0 ≡ none)
    × ((Guard.restore refusing c).1.trace ≡ c.trace)
unfolding Guard.apply
reapply-forgets_example =
    reapply-forgets refusing guarded 1 2 (2 ∷ []) 2 applied.trace (foreign "table is locked")
      (λ e. absurd (omega arith)) refl refl refl
