-- ===== src/Session/Manager.antt =====
-- core/session/manager.go: at most one session at a time. What the manager calls besides its
-- sessions are calls of the environment: `engine.PrepareTun`, the engine factory, the check of the
-- plan, and the error of the caller's context.
pub mod Ownership
pub mod Runs
pub mod Connects
use sora_client.Prelude.{
  ℕ, ◌+◌, String, Bool, true, false, Option, none, some, List, [], ◌∷◌, if◌then◌else◌, ◌==◌,
}
use sora_client.Errs.{no_code, invalid_argument, failed_precondition, Err, newf, joined}
use sora_client.Session.State.{disconnected, Status, zero_status}
use sora_client.Session.Journal.{new_journal, default_capacity}
use sora_client.Session.World.{
  Settings, Call, World, Env, eng_validate, eng_close, prepare_tun, factory, plan_validate,
  context_err,
}
use sora_client.Session.Runner.{
  Config, Session, Sys, key_busy, key_outbounds, code_of, key_of, wrap_as,
}
use sora_client.Session.Lifecycle.{start, stop, set_kill_switch}
use sora_client.Session.Notices.{Loop, watched}
use sora_client.Session.Supervise.{Input, supervise}

-- The session of a manager stands in the manager's world.
pub record Manager : Type 0 where
  pub current : Option Loop
  pub last : Status
  pub busy : Bool
  pub world : World
  pub journal_capacity : ℕ

abbrev pub key_tunnel : String
key_tunnel = "core.plan.tunnel_unsupported"

abbrev pub enter : World → Loop → Loop
enter w l = record l { sys = record l.sys { world = w } }

module _ (env : Env) where
  unfoldable pub ask : Call → World → Option Err × World
  ask c w = let e = env.answer w c in (e, record w { trace = (c, e) ∷ w.trace })

  -- `New`, after its check of the plan; the settings are those of the request.
  unfoldable pub new_session : Config → Settings → ℕ → World → Loop
  new_session config x capacity w = record {
    sys = record {
      session = record {
        config = config;
        state = disconnected;
        status = record zero_status {
          changed_at = env.clock w.reads;
          kill_switch = x.kill_switch;
          bypass = x.bypass;
          tunnel_mode = x.tunnel_mode;
        };
        stopping = false;
        guard_applied = false;
        engine_sub = false;
        cancelled = false;
        log = new_journal capacity;
      };
      world = record w { reads = w.reads + 1 };
    };
    fallbacks = watched config.fallback_groups;
    ended = true;
  }

  -- `Session.Start` with the loop that it leaves behind.
  unfoldable pub start_loop : Loop → Option Err × Loop
  start_loop l =
      let (e, s) = start env l.sys in
      (
        e,
        record l {
          sys = s;
          fallbacks = watched s.session.config.fallback_groups;
          ended = elim e [ none ↦ false | some x ↦ l.ended ];
        },
      )

  -- `Session.Stop`: the cancelled context ends the loop.
  unfoldable pub stop_loop : Loop → Option Err × Loop
  stop_loop l = let (e, s) = stop env l.sys in (e, record l { sys = s; ended = true })

  -- The built engine is closed when `Connect` gives up before the session is started.
  discard : Err → Manager → Option Err × Manager
  unfolding ask
  discard e m = (some e, record m { world = (ask eng_close m.world).1 })

  keep_failed : Option Err × Loop → Err → Status → Manager → Option Err × Manager
  keep_failed (none, l) e status m = (some e, record m { world = l.sys.world; last = status })
  keep_failed (some c, l) e status m = (
    some (wrap_as env (code_of env c) (key_of env c) (joined e c)),
    record m { current = some l; world = l.sys.world; last = status },
  )

  started : Option Err × Loop → Manager → Option Err × Manager
  unfolding keep_failed stop_loop
  started (none, l) m =
      (none, record m { current = some l; world = l.sys.world; last = l.sys.session.status })
  started (some e, l) m = keep_failed (stop_loop l) e l.sys.session.status m

  start_created : Config → Settings → Manager → Option Err × Manager
  unfolding started new_session start_loop
  start_created config x m =
      let created = new_session config x m.journal_capacity m.world in
      started (start_loop created) (record m { current = none })

  stopped_previous : Option Err × Loop → Config → Settings → Manager → Option Err × Manager
  unfolding discard start_created
  stopped_previous (some e, l) config x m =
      discard e (record m { current = some l; world = l.sys.world; last = l.sys.session.status })
  stopped_previous (none, l) config x m =
      start_created config x (record m { world = l.sys.world; last = l.sys.session.status })

  replace : Option Loop → Config → Settings → Manager → Option Err × Manager
  unfolding stopped_previous stop_loop
  replace none config x m = start_created config x m
  replace (some l) config x m = stopped_previous (stop_loop (enter m.world l)) config x m

  -- A check of `Connect` after the engine was built.
  checked :
      Option Err × World
      → (Err → Err)
      → Manager
      → (Manager → Option Err × Manager)
      → Option Err × Manager
  unfolding discard
  checked (some e, w) as_error m rest = discard (as_error e) (record m { world = w })
  checked (none, w) as_error m rest = rest (record m { world = w })

  connect_built : Config → Settings → Manager → Option Err × Manager
  unfolding checked replace
  connect_built config x m =
      checked (ask plan_validate m.world) (wrap_as env invalid_argument key_outbounds) m λ m1.
        checked (ask eng_validate m1.world) (wrap_as env invalid_argument key_outbounds) m1
          λ m2. checked (ask context_err m2.world) (λ e. e) m2 λ m3. replace m3.current config x m3

  built : Option Err × World → Config → Settings → Manager → Option Err × Manager
  unfolding connect_built
  built (some e, w) config x m = (some e, record m { world = w })
  built (none, w) config x m = connect_built config x (record m { world = w })

  prepared : Option Err × World → Config → Settings → Manager → Option Err × Manager
  unfolding built
  prepared (some e, w) config x m =
      (some (wrap_as env failed_precondition key_tunnel e), record m { world = w })
  prepared (none, w) config x m = built (ask factory w) config x (record m { world = w })

  abbrev busy_error : Err
  busy_error = newf failed_precondition key_busy "session: another connect or disconnect is running"

  unlock : Option Err × Manager → Option Err × Manager
  unlock (e, m) = (e, record m { busy = false })

  unfoldable pub connect : Config → Settings → Manager → Option Err × Manager
  unfolding prepared unlock
  connect config x m =
      if m.busy
      then (some busy_error, m)
      else unlock (prepared (ask prepare_tun m.world) config x (record m { busy = true }))

  disconnected_session : Option Err × Loop → Manager → Option Err × Manager
  disconnected_session (none, l) m =
      (none, record m { current = none; world = l.sys.world; last = l.sys.session.status })
  disconnected_session (some e, l) m =
      (some e, record m { current = some l; world = l.sys.world; last = l.sys.session.status })

  disconnect_current : Option Loop → Manager → Option Err × Manager
  unfolding disconnected_session stop_loop
  disconnect_current none m =
      let w = m.world in
      (
        none,
        record m {
          last = record zero_status { changed_at = env.clock w.reads };
          world = record w { reads = w.reads + 1 };
        },
      )
  disconnect_current (some l) m = disconnected_session (stop_loop (enter m.world l)) m

  -- `Disconnect`, which is also `Shutdown`.
  unfoldable pub disconnect : Manager → Option Err × Manager
  unfolding disconnect_current unlock
  disconnect m =
      if m.busy
      then (some busy_error, m)
      else unlock (disconnect_current m.current (record m { busy = true }))

  -- `Status`: the live session's, or the last one's.
  unfoldable pub status : Manager → Status
  status m = elim m.current [ none ↦ m.last | some l ↦ l.sys.session.status ]

  background_current : Input → Option Loop → Manager → Manager
  background_current i none m = m
  background_current i (some l) m =
      let l' = supervise env i (enter m.world l) in
      record m { current = some l'; world = l'.sys.world }

  -- A round of the current session's background loop.
  unfoldable pub background : Input → Manager → Manager
  unfolding background_current
  background i m = background_current i m.current m

  switch_current : Bool → Option Loop → Manager → Option Err × Manager
  switch_current enabled none m = (none, m)
  switch_current enabled (some l) m =
      let (e, s) = set_kill_switch env enabled (enter m.world l).sys in
      (e, record m { current = some (record l { sys = s }); world = s.world })

  -- `SetKillSwitch` of the session that `Current` returns, if there is one.
  unfoldable pub switch : Bool → Manager → Option Err × Manager
  unfolding switch_current
  switch enabled m = switch_current enabled m.current m

  -- `NewManager`; the world is the one in which the service starts.
  unfoldable pub new_manager : ℕ → World → Manager
  new_manager capacity w = record {
    current = none;
    last = record zero_status { changed_at = env.clock w.reads };
    busy = false;
    world = record w { reads = w.reads + 1 };
    journal_capacity = if capacity == 0 then default_capacity else capacity;
  }
