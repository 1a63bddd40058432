-- ===== src/Engine/Supervisor/Start.antt =====
-- core/engine/supervise/supervisor.go: `start`, which brings an engine up from nothing.
use sora_client.Prelude.{ℕ, ◌+◌, true, ◌&&◌, ◌||◌, not, Option, none, some, ◌∷◌, if◌then◌else◌}
use sora_client.Errs.{Err}
use sora_client.Engine.Events.{starting, running, state_event}
use sora_client.Engine.Supervisor.{
  Plan, Env, Supervisor, publish, set_state, ask, exited, join, stop_process, unroute,
}

-- After `Route`: a failure may leave routes that `routed` does not know of.
abbrev pub routed_by : Env → Option Err → Supervisor → Option Err × Supervisor
routed_by env none s = (none, record s { routed = true; routes = true })
routed_by env (some e) s = (some e, record s { routes = s.routes || env.leaves_routes s.asked })

-- The installation of routes; only a `Router` has them.
abbrev pub install : Env → Plan → Supervisor → Option Err × Supervisor
install env p s =
    if p.tun_enabled && env.is_router
    then routed_by env (env.route s.asked) (record s { asked = s.asked + 1 })
    else (none, s)

-- From the handshake to the routes.
unfoldable pub bring_up : Env → Plan → Supervisor → Option Err × Supervisor
bring_up env p s = ask env.wait_ready (ask env.confirm_start (install env p)) s

-- A process that could not be stopped stays the supervisor's.
abbrev pub kept : ℕ → Option Err × Supervisor → Supervisor
kept id (none, s) = s
kept id (some e, s) = if not (exited id s) then record s { proc = some id } else s

-- After a failure: the process is stopped, or kept if it cannot be, and routes are released.
unfoldable pub give_up : Env → ℕ → Err → Supervisor → Option Err × Supervisor
unfolding stop_process unroute
give_up env id e s =
    let stopped = stop_process env id s in
    let (route_err, s1) = unroute env (kept id stopped) in
    (join (join (some e) stopped.0) route_err, s1)

-- The message carries the engine's name and version, which are not part of this state.
unfoldable pub started : ℕ → Supervisor → Supervisor
unfolding set_state
started id s =
    publish state_event running "is running" none (set_state running (record s { proc = some id }))

unfoldable pub settle : Env → ℕ → Option Err × Supervisor → Option Err × Supervisor
unfolding give_up started
settle env id (some e, s) = give_up env id e s
settle env id (none, s) = (none, started id s)

-- What follows the launch of the process `id`.
unfoldable pub attach : Env → Plan → ℕ → Supervisor → Option Err × Supervisor
unfolding bring_up settle
attach env p id s =
    settle env id (bring_up env p (record s { alive = id ∷ s.alive; made = id + 1 }))

unfoldable pub launch : Env → Plan → Supervisor → Option Err × Supervisor
unfolding set_state attach
launch env p s = ask env.spawn (attach env p s.made) (set_state starting s)

-- From the rendered configuration on.
unfoldable pub prepare : Env → Plan → Supervisor → Option Err × Supervisor
unfolding launch
prepare env p s = ask (λ n. env.render n p) (ask env.check (ask env.prepare_start (launch env p))) s

-- `start`
unfoldable pub start : Env → Plan → Supervisor → Option Err × Supervisor
unfolding prepare
start env p s = ask env.reserve (prepare env p) s
