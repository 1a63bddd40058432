-- ===== src/Engine/Supervisor/Apply.antt =====
-- core/engine/supervise/supervisor.go: `Apply`, `reload`, `Stop` and `Close`.
use sora_client.Prelude.{ℕ, ◌+◌, true, false, Option, none, some, if◌then◌else◌}
use sora_client.Errs.{Err, foreign}
use sora_client.Engine.Events.{applying, running, stopped, failed, state_event, fatal}
use sora_client.Engine.Supervisor.{
  Plan, Reloaded, reloads, unsupported, refuses, Env, Supervisor, publish, set_state, log_error,
  exited, join, stop_process, unroute,
}
use sora_client.Engine.Supervisor.Start.{start, kept}

-- `reload`; its errors are masked here, and `ErrReloadUnsupported` is passed on.
unfoldable pub reload : Env → Plan → Supervisor → Reloaded × Supervisor
unfolding set_state
reload env p s =
    let s1 = set_state applying s in
    let s2 = record s1 { asked = s1.asked + 1 } in
    let s3 = record s2 { asked = s2.asked + 1 } in
    elim (env.render s1.asked p) [
      | some e ↦ (refuses (env.mask e), set_state running s2)
      | none ↦ elim (env.reload s2.asked) [
        | reloads ↦
            (reloads, set_state running (publish state_event running "plan applied" none s3))
        | unsupported ↦ (unsupported, set_state running s3)
        | refuses e ↦ (refuses (env.mask e), set_state running s3)
      ]
    ]

-- What `Apply` does once `start` has returned.
unfoldable pub report_start : Env → Option Err × Supervisor → Option Err × Supervisor
unfolding set_state
report_start env (none, s) = (none, s)
report_start env (some e, s) = (
  some (env.mask e),
  publish fatal failed "" (some (env.mask e)) (log_error env e (set_state failed s)),
)

unfoldable pub after_stop : Env → Plan → Option Err × Supervisor → Option Err × Supervisor
unfolding start report_start
after_stop env p (some e, s) = (some (env.mask e), s)
after_stop env p (none, s) = report_start env (start env p s)

-- What `Apply` does once `reload` has returned.
unfoldable pub after_reload : Env → ℕ → Plan → Reloaded × Supervisor → Option Err × Supervisor
unfolding stop_process after_stop
after_reload env id p (reloads, s) = (none, s)
after_reload env id p (refuses e, s) = (some e, s)
after_reload env id p (unsupported, s) =
    after_stop env p (stop_process env id (record s { proc = none }))

-- The rest of `Apply`, for the process that the supervisor has.
unfoldable pub converge : Env → Plan → Option ℕ → Supervisor → Option Err × Supervisor
unfolding start report_start reload after_reload
converge env p none s = report_start env (start env p s)
converge env p (some id) s =
    if exited id s then report_start env (start env p s) else after_reload env id p (reload env p s)

unfoldable pub accept : Env → Option Err × Plan → Supervisor → Option Err × Supervisor
unfolding converge
accept env (some e, p) s = (some (env.mask e), s)
accept env (none, p) s = converge env p s.proc (record s { plan = some p; stopping = false })

-- What `Apply` does once the plan has been checked.
unfoldable pub admitted : Env → Option Err → Plan → Supervisor → Option Err × Supervisor
unfolding accept
admitted env (some e) p s = (some e, s)
admitted env none p s = accept env (env.prepare_tun s.asked p) (record s { asked = s.asked + 1 })

-- `Apply`
unfoldable pub apply : Env → Option Plan → Supervisor → Option Err × Supervisor
unfolding admitted
apply env none s = (some (foreign "nil plan"), s)
apply env (some p) s = admitted env (env.admit s.asked p) p (record s { asked = s.asked + 1 })

-- `proc.Stop` of the process that the supervisor had.
unfoldable pub stop_proc : Env → Option ℕ → Supervisor → Option Err × Supervisor
unfolding stop_process
stop_proc env none s = (none, s)
stop_proc env (some id) s = let r = stop_process env id s in (r.0, kept id r)

unfoldable pub report_stop : Env → Option Err → Supervisor → Option Err × Supervisor
unfolding set_state
report_stop env none s = (none, set_state stopped s)
report_stop env (some e) s = (some (env.mask e), set_state failed s)

-- `Stop`
unfoldable pub stop : Env → Supervisor → Option Err × Supervisor
unfolding stop_proc unroute report_stop
stop env s =
    let (err, s1) = stop_proc env s.proc (record s { stopping = true; proc = none; plan = none }) in
    let (route_err, s2) = unroute env s1 in report_stop env (join err route_err) s2

-- `Close`
unfoldable pub close : Env → Supervisor → Option Err × Supervisor
unfolding stop
close env s = let (err, s1) = stop env s in (err, record s1 { closed = true })
