-- ===== src/Engine/Supervisor/Watch.antt =====
-- core/engine/supervise/supervisor.go: `watch`, which follows a process until it exits. Its two
-- critical sections are two operations: what it does on the exit, and the restart after the delay.
use sora_client.Prelude.{ℕ, ◌-◌, ◌||◌, not, Option, none, some, if◌then◌else◌}
use sora_client.Errs.{Err, foreign, joined}
use sora_client.Engine.Events.{recovering, stopped, failed, engine_down, restart_event, fatal}
use sora_client.Engine.Backoff.{allow, used}
use sora_client.Engine.Supervisor.{
  Plan, Env, Supervisor, publish, set_state, log_error, is_proc, unroute,
}
use sora_client.Engine.Supervisor.Start.{start}

-- What `Process.Wait` returns.
pub data Exit : Type 0 where
  exits : Option Err → Exit
  canceled : Exit

-- A restart that is due: the plan to start and the attempt that its delay is for.
abbrev pub Due : Type 0
Due = Option (Plan × ℕ)

-- The budget is exhausted.
unfoldable pub exhausted : Env → Err → Supervisor → Supervisor
unfolding set_state unroute
exhausted env e s =
    let (route_err, s1) = unroute env s in
    let masked : Err = elim route_err [ none ↦ env.mask e | some r ↦ env.mask (joined e r) ] in
    publish fatal failed "more restarts than the budget has" (some masked) (set_state failed s1)

unfoldable pub restart : Env → ℕ → ℕ → Err → Plan → Supervisor → Due × Supervisor
unfolding set_state exhausted allow used
restart env now later e p s =
    let (allowed, budget) = allow now later s.budget in
    let s1 = record s { budget = budget } in
    if not allowed then (none, exhausted env e s1) else (
      some (p, used budget - 1),
      publish restart_event recovering "restarting" none (set_state recovering s1),
    )

-- A process that has exited is restarted if there is a plan.
unfoldable pub resume : Env → ℕ → ℕ → Err → Option Plan → Supervisor → Due × Supervisor
unfolding set_state restart
resume env now later e none s = (none, set_state stopped s)
resume env now later e (some p) s = restart env now later e p s

unfoldable pub exit_of : Env → ℕ → ℕ → Err → Supervisor → Due × Supervisor
unfolding resume
exit_of env now later e s =
    resume env now later e s.plan
      (publish engine_down recovering "" (some (env.mask e)) (log_error env e s))

-- The exit of the process that the supervisor runs.
unfoldable pub on_exit : Env → ℕ → ℕ → Exit → Supervisor → Due × Supervisor
unfolding set_state exit_of
on_exit env now later canceled s = (none, set_state stopped s)
on_exit env now later (exits none) s =
    exit_of env now later (foreign "engine exited unexpectedly with status 0") s
on_exit env now later (exits (some e)) s = exit_of env now later e s

-- `watch` up to the timer.
unfoldable pub watch_exit : Env → ℕ → ℕ → ℕ → Exit → Supervisor → Due × Supervisor
unfolding on_exit
watch_exit env now later id x s =
    if not (is_proc id s) || s.stopping then (none, s) else on_exit env now later x s

unfoldable pub report_restart : Env → Option Err × Supervisor → Supervisor
unfolding set_state
report_restart env (none, s) = s
report_restart env (some e, s) =
    publish fatal failed "" (some (env.mask e)) (set_state failed (log_error env e s))

-- `watch` once the timer has fired.
unfoldable pub watch_restart : Env → ℕ → Plan → Supervisor → Supervisor
unfolding start report_restart
watch_restart env id p s =
    if not (is_proc id s) || s.stopping || s.closed then s else report_restart env (start env p s)
