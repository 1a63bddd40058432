-- ===== src/Engine/Supervisor/Restarts.antt =====
-- core/engine/supervise/supervisor.go: the restarts of `watch` keep hold of every live process.
use sora_client.Prelude.{
  ℕ, ◌≡◌, subst, true, false, ◌||◌, not, Bool-cases, inl, inr, Option, none, some, List, [], ◌∷◌,
  arith, any, ◌==◌,
}
use sora_client.Errs.{Err, foreign}
use sora_client.Engine.Events.{recovering, stopped, failed, engine_down}
use sora_client.Engine.Backoff.{allow}
use sora_client.Engine.Supervisor.{
  Plan, Env, Supervisor, exited, is_proc, unroute, publish, log_error,
}
use sora_client.Engine.Supervisor.Start.{start}
use sora_client.Engine.Supervisor.Watch.{
  Exit, exits, canceled, exhausted, restart, resume, on_exit, exit_of, watch_exit, report_restart,
  watch_restart,
}
use sora_client.Engine.Supervisor.Owned.{
  Held, IsTidy, IsOwned, set_state-IsOwned, unroute-IsOwned, start-IsOwned,
}
use sora_client.Engine.Supervisor.Keeps.{Held-exited}

exhausted-IsOwned :
    (env : Env) (e : Err) (s : Supervisor) → IsOwned env s → IsOwned env (exhausted env e s)
unfolding exhausted
exhausted-IsOwned env e s h =
    set_state-IsOwned env failed (unroute env s).1 (unroute-IsOwned env s h)

restart-IsOwned :
    (env : Env) (now later : ℕ) (e : Err) (p : Plan) (s : Supervisor)
    → IsOwned env s
    → IsOwned env (restart env now later e p s).1
unfolding restart
restart-IsOwned env now later e p s h =
    let s1 = record s { budget = (allow now later s.budget).1 } in
    elim (Bool-cases (allow now later s.budget).0) [
      | inl y ↦ rw y (set_state-IsOwned env recovering s1 h)
      | inr n ↦ rw n (exhausted-IsOwned env e s1 h)
    ]

report_restart-IsOwned :
    (env : Env) (r : Option Err × Supervisor) → IsOwned env r.1 → IsOwned env (report_restart env r)
unfolding report_restart
report_restart-IsOwned env (none, s) h = h
report_restart-IsOwned env (some e, s) h = elim (Bool-cases env.has_logs) [
  | inl y ↦ rw y (set_state-IsOwned env failed (record s { log = env.mask e ∷ s.log }) h)
  | inr n ↦ rw n (set_state-IsOwned env failed s h)
]

resume-IsOwned :
    (env : Env) (now later : ℕ) (e : Err) (p : Option Plan) (s : Supervisor)
    → IsOwned env s
    → IsOwned env (resume env now later e p s).1
unfolding resume
resume-IsOwned env now later e none s h = set_state-IsOwned env stopped s h
resume-IsOwned env now later e (some p) s h = restart-IsOwned env now later e p s h

exit_of-IsOwned :
    (env : Env) (now later : ℕ) (e : Err) (s : Supervisor)
    → IsOwned env s
    → IsOwned env (exit_of env now later e s).1
unfolding exit_of
exit_of-IsOwned env now later e s h =
    let down = publish engine_down recovering "" (some (env.mask e)) (log_error env e s) in
    elim (Bool-cases env.has_logs) [
      | inl y ↦ resume-IsOwned env now later e s.plan down (rw y h)
      | inr n ↦ resume-IsOwned env now later e s.plan down (rw n h)
    ]

on_exit-IsOwned :
    (env : Env) (now later : ℕ) (x : Exit) (s : Supervisor)
    → IsOwned env s
    → IsOwned env (on_exit env now later x s).1
unfolding on_exit
on_exit-IsOwned env now later canceled s h = set_state-IsOwned env stopped s h
on_exit-IsOwned env now later (exits none) s h =
    exit_of-IsOwned env now later (foreign "engine exited unexpectedly with status 0") s h
on_exit-IsOwned env now later (exits (some e)) s h = exit_of-IsOwned env now later e s h

pub watch_exit-IsOwned :
    (env : Env) (now later id : ℕ) (x : Exit) (s : Supervisor)
    → IsOwned env s
    → IsOwned env (watch_exit env now later id x s).1
unfolding watch_exit
watch_exit-IsOwned env now later id x s h = elim (Bool-cases (not (is_proc id s) || s.stopping)) [
  | inl y ↦ rw y h
  | inr n ↦ rw n (on_exit-IsOwned env now later x s h)
]

is_proc-Held :
    (id : ℕ) (proc : Option ℕ) (ks : List ℕ)
    → Held proc ks
    → not (elim proc [ none ↦ false | some k ↦ k == id ]) ≡ false
    → not (any (λ k. k == id) ks) ≡ true
    → ks ≡ []
is_proc-Held id none ks h p gone = absurd (ground arith)
is_proc-Held id (some k) ks h p gone =
    let e : k ≡ id = ground arith in Held-exited id ks (subst (λ v. Held (some v) ks) e h) gone

-- The restarted process is the only one: the one before it has exited.
pub watch_restart-IsOwned :
    (env : Env) (tidy : IsTidy env) (id : ℕ) (p : Plan) (s : Supervisor)
    → exited id s ≡ true
    → IsOwned env s
    → IsOwned env (watch_restart env id p s)
unfolding watch_restart
watch_restart-IsOwned env tidy id p s gone (h, k) =
    elim (Bool-cases (not (is_proc id s) || s.stopping || s.closed)) [
      | inl y ↦ rw y (h, k)
      | inr n ↦ rw n (
          report_restart-IsOwned env (start env p s)
            (start-IsOwned env tidy p s (is_proc-Held id s.proc s.alive h (ground arith) gone, k)))
    ]
