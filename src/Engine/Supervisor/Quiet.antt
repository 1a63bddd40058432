-- ===== src/Engine/Supervisor/Quiet.antt =====
-- core/engine/supervise/supervisor.go: what a `Stop` leaves, and that it stays so.
use sora_client.Prelude.{
  ℕ, ◌≡◌, refl, ap, ◌∙◌, Bool, true, false, Bool-cases, inl, inr, ◌⊎◌, ◌≢◌, Option, none, some,
  List, [], ◌∷◌, arith, any,
}
use sora_client.Errs.{Err}
use sora_client.Engine.Events.{is_stopped, stopped, failed}
use sora_client.Engine.Supervisor.{Plan, Env, Supervisor, exited, join, stop_process, unroute}
use sora_client.Engine.Supervisor.Apply.{stop, stop_proc, report_stop, close}
use sora_client.Engine.Supervisor.Start.{kept}
use sora_client.Engine.Supervisor.Watch.{Exit, watch_exit, watch_restart}
use sora_client.Engine.Supervisor.Owned.{
  Held, RoutesKnown, IsOwned, set_state-same, set_state-state, unroute-same,
}
use sora_client.Engine.Supervisor.Keeps.{stop_process-Held, Held-none}
use sora_client.Engine.Supervisor.Runs.{
  Op, applies, stops, closes, dies, sees_exit, restarts, step, run,
}

kept-clears :
    (id : ℕ) (r : Option Err × Supervisor)
    → r.0 ≡ none
    → (r.1.alive ≡ []) ⊎ ((r.1.alive ≡ id ∷ []) × (r.0 ≢ none))
    → (kept id r ≡ r.1) × (r.1.alive ≡ [])
kept-clears id (none, s) n (inl a) = (refl, a)
kept-clears id (none, s) n (inr (a, k)) = absurd (k refl)
kept-clears id (some e, s) n h = absurd (ground arith)

stop_proc-clears :
    (env : Env) (proc : Option ℕ) (s : Supervisor)
    → Held proc s.alive
    → s.proc ≡ none
    → (stop_proc env proc s).0 ≡ none
    → let t = (stop_proc env proc s).1 in
      (t.alive ≡ []) × ((t.proc ≡ none) × ((t.routes ≡ s.routes) × (t.routed ≡ s.routed)))
unfolding stop_proc
stop_proc-clears env none s h e n = (Held-none s.alive h, (e, (refl, refl)))
stop_proc-clears env (some id) s h e n =
    let (p, (q, r), alive) = stop_process-Held env id s h in
    let (k, a) = kept-clears id (stop_process env id s) n alive in rw k (a, (p ∙ e, (q, r)))

unroute-clears :
    (env : Env) (s : Supervisor)
    → RoutesKnown env s
    → (unroute env s).0 ≡ none
    → (unroute env s).1.routes ≡ false
unfolding unroute
unroute-clears env s h n = ground arith

join-none : (a b : Option Err) → join a b ≡ none → (a ≡ none) × (b ≡ none)
join-none none b h = (refl, h)
join-none (some a) none h = absurd (ground arith)
join-none (some a) (some b) h = absurd (ground arith)

-- Nothing runs, and nothing is routed.
abbrev pub IsQuiet : Supervisor → Type 0
IsQuiet s = (s.proc ≡ none) × ((s.alive ≡ []) × (s.routes ≡ false))

report_stop-IsQuiet :
    (env : Env) (err : Option Err) (s : Supervisor) → IsQuiet s → IsQuiet (report_stop env err s).1
unfolding report_stop
report_stop-IsQuiet env none s h = let (a, (b, (c, d))) = set_state-same stopped s in rw (a, b, c) h
report_stop-IsQuiet env (some e) s h =
    let (a, (b, (c, d))) = set_state-same failed s in rw (a, b, c) h

report_stop-none :
    (env : Env) (err : Option Err) (s : Supervisor)
    → (report_stop env err s).0 ≡ none
    → (err ≡ none) × (is_stopped (report_stop env err s).1.state ≡ true)
unfolding report_stop
report_stop-none env none s n = (refl, ap is_stopped (set_state-state stopped s))
report_stop-none env (some e) s n = absurd (ground arith)

-- A stop that returns no error, of a supervisor that holds every live process, leaves it stopped,
-- with no live process and no installed routes.
pub stop-IsQuiet :
    (env : Env) (s : Supervisor)
    → IsOwned env s
    → (stop env s).0 ≡ none
    → IsQuiet (stop env s).1 × (is_stopped (stop env s).1.state ≡ true)
unfolding stop
stop-IsQuiet env s (h, k) n =
    let s0 = record s { stopping = true; proc = none; plan = none } in
    let r = stop_proc env s.proc s0 in
    let u = unroute env r.1 in
    let (e, st) = report_stop-none env (join r.0 u.0) u.1 n in
    let (e1, e2) = join-none r.0 u.0 e in
    let (a, (p, (q, t))) = stop_proc-clears env s.proc s0 h refl e1 in
    let (ua, (up, uk)) = unroute-same env r.1 in
    (
      report_stop-IsQuiet env (join r.0 u.0) u.1
          (up ∙ p, (ua ∙ a, unroute-clears env r.1 (rw (q, t) k) e2)),
      st,
    )

abbrev pub is_apply : Op → Bool
is_apply (applies p) = true
is_apply _ = false

unroute-quiet : (env : Env) (s : Supervisor) → s.routes ≡ false → (unroute env s).1.routes ≡ false
unfolding unroute
unroute-quiet env s h = ground arith

watch_exit-quiet :
    (env : Env) (now later id : ℕ) (x : Exit) (s : Supervisor)
    → s.proc ≡ none
    → (watch_exit env now later id x s).1 ≡ s
unfolding watch_exit
watch_exit-quiet env now later id x s p = rw p refl

watch_restart-quiet :
    (env : Env) (id : ℕ) (p : Plan) (s : Supervisor) → s.proc ≡ none → watch_restart env id p s ≡ s
unfolding watch_restart
watch_restart-quiet env id p s e = rw e refl

stop_proc-IsQuiet :
    (env : Env) (proc : Option ℕ) (s : Supervisor)
    → proc ≡ none
    → IsQuiet s
    → IsQuiet (stop_proc env proc s).1
unfolding stop_proc
stop_proc-IsQuiet env none s e h = h
stop_proc-IsQuiet env (some id) s e h = absurd (ground arith)

unroute-IsQuiet : (env : Env) (s : Supervisor) → IsQuiet s → IsQuiet (unroute env s).1
unroute-IsQuiet env s (p, (a, r)) =
    let (ua, (up, uk)) = unroute-same env s in (up ∙ p, (ua ∙ a, unroute-quiet env s r))

stop_again-IsQuiet : (env : Env) (s : Supervisor) → IsQuiet s → IsQuiet (stop env s).1
unfolding stop
stop_again-IsQuiet env s (p, h) =
    let r = stop_proc env s.proc (record s { stopping = true; proc = none; plan = none }) in
    report_stop-IsQuiet env (join r.0 (unroute env r.1).0) (unroute env r.1).1 (
      unroute-IsQuiet env r.1 (
        stop_proc-IsQuiet env s.proc (record s { stopping = true; proc = none; plan = none }) p
          (refl, h)))

step-IsQuiet :
    (env : Env) (o : Op) (s : Supervisor) → is_apply o ≡ false → IsQuiet s → IsQuiet (step env o s)
unfolding step close
step-IsQuiet env (applies p) s n h = absurd (ground arith)
step-IsQuiet env stops s n h = stop_again-IsQuiet env s h
step-IsQuiet env closes s n h = stop_again-IsQuiet env s h
step-IsQuiet env (dies id) s n (p, (a, r)) = (p, (rw a refl, r))
step-IsQuiet env (sees_exit now later id x) s n h = rw (watch_exit-quiet env now later id x s h.0) h
step-IsQuiet env (restarts id p) s n h = elim (Bool-cases (exited id s)) [
  | inl y ↦ rw (y, watch_restart-quiet env id p s h.0) h
  | inr m ↦ rw m h
]

run_on-IsQuiet :
    (env : Env) (os : List Op) (s : Supervisor)
    → any is_apply os ≡ false
    → IsQuiet s
    → IsQuiet (run env os s)
unfolding run
run_on-IsQuiet env [] s a h = h
run_on-IsQuiet env (o ∷ os) s a h =
    run_on-IsQuiet env os (step env o s) (ground arith) (step-IsQuiet env o s (ground arith) h)

-- After a stop that returned no error, of a supervisor that holds every live process and knows of all
-- installed routes, there is no live process and no installed route until the next `Apply`: a restart
-- that is still due, a crash, and a further stop change nothing in that.
pub run-IsQuiet :
    (env : Env) (os : List Op) (s : Supervisor)
    → IsOwned env s
    → (stop env s).0 ≡ none
    → any is_apply os ≡ false
    → IsQuiet (run env os (stop env s).1)
run-IsQuiet env os s h n a = run_on-IsQuiet env os (stop env s).1 a (stop-IsQuiet env s h n).0
