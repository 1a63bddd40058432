-- ===== src/Engine/Supervisor/Keeps.antt =====
-- core/engine/supervise/supervisor.go: `Apply` and `Stop` keep hold of every live process.
use sora_client.Prelude.{
  ℕ, ◌+◌, ◌≡◌, refl, subst, ◌∙◌, true, false, not, Bool-cases, inl, inr, ◌⊎◌, ◌≢◌, Option, none,
  some, List, [], ◌∷◌, arith, any, ◌==◌,
}
use sora_client.Errs.{Err}
use sora_client.Engine.Events.{stopped, failed}
use sora_client.Engine.Supervisor.{
  Plan, Reloaded, reloads, unsupported, refuses, Env, Supervisor, set_state, exited, join,
  stop_process, unroute,
}
use sora_client.Engine.Supervisor.Start.{start}
use sora_client.Engine.Supervisor.Apply.{
  apply, admitted, accept, converge, after_reload, after_stop, report_start, reload, stop,
  stop_proc, report_stop,
}
use sora_client.Engine.Supervisor.Owned.{
  Held, RoutesKnown, IsTidy, IsOwned, NoneAlive, self_eq, set_state-IsOwned, unroute-IsOwned,
  stop_process-one, start-IsOwned, kept-IsOwned,
}

-- A process that `Process.Stop` reports an error for has still exited.
abbrev pub Ends : Env → Type 0
Ends env = (n : ℕ) → ((env.stop n).0 ≢ none) → (env.stop n).1 ≡ true

pub Held-none : (ks : List ℕ) → Held none ks → ks ≡ []
Held-none [] h = refl
Held-none (k ∷ rest) h = absurd h

pub Held-exited :
    (id : ℕ) (ks : List ℕ) → Held (some id) ks → not (any (λ k. k == id) ks) ≡ true → ks ≡ []
Held-exited id [] h e = refl
Held-exited id (k ∷ rest) (h, r) e = absurd (ground (arith, self_eq id))

Held-running :
    (id : ℕ) (ks : List ℕ) → Held (some id) ks → not (any (λ k. k == id) ks) ≡ false → ks ≡ id ∷ []
Held-running id [] h e = absurd (ground arith)
Held-running id (k ∷ rest) (h, r) e = rw (h, r) refl

report_start-IsOwned :
    (env : Env) (r : Option Err × Supervisor) → IsOwned env r.1 → IsOwned env (report_start env r).1
unfolding report_start
report_start-IsOwned env (none, s) h = h
report_start-IsOwned env (some e, s) h =
    let r = set_state-IsOwned env failed s h in
    elim (Bool-cases env.has_logs) [ inl y ↦ rw y r | inr n ↦ rw n r ]

fresh-IsOwned :
    (env : Env) (tidy : IsTidy env) (p : Plan) (s : Supervisor)
    → NoneAlive env s
    → IsOwned env (report_start env (start env p s)).1
fresh-IsOwned env tidy p s h =
    report_start-IsOwned env (start env p s) (start-IsOwned env tidy p s h)

reload-same :
    (env : Env) (p : Plan) (s : Supervisor)
    → let t = (reload env p s).1 in
      (t.alive ≡ s.alive) × ((t.proc ≡ s.proc) × ((t.routes ≡ s.routes) × (t.routed ≡ s.routed)))
unfolding reload set_state
reload-same env p s = ground arith

stop_process-Ends :
    (env : Env) (id : ℕ) (s : Supervisor)
    → Ends env
    → s.alive ≡ id ∷ []
    → (stop_process env id s).1.alive ≡ []
unfolding stop_process
stop_process-Ends env id s h a = ground (arith, self_eq id, h s.asked)

stop_process-gone :
    (env : Env) (id : ℕ) (s : Supervisor) → exited id s ≡ true → stop_process env id s ≡ (none, s)
unfolding stop_process
stop_process-gone env id s h = simp h

after_stop-IsOwned :
    (env : Env) (tidy : IsTidy env) (p : Plan) (r : Option Err × Supervisor)
    → NoneAlive env r.1
    → IsOwned env (after_stop env p r).1
unfolding after_stop
after_stop-IsOwned env tidy p (some e, s) (a, h) = (rw a tt, h)
after_stop-IsOwned env tidy p (none, s) h = fresh-IsOwned env tidy p s h

after_reload-IsOwned :
    (env : Env) (tidy : IsTidy env) (id : ℕ) (p : Plan) (r : Reloaded × Supervisor)
    → Ends env
    → r.1.alive ≡ id ∷ []
    → IsOwned env r.1
    → IsOwned env (after_reload env id p r).1
unfolding after_reload
after_reload-IsOwned env tidy id p (reloads, s) ends a h = h
after_reload-IsOwned env tidy id p (refuses e, s) ends a h = h
after_reload-IsOwned env tidy id p (unsupported, s) ends a (h, k) =
    let s1 = record s { proc = none } in
    let (pr, (q, r), alive) = stop_process-one env id s1 a in
    after_stop-IsOwned env tidy p (stop_process env id s1)
      (stop_process-Ends env id s1 ends a, rw (q, r) k)

converge-IsOwned :
    (env : Env) (tidy : IsTidy env) (p : Plan) (proc : Option ℕ) (s : Supervisor)
    → Ends env
    → s.proc ≡ proc
    → IsOwned env s
    → IsOwned env (converge env p proc s).1
unfolding converge
converge-IsOwned env tidy p none s ends e (h, k) =
    fresh-IsOwned env tidy p s (Held-none s.alive (subst (λ v. Held v s.alive) e h), k)
converge-IsOwned env tidy p (some id) s ends e (h, k) =
    let held = subst (λ v. Held v s.alive) e h in
    let (a, (b, (c, d))) = reload-same env p s in
    elim (Bool-cases (exited id s)) [
      | inl gone ↦ simp gone (fresh-IsOwned env tidy p s (Held-exited id s.alive held gone, k))
      | inr live ↦ simp live (
          after_reload-IsOwned env tidy id p (reload env p s) ends
            (a ∙ Held-running id s.alive held live) (rw (a, b, c, d) (h, k)))
    ]

accept-IsOwned :
    (env : Env) (tidy : IsTidy env) (r : Option Err × Plan) (s : Supervisor)
    → Ends env
    → IsOwned env s
    → IsOwned env (accept env r s).1
unfolding accept
accept-IsOwned env tidy (some e, p) s ends h = h
accept-IsOwned env tidy (none, p) s ends h =
    converge-IsOwned env tidy p s.proc (record s { plan = some p; stopping = false }) ends refl h

admitted-IsOwned :
    (env : Env) (tidy : IsTidy env) (err : Option Err) (p : Plan) (s : Supervisor)
    → Ends env
    → IsOwned env s
    → IsOwned env (admitted env err p s).1
unfolding admitted
admitted-IsOwned env tidy (some e) p s ends h = h
admitted-IsOwned env tidy none p s ends h =
    accept-IsOwned env tidy (env.prepare_tun s.asked p) (record s { asked = s.asked + 1 }) ends h

pub apply-IsOwned :
    (env : Env) (tidy : IsTidy env) (p : Option Plan) (s : Supervisor)
    → Ends env
    → IsOwned env s
    → IsOwned env (apply env p s).1
unfolding apply
apply-IsOwned env tidy none s ends h = h
apply-IsOwned env tidy (some p) s ends h =
    admitted-IsOwned env tidy (env.admit s.asked p) p (record s { asked = s.asked + 1 }) ends h

report_stop-IsOwned :
    (env : Env) (err : Option Err) (s : Supervisor)
    → IsOwned env s
    → IsOwned env (report_stop env err s).1
unfolding report_stop
report_stop-IsOwned env none s h = set_state-IsOwned env stopped s h
report_stop-IsOwned env (some e) s h = set_state-IsOwned env failed s h

-- `Process.Stop` of the supervisor's process, live or not.
pub stop_process-Held :
    (env : Env) (id : ℕ) (s : Supervisor)
    → Held (some id) s.alive
    → let (err, t) = stop_process env id s in
      (t.proc ≡ s.proc)
      × ((t.routes ≡ s.routes) × (t.routed ≡ s.routed))
      × ((t.alive ≡ []) ⊎ ((t.alive ≡ id ∷ []) × (err ≢ none)))
stop_process-Held env id s h = elim (Bool-cases (exited id s)) [
  | inl gone ↦
      rw (stop_process-gone env id s gone) (refl, (refl, refl), inl (Held-exited id s.alive h gone))
  | inr live ↦ stop_process-one env id s (Held-running id s.alive h live)
]

stop_proc-keeps :
    (env : Env) (proc : Option ℕ) (s : Supervisor)
    → Held proc s.alive
    → RoutesKnown env s
    → IsOwned env (stop_proc env proc (record s { stopping = true; proc = none; plan = none })).1
unfolding stop_proc
stop_proc-keeps env none s h k = (rw (Held-none s.alive h) tt, k)
stop_proc-keeps env (some id) s h k =
    let s1 = record s { stopping = true; proc = none; plan = none } in
    let (p, (q, r), alive) = stop_process-Held env id s1 h in
    kept-IsOwned env id (stop_process env id s1) (rw (q, r) k) alive

stop_proc-IsOwned :
    (env : Env) (s : Supervisor)
    → IsOwned env s
    → IsOwned env (stop_proc env s.proc (record s { stopping = true; proc = none; plan = none })).1
stop_proc-IsOwned env s h = stop_proc-keeps env s.proc s h.0 h.1

pub stop-IsOwned : (env : Env) (s : Supervisor) → IsOwned env s → IsOwned env (stop env s).1
unfolding stop
stop-IsOwned env s h =
    let r = stop_proc env s.proc (record s { stopping = true; proc = none; plan = none }) in
    let u = unroute env r.1 in
    report_stop-IsOwned env (join r.0 u.0) u.1 (unroute-IsOwned env r.1 (stop_proc-IsOwned env s h))
