-- ===== src/Engine/Supervisor/Lost.antt =====
-- core/engine/supervise/supervisor.go: two ways in which `Apply` loses track of a process.
use sora_client.Prelude.{
  ℕ, ◌+◌, ◌≡◌, refl, ap, ◌∙◌, true, false, Option, none, some, [], ◌∷◌, arith,
}
use sora_client.Errs.{Err}
use sora_client.Engine.Supervisor.{
  Plan, Reloaded, reloads, unsupported, refuses, Env, Supervisor, ask, set_state, is_proc,
  stop_process, unroute,
}
use sora_client.Engine.Supervisor.Start.{start, prepare, launch}
use sora_client.Engine.Supervisor.Apply.{
  apply, admitted, accept, converge, after_reload, after_stop, report_start, reload, stop,
  stop_proc, report_stop,
}
use sora_client.Engine.Supervisor.Watch.{watch_restart, report_restart}
use sora_client.Engine.Supervisor.Owned.{self_eq}

-- An engine that takes the plan `p` only by a restart, and whose process does not stop.
abbrev pub Sticks : Env → Plan → Err → Type 0
Sticks env p e =
    ((n : ℕ) → env.admit n p ≡ none)
    × ((n : ℕ) → env.prepare_tun n p ≡ (none, p))
    × ((n : ℕ) → env.render n p ≡ none)
    × ((n : ℕ) → env.reload n ≡ unsupported)
    × ((n : ℕ) → env.stop n ≡ (some e, false))

reload-unsupported :
    (env : Env) (p : Plan) (e : Err) (s : Supervisor)
    → Sticks env p e
    → let r = reload env p s in
      (r.0 ≡ unsupported)
      × ((r.1.alive ≡ s.alive) × ((r.1.routed ≡ s.routed) × (r.1.proc ≡ s.proc)))
unfolding reload set_state
reload-unsupported env p e s (adm, tun, ren, rel, st) =
    ground (arith, ren s.asked, rel (s.asked + 1))

after_reload-loses :
    (env : Env) (id : ℕ) (p : Plan) (e : Err) (r : Reloaded × Supervisor)
    → Sticks env p e
    → r.0 ≡ unsupported
    → r.1.alive ≡ id ∷ []
    → let t = (after_reload env id p r).1 in
      (t.proc ≡ none) × ((t.alive ≡ id ∷ []) × (t.routed ≡ r.1.routed))
unfolding after_reload stop_process after_stop
after_reload-loses env id p e (reloads, s) k u a = absurd (ground arith)
after_reload-loses env id p e (refuses x, s) k u a = absurd (ground arith)
after_reload-loses env id p e (unsupported, s) (adm, tun, ren, rel, st) u a =
    simp (a, self_eq id, st s.asked) (refl, (refl, refl))

converge-loses :
    (env : Env) (id : ℕ) (p : Plan) (e : Err) (s : Supervisor)
    → Sticks env p e
    → s.alive ≡ id ∷ []
    → let t = (converge env p (some id) s).1 in
      (t.proc ≡ none) × ((t.alive ≡ id ∷ []) × (t.routed ≡ s.routed))
unfolding converge
converge-loses env id p e s k a =
    let (u, (b, (c, d))) = reload-unsupported env p e s k in
    let (x, (y, z)) = after_reload-loses env id p e (reload env p s) k u (b ∙ a) in
    simp (a, self_eq id) (x, (y, z ∙ c))

apply-goes :
    (env : Env) (p : Plan) (s : Supervisor)
    → env.admit s.asked p ≡ none
    → env.prepare_tun (s.asked + 1) p ≡ (none, p)
    → apply env (some p) s
      ≡ converge env p s.proc
          (record s { plan = some p; stopping = false; asked = s.asked + 1 + 1 })
unfolding apply admitted accept
apply-goes env p s adm tun = rw (adm, tun) refl

stop-nothing :
    (env : Env) (s : Supervisor)
    → s.proc ≡ none
    → s.routed ≡ false
    → ((stop env s).0 ≡ none) × ((stop env s).1.alive ≡ s.alive)
unfolding stop stop_proc unroute report_stop set_state
stop-nothing env s p r = ground arith

-- If an engine takes a plan only by a restart, its process cannot be stopped and no routes are known to be
-- installed, `Apply` forgets the process although it is still alive, and a later `Stop` returns no error
-- and leaves it alive.
pub apply-loses_process :
    (env : Env) (p : Plan) (e : Err) (id : ℕ) (s : Supervisor)
    → Sticks env p e
    → s.proc ≡ some id
    → s.alive ≡ id ∷ []
    → s.routed ≡ false
    → let t = (apply env (some p) s).1 in
      (t.proc ≡ none)
      × (t.alive ≡ id ∷ [])
      × ((stop env t).0 ≡ none)
      × ((stop env t).1.alive ≡ id ∷ [])
apply-loses_process env p e id s k pr al ro =
    let s1 = record s { plan = some p; stopping = false; asked = s.asked + 1 + 1 } in
    let t = converge env p (some id) s1 in
    let eq : apply env (some p) s ≡ t =
      apply-goes env p s (k.0 s.asked) (k.1 (s.asked + 1))
      ∙ ap (λ proc. converge env p proc s1) pr in
    let (a, (b, c)) = converge-loses env id p e s1 k al in
    let (x, y) = stop-nothing env t.1 a (c ∙ ro) in rw eq (a, b, x, y ∙ b)

-- A plan that the engine's configuration cannot be rendered for.
abbrev pub IsUnrenderable : Env → Plan → Err → Type 0
IsUnrenderable env p e =
    ((n : ℕ) → env.admit n p ≡ none)
    × ((n : ℕ) → env.prepare_tun n p ≡ (none, p))
    × ((n : ℕ) → env.reserve n ≡ none)
    × ((n : ℕ) → env.render n p ≡ some e)

ask-none :
    (question : ℕ → Option Err) (go_on : Supervisor → Option Err × Supervisor) (s : Supervisor)
    → question s.asked ≡ none
    → ask question go_on s ≡ go_on (record s { asked = s.asked + 1 })
ask-none question go_on s h = rw (ask, h) refl

ask-some :
    (question : ℕ → Option Err) (go_on : Supervisor → Option Err × Supervisor) (s : Supervisor)
    (e : Err)
    → question s.asked ≡ some e
    → ask question go_on s ≡ (some e, record s { asked = s.asked + 1 })
ask-some question go_on s e h = rw (ask, h) refl

start-unrenderable :
    (env : Env) (p : Plan) (e : Err) (s : Supervisor)
    → IsUnrenderable env p e
    → start env p s ≡ (some e, record s { asked = s.asked + 1 + 1 })
unfolding start prepare
start-unrenderable env p e s (adm, tun, res, ren) =
    ask-none env.reserve (prepare env p) s (res s.asked)
    ∙ ask-some (λ n. env.render n p) (ask env.check (ask env.prepare_start (launch env p)))
        (record s { asked = s.asked + 1 }) e (ren (s.asked + 1))

converge-exited :
    (env : Env) (p : Plan) (id : ℕ) (s : Supervisor)
    → s.alive ≡ []
    → converge env p (some id) s ≡ report_start env (start env p s)
unfolding converge
converge-exited env p id s a = simp a

apply-unrenderable :
    (env : Env) (p : Plan) (e : Err) (id : ℕ) (s : Supervisor)
    → IsUnrenderable env p e
    → s.proc ≡ some id
    → s.alive ≡ []
    → apply env (some p) s
      ≡ report_start env
          (some e, record s { plan = some p; stopping = false; asked = s.asked + 1 + 1 + 1 + 1 })
apply-unrenderable env p e id s k pr al =
    let s1 = record s { plan = some p; stopping = false; asked = s.asked + 1 + 1 } in
    apply-goes env p s (k.0 s.asked) (k.1 (s.asked + 1))
    ∙ ap (λ proc. converge env p proc s1) pr
    ∙ converge-exited env p id s1 al
    ∙ ap (report_start env) (start-unrenderable env p e s1 k)

report_start-same :
    (env : Env) (e : Err) (s : Supervisor)
    → let t = (report_start env (some e, s)).1 in
      (t.proc ≡ s.proc) × ((t.plan ≡ s.plan) × ((t.stopping ≡ s.stopping) × (t.closed ≡ s.closed)))
unfolding report_start set_state
report_start-same env e s = ground arith

watch_restart-goes :
    (env : Env) (id : ℕ) (p : Plan) (s : Supervisor)
    → s.proc ≡ some id
    → s.stopping ≡ false
    → s.closed ≡ false
    → watch_restart env id p s ≡ report_restart env (start env p s)
unfolding watch_restart
watch_restart-goes env id p s a b c =
    let here : is_proc id s ≡ true = rw a (self_eq id) in simp (here, b, c)

-- If the engine has crashed and the restart with the plan `old` is due, and `Apply` of a plan that
-- cannot be rendered fails, the supervisor has the new plan, and the timer starts the old one.
pub apply-starts_old :
    (env : Env) (p old : Plan) (e : Err) (id : ℕ) (s : Supervisor)
    → IsUnrenderable env p e
    → s.proc ≡ some id
    → s.alive ≡ []
    → s.closed ≡ false
    → let (err, t) = apply env (some p) s in
      (err ≡ some (env.mask e))
      × (t.plan ≡ some p)
      × (watch_restart env id old t ≡ report_restart env (start env old t))
unfolding report_start
apply-starts_old env p old e id s k pr al cl =
    let s1 = record s { plan = some p; stopping = false; asked = s.asked + 1 + 1 } in
    let s2 = record s1 { asked = s1.asked + 1 + 1 } in
    let (a, (b, (c, d))) = report_start-same env e s2 in
    rw (apply-unrenderable env p e id s k pr al)
      (refl, b, watch_restart-goes env id old (report_start env (some e, s2)).1 (a ∙ pr) c (d ∙ cl))
