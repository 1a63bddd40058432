-- ===== src/Engine/Supervisor/Owned.antt =====
-- core/engine/supervise/supervisor.go: which processes and routes the supervisor holds on to.
use sora_client.Prelude.{
  ℕ, ◌+◌, ◌≡◌, refl, ap, ◌∙◌, true, false, ◌&&◌, inl, inr, ◌⊎◌, ◌≢◌, Option, none, some, List, [],
  ◌∷◌, arith, ◌==◌,
}
use sora_client.Errs.{Err}
use sora_client.Engine.Supervisor.{Plan, Env, ask, Supervisor, set_state, stop_process, unroute}
use sora_client.Engine.Events.{State, starting, running}
use sora_client.Engine.Supervisor.Start.{
  start, launch, prepare, attach, settle, bring_up, started, kept, give_up,
}

-- Every live process is the supervisor's.
abbrev pub Held : Option ℕ → List ℕ → Type 0
Held proc [] = Unit
Held none (k ∷ rest) = ⊥
Held (some id) (k ∷ rest) = (k ≡ id) × (rest ≡ [])

-- Installed routes are known, and only a `Router` has them.
abbrev pub RoutesKnown : Env → Supervisor → Type 0
RoutesKnown env s = (s.routes ≡ true) → (s.routed && env.is_router) ≡ true

-- A `Route` that fails leaves no routes behind.
abbrev pub IsTidy : Env → Type 0
IsTidy env = (n : ℕ) → env.leaves_routes n ≡ false

abbrev pub IsOwned : Env → Supervisor → Type 0
IsOwned env s = Held s.proc s.alive × RoutesKnown env s

abbrev pub NoneAlive : Env → Supervisor → Type 0
NoneAlive env s = (s.alive ≡ []) × RoutesKnown env s

pub self_eq : (id : ℕ) → id == id ≡ true
self_eq id = ground arith

pub set_state-same :
    (st : State) (s : Supervisor)
    → let t = set_state st s in
      (t.alive ≡ s.alive) × ((t.proc ≡ s.proc) × ((t.routes ≡ s.routes) × (t.routed ≡ s.routed)))
unfolding set_state
set_state-same st s = ground arith

pub set_state-state : (st : State) (s : Supervisor) → (set_state st s).state ≡ st
unfolding set_state
set_state-state st s = ground arith

pub set_state-IsOwned :
    (env : Env) (st : State) (s : Supervisor) → IsOwned env s → IsOwned env (set_state st s)
set_state-IsOwned env st s h = let (a, (b, (c, d))) = set_state-same st s in rw (a, b, c, d) h

set_state-NoneAlive :
    (env : Env) (st : State) (s : Supervisor) → NoneAlive env s → NoneAlive env (set_state st s)
set_state-NoneAlive env st s h = let (a, (b, (c, d))) = set_state-same st s in rw (a, c, d) h

pub unroute-same :
    (env : Env) (s : Supervisor)
    → let t = (unroute env s).1 in
      (t.alive ≡ s.alive) × ((t.proc ≡ s.proc) × (RoutesKnown env s → RoutesKnown env t))
unfolding unroute
unroute-same env s = ground arith

pub unroute-IsOwned : (env : Env) (s : Supervisor) → IsOwned env s → IsOwned env (unroute env s).1
unroute-IsOwned env s (h, r) = let (a, (b, c)) = unroute-same env s in (rw (a, b) h, c r)

-- `Process.Stop` of the only live process: it is gone, or there is an error.
pub stop_process-one :
    (env : Env) (id : ℕ) (s : Supervisor)
    → s.alive ≡ id ∷ []
    → let (err, t) = stop_process env id s in
      (t.proc ≡ s.proc)
      × ((t.routes ≡ s.routes) × (t.routed ≡ s.routed))
      × ((t.alive ≡ []) ⊎ ((t.alive ≡ id ∷ []) × (err ≢ none)))
unfolding stop_process
stop_process-one env id s a = ground (arith, self_eq id)

bring_up-alive :
    (env : Env) (tidy : IsTidy env) (p : Plan) (s : Supervisor)
    → RoutesKnown env s
    → let t = (bring_up env p s).1 in (t.alive ≡ s.alive) × ((t.proc ≡ s.proc) × RoutesKnown env t)
unfolding bring_up
bring_up-alive env tidy p s h =
    let k : env.leaves_routes (s.asked + 1 + 1 + 1) ≡ false = tidy (s.asked + 1 + 1 + 1) in
    ground arith

pub kept-IsOwned :
    (env : Env) (id : ℕ) (r : Option Err × Supervisor)
    → RoutesKnown env r.1
    → (r.1.alive ≡ []) ⊎ ((r.1.alive ≡ id ∷ []) × (r.0 ≢ none))
    → IsOwned env (kept id r)
kept-IsOwned env id (none, s) k (inl a) = (rw a tt, k)
kept-IsOwned env id (none, s) k (inr (a, n)) = absurd (n refl)
kept-IsOwned env id (some e, s) k (inl a) = simp a (tt, k)
kept-IsOwned env id (some e, s) k (inr (a, n)) = simp (a, self_eq id) ((refl, refl), k)

give_up-IsOwned :
    (env : Env) (id : ℕ) (e : Err) (s : Supervisor)
    → s.alive ≡ id ∷ []
    → RoutesKnown env s
    → IsOwned env (give_up env id e s).1
unfolding give_up
give_up-IsOwned env id e s a h =
    let (p, (q, r), alive) = stop_process-one env id s a in
    unroute-IsOwned env (kept id (stop_process env id s))
      (kept-IsOwned env id (stop_process env id s) (rw (q, r) h) alive)

started-IsOwned :
    (env : Env) (id : ℕ) (s : Supervisor)
    → s.alive ≡ id ∷ []
    → RoutesKnown env s
    → IsOwned env (started id s)
unfolding started
started-IsOwned env id s a h =
    set_state-IsOwned env running (record s { proc = some id }) (rw a (refl, refl), h)

settle-IsOwned :
    (env : Env) (id : ℕ) (r : Option Err × Supervisor)
    → r.1.alive ≡ id ∷ []
    → RoutesKnown env r.1
    → IsOwned env (settle env id r).1
unfolding settle
settle-IsOwned env id (some e, s) a h = give_up-IsOwned env id e s a h
settle-IsOwned env id (none, s) a h = started-IsOwned env id s a h

pub NoneAlive-IsOwned : (env : Env) (s : Supervisor) → NoneAlive env s → IsOwned env s
NoneAlive-IsOwned env s (a, h) = (rw a tt, h)

ask-IsOwned :
    (env : Env) (question : ℕ → Option Err) (go_on : Supervisor → Option Err × Supervisor)
    (s : Supervisor)
    → NoneAlive env s
    → ((t : Supervisor) → NoneAlive env t → IsOwned env (go_on t).1)
    → IsOwned env (ask question go_on s).1
ask-IsOwned env question go_on s h next =
    let s1 = record s { asked = s.asked + 1 } in
    elim (question s.asked)
      as (λ x.
        IsOwned env
          (elim x as (λ y. Option Err × Supervisor) [
            | some e ↦ (some e, s1)
            | none ↦ go_on s1
          ]).1) [ some e ↦ NoneAlive-IsOwned env s1 h | none ↦ next s1 h ]

attach-IsOwned :
    (env : Env) (tidy : IsTidy env) (p : Plan) (id : ℕ) (s : Supervisor)
    → NoneAlive env s
    → IsOwned env (attach env p id s).1
unfolding attach
attach-IsOwned env tidy p id s h =
    let up = record s { alive = id ∷ s.alive; made = id + 1 } in
    let (a, (b, c)) = bring_up-alive env tidy p up h.1 in
    settle-IsOwned env id (bring_up env p up) (a ∙ ap (λ ks. id ∷ ks) h.0) c

launch-IsOwned :
    (env : Env) (tidy : IsTidy env) (p : Plan) (s : Supervisor)
    → NoneAlive env s
    → IsOwned env (launch env p s).1
unfolding launch
launch-IsOwned env tidy p s h =
    ask-IsOwned env env.spawn (attach env p s.made) (set_state starting s)
      (set_state-NoneAlive env starting s h) (attach-IsOwned env tidy p s.made)

prepare-IsOwned :
    (env : Env) (tidy : IsTidy env) (p : Plan) (s : Supervisor)
    → NoneAlive env s
    → IsOwned env (prepare env p s).1
unfolding prepare
prepare-IsOwned env tidy p s h =
    let last = ask env.prepare_start (launch env p) in
    let checked = ask env.check last in
    ask-IsOwned env (λ n. env.render n p) checked s h
      (λ s1 h1. ask-IsOwned env env.check last s1 h1 (λ s2 h2.
        ask-IsOwned env env.prepare_start (launch env p) s2 h2 (launch-IsOwned env tidy p)))

-- `start` with no process alive leaves no process but the supervisor's.
pub start-IsOwned :
    (env : Env) (tidy : IsTidy env) (p : Plan) (s : Supervisor)
    → NoneAlive env s
    → IsOwned env (start env p s).1
unfolding start
start-IsOwned env tidy p s h =
    ask-IsOwned env env.reserve (prepare env p) s h (prepare-IsOwned env tidy p)
