-- ===== src/Engine/Supervisor/Runs.antt =====
-- core/engine/supervise/supervisor.go: `Apply`, `Stop`, `Close`, `watch` and crashes, in any order.
-- The lifecycle lock makes each of them one step.
use sora_client.Prelude.{
  ℕ, refl, false, not, Bool-cases, inl, inr, Option, none, some, List, [], ◌∷◌, arith, keep, ◌==◌,
  if◌then◌else◌,
}
use sora_client.Engine.Events.{idle}
use sora_client.Engine.Backoff.{new_budget}
use sora_client.Engine.Supervisor.{Plan, Env, Supervisor, exited, ended}
use sora_client.Engine.Supervisor.Apply.{apply, stop, close}
use sora_client.Engine.Supervisor.Watch.{Exit, watch_exit, watch_restart}
use sora_client.Engine.Supervisor.Owned.{Held, IsTidy, IsOwned}
use sora_client.Engine.Supervisor.Keeps.{Ends, apply-IsOwned, stop-IsOwned}
use sora_client.Engine.Supervisor.Restarts.{watch_exit-IsOwned, watch_restart-IsOwned}

-- `New`, whose checks of the configuration have passed.
unfoldable pub new_supervisor : ℕ → ℕ → Supervisor
new_supervisor limit window = record {
  state = idle;
  plan = none;
  proc = none;
  stopping = false;
  routed = false;
  budget = new_budget (if limit == 0 then 5 else limit) window;
  closed = false;
  events = [];
  log = [];
  alive = [];
  made = 0;
  routes = false;
  asked = 0;
}

-- `dies` is a process that exits by itself. The timer of a `watch` fires only after its process has
-- exited.
pub data Op : Type 0 where
  applies : Option Plan → Op
  stops closes : Op
  dies : ℕ → Op
  sees_exit : ℕ → ℕ → ℕ → Exit → Op
  restarts : ℕ → Plan → Op

unfoldable pub step : Env → Op → Supervisor → Supervisor
unfolding apply stop close watch_exit watch_restart
step env (applies p) s = (apply env p s).1
step env stops s = (stop env s).1
step env closes s = (close env s).1
step env (dies id) s = ended id s
step env (sees_exit now later id x) s = (watch_exit env now later id x s).1
step env (restarts id p) s = if exited id s then watch_restart env id p s else s

unfoldable pub run : Env → List Op → Supervisor → Supervisor
unfolding step
run env [] s = s
run env (o ∷ os) s = run env os (step env o s)

ended-Held :
    (id : ℕ) (proc : Option ℕ) (ks : List ℕ)
    → Held proc ks
    → Held proc (keep (λ k. not (k == id)) ks)
ended-Held id proc [] h = tt
ended-Held id none (k ∷ rest) h = absurd h
ended-Held id (some p) (k ∷ rest) (h, r) = elim (Bool-cases (k == id)) [
  | inl y ↦ simp (y, r) tt
  | inr n ↦ simp (n, r) (h, refl)
]

step-IsOwned :
    (env : Env) (tidy : IsTidy env) (o : Op) (s : Supervisor)
    → Ends env
    → IsOwned env s
    → IsOwned env (step env o s)
unfolding step close
step-IsOwned env tidy (applies p) s ends h = apply-IsOwned env tidy p s ends h
step-IsOwned env tidy stops s ends h = stop-IsOwned env s h
step-IsOwned env tidy closes s ends h = stop-IsOwned env s h
step-IsOwned env tidy (dies id) s ends (h, k) = (ended-Held id s.proc s.alive h, k)
step-IsOwned env tidy (sees_exit now later id x) s ends h =
    watch_exit-IsOwned env now later id x s h
step-IsOwned env tidy (restarts id p) s ends h = elim (Bool-cases (exited id s)) [
  | inl y ↦ rw y (watch_restart-IsOwned env tidy id p s y h)
  | inr n ↦ rw n h
]

run-keeps :
    (env : Env) (tidy : IsTidy env) (os : List Op) (s : Supervisor)
    → Ends env
    → IsOwned env s
    → IsOwned env (run env os s)
unfolding run
run-keeps env tidy [] s ends h = h
run-keeps env tidy (o ∷ os) s ends h =
    run-keeps env tidy os (step env o s) ends (step-IsOwned env tidy o s ends h)

-- If `Process.Stop` always ends the process and a `Route` that fails leaves no routes behind, then
-- whatever is applied, stopped, closed and restarted, and whenever processes crash, at most one process
-- is alive, it is the one that the supervisor holds, and installed routes are known to it.
pub run-IsOwned :
    (env : Env) (tidy : IsTidy env) (limit window : ℕ) (os : List Op)
    → Ends env
    → IsOwned env (run env os (new_supervisor limit window))
unfolding new_supervisor
run-IsOwned env tidy limit window os ends =
    run-keeps env tidy os (new_supervisor limit window) ends (tt, λ h. absurd (ground arith))
