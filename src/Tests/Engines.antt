-- ===== src/Tests/Engines.antt =====
-- The supervisor, the restart budget and the event bus on concrete inputs.
use sora_client.Prelude.{
  ℕ, ◌*◌, ◌≡◌, refl, true, false, none, some, List, [], ◌∷◌, arith, if◌then◌else◌,
}
use Prim.Native.Nat.{◌/◌}
use sora_client.Errs.{foreign}
use sora_client.Engine.Events.{Event, same_state, running, state_event}
use sora_client.Engine.Bus.{new_bus}
use sora_client.Engine.Bus.Runs.{publishes, subscribes, unsubscribes, IsSound, run-IsSound}
use sora_client.Engine.Bus.Runs
use sora_client.Engine.Version.{Version}
use sora_client.Engine.Backoff.{Backoff, new_budget}
use sora_client.Engine.Backoff.Windows.{grants, Spaced, IsRising, grants-Spaced}
use sora_client.Engine.Supervisor.{Plan, unsupported, Env, Supervisor, no_counters}
use sora_client.Engine.Supervisor.Start.{start}
use sora_client.Engine.Supervisor.Apply.{apply, stop}
use sora_client.Engine.Supervisor.Watch.{exits, watch_restart, report_restart}
use sora_client.Engine.Supervisor.Owned.{IsOwned}
use sora_client.Engine.Supervisor.Runs.{
  new_supervisor, Op, applies, stops, dies, sees_exit, restarts, run, run-IsOwned,
}
use sora_client.Engine.Supervisor.Quiet.{IsQuiet, run-IsQuiet}
use sora_client.Engine.Supervisor.Lost.{apply-loses_process, apply-starts_old}

abbrev some_event : Event
some_event = record {
  kind = state_event;
  state = some running;
  message = "is running";
  err = none;
  counters = no_counters;
  group = none;
  at = 0;
}

run-IsSound_example : IsSound (
    Runs.run
      (subscribes
        ∷ publishes 5 some_event
        ∷ publishes 6 some_event
        ∷ unsubscribes 0
        ∷ unsubscribes 0
        ∷ publishes 7 some_event
        ∷ [])
      (new_bus 1))
run-IsSound_example = run-IsSound 1 (
    subscribes
    ∷ publishes 5 some_event
    ∷ publishes 6 some_event
    ∷ unsubscribes 0
    ∷ unsubscribes 0
    ∷ publishes 7 some_event
    ∷ [])

abbrev default_backoff : Backoff
default_backoff = record { initial = 500000000; max = 120000000000 }

abbrev double : ℕ → ℕ
double d = 2 * d

abbrev three_quarters : ℕ → ℕ
three_quarters d = 3 * d / 4

-- Four calls, the last of which comes a window after the first.
abbrev calls : List (ℕ × ℕ)
calls = (1, 2) ∷ (3, 4) ∷ (5, 6) ∷ (103, 104) ∷ []

calls-IsRising : IsRising 0 calls
calls-IsRising = (
  omega arith,
  (
    omega arith,
    (omega arith, (omega arith, (omega arith, (omega arith, (omega arith, (omega arith, tt)))))),
  ),
)

grants-Spaced_example : let b = new_budget 2 100 in Spaced b.limit b.window (grants calls b [])
grants-Spaced_example = grants-Spaced 2 100 0 calls calls-IsRising

-- An engine that does what it is asked, and restarts for a plan.
abbrev willing : Env
willing = record {
  admit = λ n p. none;
  prepare_tun = λ n p. (none, p);
  reserve = λ n. none;
  render = λ n p. none;
  check = λ n. none;
  prepare_start = λ n. none;
  spawn = λ n. none;
  wait_ready = λ n. none;
  confirm_start = λ n. none;
  route = λ n. none;
  leaves_routes = λ n. false;
  unroute = λ n. none;
  reload = λ n. unsupported;
  stop = λ n. (none, true);
  is_router = true;
  mask = λ e. e;
  has_logs = true;
}

abbrev tunnel : Plan
tunnel = record { session_id = "s"; tun_enabled = true }

abbrev sequence : List Op
sequence =
    applies (some tunnel)
    ∷ dies 0
    ∷ sees_exit 10 11 0 (exits none)
    ∷ restarts 0 tunnel
    ∷ applies (some tunnel)
    ∷ []

run-IsOwned_example : IsOwned willing (run willing sequence (new_supervisor 5 0))
run-IsOwned_example = run-IsOwned willing (λ n. refl) 5 0 sequence (λ n h. refl)

abbrev routed : Supervisor
routed = run willing sequence (new_supervisor 5 0)

routed-stop : (stop willing routed).0 ≡ none
unfolding run new_supervisor stop same_state new_budget
routed-stop = refl

abbrev late : List Op
late = restarts 1 tunnel ∷ sees_exit 20 21 2 (exits none) ∷ stops ∷ []

run-IsQuiet_example : IsQuiet (run willing late (stop willing routed).1)
run-IsQuiet_example = run-IsQuiet willing late routed run-IsOwned_example routed-stop refl

-- Its process cannot be stopped.
abbrev stuck : Env
stuck = record willing { stop = λ n. (some (foreign "engine did not exit after kill"), false) }

abbrev at_work : Supervisor
at_work = record (new_supervisor 5 0) { proc = some 0; alive = 0 ∷ []; made = 1 }

apply-loses_process_example :
    let t = (apply stuck (some tunnel) at_work).1 in
    (t.proc ≡ none)
    × (t.alive ≡ 0 ∷ [])
    × ((stop stuck t).0 ≡ none)
    × ((stop stuck t).1.alive ≡ 0 ∷ [])
unfolding new_supervisor
apply-loses_process_example =
    apply-loses_process stuck tunnel (foreign "engine did not exit after kill") 0 at_work
      ((λ n. refl), (λ n. refl), (λ n. refl), (λ n. refl), (λ n. refl)) refl refl refl

-- It cannot be configured for plans without a tunnel.
abbrev tunnels_only : Env
tunnels_only = record willing {
  render = λ n p. if p.tun_enabled then none else some (foreign "no tunnel");
}

abbrev proxy : Plan
proxy = record { session_id = "s"; tun_enabled = false }

abbrev crashed : Supervisor
crashed = record (new_supervisor 5 0) { proc = some 0; plan = some tunnel; made = 1 }

apply-starts_old_example :
    let (err, t) = apply tunnels_only (some proxy) crashed in
    (err ≡ some (foreign "no tunnel"))
    × (t.plan ≡ some proxy)
    × (watch_restart tunnels_only 0 tunnel t
        ≡ report_restart tunnels_only (start tunnels_only tunnel t))
unfolding new_supervisor
apply-starts_old_example =
    apply-starts_old tunnels_only proxy tunnel (foreign "no tunnel") 0 crashed
      ((λ n. refl), (λ n. refl), (λ n. refl), (λ n. refl)) refl refl refl

abbrev shipped : Version
shipped = record { raw = "v1.14.2"; major = 1; minor = 14; patch = 2; pre_release = "" }

abbrev lowest : Version
lowest = record { raw = "1.12.0"; major = 1; minor = 12; patch = 0; pre_release = "" }

abbrev next : Version
next = record { raw = "2.0.0-beta"; major = 2; minor = 0; patch = 0; pre_release = "beta" }
