-- ===== src/Engine/Supervisor.antt =====
-- core/engine/supervise/supervisor.go: the supervisor that starts, reloads, restarts and stops one
-- engine process. Answers of the driver and of the operating system come from an `Env`, asked with
-- a counter that every question raises; a hook that a driver does not have answers with no error.
-- A process is its number, and `alive` holds those whose `done` channel is open. Left out are the
-- runtime values of a start, the reported version, the secrets that the redactor learns, and the time
-- of an event, which the bus stamps; of the lines that an exit writes to the log, one stands for all.
pub mod Start
pub mod Apply
pub mod Watch
pub mod Owned
pub mod Keeps
pub mod Restarts
pub mod Runs
pub mod Quiet
pub mod Lost
use sora_client.Prelude.{
  ℕ, ◌+◌, String, Bool, true, false, ◌&&◌, ◌||◌, not, Option, none, some, List, [], ◌∷◌, any, keep,
  ◌==◌, if◌then◌else◌,
}
use sora_client.Errs.{Err, joined}
use sora_client.Engine.Events.{State, same_state, Counters, EventKind, state_event, fatal, Event}
use sora_client.Engine.Backoff.{RestartBudget}

-- What the supervisor reads of a plan.
pub record Plan : Type 0 where
  pub session_id : String
  pub tun_enabled : Bool

-- The answers to `Driver.Reload`.
pub data Reloaded : Type 0 where
  reloads unsupported : Reloaded
  refuses : Err → Reloaded

-- `admit` is `Plan.Validate` with `Capabilities.Missing`; `stop` also tells whether the process has
-- exited when `Process.Stop` returns an error. `leaves_routes` tells whether a `Route` that fails leaves
-- routes behind, since its roll-back may fail too.
pub record Env : Type 0 where
  pub admit : ℕ → Plan → Option Err
  pub prepare_tun : ℕ → Plan → Option Err × Plan
  pub reserve : ℕ → Option Err
  pub render : ℕ → Plan → Option Err
  pub check : ℕ → Option Err
  pub prepare_start : ℕ → Option Err
  pub spawn : ℕ → Option Err
  pub wait_ready : ℕ → Option Err
  pub confirm_start : ℕ → Option Err
  pub route : ℕ → Option Err
  pub leaves_routes : ℕ → Bool
  pub unroute : ℕ → Option Err
  pub reload : ℕ → Reloaded
  pub stop : ℕ → Option Err × Bool
  pub is_router : Bool
  pub mask : Err → Err
  pub has_logs : Bool

-- `Supervisor`, with the live processes, the number of processes made and whether routes are
-- installed. `events` and `log` are newest first; `closed` is the state of the supervision context.
pub record Supervisor : Type 0 where
  pub state : State
  pub plan : Option Plan
  pub proc : Option ℕ
  pub stopping : Bool
  pub routed : Bool
  pub budget : RestartBudget
  pub closed : Bool
  pub events : List Event
  pub log : List Err
  pub alive : List ℕ
  pub made : ℕ
  pub routes : Bool
  pub asked : ℕ

abbrev pub no_counters : Counters
no_counters = record {
  bytes_up = 0;
  bytes_down = 0;
  active_connections = 0;
  memory_bytes = 0;
  at = 0;
}

-- `s.bus.Publish`
abbrev pub publish : EventKind → State → String → Option Err → Supervisor → Supervisor
publish kind state message err s = record s {
  events =
      record {
        kind = kind;
        state = some state;
        message = message;
        err = err;
        counters = no_counters;
        group = none;
        at = 0;
      }
      ∷ s.events;
}

-- `setState`
unfoldable pub set_state : State → Supervisor → Supervisor
set_state state s =
    if same_state s.state state
    then record s { state = state }
    else publish state_event state "" none (record s { state = state })

abbrev pub log_error : Env → Err → Supervisor → Supervisor
log_error env e s = if env.has_logs then record s { log = env.mask e ∷ s.log } else s

-- A question to the environment that goes on only without an error.
abbrev pub ask :
    (ℕ → Option Err) → (Supervisor → Option Err × Supervisor) → Supervisor → Option Err × Supervisor
ask question go_on s =
    let s1 = record s { asked = s.asked + 1 } in
    elim (question s.asked) [ some e ↦ (some e, s1) | none ↦ go_on s1 ]

-- `Exited`
abbrev pub exited : ℕ → Supervisor → Bool
exited id s = not (any (λ k. k == id) s.alive)

abbrev pub is_proc : ℕ → Supervisor → Bool
is_proc id s = elim s.proc [ none ↦ false | some k ↦ k == id ]

abbrev pub ended : ℕ → Supervisor → Supervisor
ended id s = record s { alive = keep (λ k. not (k == id)) s.alive }

-- `errors.Join`
abbrev pub join : Option Err → Option Err → Option Err
join none b = b
join (some a) none = some a
join (some a) (some b) = some (joined a b)

-- `Process.Stop`
unfoldable pub stop_process : Env → ℕ → Supervisor → Option Err × Supervisor
stop_process env id s =
    let s1 = record s { asked = s.asked + 1 } in
    let (err, gone) = env.stop s.asked in
    if exited id s then (none, s) else elim err [
      | none ↦ (none, ended id s1)
      | some e ↦ (some e, if gone then ended id s1 else s1)
    ]

-- `unroute`
unfoldable pub unroute : Env → Supervisor → Option Err × Supervisor
unroute env s =
    let s1 = record s { asked = s.asked + 1 } in
    if not s.routed || not env.is_router then (none, s) else elim (env.unroute s.asked) [
      | some e ↦ (some e, log_error env e s1)
      | none ↦ (none, record s1 { routed = false; routes = false })
    ]
