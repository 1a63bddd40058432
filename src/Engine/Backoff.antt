-- ===== src/Engine/Backoff.antt =====
-- core/engine/backoff.go: the delay before an engine is started again, and the budget of restarts.
-- Durations and instants are numbers of nanoseconds; a duration or a limit that is not positive is
-- 0. `scale` is the product with the factor and `jitter` that with a random factor from 0.5 to 1,
-- both rounded as Go converts a float64.
pub mod Delays
pub mod Windows
use sora_client.Prelude.{
  ℕ, zero, suc, ◌+◌, ◌*◌, Bool, true, false, List, [], ◌∷◌, ◌++◌, length, keep, ltb, leb, ◌==◌,
  if◌then◌else◌,
}
use Prim.Native.Nat.{◌/◌}

abbrev pub millisecond : ℕ
millisecond = 1000000

abbrev pub default_initial : ℕ
default_initial = 500000000

abbrev pub default_max : ℕ
default_max = 120000000000

abbrev pub default_window : ℕ
default_window = 600000000000

pub record Backoff : Type 0 where
  pub initial : ℕ
  pub max : ℕ

-- The loop of `Delay`.
delay_loop : (ℕ → ℕ) → ℕ → ℕ → ℕ → ℕ
delay_loop scale ceiling zero d = d
delay_loop scale ceiling (suc n) d =
    let more = delay_loop scale ceiling n (scale d) in if ltb d ceiling then more else d

unfoldable pub ceiling_of : Backoff → ℕ
ceiling_of b = if b.max == 0 then default_max else b.max

unfoldable pub initial_of : Backoff → ℕ
initial_of b = if b.initial == 0 then default_initial else b.initial

-- The delay without its jitter.
unfoldable pub base_delay : (ℕ → ℕ) → Backoff → ℕ → ℕ
unfolding delay_loop ceiling_of initial_of
base_delay scale b n =
    let d = delay_loop scale (ceiling_of b) n (initial_of b) in
    if ltb (ceiling_of b) d then ceiling_of b else d

-- `Delay`
unfoldable pub delay : (ℕ → ℕ) → (ℕ → ℕ) → Backoff → ℕ → ℕ
unfolding base_delay
delay scale jitter b n = jitter (base_delay scale b n) / millisecond * millisecond

pub record RestartBudget : Type 0 where
  pub limit : ℕ
  pub window : ℕ
  pub attempts : List ℕ

unfoldable pub new_budget : ℕ → ℕ → RestartBudget
new_budget limit window = record {
  limit = limit;
  window = if window == 0 then default_window else window;
  attempts = [];
}

-- Whether the attempt at `t` lies in the window that ends at `now`.
abbrev pub in_window : ℕ → ℕ → ℕ → Bool
in_window window now t = ltb now (t + window)

-- `Allow`, which reads the clock twice.
unfoldable pub allow : ℕ → ℕ → RestartBudget → Bool × RestartBudget
allow now later b =
    let kept = keep (in_window b.window now) b.attempts in
    if b.limit == 0
    then (false, b)
    else if leb b.limit (length kept)
    then (false, record b { attempts = kept })
    else (true, record b { attempts = kept ++ later ∷ [] })

unfoldable pub used : RestartBudget → ℕ
used b = length b.attempts

unfoldable pub reset : RestartBudget → RestartBudget
reset b = record b { attempts = [] }
