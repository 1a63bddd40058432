-- ===== src/Engine/Backoff/Delays.antt =====
-- core/engine/backoff.go: bounds on `Delay`.
use sora_client.Prelude.{ℕ, zero, suc, ◌≤◌, arith}
use sora_client.Engine.Backoff.{Backoff, delay_loop, ceiling_of, initial_of, base_delay, delay}

base_delay-bounded : (scale : ℕ → ℕ) (b : Backoff) (n : ℕ) → base_delay scale b n ≤ ceiling_of b
unfolding base_delay
base_delay-bounded scale b n = ground arith

-- If the jitter does not lengthen a delay, no delay is longer than the configured maximum, or two
-- minutes where none is configured.
pub delay-bounded :
    (scale : ℕ → ℕ) (jitter : ℕ → ℕ) (b : Backoff) (n : ℕ)
    → ((d : ℕ) → jitter d ≤ d)
    → delay scale jitter b n ≤ ceiling_of b
unfolding delay
delay-bounded scale jitter b n h =
    omega (arith, h (base_delay scale b n), base_delay-bounded scale b n)

delay_loop-grows :
    (scale : ℕ → ℕ) (ceiling n d : ℕ) → ((x : ℕ) → x ≤ scale x) → d ≤ delay_loop scale ceiling n d
unfolding delay_loop
delay_loop-grows scale ceiling zero d h = omega arith
delay_loop-grows scale ceiling (suc n) d h =
    ground (arith, h d, delay_loop-grows scale ceiling n (scale d) h)

delay_loop-suc :
    (scale : ℕ → ℕ) (ceiling n d : ℕ)
    → ((x : ℕ) → x ≤ scale x)
    → delay_loop scale ceiling n d ≤ delay_loop scale ceiling (suc n) d
unfolding delay_loop
delay_loop-suc scale ceiling zero d h = ground (arith, h d)
delay_loop-suc scale ceiling (suc n) d h =
    ground (arith, delay_loop-suc scale ceiling n (scale d) h)

-- If scaling does not shorten a delay, each further attempt waits, apart from the jitter, at least
-- as long as the one before it.
pub base_delay-suc :
    (scale : ℕ → ℕ) (b : Backoff) (n : ℕ)
    → ((x : ℕ) → x ≤ scale x)
    → base_delay scale b n ≤ base_delay scale b (suc n)
unfolding base_delay
base_delay-suc scale b n h =
    let r = delay_loop-suc scale (ceiling_of b) n (initial_of b) h in ground arith
