-- ===== src/Engine/Backoff/Windows.antt =====
-- core/engine/backoff.go: how many restarts a budget lets through in its window.
use sora_client.Prelude.{
  ℕ, ◌+◌, ◌≤◌, ◌<◌, ◌≡◌, refl, true, false, Bool-cases, inl, inr, List, [], ◌∷◌, ◌++◌, arith,
  length, keep, leb, ◌==◌, if◌then◌else◌,
}
use sora_client.Engine.Backoff.{RestartBudget, new_budget, in_window, allow}

-- The instants at which restarts are let through by calls of `Allow`, newest first, before those of
-- `granted`; a call is its two readings of the clock.
pub grants : List (ℕ × ℕ) → RestartBudget → List ℕ → List ℕ
grants [] b granted = granted
grants ((now, later) ∷ calls) b granted =
    let (yes?, b1) = allow now later b in
    grants calls b1 (if yes? then later ∷ granted else granted)

-- The clock is read at `t` or later, and never runs back.
abbrev pub IsRising : ℕ → List (ℕ × ℕ) → Type 0
IsRising t [] = Unit
IsRising t ((now, later) ∷ calls) = (t ≤ now) × ((now ≤ later) × IsRising later calls)

-- Each restart has fewer than `limit` of the earlier ones in the window that ends with it.
abbrev pub Spaced : ℕ → ℕ → List ℕ → Type 0
Spaced limit window [] = Unit
Spaced limit window (t ∷ earlier) =
    (length (keep (in_window window t) earlier) < limit) × Spaced limit window earlier

-- From `t` on, the budget counts as many attempts as there were restarts.
abbrev Counts : ℕ → List ℕ → RestartBudget → Type 0
Counts t granted b =
    (n : ℕ)
    → t ≤ n
    → length (keep (in_window b.window n) b.attempts) ≡ length (keep (in_window b.window n) granted)

keep-later :
    (w now n : ℕ) (ts : List ℕ)
    → now ≤ n
    → keep (in_window w n) (keep (in_window w now) ts) ≡ keep (in_window w n) ts
keep-later w now n [] h = refl
keep-later w now n (t ∷ ts) h = ground (arith, keep-later w now n ts h)

length-keep-later :
    (w now n : ℕ) (ts : List ℕ)
    → now ≤ n
    → length (keep (in_window w n) ts) ≤ length (keep (in_window w now) ts)
length-keep-later w now n [] h = omega arith
length-keep-later w now n (t ∷ ts) h = ground (arith, length-keep-later w now n ts h)

length-keep-append :
    (w n later : ℕ) (ts : List ℕ)
    → length (keep (in_window w n) (ts ++ later ∷ []))
      ≡ length (keep (in_window w n) (later ∷ [])) + length (keep (in_window w n) ts)
length-keep-append w n later [] = ground arith
length-keep-append w n later (t ∷ ts) = ground (arith, length-keep-append w n later ts)

length-keep-cons :
    (w n later : ℕ) (ts : List ℕ)
    → length (keep (in_window w n) (later ∷ ts))
      ≡ length (keep (in_window w n) (later ∷ [])) + length (keep (in_window w n) ts)
length-keep-cons w n later ts = ground arith

Counts-refused :
    (t now later : ℕ) (granted : List ℕ) (b : RestartBudget)
    → t ≤ now
    → now ≤ later
    → Counts t granted b
    → Counts later granted (record b { attempts = keep (in_window b.window now) b.attempts })
Counts-refused t now later granted b h k c n le =
    rw (keep-later b.window now n b.attempts (omega arith)) (c n (omega arith))

Counts-granted :
    (t now later : ℕ) (granted : List ℕ) (b : RestartBudget)
    → t ≤ now
    → now ≤ later
    → Counts t granted b
    → Counts later
        (later ∷ granted)
        (record b { attempts = keep (in_window b.window now) b.attempts ++ later ∷ [] })
Counts-granted t now later granted b h k c n le = omega (
  arith,
  length-keep-append b.window n later (keep (in_window b.window now) b.attempts),
  length-keep-cons b.window n later granted,
  Counts-refused t now later granted b h k c n le,
)

-- The restarts up to the last call, and what the budget has counted.
abbrev IsWithin : ℕ → List ℕ → RestartBudget → Type 0
IsWithin t granted b = Spaced b.limit b.window granted × Counts t granted b

Spaced-next :
    (t now later : ℕ) (granted : List ℕ) (b : RestartBudget)
    → t ≤ now
    → now ≤ later
    → Counts t granted b
    → leb b.limit (length (keep (in_window b.window now) b.attempts)) ≡ false
    → length (keep (in_window b.window later) granted) < b.limit
Spaced-next t now later granted b h k c room =
    ground (arith, length-keep-later b.window now later granted k, c now h)

-- The budget once attempts have left the window.
abbrev narrowed : ℕ → RestartBudget → RestartBudget
narrowed now b = record b { attempts = keep (in_window b.window now) b.attempts }

allow-unlimited :
    (now later : ℕ) (b : RestartBudget) → b.limit == 0 ≡ true → allow now later b ≡ (false, b)
unfolding allow
allow-unlimited now later b h = simp h

allow-refused :
    (now later : ℕ) (b : RestartBudget)
    → b.limit == 0 ≡ false
    → leb b.limit (length (narrowed now b).attempts) ≡ true
    → allow now later b ≡ (false, narrowed now b)
unfolding allow
allow-refused now later b h full = simp (h, full)

allow-granted :
    (now later : ℕ) (b : RestartBudget)
    → b.limit == 0 ≡ false
    → leb b.limit (length (narrowed now b).attempts) ≡ false
    → allow now later b ≡ (true, record b { attempts = (narrowed now b).attempts ++ later ∷ [] })
unfolding allow
allow-granted now later b h full = simp (h, full)

grants-IsWithin :
    (t : ℕ) (calls : List (ℕ × ℕ)) (b : RestartBudget) (granted : List ℕ)
    → IsRising t calls
    → IsWithin t granted b
    → Spaced b.limit b.window (grants calls b granted)
unfolding grants
grants-IsWithin t [] b granted r w = w.0
grants-IsWithin t ((now, later) ∷ calls) b granted (le, (le', r)) (s, c) =
    elim (Bool-cases (b.limit == 0)) [
      | inl z ↦
          rw (allow-unlimited now later b z)
            (grants-IsWithin later calls b granted r (s, λ n h. c n (omega arith)))
      | inr z ↦ elim (Bool-cases (leb b.limit (length (narrowed now b).attempts))) [
        | inl full ↦ rw (allow-refused now later b z full) (
            grants-IsWithin later calls (narrowed now b) granted r
              (s, Counts-refused t now later granted b le le' c))
        | inr room ↦ rw (allow-granted now later b z room) (
            grants-IsWithin later calls
              (record b { attempts = (narrowed now b).attempts ++ later ∷ [] }) (later ∷ granted) r
              (
                (Spaced-next t now later granted b le le' c room, s),
                Counts-granted t now later granted b le le' c,
              ))
      ]
    ]

-- A new budget lets through, whatever the calls of `Allow`, fewer than `limit` restarts in the
-- window that ends with a further one, as long as the clock does not run back.
pub grants-Spaced :
    (limit window t : ℕ) (calls : List (ℕ × ℕ))
    → IsRising t calls
    → let b = new_budget limit window in Spaced b.limit b.window (grants calls b [])
unfolding new_budget
grants-Spaced limit window t calls r =
    grants-IsWithin t calls (new_budget limit window) [] r (tt, λ n h. refl)
