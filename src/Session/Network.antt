-- ===== src/Session/Network.antt =====
-- core/session/network.go: the watch that notices a changed network or a resume from sleep. The
-- fingerprint of the machine's interfaces is an argument, and instants are nanoseconds.
use sora_client.Prelude.{
  ℕ, ◌+◌, ◌≤◌, ◌≡◌, String, Bool, false, Bool-cases, inl, inr, arith, ◌&&◌, ◌||◌, not, ltb, str_eq,
  if◌then◌else◌,
}

pub record Watch : Type 0 where
  pub last : String
  pub last_wall : ℕ
  pub last_mono : ℕ

-- Thirty seconds.
abbrev pub sleep_gap : ℕ
sleep_gap = 30000000000

unfoldable pub new_watch : ℕ → ℕ → String → Watch
new_watch wall mono current = record { last = current; last_wall = wall; last_mono = mono }

-- `(wall - lastWall) - (mono - lastMono) > sleepGap` over signed durations.
unfoldable pub slept : ℕ → ℕ → Watch → Bool
slept wall mono w = ltb (w.last_wall + mono + sleep_gap) (wall + w.last_mono)

unfoldable pub moved : String → Watch → Bool
moved current w = not (str_eq current w.last) && not (str_eq current "")

-- `changed`: the reason to renew the connections, or the empty text.
unfoldable pub changed : ℕ → ℕ → String → Watch → String × Watch
unfolding slept moved
changed wall mono current w = (
  if slept wall mono w
      then "the machine woke from sleep"
      else if moved current w
      then "the network changed"
      else "",
  record { last = current; last_wall = wall; last_mono = mono },
)

-- Of two looks in a row, between which the wall clock gains no more than the gap on the monotonic
-- one, the second reports a change exactly if it finds a network other than what the first found,
-- also where the first found none.
pub changed_twice :
    (wall mono wall' mono' : ℕ) (first second : String) (w : Watch)
    → wall' + mono ≤ wall + mono' + sleep_gap
    → str_eq (changed wall' mono' second (changed wall mono first w).1).0 ""
      ≡ (str_eq second first || str_eq second "")
unfolding changed slept moved
changed_twice wall mono wall' mono' first second w h =
    let awake : ltb (wall + mono' + sleep_gap) (wall' + mono) ≡ false = ground arith in
    elim (Bool-cases (str_eq second first)) [
      | inl e ↦ simp (awake, e)
      | inr e ↦ elim (Bool-cases (str_eq second "")) [
        | inl z ↦ simp (awake, e, z)
        | inr z ↦ simp (awake, e, z)
      ]
    ]
