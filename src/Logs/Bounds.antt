-- ===== src/Logs/Bounds.antt =====
-- core/logs/logs.go: the log never passes its bounds, and counts what it evicts.
use sora_client.Prelude.{
  if-both, ℕ, ◌+◌, ◌-◌, ◌≤◌, ◌<◌, ◌≡◌, refl, ap, Option, none, some, Option-cases, inl, inr, List,
  [], ◌∷◌, ◌++◌, arith, length, length-append, u64, u32, ◌≢◌,
}
use sora_client.Logs.Entries.{Bytes, Entry, size}
use sora_client.Logs.{
  Settings, Center, evict_loop, evict, set_settings, normalized, new_center, clear, split_last,
  write_new, write_folded, write_after, write,
}

abbrev pub total : List Entry → ℕ
total [] = 0
total (e ∷ rest) = size e + total rest

-- The byte count is exact, and both bounds hold.
pub record IsBounded (c : Center) : Type 0 where
  pub exact : c.bytes ≡ total c.entries
  pub few : length c.entries ≤ c.settings.max_entries
  pub small : c.bytes ≤ c.settings.max_bytes

total-append : (xs ys : List Entry) → total (xs ++ ys) ≡ total xs + total ys
total-append [] ys = omega arith
total-append (x ∷ xs) ys = omega (arith, total-append xs ys)

record Evicted (max_entries max_bytes drop : ℕ) (es : List Entry) (r : List Entry × ℕ × ℕ)
    : Type 0 where
  exact : r.1 ≡ total r.0
  few : length r.0 ≤ max_entries
  small : r.1 ≤ max_bytes
  counted : r.2 + length r.0 ≡ drop + length es

evict_loop-Evicted :
    (max_entries max_bytes : ℕ) (es : List Entry) (bytes drop : ℕ)
    → bytes ≡ total es
    → Evicted max_entries max_bytes drop es (evict_loop max_entries max_bytes es bytes drop)
unfolding evict_loop
evict_loop-Evicted me mb [] bytes drop h = omega arith
evict_loop-Evicted me mb (e ∷ rest) bytes drop h =
    ground (arith, evict_loop-Evicted me mb rest (bytes - size e) (drop + 1) (omega arith))

evict-IsBounded : (c : Center) → c.bytes ≡ total c.entries → IsBounded (evict c)
unfolding evict
evict-IsBounded c h =
    ground
      (arith, evict_loop-Evicted c.settings.max_entries c.settings.max_bytes c.entries c.bytes 0 h)

-- With an exact byte count, eviction adds to the dropped count exactly the entries that it takes, as
-- long as the counter does not wrap.
pub evict-counts :
    (c : Center)
    → c.bytes ≡ total c.entries
    → c.dropped + length c.entries < 18446744073709551616
    → (evict c).dropped + length (evict c).entries ≡ c.dropped + length c.entries
unfolding evict
evict-counts c h small =
    ground
      (arith, evict_loop-Evicted c.settings.max_entries c.settings.max_bytes c.entries c.bytes 0 h)

pub set_settings-IsBounded :
    (s : Settings) (c : Center) → IsBounded c → IsBounded (set_settings s c)
unfolding set_settings
set_settings-IsBounded s c h = evict-IsBounded (record c { settings = normalized s }) h.exact

pub new_center-IsBounded : (s : Settings) → IsBounded (new_center s)
unfolding new_center
new_center-IsBounded s = omega arith

pub clear-IsBounded : (c : Center) → IsBounded (clear c)
unfolding clear
clear-IsBounded c = omega arith

split_last-ne-none : (e : Entry) (rest : List Entry) → split_last (e ∷ rest) ≢ none
unfolding split_last
split_last-ne-none e rest h = ground arith

pub split_last-append :
    (es : List Entry) (r : List Entry × Entry) → split_last es ≡ some r → es ≡ r.0 ++ r.1 ∷ []
unfolding split_last
split_last-append [] r h = cc
split_last-append (e ∷ []) r h = ground arith
split_last-append (e ∷ d ∷ rest) r h = elim (Option-cases (split_last (d ∷ rest))) [
  | inl n ↦ absurd (split_last-ne-none d rest n)
  | inr (s, n) ↦ ground (arith, n, split_last-append (d ∷ rest) s n)
]

module _ (hide : Bytes → Bytes) (lower : Bytes → Bytes) where
  write_new-IsBounded :
      (at level : ℕ) (source message : Bytes) (c : Center)
      → IsBounded c
      → IsBounded (write_new hide lower at level source message c)
  unfolding write_new
  write_new-IsBounded at level source message c h =
      ground
        (arith, evict-IsBounded grown (omega (arith, h.exact, total-append c.entries (e ∷ []))))
    where
      e : Entry
      e = record {
        seq = c.next;
        time = at;
        level = level;
        source = source;
        message = message;
        repeat = 1;
      }

      grown : Center
      grown = record c {
        next = u64 (c.next + 1);
        entries = c.entries ++ e ∷ [];
        bytes = c.bytes + size e;
      }

  write_folded-IsBounded :
      (at : ℕ) (r : List Entry × Entry) (c : Center)
      → c.entries ≡ r.0 ++ r.1 ∷ []
      → IsBounded c
      → IsBounded (write_folded hide lower at r.0 r.1 c)
  unfolding write_folded
  write_folded-IsBounded at r c e h = omega (
    arith,
    h,
    ap total e,
    ap length e,
    total-append r.0 (r.1 ∷ []),
    total-append r.0 (latest ∷ []),
    length-append r.0 (r.1 ∷ []),
    length-append r.0 (latest ∷ []),
  )
    where
      latest : Entry
      latest = record (r.1) { repeat = u32 (r.1.repeat + 1); time = at }

  write_after-IsBounded :
      (o : Option (List Entry × Entry)) (at level : ℕ) (source message : Bytes) (c : Center)
      → split_last c.entries ≡ o
      → IsBounded c
      → IsBounded (write_after hide lower o at level source message c)
  unfolding write_after
  write_after-IsBounded none at level source message c e h =
      write_new-IsBounded at level source message c h
  write_after-IsBounded (some (front, last)) at level source message c e h = ground (
    arith,
    write_new-IsBounded at level source message c h,
    write_folded-IsBounded at (front, last) c (split_last-append c.entries (front, last) e) h,
  )

  -- A write, whatever the message, keeps the byte count exact and both bounds.
  pub write-IsBounded :
      (core subscription : Bytes) (now at level : ℕ) (source message : Bytes) (c : Center)
      → IsBounded c
      → IsBounded (write hide lower core subscription now at level source message c)
  unfolding write
  write-IsBounded core subscription now at level source message c h =
      if-both IsBounded _ c _ h
        (write_after-IsBounded (split_last c.entries) _ level source _ c refl h)
