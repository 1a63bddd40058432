-- ===== src/Logs/Sequence.antt =====
-- core/logs/logs.go: sequence numbers rise along the record, and are never given twice.
use sora_client.Prelude.{
  ℕ, ◌+◌, ◌-◌, ◌≤◌, ◌<◌, ◌≡◌, refl, subst, ◌||◌, Option, none, some, if-both, List, [], ◌∷◌, ◌++◌,
  arith, length, ltb, u64,
}
use mathlib.Core.List.{reverse, reverse-cons}
use sora_client.Logs.Entries.{Bytes, Entry, size}
use sora_client.Logs.{
  Settings, Center, evict_loop, evict, set_settings, normalized, clear, split_last, write_new,
  write_folded, write_after, write,
}
use sora_client.Logs.Bounds.{split_last-append}

-- Strictly between `lo` and `hi`, rising.
abbrev pub Rising : ℕ → ℕ → List Entry → Type 0
Rising lo hi [] = lo < hi
Rising lo hi (e ∷ rest) = (lo < e.seq) × Rising e.seq hi rest

-- Strictly between `lo` and `hi`, falling.
abbrev pub Falling : ℕ → ℕ → List Entry → Type 0
Falling lo hi [] = lo < hi
Falling lo hi (e ∷ rest) = (e.seq < hi) × Falling lo e.seq rest

abbrev pub IsNumbered : Center → Type 0
IsNumbered c = Rising 0 c.next c.entries

Rising-weaken : (lo mid hi : ℕ) (es : List Entry) → lo ≤ mid → Rising mid hi es → Rising lo hi es
Rising-weaken lo mid hi [] h r = omega arith
Rising-weaken lo mid hi (e ∷ rest) h r = (omega arith, r.1)

Rising-append :
    (lo hi : ℕ) (es : List Entry) (e : Entry)
    → e.seq < hi
    → Rising lo e.seq es
    → Rising lo hi (es ++ e ∷ [])
Rising-append lo hi [] e h r = (r, h)
Rising-append lo hi (x ∷ rest) e h r = (r.0, Rising-append x.seq hi rest e h r.1)

-- The last entry may be exchanged for one of the same number.
Rising-last :
    (lo hi : ℕ) (es : List Entry) (e e' : Entry)
    → e'.seq ≡ e.seq
    → Rising lo hi (es ++ e ∷ [])
    → Rising lo hi (es ++ e' ∷ [])
Rising-last lo hi [] e e' h r = omega arith
Rising-last lo hi (x ∷ rest) e e' h r = (r.0, Rising-last x.seq hi rest e e' h r.1)

Falling-append :
    (lo hi : ℕ) (es : List Entry) (e : Entry)
    → lo < e.seq
    → Falling e.seq hi es
    → Falling lo hi (es ++ e ∷ [])
Falling-append lo hi [] e h f = (f, h)
Falling-append lo hi (x ∷ rest) e h f = (f.0, Falling-append lo x.seq rest e h f.1)

pub Rising-reverse : (lo hi : ℕ) (es : List Entry) → Rising lo hi es → Falling lo hi (reverse es)
Rising-reverse lo hi [] r = r
Rising-reverse lo hi (e ∷ rest) r =
    rw reverse-cons (Falling-append lo hi (reverse rest) e r.0 (Rising-reverse e.seq hi rest r.1))

evict_loop-Rising :
    (max_entries max_bytes lo hi : ℕ) (es : List Entry) (bytes drop : ℕ)
    → Rising lo hi es
    → Rising lo hi (evict_loop max_entries max_bytes es bytes drop).0
unfolding evict_loop
evict_loop-Rising me mb lo hi [] bytes drop r = r
evict_loop-Rising me mb lo hi (e ∷ rest) bytes drop r =
    if-both (λ (x : List Entry × ℕ × ℕ). Rising lo hi x.0)
      (ltb me (length (e ∷ rest)) || ltb mb bytes) _ _
      (evict_loop-Rising me mb lo hi rest (bytes - size e) (drop + 1)
        (Rising-weaken lo e.seq hi rest (omega arith) r.1))
      r

evict-IsNumbered : (c : Center) → IsNumbered c → IsNumbered (evict c)
unfolding evict
evict-IsNumbered c h =
    evict_loop-Rising c.settings.max_entries c.settings.max_bytes 0 c.next c.entries c.bytes 0 h

pub set_settings-IsNumbered :
    (s : Settings) (c : Center) → IsNumbered c → IsNumbered (set_settings s c)
unfolding set_settings
set_settings-IsNumbered s c h = evict-IsNumbered (record c { settings = normalized s }) h

-- Clearing keeps the counter, so that numbers given before are not given again.
pub clear-IsNumbered : (c : Center) → IsNumbered c → IsNumbered (clear c)
unfolding clear
clear-IsNumbered c h = positive 0 c.entries h
  where
    positive : (lo : ℕ) (es : List Entry) → Rising lo c.next es → lo < c.next
    positive lo [] r = r
    positive lo (e ∷ rest) r = omega (arith, positive e.seq rest r.1)

module _ (hide : Bytes → Bytes) (lower : Bytes → Bytes) where
  write_new-IsNumbered :
      (at level : ℕ) (source message : Bytes) (c : Center)
      → c.next + 1 < 18446744073709551616
      → IsNumbered c
      → IsNumbered (write_new hide lower at level source message c)
  unfolding write_new
  write_new-IsNumbered at level source message c small h =
      evict-IsNumbered
        (record c {
          next = u64 (c.next + 1);
          entries = c.entries ++ e ∷ [];
          bytes = c.bytes + size e;
        })
        (Rising-append 0 (u64 (c.next + 1)) c.entries e (omega arith) h)
    where
      e : Entry
      e = record {
        seq = c.next;
        time = at;
        level = level;
        source = source;
        message = message;
        repeat = 1;
      }

  write_after-IsNumbered :
      (o : Option (List Entry × Entry)) (at level : ℕ) (source message : Bytes) (c : Center)
      → split_last c.entries ≡ o
      → c.next + 1 < 18446744073709551616
      → IsNumbered c
      → IsNumbered (write_after hide lower o at level source message c)
  unfolding write_after write_folded
  write_after-IsNumbered none at level source message c e small h =
      write_new-IsNumbered at level source message c small h
  write_after-IsNumbered (some (front, last)) at level source message c e small h =
      if-both IsNumbered _ _ _
        (Rising-last 0 c.next front last _ refl
          (subst (Rising 0 c.next) (split_last-append c.entries (front, last) e) h))
        (write_new-IsNumbered at level source message c small h)

  -- Writing keeps the numbers of the record rising, below the next number, as long as the 64-bit
  -- counter does not wrap.
  pub write-IsNumbered :
      (core subscription : Bytes) (now at level : ℕ) (source message : Bytes) (c : Center)
      → c.next + 1 < 18446744073709551616
      → IsNumbered c
      → IsNumbered (write hide lower core subscription now at level source message c)
  unfolding write
  write-IsNumbered core subscription now at level source message c small h =
      if-both IsNumbered _ c _ h
        (write_after-IsNumbered (split_last c.entries) _ level source _ c refl small h)
