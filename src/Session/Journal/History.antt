-- ===== src/Session/Journal/History.antt =====
-- core/session/journal.go: what `Append` keeps true of the history.
use sora_client.Prelude.{
  ℕ, zero, suc, ◌+◌, ◌-◌, ◌≤◌, ◌<◌, ◌≡◌, subst, List, [], ◌∷◌, ◌++◌, arith, length, drop,
  length-append, length-drop, ltb, u64, Bool-cases, inl, inr,
}
use sora_client.Session.Journal.{Event, Journal, new_journal, trim, stamp, append}

-- The events carry the numbers n + 1, n + 2, … in order.
abbrev pub Numbered : ℕ → List Event → Type 0
Numbered n [] = Unit
Numbered n (e ∷ es) = (e.sequence ≡ n + 1) × Numbered (n + 1) es

-- The history holds the newest events, at most `capacity` of them, and the last is `next`.
pub record IsValid (j : Journal) : Type 0 where
  pub has_room : 0 < j.capacity
  pub bounded : length j.history ≤ j.capacity
  pub counted : length j.history ≤ j.next
  pub numbered : Numbered (j.next - length j.history) j.history

pub Numbered-eq : {m n : ℕ} (es : List Event) → m ≡ n → Numbered m es → Numbered n es
Numbered-eq es e h = subst (λ n. Numbered n es) e h

pub Numbered-append :
    (n : ℕ) (es : List Event) (e : Event)
    → Numbered n es
    → e.sequence ≡ n + length es + 1
    → Numbered n (es ++ e ∷ [])
Numbered-append n [] e h k = (omega arith, tt)
Numbered-append n (x ∷ es) e h k = (h.0, Numbered-append (n + 1) es e h.1 (omega arith))

pub Numbered-drop :
    (k n : ℕ) (es : List Event) → k ≤ length es → Numbered n es → Numbered (n + k) (drop k es)
Numbered-drop zero n es h v = Numbered-eq es (omega arith) v
Numbered-drop (suc k) n [] h v = tt
Numbered-drop (suc k) n (x ∷ es) h v =
    Numbered-eq (drop k es) (omega arith) (Numbered-drop k (n + 1) es (omega arith) v.1)

pub new_journal-IsValid : (capacity : ℕ) → IsValid (new_journal capacity)
unfolding new_journal
new_journal-IsValid capacity = record {
  has_room = ground arith;
  bounded = omega arith;
  counted = omega arith;
  numbered = tt;
}

trim_bounded : (c : ℕ) (es : List Event) → length (trim c es) ≤ c
unfolding trim
trim_bounded c es = ground (arith, length-drop (length es - c) es)

length-trim-le : (c : ℕ) (es : List Event) → length (trim c es) ≤ length es
unfolding trim
length-trim-le c es = ground (arith, length-drop (length es - c) es)

Numbered-trim :
    (c n : ℕ) (es : List Event)
    → length es ≤ n
    → Numbered (n - length es) es
    → Numbered (n - length (trim c es)) (trim c es)
unfolding trim
Numbered-trim c n es le h = elim (Bool-cases (ltb c (length es))) [
  | inl cut ↦ rw cut (
      Numbered-eq (drop (length es - c) es) (omega (arith, length-drop (length es - c) es))
        (Numbered-drop (length es - c) (n - length es) es (omega arith) h))
  | inr whole ↦ rw whole h
]

-- `Append` keeps a valid history bounded, gap-free and ending in the newest number, as long as the
-- 64-bit sequence number does not wrap.
pub append-IsValid :
    (ev : Event) (now : ℕ) (j : Journal)
    → IsValid j
    → j.next + 1 < 18446744073709551616
    → IsValid (append ev now j).1
unfolding append stamp
append-IsValid ev now j v small = record {
  has_room = v.has_room;
  bounded = trim_bounded j.capacity grown;
  counted =
      omega (arith, length-trim-le j.capacity grown, length-append j.history (stamp j ev now ∷ []));
  numbered =
      Numbered-trim j.capacity (u64 (j.next + 1)) grown
        (omega (arith, length-append j.history (stamp j ev now ∷ [])))
        (Numbered-eq grown (omega (arith, length-append j.history (stamp j ev now ∷ []))) (
          Numbered-append (j.next - length j.history) j.history (stamp j ev now) v.numbered
            (omega arith)));
}
  where
    grown : List Event
    grown = j.history ++ stamp j ev now ∷ []
