-- ===== src/Session/Journal/Since.antt =====
-- core/session/journal.go: `Since` against its specification, and resumption from a cursor.
use sora_client.Prelude.{
  ℕ, zero, suc, ◌+◌, ◌-◌, ◌≤◌, ◌<◌, ◌≡◌, refl, ◌||◌, List, [], ◌∷◌, ◌++◌, append_assoc, append-nil,
  arith, length, take, drop, keep, length-append, length-drop, length-take, min, ltb, ◌==◌,
  if◌then◌else◌,
}
use sora_client.Session.Journal.{Event, Journal, since_loop, since}
use sora_client.Session.Journal.History.{Numbered, IsValid, Numbered-eq, Numbered-drop}

-- The limit that `Since` works with.
abbrev pub page : ℕ → Journal → ℕ
page limit j = if limit == 0 || ltb j.capacity limit then j.capacity else limit

abbrev pub newer : ℕ → List Event → List Event
newer after = keep (λ ev. ltb after ev.sequence)

since_loop_lem :
    (after limit k : ℕ) (h out : List Event)
    → length out + suc k ≡ limit
    → since_loop after limit h out ≡ out ++ take (suc k) (newer after h)
unfolding since_loop
since_loop_lem after limit k [] out e = rw append-nil
since_loop_lem after limit zero (ev ∷ rest) out e =
    ground (arith, since_loop_lem after limit zero rest out e, length-append out (ev ∷ []))
since_loop_lem after limit (suc k) (ev ∷ rest) out e = ground (
  arith,
  since_loop_lem after limit (suc k) rest out e,
  length-append out (ev ∷ []),
  append_assoc out (ev ∷ []) (take (suc k) (newer after rest)),
  since_loop_lem after limit k rest (out ++ ev ∷ []),
)

-- `Since`, of a journal whose capacity is not 0, returns the first events after the cursor, up to the
-- limit, in the order of the history.
pub since_lem :
    (after limit : ℕ) (j : Journal)
    → 0 < j.capacity
    → since after limit j ≡ take (page limit j) (newer after j.history)
unfolding since
since_lem after limit j room =
    let k : suc (page limit j - 1) ≡ page limit j = ground arith in
    rw (since_loop_lem after (page limit j) (page limit j - 1) j.history [] (omega (arith, k)), k)

newer_all : (after n : ℕ) (h : List Event) → Numbered n h → after ≤ n → newer after h ≡ h
newer_all after n [] v le = refl
newer_all after n (ev ∷ rest) v le = ground (arith, newer_all after (n + 1) rest v.1)

newer-Numbered :
    (k after n : ℕ) (h : List Event) → Numbered n h → n + k ≡ after → newer after h ≡ drop k h
newer-Numbered zero after n h v e = newer_all after n h v (omega arith)
newer-Numbered (suc k) after n [] v e = refl
newer-Numbered (suc k) after n (ev ∷ rest) v e =
    ground (arith, newer-Numbered k after (n + 1) rest v.1)

Numbered-take : (k n : ℕ) (h : List Event) → Numbered n h → Numbered n (take k h)
Numbered-take zero n h v = tt
Numbered-take (suc k) n [] v = tt
Numbered-take (suc k) n (ev ∷ rest) v = (v.0, Numbered-take k (n + 1) rest v.1)

-- In a valid journal, a client whose cursor the history still reaches resumes with the events after it, numbered
-- without a gap, and gets as many as there are up to the limit.
pub since_resumes :
    (after limit : ℕ) (j : Journal)
    → IsValid j
    → j.next ≤ after + length j.history
    → after ≤ j.next
    → Numbered after (since after limit j)
      × (length (since after limit j) ≡ min (page limit j) (j.next - after))
since_resumes after limit j v reach le =
    rw (since_lem after limit j v.has_room, newer-Numbered skipped after _ j.history v.numbered at)
      (
        Numbered-take (page limit j) after (drop skipped j.history) (
            Numbered-eq (drop skipped j.history) at
              (Numbered-drop skipped _ j.history (omega (arith, v.counted)) v.numbered)),
        omega (
          arith,
          length-take (page limit j) (drop skipped j.history),
          length-drop skipped j.history,
          v.counted,
        ),
      )
  where
    skipped : ℕ
    skipped = after - (j.next - length j.history)

    at : j.next - length j.history + skipped ≡ after
    at = omega (arith, v.counted)

-- Reading on from `latest` finds nothing.
pub since-latest : (limit : ℕ) (j : Journal) → IsValid j → length (since j.next limit j) ≡ 0
since-latest limit j v =
    omega (arith, (since_resumes j.next limit j v (omega arith) (omega arith)).1)
