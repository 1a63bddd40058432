-- ===== src/Secret/Store/Kept.antt =====
-- core/secret/store.go: what every use of a store keeps.
use sora_client.Prelude.{
  ℕ, ◌≤◌, ◌≡◌, refl, sym, ap, ◌∙◌, subst, String, Bool, true, false, ◌&&◌, not, Bool-cases,
  Option-cases, Option, none, some, List, [], ◌∷◌, ◌⊎◌, inl, inr, arith, length, All, str_eq,
  str_eq_iff, ltb, leb, if◌then◌else◌, if-both, if-cases,
}
use sora_client.Plan.Names.{lookup, has_key}
use sora_client.Secret.Items.{
  Bytes, Items, remove, store, remove_all, store_all, lookup-remove, lookup-remove_other,
  lookup-store, differ_sym, has_key-lookup, All-lookup, length-remove, length-remove_key,
  All-remove, All-remove_all, All-store_all, str_eq_refl,
}
use sora_client.Secret.Store.{
  Failure, Store, World, validate_reference, check_material, first_of, after, opened, with_items,
  written, write_sealed, write_locked, put_back, undo, put_locked, put, delete_stored,
  delete_locked, delete, check_puts, check_deletes, restore, apply_next, apply, close, max_secrets,
  max_vault_bytes, too_large, unavailable, full,
}
use mathlib.Core.Bool.{true≢false}

-- An entry that the store may hold.
abbrev pub IsEntry : String × Bytes → Type 0
IsEntry e = (validate_reference e.0 ≡ none) × (check_material e.1 ≡ none)

-- Two maps that every lookup takes for the same.
abbrev pub Same : Items → Items → Type 0
Same m n = (k : String) → lookup k m ≡ lookup k n

abbrev pub IsFit : Items → Type 0
IsFit m = (length m ≤ 4096) × All IsEntry m

-- An open store holds what its file holds, and neither ever holds too much or an entry that it may not.
pub data IsKept (s : Store) : Type 0 where
  kept : (s.closed ≡ false → Same s.items s.file) → IsFit s.items → IsFit s.file → IsKept s

Kept : Option Failure × Store → Type 0
Kept r = IsKept r.1

file_cases :
    (o : Option Failure) (s : Store)
    → ((e : Failure) × (written o s ≡ (some e, s)))
      ⊎ (written o s ≡ (none, record { items = s.items; file = s.items; closed = s.closed }))
unfolding written
file_cases none s = inr refl
file_cases (some e) s = inl (e, refl)

sealed_cases :
    (w : World) (o : Failure ⊎ ℕ) (s : Store)
    → ((e : Failure) × (write_sealed w o s ≡ (some e, s)))
      ⊎ (write_sealed w o s ≡ (none, record { items = s.items; file = s.items; closed = s.closed }))
unfolding write_sealed
sealed_cases w (inl e) s = inl (e, refl)
sealed_cases w (inr size) s = elim (Bool-cases (ltb max_vault_bytes size)) [
  | inl h ↦ inl (too_large, rw h refl)
  | inr h ↦ rw h (file_cases (w.write_file s.items) s)
]

-- What `writeLocked` leaves: an error and the state it found, or the map in the file.
pub written_cases :
    (w : World) (s : Store)
    → ((e : Failure) × (write_locked w s ≡ (some e, s)))
      ⊎ (write_locked w s ≡ (none, record { items = s.items; file = s.items; closed = s.closed }))
unfolding write_locked
written_cases w s = sealed_cases w (w.seal s.items) s

-- The map of before, where the material under a reference was changed, and is put back.
put_back-Same :
    (k : String) (m n : Items)
    → ((j : String) → str_eq j k ≡ false → lookup j n ≡ lookup j m)
    → Same (put_back k (lookup k m) n) m
unfolding put_back
put_back-Same k m n h j = elim (Option-cases (lookup k m)) [
  | inl e ↦ rw e (elim (Bool-cases (str_eq j k)) [
    | inl f ↦ rw ((str_eq_iff j k).0 f) (lookup-remove k n ∙ sym e)
    | inr f ↦ lookup-remove_other k j n (differ_sym j k f) ∙ h j f
  ])
  | inr (b, e) ↦
      rw (e, lookup-store j k b n)
        (elim (Bool-cases (str_eq j k)) [
          | inl f ↦ rw f (sym (ap (λ x. lookup x m) ((str_eq_iff j k).0 f) ∙ e))
          | inr f ↦ rw f (h j f)
        ])
]

undo-Kept :
    (w : World) (k : String) (n : Items) (s : Store)
    → IsKept s
    → IsFit n
    → IsFit (put_back k (lookup k s.items) n)
    → ((j : String) → str_eq j k ≡ false → lookup j n ≡ lookup j s.items)
    → Kept (undo k (lookup k s.items) (write_locked w (with_items n s)))
unfolding Kept undo with_items
undo-Kept w k n s (kept same fit file) f g h = elim (written_cases w (with_items n s)) [
  | inl (e, q) ↦ rw q (kept (λ c j. put_back-Same k s.items n h j ∙ same c j) g file)
  | inr q ↦ rw q (kept (λ c j. refl) f f)
]

restore-Kept :
    (w : World) (n : Items) (s : Store)
    → IsKept s
    → IsFit n
    → Kept (restore s.items (write_locked w (with_items n s)))
unfolding Kept restore with_items
restore-Kept w n s (kept same fit file) f = elim (written_cases w (with_items n s)) [
  | inl (e, q) ↦ rw q (kept same fit file)
  | inr q ↦ rw q (kept (λ c j. refl) f f)
]

IsFit-store :
    (k : String) (b : Bytes) (m : Items)
    → IsFit m
    → IsEntry (k, b)
    → (not (has_key k m) && leb max_secrets (length m)) ≡ false
    → IsFit (store k b m)
IsFit-store k b m f e room = (
  elim (Bool-cases (has_key k m)) [
    | inl h ↦ let q = length-remove_key k m h in let r = f.0 in omega arith
    | inr h ↦ let q = length-remove k m in let t = rw h at room in ground arith
  ],
  (e, All-remove IsEntry k m f.1),
)

IsFit-remove : (k : String) (m : Items) → IsFit m → IsFit (remove k m)
IsFit-remove k m f =
    (let q = length-remove k m in let r = f.0 in omega arith, All-remove IsEntry k m f.1)

-- A map that gets back the material of before is no larger than it was.
IsFit-put_back :
    (k : String) (m n : Items)
    → IsFit m
    → All IsEntry n
    → length n ≤ 4096
    → ((b : Bytes) → lookup k m ≡ some b → length (store k b n) ≤ 4096)
    → IsFit (put_back k (lookup k m) n)
unfolding put_back
IsFit-put_back k m n f a l h = elim (Option-cases (lookup k m)) [
  | inl e ↦ rw e (IsFit-remove k n (l, a))
  | inr (b, e) ↦ rw e (h b e, (All-lookup IsEntry k b m f.1 e, All-remove IsEntry k n a))
]

after-Kept :
    (o : Option Failure) (r : Option Failure × Store) (s : Store)
    → IsKept s
    → (o ≡ none → Kept r)
    → Kept (after o r s)
unfolding Kept after
after-Kept (some e) r s h k = h
after-Kept none r s h k = k refl

first_of-left : (o p : Option Failure) → first_of o p ≡ none → o ≡ none
unfolding first_of
first_of-left none p h = refl
first_of-left (some e) p h = absurd cc

first_of-right : (o p : Option Failure) → first_of o p ≡ none → p ≡ none
unfolding first_of
first_of-right none p h = h
first_of-right (some e) p h = absurd cc

length-store_again :
    (k : String) (b p : Bytes) (m : Items) → length (store k p (store k b m)) ≤ length (store k b m)
length-store_again k b p m =
    let q = length-remove_key k (store k b m) (rw (str_eq_refl k) refl) in omega arith

put_locked-Kept :
    (w : World) (k : String) (b : Bytes) (s : Store)
    → IsKept s
    → IsEntry (k, b)
    → Kept (put_locked w k b s)
unfolding put_locked Kept
put_locked-Kept w k b s h v =
    if-both Kept s.closed (some unavailable, s) (if full_up then (some full, s) else undone) h
      (if-cases Kept full_up (some full, s) undone (λ _. h) (open_up h))
  where
    full_up : Bool
    full_up = not (has_key k s.items) && leb max_secrets (length s.items)

    undone : Option Failure × Store
    undone = undo k (lookup k s.items) (write_locked w (with_items (store k b s.items) s))

    open_up : IsKept s → full_up ≡ false → Kept undone
    open_up (kept same fit file) room =
        let n = IsFit-store k b s.items fit v room in
        undo-Kept w k (store k b s.items) s h n
          (IsFit-put_back k s.items (store k b s.items) fit n.1 n.0
            (λ p e. let q = length-store_again k b p s.items in let r = n.0 in omega arith))
          (λ j f. lookup-store j k b s.items ∙ (rw f refl))

put-Kept : (w : World) (k : String) (b : Bytes) (s : Store) → IsKept s → Kept (put w k b s)
unfolding put
put-Kept w k b s h =
    after-Kept (first_of (validate_reference k) (check_material b)) (put_locked w k b s) s h (λ e.
      put_locked-Kept w k b s h (
        first_of-left (validate_reference k) (check_material b) e,
        first_of-right (validate_reference k) (check_material b) e,
      ))

removed-Kept :
    (w : World) (k : String) (b : Bytes) (s : Store)
    → IsKept s
    → lookup k s.items ≡ some b
    → Kept (undo k (lookup k s.items) (write_locked w (with_items (remove k s.items) s)))
removed-Kept w k b s (kept same fit file) e =
    let n = IsFit-remove k s.items fit in
    undo-Kept w k (remove k s.items) s (kept same fit file) n
      (IsFit-put_back k s.items (remove k s.items) fit n.1 n.0 (λ p f.
        let q = length-remove_key k s.items (has_key-lookup k b s.items e) in
        let r = length-remove k (remove k s.items) in let t = fit.0 in omega arith))
      (λ j f. lookup-remove_other k j s.items (differ_sym j k f))

delete_stored-Kept :
    (w : World) (k : String) (s : Store) → IsKept s → Kept (delete_stored w k (lookup k s.items) s)
unfolding delete_stored Kept
delete_stored-Kept w k s h = elim (Option-cases (lookup k s.items)) [
  | inl e ↦ rw e h
  | inr (b, e) ↦ rw e (subst (λ o. Kept (undo k o left)) e (removed-Kept w k b s h e))
]
  where
    left : Option Failure × Store
    left = write_locked w (with_items (remove k s.items) s)

delete-Kept : (w : World) (k : String) (s : Store) → IsKept s → Kept (delete w k s)
unfolding delete delete_locked Kept
delete-Kept w k s h = after-Kept (validate_reference k) (delete_locked w k s) s h (λ _.
    if-both Kept s.closed (some unavailable, s) (delete_stored w k (lookup k s.items) s) h
      (delete_stored-Kept w k s h))

check_puts-All : (puts : Items) → check_puts puts ≡ none → All IsEntry puts
unfolding check_puts
check_puts-All [] h = tt
check_puts-All ((k, b) ∷ rest) h =
    let first =
      first_of-left (first_of (validate_reference k) (check_material b)) (check_puts rest) h in
    (
      (
        first_of-left (validate_reference k) (check_material b) first,
        first_of-right (validate_reference k) (check_material b) first,
      ),
      check_puts-All rest
          (first_of-right (first_of (validate_reference k) (check_material b)) (check_puts rest) h),
    )

apply_next-Kept :
    (w : World) (next : Items) (s : Store)
    → IsKept s
    → All IsEntry next
    → Kept (apply_next w next s)
unfolding apply_next Kept
apply_next-Kept w next s h a =
    if-cases Kept (ltb max_secrets (length next)) (some full, s)
      (restore s.items (write_locked w (with_items next s))) (λ _. h)
      (λ room. restore-Kept w next s h (ground arith, a))

apply-Kept :
    (w : World) (puts : Items) (deletes : List String) (s : Store)
    → IsKept s
    → Kept (apply w puts deletes s)
unfolding apply Kept
apply-Kept w puts deletes s h =
    after-Kept (first_of (check_puts puts) (check_deletes deletes))
      (if s.closed then (some unavailable, s) else apply_next w next s) s h
      (λ e.
        if-both Kept s.closed (some unavailable, s) (apply_next w next s) h
          (apply_next-Kept w next s h (
            All-store_all IsEntry puts (remove_all deletes s.items)
              (check_puts-All puts (first_of-left (check_puts puts) (check_deletes deletes) e))
              (All-remove_all IsEntry deletes s.items (entries s h)))))
  where
    next : Items
    next = store_all puts (remove_all deletes s.items)

    entries : (s : Store) → IsKept s → All IsEntry s.items
    entries s (kept same fit file) = fit.1

close-IsKept : (s : Store) → IsKept s → IsKept (close s)
unfolding close
close-IsKept s (kept same fit file) =
    if-both IsKept s.closed s (record { items = []; file = s.file; closed = true })
      (kept same fit file) (kept (λ c. absurd (true≢false c)) (omega arith, tt) file)

-- A use of the store, with what the file system answers to it.
pub data Op : Type 0 where
  puts : World → String → Bytes → Op
  deletes : World → String → Op
  applies : World → Items → List String → Op
  closes : Op

unfoldable pub perform : Op → Store → Store
perform (puts w k b) s = (put w k b s).1
perform (deletes w k) s = (delete w k s).1
perform (applies w new old) s = (apply w new old s).1
perform closes s = close s

unfoldable pub run : List Op → Store → Store
run [] s = s
run (o ∷ os) s = run os (perform o s)

perform-IsKept : (o : Op) (s : Store) → IsKept s → IsKept (perform o s)
unfolding perform Kept
perform-IsKept (puts w k b) s h = put-Kept w k b s h
perform-IsKept (deletes w k) s h = delete-Kept w k s h
perform-IsKept (applies w new old) s h = apply-Kept w new old s h
perform-IsKept closes s h = close-IsKept s h

run_from-IsKept : (os : List Op) (s : Store) → IsKept s → IsKept (run os s)
unfolding run
run_from-IsKept [] s h = h
run_from-IsKept (o ∷ os) s h = run_from-IsKept os (perform o s) (perform-IsKept o s h)

-- Whatever is put, deleted and applied in any order, and whichever writes fail, a store that was opened
-- on a file within the limits finds in memory what a restart would find in the file until it is closed,
-- and both hold at most 4096 entries, each with a valid reference and material within the limit.
pub run-IsKept : (file : Items) (os : List Op) → IsFit file → IsKept (run os (opened file))
unfolding opened
run-IsKept file os f = run_from-IsKept os (opened file) (kept (λ c k. refl) f f)
