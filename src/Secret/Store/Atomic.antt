-- ===== src/Secret/Store/Atomic.antt =====
-- core/secret/store.go: `Apply` makes all of its changes or none, for every later `Get`.
use sora_client.Prelude.{
  ◌≡◌, refl, ap, ◌∙◌, String, false, Bool-cases, ltb, length, Option, none, some, List, [], ◌∷◌,
  inl, inr, str_eq, str_eq_iff, if◌then◌else◌, if-both, if-cases,
}
use sora_client.Plan.Names.{lookup, mem}
use sora_client.Secret.Items.{
  Bytes, Items, remove, store, remove_all, store_all, lookup-store, lookup-remove,
  lookup-remove_other, differ_sym,
}
use sora_client.Secret.Store.{
  Failure, Store, World, validate_reference, after, first_of, with_items, write_locked, check_puts,
  check_deletes, restore, apply_next, apply, get, get_valid, found, unavailable, full, max_secrets,
}
use sora_client.Secret.Store.Kept.{written_cases}

-- What a reference finds after the changes: the last material put under it, or what was there unless it
-- was deleted.
abbrev pub put_for : String → Items → Option Bytes → Option Bytes
put_for k [] before = before
put_for k ((j, b) ∷ rest) before = put_for k rest (if str_eq k j then some b else before)

abbrev pub after_changes : String → Items → List String → Items → Option Bytes
after_changes k puts deletes m = put_for k puts (if mem k deletes then none else lookup k m)

-- Either a failure and the answers of before to every `Get`, or no failure, a store that is not closed,
-- and the changes.
unfoldable pub IsAtomic : Items → List String → Store → Option Failure × Store → Type 0
IsAtomic puts deletes s (some e, t) = (k : String) → get k t ≡ get k s
IsAtomic puts deletes s (none, t) =
    (s.closed ≡ false)
    × ((k : String)
        → validate_reference k ≡ none
        → get k t ≡ found (after_changes k puts deletes s.items))

lookup-remove_all :
    (k : String) (ks : List String) (m : Items)
    → lookup k (remove_all ks m) ≡ (if mem k ks then none else lookup k m)
lookup-remove_all k [] m = refl
lookup-remove_all k (j ∷ ks) m = elim (Bool-cases (str_eq k j)) [
  | inl e ↦
      rw (lookup-remove_all k ks (remove j m), e)
        (if-both (λ x. x ≡ none) (mem k ks) none (lookup k (remove j m)) refl
          (ap (λ x. lookup x (remove j m)) ((str_eq_iff k j).0 e) ∙ lookup-remove j m))
  | inr e ↦
      rw (lookup-remove_all k ks (remove j m), e, lookup-remove_other j k m (differ_sym k j e)) refl
]

lookup-store_all :
    (k : String) (puts m : Items) → lookup k (store_all puts m) ≡ put_for k puts (lookup k m)
lookup-store_all k [] m = refl
lookup-store_all k ((j, b) ∷ rest) m =
    lookup-store_all k rest (store j b m) ∙ ap (put_for k rest) (lookup-store k j b m)

stored-IsAtomic :
    (w : World) (puts : Items) (deletes : List String) (s : Store)
    → s.closed ≡ false
    → IsAtomic puts deletes s (
        restore s.items
          (write_locked w (with_items (store_all puts (remove_all deletes s.items)) s)))
unfolding IsAtomic restore with_items get get_valid
stored-IsAtomic w puts deletes s unlocked =
    elim (written_cases w (with_items (store_all puts (remove_all deletes s.items)) s)) [
      | inl (e, q) ↦ rw q (λ k. refl)
      | inr q ↦ rw q (
        unlocked,
        λ k v.
            rw
              (
                v,
                unlocked,
                lookup-store_all k puts (remove_all deletes s.items),
                lookup-remove_all k deletes s.items,
              )
              refl,
      )
    ]

after-IsAtomic :
    (puts : Items) (deletes : List String) (s : Store) (o : Option Failure)
    (r : Option Failure × Store)
    → IsAtomic puts deletes s r
    → IsAtomic puts deletes s (after o r s)
unfolding after IsAtomic
after-IsAtomic puts deletes s (some e) r h = λ k. refl
after-IsAtomic puts deletes s none r h = h

failed-IsAtomic :
    (puts : Items) (deletes : List String) (s : Store) (e : Failure)
    → IsAtomic puts deletes s (some e, s)
unfolding IsAtomic
failed-IsAtomic puts deletes s e = λ k. refl

-- `Apply` of an open or a closed store either fails and leaves the answer of every `Get` as it was, or
-- returns no error, and then a `Get` of a valid reference finds what was put under it, nothing if it was
-- deleted and not put, and otherwise what it found before.
pub apply-IsAtomic :
    (w : World) (puts : Items) (deletes : List String) (s : Store)
    → IsAtomic puts deletes s (apply w puts deletes s)
unfolding apply apply_next
apply-IsAtomic w puts deletes s =
    after-IsAtomic puts deletes s (first_of (check_puts puts) (check_deletes deletes))
      (if s.closed then (some unavailable, s) else apply_next w next s)
      (if-cases (IsAtomic puts deletes s) s.closed (some unavailable, s) (apply_next w next s)
        (λ _. failed-IsAtomic puts deletes s unavailable)
        (λ unlocked.
          if-both (IsAtomic puts deletes s) (ltb max_secrets (length next)) (some full, s)
            (restore s.items (write_locked w (with_items next s)))
            (failed-IsAtomic puts deletes s full) (stored-IsAtomic w puts deletes s unlocked)))
  where
    next : Items
    next = store_all puts (remove_all deletes s.items)

pub get-found :
    (k : String) (s : Store)
    → s.closed ≡ false
    → validate_reference k ≡ none
    → get k s ≡ found (lookup k s.items)
unfolding get get_valid
get-found k s unlocked v = rw (v, unlocked) refl
