-- ===== src/Plan/Redactor/Order.antt =====
-- core/engine/redact.go: the values of a redactor have at least four bytes and stand longest first, and
-- its replacer is made of them.
use sora_client.Prelude.{
  ◌≤◌, ◌≡◌, refl, String, Bool, true, false, List, [], ◌∷◌, ◌++◌, arith, leb, ltb, str_eq,
  Bool-cases, inl, inr, if-both, All, All-append, All-map, leb→le,
}
use sora_client.Plan.Names.{len, mem}
use sora_client.Plan.Redactor.{
  Redactor, add_value, add_loop, insert_longest, sort_longest, settle, add, new_redactor, built,
  mask,
}

-- No value is longer than one before it.
unfoldable pub Longest : List String → Type 0
Longest [] = Unit
Longest (v ∷ vs) = All (λ w. len w ≤ len v) vs × Longest vs

insert_longest-All :
    (P : String → Type 0) (v : String) (vs : List String)
    → P v
    → All P vs
    → All P (insert_longest v vs)
unfolding insert_longest
insert_longest-All P v [] h k = (h, tt)
insert_longest-All P v (w ∷ ws) h k =
    if-both (All P) (leb (len w) (len v)) _ _ (h, k) (k.0, insert_longest-All P v ws h k.1)

insert_longest-Longest :
    (v : String) (vs : List String) → Longest vs → Longest (insert_longest v vs)
unfolding insert_longest Longest
insert_longest-Longest v [] h = (tt, tt)
insert_longest-Longest v (w ∷ ws) h = elim (Bool-cases (leb (len w) (len v))) [
  | inl e ↦
      let bound = leb→le (len w) (len v) e in
      rw e ((bound, All-map _ _ (λ x k. omega arith) ws h.0), h)
  | inr e ↦ rw e (
    insert_longest-All (λ x. len x ≤ len w) v ws (ground arith) h.0,
    insert_longest-Longest v ws h.1,
  )
]

sort_longest-Longest : (vs : List String) → Longest (sort_longest vs)
unfolding sort_longest Longest
sort_longest-Longest [] = tt
sort_longest-Longest (v ∷ vs) = insert_longest-Longest v (sort_longest vs) (sort_longest-Longest vs)

sort_longest-All : (P : String → Type 0) (vs : List String) → All P vs → All P (sort_longest vs)
unfolding sort_longest
sort_longest-All P [] h = tt
sort_longest-All P (v ∷ vs) h =
    insert_longest-All P v (sort_longest vs) h.0 (sort_longest-All P vs h.1)

abbrev pub IsLong : String → Type 0
IsLong v = 4 ≤ len v

-- The values have at least four bytes and stand longest first, and a replacer is made of them.
unfoldable pub IsSorted : Redactor → Type 0
IsSorted r = Longest r.values × (All IsLong r.values × (built r ≡ r.values))

settle-IsSorted :
    (r : Redactor) (values : List String) (added : Bool)
    → IsSorted r
    → (added ≡ false → values ≡ r.values)
    → All IsLong values
    → IsSorted (settle r (values, added))
unfolding IsSorted settle built
settle-IsSorted r values true h k l =
    (sort_longest-Longest values, (sort_longest-All IsLong values l, refl))
settle-IsSorted r values false h k l = rw (k refl) h

-- As long as no value is added, the list is what it was.
Untouched : List String → List String × Bool → Type 0
Untouched start state = state.1 ≡ false → state.0 ≡ start

add_value-Untouched :
    (v : String) (start : List String) (state : List String × Bool)
    → Untouched start state
    → Untouched start (add_value v state)
unfolding Untouched add_value
add_value-Untouched v start (values, added) h =
    if-both (Untouched start) (ltb (len v) 4) _ _ h
      (if-both (Untouched start) (mem v values) (values, added) _ h (λ k. ground arith))

add_loop-Untouched :
    (vs start : List String) (state : List String × Bool)
    → Untouched start state
    → Untouched start (add_loop vs state)
unfolding add_loop
add_loop-Untouched [] start state h = h
add_loop-Untouched (v ∷ vs) start state h =
    add_loop-Untouched vs start (add_value v state) (add_value-Untouched v start state h)

add_value-IsLong :
    (v : String) (state : List String × Bool)
    → All IsLong state.0
    → All IsLong (add_value v state).0
unfolding add_value
add_value-IsLong v (values, added) h = elim (Bool-cases (ltb (len v) 4)) [
  | inl e ↦ rw e h
  | inr e ↦ rw e (
      if-both {A = List String × Bool} (λ x. All IsLong x.0) (mem v values) (values, added)
        (values ++ v ∷ [], true) h (All-append IsLong values (v ∷ []) h (ground arith, tt)))
]

add_loop-IsLong :
    (vs : List String) (state : List String × Bool)
    → All IsLong state.0
    → All IsLong (add_loop vs state).0
unfolding add_loop
add_loop-IsLong [] state h = h
add_loop-IsLong (v ∷ vs) state h =
    add_loop-IsLong vs (add_value v state) (add_value-IsLong v state h)

-- `Add` keeps the order and drops a replacer that lacks a value.
pub add-IsSorted : (vs : List String) (r : Redactor) → IsSorted r → IsSorted (add vs r)
unfolding add Untouched IsSorted
add-IsSorted vs r h =
    settle-IsSorted r (add_loop vs (r.values, false)).0 (add_loop vs (r.values, false)).1 h
      (add_loop-Untouched vs r.values (r.values, false) (λ k. refl))
      (add_loop-IsLong vs (r.values, false) h.1.0)

pub new_redactor-IsSorted : (vs : List String) → IsSorted (new_redactor vs)
unfolding new_redactor IsSorted Longest built
new_redactor-IsSorted vs = add-IsSorted vs _ (tt, (tt, refl))

pub mask-IsSorted :
    (mask_patterns : String → String) (r : Redactor) (s : String)
    → IsSorted r
    → IsSorted (mask mask_patterns r s).1
unfolding mask IsSorted built
mask-IsSorted mask_patterns r s h =
    if-both {A = String × Redactor} (λ x. IsSorted x.1) (str_eq s "") _ _ h (h.0, (h.1.0, h.1.1))

-- The redactors of a program: one is made, values are added, texts are masked.
pub data Reached (mask_patterns : String → String) : Redactor → Type 0 where
  made : (vs : List String) → Reached mask_patterns (new_redactor vs)
  added :
      (vs : List String) {r : Redactor} → Reached mask_patterns r → Reached mask_patterns (add vs r)
  masked :
      (s : String) {r : Redactor}
      → Reached mask_patterns r
      → Reached mask_patterns (mask mask_patterns r s).1

pub Reached-IsSorted :
    {mask_patterns : String → String} {r : Redactor} → Reached mask_patterns r → IsSorted r
Reached-IsSorted (made vs) = new_redactor-IsSorted vs
Reached-IsSorted (added vs {r = r} h) = add-IsSorted vs r (Reached-IsSorted h)
Reached-IsSorted {mask_patterns = f} (masked s {r = r} h) = mask-IsSorted f r s (Reached-IsSorted h)
