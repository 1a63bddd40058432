-- ===== src/Plan/Redactor/Masks.antt =====
-- core/engine/redact.go: the replacement masks the longest value at every place that its scan comes to.
use Prim.Native.Char.{Char, code}
use Prim.Native.String.{◌∷◌ as scons, [] as snil}
use text.Mathlib.TextEquality.{Char-path}
use sora_client.Prelude.{
  ℕ, zero, suc, ◌≤◌, ◌≡◌, refl, sym, ap, subst, String, true, false, Option, none, some, List, [],
  ◌∷◌, arith, if◌then◌else◌, str_eq, str_eq_iff, Bool-cases, inl, inr, ◌==◌, Option-cases, All,
  ==_iff, and_left, and_right,
}
use sora_client.Errs.Line.{cat, chars}
use sora_client.Plan.Names.{len, mem}
use sora_client.Plan.Fields.{has_prefix}
use sora_client.Plan.Redactor.{Redactor, first_match, replace_from, mask}
use sora_client.Plan.Redactor.Order.{Longest, IsLong, IsSorted, Reached, Reached-IsSorted}

-- How a text is masked for a list of values: at each place either no value begins there and the
-- character is kept, or the longest value that begins there is hidden and passed over.
pub data Masked (vs : List String) : String → String → Type 0 where
  done : Masked vs snil snil
  kept :
      (c : Char) {s t : String}
      → ((v : String) → mem v vs ≡ true → has_prefix v (scons c s) ≡ false)
      → Masked vs s t
      → Masked vs (scons c s) (scons c t)
  hidden :
      (v : String) {s t : String}
      → mem v vs ≡ true
      → ((w : String) → mem w vs ≡ true → has_prefix w (cat v s) ≡ true → len w ≤ len v)
      → Masked vs s t
      → Masked vs (cat v s) (cat "[masked]" t)

first_match-none :
    (vs : List String) (s : String)
    → first_match vs s ≡ none
    → (v : String) → mem v vs ≡ true
    → has_prefix v s ≡ false
unfolding first_match
first_match-none [] s h v k = ground arith
first_match-none (w ∷ vs) s h v k = elim (Bool-cases (str_eq v w)) [
  | inl e ↦ subst (λ z. has_prefix z s ≡ false) (sym ((str_eq_iff v w).0 e)) (ground arith)
  | inr e ↦ first_match-none vs s (ground arith) v (ground arith)
]

All-mem : (P : String → Type 0) (vs : List String) → All P vs → (w : String) → mem w vs ≡ true → P w
All-mem P [] h w k = ground arith
All-mem P (v ∷ vs) h w k = elim (Bool-cases (str_eq w v)) [
  | inl e ↦ subst P (sym ((str_eq_iff w v).0 e)) h.0
  | inr e ↦ All-mem P vs h.1 w (ground arith)
]

first_match-some :
    (vs : List String) (s v : String)
    → Longest vs
    → first_match vs s ≡ some v
    → (mem v vs ≡ true)
      × ((has_prefix v s ≡ true)
          × ((w : String) → mem w vs ≡ true → has_prefix w s ≡ true → len w ≤ len v))
unfolding first_match Longest
first_match-some [] s v h k = ground arith
first_match-some (u ∷ vs) s v h k = elim (Bool-cases (has_prefix u s)) [
  | inl e ↦
      subst
        (λ z.
          (mem z (u ∷ vs) ≡ true)
          × ((has_prefix z s ≡ true)
              × ((w : String) → mem w (u ∷ vs) ≡ true → has_prefix w s ≡ true → len w ≤ len z)))
        (found u v (first_match vs s) e k)
        (
          ground (arith, str_eq_iff u u),
          (e, λ w m l. All-mem (λ x. len x ≤ len u) (u ∷ vs) (omega arith, h.0) w m),
        )
  | inr e ↦
      let (m, (l, longest)) = first_match-some vs s v h.1 (ground arith) in
      (ground arith, (l, λ w n o. longest w (ground (arith, other w e o)) o))
]
  where
    found :
        (u v : String) (o : Option String)
        → has_prefix u s ≡ true
        → (if has_prefix u s then some u else o) ≡ some v
        → u ≡ v
    found u v o e k = ground arith

    other : (w : String) → has_prefix u s ≡ false → has_prefix w s ≡ true → str_eq w u ≡ false
    other w e l = elim (Bool-cases (str_eq w u)) [
      | inl i ↦ ground (arith, subst (λ z. has_prefix z s ≡ true) ((str_eq_iff w u).0 i) l)
      | inr i ↦ i
    ]

-- A text that begins with another.
split_prefix : (v s : String) → has_prefix v s ≡ true → (t : String) × (s ≡ cat v t)
unfolding has_prefix
split_prefix snil s h = (s, refl)
split_prefix (scons c p) snil h = ground arith
split_prefix (scons c p) (scons d s) h =
    let (t, e) = split_prefix p s (and_right (code c == code d) _ h) in
    let same = Char-path c d ((==_iff (code c) (code d)).0 (and_left _ (has_prefix p s) h)) in
    (t, rw (same, e))

replace_from-skip :
    (vs : List String) (w t : String) → replace_from vs (chars w) (cat w t) ≡ replace_from vs 0 t
unfolding replace_from
replace_from-skip vs snil t = refl
replace_from-skip vs (scons c w) t = replace_from-skip vs w t

replace_from-none :
    (vs : List String) (c : Char) (s : String)
    → first_match vs (scons c s) ≡ none
    → replace_from vs 0 (scons c s) ≡ scons c (replace_from vs 0 s)
unfolding replace_from
replace_from-none vs c s h = rw (replace_from, h)

replace_from-some :
    (vs : List String) (c d : Char) (v t : String)
    → first_match vs (scons c (cat v t)) ≡ some (scons d v)
    → replace_from vs 0 (scons c (cat v t)) ≡ cat "[masked]" (replace_from vs 0 t)
unfolding replace_from
replace_from-some vs c d v t h = rw (replace_from, h, replace_from-skip vs v t)

-- One place of the text, from the value that was found there.
replace_from-match :
    (vs : List String) (c : Char) (s : String) (v : String)
    → Longest vs
    → All IsLong vs
    → first_match vs (scons c s) ≡ some v
    → ((t : String) → chars t ≤ chars s → Masked vs t (replace_from vs 0 t))
    → Masked vs (scons c s) (replace_from vs 0 (scons c s))
replace_from-match vs c s v h k found next =
    let (m, (l, longest)) = first_match-some vs (scons c s) v h found in
    go v (split_prefix v (scons c s) l) m (All-mem IsLong vs k v m) found longest
  where
    chars_cat : (v t : String) → chars t ≤ chars (cat v t)
    chars_cat snil t = omega arith
    chars_cat (scons d v) t = omega (arith, chars_cat v t)

    go :
        (v : String)
        → (t : String) × (scons c s ≡ cat v t)
        → mem v vs ≡ true
        → IsLong v
        → first_match vs (scons c s) ≡ some v
        → ((w : String) → mem w vs ≡ true → has_prefix w (scons c s) ≡ true → len w ≤ len v)
        → Masked vs (scons c s) (replace_from vs 0 (scons c s))
    go snil (t, e) m long found longest = absurd (omega arith)
    go (scons d v) (t, e) m long found longest =
        subst (λ z. Masked vs z (replace_from vs 0 z)) (sym e)
          (rw
            (replace_from-some vs d d v t
              (subst (λ z. first_match vs z ≡ some (scons d v)) e found))
            (Masked.hidden (scons d v) m
              (subst
                (λ z.
                  (w : String) → mem w vs ≡ true → has_prefix w z ≡ true → len w ≤ len (scons d v))
                e longest)
              (next t (omega (arith, ap chars e, chars_cat v t)))))

replace_from-Masked :
    (vs : List String)
    → Longest vs
    → All IsLong vs
    → (fuel : ℕ) (s : String) → chars s ≤ fuel
    → Masked vs s (replace_from vs 0 s)
unfolding replace_from
replace_from-Masked vs h k fuel snil l = Masked.done
replace_from-Masked vs h k zero (scons c s) l = absurd (omega arith)
replace_from-Masked vs h k (suc fuel) (scons c s) l =
    elim (Option-cases (first_match vs (scons c s))) [
      | inl e ↦ rw (replace_from-none vs c s e) (
          Masked.kept c (first_match-none vs (scons c s) e)
            (replace_from-Masked vs h k fuel s (omega arith)))
      | inr (v, e) ↦
          replace_from-match vs c s v h k e (λ t m. replace_from-Masked vs h k fuel t (omega arith))
    ]

-- `String` of every redactor that the program can reach, on a text that is not empty and before the
-- patterns are applied to it, goes over the text from the left: at each place that it comes to, either no
-- registered value begins and one character is kept, or the longest registered value that begins there is
-- replaced by "[masked]" and the scan goes on behind it. A value that begins inside a replaced one is not
-- looked for. The empty text is returned as it is.
pub mask-Masked :
    (mask_patterns : String → String) (r : Redactor) (s : String)
    → Reached mask_patterns r
    → (t : String) × (Masked r.values s t
        × ((mask mask_patterns r s).0 ≡ (if str_eq s "" then s else mask_patterns t)))
unfolding mask IsSorted
mask-Masked mask_patterns r s h =
    let sorted = Reached-IsSorted h in
    (
      replace_from r.values 0 s,
      (
        replace_from-Masked r.values sorted.0 sorted.1.0 (chars s) s (omega arith),
        elim (Bool-cases (str_eq s "")) [ inl e ↦ rw e | inr e ↦ rw (e, sorted.1.1) ],
      ),
    )
