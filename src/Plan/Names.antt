-- ===== src/Plan/Names.antt =====
-- Go maps and sets with text keys: a set is the list of its keys, a map the list of its entries, the
-- latest first.
use Prim.Native.String.{len as byte_len}
use sora_client.Prelude.{
  ℕ, ◌≡◌, refl, sym, ap, subst, String, Bool, true, false, ◌||◌, Option, none, some, List, [], ◌∷◌,
  ◌++◌, arith, if◌then◌else◌, str_eq, str_eq_iff, Bool-cases, inl, inr,
}

abbrev pub mem : String → List String → Bool
mem x [] = false
mem x (y ∷ ys) = str_eq x y || mem x ys

abbrev pub lookup {ℓ} : {A : Type ℓ} → String → List (String × A) → Option A
lookup k [] = none
lookup k ((j, a) ∷ rest) = let later = lookup k rest in if str_eq k j then some a else later

abbrev pub has_key {ℓ} : {A : Type ℓ} → String → List (String × A) → Bool
has_key k [] = false
has_key k ((j, a) ∷ rest) = str_eq k j || has_key k rest

-- `len` of a text counts bytes.
abbrev pub len : String → ℕ
len s = byte_len s

pub mem-append : (x : String) (xs ys : List String) → mem x (xs ++ ys) ≡ (mem x xs || mem x ys)
mem-append x [] ys = refl
mem-append x (z ∷ zs) ys = ground (arith, mem-append x zs ys)

pub str_eq_trans : (x y z : String) → str_eq x y ≡ true → str_eq x z ≡ str_eq y z
str_eq_trans x y z h = ap (λ w. str_eq w z) ((str_eq_iff x y).0 h)

-- A key that is in the set adds nothing.
pub mem_absorb :
    (f x : String) (xs : List String) → mem x xs ≡ true → mem f xs ≡ (str_eq f x || mem f xs)
mem_absorb f x xs h = elim (Bool-cases (str_eq f x)) [
  | inl e ↦ rw e (subst (λ w. mem w xs ≡ true) (sym ((str_eq_iff f x).0 e)) h)
  | inr e ↦ rw e
]
