-- ===== src/Secret/Items.antt =====
-- core/secret/store.go: the map from references to material, as the list of its entries, and what a
-- lookup finds after a change.
use sora_client.Prelude.{
  ℕ, ◌≤◌, ◌<◌, ◌≡◌, refl, sym, ap, ◌∙◌, String, true, false, Bool-cases, Option, none, some, List,
  [], ◌∷◌, inl, inr, arith, length, All, str_eq, str_eq_iff, if◌then◌else◌,
}
use sora_client.Plan.Names.{lookup, has_key}
use mathlib.Core.Bool.{true≢false}

abbrev pub Bytes : Type 0
Bytes = List ℕ

abbrev pub Items : Type 0
Items = List (String × Bytes)

abbrev pub remove : String → Items → Items
remove k [] = []
remove k ((j, b) ∷ rest) = let later = remove k rest in if str_eq k j then later else (j, b) ∷ later

abbrev pub store : String → Bytes → Items → Items
store k b m = (k, b) ∷ remove k m

abbrev pub remove_all : List String → Items → Items
remove_all [] m = m
remove_all (k ∷ ks) m = remove_all ks (remove k m)

abbrev pub store_all : Items → Items → Items
store_all [] m = m
store_all ((k, b) ∷ rest) m = store_all rest (store k b m)

pub str_eq_refl : (x : String) → str_eq x x ≡ true
str_eq_refl x = (str_eq_iff x x).1 refl

-- What equals one of two different texts differs from the other.
pub differs : (k i j : String) → str_eq k i ≡ true → str_eq k j ≡ false → str_eq j i ≡ false
differs k i j e f = elim (Bool-cases (str_eq j i)) [
  | inl g ↦ absurd (
      true≢false (sym ((str_eq_iff k j).1 ((str_eq_iff k i).0 e ∙ sym ((str_eq_iff j i).0 g))) ∙ f))
  | inr g ↦ g
]

pub differ_sym : (j k : String) → str_eq j k ≡ false → str_eq k j ≡ false
differ_sym j k f = differs j j k (str_eq_refl j) f

pub lookup-remove : (k : String) (m : Items) → lookup k (remove k m) ≡ none
lookup-remove k [] = refl
lookup-remove k ((i, b) ∷ rest) = elim (Bool-cases (str_eq k i)) [
  | inl e ↦ rw e (lookup-remove k rest)
  | inr e ↦ rw (e, e) (lookup-remove k rest)
]

pub lookup-remove_other :
    (k j : String) (m : Items) → str_eq k j ≡ false → lookup j (remove k m) ≡ lookup j m
lookup-remove_other k j [] f = refl
lookup-remove_other k j ((i, b) ∷ rest) f = elim (Bool-cases (str_eq k i)) [
  | inl e ↦ rw (e, differs k i j e f) (lookup-remove_other k j rest f)
  | inr e ↦ rw (e, lookup-remove_other k j rest f) refl
]

pub length-remove : (k : String) (m : Items) → length (remove k m) ≤ length m
length-remove k [] = omega arith
length-remove k ((i, b) ∷ rest) = ground (arith, length-remove k rest)

pub length-remove_key :
    (k : String) (m : Items) → has_key k m ≡ true → length (remove k m) < length m
length-remove_key k [] h = absurd (true≢false (sym h))
length-remove_key k ((i, b) ∷ rest) h = elim (Bool-cases (str_eq k i)) [
  | inl e ↦ let q = length-remove k rest in rw e (omega arith)
  | inr e ↦ let q = length-remove_key k rest (rw e at h) in rw e (omega arith)
]

-- What is put under a reference is looked up there, and only there.
pub lookup-store :
    (j k : String) (b : Bytes) (m : Items)
    → lookup j (store k b m) ≡ (if str_eq j k then some b else lookup j m)
lookup-store j k b m = elim (Bool-cases (str_eq j k)) [
  | inl e ↦ rw e refl
  | inr e ↦ rw (e, lookup-remove_other k j m (differ_sym j k e)) refl
]

pub has_key-lookup : (k : String) (b : Bytes) (m : Items) → lookup k m ≡ some b → has_key k m ≡ true
has_key-lookup k b [] h = absurd cc
has_key-lookup k b ((i, c) ∷ rest) h = elim (Bool-cases (str_eq k i)) [
  | inl e ↦ rw e refl
  | inr e ↦ rw e (has_key-lookup k b rest (rw e at h))
]

abbrev or_empty : Option Bytes → Bytes
or_empty none = []
or_empty (some b) = b

module _ {ℓ} (P : String × Bytes → Type ℓ) where
  pub All-lookup : (k : String) (b : Bytes) (m : Items) → All P m → lookup k m ≡ some b → P (k, b)
  All-lookup k b [] a h = absurd cc
  All-lookup k b ((i, c) ∷ rest) a h = elim (Bool-cases (str_eq k i)) [
    | inl e ↦ rw ((str_eq_iff k i).0 e, sym (ap (or_empty) (rw e at h))) a.0
    | inr e ↦ All-lookup k b rest a.1 (rw e at h)
  ]

  pub All-remove : (k : String) (m : Items) → All P m → All P (remove k m)
  All-remove k [] h = h
  All-remove k ((i, b) ∷ rest) h = elim (Bool-cases (str_eq k i)) [
    | inl e ↦ rw e (All-remove k rest h.1)
    | inr e ↦ rw e (h.0, All-remove k rest h.1)
  ]

  pub All-remove_all : (ks : List String) (m : Items) → All P m → All P (remove_all ks m)
  All-remove_all [] m h = h
  All-remove_all (k ∷ ks) m h = All-remove_all ks (remove k m) (All-remove k m h)

  pub All-store_all : (new m : Items) → All P new → All P m → All P (store_all new m)
  All-store_all [] m n h = h
  All-store_all ((k, b) ∷ rest) m n h = All-store_all rest (store k b m) n.1 (n.0, All-remove k m h)
