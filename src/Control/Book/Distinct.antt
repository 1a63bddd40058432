-- ===== src/Control/Book/Distinct.antt =====
-- core/control/subscriptions.go: no two records of the map have one key or one link, and what changes of
-- the map keep of that.
use sora_client.Prelude.{
  suc, ◌≤◌, ◌≡◌, refl, sym, ap, ◌∙◌, subst, String, true, false, ◌&&◌, not, Bool-cases, Option,
  none, some, [], ◌∷◌, ◌⊎◌, inl, inr, arith, length, All, str_eq, str_eq_iff, or_left, or_right,
}
use mathlib.Core.Bool.{true≢false}
use sora_client.Plan.Names.{lookup}
use sora_client.Secret.Items.{differ_sym}
use sora_client.Control.Book.Record.{Record, Records, set, unset}
use sora_client.Control.Book.Save.{is_duplicate}

abbrev pub IsApart : String → Record → String × Record → Type 0
IsApart k r e = (str_eq k e.0 ≡ false) × (str_eq r.url e.1.url ≡ false)

abbrev pub IsDistinct : Records → Type 0
IsDistinct [] = Unit
IsDistinct ((k, r) ∷ rest) = All (IsApart k r) rest × IsDistinct rest

-- A record under the key would share its link with no other.
abbrev pub IsFree : String → String → String × Record → Type 0
IsFree k url e = (str_eq k e.0 ≡ true) ⊎ (str_eq url e.1.url ≡ false)

pub All-set :
    (P : String × Record → Type 0) (k : String) (r : Record) (m : Records)
    → P (k, r)
    → All P m
    → All P (set k r m)
All-set P k r [] p h = (p, tt)
All-set P k r ((j, s) ∷ rest) p h = elim (Bool-cases (str_eq k j)) [
  | inl e ↦ rw e (p, h.1)
  | inr e ↦ rw e (h.0, All-set P k r rest p h.1)
]

-- The key itself replaced, the rest is as far apart from it as from the record before.
All-replaced :
    (k j : String) (r s : Record) (m : Records)
    → str_eq k j ≡ true
    → All (IsApart j s) m
    → All (IsFree k r.url) m
    → All (IsApart k r) m
All-replaced k j r s [] e a f = tt
All-replaced k j r s ((i, t) ∷ rest) e a f = (
  (other, elim f.0 [ inl g ↦ absurd (true≢false (sym g ∙ other)) | inr g ↦ g ]),
  All-replaced k j r s rest e a.1 f.1,
)
  where
    other : str_eq k i ≡ false
    other = ap (λ x. str_eq x i) ((str_eq_iff k j).0 e) ∙ a.0.0

pub set-IsDistinct :
    (k : String) (r : Record) (m : Records)
    → IsDistinct m
    → All (IsFree k r.url) m
    → IsDistinct (set k r m)
set-IsDistinct k r [] d f = (tt, tt)
set-IsDistinct k r ((j, s) ∷ rest) d f = elim (Bool-cases (str_eq k j)) [
  | inl e ↦ rw e (All-replaced k j r s rest e d.0 f.1, d.1)
  | inr e ↦ rw e (
    All-set (IsApart j s) k r rest
        (
          differ_sym k j e,
          differ_sym r.url s.url (elim f.0 [ inl g ↦ absurd (true≢false (sym g ∙ e)) | inr g ↦ g ]),
        )
        d.0,
    set-IsDistinct k r rest d.1 f.1,
  )
]

abbrev url_of : Option Record → String
url_of none = ""
url_of (some r) = r.url

abbrev or_record : Record → Option Record → Record
or_record d none = d
or_record d (some g) = g

pub All-lookup :
    (P : String × Record → Type 0) (k : String) (m : Records) (r : Record)
    → All P m
    → lookup k m ≡ some r
    → P (k, r)
All-lookup P k [] r a h = absurd cc
All-lookup P k ((j, s) ∷ rest) r a h = elim (Bool-cases (str_eq k j)) [
  | inl e ↦ subst P (pair_eq (sym ((str_eq_iff k j).0 e)) (some_inj (rw e at h))) a.0
  | inr e ↦ All-lookup P k rest r a.1 (rw e at h)
]
  where
    some_inj : {g f : Record} → some g ≡ some f → g ≡ f
    some_inj e = ap (or_record r) e

    pair_eq :
        {i l : String} {g f : Record} → i ≡ l → g ≡ f → ◌≡◌ {A = String × Record} (i, g) (l, f)
    pair_eq p q = cc

All-IsFree :
    (k j : String) (s : Record) (url : String) (m : Records)
    → url ≡ s.url
    → All (IsApart j s) m
    → All (IsFree k url) m
All-IsFree k j s url [] e a = tt
All-IsFree k j s url (x ∷ rest) e a =
    (inr (ap (λ u. str_eq u x.1.url) e ∙ a.0.1), All-IsFree k j s url rest e a.1)

-- A record of the map shares its link with no other.
pub lookup-IsFree :
    (k : String) (m : Records) (r : Record)
    → IsDistinct m
    → lookup k m ≡ some r
    → All (IsFree k r.url) m
lookup-IsFree k [] r d h = tt
lookup-IsFree k ((j, s) ∷ rest) r d h = elim (Bool-cases (str_eq k j)) [
  | inl e ↦ (inl e, All-IsFree k j s r.url rest (sym (ap url_of (rw e at h))) d.0)
  | inr e ↦
      let later : lookup k rest ≡ some r = rw e at h in
      (
        inr (differ_sym s.url r.url (All-lookup (IsApart j s) k rest r d.0 later).1),
        lookup-IsFree k rest r d.1 later,
      )
]

pub All-unset :
    (P : String × Record → Type 0) (k : String) (m : Records) → All P m → All P (unset k m)
All-unset P k [] h = tt
All-unset P k ((j, s) ∷ rest) h = elim (Bool-cases (str_eq k j)) [
  | inl e ↦ rw e (All-unset P k rest h.1)
  | inr e ↦ rw e (h.0, All-unset P k rest h.1)
]

pub unset-IsDistinct : (k : String) (m : Records) → IsDistinct m → IsDistinct (unset k m)
unset-IsDistinct k [] d = tt
unset-IsDistinct k ((j, s) ∷ rest) d = elim (Bool-cases (str_eq k j)) [
  | inl e ↦ rw e (unset-IsDistinct k rest d.1)
  | inr e ↦ rw e (All-unset (IsApart j s) k rest d.0, unset-IsDistinct k rest d.1)
]

pub length-unset : (k : String) (m : Records) → length (unset k m) ≤ length m
length-unset k [] = omega arith
length-unset k ((j, s) ∷ rest) = ground (arith, length-unset k rest)

pub length-set : (k : String) (r : Record) (m : Records) → length (set k r m) ≤ suc (length m)
length-set k r [] = omega arith
length-set k r ((j, s) ∷ rest) = ground (arith, length-set k r rest)

pub length-set_found :
    (k : String) (r s : Record) (m : Records) → lookup k m ≡ some s → length (set k r m) ≤ length m
length-set_found k r s [] h = absurd cc
length-set_found k r s ((j, t) ∷ rest) h = elim (Bool-cases (str_eq k j)) [
  | inl e ↦ rw e (omega arith)
  | inr e ↦ let q = length-set_found k r s rest (rw e at h) in rw e (omega arith)
]

-- A link that passes the check for duplicates is free for the subscription.
pub not_duplicate-IsFree :
    (link id : String) (m : Records) → is_duplicate link id m ≡ false → All (IsFree id link) m
unfolding is_duplicate
not_duplicate-IsFree link id [] h = tt
not_duplicate-IsFree link id (e ∷ rest) h = (
  elim (Bool-cases (str_eq e.1.url link)) [
    | inl f ↦ elim (Bool-cases (str_eq id e.0)) [
      | inl g ↦ inl g
      | inr g ↦
          let first =
            or_left (str_eq e.1.url link && not (str_eq e.0 id)) (is_duplicate link id rest) h in
          absurd (true≢false (sym (rw (f, differ_sym id e.0 g) refl) ∙ first))
    ]
    | inr f ↦ inr (differ_sym e.1.url link f)
  ],
  not_duplicate-IsFree link id rest
      (or_right (str_eq e.1.url link && not (str_eq e.0 id)) (is_duplicate link id rest) h),
)
