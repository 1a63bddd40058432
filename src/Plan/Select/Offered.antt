-- ===== src/Plan/Select/Offered.antt =====
-- core/engine/catalog.go: the features that a build offers, told apart from the code.
use mathlib.Core.Bool.{true≢false}
use text.Mathlib.Text.{starts_with}
use sora_client.Prelude.{
  ◌≡◌, ◌↔◌, refl, sym, ap, ◌∙◌, String, Bool, true, false, ◌&&◌, ◌||◌, not, List, [], ◌∷◌, inl, inr,
  arith, str_eq, str_eq_iff, Bool-cases,
}
use sora_client.Engine.Version.{Version}
use sora_client.Plan.Names.{mem, str_eq_trans}
use sora_client.Plan.Model.{Kind}
use sora_client.Plan.Needs.{Feature}
use sora_client.Plan.Catalog.{Capabilities, build_capabilities, is_downstream, set_key, remove_key}
use sora_client.Plan.Select.Recent.{AtLeast, less_iff, other_kind}

-- A build of sing-box that adds transports of its own.
abbrev pub IsDownstream : Kind → Version → Type 0
IsDownstream k v =
    (str_eq k "sing-box" ≡ true) × ((starts_with v.pre_release "lx." ≡ true) × AtLeast v 1 14 3)

-- What a build offers: what the catalog lists, except that on such a build two features stand and fall
-- with its tags, and VLESS encryption is always there.
pub data Offers (u : Capabilities) (v : Version) (tags : List String) (f : Feature) : Type 0 where
  as_listed :
      mem f u.features ≡ true
      → (IsDownstream u.kind v → (str_eq f "xhttp" ≡ false) × (str_eq f "amneziawg" ≡ false))
      → Offers u v tags f
  with_xhttp :
      IsDownstream u.kind v
      → str_eq f "xhttp" ≡ true
      → mem "with_xhttp" tags ≡ true
      → Offers u v tags f
  with_awg :
      IsDownstream u.kind v
      → str_eq f "amneziawg" ≡ true
      → mem "with_awg" tags ≡ true
      → Offers u v tags f
  encrypted : IsDownstream u.kind v → str_eq f "vless-encryption" ≡ true → Offers u v tags f

is_downstream-IsDownstream :
    (k : Kind) (v : Version) → (is_downstream k v ≡ true) ↔ IsDownstream k v
unfolding is_downstream
is_downstream-IsDownstream k v =
    let i = less_iff v (record { raw = ""; major = 1; minor = 14; patch = 3; pre_release = "" }) in
    (
      λ h. (ground arith, (ground arith, i.0 (ground arith))),
      λ h. let b = i.1 h.1.1 in let a = h.0 in let c = h.1.0 in ground arith,
    )

str_eq_both : (f x y : String) → str_eq x y ≡ true → str_eq f x ≡ str_eq f y
str_eq_both f x y h = ap (λ w. str_eq f w) ((str_eq_iff x y).0 h)

str_eq_sym : (x y : String) → str_eq x y ≡ false → str_eq y x ≡ false
str_eq_sym x y h = elim (Bool-cases (str_eq y x)) [
  | inl e ↦ absurd (true≢false (sym ((str_eq_iff x y).1 (sym ((str_eq_iff y x).0 e))) ∙ h))
  | inr e ↦ e
]

mem-remove_key :
    (f x : String) (xs : List String) → mem f (remove_key x xs) ≡ (not (str_eq f x) && mem f xs)
unfolding remove_key
mem-remove_key f x [] = sym (none_kept (not (str_eq f x)))
  where
    none_kept : (b : Bool) → (b && false) ≡ false
    none_kept true = refl
    none_kept false = refl
mem-remove_key f x (y ∷ ys) = elim (Bool-cases (str_eq x y)) [
  | inl e ↦
      rw (e, mem-remove_key f x ys, sym (str_eq_both f x y e)) (dropped (str_eq f x) (mem f ys))
  | inr e ↦
      rw (e, mem-remove_key f x ys)
        (elim (Bool-cases (str_eq f y)) [
          | inl g ↦ let n = str_eq_trans f y x g in let m = str_eq_sym x y e in ground arith
          | inr g ↦ rw g refl
        ])
]
  where
    dropped : (b m : Bool) → (not b && m) ≡ (not b && (b || m))
    dropped true m = refl
    dropped false m = refl

mem-set_key :
    (f x : String) (b : Bool) (xs : List String)
    → mem f (set_key x b xs) ≡ ((str_eq f x && b) || (not (str_eq f x) && mem f xs))
unfolding set_key
mem-set_key f x true xs = ground arith
mem-set_key f x false xs = mem-remove_key f x xs ∙ ground arith

pub build_capabilities-Offers :
    (u : Capabilities) (v : Version) (tags : List String) (f : Feature)
    → (mem f (build_capabilities u v tags).features ≡ true) ↔ Offers u v tags f
unfolding build_capabilities
build_capabilities-Offers u v tags f = elim (Bool-cases (is_downstream u.kind v)) [
  | inl d ↦ rw (d, mem-set_key, mem-set_key, mem-set_key) (marked d)
  | inr d ↦ rw d (plain d)
]
  where
    from_unmarked : is_downstream u.kind v ≡ false → IsDownstream u.kind v → ⊥
    from_unmarked d i = true≢false (sym ((is_downstream-IsDownstream u.kind v).1 i) ∙ d)

    plain : is_downstream u.kind v ≡ false → (mem f u.features ≡ true) ↔ Offers u v tags f
    plain d = (
      λ h. Offers.as_listed h (λ i. absurd (from_unmarked d i)),
      λ o. elim o [
        | as_listed h q ↦ h
        | with_xhttp i e t ↦ absurd (from_unmarked d i)
        | with_awg i e t ↦ absurd (from_unmarked d i)
        | encrypted i e ↦ absurd (from_unmarked d i)
      ],
    )

    marked :
        is_downstream u.kind v ≡ true
        → (((str_eq f "amneziawg" && mem "with_awg" tags)
              || (not (str_eq f "amneziawg")
                  && ((str_eq f "vless-encryption" && true)
                      || (not (str_eq f "vless-encryption")
                          && ((str_eq f "xhttp" && mem "with_xhttp" tags)
                              || (not (str_eq f "xhttp") && mem f u.features))))))
            ≡ true)
          ↔ Offers u v tags f
    marked d =
        let i = (is_downstream-IsDownstream u.kind v).0 d in
        (
          λ h. elim (Bool-cases (str_eq f "amneziawg")) [
            | inl e ↦ Offers.with_awg i e (ground arith)
            | inr a ↦ elim (Bool-cases (str_eq f "vless-encryption")) [
              | inl e ↦ Offers.encrypted i e
              | inr e ↦ elim (Bool-cases (str_eq f "xhttp")) [
                | inl x ↦ Offers.with_xhttp i x (ground arith)
                | inr x ↦ Offers.as_listed (ground arith) (λ _. (x, a))
              ]
            ]
          ],
          λ o. elim o [
            | as_listed h q ↦ let (x, a) = q i in ground arith
            | with_xhttp _ e t ↦
                let a = other_kind f "xhttp" "amneziawg" refl e in
                let b = other_kind f "xhttp" "vless-encryption" refl e in ground arith
            | with_awg _ e t ↦ ground arith
            | encrypted _ e ↦
                let a = other_kind f "vless-encryption" "amneziawg" refl e in ground arith
          ],
        )
