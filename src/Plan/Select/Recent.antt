-- ===== src/Plan/Select/Recent.antt =====
-- core/engine/catalog.go: how recent a build must be, told apart from the code, and what an engine of the
-- catalog is.
use mathlib.Core.Bool.{true≢false}
use sora_client.Prelude.{
  ℕ, ◌<◌, ◌≤◌, ◌≡◌, ◌↔◌, refl, sym, ap, ◌∙◌, String, Bool, true, false, none, some, List, ◌⊎◌, inl,
  inr, arith, str_eq, str_eq_iff, Bool-cases,
}
use sora_client.Engine.Version.{Version, less}
use sora_client.Engine.Version.Parse.{parse_version}
use sora_client.Plan.Names.{lookup, str_eq_trans}
use sora_client.Plan.Model.{Kind}
use sora_client.Plan.Catalog.{Capabilities, catalog, mihomo, sing_box, xray, build_capabilities}
use sora_client.Plan.Select.{too_old, older_than}

-- A version that is no lower than three numbers.
abbrev pub AtLeast : Version → ℕ → ℕ → ℕ → Type 0
AtLeast v a b c =
    (a < v.major) ⊎ ((v.major ≡ a) × ((b < v.minor) ⊎ ((v.minor ≡ b) × (c ≤ v.patch))))

abbrev pub IsRecent : Kind → Version → Type 0
IsRecent k v =
    (str_eq k "mihomo" ≡ true → AtLeast v 1 19 0)
    × ((str_eq k "sing-box" ≡ true → AtLeast v 1 12 0)
        × (str_eq k "xray" ≡ true → AtLeast v 26 3 27))

pub less_iff : (v w : Version) → (less v w ≡ false) ↔ AtLeast v w.major w.minor w.patch
unfolding less
less_iff v w = (λ h. ground arith, λ h. ground arith)

-- The catalog has the three engines.
catalog_cases :
    (tun_routes : Bool) (k : Kind) (u : Capabilities)
    → lookup k (catalog tun_routes) ≡ some u
    → ((str_eq k "mihomo" ≡ true) × (u ≡ mihomo))
      ⊎ (((str_eq k "sing-box" ≡ true) × (u ≡ sing_box))
          ⊎ ((str_eq k "xray" ≡ true) × (u ≡ xray tun_routes)))
unfolding catalog
catalog_cases tun_routes k u h = elim (Bool-cases (str_eq k "mihomo")) [
  | inl e ↦ inl (e, sym (same (rw e at h)))
  | inr e ↦ elim (Bool-cases (str_eq k "sing-box")) [
    | inl f ↦ inr (inl (f, sym (same (rw (e, f) at h))))
    | inr f ↦ elim (Bool-cases (str_eq k "xray")) [
      | inl g ↦ inr (inr (g, sym (same (rw (e, f, g) at h))))
      | inr g ↦ absurd (no (rw (e, f, g) at h))
    ]
  ]
]
  where
    same : {a b : Capabilities} → some a ≡ some b → a ≡ b
    same e = ground arith

    no : {b : Capabilities} → none ≡ some b → ⊥
    no e = cc

pub build-keeps :
    (u : Capabilities) (v : Version) (tags : List String)
    → ((build_capabilities u v tags).min_version ≡ u.min_version)
      × (((build_capabilities u v tags).kind ≡ u.kind)
          × ((build_capabilities u v tags).protocols ≡ u.protocols))
unfolding build_capabilities
build-keeps u v tags = ground arith

lowest_iff :
    (u : Capabilities) (v w : Version) (tags : List String)
    → parse_version u.min_version ≡ some w
    → (too_old (build_capabilities u v tags) v ≡ false) ↔ AtLeast v w.major w.minor w.patch
unfolding too_old older_than
lowest_iff u v w tags e = rw ((build-keeps u v tags).0, e) (less_iff v w)

numbers : String → ℕ → ℕ → ℕ → Version
numbers raw a b c = record { raw = raw; major = a; minor = b; patch = c; pre_release = "" }

mihomo_lowest : parse_version mihomo.min_version ≡ some (numbers "1.19.0" 1 19 0)
unfolding numbers mihomo parse_version sora_client.Engine.Version.Parse.parse_trimmed
    sora_client.Errs.Line.trim_space sora_client.Engine.Version.Parse.trim_prefix_v
    sora_client.Engine.Version.Parse.of_parts sora_client.Engine.Version.Parse.split_dots
    sora_client.Engine.Version.Parse.cut_sign sora_client.Engine.Version.Parse.onto_first
    sora_client.Engine.Version.Parse.of_numbers sora_client.Engine.Version.Decimal.atoi
    sora_client.Engine.Version.Decimal.in_range sora_client.Engine.Version.Decimal.decimal
mihomo_lowest = refl

sing_box_lowest : parse_version sing_box.min_version ≡ some (numbers "1.12.0" 1 12 0)
unfolding numbers sing_box parse_version sora_client.Engine.Version.Parse.parse_trimmed
    sora_client.Errs.Line.trim_space sora_client.Engine.Version.Parse.trim_prefix_v
    sora_client.Engine.Version.Parse.of_parts sora_client.Engine.Version.Parse.split_dots
    sora_client.Engine.Version.Parse.cut_sign sora_client.Engine.Version.Parse.onto_first
    sora_client.Engine.Version.Parse.of_numbers sora_client.Engine.Version.Decimal.atoi
    sora_client.Engine.Version.Decimal.in_range sora_client.Engine.Version.Decimal.decimal
sing_box_lowest = refl

xray_lowest : (t : Bool) → parse_version (xray t).min_version ≡ some (numbers "26.3.27" 26 3 27)
unfolding numbers xray parse_version sora_client.Engine.Version.Parse.parse_trimmed
    sora_client.Errs.Line.trim_space sora_client.Engine.Version.Parse.trim_prefix_v
    sora_client.Engine.Version.Parse.of_parts sora_client.Engine.Version.Parse.split_dots
    sora_client.Engine.Version.Parse.cut_sign sora_client.Engine.Version.Parse.onto_first
    sora_client.Engine.Version.Parse.of_numbers sora_client.Engine.Version.Decimal.atoi
    sora_client.Engine.Version.Decimal.in_range sora_client.Engine.Version.Decimal.decimal
xray_lowest t = refl

-- A kind is no other one.
pub other_kind : (k j l : Kind) → str_eq j l ≡ false → str_eq k j ≡ true → str_eq k l ≡ false
other_kind k j l n e = str_eq_trans k j l e ∙ n

none_of : {P : Type 0} {b : Bool} → b ≡ false → b ≡ true → P
none_of f t = absurd (true≢false (sym t ∙ f))

pub too_old-IsRecent :
    (tun_routes : Bool) (k : Kind) (u : Capabilities) (v : Version) (tags : List String)
    → lookup k (catalog tun_routes) ≡ some u
    → (too_old (build_capabilities u v tags) v ≡ false) ↔ IsRecent k v
unfolding numbers
too_old-IsRecent tun_routes k u v tags h = go (catalog_cases tun_routes k u h)
  where
    go :
        ((str_eq k "mihomo" ≡ true) × (u ≡ mihomo))
          ⊎ (((str_eq k "sing-box" ≡ true) × (u ≡ sing_box))
              ⊎ ((str_eq k "xray" ≡ true) × (u ≡ xray tun_routes)))
        → (too_old (build_capabilities u v tags) v ≡ false) ↔ IsRecent k v
    go (inl (e, q)) =
        let i = lowest_iff u v (numbers "1.19.0" 1 19 0) tags (rw q mihomo_lowest) in
        (
          λ t. (
            (λ _. i.0 t),
            (
              (λ f. none_of (other_kind k "mihomo" "sing-box" refl e) f),
              (λ f. none_of (other_kind k "mihomo" "xray" refl e) f),
            ),
          ),
          λ r. i.1 (r.0 e),
        )
    go (inr (inl (e, q))) =
        let i = lowest_iff u v (numbers "1.12.0" 1 12 0) tags (rw q sing_box_lowest) in
        (
          λ t. (
            (λ f. none_of (other_kind k "sing-box" "mihomo" refl e) f),
            ((λ _. i.0 t), (λ f. none_of (other_kind k "sing-box" "xray" refl e) f)),
          ),
          λ r. i.1 (r.1.0 e),
        )
    go (inr (inr (e, q))) =
        let i = lowest_iff u v (numbers "26.3.27" 26 3 27) tags (rw q (xray_lowest tun_routes)) in
        (
          λ t. (
            (λ f. none_of (other_kind k "xray" "mihomo" refl e) f),
            ((λ f. none_of (other_kind k "xray" "sing-box" refl e) f), (λ _. i.0 t)),
          ),
          λ r. i.1 (r.1.1 e),
        )

pub kind_of :
    (tun_routes : Bool) (k : Kind) (u : Capabilities)
    → lookup k (catalog tun_routes) ≡ some u
    → u.kind ≡ k
unfolding mihomo sing_box xray
kind_of tun_routes k u h = elim (catalog_cases tun_routes k u h) [
  | inl (e, q) ↦ ap (λ c. c.kind) q ∙ sym ((str_eq_iff k "mihomo").0 e)
  | inr (inl (e, q)) ↦ ap (λ c. c.kind) q ∙ sym ((str_eq_iff k "sing-box").0 e)
  | inr (inr (e, q)) ↦ ap (λ c. c.kind) q ∙ sym ((str_eq_iff k "xray").0 e)
]
