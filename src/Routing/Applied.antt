-- ===== src/Routing/Applied.antt =====
-- core/routing/presets.go: what `Apply` makes of the user's rules.
use sora_client.Prelude.{
  Bool-cases, ◌≡◌, refl, ap, ◌∙◌, String, Bool, true, false, ◌&&◌, not, Option, none, some, List,
  [], ◌∷◌, ◌++◌, ◌⊎◌, inl, inr, any, All, append_assoc, str_eq, if◌then◌else◌, if-cases, if-both,
}
use sora_client.Plan.Model.{Rule}
use sora_client.Routing.Presets.{
  ads_rule, Options, RoutingError, all_to, global, ru, ir, cn, preset, is_all, ads, finish,
  apply_preset, apply, no_proxy_target,
}

-- A rule that sends some destinations past the proxy.
abbrev pub IsDirect : Rule → Type 0
IsDirect r = (is_all r ≡ false) × (r.target ≡ "direct")

-- What the options ask of the presets: none, an unknown one, or the rules of a known one.
abbrev pub PresetOf : Options → Option (List Rule) → Type 0
PresetOf o none = (str_eq o.preset_id "" ≡ false) × (preset o.preset_id ≡ none)
PresetOf o (some direct) =
    ((str_eq o.preset_id "" ≡ true) × (direct ≡ []))
    ⊎ ((str_eq o.preset_id "" ≡ false) × (preset o.preset_id ≡ some direct))

-- The user's rules, the rule against advertising if it is asked for, the rules of the preset, none of
-- which sends to the proxy, and the only catch-all, which does.
abbrev pub Falls : List Rule → Options → List Rule → Type 0
Falls user o rules =
    (direct : List Rule) × (PresetOf o (some direct)
      × ((rules
            ≡ user
              ++ (((if o.block_ads then ads_rule ∷ [] else []) ++ direct)
                  ++ all_to o.proxy_target ∷ []))
          × (All IsDirect direct × (any is_all user ≡ false))))

abbrev pub asks_nothing : Options → Bool
asks_nothing o = str_eq o.preset_id "" && (not o.block_ads && str_eq o.proxy_target "")

unfoldable pub IsRouted : List Rule → Options → RoutingError ⊎ List Rule → Type 0
IsRouted user o (inr rules) =
    ((rules ≡ user) × ((any is_all user ≡ true) ⊎ (asks_nothing o ≡ true)))
    ⊎ ((str_eq o.proxy_target "" ≡ false) × Falls user o rules)
IsRouted user o (inl e) =
    ((any is_all user ≡ false) × (asks_nothing o ≡ false))
    × ((str_eq o.proxy_target "" ≡ true) ⊎ PresetOf o none)

PresetDirect : Option (List Rule) → Type 0
PresetDirect none = Unit
PresetDirect (some rules) = All IsDirect rules

preset-IsDirect : (id : String) → PresetDirect (preset id)
unfolding preset PresetDirect
preset-IsDirect id =
    if-both PresetDirect (str_eq id "global") (some global) past_global ((refl, refl), tt)
      (if-both PresetDirect (str_eq id "ru") (some ru) past_ru
        (
          (refl, refl),
          (
            (refl, refl),
            (
              (refl, refl),
              (
                (refl, refl),
                ((refl, refl), ((refl, refl), ((refl, refl), ((refl, refl), ((refl, refl), tt))))),
              ),
            ),
          ),
        )
        (if-both PresetDirect (str_eq id "ir") (some ir) past_ir
          ((refl, refl), ((refl, refl), ((refl, refl), tt)))
          (if-both PresetDirect (str_eq id "cn") (some cn) none
            ((refl, refl), ((refl, refl), ((refl, refl), tt))) tt)))
  where
    past_ir : Option (List Rule)
    past_ir = if str_eq id "cn" then some cn else none

    past_ru : Option (List Rule)
    past_ru = if str_eq id "ir" then some ir else past_ir

    past_global : Option (List Rule)
    past_global = if str_eq id "ru" then some ru else past_ru

-- A preset that is empty, unknown or known.
finish-IsRouted :
    (user : List Rule) (o : Options) (p : Option (List Rule))
    → any is_all user ≡ false
    → asks_nothing o ≡ false
    → str_eq o.proxy_target "" ≡ false
    → PresetDirect p
    → PresetOf o p
    → IsRouted user o (finish (user ++ ads o.block_ads) o.proxy_target o.preset_id p)
unfolding finish IsRouted PresetDirect ads
finish-IsRouted user o none h n t d k = ((h, n), inr k)
finish-IsRouted user o (some direct) h n t d k = inr (
  t,
  (
    direct,
    (
      k,
      (
        ap (λ l. l ++ all_to o.proxy_target ∷ []) (append_assoc user (ads o.block_ads) direct)
            ∙ append_assoc user (ads o.block_ads ++ direct) (all_to o.proxy_target ∷ []),
        (d, h),
      ),
    ),
  ),
)

apply_preset-IsRouted :
    (user : List Rule) (o : Options)
    → any is_all user ≡ false
    → asks_nothing o ≡ false
    → str_eq o.proxy_target "" ≡ false
    → IsRouted user o (apply_preset (user ++ ads o.block_ads) o)
unfolding apply_preset PresetDirect
apply_preset-IsRouted user o h n t =
    finish-IsRouted user o (if str_eq o.preset_id "" then some [] else preset o.preset_id) h n t
      (if-both PresetDirect (str_eq o.preset_id "") (some []) (preset o.preset_id) tt
        (preset-IsDirect o.preset_id))
      (elim (Bool-cases (str_eq o.preset_id "")) [
        | inl e ↦ rw e (inl (e, refl))
        | inr e ↦ rw e (known (preset o.preset_id) e refl)
      ])
  where
    known :
        (q : Option (List Rule))
        → str_eq o.preset_id "" ≡ false
        → preset o.preset_id ≡ q
        → PresetOf o q
    known none e f = (e, f)
    known (some direct) e f = inr (e, f)

-- `Apply` returns the user's rules if they hold a catch-all or nothing is asked for.
-- Otherwise it fails only because there is no target or the preset is unknown, or returns the user's
-- rules, the rule against advertising if it is asked for, the rules of the preset, which send some
-- destinations directly, and a catch-all to the proxy, the only one of the list.
pub apply-IsRouted : (user : List Rule) (o : Options) → IsRouted user o (apply user o)
unfolding apply IsRouted
apply-IsRouted user o =
    if-cases (IsRouted user o) (any is_all user) (inr user) asked (λ e. inl (refl, inl e))
      (λ e.
        if-cases (IsRouted user o) (asks_nothing o) (inr user) targeted (λ f. inl (refl, inr f))
          (λ n.
            if-cases (IsRouted user o) (str_eq o.proxy_target "") (inl no_proxy_target)
              (apply_preset (user ++ ads o.block_ads) o) (λ t. ((e, n), inl t))
              (λ t. apply_preset-IsRouted user o e n t)))
  where
    targeted : RoutingError ⊎ List Rule
    targeted =
        if str_eq o.proxy_target ""
        then inl no_proxy_target
        else apply_preset (user ++ ads o.block_ads) o

    asked : RoutingError ⊎ List Rule
    asked = if asks_nothing o then inr user else targeted
