-- ===== src/Routing/Presets.antt =====
-- core/routing/presets.go: the presets and `Apply`.
use sora_client.Prelude.{
  String, Bool, true, false, ◌&&◌, not, Option, none, some, List, [], ◌∷◌, ◌++◌, ◌⊎◌, inl, inr, any,
  str_eq, if◌then◌else◌,
}
use sora_client.Plan.Model.{Rule}

abbrev pub geoip : String → Rule
geoip cc = record { rule_type = "geoip"; value = cc; target = "direct"; no_resolve = true }

abbrev pub geosite : String → Rule
geosite tag = record { rule_type = "geosite"; value = tag; target = "direct"; no_resolve = false }

abbrev pub ads_rule : Rule
ads_rule = record {
  rule_type = "geosite";
  value = "category-ads-all";
  target = "reject";
  no_resolve = false;
}

abbrev pub all_to : String → Rule
all_to proxy = record { rule_type = "all"; value = ""; target = proxy; no_resolve = false }

abbrev pub global : List Rule
global = geoip "private" ∷ []

abbrev pub ru : List Rule
ru =
    geoip "private"
    ∷ geosite "category-gov-ru"
    ∷ geosite "category-bank-ru"
    ∷ geosite "category-ru"
    ∷ geosite "tld-ru"
    ∷ geosite "yandex"
    ∷ geosite "vk"
    ∷ geosite "mailru"
    ∷ geoip "ru"
    ∷ []

abbrev pub ir : List Rule
ir = geoip "private" ∷ geosite "category-ir" ∷ geoip "ir" ∷ []

abbrev pub cn : List Rule
cn = geoip "private" ∷ geosite "cn" ∷ geoip "cn" ∷ []

-- The direct rules of the preset with the identifier.
unfoldable pub preset : String → Option (List Rule)
preset id =
    if str_eq id "global"
    then some global
    else if str_eq id "ru"
    then some ru
    else if str_eq id "ir"
    then some ir
    else if str_eq id "cn"
    then some cn
    else none

pub record Options : Type 0 where
  pub preset_id : String
  pub proxy_target : String
  pub block_ads : Bool

pub data RoutingError : Type 0 where
  no_proxy_target : RoutingError
  unknown_preset : String → RoutingError

abbrev pub is_all : Rule → Bool
is_all r = str_eq r.rule_type "all"

unfoldable pub ads : Bool → List Rule
ads b = if b then ads_rule ∷ [] else []

unfoldable pub finish : List Rule → String → String → Option (List Rule) → RoutingError ⊎ List Rule
finish out proxy id none = inl (unknown_preset id)
finish out proxy id (some direct) = inr ((out ++ direct) ++ all_to proxy ∷ [])

unfoldable pub apply_preset : List Rule → Options → RoutingError ⊎ List Rule
apply_preset out o =
    finish out o.proxy_target o.preset_id
      (if str_eq o.preset_id "" then some [] else preset o.preset_id)

-- `Apply`
unfoldable pub apply : List Rule → Options → RoutingError ⊎ List Rule
apply user o =
    if any is_all user
    then inr user
    else if str_eq o.preset_id "" && (not o.block_ads && str_eq o.proxy_target "")
    then inr user
    else if str_eq o.proxy_target ""
    then inl no_proxy_target
    else apply_preset (user ++ ads o.block_ads) o
