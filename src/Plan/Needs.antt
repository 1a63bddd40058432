-- ===== src/Plan/Needs.antt =====
-- core/engine/refs.go: the lookup of an outbound, and the protocols and features that a plan asks of
-- an engine. `core/engine/engine.go` names the features.
use sora_client.Prelude.{
  ◌≡◌, refl, String, Bool, true, false, ◌||◌, ◌&&◌, not, Option, none, some, List, [], ◌∷◌, arith,
  if◌then◌else◌, str_eq, any, Bool-cases, inl, inr,
}
use sora_client.Plan.Names.{mem, mem_absorb, str_eq_trans}
use sora_client.Plan.Model.{Plan, Outbound, Group, Rule, Protocol}

-- `type Feature string`
abbrev pub Feature : Type 0
Feature = String

-- `OutboundByID`
unfoldable pub outbound_by_id : List Outbound → String → Option Outbound
outbound_by_id [] id = none
outbound_by_id (o ∷ os) id =
    let later = outbound_by_id os id in if str_eq o.id id then some o else later

-- A set filled by a loop over a list: `out[x] = true` keeps one entry for each key.
unfoldable pub insert_key : String → List String → List String
insert_key x xs = if mem x xs then xs else x ∷ xs

-- `Protocols`
unfoldable pub protocols : List Outbound → List Protocol
protocols [] = []
protocols (o ∷ os) = insert_key o.protocol (protocols os)

-- `if c { out[f] = true }`
unfoldable pub require : Bool → Feature → List Feature → List Feature
require c f out = if c then insert_key f out else out

unfoldable pub is_some {ℓ} : {A : Type ℓ} → Option A → Bool
is_some none = false
is_some (some a) = true

unfoldable pub is_empty {ℓ} : {A : Type ℓ} → List A → Bool
is_empty [] = true
is_empty (x ∷ xs) = false

unfoldable pub rule_features : List Rule → List Feature → List Feature
rule_features [] out = out
rule_features (r ∷ rs) out =
    rule_features rs (require (str_eq r.rule_type "rule-set") "rule-sets" out)

-- The `switch` on the type of a group.
unfoldable pub type_features : Group → List Feature → List Feature
type_features g out =
    if str_eq g.group_type "url-test"
    then insert_key "url-test" out
    else if str_eq g.group_type "fallback"
    then insert_key "fallback-group" out
    else if str_eq g.group_type "load-balance"
    then insert_key "load-balance" out
    else out

unfoldable pub group_features : List Group → List Feature → List Feature
group_features [] out = out
group_features (g ∷ gs) out =
    group_features gs (type_features g (require (not (str_eq g.provider "")) "proxy-providers" out))

unfoldable pub outbound_features : List Outbound → List Feature → List Feature
outbound_features [] out = out
outbound_features (o ∷ os) out = outbound_features os (
    require (is_some o.amnezia) "amneziawg" (
      require (not (str_eq o.encryption "") && not (str_eq o.encryption "none")) "vless-encryption"
        (require (str_eq o.transport.transport_type "xhttp") "xhttp" out)))

-- `RequiredFeatures`
unfoldable pub required_features : Plan → List Feature
required_features p =
    let start = require (str_eq p.dns.mode "fakeip") "fake-ip" (require p.tun.enabled "tun" []) in
    let listed =
      outbound_features p.outbounds (group_features p.groups (rule_features p.rules start)) in
    require (not (is_empty p.tun.include_apps) || not (is_empty p.tun.exclude_apps))
      "per-app-routing"
      (require p.private_control "private-control"
        (require p.options.fragment.enabled "tls-fragment" listed))

-- What a plan needs, one feature at a time and with no order among them.
abbrev pub group_needs : Feature → Group → Bool
group_needs f g =
    (str_eq f "proxy-providers" && not (str_eq g.provider ""))
    || (str_eq f "url-test" && str_eq g.group_type "url-test")
    || (str_eq f "fallback-group" && str_eq g.group_type "fallback")
    || (str_eq f "load-balance" && str_eq g.group_type "load-balance")

abbrev pub outbound_needs : Feature → Outbound → Bool
outbound_needs f o =
    (str_eq f "amneziawg" && is_some o.amnezia)
    || (str_eq f "vless-encryption"
        && (not (str_eq o.encryption "") && not (str_eq o.encryption "none")))
    || (str_eq f "xhttp" && str_eq o.transport.transport_type "xhttp")

abbrev pub plan_needs : Plan → Feature → Bool
plan_needs p f =
    (str_eq f "per-app-routing"
      && (not (is_empty p.tun.include_apps) || not (is_empty p.tun.exclude_apps)))
    || ((str_eq f "private-control" && p.private_control)
        || ((str_eq f "tls-fragment" && p.options.fragment.enabled)
            || (any (outbound_needs f) p.outbounds
                || (any (group_needs f) p.groups
                    || ((str_eq f "rule-sets" && any (λ r. str_eq r.rule_type "rule-set") p.rules)
                        || ((str_eq f "fake-ip" && str_eq p.dns.mode "fakeip")
                            || (str_eq f "tun" && p.tun.enabled)))))))

or_false : (b : Bool) → (b || false) ≡ b
or_false true = refl
or_false false = refl

pub mem-insert_key :
    (f x : String) (xs : List String) → mem f (insert_key x xs) ≡ (str_eq f x || mem f xs)
unfolding insert_key
mem-insert_key f x xs = elim (Bool-cases (mem x xs)) [
  | inl e ↦ rw e (mem_absorb f x xs e)
  | inr e ↦ rw e
]

mem-require :
    (f x : String) (c : Bool) (xs : List String)
    → mem f (require c x xs) ≡ ((str_eq f x && c) || mem f xs)
unfolding require
mem-require f x true xs = ground (arith, mem-insert_key f x xs)
mem-require f x false xs = ground arith

mem-rule_features :
    (f : Feature) (rs : List Rule) (out : List Feature)
    → mem f (rule_features rs out)
      ≡ ((str_eq f "rule-sets" && any (λ r. str_eq r.rule_type "rule-set") rs) || mem f out)
unfolding rule_features
mem-rule_features f [] out = ground arith
mem-rule_features f (r ∷ rs) out =
    let c = str_eq r.rule_type "rule-set" in
    ground
      (arith, mem-rule_features f rs (require c "rule-sets" out), mem-require f "rule-sets" c out)

mem-type_features :
    (f : Feature) (g : Group) (out : List Feature)
    → mem f (type_features g out) ≡ (
        (str_eq f "url-test" && str_eq g.group_type "url-test")
        || (str_eq f "fallback-group" && str_eq g.group_type "fallback")
        || (str_eq f "load-balance" && str_eq g.group_type "load-balance")
        || mem f out)
unfolding type_features require
mem-type_features f g out = elim (Bool-cases (str_eq t "url-test")) [
  | inl e ↦
      rw (e, str_eq_trans t "url-test" "fallback" e, str_eq_trans t "url-test" "load-balance" e)
        (ground (arith, mem-insert_key f "url-test" out))
  | inr e ↦ elim (Bool-cases (str_eq t "fallback")) [
    | inl k ↦
        rw (e, k, str_eq_trans t "fallback" "load-balance" k)
          (ground (arith, mem-insert_key f "fallback-group" out))
    | inr k ↦ rw (e, k) (ground (arith, mem-require f "load-balance" (str_eq t "load-balance") out))
  ]
]
  where
    t : String
    t = g.group_type

mem-group_features :
    (f : Feature) (gs : List Group) (out : List Feature)
    → mem f (group_features gs out) ≡ (any (group_needs f) gs || mem f out)
unfolding group_features
mem-group_features f [] out = refl
mem-group_features f (g ∷ gs) out =
    let first = require (not (str_eq g.provider "")) "proxy-providers" out in
    ground (
      arith,
      mem-group_features f gs (type_features g first),
      mem-type_features f g first,
      mem-require f "proxy-providers" (not (str_eq g.provider "")) out,
    )

mem-outbound_features :
    (f : Feature) (os : List Outbound) (out : List Feature)
    → mem f (outbound_features os out) ≡ (any (outbound_needs f) os || mem f out)
unfolding outbound_features
mem-outbound_features f [] out = refl
mem-outbound_features f (o ∷ os) out =
    let a = str_eq o.transport.transport_type "xhttp" in
    let b = not (str_eq o.encryption "") && not (str_eq o.encryption "none") in
    let c = is_some o.amnezia in
    let first = require a "xhttp" out in
    let second = require b "vless-encryption" first in
    ground (
      arith,
      mem-outbound_features f os (require c "amneziawg" second),
      mem-require f "amneziawg" c second,
      mem-require f "vless-encryption" b first,
      mem-require f "xhttp" a out,
    )

-- `RequiredFeatures` collects exactly the features that some part of the plan needs: a feature is in
-- its set if and only if the TUN device, the DNS mode, a rule, a group, an outbound, the fragmentation,
-- the private control or the list of applications asks for it.
pub mem-required_features : (p : Plan) (f : Feature) → mem f (required_features p) ≡ plan_needs p f
unfolding required_features
mem-required_features p f = rw (
  mem-require,
  mem-require,
  mem-require,
  mem-outbound_features,
  mem-group_features,
  mem-rule_features,
  mem-require,
  mem-require,
  or_false (str_eq f "tun" && p.tun.enabled),
)
