-- ===== src/Plan/Catalog.antt =====
-- core/engine/catalog.go: what each engine can carry, with the builds of sing-box that can more, and
-- what a plan asks in vain. `tun_routes` says whether core/engine/catalog_linux.go is compiled in.
use Prim.Native.String.{compare}
use sora_client.Prelude.{
  zero, suc, String, Bool, true, false, ◌||◌, ◌&&◌, not, none, some, List, [], ◌∷◌, ◌++◌,
  if◌then◌else◌, str_eq, any,
}
use text.Mathlib.Text.{is_le, starts_with}
use sora_client.Errs.Line.{cat}
use sora_client.Engine.Version.{Version, less}
use sora_client.Plan.Names.{mem}
use sora_client.Plan.Model.{ℤ, Plan, Outbound, Protocol, Kind, AmneziaWg, Tun}
use sora_client.Plan.Needs.{Feature, protocols, required_features}

-- The two maps hold only true values: each is the set of its keys.
pub record Capabilities : Type 0 where
  pub kind : Kind
  pub min_version : String
  pub protocols : List Protocol
  pub features : List Feature

unfoldable pub mihomo : Capabilities
mihomo = record {
  kind = "mihomo";
  min_version = "1.19.0";
  protocols =
      "vless" ∷ "vmess" ∷ "trojan" ∷ "shadowsocks" ∷ "hysteria2" ∷ "tuic" ∷ "wireguard" ∷ "socks5"
      ∷ "http" ∷ "direct" ∷ [];
  features =
      "tun" ∷ "fake-ip" ∷ "rule-sets" ∷ "proxy-providers" ∷ "url-test" ∷ "latency-test"
      ∷ "hot-apply" ∷ "geodata" ∷ "fallback-group" ∷ "load-balance" ∷ "xhttp" ∷ "vless-encryption"
      ∷ "amneziawg" ∷ "private-control" ∷ [];
}

unfoldable pub sing_box : Capabilities
sing_box = record {
  kind = "sing-box";
  min_version = "1.12.0";
  protocols =
      "vless" ∷ "vmess" ∷ "trojan" ∷ "shadowsocks" ∷ "hysteria2" ∷ "tuic" ∷ "wireguard" ∷ "socks5"
      ∷ "http" ∷ "anytls" ∷ "direct" ∷ [];
  features =
      "tun" ∷ "fake-ip" ∷ "rule-sets" ∷ "url-test" ∷ "latency-test" ∷ "geodata" ∷ "per-app-routing"
      ∷ "tls-fragment" ∷ [];
}

unfoldable pub xray : Bool → Capabilities
xray tun_routes = record {
  kind = "xray";
  min_version = "26.3.27";
  protocols =
      "vless" ∷ "vmess" ∷ "trojan" ∷ "shadowsocks" ∷ "hysteria2" ∷ "wireguard" ∷ "socks5" ∷ "http"
      ∷ "direct" ∷ "xray-profile" ∷ [];
  features =
      let upstream =
        "url-test" ∷ "load-balance" ∷ "latency-test" ∷ "geodata" ∷ "tls-fragment" ∷ "xhttp"
        ∷ "vless-encryption" ∷ "private-control" ∷ [] in
      if tun_routes then "tun" ∷ upstream else upstream;
}

-- `Catalog`
unfoldable pub catalog : Bool → List (Kind × Capabilities)
catalog tun_routes = ("mihomo", mihomo) ∷ ("sing-box", sing_box) ∷ ("xray", xray tun_routes) ∷ []

-- `m[f] = b`: a key that is set to false is as one that is absent.
unfoldable pub remove_key : String → List String → List String
remove_key x [] = []
remove_key x (y ∷ ys) = let rest = remove_key x ys in if str_eq x y then rest else y ∷ rest

unfoldable pub set_key : String → Bool → List String → List String
set_key x true xs = x ∷ xs
set_key x false xs = remove_key x xs

-- The build of sing-box that adds transports of its own.
unfoldable pub is_downstream : Kind → Version → Bool
is_downstream k v =
    str_eq k "sing-box"
    && starts_with v.pre_release "lx."
    && not (less v (record { raw = ""; major = 1; minor = 14; patch = 3; pre_release = "" }))

-- `BuildCapabilities`, on a kind of the catalog.
unfoldable pub build_capabilities : Capabilities → Version → List String → Capabilities
build_capabilities caps v tags =
    if is_downstream caps.kind v
    then record caps {
      features =
          set_key "amneziawg" (mem "with_awg" tags) (
            set_key "vless-encryption" true
              (set_key "xhttp" (mem "with_xhttp" tags) caps.features));
    }
    else caps

-- `SupportsProtocol` and `Supports`
abbrev pub supports_protocol : Capabilities → Protocol → Bool
supports_protocol c p = mem p c.protocols

abbrev pub supports : Capabilities → Feature → Bool
supports c f = mem f c.features

unfoldable pub stack_refused : Capabilities → Tun → Bool
stack_refused c t =
    (t.enabled && not (str_eq t.stack ""))
    && ((str_eq c.kind "xray" && not (str_eq t.stack "gvisor"))
        || (str_eq c.kind "sing-box" && str_eq t.stack "mips"))

-- The verification of certificates is off although TLS is used.
unfoldable pub insecure_tls : Outbound → Bool
insecure_tls o =
    o.tls.insecure
    && not o.tls.reality
    && (o.tls.enabled || str_eq o.protocol "trojan" || str_eq o.protocol "hysteria2")

unfoldable pub is_zero : ℤ → Bool
is_zero (ℤ.pos zero) = true
is_zero (ℤ.pos (suc n)) = false
is_zero (ℤ.negsuc n) = false

unfoldable pub junk_set : AmneziaWg → Bool
junk_set a =
    not (str_eq a.j1 "") || not (str_eq a.j2 "") || not (str_eq a.j3 "") || not (is_zero a.itime)

unfoldable pub has_junk : Outbound → Bool
has_junk o = elim o.amnezia [ none ↦ false | some a ↦ junk_set a ]

-- The entries of a set that the engine lacks, each with its text.
unfoldable pub lacking : String → List String → List String → List String
lacking prefix have [] = []
lacking prefix have (x ∷ xs) =
    let rest = lacking prefix have xs in if mem x have then rest else cat prefix x ∷ rest

unfoldable pub when : Bool → String → List String
when true t = t ∷ []
when false t = []

-- `sort.Strings`
unfoldable pub insert_sorted : String → List String → List String
insert_sorted x [] = x ∷ []
insert_sorted x (y ∷ ys) =
    let later = y ∷ insert_sorted x ys in if is_le (compare x y) then x ∷ y ∷ ys else later

unfoldable pub sort_strings : List String → List String
sort_strings [] = []
sort_strings (x ∷ xs) = insert_sorted x (sort_strings xs)

-- What `Missing` collects before it sorts.
unfoldable pub collect_missing : Capabilities → Plan → List String
collect_missing c p =
    when (stack_refused c p.tun) (cat "TUN stack " p.tun.stack)
    ++ (when (str_eq c.kind "xray" && any insecure_tls p.outbounds)
          "TLS verification disabled (removed by Xray)"
        ++ (when (str_eq c.kind "sing-box" && any has_junk p.outbounds)
              "AmneziaWG J1/J2/J3/Itime parameters"
            ++ (lacking "protocol " c.protocols (protocols p.outbounds)
                ++ lacking "feature " c.features (required_features p))))

-- `Missing`
unfoldable pub missing : Capabilities → Plan → List String
missing c p = sort_strings (collect_missing c p)
