-- ===== src/Plan/Secrets.antt =====
-- core/engine/validate.go and profile.go: the values of a plan that are masked, and its warnings.
-- `parse_json` is `json.Unmarshal` of a profile, nil where it fails.
use sora_client.Prelude.{
  String, Bool, ◌||◌, ◌&&◌, not, Option, none, some, List, [], ◌∷◌, ◌++◌, leb, ◌==◌, if◌then◌else◌,
  str_eq, keep,
}
use Prim.Native.Char.{code}
use sora_client.Errs.Line.{cat, contains_any}
use sora_client.Engine.Version.Decimal.{show}
use sora_client.Plan.Names.{len, mem}
use sora_client.Plan.Model.{Plan, Outbound, WireGuardPeer}

-- A decoded JSON value: an object, an array, a text or something else.
mutual
  pub data Json : Type 0 where
    object : Entries → Json
    array : Values → Json
    text : String → Json
    other : Json

  pub data Entries : Type 0 where
    no_entry : Entries
    entry : String → Json → Entries → Entries

  pub data Values : Type 0 where
    no_value : Values
    value : Json → Values → Values

abbrev pub profile_keys : List String
profile_keys =
    "id" ∷ "password" ∷ "pass" ∷ "user" ∷ "publicKey" ∷ "privateKey" ∷ "shortId" ∷ "preSharedKey"
    ∷ "secretKey" ∷ "spiderX" ∷ "seed" ∷ []

-- One entry of an object, where `below` is what the walk finds in the value.
unfoldable pub entry_secrets : String → Json → List String → List String
entry_secrets k (Json.text s) below = if mem k profile_keys then s ∷ [] else below
entry_secrets k (Json.object es) below = below
entry_secrets k (Json.array vs) below = below
entry_secrets k Json.other below = below

-- `walk`
unfoldable mutual
  pub walk : Json → List String
  walk (Json.object es) = walk_entries es
  walk (Json.array vs) = walk_values vs
  walk (Json.text s) = []
  walk Json.other = []

  pub walk_entries : Entries → List String
  walk_entries Entries.no_entry = []
  walk_entries (Entries.entry k v rest) = entry_secrets k v (walk v) ++ walk_entries rest

  pub walk_values : Values → List String
  walk_values Values.no_value = []
  walk_values (Values.value v rest) = walk v ++ walk_values rest

-- `profileSecrets`
unfoldable pub profile_secrets : (String → Option Json) → String → List String
profile_secrets parse_json raw =
    if str_eq raw "" then [] else elim (parse_json raw) [ none ↦ [] | some v ↦ walk v ]

abbrev pub is_long : String → Bool
is_long s = leb 4 (len s)

unfoldable pub pre_shared_keys : List WireGuardPeer → List String
pre_shared_keys [] = []
pre_shared_keys (p ∷ ps) = p.pre_shared_key ∷ pre_shared_keys ps

unfoldable pub candidates : (String → Option Json) → Outbound → List String
candidates parse_json o =
    o.uuid
    ∷ o.password
    ∷ o.user_id
    ∷ o.obfs_param
    ∷ o.private_key
    ∷ o.original_link
    ∷ ((if str_eq o.encryption "none" then [] else o.encryption ∷ [])
        ++ (pre_shared_keys o.peers ++ profile_secrets parse_json o.profile))

-- `Outbound.Secrets`
unfoldable pub outbound_secrets : (String → Option Json) → Outbound → List String
outbound_secrets parse_json o = keep is_long (candidates parse_json o)

unfoldable pub secrets_of : (String → Option Json) → List Outbound → List String
secrets_of parse_json [] = []
secrets_of parse_json (o ∷ os) = outbound_secrets parse_json o ++ secrets_of parse_json os

-- `Plan.Secrets`; a nil plan has none.
unfoldable pub secrets : (String → Option Json) → Option Plan → List String
secrets parse_json none = []
secrets parse_json (some p) =
    secrets_of parse_json p.outbounds ++ keep is_long (p.local_proxy.password ∷ [])

-- `net.JoinHostPort`: brackets around a host with a colon or a percent sign.
unfoldable pub join_host_port : String → String → String
join_host_port host port =
    if contains_any (λ c. code c == 58 || code c == 37) host
    then cat "[" (cat host (cat "]:" port))
    else cat host (cat ":" port)

-- `Outbound.Identifiers`
unfoldable pub outbound_identifiers : Outbound → List String
outbound_identifiers o =
    (if str_eq o.server ""
      then []
      else o.server ∷ (if o.port == 0 then [] else join_host_port o.server (show o.port) ∷ []))
    ++ ((if str_eq o.tls.server_name "" then [] else o.tls.server_name ∷ []) ++ o.name ∷ [])

unfoldable pub identifiers_of : List Outbound → List String
identifiers_of [] = []
identifiers_of (o ∷ os) = outbound_identifiers o ++ identifiers_of os

-- `Plan.Identifiers`
unfoldable pub identifiers : Option Plan → List String
identifiers none = []
identifiers (some p) = identifiers_of p.outbounds

-- `Outbound.Warnings`
unfoldable pub warnings : Outbound → List String
warnings o =
    (if o.tls.insecure && not (str_eq o.protocol "direct") then "insecure-certificate" ∷ [] else [])
    ++ ((if o.tls.enabled && str_eq o.tls.server_name "" && not (str_eq o.protocol "direct")
          then "tls-server-name-missing" ∷ []
          else [])
        ++ (if str_eq o.transport.transport_type "ws" && not o.tls.enabled
            then "websocket-without-tls" ∷ []
            else []))
