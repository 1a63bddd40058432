-- ===== src/Subscription/Reference.antt =====
-- core/subscription/subscription.go: the checks of a reference, a user agent and an address. `parse_url`,
-- `to_lower` and `parse_addr` are `url.Parse`, `strings.ToLower` and `netip.ParseAddr`.
use Prim.Native.Char.{Char, code}
use sora_client.Prelude.{
  ℕ, String, Bool, false, ◌||◌, ◌&&◌, not, Option, none, some, List, [], ◌∷◌, ◌⊎◌, inl, inr, ltb,
  if◌then◌else◌, str_eq,
}
use sora_client.Errs.{Code, Key, Fields, invalid_argument, unsupported, permission_denied}
use sora_client.Errs.Line.{one_line, contains_any, trim_space}
use sora_client.Plan.Names.{len}
use sora_client.Plan.Tunnel.{is_mapped, unmap_addr, is_global_unicast, is_private}

-- `url.URL`, as far as it is read: `rest` is what only `String` and `ResolveReference` look at.
pub record Url : Type 0 where
  pub scheme : String
  pub has_user : Bool
  pub host : String
  pub rest : String

-- `errs.Newf`
unfoldable pub failure : Code → Key → String → Fields
failure c k t = record {
  code = c;
  key = k;
  detail = one_line t;
  retryable = false;
  retry_after = 0;
}

abbrev pub scheme_key : Key
scheme_key = "core.subscription.scheme_unsupported"

unfoldable pub accept_host : Url → Fields ⊎ Url
accept_host u =
    if str_eq u.host ""
    then inl (failure invalid_argument scheme_key "subscription: the reference has no host")
    else inr u

-- The `switch` on the scheme.
unfoldable pub accept_scheme : (String → String) → Url → Fields ⊎ Url
accept_scheme to_lower u =
    if str_eq (to_lower u.scheme) "https"
    then accept_host u
    else if str_eq (to_lower u.scheme) "http"
    then inl (
        failure unsupported scheme_key
          "subscription: the reference uses http, which would send the token in clear")
    else inl
        (failure unsupported scheme_key "subscription: the reference is not an http or https url")

unfoldable pub accept_parsed : (String → String) → Option Url → Fields ⊎ Url
accept_parsed to_lower none =
    inl (failure invalid_argument scheme_key "subscription: the reference is not a url")
accept_parsed to_lower (some u) =
    if u.has_user
    then inl (
        failure invalid_argument scheme_key
          "subscription: the reference carries credentials of its own")
    else accept_scheme to_lower u

-- `ValidateReference`
unfoldable pub validate_reference :
    (String → Option Url) → (String → String) → String → Fields ⊎ Url
validate_reference parse_url to_lower reference =
    if str_eq (trim_space reference) ""
    then inl (failure invalid_argument scheme_key "subscription: the reference is empty")
    else accept_parsed to_lower (parse_url (trim_space reference))

-- `MaxUserAgent` and `UserAgent`
abbrev pub max_user_agent : ℕ
max_user_agent = 256

abbrev pub user_agent : String
user_agent = "sora-core/1 (+https://github.com/levvs-one/sora)"

abbrev pub is_unprintable : Char → Bool
is_unprintable c = ltb (code c) 32 || ltb 126 (code c)

-- `UserAgentFor`
unfoldable pub user_agent_for : String → Fields ⊎ String
user_agent_for asked =
    if str_eq (trim_space asked) ""
    then inr user_agent
    else if ltb max_user_agent (len (trim_space asked))
    then inl (
        failure invalid_argument scheme_key "subscription: the User-Agent is longer than 256 bytes")
    else if contains_any is_unprintable (trim_space asked)
    then inl (
        failure invalid_argument scheme_key
          "subscription: the User-Agent may hold printable ASCII only")
    else inr (trim_space asked)

-- `netip.Addr`: the family and the number.
pub record Addr : Type 0 where
  pub is_4 : Bool
  pub number : ℕ

-- `publicAddr`
unfoldable pub public_addr : Addr → Bool
public_addr a =
    let is_4 = a.is_4 || is_mapped a.is_4 a.number in
    let number = unmap_addr a.is_4 a.number in
    is_global_unicast is_4 number && not (is_private is_4 number)

unfoldable pub any_private : List Addr → Bool
any_private [] = false
any_private (a ∷ rest) = not (public_addr a) || any_private rest

unfoldable pub resolved_private : Option (List Addr) → Bool
resolved_private none = false
resolved_private (some addrs) = any_private addrs

-- `isPrivateHost`; `lookup_ip` is what the resolver answers.
unfoldable pub is_private_host :
    (String → Option Addr) → (String → Option (List Addr)) → String → Bool
is_private_host parse_addr lookup_ip host = elim (parse_addr host) [
  | some a ↦ not (public_addr a)
  | none ↦ resolved_private (lookup_ip host)
]

-- `checkDial`, on an address that can be split and parsed: `none` is no error.
unfoldable pub check_dial : Bool → Addr → Option Fields
check_dial allow_private a =
    if allow_private || public_addr a
    then none
    else some (
        failure permission_denied "core.subscription.redirect_rejected"
          "subscription: the request was led to an address outside the internet")
