-- ===== src/Plan/Fields.antt =====
-- core/engine/fields.go: the checks of names, servers and addresses. The parsers of the Go library that
-- the checks call are the fields of `Formats`.
pub mod Server
use Prim.Native.Char.{Char, code}
use Prim.Native.String.{◌∷◌ as scons, [] as snil}
use sora_client.Prelude.{
  ℕ, zero, suc, String, Bool, true, false, ◌||◌, ◌&&◌, not, Option, none, some, List, [], ◌∷◌, ◌++◌,
  leb, ltb, ◌==◌, length, if◌then◌else◌, str_eq, any,
}
use sora_client.Errs.Line.{contains_any, trim_space, is_newline}
use sora_client.Engine.Version.Parse.{is_dot, split_dots}
use sora_client.Plan.Names.{len, mem}
use sora_client.Plan.Model.{ℤ, Dns, DnsServer, Tun, Options, max_name_bytes, max_dns_servers}

-- `url.URL`, as far as it is read: the scheme, whether there is user information, and the fragment.
pub record Url : Type 0 where
  pub scheme : String
  pub has_user : Bool
  pub fragment : String

-- `net.ParseIP` and `net.ParseCIDR` on success, `url.Parse`, and the number of outbounds that
-- `json.Unmarshal` finds in a profile.
pub record Formats : Type 0 where
  pub is_ip : String → Bool
  pub is_cidr : String → Bool
  pub parse_url : String → Option Url
  pub profile_outbounds : String → Option ℕ

-- The errors, by the place that returns them; the first argument says what is checked.
pub data Problem : Type 0 where
  nil_plan no_session no_outbounds login_incomplete username_separator profile_not_alone : Problem
  too_many : String → ℕ → Problem
  duplicate : String → String → Problem
  group_named_as_outbound : String → Problem
  no_test_url : String → Problem
  unknown_outbound unknown_target : String → String → Problem
  group_cyclic : String → Problem
  empty_target : String → Problem
  empty_id empty_protocol no_port bad_profile too_many_alpn too_many_headers : String → Problem
  id_too_long bad_header : String → Problem
  no_strategy idle_strategy too_many_splits no_split : String → Problem
  bad_split : String → String → Problem
  unknown_type : String → String → Problem
  no_members bad_interval : String → Problem
  empty_value control_in_value not_cidr not_port : String → Problem
  unknown_mode : String → String → Problem
  empty_address bad_address : String → Problem
  bad_mtu unknown_stack unknown_log_level : Problem
  geodata_not_https : String → Problem
  name_too_long name_padded name_control : String → Problem
  server_empty server_not_bare server_not_host : String → Problem
  url_unparsable url_scheme url_credentials : String → Problem

-- An error that is nil or not, among those joined.
abbrev pub unless : Bool → Problem → List Problem
unless true e = []
unless false e = e ∷ []

abbrev pub fail_if : Bool → Problem → List Problem
fail_if true e = e ∷ []
fail_if false e = []

-- `strings.ContainsAny(name, "\r\n\t\x00")`
abbrev pub is_break : Char → Bool
is_break c = code c == 13 || code c == 10 || code c == 9 || code c == 0

-- `unicode.IsControl`
abbrev pub is_control : Char → Bool
is_control c = leb (code c) 31 || (leb 127 (code c) && leb (code c) 159)

-- `validateDisplayName`
unfoldable pub validate_display_name : String → String → List Problem
validate_display_name what name =
    if str_eq name ""
    then []
    else if ltb max_name_bytes (len name)
    then name_too_long what ∷ []
    else if not (str_eq (trim_space name) name) || contains_any is_break name
    then name_padded what ∷ []
    else fail_if (contains_any is_control name) (name_control what)

abbrev pub is_lower : Char → Bool
is_lower c = leb 97 (code c) && leb (code c) 122

abbrev pub is_upper : Char → Bool
is_upper c = leb 65 (code c) && leb (code c) 90

abbrev pub is_number : Char → Bool
is_number c = leb 48 (code c) && leb (code c) 57

abbrev pub is_label_char : Char → Bool
is_label_char c = is_lower c || is_upper c || is_number c || code c == 45 || code c == 95

abbrev pub ends_with : ℕ → String → Bool
ends_with c snil = false
ends_with c (scons d snil) = code d == c
ends_with c (scons d (scons e s)) = ends_with c (scons e s)

abbrev pub begins_with : ℕ → String → Bool
begins_with c snil = false
begins_with c (scons d s) = code d == c

-- One label of a hostname.
unfoldable pub good_label : String → Bool
good_label label =
    not (str_eq label "")
    && not (ltb 63 (len label))
    && not (begins_with 45 label || ends_with 45 label)
    && not (contains_any (λ c. not (is_label_char c)) label)

unfoldable pub all_labels : List String → Bool
all_labels [] = true
all_labels (l ∷ ls) = good_label l && all_labels ls

-- `isDomain`
unfoldable pub is_domain : String → Bool
is_domain s =
    not (str_eq s "" || ltb 253 (len s) || not (contains_any is_dot s)) && all_labels (split_dots s)

-- `strings.ContainsAny(server, "/@:? ")`
abbrev pub is_separator : Char → Bool
is_separator c = code c == 47 || code c == 64 || code c == 58 || code c == 63 || code c == 32

abbrev pub drop_last : String → String
drop_last snil = snil
drop_last (scons c snil) = snil
drop_last (scons c (scons d s)) = scons c (drop_last (scons d s))

-- The brackets around an address are taken off.
unfoldable pub strip_brackets : String → String
strip_brackets snil = snil
strip_brackets (scons c s) =
    if code c == 91 && ends_with 93 (scons c s) then drop_last s else scons c s

-- `validateServer`
unfoldable pub validate_server : Formats → String → String → Bool → List Problem
validate_server formats what server required =
    if str_eq server ""
    then fail_if required (server_empty what)
    else if contains_any is_separator server
    then server_not_bare what ∷ []
    else if formats.is_ip (strip_brackets server)
    then []
    else unless (is_domain (strip_brackets server)) (server_not_host what)

unfoldable pub validate_url : String → Option Url → List Problem
validate_url what none = url_unparsable what ∷ []
validate_url what (some u) =
    if not (str_eq u.scheme "https") && not (str_eq u.scheme "http")
    then url_scheme what ∷ []
    else fail_if (u.has_user || not (str_eq u.fragment "")) (url_credentials what)

-- `validateTestURL`
unfoldable pub validate_test_url : Formats → String → String → List Problem
validate_test_url formats what raw =
    if str_eq raw "" then [] else validate_url what (formats.parse_url raw)

-- `validHeaderToken`
unfoldable pub valid_header_token : String → Bool
valid_header_token s =
    not (str_eq s "")
    && not (contains_any (λ c. not (is_label_char c || code c == 46 || code c == 33)) s)

unfoldable pub validate_dns_server : Formats → DnsServer → List Problem
validate_dns_server formats s =
    if str_eq s.address ""
    then empty_address s.tag ∷ []
    else fail_if
        (not (str_eq s.transport "system")
          && not (formats.is_ip s.address)
          && not (is_domain s.address))
        (bad_address s.tag)

unfoldable pub validate_dns_servers : Formats → List DnsServer → List Problem
validate_dns_servers formats [] = []
validate_dns_servers formats (s ∷ rest) =
    validate_dns_server formats s ++ validate_dns_servers formats rest

-- `DNS.validate`
unfoldable pub validate_dns : Formats → Dns → List Problem
validate_dns formats d =
    if not d.enabled
    then []
    else unless (mem d.mode ("" ∷ "rule" ∷ "redir-host" ∷ "fakeip" ∷ []))
        (unknown_mode "dns" d.mode)
      ++ (fail_if (ltb max_dns_servers (length d.servers))
            (too_many "dns servers" (length d.servers))
          ++ (validate_dns_servers formats d.servers
              ++ fail_if
                  (str_eq d.mode "fakeip"
                    && not (str_eq d.fake_ip_range "")
                    && not (formats.is_cidr d.fake_ip_range))
                  (not_cidr d.fake_ip_range)))

unfoldable pub bad_range : ℤ → Bool
bad_range (ℤ.pos zero) = false
bad_range (ℤ.pos (suc n)) = ltb (suc n) 576 || ltb 1500 (suc n)
bad_range (ℤ.negsuc n) = true

-- `Tun.validate`
unfoldable pub validate_tun : Tun → List Problem
validate_tun t =
    if not t.enabled
    then []
    else unless (mem t.stack ("" ∷ "system" ∷ "gvisor" ∷ "mixed" ∷ "mips" ∷ [])) unknown_stack
      ++ (fail_if (bad_range t.mtu) bad_mtu ++ validate_display_name "tun" t.device_name)

-- `strings.HasPrefix(u, "https://")`
unfoldable pub has_prefix : String → String → Bool
has_prefix snil s = true
has_prefix (scons c p) snil = false
has_prefix (scons c p) (scons d s) = code c == code d && has_prefix p s

unfoldable pub validate_geodata : String → List Problem
validate_geodata u =
    fail_if (not (str_eq u "") && not (has_prefix "https://" u)) (geodata_not_https u)

-- `Options.validate`
unfoldable pub validate_options : Formats → Options → List Problem
validate_options formats o =
    unless (mem o.log_level ("" ∷ "silent" ∷ "error" ∷ "warning" ∷ "info" ∷ "debug" ∷ []))
      unknown_log_level
    ++ (unless (mem o.mode ("" ∷ "rule" ∷ "global" ∷ "direct" ∷ [])) (unknown_mode "options" o.mode)
        ++ (validate_test_url formats "options" o.test_url
            ++ (validate_geodata o.geo_site_url ++ validate_geodata o.geo_ip_url)))
