-- ===== src/Plan/Model.antt =====
-- core/engine/plan.go: the data of a plan. A nil pointer is `none`; a map is the list of its entries
-- in the order in which the loop over it meets them.
use sora_client.Prelude.{ℕ, String, Bool, Option, List}

-- A Go `int`.
pub data ℤ : Type 0 where
  pos negsuc : ℕ → ℤ

-- `MaxOutbounds` and the other limits.
abbrev pub max_outbounds : ℕ
max_outbounds = 5000

abbrev pub max_groups : ℕ
max_groups = 500

abbrev pub max_rules : ℕ
max_rules = 10000

abbrev pub max_id_len : ℕ
max_id_len = 128

abbrev pub max_name_bytes : ℕ
max_name_bytes = 256

abbrev pub max_header_count : ℕ
max_header_count = 32

abbrev pub max_dns_servers : ℕ
max_dns_servers = 32

-- `type Kind string`, `type Protocol string`, `type GroupType string`, `type RuleType string`
abbrev pub Kind : Type 0
Kind = String

abbrev pub Protocol : Type 0
Protocol = String

abbrev pub GroupType : Type 0
GroupType = String

abbrev pub RuleType : Type 0
RuleType = String

abbrev pub DnsTransport : Type 0
DnsTransport = String

pub record Tls : Type 0 where
  pub enabled : Bool
  pub server_name : String
  pub alpn : List String
  pub fingerprint : String
  pub insecure : Bool
  pub reality : Bool
  pub reality_public_key : String
  pub reality_short_id : String
  pub spider_x : String

pub record Transport : Type 0 where
  pub transport_type : String
  pub path : String
  pub host : String
  pub service : String
  pub headers : List (String × String)
  pub prefix : String
  pub idle_timeout : ℤ
  pub mode : String

pub record WireGuardPeer : Type 0 where
  pub public_key : String
  pub pre_shared_key : String
  pub endpoint : String
  pub allowed_ips : List String
  pub persistent_keepalive : ℤ

pub record AmneziaWg : Type 0 where
  pub jc : ℤ
  pub jmin : ℤ
  pub jmax : ℤ
  pub s1 : ℤ
  pub s2 : ℤ
  pub s3 : ℤ
  pub s4 : ℤ
  pub h1 : String
  pub h2 : String
  pub h3 : String
  pub h4 : String
  pub i1 : String
  pub i2 : String
  pub i3 : String
  pub i4 : String
  pub i5 : String
  pub j1 : String
  pub j2 : String
  pub j3 : String
  pub itime : ℤ

pub record BypassStrategy : Type 0 where
  pub split_pos : List String
  pub disorder : Bool
  pub oob : Bool
  pub tls_record : String
  pub host_case : Bool
  pub domain_case : Bool
  pub method_eol : Bool

pub record Outbound : Type 0 where
  pub id : String
  pub name : String
  pub protocol : Protocol
  pub transport : Transport
  pub tls : Tls
  pub socks_udp : Bool
  pub server : String
  pub port : ℕ
  pub uuid : String
  pub password : String
  pub cipher : String
  pub user_id : String
  pub flow : String
  pub obfs : String
  pub obfs_param : String
  pub private_key : String
  pub public_key : String
  pub short_id : String
  pub encryption : String
  pub peers : List WireGuardPeer
  pub amnezia : Option AmneziaWg
  pub bypass : Option BypassStrategy
  pub profile : String
  pub addresses : List String
  pub tags : List String
  pub country_code : String
  pub provider_id : String
  pub original_link : String

pub record Group : Type 0 where
  pub name : String
  pub group_type : GroupType
  pub outbounds : List String
  pub url : String
  pub interval : ℤ
  pub tolerance : ℤ
  pub lazy : Bool
  pub hidden : Bool
  pub icon : String
  pub provider : String
  pub include : List String
  pub exclude : List String

pub record Rule : Type 0 where
  pub rule_type : RuleType
  pub value : String
  pub target : String
  pub no_resolve : Bool

pub record DnsServer : Type 0 where
  pub tag : String
  pub transport : DnsTransport
  pub address : String
  pub port : ℕ
  pub dialer : String
  pub suffixes : List String
  pub proxy_only : Bool

pub record Dns : Type 0 where
  pub enabled : Bool
  pub mode : String
  pub fake_ip_range : String
  pub servers : List DnsServer
  pub nameserver_policy : List (String × List String)
  pub disable_cache : Bool
  pub sniff : Bool
  pub hijack_tun : List String

-- `netip.Prefix` that is valid: the address as a number, its family and the length of the prefix. The
-- zero prefix is `none`.
pub record Prefix : Type 0 where
  pub is_4 : Bool
  pub addr : ℕ
  pub bits : ℕ

pub record Tun : Type 0 where
  pub ipv4 : Option Prefix
  pub ipv6 : Option Prefix
  pub enabled : Bool
  pub stack : String
  pub device_name : String
  pub mtu : ℤ
  pub strict_route : Bool
  pub auto_route : Bool
  pub route_address_sets : List String
  pub include_apps : List String
  pub exclude_apps : List String

pub record Fragment : Type 0 where
  pub enabled : Bool
  pub packets : String
  pub length : String
  pub interval : String

pub record Options : Type 0 where
  pub log_level : String
  pub mode : String
  pub unified_delay : Bool
  pub find_process : Bool
  pub geo_data : Bool
  pub allow_lan : Bool
  pub ipv6 : Bool
  pub profile_storage : Bool
  pub test_url : String
  pub geo_site_url : String
  pub geo_ip_url : String
  pub fragment : Fragment

pub record LocalProxy : Type 0 where
  pub enabled : Bool
  pub username : String
  pub password : String

pub record Plan : Type 0 where
  pub session_id : String
  pub engines : List Kind
  pub private_control : Bool
  pub local_proxy : LocalProxy
  pub outbounds : List Outbound
  pub groups : List Group
  pub rules : List Rule
  pub dns : Dns
  pub tun : Tun
  pub options : Options
