-- ===== src/Tests/Plans.antt =====
-- Plans, the choice of an engine and the redactor on concrete inputs.
use sora_client.Routing.Presets.{Options, geosite, apply}
use sora_client.Routing.Applied.{IsRouted, apply-IsRouted}
use sora_client.Prelude.{
  ◌≡◌, refl, ◌↔◌, String, Bool, true, false, none, some, List, [], ◌∷◌, arith, str_eq,
  if◌then◌else◌,
}
use sora_client.Errs.Line.{cat, contains_any, is_space}
use sora_client.Engine.Version.{Version, less}
use sora_client.Engine.Version.Parse.{parse_version, print_version, parse-print}
use sora_client.Plan.Names.{mem}
use sora_client.Plan.Model.{Rule, ℤ, Tls, Transport, Outbound, Group, Plan}
use sora_client.Plan.Needs.{is_empty, required_features, plan_needs, mem-required_features}
use sora_client.Plan.Select.{Availability, select_engine}
use sora_client.Plan.Select.Carries.{Carries}
use sora_client.Plan.Select.First.{IsFirst, select_engine-IsFirst}
use sora_client.Plan.Cycle.{Members, group_cycle}
use sora_client.Plan.Cycle.Grounded.{Grounded}
use sora_client.Plan.Cycle.Enough.{group_cycle-decides}
use sora_client.Plan.Fields.{Url, Formats, Problem, validate_server}
use sora_client.Plan.Validate.{validate}
use sora_client.Plan.Validate.Accepted.{WellFormed, validate-WellFormed}
use sora_client.Plan.Redactor.{Redactor, new_redactor, add, mask}
use sora_client.Plan.Redactor.Order.{made, added}
use sora_client.Plan.Redactor.Masks.{Masked, mask-Masked}

parse-print_example :
    (parse_version "1.19.32-beta.3"
      ≡ some (record {
        raw = "1.19.32-beta.3";
        major = 1;
        minor = 19;
        patch = 32;
        pre_release = "beta.3";
      }))
    × (parse_version "v1.19.32-beta.3"
        ≡ some (record {
          raw = "v1.19.32-beta.3";
          major = 1;
          minor = 19;
          patch = 32;
          pre_release = "beta.3";
        }))
unfolding is_space sora_client.Engine.Version.Decimal.show parse_version
    sora_client.Engine.Version.Decimal.show_onto sora_client.Errs.Line.trim_space
parse-print_example = parse-print 1 19 32 "beta.3" (omega arith) (omega arith) (omega arith) refl

abbrev pub no_tls : Tls
no_tls = record {
  enabled = true;
  server_name = "example.org";
  alpn = [];
  fingerprint = "";
  insecure = false;
  reality = false;
  reality_public_key = "";
  reality_short_id = "";
  spider_x = "";
}

abbrev pub over_xhttp : Transport
over_xhttp = record {
  transport_type = "xhttp";
  path = "/";
  host = "";
  service = "";
  headers = ("Host", "example.org") ∷ [];
  prefix = "";
  idle_timeout = ℤ.pos 0;
  mode = "auto";
}

abbrev pub outbound : String → Outbound
outbound id = record {
  id = id;
  name = "Server";
  protocol = "vless";
  transport = over_xhttp;
  tls = no_tls;
  socks_udp = false;
  server = "example.org";
  port = 443;
  uuid = "c0ffee00-0000-4000-8000-000000000000";
  password = "";
  cipher = "";
  user_id = "";
  flow = "";
  obfs = "";
  obfs_param = "";
  private_key = "";
  public_key = "";
  short_id = "";
  encryption = "none";
  peers = [];
  amnezia = none;
  bypass = none;
  profile = "{}";
  addresses = [];
  tags = [];
  country_code = "";
  provider_id = "";
  original_link = "";
}

abbrev pub group : String → List String → Group
group name members = record {
  name = name;
  group_type = "select";
  outbounds = members;
  url = "";
  interval = ℤ.pos 0;
  tolerance = ℤ.pos 0;
  lazy = false;
  hidden = false;
  icon = "";
  provider = "";
  include = [];
  exclude = [];
}

abbrev pub plan : Plan
plan = record {
  session_id = "s1";
  engines = [];
  private_control = false;
  local_proxy = record { enabled = false; username = ""; password = "" };
  outbounds = outbound "a" ∷ outbound "b" ∷ [];
  groups = group "inner" ("a" ∷ "b" ∷ []) ∷ group "outer" ("inner" ∷ "direct" ∷ []) ∷ [];
  rules = record { rule_type = "all"; value = ""; target = "outer"; no_resolve = false } ∷ [];
  dns = record {
    enabled = false;
    mode = "";
    fake_ip_range = "";
    servers = [];
    nameserver_policy = [];
    disable_cache = false;
    sniff = false;
    hijack_tun = [];
  };
  tun = record {
    ipv4 = none;
    ipv6 = none;
    enabled = false;
    stack = "";
    device_name = "";
    mtu = ℤ.pos 0;
    strict_route = false;
    auto_route = false;
    route_address_sets = [];
    include_apps = [];
    exclude_apps = [];
  };
  options = record {
    log_level = "";
    mode = "rule";
    unified_delay = false;
    find_process = false;
    geo_data = false;
    allow_lan = false;
    ipv6 = false;
    profile_storage = false;
    test_url = "";
    geo_site_url = "";
    geo_ip_url = "";
    fragment = record { enabled = false; packets = ""; length = ""; interval = "" };
  };
}

abbrev build : String → Version → Availability
build kind version = record {
  kind = kind;
  path = "/opt";
  version = version;
  usable = true;
  reason = "";
  build_tags = [];
}

abbrev available : List Availability
available =
    build "sing-box" (record { raw = "1.12.0"; major = 1; minor = 12; patch = 0; pre_release = "" })
    ∷ build "xray" (record { raw = "26.3.27"; major = 26; minor = 3; patch = 27; pre_release = "" })
    ∷ []

select_engine-IsFirst_example :
    IsFirst
      (Carries true plan available)
      ("sing-box" ∷ "xray" ∷ "mihomo" ∷ [])
      0
      (select_engine true (some plan) available ("sing-box" ∷ "xray" ∷ "mihomo" ∷ []))
unfolding is_empty
select_engine-IsFirst_example =
    select_engine-IsFirst true plan available ("sing-box" ∷ "xray" ∷ "mihomo" ∷ []) refl

abbrev formats : Formats
formats = record {
  is_ip = λ s. false;
  is_cidr = λ s. false;
  parse_url = λ s. none;
  profile_outbounds = λ s. none;
}

validate-WellFormed_example : WellFormed plan
unfolding sora_client.Plan.Fields.validate_display_name sora_client.Plan.Fields.good_label
    sora_client.Plan.Fields.all_labels sora_client.Plan.Fields.is_domain
    sora_client.Plan.Fields.strip_brackets sora_client.Plan.Fields.validate_server
    sora_client.Plan.Fields.validate_url sora_client.Plan.Fields.validate_test_url
    sora_client.Plan.Fields.valid_header_token sora_client.Plan.Fields.validate_dns_server
    sora_client.Plan.Fields.validate_dns_servers sora_client.Plan.Fields.validate_dns
    sora_client.Plan.Fields.bad_range sora_client.Plan.Fields.validate_tun
    sora_client.Plan.Fields.has_prefix sora_client.Plan.Fields.validate_geodata
    sora_client.Plan.Fields.validate_options sora_client.Plan.Parts.validate_headers
    sora_client.Plan.Parts.bad_count sora_client.Plan.Parts.validate_outbound
    sora_client.Plan.Parts.bad_interval sora_client.Plan.Parts.validate_group
    sora_client.Plan.Parts.needs_probe sora_client.Plan.Parts.is_built_in_target
    sora_client.Plan.Parts.within sora_client.Plan.Parts.is_int sora_client.Plan.Parts.validate_rule
    sora_client.Plan.Validate.check_outbounds sora_client.Plan.Validate.members_map
    sora_client.Plan.Validate.check_names sora_client.Plan.Validate.check_refs
    sora_client.Plan.Validate.said_yes sora_client.Plan.Validate.is_cyclic
    sora_client.Plan.Validate.check_groups sora_client.Plan.Validate.check_rules
    sora_client.Plan.Validate.check_login sora_client.Plan.Validate.check_limits
    sora_client.Plan.Validate.check_profile sora_client.Plan.Validate.validate_plan
    sora_client.Plan.Validate.validate sora_client.Plan.Cycle.or_empty
    sora_client.Plan.Cycle.members_of sora_client.Plan.Cycle.or_next
    sora_client.Plan.Cycle.any_member sora_client.Plan.Cycle.group_cycle
    sora_client.Errs.Line.trim_space sora_client.Errs.Line.is_newline sora_client.Errs.Line.is_space
    sora_client.Engine.Version.Parse.split_dots sora_client.Engine.Version.Parse.onto_first
    sora_client.Plan.Needs.is_empty
validate-WellFormed_example = validate-WellFormed formats plan refl

abbrev nested : Members
nested = ("outer", "inner" ∷ "direct" ∷ []) ∷ ("inner", "a" ∷ []) ∷ []

group_cycle-decides_example :
    (b : Bool) × ((group_cycle 3 nested [] "outer" ≡ some b)
      × ((b ≡ false) ↔ Grounded nested "outer"))
group_cycle-decides_example = group_cycle-decides nested "outer" refl

-- A group that only leads into a cycle is reported, too.
leads_into_cycle :
    group_cycle 3 (("first", "loop" ∷ []) ∷ ("loop", "loop" ∷ []) ∷ []) [] "first" ≡ some true
unfolding group_cycle sora_client.Plan.Cycle.any_member sora_client.Plan.Cycle.members_of
    sora_client.Plan.Cycle.or_empty sora_client.Plan.Cycle.or_next
leads_into_cycle = refl

mem-required_features_example : mem "xhttp" (required_features plan) ≡ plan_needs plan "xhttp"
mem-required_features_example = mem-required_features plan "xhttp"

abbrev redactor : Redactor
redactor = add ("hunter22" ∷ []) (new_redactor ("hunt" ∷ "pw" ∷ []))

mask-Masked_example :
    (t : String) × (Masked redactor.values "pw hunter22 hunting" t
      × ((mask (λ s. s) redactor "pw hunter22 hunting").0
          ≡ (if str_eq "pw hunter22 hunting" "" then "pw hunter22 hunting" else t)))
mask-Masked_example =
    mask-Masked (λ s. s) redactor "pw hunter22 hunting"
      (added ("hunter22" ∷ []) (made ("hunt" ∷ "pw" ∷ [])))

masks_longest : (mask (λ s. s) redactor "pw hunter22 hunting").0 ≡ "pw [masked] [masked]ing"
unfolding mask add new_redactor sora_client.Plan.Redactor.replace_from
    sora_client.Plan.Redactor.first_match sora_client.Plan.Redactor.built
    sora_client.Plan.Redactor.settle sora_client.Plan.Redactor.add_loop
    sora_client.Plan.Redactor.add_value sora_client.Plan.Redactor.sort_longest
    sora_client.Plan.Redactor.insert_longest sora_client.Plan.Fields.has_prefix
masks_longest = refl

abbrev routed_by : Options
routed_by = record { preset_id = "ru"; proxy_target = "out"; block_ads = true }

abbrev own_rules : List Rule
own_rules = geosite "example" ∷ []

apply-IsRouted_example : IsRouted own_rules routed_by (apply own_rules routed_by)
apply-IsRouted_example = apply-IsRouted own_rules routed_by
