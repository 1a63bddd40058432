-- ===== src/Plan/Parts.antt =====
-- core/engine/validate.go and refs.go: `Validate` of an outbound, a group and a rule.
use Prim.Native.Char.{code}
use Prim.Native.String.{◌∷◌ as scons, [] as snil}
use sora_client.Prelude.{
  ℕ, String, Bool, true, false, ◌||◌, ◌&&◌, not, Option, none, some, List, [], ◌∷◌, ◌++◌, leb, ltb,
  ◌==◌, length, if◌then◌else◌, str_eq,
}
use sora_client.Errs.Line.{contains_any, trim_space, is_newline}
use sora_client.Errs.Line.{cat}
use sora_client.Engine.Version.Decimal.{atoi}
use sora_client.Plan.Names.{len, mem}
use sora_client.Plan.Model.{ℤ, Outbound, Group, Rule, max_id_len, max_header_count}
use sora_client.Plan.Needs.{is_empty}
use sora_client.Plan.Strategy.{validate_bypass}
use sora_client.Plan.Fields.{
  Formats, Problem, unless, fail_if, validate_display_name, validate_server, valid_header_token,
}

unfoldable pub validate_headers : String → List (String × String) → List Problem
validate_headers id [] = []
validate_headers id ((k, v) ∷ rest) =
    fail_if (not (valid_header_token k) || contains_any is_newline v) (Problem.bad_header id)
    ++ validate_headers id rest

unfoldable pub bad_count : Option ℕ → Bool
bad_count none = true
bad_count (some n) = n == 0

-- `Outbound.Validate`
unfoldable pub validate_outbound : Formats → Outbound → List Problem
validate_outbound formats o =
    let what = cat "outbound " o.id in
    let serverless = str_eq o.protocol "direct" || str_eq o.protocol "bypass" in
    (if str_eq o.id ""
      then Problem.empty_id what ∷ []
      else fail_if (ltb max_id_len (len o.id)) (Problem.id_too_long o.id))
    ++ (validate_display_name what o.name
        ++ (fail_if (str_eq o.protocol "") (Problem.empty_protocol o.id)
            ++ (fail_if (not serverless && o.port == 0) (Problem.no_port o.id)
                ++ (validate_server formats what o.server (not serverless)
                    ++ ((if str_eq o.protocol "bypass" then validate_bypass o.id o.bypass else [])
                        ++ (fail_if
                              (str_eq o.protocol "xray-profile"
                                && bad_count (formats.profile_outbounds o.profile))
                              (Problem.bad_profile o.id)
                            ++ (fail_if (ltb 8 (length o.tls.alpn)) (Problem.too_many_alpn o.id)
                                ++ (fail_if (ltb max_header_count (length o.transport.headers))
                                      (Problem.too_many_headers o.id)
                                    ++ validate_headers o.id o.transport.headers))))))))

unfoldable pub bad_interval : ℤ → Bool
bad_interval (ℤ.pos n) = ltb 86400 n
bad_interval (ℤ.negsuc n) = true

-- `Group.validate`
unfoldable pub validate_group : Group → List Problem
validate_group g =
    validate_display_name "group" g.name
    ++ (unless (mem g.group_type ("select" ∷ "url-test" ∷ "fallback" ∷ "load-balance" ∷ []))
          (Problem.unknown_type g.name g.group_type)
        ++ (fail_if (is_empty g.outbounds) (Problem.no_members g.name)
            ++ fail_if (bad_interval g.interval) (Problem.bad_interval g.name)))

-- `needsProbe`
unfoldable pub needs_probe : Group → Bool
needs_probe g = mem g.group_type ("url-test" ∷ "fallback" ∷ "load-balance" ∷ [])

-- `isBuiltInTarget`
unfoldable pub is_built_in_target : String → Bool
is_built_in_target t = mem t ("direct" ∷ "reject" ∷ "pass" ∷ "dns" ∷ [])

-- `strconv.Atoi` succeeds: digits after at most one sign, in the range of an `int`.
unfoldable pub within : ℕ → Option ℕ → Bool
within bound none = false
within bound (some n) = leb n bound

unfoldable pub is_int : String → Bool
is_int snil = false
is_int (scons c s) =
    if code c == 43
    then within 9223372036854775807 (atoi s)
    else if code c == 45
    then within 9223372036854775808 (atoi s)
    else within 9223372036854775807 (atoi (scons c s))

-- `Rule.validate`
unfoldable pub validate_rule : Formats → Rule → List Problem
validate_rule formats r =
    unless
      (mem r.rule_type (
        "domain" ∷ "domain-suffix" ∷ "domain-keyword" ∷ "ip-cidr" ∷ "ip-suffix" ∷ "geoip"
        ∷ "geosite" ∷ "rule-set" ∷ "port" ∷ "src-port" ∷ "process" ∷ "protocol" ∷ "all" ∷ []))
      (Problem.unknown_type "rule" r.rule_type)
    ++ (fail_if (not (str_eq r.rule_type "all") && str_eq (trim_space r.value) "")
          (Problem.empty_value r.rule_type)
        ++ (fail_if (contains_any (λ c. is_newline c || code c == 9) r.value)
              (Problem.control_in_value r.rule_type)
            ++ (fail_if (str_eq r.rule_type "ip-cidr" && not (formats.is_cidr r.value))
                  (Problem.not_cidr r.value)
                ++ fail_if
                    ((str_eq r.rule_type "port" || str_eq r.rule_type "src-port")
                      && not (is_int r.value))
                    (Problem.not_port r.value))))
