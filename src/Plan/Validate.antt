-- ===== src/Plan/Validate.antt =====
-- core/engine/validate.go: `Validate` of a plan. A list of problems is the error that `errors.Join` makes
-- of them: nil if it is empty.
pub mod Accepted
use Prim.Native.Char.{Char, code}
use Prim.Native.String.{◌∷◌ as scons, [] as snil}
use sora_client.Prelude.{
  ℕ, zero, suc, String, Bool, true, false, ◌||◌, ◌&&◌, not, Option, none, some, List, [], ◌∷◌, ◌++◌,
  leb, ltb, ◌==◌, length, if◌then◌else◌, str_eq, any, map,
}
use sora_client.Errs.Line.{contains_any, trim_space, is_newline}
use sora_client.Errs.Line.{cat}
use sora_client.Engine.Version.Decimal.{is_digit, atoi}
use sora_client.Plan.Names.{len, mem, has_key}
use sora_client.Plan.Model.{
  ℤ, Plan, Outbound, Group, Rule, BypassStrategy, max_outbounds, max_groups, max_rules, max_id_len,
  max_header_count,
}
use sora_client.Plan.Needs.{is_empty}
use sora_client.Plan.Cycle.{Members, group_cycle}
use sora_client.Plan.Strategy.{
  few_digits, strip_prefix, offset, signed_digits, is_bypass_position, first_bad_split, or_no_split,
  validate_bypass,
}
use sora_client.Plan.Parts.{
  validate_headers, bad_count, validate_outbound, bad_interval, validate_group, needs_probe,
  is_built_in_target, within, is_int, validate_rule,
}
use sora_client.Plan.Fields.{
  Formats, Problem, unless, fail_if, validate_display_name, validate_server, validate_test_url,
  valid_header_token, validate_dns, validate_tun, validate_options, is_break,
}

abbrev pub ids_of : List Outbound → List String
ids_of [] = []
ids_of (o ∷ os) = o.id ∷ ids_of os

-- The loop over the outbounds; `ids` is the set so far.
unfoldable pub check_outbounds : Formats → List String → List Outbound → List Problem
check_outbounds formats ids [] = []
check_outbounds formats ids (o ∷ os) =
    validate_outbound formats o
    ++ (fail_if (mem o.id ids) (Problem.duplicate "outbound id" o.id)
        ++ check_outbounds formats (o.id ∷ ids) os)

-- `members`, in which the last group of a name counts.
unfoldable pub members_map : List Group → Members → Members
members_map [] m = m
members_map (g ∷ gs) m = members_map gs ((g.name, g.outbounds) ∷ m)

unfoldable pub check_names : List String → List Group → List Problem
check_names ids [] = []
check_names ids (g ∷ gs) =
    fail_if (mem g.name ids) (Problem.group_named_as_outbound g.name) ++ check_names ids gs

-- The references of one group.
unfoldable pub check_refs : List String → Members → String → List String → List Problem
check_refs ids members name [] = []
check_refs ids members name (r ∷ rs) =
    fail_if (not (mem r ids) && not (has_key r members) && not (is_built_in_target r))
      (Problem.unknown_outbound name r)
    ++ check_refs ids members name rs

unfoldable pub said_yes : Option Bool → Bool
said_yes none = false
said_yes (some b) = b

-- `groupCycle(g.Name, members, map[string]bool{})`, with the fuel that is enough.
unfoldable pub is_cyclic : Members → String → Bool
is_cyclic members g = said_yes (group_cycle (suc (length members)) members [] g)

-- The loop over the groups; `names` is the set so far.
unfoldable pub check_groups :
    Formats → Plan → List String → Members → List String → List Group → List Problem
check_groups formats p ids members names [] = []
check_groups formats p ids members names (g ∷ gs) =
    validate_group g
    ++ (fail_if (needs_probe g && str_eq g.url "" && str_eq p.options.test_url "")
          (Problem.no_test_url g.name)
        ++ (validate_test_url formats (cat "group " g.name) g.url
            ++ (fail_if (mem g.name names) (Problem.duplicate "group name" g.name)
                ++ (check_refs ids members g.name g.outbounds
                    ++ (fail_if (is_cyclic members g.name) (Problem.group_cyclic g.name)
                        ++ check_groups formats p ids members (g.name ∷ names) gs)))))

abbrev pub names_of : List Group → List String
names_of [] = []
names_of (g ∷ gs) = g.name ∷ names_of gs

-- The loop over the rules.
unfoldable pub check_rules : Formats → List String → List String → List Rule → List Problem
check_rules formats ids names [] = []
check_rules formats ids names (r ∷ rs) =
    validate_rule formats r
    ++ ((if str_eq r.target ""
          then Problem.empty_target r.value ∷ []
          else fail_if
              (not (mem r.target ids)
                && not (mem r.target names)
                && not (is_built_in_target r.target))
              (Problem.unknown_target r.value r.target))
        ++ check_rules formats ids names rs)

-- `strings.ContainsAny(username, ":@ \r\n")`
abbrev pub is_login_separator : Char → Bool
is_login_separator c = code c == 58 || code c == 64 || code c == 32 || is_newline c

abbrev pub xor : Bool → Bool → Bool
xor true b = not b
xor false b = b

unfoldable pub check_login : Plan → List Problem
check_login p =
    fail_if (xor (str_eq p.local_proxy.username "") (str_eq p.local_proxy.password ""))
      Problem.login_incomplete
    ++ fail_if (contains_any is_login_separator p.local_proxy.username) Problem.username_separator

unfoldable pub check_limits : Plan → List Problem
check_limits p =
    fail_if (str_eq (trim_space p.session_id) "") Problem.no_session
    ++ (fail_if (is_empty p.outbounds) Problem.no_outbounds
        ++ (fail_if (ltb max_outbounds (length p.outbounds))
              (Problem.too_many "outbounds" (length p.outbounds))
            ++ (fail_if (ltb max_groups (length p.groups))
                  (Problem.too_many "groups" (length p.groups))
                ++ fail_if (ltb max_rules (length p.rules))
                    (Problem.too_many "rules" (length p.rules)))))

unfoldable pub check_profile : Plan → List Problem
check_profile p =
    fail_if
      (any (λ o. str_eq o.protocol "xray-profile") p.outbounds
        && (ltb 1 (length p.outbounds) || not (is_empty p.groups)))
      Problem.profile_not_alone

-- `Plan.Validate`, on a plan that is not nil.
unfoldable pub validate_plan : Formats → Plan → List Problem
validate_plan formats p =
    let ids = ids_of p.outbounds in
    let members = members_map p.groups [] in
    check_limits p
    ++ (check_outbounds formats [] p.outbounds
        ++ (check_profile p
            ++ (check_names ids p.groups
                ++ (check_login p
                    ++ (check_groups formats p ids members [] p.groups
                        ++ (check_rules formats ids (names_of p.groups) p.rules
                            ++ (validate_dns formats p.dns
                                ++ (validate_tun p.tun ++ validate_options formats p.options))))))))

-- `Plan.Validate`
unfoldable pub validate : Formats → Option Plan → List Problem
validate formats none = Problem.nil_plan ∷ []
validate formats (some p) = validate_plan formats p
