-- ===== src/Tests/Foreign.antt =====
-- Foreign errors, subscriptions and the adapter's addresses on concrete inputs.
use Prim.Native.Char.{char, code}
use Prim.Native.String.{◌∷◌ as scons, [] as snil}
use sora_client.Plan.Fields.Server.{str_eq-scons}
use sora_client.Plan.Tunnel.{TunError}
use sora_client.Prelude.{
  zero, if-both, ◌==◌, ℕ, suc, ◌≡◌, refl, String, Bool, true, false, Option, none, some, [], ◌∷◌,
  inr, str_eq, if◌then◌else◌,
}
use sora_client.Errs.Line.{one_line, cat}
use sora_client.Errs.Causes.{Errno, Leaf, Cause, root, is_canceled, is_deadline, catalog_of}
use sora_client.Errs.Classify.{cause_text, from}
use sora_client.Errs.Classify.Private.{from-hides, from-keeps_url, from-keeps_name}
use sora_client.Errs.Classify.Agrees.{Agrees, from-Agrees}
use sora_client.Plan.Model.{ℤ, Prefix, Plan}
use sora_client.Plan.Tunnel.{v4, v6, prepare_tun, masked}
use sora_client.Plan.Tunnel.Kept.{prepare_tun-retains}
use sora_client.Subscription.Reference.{Url}
use sora_client.Subscription.Fetch.{Response, Answer, new_fetcher, fetch}
use sora_client.Subscription.Fetch.Requests.{IsFetched, fetch-IsFetched}
use sora_client.Subscription.Info.{Decoders, parse_info}
use sora_client.Subscription.Info.Bounds.{IsBounded, parse_info-IsBounded}
use sora_client.Tests.Plans.{plan}

abbrev leaf_text : Leaf → String
leaf_text Leaf.context_deadline = "context deadline exceeded"
leaf_text (Leaf.errno e) = "connection refused"
leaf_text l = "failed"

abbrev quote : String → String
quote s = cat "\"" (cat s "\"")

abbrev refused : Cause
refused =
    Cause.operation "dial" " tcp 203.0.113.7:443"
      (Cause.syscall_failed "connect" (Cause.leaf (Leaf.errno Errno.refused)))

from-hides_example :
    (from leaf_text quote (Cause.url_failed "Get" "https://a.example/token" refused)
      ≡ from leaf_text quote (Cause.url_failed "Get" "https://b.example/other" refused))
    × (from leaf_text quote (Cause.path_failed "Get" "https://a.example/token" refused)
        ≡ from leaf_text quote (Cause.path_failed "Get" "https://b.example/other" refused))
unfolding root is_canceled is_deadline
from-hides_example =
    from-hides leaf_text quote "Get" "https://a.example/token" "https://b.example/other" refused
      refl refl

from-keeps_url_example :
    (from leaf_text quote
      (Cause.url_failed "Get" "https://a.example/token" (Cause.leaf Leaf.context_deadline))).detail
    ≡ one_line "Get \"https://a.example/token\": context deadline exceeded"
unfolding root is_canceled is_deadline catalog_of cause_text
from-keeps_url_example =
    from-keeps_url leaf_text quote "Get" "https://a.example/token"
      (Cause.leaf Leaf.context_deadline) refl refl

from-keeps_name_example :
    (from leaf_text quote
      (Cause.operation "dial" " tcp" (Cause.dns "no such host" "a.example" "" false none))).detail
    ≡ one_line "dial tcp: lookup a.example: no such host"
unfolding cause_text
from-keeps_name_example =
    from-keeps_name leaf_text quote "dial" " tcp" "no such host" "a.example" "" false none

from-Agrees_example :
    Agrees (from leaf_text quote (Cause.url_failed "Get" "https://a.example" refused))
unfolding catalog_of
from-Agrees_example =
    from-Agrees leaf_text quote (Cause.url_failed "Get" "https://a.example" refused) refl

abbrev page : Url
page = record { scheme = "https"; has_user = false; host = "a.example"; rest = "" }

-- A provider that redirects without end.
abbrev redirects : ℕ → Url → String → Answer
redirects n u a = inr (record {
  status = 302;
  location = "https://a.example/next";
  content_length = ℤ.pos 0;
  body = none;
  read_error = record {
    code = sora_client.Errs.internal;
    key = "";
    detail = "";
    retryable = false;
    retry_after = 0;
  };
})

fetch-IsFetched_example :
    IsFetched
      (λ s. s)
      16777216
      6
      (fetch
        (λ t. some page)
        (λ s. s)
        (λ u v. "https://a.example/next")
        redirects
        (new_fetcher
          (record { timeout = ℤ.pos 0; max_redirects = ℤ.pos 0; max_body_bytes = ℤ.negsuc 0 }))
        "https://a.example"
        "")
unfolding new_fetcher sora_client.Subscription.Fetch.or_default
fetch-IsFetched_example =
    fetch-IsFetched (λ t. some page) (λ s. s) (λ u v. "https://a.example/next") redirects
      (new_fetcher
        (record { timeout = ℤ.pos 0; max_redirects = ℤ.pos 0; max_body_bytes = ℤ.negsuc 0 }))
      "https://a.example" ""

abbrev decoders : Decoders
decoders = record {
  decode = λ e t. none;
  filename = λ t. none;
  parse_url = λ t. none;
  url_text = λ u. "";
  to_lower = λ t. t;
}

parse_info-IsBounded_example :
    IsBounded (parse_info decoders (("announce", "hello") ∷ []) "# profile-title: Sora\nvless://")
parse_info-IsBounded_example =
    parse_info-IsBounded decoders (("announce", "hello") ∷ []) "# profile-title: Sora\nvless://"

abbrev tunneled : Plan
tunneled = record plan { tun = record plan.tun { enabled = true } }

-- A print of prefixes that can be read back: the family, then the bits and the address in unary. Another
-- text is the pool by default.
abbrev unary : ℕ → String → String
unary zero s = scons (char 47 tt) s
unary (suc n) s = scons (char 49 tt) (unary n s)

abbrev one_more : Option (ℕ × String) → Option (ℕ × String)
one_more none = none
one_more (some (n, s)) = some (suc n, s)

abbrev read : String → Option (ℕ × String)
read snil = none
read (scons c s) = let more = one_more (read s) in if code c == 47 then some (0, s) else more

abbrev of_read : Bool → ℕ → Option (ℕ × String) → Option Prefix
of_read is_4 bits none = none
of_read is_4 bits (some (addr, s)) = some (record { is_4 = is_4; addr = addr; bits = bits })

abbrev read_both : Bool → Option (ℕ × String) → Option Prefix
read_both is_4 none = none
read_both is_4 (some (bits, s)) = of_read is_4 bits (read s)

abbrev family : Bool → ℕ
family true = 52
family false = 54

abbrev show_prefix : Prefix → String
show_prefix q =
    let rest = unary q.bits (unary q.addr "") in
    if q.is_4 then scons (char 52 tt) rest else scons (char 54 tt) rest

abbrev parse_prefix : String → Option Prefix
parse_prefix snil = none
parse_prefix (scons c s) =
    if code c == 52
    then read_both true (read s)
    else if code c == 54
    then read_both false (read s)
    else some (v4 3323068416 16)

read-unary : (n : ℕ) (s : String) → read (unary n s) ≡ some (n, s)
read-unary zero s = refl
read-unary (suc n) s = rw (read-unary n s)

parse-show_parts :
    (is_4 : Bool) (addr bits : ℕ)
    → parse_prefix (show_prefix (record { is_4 = is_4; addr = addr; bits = bits }))
      ≡ some (record { is_4 = is_4; addr = addr; bits = bits })
parse-show_parts true addr bits = rw (read-unary bits (unary addr ""), read-unary addr "")
parse-show_parts false addr bits = rw (read-unary bits (unary addr ""), read-unary addr "")

parse-show : (q : Prefix) → parse_prefix (show_prefix q) ≡ some q
parse-show q = parse-show_parts q.is_4 q.addr q.bits

show-some : (q : Prefix) → str_eq (show_prefix q) "" ≡ false
show-some q =
    if-both (λ t. str_eq t "" ≡ false) q.is_4 _ _ (str_eq-scons (char 52 tt) _)
      (str_eq-scons (char 54 tt) _)

abbrev prepared : Option TunError × Plan
prepared = prepare_tun parse_prefix show_prefix (some []) tunneled

prepare_tun-retains_example : (prepare_tun parse_prefix show_prefix none prepared.1).1 ≡ prepared.1
unfolding sora_client.Plan.Tunnel.leading sora_client.Plan.Tunnel.overlaps
    sora_client.Plan.Tunnel.masked sora_client.Plan.Tunnel.is_local
    sora_client.Plan.Tunnel.is_global_unicast sora_client.Plan.Tunnel.is_private_unmapped
    sora_client.Plan.Tunnel.is_public sora_client.Plan.Tunnel.any_overlaps
    sora_client.Plan.Tunnel.choose_tun_prefix sora_client.Plan.Tunnel.parse_all
    sora_client.Plan.Tunnel.fake_range_text sora_client.Plan.Tunnel.good_fake
    sora_client.Plan.Tunnel.given_or sora_client.Plan.Tunnel.good_adapters
    sora_client.Plan.Tunnel.device_of sora_client.Plan.Tunnel.finish_tun
    sora_client.Plan.Tunnel.check_tun sora_client.Plan.Tunnel.choose_6
    sora_client.Plan.Tunnel.choose_4 sora_client.Plan.Tunnel.with_fake
    sora_client.Plan.Tunnel.with_used sora_client.Plan.Tunnel.with_addrs
    sora_client.Plan.Tunnel.prepare_tun sora_client.Plan.Tunnel.or_first
    sora_client.Plan.Tunnel.adapter_4 sora_client.Plan.Tunnel.adapter_6
    sora_client.Plan.Tunnel.tun_addresses sora_client.Plan.Tunnel.tun_networks
prepare_tun-retains_example =
    prepare_tun-retains parse_prefix show_prefix (λ q. parse-show (masked q)) show-some (some [])
      none tunneled prepared.1 refl refl
