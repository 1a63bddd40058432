-- ===== src/Subscription/Fetch.antt =====
-- core/subscription/subscription.go: `New`, `Fetch` and `hop`. What the network answers to a request, what
-- `url.Parse` and `strings.ToLower` answer, and what becomes of a relative location, is an argument.
-- `Fetch` also returns the requests that it has sent, oldest first; the text of the error has no numbers.
pub mod Requests
use sora_client.Prelude.{
  not, ℕ, zero, suc, ◌≡◌, refl, String, Bool, true, false, ◌||◌, ◌&&◌, Option, none, some, List, [],
  ◌∷◌, ◌⊎◌, inl, inr, leb, ltb, ◌==◌, if◌then◌else◌, str_eq, length, take,
}
use sora_client.Errs.{Fields, invalid_argument, unavailable, resource_exhausted, with_retry}
use sora_client.Plan.Model.{ℤ}
use sora_client.Subscription.Reference.{Url, failure, validate_reference, user_agent_for}

abbrev pub Bytes : Type 0
Bytes = List ℕ

-- `DefaultTimeout` in nanoseconds, `MaxRedirects` and `MaxBodyBytes`.
abbrev pub default_timeout : ℕ
default_timeout = 30000000000

abbrev pub max_redirects : ℕ
max_redirects = 5

abbrev pub max_body_bytes : ℕ
max_body_bytes = 16777216

pub record Options : Type 0 where
  pub timeout : ℤ
  pub max_redirects : ℤ
  pub max_body_bytes : ℤ

pub record Fetcher : Type 0 where
  pub timeout : ℕ
  pub max_redirects : ℕ
  pub max_body : ℕ

unfoldable pub or_default : ℤ → ℕ → ℕ
or_default (ℤ.pos zero) d = d
or_default (ℤ.pos (suc n)) d = suc n
or_default (ℤ.negsuc n) d = d

-- `New`, without its HTTP client.
unfoldable pub new_fetcher : Options → Fetcher
new_fetcher o = record {
  timeout = or_default o.timeout default_timeout;
  max_redirects = or_default o.max_redirects max_redirects;
  max_body = or_default o.max_body_bytes max_body_bytes;
}

-- A response: the body is what can be read of it, or `none` if reading fails.
pub record Response : Type 0 where
  pub status : ℕ
  pub location : String
  pub content_length : ℤ
  pub body : Option Bytes
  pub read_error : Fields

-- What `Do` answers: an error after `errs.From`, or a response.
abbrev pub Answer : Type 0
Answer = Fields ⊎ Response

pub data HopResult : Type 0 where
  hop_failed : Fields → HopResult
  moved : String → HopResult
  arrived : Bytes → HopResult

abbrev pub is_redirect : ℕ → Bool
is_redirect n = n == 301 || n == 302 || n == 303 || n == 307 || n == 308

-- `redirectTarget`
unfoldable pub redirect_target : Response → String
redirect_target r = if is_redirect r.status then r.location else ""

unfoldable pub announced_over : ℕ → ℤ → Bool
announced_over bound (ℤ.pos n) = ltb bound n
announced_over bound (ℤ.negsuc n) = false

unfoldable pub is_empty_body : Bytes → Bool
is_empty_body [] = true
is_empty_body (b ∷ bs) = false

unfoldable pub status_failure : ℕ → Fields
status_failure n =
    let refused =
      failure unavailable "core.subscription.status" "subscription: the provider answered" in
    if leb 500 n || n == 429 then with_retry 0 refused else refused

-- The body, read through a limit of one byte more than is allowed.
unfoldable pub read_body : ℕ → Fields → Option Bytes → HopResult
read_body bound e none = HopResult.hop_failed e
read_body bound e (some bytes) =
    if ltb bound (length (take (suc bound) bytes))
    then HopResult.hop_failed (
        failure resource_exhausted "core.subscription.too_large"
          "subscription: the body is larger than the limit")
    else if is_empty_body (take (suc bound) bytes)
    then HopResult.hop_failed (
        failure invalid_argument "core.subscription.empty"
          "subscription: the provider answered with an empty body")
    else HopResult.arrived (take (suc bound) bytes)

unfoldable pub of_response : ℕ → Response → HopResult
of_response bound r =
    if not (str_eq (redirect_target r) "")
    then HopResult.moved (redirect_target r)
    else if not (r.status == 200)
    then HopResult.hop_failed (status_failure r.status)
    else if announced_over bound r.content_length
    then HopResult.hop_failed (
        failure resource_exhausted "core.subscription.too_large"
          "subscription: the provider announced more bytes than the limit")
    else read_body bound r.read_error r.body

-- `hop`
unfoldable pub hop : ℕ → Answer → HopResult
hop bound (inl e) = HopResult.hop_failed e
hop bound (inr r) = of_response bound r

pub record Sent : Type 0 where
  pub target : Url
  pub agent : String

unfoldable pub too_many : Fields
too_many =
    failure invalid_argument "core.subscription.redirect_rejected"
      "subscription: the provider led the request too many times"

unfoldable pub not_a_location : Fields
not_a_location =
    failure invalid_argument "core.subscription.redirect_rejected"
      "subscription: the provider sent a redirect that is not a location"

module _ (parse_url : String → Option Url) (to_lower : String → String)
    (resolve : Url → Url → String) (answer : ℕ → Url → String → Answer) where
  -- The next target after a redirect.
  unfoldable pub next_target : Url → Option Url → Fields ⊎ Url
  next_target target none = inl not_a_location
  next_target target (some location) =
      validate_reference parse_url to_lower (resolve target location)

  unfoldable pub go_on :
      (Url → (Fields ⊎ Bytes) × List Sent) → Fields ⊎ Url → (Fields ⊎ Bytes) × List Sent
  go_on next (inl e) = (inl e, [])
  go_on next (inr target) = next target

  unfoldable pub follow :
      (Url → (Fields ⊎ Bytes) × List Sent) → Url → HopResult → (Fields ⊎ Bytes) × List Sent
  follow next target (HopResult.hop_failed e) = (inl e, [])
  follow next target (HopResult.arrived bytes) = (inr bytes, [])
  follow next target (HopResult.moved location) =
      go_on next (next_target target (parse_url location))

  -- The loop of `Fetch`; `left` is how many hops are left, so that it is 0 where `hop > f.maxRedirects`,
  -- and `n` is `hop`.
  unfoldable pub fetch_loop : ℕ → ℕ → ℕ → String → Url → (Fields ⊎ Bytes) × List Sent
  fetch_loop bound zero n agent target = (inl too_many, [])
  fetch_loop bound (suc left) n agent target =
      let result =
        follow (λ t. fetch_loop bound left (suc n) agent t) target
          (hop bound (answer n target agent)) in
      (result.0, record { target = target; agent = agent } ∷ result.1)

  unfoldable pub fetch_from : Fetcher → String → Fields ⊎ Url → (Fields ⊎ Bytes) × List Sent
  fetch_from f agent (inl e) = (inl e, [])
  fetch_from f agent (inr target) = fetch_loop f.max_body (suc f.max_redirects) 0 agent target

  unfoldable pub fetch_as : Fetcher → String → Fields ⊎ String → (Fields ⊎ Bytes) × List Sent
  fetch_as f reference (inl e) = (inl e, [])
  fetch_as f reference (inr agent) =
      fetch_from f agent (validate_reference parse_url to_lower reference)

  -- `Fetch`
  unfoldable pub fetch : Fetcher → String → String → (Fields ⊎ Bytes) × List Sent
  fetch f reference asked = fetch_as f reference (user_agent_for asked)
