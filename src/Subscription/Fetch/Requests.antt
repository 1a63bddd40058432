-- ===== src/Subscription/Fetch/Requests.antt =====
-- core/subscription/subscription.go: what `Fetch` sends and what it accepts.
use sora_client.Prelude.{
  ℕ, zero, suc, ◌≤◌, ◌≡◌, refl, String, true, false, Option, none, some, List, ◌⊎◌, inl, inr, arith,
  ltb, str_eq, length, take, All, if-cases, ◌==◌, not,
}
use sora_client.Errs.{Fields}
use sora_client.Errs.Line.{contains_any, trim_space}
use sora_client.Plan.Names.{len}
use sora_client.Subscription.Reference.{
  Url, accept_host, accept_scheme, accept_parsed, validate_reference, max_user_agent,
  is_unprintable, user_agent_for,
}
use sora_client.Subscription.Fetch.{
  Bytes, Fetcher, HopResult, Answer, Sent, is_empty_body, read_body, of_response, hop,
  redirect_target, announced_over, next_target, go_on, follow, fetch_loop, fetch_from, fetch_as,
  fetch,
}

-- An HTTPS target with a host and no credentials.
abbrev pub IsSafe : (String → String) → Url → Type 0
IsSafe to_lower u =
    (str_eq (to_lower u.scheme) "https" ≡ true)
    × ((u.has_user ≡ false) × (str_eq u.host "" ≡ false))

-- A user agent that cannot break a header.
abbrev pub IsAgent : String → Type 0
IsAgent a = (contains_any is_unprintable a ≡ false) × (len a ≤ max_user_agent)

-- What holds of a value, if there is one.
abbrev pub Right : {A : Type 0} → (A → Type 0) → Fields ⊎ A → Type 0
Right P (inl e) = Unit
Right P (inr a) = P a

module _ (to_lower : String → String) where
  accept_scheme-IsSafe :
      (u : Url) → u.has_user ≡ false → Right (IsSafe to_lower) (accept_scheme to_lower u)
  unfolding accept_scheme accept_host
  accept_scheme-IsSafe u e =
      if-cases (Right (IsSafe to_lower)) (str_eq (to_lower u.scheme) "https") _ _
        (λ s.
          if-cases (Right (IsSafe to_lower)) (str_eq u.host "") _ _ (λ h. tt) (λ h. (s, (e, h))))
        (λ s.
          if-cases (Right (IsSafe to_lower)) (str_eq (to_lower u.scheme) "http") _ _ (λ t. tt)
            (λ t. tt))

  accept_parsed-IsSafe : (o : Option Url) → Right (IsSafe to_lower) (accept_parsed to_lower o)
  unfolding accept_parsed
  accept_parsed-IsSafe none = tt
  accept_parsed-IsSafe (some u) =
      if-cases (Right (IsSafe to_lower)) u.has_user _ _ (λ e. tt) (accept_scheme-IsSafe u)

  validate_reference-IsSafe :
      (parse_url : String → Option Url) (t : String)
      → Right (IsSafe to_lower) (validate_reference parse_url to_lower t)
  unfolding validate_reference
  validate_reference-IsSafe parse_url t =
      if-cases (Right (IsSafe to_lower)) (str_eq (trim_space t) "") _ _ (λ e. tt)
        (λ e. accept_parsed-IsSafe (parse_url (trim_space t)))

user_agent_for-IsAgent : (asked : String) → Right IsAgent (user_agent_for asked)
unfolding user_agent_for
user_agent_for-IsAgent asked =
    if-cases (Right IsAgent) (str_eq (trim_space asked) "") _ _ (λ e. (refl, omega arith))
      (λ e.
        if-cases (Right IsAgent) (ltb max_user_agent (len (trim_space asked))) _ _ (λ l. tt)
          (λ l.
            if-cases (Right IsAgent) (contains_any is_unprintable (trim_space asked)) _ _ (λ c. tt)
              (λ c. (c, ground arith))))

-- A body that is not empty and not over the limit.
abbrev pub IsBody : ℕ → Bytes → Type 0
IsBody bound bytes = (is_empty_body bytes ≡ false) × (length bytes ≤ bound)

Arrives : ℕ → HopResult → Type 0
Arrives bound (HopResult.hop_failed e) = Unit
Arrives bound (HopResult.moved t) = Unit
Arrives bound (HopResult.arrived bytes) = IsBody bound bytes

read_body-Arrives :
    (bound : ℕ) (e : Fields) (o : Option Bytes) → Arrives bound (read_body bound e o)
unfolding Arrives read_body
read_body-Arrives bound e none = tt
read_body-Arrives bound e (some bytes) =
    if-cases (Arrives bound) (ltb bound (length (take (suc bound) bytes))) _ _ (λ l. tt)
      (λ l.
        if-cases (Arrives bound) (is_empty_body (take (suc bound) bytes)) _ _ (λ n. tt)
          (λ n. (n, ground arith)))

hop-Arrives : (bound : ℕ) (a : Answer) → Arrives bound (hop bound a)
unfolding Arrives hop of_response
hop-Arrives bound (inl e) = tt
hop-Arrives bound (inr r) =
    if-cases (Arrives bound) (not (str_eq (redirect_target r) "")) _ _ (λ t. tt)
      (λ t.
        if-cases (Arrives bound) (not (r.status == 200)) _ _ (λ n. tt)
          (λ n.
            if-cases (Arrives bound) (announced_over bound r.content_length) _ _ (λ o. tt)
              (λ o. read_body-Arrives bound r.read_error r.body)))

-- A run of `Fetch`: at most so many requests, all to safe targets with one safe agent; a body is neither
-- empty nor over the limit.
abbrev pub IsFetched : (String → String) → ℕ → ℕ → (Fields ⊎ Bytes) × List Sent → Type 0
IsFetched to_lower bound most result =
    Right (IsBody bound) result.0
    × ((length result.1 ≤ most) × All (λ s. IsSafe to_lower s.target × IsAgent s.agent) result.1)

module _ (parse_url : String → Option Url) (to_lower : String → String)
    (resolve : Url → Url → String) (answer : ℕ → Url → String → Answer) where
  next_target-IsSafe :
      (target : Url) (o : Option Url)
      → Right (IsSafe to_lower) (next_target parse_url to_lower resolve answer target o)
  unfolding next_target
  next_target-IsSafe target none = tt
  next_target-IsSafe target (some location) =
      validate_reference-IsSafe to_lower parse_url (resolve target location)

  go_on-IsFetched :
      (bound most : ℕ) (next : Url → (Fields ⊎ Bytes) × List Sent) (o : Fields ⊎ Url)
      → ((u : Url) → IsSafe to_lower u → IsFetched to_lower bound most (next u))
      → Right (IsSafe to_lower) o
      → IsFetched to_lower bound most (go_on parse_url to_lower resolve answer next o)
  unfolding go_on
  go_on-IsFetched bound most next (inl e) h k = (tt, (omega arith, tt))
  go_on-IsFetched bound most next (inr u) h k = h u k

  follow-IsFetched :
      (bound most : ℕ) (next : Url → (Fields ⊎ Bytes) × List Sent) (target : Url) (r : HopResult)
      → ((u : Url) → IsSafe to_lower u → IsFetched to_lower bound most (next u))
      → Arrives bound r
      → IsFetched to_lower bound most (follow parse_url to_lower resolve answer next target r)
  unfolding follow Arrives
  follow-IsFetched bound most next target (HopResult.hop_failed e) h k = (tt, (omega arith, tt))
  follow-IsFetched bound most next target (HopResult.arrived bytes) h k = (k, (omega arith, tt))
  follow-IsFetched bound most next target (HopResult.moved t) h k =
      go_on-IsFetched bound most next _ h (next_target-IsSafe target (parse_url t))

  fetch_loop-IsFetched :
      (bound left n : ℕ) (agent : String) (target : Url)
      → IsAgent agent
      → IsSafe to_lower target
      → IsFetched to_lower bound left
          (fetch_loop parse_url to_lower resolve answer bound left n agent target)
  unfolding fetch_loop
  fetch_loop-IsFetched bound zero n agent target h k = (tt, (omega arith, tt))
  fetch_loop-IsFetched bound (suc left) n agent target h k =
      let (good, (few, safe)) =
        follow-IsFetched bound left
          (λ u. fetch_loop parse_url to_lower resolve answer bound left (suc n) agent u) target
          (hop bound (answer n target agent))
          (λ u l. fetch_loop-IsFetched bound left (suc n) agent u h l)
          (hop-Arrives bound (answer n target agent)) in
      (good, (omega arith, ((k, h), safe)))

  fetch_from-IsFetched :
      (f : Fetcher) (agent : String) (o : Fields ⊎ Url)
      → IsAgent agent
      → Right (IsSafe to_lower) o
      → IsFetched to_lower f.max_body
          (suc f.max_redirects)
          (fetch_from parse_url to_lower resolve answer f agent o)
  unfolding fetch_from
  fetch_from-IsFetched f agent (inl e) h k = (tt, (omega arith, tt))
  fetch_from-IsFetched f agent (inr target) h k =
      fetch_loop-IsFetched f.max_body (suc f.max_redirects) 0 agent target h k

  fetch_as-IsFetched :
      (f : Fetcher) (reference : String) (o : Fields ⊎ String)
      → Right IsAgent o
      → IsFetched to_lower f.max_body
          (suc f.max_redirects)
          (fetch_as parse_url to_lower resolve answer f reference o)
  unfolding fetch_as
  fetch_as-IsFetched f reference (inl e) h = (tt, (omega arith, tt))
  fetch_as-IsFetched f reference (inr agent) h =
      fetch_from-IsFetched f agent _ h (validate_reference-IsSafe to_lower parse_url reference)

  -- Whatever the provider answers, `Fetch` ends and sends at most one request more than the redirects that
  -- are allowed, each over HTTPS, with a host and without credentials in the URL, and with a user agent of
  -- printable ASCII of at most 256 bytes; a body that it returns is neither empty nor over the limit.
  pub fetch-IsFetched :
      (f : Fetcher) (reference asked : String)
      → IsFetched to_lower f.max_body
          (suc f.max_redirects)
          (fetch parse_url to_lower resolve answer f reference asked)
  unfolding fetch
  fetch-IsFetched f reference asked =
      fetch_as-IsFetched f reference (user_agent_for asked) (user_agent_for-IsAgent asked)
