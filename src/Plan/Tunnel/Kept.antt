-- ===== src/Plan/Tunnel/Kept.antt =====
-- core/engine/tun.go: restarts retain the addresses that `PrepareTun` has chosen.
use sora_client.Prelude.{
  ℕ, zero, suc, ◌-◌, ◌*◌, ◌^◌, ◌<◌, ◌≡◌, refl, sym, ◌∙◌, ap, subst, String, Bool, true, false, ◌&&◌,
  not, Option, none, some, List, [], ◌∷◌, ◌++◌, arith, if◌then◌else◌, str_eq, if-both, Bool-cases,
  inl, inr,
}
use native.Mathlib.Nat.{mul-div_cancel}
use sora_client.Plan.Model.{Plan, Prefix}
use sora_client.Plan.Tunnel.{
  TunError, width, leading, masked, any_overlaps, parse_all, fake_range_text, good_fake, given_or,
  good_adapters, is_public, device_of, finish_tun, check_tun, choose_6, choose_4, with_fake,
  with_used, with_addrs, prepare_tun,
}

-- A plan whose adapter addresses, pool and device are settled.
record Settled (show_prefix : Prefix → String) (p : Plan) : Type 0 where
  a : Prefix
  b : Prefix
  fake : Prefix
  has_4 : p.tun.ipv4 ≡ some a
  has_6 : p.tun.ipv6 ≡ some b
  has_pool : p.dns.fake_ip_range ≡ show_prefix (masked fake)
  has_device : str_eq p.tun.device_name "" ≡ false

device_of-some : (name : String) → str_eq (device_of name) "" ≡ false
unfolding device_of
device_of-some name = elim (Bool-cases (str_eq name "")) [ inl e ↦ rw e | inr e ↦ rw (e, e) ]

-- A result without an error satisfies `Q`.
OnSuccess : (Plan → Type 0) → Option TunError × Plan → Type 0
OnSuccess Q (some e, q) = Unit
OnSuccess Q (none, q) = Q q

module _ (show_prefix : Prefix → String) where
  -- What a success means, from the last step to the first.
  check_tun-Settled :
      (fake a b : Prefix) (p : Plan)
      → p.tun.ipv4 ≡ some a
      → p.tun.ipv6 ≡ some b
      → OnSuccess (Settled show_prefix) (check_tun show_prefix fake a b p)
  unfolding OnSuccess check_tun finish_tun
  check_tun-Settled fake a b p e f =
      if-both (OnSuccess (Settled show_prefix)) (not (good_adapters fake a b)) _ _ tt (
        if-both (OnSuccess (Settled show_prefix)) (not (is_public a && is_public b)) _ _ tt
          (record {
            a = a;
            b = b;
            fake = fake;
            has_4 = e;
            has_6 = f;
            has_pool = refl;
            has_device = device_of-some p.tun.device_name;
          }))

  choose_6-Settled :
      (fake a : Prefix) (p : Plan) (o : Option Prefix)
      → p.tun.ipv4 ≡ some a
      → OnSuccess (Settled show_prefix) (choose_6 show_prefix fake a p o)
  unfolding OnSuccess choose_6
  choose_6-Settled fake a p none e = tt
  choose_6-Settled fake a p (some b) e = check_tun-Settled fake a b _ e refl

  choose_4-Settled :
      (fake : Prefix) (used : List Prefix) (p : Plan) (o : Option Prefix)
      → OnSuccess (Settled show_prefix) (choose_4 show_prefix fake used p o)
  unfolding OnSuccess choose_4
  choose_4-Settled fake used p none = tt
  choose_4-Settled fake used p (some a) = choose_6-Settled fake a _ _ refl

  with_fake-Settled :
      (used : List Prefix) (p : Plan) (o : Option Prefix)
      → OnSuccess (Settled show_prefix) (with_fake show_prefix used p o)
  unfolding OnSuccess with_fake
  with_fake-Settled used p none = tt
  with_fake-Settled used p (some fake) =
      if-both (OnSuccess (Settled show_prefix)) (not (good_fake fake)) _ _ tt (
        if-both (OnSuccess (Settled show_prefix)) (any_overlaps fake used) _ _ tt
          (choose_4-Settled fake (used ++ fake ∷ []) p _))

module _ (parse_prefix : String → Option Prefix) (show_prefix : Prefix → String) where
  with_used-Settled :
      (p : Plan) (o : Option (List Prefix))
      → OnSuccess (Settled show_prefix) (with_used parse_prefix show_prefix p o)
  unfolding OnSuccess with_used
  with_used-Settled p none = tt
  with_used-Settled p (some used) = with_fake-Settled show_prefix used p _

  with_addrs-Settled :
      (p : Plan) (addrs : Option (List String))
      → OnSuccess (Settled show_prefix) (with_addrs parse_prefix show_prefix p addrs)
  unfolding OnSuccess with_addrs
  with_addrs-Settled p none = tt
  with_addrs-Settled p (some addrs) = with_used-Settled p _

pow_pos : (k : ℕ) → 0 < 2 ^ k
pow_pos zero = omega arith
pow_pos (suc k) = omega (arith, pow_pos k)

-- A pool is masked once.
leading-masked : (p : Prefix) → leading p.is_4 p.bits (masked p).addr ≡ leading p.is_4 p.bits p.addr
unfolding leading masked
leading-masked p = mul-div_cancel _ (pow_pos (width p.is_4 - p.bits))

masked_idem : (p : Prefix) → masked (masked p) ≡ masked p
unfolding masked
masked_idem p = ap (λ n. record p { addr = n * 2 ^ (width p.is_4 - p.bits) }) (leading-masked p)

-- The second run, from the last step to the first.
module _ (show_prefix : Prefix → String) (p : Plan) (h : Settled show_prefix p) where
  finish_tun-same :
      (fake : Prefix)
      → show_prefix (masked fake) ≡ p.dns.fake_ip_range
      → finish_tun show_prefix fake p ≡ p
  unfolding finish_tun device_of
  finish_tun-same fake e = rw (h.has_device, e)

  check_tun-same :
      (fake a b : Prefix)
      → show_prefix (masked fake) ≡ p.dns.fake_ip_range
      → (check_tun show_prefix fake a b p).1 ≡ p
  unfolding check_tun
  check_tun-same fake a b e =
      if-both {A = Option TunError × Plan} (λ x. x.1 ≡ p) (not (good_adapters fake a b)) _ _ refl
        (if-both {A = Option TunError × Plan} (λ x. x.1 ≡ p) (not (is_public a && is_public b)) _ _
          refl (finish_tun-same fake e))

  choose_4-same :
      (fake : Prefix) (used : List Prefix) (o : Option Prefix)
      → show_prefix (masked fake) ≡ p.dns.fake_ip_range
      → (choose_4 show_prefix fake used p (given_or p.tun.ipv4 o)).1 ≡ p
  unfolding choose_4 choose_6 given_or
  choose_4-same fake used o e =
      rw (h.has_4, h.has_6)
        (subst (λ z. (check_tun show_prefix fake h.a h.b z).1 ≡ z) restored
          (check_tun-same fake h.a h.b e))
    where
      restored : p ≡ record p { tun = record p.tun { ipv4 = some h.a; ipv6 = some h.b } }
      restored =
          ap (λ x. record p { tun = record p.tun { ipv4 = x } }) h.has_4
          ∙ ap (λ x. record p { tun = record p.tun { ipv4 = some h.a; ipv6 = x } }) h.has_6

  with_fake-same :
      (used : List Prefix) (fake : Prefix)
      → show_prefix (masked fake) ≡ p.dns.fake_ip_range
      → (with_fake show_prefix used p (some fake)).1 ≡ p
  unfolding with_fake
  with_fake-same used fake e =
      if-both {A = Option TunError × Plan} (λ x. x.1 ≡ p) (not (good_fake fake)) _ _ refl
        (if-both {A = Option TunError × Plan} (λ x. x.1 ≡ p) (any_overlaps fake used) _ _ refl
          (choose_4-same fake (used ++ fake ∷ []) _ e))

  module _ (parse_prefix : String → Option Prefix)
      (reads : (q : Prefix) → parse_prefix (show_prefix (masked q)) ≡ some (masked q))
      (prints : (q : Prefix) → str_eq (show_prefix q) "" ≡ false) where
    pool_read : parse_prefix (fake_range_text p.dns.fake_ip_range) ≡ some (masked h.fake)
    unfolding fake_range_text
    pool_read = rw (h.has_pool, prints (masked h.fake)) (reads h.fake)

    with_used-same : (o : Option (List Prefix)) → (with_used parse_prefix show_prefix p o).1 ≡ p
    unfolding with_used
    with_used-same none = refl
    with_used-same (some used) =
        rw pool_read (
          with_fake-same used (masked h.fake)
            (ap show_prefix (masked_idem h.fake) ∙ sym h.has_pool))

    with_addrs-same : (o : Option (List String)) → (with_addrs parse_prefix show_prefix p o).1 ≡ p
    unfolding with_addrs
    with_addrs-same none = refl
    with_addrs-same (some addrs) = with_used-same (parse_all parse_prefix addrs)

if_enabled : {A : Type 0} (b : Bool) (x y : A) → b ≡ true → (if not b then x else y) ≡ y
if_enabled true x y h = refl
if_enabled false x y h = ground arith

-- Restarts retain what `PrepareTun` has chosen: if it succeeds on an enabled adapter, a later call on the
-- plan that it leaves, whatever the interfaces are by then and whether or not it succeeds, leaves the
-- addresses, the pool, the device and the rest of the plan as they are, provided that
-- `netip.ParsePrefix` reads back a masked prefix that `Prefix.String` has printed, and no prefix is
-- printed as the empty text.
pub prepare_tun-retains :
    (parse_prefix : String → Option Prefix) (show_prefix : Prefix → String)
    → ((q : Prefix) → parse_prefix (show_prefix (masked q)) ≡ some (masked q))
    → ((q : Prefix) → str_eq (show_prefix q) "" ≡ false)
    → (addrs again : Option (List String)) (p q : Plan) → p.tun.enabled ≡ true
    → prepare_tun parse_prefix show_prefix addrs p ≡ (none, q)
    → (prepare_tun parse_prefix show_prefix again q).1 ≡ q
unfolding prepare_tun OnSuccess
prepare_tun-retains parse_prefix show_prefix reads prints addrs again p q enabled h =
    if-both {A = Option TunError × Plan} (λ x. x.1 ≡ q) (not q.tun.enabled) _ _ refl
      (with_addrs-same show_prefix q settled parse_prefix reads prints again)
  where
    settled : Settled show_prefix q
    settled =
        subst (OnSuccess (Settled show_prefix)) (sym (if_enabled p.tun.enabled _ _ enabled) ∙ h)
          (with_addrs-Settled parse_prefix show_prefix p addrs)
