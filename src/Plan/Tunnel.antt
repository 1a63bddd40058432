-- ===== src/Plan/Tunnel.antt =====
-- core/engine/tun.go: the addresses of the virtual adapter. An address is its number, with its family;
-- `parse_prefix` and `show_prefix` are `netip.ParsePrefix` and `Prefix.String`.
pub mod Kept
use sora_client.Prelude.{
  ℕ, zero, suc, ◌-◌, ◌*◌, ◌/◌, ◌%◌, ◌^◌, min, String, Bool, true, false, ◌||◌, ◌&&◌, not, Option,
  none, some, List, [], ◌∷◌, ◌++◌, leb, ltb, ◌==◌, if◌then◌else◌, str_eq, any,
}
use sora_client.Plan.Names.{mem}
use sora_client.Plan.Model.{Plan, Prefix, Tun, Dns}

abbrev pub v4 : ℕ → ℕ → Prefix
v4 addr bits = record { is_4 = true; addr = addr; bits = bits }

abbrev pub v6 : ℕ → ℕ → Prefix
v6 addr bits = record { is_4 = false; addr = addr; bits = bits }

-- `tunPools4` and `tunPools6`, as `netip.ParsePrefix` reads them.
abbrev pub tun_pools_4 : List Prefix
tun_pools_4 = v4 3221225985 30 ∷ v4 3221225989 30 ∷ v4 3221225993 30 ∷ []

abbrev pub tun_pools_6 : List Prefix
tun_pools_6 =
    v6 42540766437047219924530961922991849473 126
    ∷ v6 42540766437048428850350576552166555649 126
    ∷ v6 42540766437049637776170191181341261825 126
    ∷ []

abbrev pub width : Bool → ℕ
width true = 32
width false = 128

-- The first `bits` bits of an address.
unfoldable pub leading : Bool → ℕ → ℕ → ℕ
leading is_4 bits addr = addr / 2 ^ (width is_4 - bits)

abbrev pub same_family : Bool → Bool → Bool
same_family true b = b
same_family false b = not b

-- `Prefix.Overlaps`, on valid prefixes.
unfoldable pub overlaps : Prefix → Prefix → Bool
overlaps p q =
    let bits = min p.bits q.bits in
    same_family p.is_4 q.is_4 && leading p.is_4 bits p.addr == leading p.is_4 bits q.addr

-- `Prefix.Masked`
unfoldable pub masked : Prefix → Prefix
masked p = record p { addr = leading p.is_4 p.bits p.addr * 2 ^ (width p.is_4 - p.bits) }

-- Whether an address of a family lies in a network.
abbrev pub inside : Prefix → Bool → ℕ → Bool
inside p is_4 addr =
    same_family p.is_4 is_4 && leading is_4 p.bits addr == leading is_4 p.bits p.addr

-- `Addr.Unmap`: the IPv4 address inside an IPv6 address.
abbrev pub is_mapped : Bool → ℕ → Bool
is_mapped is_4 addr = not is_4 && addr / 2 ^ 32 == 65535

abbrev pub unmap_addr : Bool → ℕ → ℕ
unmap_addr is_4 addr = if is_mapped is_4 addr then addr % 2 ^ 32 else addr

-- `IsLoopback`, `IsMulticast` or `IsLinkLocalUnicast`, of an unmapped address.
unfoldable pub is_local : Bool → ℕ → Bool
is_local is_4 addr =
    inside (v4 2130706432 8) is_4 addr
    || inside (v4 3758096384 4) is_4 addr
    || inside (v4 2851995648 16) is_4 addr
    || inside (v6 1 128) is_4 addr
    || inside (v6 338953138925153547590470800371487866880 8) is_4 addr
    || inside (v6 338288524927261089654018896841347694592 10) is_4 addr

-- `IsGlobalUnicast`
unfoldable pub is_global_unicast : Bool → ℕ → Bool
is_global_unicast is_4 addr =
    not (addr == 0)
    && not (is_4 && addr == 4294967295)
    && not (is_local (is_4 || is_mapped is_4 addr) (unmap_addr is_4 addr))

-- `IsPrivate`, of an unmapped address.
unfoldable pub is_private_unmapped : Bool → ℕ → Bool
is_private_unmapped is_4 addr =
    inside (v4 167772160 8) is_4 addr
    || inside (v4 2886729728 12) is_4 addr
    || inside (v4 3232235520 16) is_4 addr
    || inside (v6 334965454937798799971759379190646833152 7) is_4 addr

abbrev pub is_private : Bool → ℕ → Bool
is_private is_4 addr = is_private_unmapped (is_4 || is_mapped is_4 addr) (unmap_addr is_4 addr)

-- `!address.IsGlobalUnicast() || address.IsPrivate()` is false.
unfoldable pub is_public : Prefix → Bool
is_public p = is_global_unicast p.is_4 p.addr && not (is_private p.is_4 p.addr)

-- The errors of `PrepareTun`.
pub data TunError : Type 0 where
  no_plan no_interfaces bad_interface bad_fake fake_overlaps all_taken bad_adapters : TunError
  not_public : TunError

unfoldable pub any_overlaps : Prefix → List Prefix → Bool
any_overlaps p [] = false
any_overlaps p (q ∷ qs) = overlaps p q || any_overlaps p qs

-- `chooseTunPrefix`
unfoldable pub choose_tun_prefix : List Prefix → List Prefix → Option Prefix
choose_tun_prefix [] used = none
choose_tun_prefix (p ∷ ps) used =
    let later = choose_tun_prefix ps used in if any_overlaps p used then later else some p

-- The addresses of the interfaces; `none` is one that cannot be parsed.
unfoldable pub parse_all : (String → Option Prefix) → List String → Option (List Prefix)
parse_all parse_prefix [] = some []
parse_all parse_prefix (t ∷ ts) = cons_parsed (parse_prefix t) (parse_all parse_prefix ts)
  where
    cons_parsed : Option Prefix → Option (List Prefix) → Option (List Prefix)
    cons_parsed (some p) (some ps) = some (p ∷ ps)
    cons_parsed _ _ = none

abbrev pub benchmark : Prefix
benchmark = v4 3323068416 15

unfoldable pub fake_range_text : String → String
fake_range_text t = if str_eq t "" then "198.18.0.0/16" else t

-- The pool of fake addresses lies in the benchmark range.
unfoldable pub good_fake : Prefix → Bool
good_fake f = f.is_4 && not (ltb f.bits 15) && inside benchmark f.is_4 f.addr

-- A given prefix, or one that is chosen from the pools.
unfoldable pub given_or : Option Prefix → Option Prefix → Option Prefix
given_or (some p) chosen = some p
given_or none chosen = chosen

unfoldable pub good_adapters : Prefix → Prefix → Prefix → Bool
good_adapters fake a b =
    not (overlaps a fake) && a.is_4 && not b.is_4 && a.bits == 30 && b.bits == 126

unfoldable pub device_of : String → String
device_of name = if str_eq name "" then "sora0" else name

-- The last assignments.
unfoldable pub finish_tun : (Prefix → String) → Prefix → Plan → Plan
finish_tun show_prefix fake p = record p {
  tun = record p.tun { device_name = device_of p.tun.device_name };
  dns = record p.dns { fake_ip_range = show_prefix (masked fake) };
}

unfoldable pub check_tun :
    (Prefix → String) → Prefix → Prefix → Prefix → Plan → Option TunError × Plan
check_tun show_prefix fake a b p =
    if not (good_adapters fake a b)
    then (some TunError.bad_adapters, p)
    else if not (is_public a && is_public b)
    then (some TunError.not_public, p)
    else (none, finish_tun show_prefix fake p)

-- The choice of the IPv6 prefix, after `a` has been chosen.
unfoldable pub choose_6 :
    (Prefix → String) → Prefix → Prefix → Plan → Option Prefix → Option TunError × Plan
choose_6 show_prefix fake a p none = (some TunError.all_taken, p)
choose_6 show_prefix fake a p (some b) =
    check_tun show_prefix fake a b (record p { tun = record p.tun { ipv6 = some b } })

unfoldable pub choose_4 :
    (Prefix → String) → Prefix → List Prefix → Plan → Option Prefix → Option TunError × Plan
choose_4 show_prefix fake used p none = (some TunError.all_taken, p)
choose_4 show_prefix fake used p (some a) =
    choose_6 show_prefix fake a (record p { tun = record p.tun { ipv4 = some a } })
      (given_or p.tun.ipv6 (choose_tun_prefix tun_pools_6 used))

unfoldable pub with_fake :
    (Prefix → String) → List Prefix → Plan → Option Prefix → Option TunError × Plan
with_fake show_prefix used p none = (some TunError.bad_fake, p)
with_fake show_prefix used p (some fake) =
    if not (good_fake fake)
    then (some TunError.bad_fake, p)
    else if any_overlaps fake used
    then (some TunError.fake_overlaps, p)
    else choose_4 show_prefix fake (used ++ fake ∷ []) p
        (given_or p.tun.ipv4 (choose_tun_prefix tun_pools_4 (used ++ fake ∷ [])))

unfoldable pub with_used :
    (String → Option Prefix)
    → (Prefix → String)
    → Plan
    → Option (List Prefix)
    → Option TunError × Plan
with_used parse_prefix show_prefix p none = (some TunError.bad_interface, p)
with_used parse_prefix show_prefix p (some used) =
    with_fake show_prefix used p (parse_prefix (fake_range_text p.dns.fake_ip_range))

unfoldable pub with_addrs :
    (String → Option Prefix)
    → (Prefix → String)
    → Plan
    → Option (List String)
    → Option TunError × Plan
with_addrs parse_prefix show_prefix p none = (some TunError.no_interfaces, p)
with_addrs parse_prefix show_prefix p (some addrs) =
    with_used parse_prefix show_prefix p (parse_all parse_prefix addrs)

-- `PrepareTun`, on a plan that is not nil; `addrs` is what `net.InterfaceAddrs` answers, as texts.
unfoldable pub prepare_tun :
    (String → Option Prefix)
    → (Prefix → String)
    → Option (List String)
    → Plan
    → Option TunError × Plan
prepare_tun parse_prefix show_prefix addrs p =
    if not p.tun.enabled then (none, p) else with_addrs parse_prefix show_prefix p addrs

-- `Addresses`
unfoldable pub or_first : Option Prefix → Prefix → Prefix
or_first (some p) q = p
or_first none q = q

unfoldable pub adapter_4 : Tun → Prefix
adapter_4 t = or_first t.ipv4 (v4 3221225985 30)

unfoldable pub adapter_6 : Tun → Prefix
adapter_6 t = or_first t.ipv6 (v6 42540766437047219924530961922991849473 126)

unfoldable pub tun_addresses : (Prefix → String) → Tun → List String
tun_addresses show_prefix t = show_prefix (adapter_4 t) ∷ show_prefix (adapter_6 t) ∷ []

-- `Networks`
unfoldable pub tun_networks : Tun → List Prefix
tun_networks t = if not t.enabled then [] else masked (adapter_4 t) ∷ masked (adapter_6 t) ∷ []
