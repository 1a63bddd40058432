-- ===== src/Plan/Select/Fitness.antt =====
-- core/engine/catalog.go: the settings that an engine takes, told apart from the code.
use mathlib.Core.Bool.{true≢false}
use sora_client.Prelude.{
  zero, suc, ◌≡◌, ◌↔◌, refl, sym, ap, Bool, true, false, ◌&&◌, ◌||◌, not, Option, none, some, List,
  [], ◌∷◌, ◌⊎◌, inl, inr, arith, str_eq, any, All, Bool-cases,
}
use sora_client.Plan.Names.{str_eq_trans}
use sora_client.Plan.Model.{ℤ, Outbound, Kind, AmneziaWg, Tun}
use sora_client.Plan.Catalog.{
  Capabilities, stack_refused, insecure_tls, junk_set, has_junk, is_zero,
}

-- Xray has the stack gvisor only, and sing-box all but mips.
abbrev pub StackFits : Kind → Tun → Type 0
StackFits k t =
    (str_eq k "xray" ≡ true
      → t.enabled ≡ true
      → (str_eq t.stack "" ≡ true) ⊎ (str_eq t.stack "gvisor" ≡ true))
    × (str_eq k "sing-box" ≡ true → t.enabled ≡ true → str_eq t.stack "mips" ≡ false)

-- Certificates are verified, or there are none.
abbrev pub Verifies : Outbound → Type 0
Verifies o =
    o.tls.insecure ≡ true
    → (o.tls.reality ≡ true)
      ⊎ ((o.tls.enabled ≡ false)
          × ((str_eq o.protocol "trojan" ≡ false) × (str_eq o.protocol "hysteria2" ≡ false)))

abbrev pub NoJunk : Option AmneziaWg → Type 0
NoJunk none = Unit
NoJunk (some a) =
    (str_eq a.j1 "" ≡ true)
    × ((str_eq a.j2 "" ≡ true) × ((str_eq a.j3 "" ≡ true) × (a.itime ≡ ℤ.pos 0)))

abbrev pub TlsFits : Kind → List Outbound → Type 0
TlsFits k os = str_eq k "xray" ≡ true → All Verifies os

abbrev pub JunkFits : Kind → List Outbound → Type 0
JunkFits k os = str_eq k "sing-box" ≡ true → All (λ o. NoJunk o.amnezia) os

pub stack_iff : (c : Capabilities) (t : Tun) → (stack_refused c t ≡ false) ↔ StackFits c.kind t
unfolding stack_refused
stack_iff c t = (
  λ h. ((λ x e. ground arith), λ x e. sing h x e (Bool-cases (str_eq t.stack "mips"))),
  λ h.
      fits (str_eq c.kind "xray") (str_eq c.kind "sing-box") t.enabled (str_eq t.stack "")
        (str_eq t.stack "gvisor") (str_eq t.stack "mips") h.0 h.1,
)
  where
    sing :
        stack_refused c t ≡ false
        → str_eq c.kind "sing-box" ≡ true
        → t.enabled ≡ true
        → (str_eq t.stack "mips" ≡ true) ⊎ (str_eq t.stack "mips" ≡ false)
        → str_eq t.stack "mips" ≡ false
    sing h x e (inr m) = m
    sing h x e (inl m) = let d = str_eq_trans t.stack "mips" "" m in ground arith

    fits :
        (x s e n g m : Bool)
        → (x ≡ true → e ≡ true → (n ≡ true) ⊎ (g ≡ true))
        → (s ≡ true → e ≡ true → m ≡ false)
        → ((e && not n) && ((x && not g) || (s && m))) ≡ false
    fits x s false n g m h k = refl
    fits x s true true g m h k = refl
    fits false false true false g m h k = refl
    fits false true true false g m h k = k refl refl
    fits true false true false g m h k = let a = h refl refl in ground arith
    fits true true true false g m h k = let a = h refl refl in let b = k refl refl in ground arith

insecure_tls-Verifies : (o : Outbound) → (insecure_tls o ≡ false) ↔ Verifies o
unfolding insecure_tls
insecure_tls-Verifies o = (λ h. ground arith, λ h. fits o.tls.insecure h)
  where
    fits :
        (i : Bool)
        → (i ≡ true
            → (o.tls.reality ≡ true)
              ⊎ ((o.tls.enabled ≡ false)
                  × ((str_eq o.protocol "trojan" ≡ false)
                      × (str_eq o.protocol "hysteria2" ≡ false))))
        → (i
            && not o.tls.reality
            && (o.tls.enabled || str_eq o.protocol "trojan" || str_eq o.protocol "hysteria2"))
          ≡ false
    fits false h = ground arith
    fits true h = let a = h refl in ground arith

any_iff :
    (p : Outbound → Bool) (P : Outbound → Type 0) (os : List Outbound)
    → ((o : Outbound) → (p o ≡ false) ↔ P o)
    → (any p os ≡ false) ↔ All P os
any_iff p P [] e = (λ h. tt, λ h. refl)
any_iff p P (o ∷ os) e =
    let later = any_iff p P os e in
    (
      λ h. ((e o).0 (ground arith), later.0 (ground arith)),
      λ h. let a = (e o).1 h.0 in let b = later.1 h.1 in ground arith,
    )

guarded_iff : {P : Type 0} (b c : Bool) → (c ≡ false) ↔ P → ((b && c) ≡ false) ↔ (b ≡ true → P)
guarded_iff true c e = (λ h _. e.0 h, λ h. e.1 (h refl))
guarded_iff false c e = (λ h n. absurd (true≢false (sym n)), λ h. refl)

pub tls_iff :
    (k : Kind) (os : List Outbound)
    → ((str_eq k "xray" && any insecure_tls os) ≡ false) ↔ TlsFits k os
tls_iff k os =
    guarded_iff (str_eq k "xray") (any insecure_tls os)
      (any_iff insecure_tls Verifies os insecure_tls-Verifies)

zero_iff : (i : ℤ) → (is_zero i ≡ true) ↔ (i ≡ ℤ.pos 0)
unfolding is_zero
zero_iff (ℤ.pos zero) = (λ h. refl, λ h. refl)
zero_iff (ℤ.pos (suc n)) =
    (λ h. absurd (true≢false (sym h)), λ h. absurd (true≢false (sym (ap is_zero h))))
zero_iff (ℤ.negsuc n) =
    (λ h. absurd (true≢false (sym h)), λ h. absurd (true≢false (sym (ap is_zero h))))

junk_iff : (o : Outbound) → (has_junk o ≡ false) ↔ NoJunk o.amnezia
unfolding has_junk junk_set
junk_iff o = go o.amnezia
  where
    go :
        (a : Option AmneziaWg)
        → ((elim a [ none ↦ false | some x ↦ junk_set x ]) ≡ false) ↔ NoJunk a
    go none = (λ h. tt, λ h. refl)
    go (some a) = (
      λ h. (ground arith, (ground arith, (ground arith, (zero_iff a.itime).0 (ground arith)))),
      λ h. let z = (zero_iff a.itime).1 h.1.1.1 in ground arith,
    )

pub junks_iff :
    (k : Kind) (os : List Outbound)
    → ((str_eq k "sing-box" && any has_junk os) ≡ false) ↔ JunkFits k os
junks_iff k os =
    guarded_iff (str_eq k "sing-box") (any has_junk os)
      (any_iff has_junk (λ o. NoJunk o.amnezia) os junk_iff)
