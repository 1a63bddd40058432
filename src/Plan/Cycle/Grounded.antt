-- ===== src/Plan/Cycle/Grounded.antt =====
-- core/engine/validate.go: what `groupCycle` says of the nesting of groups.
use mathlib.Core.WellFounded.{Acc}
use sora_client.Prelude.{
  ℕ, zero, suc, ◌≡◌, refl, sym, String, Bool, true, false, Option, none, some, List, [], ◌∷◌, arith,
  if◌then◌else◌, str_eq, str_eq_iff, Bool-cases, inl, inr, subst,
}
use sora_client.Plan.Names.{mem, has_key}
use sora_client.Plan.Cycle.{Members, members_of, or_next, any_member, group_cycle}

-- `m` is a group that stands directly in the group `g`.
abbrev pub Nested : Members → String → String → Type 0
Nested members m g = (has_key m members ≡ true) × (mem m (members_of members g) ≡ true)

-- Nesting goes down to the ground below a group: there is no endless chain of groups in it, one in the
-- other.
abbrev pub Grounded : Members → String → Type 0
Grounded members = Acc (Nested members)

or_next-false :
    (b : Bool) (a n : Option Bool)
    → (if b then or_next a n else n) ≡ some false
    → (n ≡ some false) × (b ≡ true → a ≡ some false)
unfolding or_next
or_next-false false a n h = (h, λ k. ground arith)
or_next-false true none n h = ground arith
or_next-false true (some true) n h = ground arith
or_next-false true (some false) n h = (h, λ k. refl)

any_member-false :
    (call : String → Option Bool) (members : Members) (ms : List String)
    → any_member call members ms ≡ some false
    → (m : String) → has_key m members ≡ true
    → mem m ms ≡ true
    → call m ≡ some false
unfolding any_member
any_member-false call members [] h m k l = ground arith
any_member-false call members (x ∷ ms) h m k l =
    let (next, here) = or_next-false (has_key x members) (call x) (any_member call members ms) h in
    elim (Bool-cases (str_eq m x)) [
      | inl e ↦
          let same = (str_eq_iff m x).0 e in
          subst (λ z. call z ≡ some false) (sym same)
            (here (subst (λ z. has_key z members ≡ true) same k))
      | inr e ↦ any_member-false call members ms next m k (ground arith)
    ]

-- A negative answer: the group is grounded.
pub group_cycle-Grounded :
    (fuel : ℕ) (members : Members) (visiting : List String) (g : String)
    → group_cycle fuel members visiting g ≡ some false
    → Grounded members g
unfolding group_cycle
group_cycle-Grounded zero members visiting g h = ground arith
group_cycle-Grounded (suc fuel) members visiting g h = Acc.intro g (λ m (k, l).
    group_cycle-Grounded fuel members (g ∷ visiting) m (
      any_member-false (λ x. group_cycle fuel members (g ∷ visiting) x) members
        (members_of members g) (ground arith) m k l))
