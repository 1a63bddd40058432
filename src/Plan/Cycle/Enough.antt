-- ===== src/Plan/Cycle/Enough.antt =====
-- core/engine/validate.go: `groupCycle` returns, and its answer is right: more fuel than there are
-- groups is enough, since no call is made for a group that is being visited.
use mathlib.Core.WellFounded.Acc
use sora_client.Prelude.{
  ℕ, zero, suc, ◌<◌, ◌≤◌, ◌≡◌, refl, sym, ◌↔◌, ◌⊎◌, String, Bool, true, false, Option, none, some,
  List, [], ◌∷◌, arith, if◌then◌else◌, str_eq, str_eq_iff, Bool-cases, inl, inr, subst, length,
}
use sora_client.Plan.Names.{mem, has_key}
use sora_client.Plan.Cycle.{Members, members_of, or_next, any_member, group_cycle}
use sora_client.Plan.Cycle.Grounded.{Nested, Grounded, group_cycle-Grounded}

-- How many entries of the map are not being visited.
left : Members → List String → ℕ
left [] visiting = 0
left ((k, ms) ∷ rest) visiting = let n = left rest visiting in if mem k visiting then n else suc n

left_le :
    (g : String) (members : Members) (visiting : List String)
    → left members (g ∷ visiting) ≤ left members visiting
unfolding left
left_le g [] visiting = omega arith
left_le g ((k, ms) ∷ rest) visiting = ground (arith, left_le g rest visiting)

left_lt :
    (g : String) (members : Members) (visiting : List String)
    → has_key g members ≡ true
    → mem g visiting ≡ false
    → left members (g ∷ visiting) < left members visiting
unfolding left
left_lt g [] visiting h l = ground arith
left_lt g ((k, ms) ∷ rest) visiting h l = elim (Bool-cases (str_eq g k)) [
  | inl e ↦
      let same = (str_eq_iff g k).0 e in
      let fresh = subst (λ z. mem z visiting ≡ false) same l in
      rw (fresh, (str_eq_iff k g).1 (sym same)) (omega (arith, left_le g rest visiting))
  | inr e ↦ ground (arith, left_lt g rest visiting (ground arith) l)
]

left-nil : (members : Members) → left members [] ≡ length members
unfolding left
left-nil [] = refl
left-nil ((k, ms) ∷ rest) = omega (arith, left-nil rest)

some-or_next : (a n : Bool) → (b : Bool) × (or_next (some a) (some n) ≡ some b)
unfolding or_next
some-or_next true n = (true, refl)
some-or_next false n = (n, refl)

any_member-some :
    (call : String → Option Bool) (members : Members) (ms : List String)
    → ((m : String) → has_key m members ≡ true → (b : Bool) × (call m ≡ some b))
    → (b : Bool) × (any_member call members ms ≡ some b)
unfolding any_member or_next
any_member-some call members [] h = (false, refl)
any_member-some call members (m ∷ ms) h =
    let (n, next) = any_member-some call members ms h in
    elim (Bool-cases (has_key m members)) [
      | inl e ↦
          let (a, here) = h m e in let (b, both) = some-or_next a n in (b, rw (e, here, next) both)
      | inr e ↦ (n, rw (e, next))
    ]

group_cycle-some :
    (fuel : ℕ) (members : Members) (visiting : List String) (g : String)
    → has_key g members ≡ true
    → left members visiting < fuel
    → (b : Bool) × (group_cycle fuel members visiting g ≡ some b)
unfolding group_cycle
group_cycle-some zero members visiting g h l = absurd (omega arith)
group_cycle-some (suc fuel) members visiting g h l = elim (Bool-cases (mem g visiting)) [
  | inl e ↦ (true, rw e)
  | inr e ↦
      let (b, found) =
        any_member-some (λ m. group_cycle fuel members (g ∷ visiting) m) members
          (members_of members g)
          (λ m k.
            group_cycle-some fuel members (g ∷ visiting) m k
              (omega (arith, left_lt g members visiting h e))) in
      (b, rw (e, found))
]

-- `m` stands in `g`, directly or in a group of it.
data Inside (members : Members) (m : String) : String → Type 0 where
  one : {g : String} → Nested members m g → Inside members m g
  deeper : {x g : String} → Inside members m x → Nested members x g → Inside members m g

Inside-trans :
    {members : Members} {m x g : String}
    → Inside members m x
    → Inside members x g
    → Inside members m g
Inside-trans i (one n) = deeper i n
Inside-trans i (deeper j n) = deeper (Inside-trans i j) n

or_next-true :
    (b : Bool) (a n : Option Bool)
    → (if b then or_next a n else n) ≡ some true
    → ((b ≡ true) × (a ≡ some true)) ⊎ (n ≡ some true)
unfolding or_next
or_next-true false a n h = inr h
or_next-true true none n h = ground arith
or_next-true true (some true) n h = inl (refl, refl)
or_next-true true (some false) n h = inr h

any_member-true :
    (call : String → Option Bool) (members : Members) (ms : List String)
    → any_member call members ms ≡ some true
    → (m : String) × ((has_key m members ≡ true) × ((mem m ms ≡ true) × (call m ≡ some true)))
unfolding any_member or_next
any_member-true call members [] h = ground arith
any_member-true call members (m ∷ ms) h =
    elim (or_next-true (has_key m members) (call m) (any_member call members ms) h) [
      | inl (k, e) ↦ (m, (k, (ground (arith, str_eq_iff m m), e)))
      | inr e ↦
          let (x, (k, (l, f))) = any_member-true call members ms e in (x, (k, (ground arith, f)))
    ]

-- A positive answer: some group stands in itself, and it is the group or stands in it.
group_cycle-Inside :
    (fuel : ℕ) (members : Members) (visiting : List String) (g : String)
    → ((v : String) → mem v visiting ≡ true → Inside members g v)
    → group_cycle fuel members visiting g ≡ some true
    → (x : String) × (Inside members x x × ((x ≡ g) ⊎ Inside members x g))
unfolding group_cycle
group_cycle-Inside zero members visiting g h l = ground arith
group_cycle-Inside (suc fuel) members visiting g h l = elim (Bool-cases (mem g visiting)) [
  | inl e ↦ (g, (h g e, inl refl))
  | inr e ↦
      let (m, (k, (listed, found))) =
        any_member-true (λ x. group_cycle fuel members (g ∷ visiting) x) members
          (members_of members g) (ground arith) in
      let (x, (loop, place)) =
        group_cycle-Inside fuel members (g ∷ visiting) m (above g visiting m (k, listed) h) found in
      (x, (loop, inr (within (k, listed) place)))
]
  where
    above :
        {members : Members} (g : String) (visiting : List String) (m : String)
        → Nested members m g
        → ((v : String) → mem v visiting ≡ true → Inside members g v)
        → (v : String) → mem v (g ∷ visiting) ≡ true
        → Inside members m v
    above {members = members} g visiting m n h v l = elim (Bool-cases (str_eq v g)) [
      | inl e ↦ subst (Inside members m) (sym ((str_eq_iff v g).0 e)) (one n)
      | inr e ↦ Inside-trans (one n) (h v (ground arith))
    ]

    within :
        {members : Members} {x m g : String}
        → Nested members m g
        → (x ≡ m) ⊎ Inside members x m
        → Inside members x g
    within {members = members} {g = g} n (inl e) = one (subst (λ z. Nested members z g) (sym e) n)
    within n (inr i) = deeper i n

-- A grounded group neither stands in itself nor holds a group that does.
Grounded-irrefl : {members : Members} {g : String} → Grounded members g → Inside members g g → ⊥
Grounded-irrefl (Acc.intro g below) (one n) = Grounded-irrefl (below g n) (one n)
Grounded-irrefl (Acc.intro g below) (deeper {x = x} i n) =
    Grounded-irrefl (below x n) (Inside-trans (one n) i)

Grounded-Inside :
    {members : Members} {x g : String}
    → Grounded members g
    → Inside members x g
    → Grounded members x
Grounded-Inside (Acc.intro g below) (one n) = below _ n
Grounded-Inside (Acc.intro g below) (deeper i n) = Grounded-Inside (below _ n) i

group_cycle-not_Grounded :
    (fuel : ℕ) (members : Members) (g : String)
    → group_cycle fuel members [] g ≡ some true
    → Grounded members g
    → ⊥
group_cycle-not_Grounded fuel members g h grounded =
    let (x, (loop, place)) = group_cycle-Inside fuel members [] g (λ v l. ground arith) h in
    elim place [
      | inl e ↦ Grounded-irrefl (subst (Grounded members) (sym e) grounded) loop
      | inr i ↦ Grounded-irrefl (Grounded-Inside grounded i) loop
    ]

-- `groupCycle` returns for every group of the map, and it decides whether the group is grounded: fuel
-- for one call more than the map has entries is enough to get an answer, and the answer is no if and only
-- if no endless chain of groups, one standing in the other, starts at the group.
pub group_cycle-decides :
    (members : Members) (g : String)
    → has_key g members ≡ true
    → (b : Bool) × ((group_cycle (suc (length members)) members [] g ≡ some b)
        × ((b ≡ false) ↔ Grounded members g))
group_cycle-decides members g h =
    let (b, answer) =
      group_cycle-some (suc (length members)) members [] g h (omega (arith, left-nil members)) in
    (b, (answer, decided b answer))
  where
    decided :
        (b : Bool)
        → group_cycle (suc (length members)) members [] g ≡ some b
        → (b ≡ false) ↔ Grounded members g
    decided false answer = (λ e. group_cycle-Grounded _ members [] g answer, λ c. refl)
    decided true answer =
        (λ e. ground arith, λ c. absurd (group_cycle-not_Grounded _ members g answer c))
