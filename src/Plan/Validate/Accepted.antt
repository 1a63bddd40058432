-- ===== src/Plan/Validate/Accepted.antt =====
-- core/engine/validate.go: what an accepted plan is like.
use sora_client.Prelude.{
  ℕ, ◌≤◌, ◌≡◌, refl, sym, ap, ◌∙◌, String, Bool, true, false, ◌||◌, not, some, List, [], ◌∷◌, ◌++◌,
  arith, ltb, length, if◌then◌else◌, str_eq, str_eq_iff, All, All-map, All-both, Bool-cases, inl,
  inr, subst,
}
use sora_client.Plan.Names.{mem, has_key}
use sora_client.Plan.Model.{Plan, Outbound, Group, Rule, max_outbounds, max_groups, max_rules}
use sora_client.Plan.Needs.{is_empty}
use sora_client.Plan.Cycle.{Members}
use sora_client.Plan.Cycle.Grounded.{Grounded}
use sora_client.Plan.Cycle.Enough.{group_cycle-decides}
use sora_client.Plan.Fields.{Formats, Problem, fail_if}
use sora_client.Plan.Parts.{is_built_in_target, validate_group, validate_rule}
use sora_client.Plan.Validate.{
  ids_of, names_of, members_map, check_outbounds, check_names, check_refs, check_groups,
  check_rules, check_limits, check_profile, check_login, said_yes, is_cyclic, validate_plan,
  validate,
}

nil_parts : {A : Type 0} (xs ys : List A) → xs ++ ys ≡ [] → (xs ≡ []) × (ys ≡ [])
nil_parts [] ys h = (refl, h)
nil_parts (x ∷ xs) ys h = ground arith

fail_if-nil : (b : Bool) (e : Problem) → fail_if b e ≡ [] → b ≡ false
fail_if-nil true e h = ground arith
fail_if-nil false e h = refl

-- No text stands twice in the list.
abbrev pub Distinct : List String → Type 0
Distinct [] = Unit
Distinct (x ∷ xs) = (mem x xs ≡ false) × Distinct xs

-- No element of the first list is in the second.
Apart : List String → List String → Type 0
Apart seen xs = (y : String) → mem y seen ≡ true → mem y xs ≡ false

Apart-cons :
    (x : String) (seen xs : List String)
    → Apart (x ∷ seen) xs
    → mem x seen ≡ false
    → Apart seen (x ∷ xs)
unfolding Apart
Apart-cons x seen xs h l y k = elim (Bool-cases (str_eq y x)) [
  | inl e ↦ ground (arith, subst (λ z. mem z seen ≡ true) ((str_eq_iff y x).0 e) k)
  | inr e ↦ rw (e, h y (rw (e, k)))
]

check_outbounds-Distinct :
    (formats : Formats) (seen : List String) (os : List Outbound)
    → check_outbounds formats seen os ≡ []
    → Apart seen (ids_of os) × Distinct (ids_of os)
unfolding check_outbounds Apart
check_outbounds-Distinct formats seen [] h = (λ y k. refl, tt)
check_outbounds-Distinct formats seen (o ∷ os) h =
    let (valid, rest) = nil_parts _ _ h in
    let (fresh, later) = nil_parts _ _ rest in
    let unseen = fail_if-nil _ _ fresh in
    let (apart, distinct) = check_outbounds-Distinct formats (o.id ∷ seen) os later in
    (
      Apart-cons o.id seen (ids_of os) apart unseen,
      (apart o.id (ground (arith, str_eq_iff o.id o.id)), distinct),
    )

has_key-members_map :
    (k : String) (gs : List Group) (m : Members)
    → has_key k (members_map gs m) ≡ (mem k (names_of gs) || has_key k m)
unfolding members_map
has_key-members_map k [] m = refl
has_key-members_map k (g ∷ gs) m =
    ground (arith, has_key-members_map k gs ((g.name, g.outbounds) ∷ m))

check_refs-All :
    (ids : List String) (members : Members) (name : String) (rs : List String)
    → check_refs ids members name rs ≡ []
    → All (λ r. (mem r ids || (has_key r members || is_built_in_target r)) ≡ true) rs
unfolding check_refs
check_refs-All ids members name [] h = tt
check_refs-All ids members name (r ∷ rs) h =
    let (here, later) = nil_parts _ _ h in
    let known = fail_if-nil _ _ here in (ground arith, check_refs-All ids members name rs later)

record GroupsSound (ids : List String) (members : Members) (names : List String) (gs : List Group)
    : Type 0 where
  apart : Apart names (names_of gs)
  distinct : Distinct (names_of gs)
  refs :
      All
        (λ g.
          All (λ r. (mem r ids || (has_key r members || is_built_in_target r)) ≡ true) g.outbounds)
        gs
  acyclic : All (λ g. is_cyclic members g.name ≡ false) gs
  valid : All (λ g. validate_group g ≡ []) gs

check_groups-Sound :
    (formats : Formats) (p : Plan) (ids : List String) (members : Members) (names : List String)
    (gs : List Group)
    → check_groups formats p ids members names gs ≡ []
    → GroupsSound ids members names gs
unfolding check_groups Apart
check_groups-Sound formats p ids members names [] h = record {
  apart = λ y k. refl;
  distinct = tt;
  refs = tt;
  acyclic = tt;
  valid = tt;
}
check_groups-Sound formats p ids members names (g ∷ gs) h =
    let (valid, h1) = nil_parts _ _ h in
    let (probe, h2) = nil_parts _ _ h1 in
    let (url, h3) = nil_parts _ _ h2 in
    let (fresh, h4) = nil_parts _ _ h3 in
    let (refs, h5) = nil_parts _ _ h4 in
    let (acyclic, later) = nil_parts _ _ h5 in
    let rest = check_groups-Sound formats p ids members (g.name ∷ names) gs later in
    record {
      apart = Apart-cons g.name names (names_of gs) rest.apart (fail_if-nil _ _ fresh);
      distinct = (rest.apart g.name (ground (arith, str_eq_iff g.name g.name)), rest.distinct);
      refs = (check_refs-All ids members g.name g.outbounds refs, rest.refs);
      acyclic = (fail_if-nil _ _ acyclic, rest.acyclic);
      valid = (valid, rest.valid);
    }

target_problems-nil :
    (empty known : Bool) (e f : Problem)
    → (if empty then e ∷ [] else fail_if (not known) f) ≡ []
    → (empty ≡ false) × (known ≡ true)
target_problems-nil empty known e f h = ground arith

check_rules-All :
    (formats : Formats) (ids names : List String) (rs : List Rule)
    → check_rules formats ids names rs ≡ []
    → All
        (λ r.
          (validate_rule formats r ≡ [])
          × ((mem r.target ids || (mem r.target names || is_built_in_target r.target)) ≡ true))
        rs
unfolding check_rules
check_rules-All formats ids names [] h = tt
check_rules-All formats ids names (r ∷ rs) h =
    let (valid, h1) = nil_parts _ _ h in
    let (target, later) = nil_parts _ _ h1 in
    ((valid, ground arith), check_rules-All formats ids names rs later)

check_names-apart :
    (ids : List String) (gs : List Group)
    → check_names ids gs ≡ []
    → All (λ g. mem g.name ids ≡ false) gs
unfolding check_names
check_names-apart ids [] h = tt
check_names-apart ids (g ∷ gs) h =
    let (here, later) = nil_parts _ _ h in (fail_if-nil _ _ here, check_names-apart ids gs later)

names_of-mem : (gs : List Group) → All (λ g. mem g.name (names_of gs) ≡ true) gs
names_of-mem [] = tt
names_of-mem (g ∷ gs) = (
  ground (arith, str_eq_iff g.name g.name),
  All-map (λ k. mem k.name (names_of gs) ≡ true) (λ k. mem k.name (g.name ∷ names_of gs) ≡ true)
      (λ k l. ground arith) gs (names_of-mem gs),
)

is_cyclic-Grounded :
    (members : Members) (g : String)
    → has_key g members ≡ true
    → is_cyclic members g ≡ false
    → Grounded members g
unfolding is_cyclic said_yes
is_cyclic-Grounded members g h k =
    let (b, (answer, decided)) = group_cycle-decides members g h in
    decided.0 (sym (ap said_yes answer) ∙ k)

-- A target that a rule or a group may name: an outbound, a group or a built-in target.
abbrev pub Resolves : Plan → String → Type 0
Resolves p t =
    (mem t (ids_of p.outbounds) || (mem t (names_of p.groups) || is_built_in_target t)) ≡ true

-- A plan in which everything that is named exists once, and groups are not nested without end.
pub record WellFormed (p : Plan) : Type 0 where
  pub some_outbounds : is_empty p.outbounds ≡ false
  pub few_outbounds : length p.outbounds ≤ max_outbounds
  pub few_groups : length p.groups ≤ max_groups
  pub few_rules : length p.rules ≤ max_rules
  pub distinct_ids : Distinct (ids_of p.outbounds)
  pub distinct_names : Distinct (names_of p.groups)
  pub apart : All (λ g. mem g.name (ids_of p.outbounds) ≡ false) p.groups
  pub grounded : All (λ g. Grounded (members_map p.groups []) g.name) p.groups
  pub members : All (λ g. All (Resolves p) g.outbounds) p.groups
  pub targets : All (λ r. Resolves p r.target) p.rules

abbrev Limits : Plan → Type 0
Limits p =
    (is_empty p.outbounds ≡ false)
    × ((length p.outbounds ≤ max_outbounds)
        × ((length p.groups ≤ max_groups) × (length p.rules ≤ max_rules)))

check_limits-Limits : (p : Plan) → check_limits p ≡ [] → Limits p
unfolding check_limits
check_limits-Limits p h =
    let (session, h1) = nil_parts _ _ h in
    let (empty, h2) = nil_parts _ _ h1 in
    let (outbounds, h3) = nil_parts _ _ h2 in
    let (groups, rules) = nil_parts _ _ h3 in
    (
      fail_if-nil _ _ empty,
      (
        not_more (length p.outbounds) max_outbounds (fail_if-nil _ _ outbounds),
        (
          not_more (length p.groups) max_groups (fail_if-nil _ _ groups),
          not_more (length p.rules) max_rules (fail_if-nil _ _ rules),
        ),
      ),
    )
  where
    not_more : (n bound : ℕ) → ltb bound n ≡ false → n ≤ bound
    not_more n bound k = ground arith

module _ (p : Plan) where
  Grounded-groups :
      All (λ g. is_cyclic (members_map p.groups []) g.name ≡ false) p.groups
      → All (λ g. Grounded (members_map p.groups []) g.name) p.groups
  Grounded-groups h =
      All-map
        (λ g.
          (mem g.name (names_of p.groups) ≡ true)
          × (is_cyclic (members_map p.groups []) g.name ≡ false))
        (λ g. Grounded (members_map p.groups []) g.name)
        (λ g (k, l). is_cyclic-Grounded _ g.name (rw (has_key-members_map g.name p.groups [], k)) l)
        p.groups (All-both _ _ p.groups (names_of-mem p.groups) h)

  resolved_members :
      All
        (λ g.
          All
            (λ r.
              (mem r (ids_of p.outbounds)
                || (has_key r (members_map p.groups []) || is_built_in_target r))
              ≡ true)
            g.outbounds)
        p.groups
      → All (λ g. All (Resolves p) g.outbounds) p.groups
  resolved_members h =
      All-map _ _
        (λ g k.
          All-map _ (Resolves p) (λ r l. ground (arith, has_key-members_map r p.groups []))
            g.outbounds k)
        p.groups h

-- `Validate` accepts only well-formed plans: if it reports no problem, the plan has outbounds and keeps
-- the limits, no two outbounds share an id and no two groups a name, no group is named as an outbound,
-- every member of a group and every target of a rule is an outbound, a group or a built-in target, and
-- no endless chain of groups, one standing in the other, starts at a group of the plan.
pub validate-WellFormed :
    (formats : Formats) (p : Plan) → validate formats (some p) ≡ [] → WellFormed p
unfolding validate validate_plan
validate-WellFormed formats p h =
    let (limits, h1) = nil_parts (check_limits p) _ h in
    let (outbounds, h2) = nil_parts (check_outbounds formats [] p.outbounds) _ h1 in
    let (profile, h3) = nil_parts (check_profile p) _ h2 in
    let (names, h4) = nil_parts (check_names (ids_of p.outbounds) p.groups) _ h3 in
    let (login, h5) = nil_parts (check_login p) _ h4 in
    let (groups, h6) =
      nil_parts (check_groups formats p (ids_of p.outbounds) (members_map p.groups []) [] p.groups)
        _ h5 in
    let (rules, rest) =
      nil_parts (check_rules formats (ids_of p.outbounds) (names_of p.groups) p.rules) _ h6 in
    let sound = check_groups-Sound formats p _ _ [] p.groups groups in
    let (some_outbounds, (few_outbounds, (few_groups, few_rules))) = check_limits-Limits p limits in
    record {
      some_outbounds = some_outbounds;
      few_outbounds = few_outbounds;
      few_groups = few_groups;
      few_rules = few_rules;
      distinct_ids = (check_outbounds-Distinct formats [] p.outbounds outbounds).1;
      distinct_names = sound.distinct;
      apart = check_names-apart _ p.groups names;
      grounded = Grounded-groups p sound.acyclic;
      members = resolved_members p sound.refs;
      targets =
          All-map _ (λ r. Resolves p r.target) (λ r k. k.1) p.rules
            (check_rules-All formats _ _ p.rules rules);
    }
