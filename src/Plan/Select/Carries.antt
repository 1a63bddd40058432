-- ===== src/Plan/Select/Carries.antt =====
-- core/engine/catalog.go: an engine is refused exactly if it cannot carry the plan.
use sora_client.Prelude.{
  ◌≡◌, refl, sym, ◌∙◌, String, Bool, true, false, ◌&&◌, not, Option, none, some, List, [], ◌∷◌,
  ◌++◌, arith, str_eq, str_eq_iff, any, Bool-cases, inl, inr, and_left, and_right, subst,
}
use sora_client.Engine.Version.{Version}
use sora_client.Plan.Names.{mem, lookup}
use sora_client.Plan.Model.{Plan, Outbound, Kind}
use sora_client.Plan.Needs.{
  Feature, protocols, required_features, plan_needs, mem-required_features, is_empty,
  mem-insert_key,
}
use sora_client.Plan.Catalog.{
  Capabilities, catalog, build_capabilities, missing, collect_missing, sort_strings, insert_sorted,
  lacking, when, stack_refused, insecure_tls, has_junk,
}
use sora_client.Plan.Select.Fitness.{StackFits, TlsFits, JunkFits, stack_iff, tls_iff, junks_iff}
use sora_client.Plan.Select.Recent.{IsRecent, too_old-IsRecent, build-keeps, kind_of}
use sora_client.Plan.Select.Offered.{Offers, build_capabilities-Offers}
use sora_client.Plan.Select.{
  Availability, by_kind, too_old, lacks, refused, refused_usable, refused_build,
}

-- Every element of the first list is in the second.
abbrev covered : List String → List String → Bool
covered [] have = true
covered (x ∷ xs) have = mem x have && covered xs have

is_empty-append : (xs ys : List String) → is_empty (xs ++ ys) ≡ (is_empty xs && is_empty ys)
unfolding is_empty
is_empty-append [] ys = refl
is_empty-append (x ∷ xs) ys = refl

is_empty-when : (b : Bool) (t : String) → is_empty (when b t) ≡ not b
unfolding is_empty when
is_empty-when true t = refl
is_empty-when false t = refl

is_empty-lacking :
    (t : String) (have xs : List String) → is_empty (lacking t have xs) ≡ covered xs have
unfolding is_empty lacking
is_empty-lacking t have [] = refl
is_empty-lacking t have (x ∷ xs) = ground (arith, is_empty-lacking t have xs)

is_empty-insert_sorted : (x : String) (xs : List String) → is_empty (insert_sorted x xs) ≡ false
unfolding is_empty insert_sorted
is_empty-insert_sorted x [] = refl
is_empty-insert_sorted x (y ∷ ys) = ground arith

is_empty-sort_strings : (xs : List String) → is_empty (sort_strings xs) ≡ is_empty xs
unfolding is_empty sort_strings
is_empty-sort_strings [] = refl
is_empty-sort_strings (x ∷ xs) = is_empty-insert_sorted x (sort_strings xs)

is_empty-missing :
    (c : Capabilities) (p : Plan)
    → is_empty (missing c p) ≡ (
        not (stack_refused c p.tun)
        && (not (str_eq c.kind "xray" && any insecure_tls p.outbounds)
            && (not (str_eq c.kind "sing-box" && any has_junk p.outbounds)
                && (covered (protocols p.outbounds) c.protocols
                    && covered (required_features p) c.features))))
unfolding missing collect_missing
is_empty-missing c p = rw (
  is_empty-sort_strings, is_empty-append, is_empty-when, is_empty-append, is_empty-when,
  is_empty-append, is_empty-when, is_empty-append, is_empty-lacking, is_empty-lacking,
)

not-false : (b : Bool) → not b ≡ true → b ≡ false
not-false true h = ground arith
not-false false h = refl

covered-mem :
    (x : String) (xs have : List String)
    → covered xs have ≡ true
    → mem x xs ≡ true
    → mem x have ≡ true
covered-mem x [] have h k = ground arith
covered-mem x (y ∷ ys) have h k = elim (Bool-cases (str_eq x y)) [
  | inl e ↦
      subst (λ z. mem z have ≡ true) (sym ((str_eq_iff x y).0 e)) (and_left _ (covered ys have) h)
  | inr e ↦ covered-mem x ys have (and_right (mem y have) _ h) (ground arith)
]

mem-covered :
    (xs have : List String)
    → ((x : String) → mem x xs ≡ true → mem x have ≡ true)
    → covered xs have ≡ true
mem-covered [] have h = refl
mem-covered (x ∷ xs) have h =
    rw (h x (ground (arith, str_eq_iff x x)), mem-covered xs have (λ y k. h y (ground arith)))

mem-protocols :
    (x : String) (os : List Outbound) → mem x (protocols os) ≡ any (λ o. str_eq x o.protocol) os
unfolding protocols
mem-protocols x [] = refl
mem-protocols x (o ∷ os) = rw (mem-insert_key, mem-protocols x os)

-- What no refusal means, one test after another.
found_build :
    (tun_routes : Bool) (k : Kind) (p : Plan) (o : Option Availability)
    → refused tun_routes k p o ≡ none
    → (a : Availability) × ((o ≡ some a)
        × ((a.usable ≡ true) × (refused_usable k p a (lookup k (catalog tun_routes)) ≡ none)))
unfolding refused
found_build tun_routes k p none h = ground arith
found_build tun_routes k p (some a) h = elim (Bool-cases a.usable) [
  | inl e ↦ (a, (refl, (e, ground arith)))
  | inr e ↦ ground arith
]

listed_caps :
    (k : Kind) (p : Plan) (a : Availability) (o : Option Capabilities)
    → refused_usable k p a o ≡ none
    → (u : Capabilities) × ((o ≡ some u)
        × (refused_build k p (build_capabilities u a.version a.build_tags) a.version ≡ none))
unfolding refused_usable
listed_caps k p a none h = ground arith
listed_caps k p a (some u) h = (u, (refl, h))

able_build :
    (k : Kind) (p : Plan) (c : Capabilities) (v : Version)
    → refused_build k p c v ≡ none
    → (too_old c v ≡ false) × (is_empty (missing c p) ≡ true)
unfolding refused_build lacks
able_build k p c v h = ground arith

-- An engine carries a plan: its build is usable and no older than the engine's least version, it supports
-- the protocol of every outbound and offers every feature that the plan needs, and it takes the settings.
pub record Carries (tun_routes : Bool) (p : Plan) (available : List Availability) (k : Kind)
    : Type 0 where
  pub build : Availability
  pub upstream : Capabilities
  pub found : lookup k (by_kind available []) ≡ some build
  pub usable : build.usable ≡ true
  pub listed : lookup k (catalog tun_routes) ≡ some upstream
  pub recent : IsRecent k build.version
  pub all_protocols :
      (x : String)
      → any (λ o. str_eq x o.protocol) p.outbounds ≡ true
      → mem x upstream.protocols ≡ true
  pub all_features :
      (f : Feature) → plan_needs p f ≡ true → Offers upstream build.version build.build_tags f
  pub stack : StackFits k p.tun
  pub tls : TlsFits k p.outbounds
  pub junk : JunkFits k p.outbounds

module _ (tun_routes : Bool) (p : Plan) (available : List Availability) (k : Kind) where
  covered_protocols :
      (have : List String)
      → covered (protocols p.outbounds) have ≡ true
      → (x : String) → any (λ o. str_eq x o.protocol) p.outbounds ≡ true
      → mem x have ≡ true
  covered_protocols have h x l =
      covered-mem x (protocols p.outbounds) have h (mem-protocols x p.outbounds ∙ l)

  covered_features :
      (have : List String)
      → covered (required_features p) have ≡ true
      → (f : Feature) → plan_needs p f ≡ true
      → mem f have ≡ true
  covered_features have h f l =
      covered-mem f (required_features p) have h (mem-required_features p f ∙ l)

  pub refused-Carries :
      refused tun_routes k p (lookup k (by_kind available [])) ≡ none
      → Carries tun_routes p available k
  refused-Carries h =
      let (b, (found, (usable, h1))) = found_build tun_routes k p _ h in
      let (u, (listed, h2)) = listed_caps k p b _ h1 in
      let caps = build_capabilities u b.version b.build_tags in
      let kept = build-keeps u b.version b.build_tags in
      let same = kept.1.0 ∙ kind_of tun_routes k u listed in
      let (recent, none_missing) = able_build k p caps b.version h2 in
      let all = sym (is_empty-missing caps p) ∙ none_missing in
      let after_stack = and_right (not (stack_refused caps p.tun)) _ all in
      let after_tls =
        and_right (not (str_eq caps.kind "xray" && any insecure_tls p.outbounds)) _ after_stack in
      let after_junk =
        and_right (not (str_eq caps.kind "sing-box" && any has_junk p.outbounds)) _ after_tls in
      record {
        build = b;
        upstream = u;
        found = found;
        usable = usable;
        listed = listed;
        recent = (too_old-IsRecent tun_routes k u b.version b.build_tags listed).0 recent;
        all_protocols = λ x l.
            subst (λ ps. mem x ps ≡ true) kept.1.1
              (covered_protocols caps.protocols
                (and_left _ (covered (required_features p) caps.features) after_junk) x l);
        all_features = λ f l.
            (build_capabilities-Offers u b.version b.build_tags f).0
              (covered_features caps.features (and_right _ _ after_junk) f l);
        stack =
            subst (λ j. StackFits j p.tun) same
              ((stack_iff caps p.tun).0 (not-false _ (and_left _ _ all)));
        tls =
            subst (λ j. TlsFits j p.outbounds) same
              ((tls_iff caps.kind p.outbounds).0 (not-false _ (and_left _ _ after_stack)));
        junk =
            subst (λ j. JunkFits j p.outbounds) same
              ((junks_iff caps.kind p.outbounds).0 (not-false _ (and_left _ _ after_tls)));
      }

  pub Carries-refused :
      Carries tun_routes p available k
      → refused tun_routes k p (lookup k (by_kind available [])) ≡ none
  unfolding refused refused_usable refused_build lacks
  Carries-refused c =
      let u = c.upstream in
      let b = c.build in
      let caps = build_capabilities u b.version b.build_tags in
      let kept = build-keeps u b.version b.build_tags in
      let same = sym (kept.1.0 ∙ kind_of tun_routes k u c.listed) in
      rw (
        c.found,
        c.usable,
        c.listed,
        (too_old-IsRecent tun_routes k u b.version b.build_tags c.listed).1 c.recent,
        is_empty-missing,
        (stack_iff caps p.tun).1 (subst (λ j. StackFits j p.tun) same c.stack),
        (tls_iff caps.kind p.outbounds).1 (subst (λ j. TlsFits j p.outbounds) same c.tls),
        (junks_iff caps.kind p.outbounds).1 (subst (λ j. JunkFits j p.outbounds) same c.junk),
        kept.1.1,
        mem-covered (protocols p.outbounds) _
            (λ x l. c.all_protocols x (sym (mem-protocols x p.outbounds) ∙ l)),
        mem-covered (required_features p) _ (λ f l.
            (build_capabilities-Offers u b.version b.build_tags f).1
              (c.all_features f (sym (mem-required_features p f) ∙ l))),
      )
