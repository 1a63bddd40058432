-- ===== src/Plan/Select/First.antt =====
-- core/engine/catalog.go: `SelectEngine` takes the first engine of the preference that carries the plan.
use sora_client.Prelude.{
  ap, subst, ℕ, suc, ◌+◌, ◌≡◌, refl, sym, ◌∙◌, String, Bool, false, Option, none, some, List, [],
  ◌∷◌, ◌++◌, arith, inl, inr, Option-cases, length, length-append, All,
}
use sora_client.Plan.Model.{Plan, Kind}
use sora_client.Plan.Needs.{is_empty}
use sora_client.Plan.Select.{Availability, Outcome, reason_of, select_loop, select_engine}
use sora_client.Plan.Select.Carries.{Carries, refused-Carries, Carries-refused}

-- What a run of the loop means for a predicate `C` on kinds: the chosen kind is the first that has it,
-- and there is one reason for each kind before it.
abbrev pub IsFirst : (Kind → Type 0) → List Kind → ℕ → Outcome → Type 0
IsFirst C ks n Outcome.nil_plan = ⊥
IsFirst C ks n Outcome.no_outbounds = ⊥
IsFirst C ks n (Outcome.chosen s) =
    (before : List Kind) × ((after : List Kind) × ((ks ≡ before ++ s.kind ∷ after)
        × (All (λ k. ¬ C k) before × (C s.kind × (length s.rejected ≡ n + length before)))))
IsFirst C ks n (Outcome.no_engine why) = All (λ k. ¬ C k) ks × (length why ≡ n + length ks)

IsFirst-cons :
    (C : Kind → Type 0) (k : Kind) (ks : List Kind) (n : ℕ) (o : Outcome)
    → ¬ C k
    → IsFirst C ks (suc n) o
    → IsFirst C (k ∷ ks) n o
IsFirst-cons C k ks n Outcome.nil_plan h l = l
IsFirst-cons C k ks n Outcome.no_outbounds h l = l
IsFirst-cons C k ks n (Outcome.chosen s) h (before, (after, (e, (none_before, (c, count))))) =
    (k ∷ before, (after, (ap (λ l. k ∷ l) e, ((h, none_before), (c, omega arith)))))
IsFirst-cons C k ks n (Outcome.no_engine why) h (none_of, count) = ((h, none_of), omega arith)

module _ (r : Kind → Option String) (p : Plan) (k : Kind) (ks : List Kind)
    (rejected : List String) where
  select_loop-none :
      r k ≡ none
      → select_loop r p (k ∷ ks) rejected
        ≡ Outcome.chosen (record { kind = k; reason = reason_of k p; rejected = rejected })
  unfolding select_loop
  select_loop-none e = rw (select_loop, e)

  select_loop-some :
      (why : String)
      → r k ≡ some why
      → select_loop r p (k ∷ ks) rejected ≡ select_loop r p ks (rejected ++ why ∷ [])
  unfolding select_loop
  select_loop-some why e = rw (select_loop, e)

module _ (C : Kind → Type 0) (r : Kind → Option String) (p : Plan)
    (sound : (k : Kind) → r k ≡ none → C k) (complete : (k : Kind) → C k → r k ≡ none) where
  select_loop-IsFirst :
      (ks : List Kind) (rejected : List String)
      → IsFirst C ks (length rejected) (select_loop r p ks rejected)
  unfolding select_loop
  select_loop-IsFirst [] rejected = (tt, omega arith)
  select_loop-IsFirst (k ∷ ks) rejected = elim (Option-cases (r k)) [
    | inl e ↦
        subst (IsFirst C (k ∷ ks) (length rejected)) (sym (select_loop-none r p k ks rejected e))
          ([], (ks, (refl, (tt, (sound k e, omega arith)))))
    | inr (why, e) ↦
        let next = select_loop r p ks (rejected ++ why ∷ []) in
        subst (IsFirst C (k ∷ ks) (length rejected))
          (sym (select_loop-some r p k ks rejected why e))
          (IsFirst-cons C k ks (length rejected) next (λ c. ground (arith, complete k c))
            (subst (λ n. IsFirst C ks n next) (length-append rejected (why ∷ []) ∙ omega arith)
              (select_loop-IsFirst ks (rejected ++ why ∷ []))))
  ]

-- `SelectEngine`, for a plan with outbounds, chooses the first engine of the preference that carries the
-- plan, and reports one reason for each engine before it; it fails only if no engine of the preference
-- carries the plan, with one reason for each. To carry the plan is to have a usable build, no older than the
-- engine's least version, that supports every outbound's protocol and offers every feature that the plan
-- needs, while the engine takes the plan's stack, TLS settings and AmneziaWG settings.
pub select_engine-IsFirst :
    (tun_routes : Bool) (p : Plan) (available : List Availability) (preference : List Kind)
    → is_empty p.outbounds ≡ false
    → IsFirst
        (Carries tun_routes p available)
        preference
        0
        (select_engine tun_routes (some p) available preference)
unfolding select_engine
select_engine-IsFirst tun_routes p available preference h = rw h (
    select_loop-IsFirst (Carries tun_routes p available) _ p
      (refused-Carries tun_routes p available) (Carries-refused tun_routes p available) preference
      [])
