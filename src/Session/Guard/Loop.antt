-- ===== src/Session/Guard/Loop.antt =====
-- core/session/guard.go: which parts `Apply` and `Restore` of a `compositeGuard` count and put in force.
use sora_client.Prelude.{
  ℕ, zero, suc, ◌+◌, ◌≡◌, refl, sym, ◌∙◌, ap, inl, inr, true, ◌||◌, Option, none, some, arith, List,
  [], ◌∷◌, ◌==◌, ◌⊎◌, ◌≢◌, take, length, Bool-cases,
}
use sora_client.Errs.{Err}
use sora_client.Session.World.{Settings}
use sora_client.Session.Guard.{
  apply_part, PartEnv, Composite, in_force, join_errors, first_error, backwards, ask, roll_back,
  apply_loop, apply, restore,
}
use sora_client.Session.Guard.Rollback.{contains, restore_each-in_force_le}

-- Only parts of the composite are in force.
abbrev pub IsKnown : Composite → Type 0
IsKnown c = (p : ℕ) → in_force p c.trace ≡ true → contains p c.parts ≡ true

pub take-all : (n : ℕ) (xs : List ℕ) → n ≡ length xs → take n xs ≡ xs
take-all zero [] e = refl
take-all zero (x ∷ xs) e = absurd (omega arith)
take-all (suc n) [] e = absurd (omega arith)
take-all (suc n) (x ∷ xs) e = ap (λ l. x ∷ l) (take-all n xs (omega arith))

module _ (env : PartEnv) where
  roll_back-keeps :
      (err : Err) (n : ℕ) (c : Composite)
      → ((roll_back env err n c).1.parts ≡ c.parts)
        × ((p : ℕ) → in_force p (roll_back env err n c).1.trace ≡ true → in_force p c.trace ≡ true)
  unfolding roll_back
  roll_back-keeps err n c =
      (refl, λ p f. restore_each-in_force_le env join_errors (backwards n c.parts) none c.trace p f)

  pub restore-keeps :
      (c : Composite)
      → ((restore env c).1.parts ≡ c.parts)
        × ((p : ℕ) → in_force p (restore env c).1.trace ≡ true → in_force p c.trace ≡ true)
  unfolding restore
  restore-keeps c = (
    refl,
    λ p f. restore_each-in_force_le env first_error (backwards c.active c.parts) none c.trace p f,
  )

  pub restore-failed :
      (c : Composite) (e : Err) → (restore env c).0 ≡ some e → (restore env c).1.active ≡ c.active
  unfolding restore
  restore-failed c e h = go (restore env c).0 h
    where
      go : (o : Option Err) → o ≡ some e → (elim o [ none ↦ 0 | some a ↦ c.active ]) ≡ c.active
      go none n = ground arith
      go (some a) n = refl

  -- One round of the loop of `Apply`.
  asked : Settings → ℕ → ℕ → Composite → Composite
  asked x q applied c = record c {
    trace = (apply_part q x, env.answer c.trace (apply_part q x)) ∷ c.trace;
    active = applied + 1;
  }

  apply_loop-some :
      (x : Settings) (q : ℕ) (rest : List ℕ) (applied : ℕ) (c : Composite)
      → ((env.answer c.trace (apply_part q x) ≡ none)
          × (apply_loop env x (q ∷ rest) applied c
              ≡ apply_loop env x rest (applied + 1) (asked x q applied c)))
        ⊎ ((err : Err) × (apply_loop env x (q ∷ rest) applied c
              ≡ roll_back env err (applied + 1) (asked x q applied c)))
  unfolding apply_loop ask asked
  apply_loop-some x q rest applied c = go (env.answer c.trace (apply_part q x)) _ _
    where
      go :
          (e : Option Err) (more : Option Err × Composite) (f : Err → Option Err × Composite)
          → ((e ≡ none) × ((elim e [ none ↦ more | some err ↦ f err ]) ≡ more))
            ⊎ ((err : Err) × ((elim e [ none ↦ more | some err ↦ f err ]) ≡ f err))
      go none more f = inl (refl, refl)
      go (some err) more f = inr (err, refl)

  asked-in_force :
      (x : Settings) (q applied : ℕ) (c : Composite) (p : ℕ)
      → in_force p (asked x q applied c).trace ≡ ((p == q) || in_force p c.trace)
  unfolding asked
  asked-in_force x q applied c p = ground arith

  asked-parts :
      (x : Settings) (q applied : ℕ) (c : Composite) → (asked x q applied c).parts ≡ c.parts
  unfolding asked
  asked-parts x q applied c = refl

  apply_loop-keeps :
      (x : Settings) (rest ps : List ℕ) (applied : ℕ) (c : Composite)
      → c.parts ≡ ps
      → ((p : ℕ) → contains p rest ≡ true → contains p ps ≡ true)
      → ((p : ℕ) → in_force p c.trace ≡ true → contains p ps ≡ true)
      → ((apply_loop env x rest applied c).1.parts ≡ ps)
        × ((p : ℕ)
            → in_force p (apply_loop env x rest applied c).1.trace ≡ true
            → contains p ps ≡ true)
  unfolding apply_loop
  apply_loop-keeps x [] ps applied c e h k = (e, k)
  apply_loop-keeps x (q ∷ rest) ps applied c e h k = elim (apply_loop-some x q rest applied c) [
    | inl (ok, s) ↦ rw s (
        apply_loop-keeps x rest ps (applied + 1) (asked x q applied c)
          (asked-parts x q applied c ∙ e) (λ p l. h p (ground arith)) known)
    | inr (err, s) ↦ rw s (
        let b = roll_back-keeps err (applied + 1) (asked x q applied c) in
        (b.0 ∙ (asked-parts x q applied c ∙ e), λ p f. known p (b.1 p f)))
  ]
    where
      known : (p : ℕ) → in_force p (asked x q applied c).trace ≡ true → contains p ps ≡ true
      known p f =
          let g = sym (asked-in_force x q applied c p) ∙ f in
          elim (Bool-cases (p == q)) [ inl s ↦ h p (ground arith) | inr s ↦ k p (ground arith) ]

  roll_back-fails : (err : Err) (n : ℕ) (c : Composite) → (roll_back env err n c).0 ≢ none
  unfolding roll_back
  roll_back-fails err n c h = cc

  apply_loop-all :
      (x : Settings) (rest : List ℕ) (applied : ℕ) (c : Composite)
      → (apply_loop env x rest applied c).0 ≡ none
      → ((apply_loop env x rest applied c).1.active ≡ applied + length rest)
        × ((p : ℕ)
            → (contains p rest || in_force p c.trace) ≡ true
            → in_force p (apply_loop env x rest applied c).1.trace ≡ true)
  unfolding apply_loop
  apply_loop-all x [] applied c h = (omega arith, λ p f. f)
  apply_loop-all x (q ∷ rest) applied c h = elim (apply_loop-some x q rest applied c) [
    | inl (ok, s) ↦
        let ih =
          apply_loop-all x rest (applied + 1) (asked x q applied c) (sym (ap (λ r. r.0) s) ∙ h) in
        rw s (
          ih.0 ∙ omega arith,
          λ p f. ih.1 p (let g = asked-in_force x q applied c p in ground arith),
        )
    | inr (err, s) ↦
        absurd (roll_back-fails err (applied + 1) (asked x q applied c) (sym (ap (λ r. r.0) s) ∙ h))
  ]

  pub apply-keeps :
      (x : Settings) (c : Composite)
      → IsKnown c
      → ((apply env x c).1.parts ≡ c.parts) × IsKnown (apply env x c).1
  unfolding apply
  apply-keeps x c k =
      let b = apply_loop-keeps x c.parts c.parts 0 c refl (λ p l. l) k in
      (b.0, λ p f. rw b.0 (b.1 p f))

  pub apply-all :
      (x : Settings) (c : Composite)
      → (apply env x c).0 ≡ none
      → ((apply env x c).1.active ≡ length c.parts)
        × ((p : ℕ) → contains p c.parts ≡ true → in_force p (apply env x c).1.trace ≡ true)
  unfolding apply
  apply-all x c h =
      let b = apply_loop-all x c.parts 0 c h in (b.0 ∙ omega arith, λ p l. b.1 p (ground arith))
