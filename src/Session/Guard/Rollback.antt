-- ===== src/Session/Guard/Rollback.antt =====
-- core/session/guard.go: what a restore and a rolled-back apply leave in force.
use sora_client.Prelude.{
  ℕ, zero, suc, ◌+◌, ◌≡◌, refl, sym, ◌∙◌, ap, ◌≢◌, inl, inr, Bool, true, false, ◌||◌, Option, none,
  some, arith, Option-cases, List, [], ◌∷◌, ◌++◌, map, ◌==◌, take, any, if◌then◌else◌, length,
  length-append, append_assoc,
}
use mathlib.Core.List.{reverse, reverse-cons, reverse-append, map-append}
use sora_client.Errs.{Err}
use sora_client.Session.World.{Settings}
use sora_client.Session.Guard.{
  PartCall, apply_part, restore_part, Trace, PartEnv, Composite, in_force, join_errors, first_error,
  backwards, ask, restore_each, roll_back, apply_loop, apply, restore,
}

abbrev pub calls : Trace → List PartCall
calls = map (λ (c, e). c)

abbrev pub contains : ℕ → List ℕ → Bool
contains p = any (λ q. p == q)

-- `merge` never loses an error that it already has.
abbrev Sticky : (Option Err → Option Err → Option Err) → Type 0
Sticky merge = (a : Err) (e : Option Err) → (merge (some a) e) ≢ none

-- Every part that is in force is one of the first `active`, which a restore calls.
abbrev pub IsOwned : Composite → Type 0
IsOwned c = (p : ℕ) → in_force p c.trace ≡ true → contains p (take c.active c.parts) ≡ true

contains-append :
    (p : ℕ) (xs ys : List ℕ) → contains p (xs ++ ys) ≡ (contains p xs || contains p ys)
contains-append p [] ys = refl
contains-append p (x ∷ xs) ys = ground (arith, contains-append p xs ys)

contains-backwards : (p n : ℕ) (ps : List ℕ) → contains p (backwards n ps) ≡ contains p (take n ps)
unfolding backwards
contains-backwards p zero ps = refl
contains-backwards p (suc n) [] = refl
contains-backwards p (suc n) (q ∷ rest) =
    ground (arith, contains-append p (backwards n rest) (q ∷ []), contains-backwards p n rest)

reverse-backwards :
    (n : ℕ) (ps : List ℕ)
    → reverse (map restore_part (backwards n ps)) ≡ map restore_part (take n ps)
unfolding backwards
reverse-backwards zero ps = refl
reverse-backwards (suc n) [] = refl
reverse-backwards (suc n) (q ∷ rest) = rw map-append (
    reverse-append (map restore_part (backwards n rest)) (restore_part q ∷ [])
    ∙ ap (λ l. restore_part q ∷ l) (reverse-backwards n rest))

take-prefix : (n : ℕ) (xs ys : List ℕ) → n ≡ length xs → take n (xs ++ ys) ≡ xs
take-prefix zero [] ys e = refl
take-prefix zero (x ∷ xs) ys e = absurd (omega arith)
take-prefix (suc n) [] ys e = absurd (omega arith)
take-prefix (suc n) (x ∷ xs) ys e = ap (λ l. x ∷ l) (take-prefix n xs ys (omega arith))

module _ (env : PartEnv) where
  -- A round without an error leaves none of its parts in force, and no other part differently.
  restore_each-in_force :
      (merge : Option Err → Option Err → Option Err) (ps : List ℕ) (err : Option Err) (t : Trace)
      (p : ℕ)
      → Sticky merge
      → ((e : Option Err) → merge none e ≡ e)
      → (restore_each env merge ps err t).0 ≡ none
      → (err ≡ none)
        × (in_force p (restore_each env merge ps err t).1
            ≡ (if contains p ps then false else in_force p t))
  unfolding restore_each ask
  restore_each-in_force merge [] err t p st nn h = (h, refl)
  restore_each-in_force merge (q ∷ rest) (some a) t p st nn h =
      let e = env.answer t (restore_part q) in
      absurd (
        st a e
          (restore_each-in_force merge rest (merge (some a) e) ((restore_part q, e) ∷ t) p st nn
            h).0)
  restore_each-in_force merge (q ∷ rest) none t p st nn h =
      let e = env.answer t (restore_part q) in
      let ih =
        restore_each-in_force merge rest (merge none e) ((restore_part q, e) ∷ t) p st nn h in
      ground (arith, ih, nn e)

  -- Every part is called, in the order of the list, whatever the parts before it answered.
  restore_each-calls :
      (merge : Option Err → Option Err → Option Err) (ps : List ℕ) (err : Option Err) (t : Trace)
      → calls (restore_each env merge ps err t).1 ≡ reverse (map restore_part ps) ++ calls t
  unfolding restore_each ask
  restore_each-calls merge [] err t = refl
  restore_each-calls merge (q ∷ rest) err t =
      let e = env.answer t (restore_part q) in
      restore_each-calls merge rest (merge err e) ((restore_part q, e) ∷ t)
      ∙ simp (reverse-cons, append_assoc)

  -- Restoring puts nothing in force.
  pub restore_each-in_force_le :
      (merge : Option Err → Option Err → Option Err) (ps : List ℕ) (err : Option Err) (t : Trace)
      (p : ℕ)
      → in_force p (restore_each env merge ps err t).1 ≡ true
      → in_force p t ≡ true
  unfolding restore_each ask
  restore_each-in_force_le merge [] err t p h = h
  restore_each-in_force_le merge (q ∷ rest) err t p h =
      let e = env.answer t (restore_part q) in
      ground
        (arith, restore_each-in_force_le merge rest (merge err e) ((restore_part q, e) ∷ t) p h)

  join_errors-Sticky : Sticky join_errors
  join_errors-Sticky a none = λ h. cc
  join_errors-Sticky a (some e) = λ h. cc

  first_error-Sticky : Sticky first_error
  first_error-Sticky a e = λ h. cc

  -- A rollback that succeeds leaves none of the first parts in force; one that fails keeps them.
  roll_back-IsOwned :
      (err : Err) (n : ℕ) (c : Composite)
      → ((p : ℕ) → in_force p c.trace ≡ true → contains p (take n c.parts) ≡ true)
      → IsOwned (roll_back env err n c).1
  unfolding roll_back
  roll_back-IsOwned err n c h p f =
      let r = restore_each env join_errors (backwards n c.parts) none c.trace in
      elim (Option-cases r.0) [
        | inl e ↦ absurd (
            ground (
              arith,
              (restore_each-in_force join_errors (backwards n c.parts) none c.trace p
                  join_errors-Sticky (λ e. refl) e).1,
              h p,
              contains-backwards p n c.parts,
            ))
        | inr (a, e) ↦ ground (
          arith,
          e,
          h p,
          restore_each-in_force_le join_errors (backwards n c.parts) none c.trace p f,
        )
      ]

  apply_loop-IsOwned :
      (x : Settings) (rest prefix : List ℕ) (applied : ℕ) (c : Composite)
      → c.parts ≡ prefix ++ rest
      → applied ≡ length prefix
      → ((p : ℕ) → in_force p c.trace ≡ true → contains p prefix ≡ true)
      → IsOwned (apply_loop env x rest applied c).1
  unfolding apply_loop ask
  apply_loop-IsOwned x [] prefix applied c ps n h =
      λ p f. rw (ps, take-prefix applied prefix [] n) (h p f)
  apply_loop-IsOwned x (q ∷ rest) prefix applied c ps n h =
      elim (Option-cases (env.answer c.trace (apply_part q x))) [
        | inl ok ↦ rw ok (apply_loop-IsOwned x rest grown (applied + 1) called ps' n' h')
        | inr (err, e) ↦ rw e (
            roll_back-IsOwned err (applied + 1) called
              (λ p f. rw (ps', take-prefix (applied + 1) grown rest n') (h' p f)))
      ]
    where
      called : Composite
      called = record c {
        trace = (apply_part q x, env.answer c.trace (apply_part q x)) ∷ c.trace;
        active = applied + 1;
      }

      grown : List ℕ
      grown = prefix ++ q ∷ []

      ps' : c.parts ≡ grown ++ rest
      ps' = ps ∙ sym (append_assoc prefix (q ∷ []) rest)

      n' : applied + 1 ≡ length grown
      n' = omega (arith, length-append prefix (q ∷ []))

      h' : (p : ℕ) → in_force p called.trace ≡ true → contains p grown ≡ true
      h' p f = ground (arith, h p, contains-append p prefix (q ∷ []))

  -- From a composite with nothing in force, `Apply` leaves in force only parts that the next
  -- `Restore` calls, whether it succeeds, rolls back, or fails to roll back.
  pub apply-IsOwned :
      (x : Settings) (c : Composite)
      → ((p : ℕ) → in_force p c.trace ≡ false)
      → IsOwned (apply env x c).1
  unfolding apply
  apply-IsOwned x c h =
      apply_loop-IsOwned x c.parts [] 0 c refl (omega arith) (λ p f. ground (arith, h p))

  -- A `Restore` that returns no error, of a composite that counts every part in force, leaves no part
  -- in force and none counted.
  pub restore-clears :
      (c : Composite)
      → IsOwned c
      → (restore env c).0 ≡ none
      → ((restore env c).1.active ≡ 0) × ((p : ℕ) → in_force p (restore env c).1.trace ≡ false)
  unfolding restore
  restore-clears c h ok = (
    ground arith,
    λ p. ground (
      arith,
      h p,
      contains-backwards p c.active c.parts,
      (restore_each-in_force first_error (backwards c.active c.parts) none c.trace p
          first_error-Sticky (λ e. refl) ok).1,
    ),
  )

  -- `Restore` calls every applied part, the last one first, whatever the others answer.
  pub restore_order :
      (c : Composite)
      → calls (restore env c).1.trace ≡ map restore_part (take c.active c.parts) ++ calls c.trace
  unfolding restore
  restore_order c =
      restore_each-calls first_error (backwards c.active c.parts) none c.trace
      ∙ ap (λ l. l ++ calls c.trace) (reverse-backwards c.active c.parts)
