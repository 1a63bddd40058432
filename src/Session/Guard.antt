-- ===== src/Session/Guard.antt =====
-- core/session/guard.go: `compositeGuard`, which applies its parts in order and restores them in
-- reverse. Parts are known by numbers, and the environment answers each call of a part.
pub mod Rollback
pub mod Reapply
pub mod Loop
pub mod Holds
use sora_client.Prelude.{
  ℕ, zero, suc, ◌+◌, ◌-◌, Bool, true, false, ◌&&◌, Option, none, some, List, [], ◌∷◌, ◌++◌, ◌==◌,
  take, if◌then◌else◌, length,
}
use sora_client.Errs.{Code, Key, Err, Fields, joined, wrap, code_of, key_of}
use sora_client.Session.World.{Settings}

pub data PartCall : Type 0 where
  apply_part : ℕ → Settings → PartCall
  restore_part : ℕ → PartCall

abbrev pub Trace : Type 0
Trace = List (PartCall × Option Err)

pub record PartEnv : Type 0 where
  pub answer : Trace → PartCall → Option Err
  pub classify : Err → Fields
  pub retryable_key : Key → Bool

-- `type compositeGuard struct`, and the calls that its parts have seen, newest first.
pub record Composite : Type 0 where
  pub parts : List ℕ
  pub active : ℕ
  pub trace : Trace

-- A part whose last successful restore is older than its last attempt to apply it, failed or not.
abbrev pub in_force : ℕ → Trace → Bool
in_force p [] = false
in_force p ((apply_part q x, e) ∷ t) = if p == q then true else in_force p t
in_force p ((restore_part q, none) ∷ t) = if p == q then false else in_force p t
in_force p ((restore_part q, some e) ∷ t) = in_force p t

-- `errors.Join` of two errors, where nil errors are dropped.
abbrev pub join_errors : Option Err → Option Err → Option Err
join_errors none e = e
join_errors (some a) none = some a
join_errors (some a) (some b) = some (joined a b)

-- `if err != nil && first == nil`
abbrev pub first_error : Option Err → Option Err → Option Err
first_error (some a) e = some a
first_error none e = e

-- The parts with an index below `n`, from the last to the first.
unfoldable pub backwards : ℕ → List ℕ → List ℕ
backwards zero parts = []
backwards (suc n) [] = []
backwards (suc n) (p ∷ rest) = backwards n rest ++ p ∷ []

module _ (env : PartEnv) where
  unfoldable pub ask : PartCall → Trace → Option Err × Trace
  ask c t = let e = env.answer t c in (e, (c, e) ∷ t)

  -- Restores each part in turn, whatever the others answer; `merge` collects the errors.
  unfoldable pub restore_each :
      (Option Err → Option Err → Option Err) → List ℕ → Option Err → Trace → Option Err × Trace
  unfolding ask
  restore_each merge [] err t = (err, t)
  restore_each merge (p ∷ rest) err t =
      let (e, t') = ask (restore_part p) t in restore_each merge rest (merge err e) t'

  -- Part `active - 1` did not apply: it and all before it are rolled back.
  unfoldable pub roll_back : Err → ℕ → Composite → Option Err × Composite
  unfolding restore_each
  roll_back err active c =
      let (rollback, t) = restore_each join_errors (backwards active c.parts) none c.trace in
      let cause : Err = elim rollback [ none ↦ err | some r ↦ joined err r ] in
      (
        some (wrap env.retryable_key cause (code_of env.classify err) (key_of env.classify err)),
        record c { trace = t; active = elim rollback [ none ↦ 0 | some r ↦ active ] },
      )

  -- The loop of `Apply` over the parts that are left.
  unfoldable pub apply_loop : Settings → List ℕ → ℕ → Composite → Option Err × Composite
  unfolding ask roll_back
  apply_loop x [] applied c = (none, record c { active = applied })
  apply_loop x (p ∷ rest) applied c =
      let (e, t) = ask (apply_part p x) c.trace in
      let c1 = record c { trace = t; active = applied + 1 } in
      let more = apply_loop x rest (applied + 1) c1 in
      elim e [ none ↦ more | some err ↦ roll_back err (applied + 1) c1 ]

  -- `Apply`
  unfoldable pub apply : Settings → Composite → Option Err × Composite
  unfolding apply_loop
  apply x c = apply_loop x c.parts 0 c

  -- `Restore`
  unfoldable pub restore : Composite → Option Err × Composite
  unfolding restore_each
  restore c =
      let (first, t) = restore_each first_error (backwards c.active c.parts) none c.trace in
      (first, record c { trace = t; active = elim first [ none ↦ 0 | some e ↦ c.active ] })
