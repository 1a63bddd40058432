-- ===== src/Session/Guard/Reapply.antt =====
-- core/session/guard.go: an `Apply` over settings that are already in force.
use sora_client.Prelude.{ℕ, ◌≡◌, ◌≢◌, true, none, some, arith, List, ◌∷◌}
use sora_client.Errs.{Err}
use sora_client.Session.World.{Settings}
use sora_client.Session.Guard.{
  apply_part, restore_part, Trace, PartEnv, in_force, backwards, ask, apply, restore,
}

module _ (env : PartEnv) where
  -- If the first part refuses new settings and is rolled back, the composite forgets the others:
  -- a part that was in force stays in force, the next `Restore` calls nothing, and it reports success.
  pub reapply-forgets :
      (x : Settings) (p q : ℕ) (rest : List ℕ) (active : ℕ) (t : Trace) (e : Err)
      → p ≢ q
      → in_force q t ≡ true
      → env.answer t (apply_part p x) ≡ some e
      → env.answer ((apply_part p x, some e) ∷ t) (restore_part p) ≡ none
      → let c = (apply env x (record { parts = p ∷ rest; active = active; trace = t })).1 in
        (in_force q c.trace ≡ true)
        × ((restore env c).0 ≡ none)
        × ((restore env c).1.trace ≡ c.trace)
  unfolding apply restore backwards ask
  reapply-forgets x p q rest active t e ne f refused back = ground arith
