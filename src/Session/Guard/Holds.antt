-- ===== src/Session/Guard/Holds.antt =====
-- core/session/guard.go: what the calls of a session let it conclude of a `compositeGuard`.
use sora_client.Prelude.{ℕ, ◌≡◌, true, false, Option, List, [], ◌∷◌}
use sora_client.Errs.{Err}
use sora_client.Session.World.{
  Settings, Call, guard_apply, guard_restore, Hold, clear, held, partial, doubtful, lost,
}
use sora_client.Session.Guard.{PartEnv, Composite, in_force, apply, restore}
use sora_client.Session.Guard.Rollback.{contains, IsOwned}

-- What a session may ask of its guard.
pub data Request : Type 0 where
  protect : Settings → Request
  release : Request

-- The calls that a session made of its guard, with their answers, and the guard.
abbrev pub Guarded : Type 0
Guarded = List (Call × Option Err) × Composite

abbrev pub request : PartEnv → Request → Guarded → Guarded
request env (protect x) (t, c) = let (e, c1) = apply env x c in ((guard_apply x, e) ∷ t, c1)
request env release (t, c) = let (e, c1) = restore env c in ((guard_restore, e) ∷ t, c1)

-- The requests, the last one first.
abbrev pub serve : PartEnv → List Request → Guarded → Guarded
serve env [] g = g
serve env (r ∷ rs) g = request env r (serve env rs g)

-- What the answers say of the parts.
abbrev pub Holds : Hold → Composite → Type 0
Holds clear c = (p : ℕ) → in_force p c.trace ≡ false
Holds held c = IsOwned c × ((p : ℕ) → contains p c.parts ≡ true → in_force p c.trace ≡ true)
Holds partial c = IsOwned c
Holds doubtful c = IsOwned c
Holds lost c = Unit
