-- ===== src/Session/Journal/Race.antt =====
-- core/session/journal.go: the interleavings of `Append` with the cancellations that `Subscribe`
-- returns. `Append` copies the set of channels under its lock and sends after it has left it; a
-- cancellation closes its channel under the lock, and a send on a closed channel panics.
use sora_client.Prelude.{
  ℕ, ◌≡◌, Bool, true, false, ◌||◌, not, List, [], ◌∷◌, arith, ◌==◌, any, keep, if◌then◌else◌,
}

-- The channels by their identities; `pending` is what an `Append` still has to send to.
pub record Shared : Type 0 where
  pub subs : List ℕ
  pub closed : List ℕ
  pub pending : List ℕ
  pub panicked : Bool

abbrev pub member : ℕ → List ℕ → Bool
member id = any (λ k. k == id)

-- The critical section of `Append`.
unfoldable pub copy_subs : Shared → Shared
copy_subs s = record s { pending = s.subs }

-- One send after it.
unfoldable pub send : ℕ → List ℕ → Shared → Shared
send id rest s = record s { pending = rest; panicked = s.panicked || member id s.closed }

-- A cancellation; only a registered channel is closed.
unfoldable pub cancel : ℕ → Shared → Shared
cancel id s =
    if member id s.subs
    then record s { subs = keep (λ k. not (k == id)) s.subs; closed = id ∷ s.closed }
    else s

-- `Subscribe` makes a channel that was never closed.
unfoldable pub register : ℕ → Shared → Shared
register id s = record s { subs = id ∷ s.subs }

pub data Step (s : Shared) : Shared → Type 0 where
  copies : s.pending ≡ [] → Step s (copy_subs s)
  sends : (id : ℕ) (rest : List ℕ) → s.pending ≡ id ∷ rest → Step s (send id rest s)
  cancels : (id : ℕ) → Step s (cancel id s)
  registers : (id : ℕ) → member id s.closed ≡ false → Step s (register id s)

pub data Reach (s : Shared) : Shared → Type 0 where
  here : Reach s s
  next : {t u : Shared} → Reach s t → Step t u → Reach s u

-- From any state with a subscriber and no append under way there is an interleaving in which an
-- append sends on a channel that its cancellation has just closed.
pub append-may_panic :
    (id : ℕ) (rest : List ℕ) (s : Shared)
    → s.subs ≡ id ∷ rest
    → s.pending ≡ []
    → (t : Shared) × Reach s t × (t.panicked ≡ true)
unfolding copy_subs send cancel
append-may_panic id rest s e idle = (
  send id rest (cancel id (copy_subs s)),
  next (next (next here (copies idle)) (cancels id)) (sends id rest (ground arith)),
  ground arith,
)
