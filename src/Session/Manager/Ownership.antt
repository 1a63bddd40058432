-- ===== src/Session/Manager/Ownership.antt =====
-- core/session/manager.go: the guard belongs to the manager's one session, or is not in force.
use sora_client.Prelude.{
  ℕ, ◌≡◌, refl, sym, ap, ◌∙◌, inl, inr, Bool, true, false, Option, none, some, arith, Bool-cases,
  List, ◌∷◌,
}
use sora_client.Errs.{Err}
use sora_client.Session.State.{Status}
use sora_client.Session.World.{
  guard_apply, guard_restore, eng_close, eng_validate, plan_validate, context_err, prepare_tun,
  factory, Settings, Call, Env, World, hold, in_doubt, is_free, is_full, freed,
}
use sora_client.Session.Runner.{Config}
use sora_client.Session.Notices.{Loop}
use sora_client.Session.Supervise.{Input}
use sora_client.Session.Guarding.{IsGuarded, stop-frees, stop-IsGuarded, start-IsGuarded}
use sora_client.Session.Rounds.{supervise-IsGuarded}
use sora_client.Session.Manager.{
  Manager, enter, ask, new_session, start_loop, stop_loop, discard, start_created, replace,
  keep_failed, started, stopped_previous, built, prepared, unlock, disconnect_current,
  disconnected_session, background_current, checked, connect_built, connect, disconnect, background,
}

abbrev pub Holds : Option Loop → World → Type 0
Holds none w = freed w.trace ≡ true
Holds (some l) w = IsGuarded (enter w l).sys

-- Without a session no settings are in force, and with one they are the session's, unless the guard is in
-- doubt.
abbrev pub IsManaged : Manager → Type 0
IsManaged m = Holds m.current m.world

abbrev is_guard : Call → Bool
is_guard guard_restore = true
is_guard (guard_apply x) = true
is_guard _ = false

hold_ask :
    (c : Call) (e : Option Err) (t : List (Call × Option Err))
    → is_guard c ≡ false
    → hold ((c, e) ∷ t) ≡ hold t
hold_ask c e t h = ground arith

module _ (env : Env) where
  stop_loop-holds :
      (l : Loop)
      → IsGuarded l.sys
      → IsGuarded (stop_loop env l).1.sys
        × ((stop_loop env l).0 ≡ none → freed (stop_loop env l).1.sys.world.trace ≡ true)
  unfolding stop_loop
  stop_loop-holds l g = (stop-IsGuarded env l.sys g, stop-frees env l.sys g)

  disconnected_session-Holds :
      (m : Manager) (r : Option Err × Loop)
      → IsGuarded r.1.sys
      → (r.0 ≡ none → freed r.1.sys.world.trace ≡ true)
      → Holds (disconnected_session env r m).1.current (disconnected_session env r m).1.world
  unfolding disconnected_session
  disconnected_session-Holds m (none, l) g h = h refl
  disconnected_session-Holds m (some e, l) g h = g

  disconnect_current-IsManaged :
      (o : Option Loop) (m : Manager)
      → m.current ≡ o
      → Holds o m.world
      → IsManaged (disconnect_current env o m).1
  unfolding disconnect_current
  disconnect_current-IsManaged none m e h = rw e h
  disconnect_current-IsManaged (some l) m e h =
      let g = stop_loop-holds (enter m.world l) h in
      disconnected_session-Holds m (stop_loop env (enter m.world l)) g.0 g.1

  -- Whatever happened, and with or without an error, a `Disconnect` leaves the manager managed.
  pub disconnect-IsManaged : (m : Manager) → IsManaged m → IsManaged (disconnect env m).1
  unfolding disconnect
  disconnect-IsManaged m h = elim (Bool-cases m.busy) [
    | inl b ↦ simp b h
    | inr b ↦ simp b (disconnect_current-IsManaged m.current (record m { busy = true }) refl h)
  ]

  Sure : World → Type 0
  Sure w = in_doubt (hold w.trace) ≡ false

  Holds-world :
      (o : Option Loop) (w v : World) → hold v.trace ≡ hold w.trace → Holds o w → Holds o v
  Holds-world none w v e h = ap is_free e ∙ h
  Holds-world (some l) w v e h = record {
    owned = λ a. h.owned (sym (ap is_free e) ∙ a);
    covered = λ a. ap is_full e ∙ h.covered a;
    settled = h.settled;
    resting = h.resting;
  }

  -- A call that is none of the guard's keeps the manager managed.
  asked :
      (m : Manager) (c : Call)
      → is_guard c ≡ false
      → IsManaged m
      → Holds m.current (ask env c m.world).1
  unfolding ask
  asked m c g h =
      Holds-world m.current m.world _ (hold_ask c (env.answer m.world c) m.world.trace g) h

  discard-IsManaged : (e : Err) (m : Manager) → IsManaged m → IsManaged (discard env e m).1
  unfolding discard
  discard-IsManaged e m h =
      Holds-world m.current m.world (ask env eng_close m.world).1 (unfold ask in refl) h

  new_session-IsGuarded :
      (config : Config) (x : Settings) (capacity : ℕ) (w : World)
      → freed w.trace ≡ true
      → IsGuarded (new_session env config x capacity w).sys
  unfolding new_session
  new_session-IsGuarded config x capacity w h = ground arith

  keep_failed-IsManaged :
      (r : Option Err × Loop) (e : Err) (status : Status) (m : Manager)
      → m.current ≡ none
      → IsGuarded r.1.sys × (r.0 ≡ none → freed r.1.sys.world.trace ≡ true)
      → IsManaged (keep_failed env r e status m).1
  unfolding keep_failed
  keep_failed-IsManaged (none, l) e status m c h = rw c (h.1 refl)
  keep_failed-IsManaged (some x, l) e status m c h = h.0

  started-IsManaged :
      (r : Option Err × Loop) (m : Manager)
      → m.current ≡ none
      → IsGuarded r.1.sys
      → IsManaged (started env r m).1
  unfolding started
  started-IsManaged (none, l) m c h = h
  started-IsManaged (some e, l) m c h =
      keep_failed-IsManaged (stop_loop env l) e l.sys.session.status m c (stop_loop-holds l h)

  start_created-IsManaged :
      (config : Config) (x : Settings) (m : Manager)
      → freed m.world.trace ≡ true
      → IsManaged (start_created env config x m).1
  unfolding start_created start_loop new_session
  start_created-IsManaged config x m h =
      started-IsManaged (start_loop env created) (record m { current = none }) refl
        (start-IsGuarded env created.sys refl
          (new_session-IsGuarded config x m.journal_capacity m.world h))
    where
      created : Loop
      created = new_session env config x m.journal_capacity m.world

  stopped_previous-IsManaged :
      (r : Option Err × Loop) (config : Config) (x : Settings) (m : Manager)
      → IsGuarded r.1.sys × (r.0 ≡ none → freed r.1.sys.world.trace ≡ true)
      → IsManaged (stopped_previous env r config x m).1
  unfolding stopped_previous
  stopped_previous-IsManaged (some e, l) config x m h =
      discard-IsManaged e
        (record m { current = some l; world = l.sys.world; last = l.sys.session.status }) h.0
  stopped_previous-IsManaged (none, l) config x m h =
      start_created-IsManaged config x
        (record m { world = l.sys.world; last = l.sys.session.status }) (h.1 refl)

  replace-IsManaged :
      (o : Option Loop) (config : Config) (x : Settings) (m : Manager)
      → Holds o m.world
      → IsManaged (replace env o config x m).1
  unfolding replace
  replace-IsManaged none config x m h = start_created-IsManaged config x m h
  replace-IsManaged (some l) config x m h =
      stopped_previous-IsManaged (stop_loop env (enter m.world l)) config x m
        (stop_loop-holds (enter m.world l) h)

  checked-IsManaged :
      (r : Option Err × World) (as_error : Err → Err) (m : Manager)
      (rest : Manager → Option Err × Manager)
      → Holds m.current r.1
      → ((m' : Manager) → IsManaged m' → IsManaged (rest m').1)
      → IsManaged (checked env r as_error m rest).1
  unfolding checked
  checked-IsManaged (some e, w) as_error m rest h k =
      discard-IsManaged (as_error e) (record m { world = w }) h
  checked-IsManaged (none, w) as_error m rest h k = k (record m { world = w }) h

  connect_built-IsManaged :
      (config : Config) (x : Settings) (m : Manager)
      → IsManaged m
      → IsManaged (connect_built env config x m).1
  unfolding connect_built
  connect_built-IsManaged config x m h =
      checked-IsManaged (ask env plan_validate m.world) _ m _ (asked m plan_validate refl h)
        λ m1 h1.
          checked-IsManaged (ask env eng_validate m1.world) _ m1 _ (asked m1 eng_validate refl h1)
            λ m2 h2.
              checked-IsManaged (ask env context_err m2.world) _ m2 _ (asked m2 context_err refl h2)
                λ m3 h3. replace-IsManaged m3.current config x m3 h3

  built-IsManaged :
      (r : Option Err × World) (config : Config) (x : Settings) (m : Manager)
      → Holds m.current r.1
      → IsManaged (built env r config x m).1
  unfolding built
  built-IsManaged (some e, w) config x m h = h
  built-IsManaged (none, w) config x m h =
      connect_built-IsManaged config x (record m { world = w }) h

  prepared-IsManaged :
      (r : Option Err × World) (config : Config) (x : Settings) (m : Manager)
      → Holds m.current r.1
      → IsManaged (prepared env r config x m).1
  unfolding prepared
  prepared-IsManaged (some e, w) config x m h = h
  prepared-IsManaged (none, w) config x m h =
      built-IsManaged (ask env factory w) config x (record m { world = w })
        (asked (record m { world = w }) factory refl h)

  -- A `Connect`, on every path, with or without an error, leaves the manager managed: the settings
  -- in force are those of its session, and without a session none are.
  pub connect-IsManaged :
      (config : Config) (x : Settings) (m : Manager)
      → IsManaged m
      → IsManaged (connect env config x m).1
  unfolding connect unlock
  connect-IsManaged config x m h = elim (Bool-cases m.busy) [
    | inl b ↦ simp b h
    | inr b ↦ simp b (
        prepared-IsManaged (ask env prepare_tun m.world) config x (record m { busy = true })
          (asked m prepare_tun refl h))
  ]

  background_current-IsManaged :
      (i : Input) (o : Option Loop) (m : Manager)
      → m.current ≡ o
      → Holds o m.world
      → IsManaged (background_current env i o m)
  unfolding background_current
  background_current-IsManaged i none m e h = rw e h
  background_current-IsManaged i (some l) m e h = supervise-IsGuarded env i (enter m.world l) h

  pub background-IsManaged :
      (i : Input) (m : Manager) → IsManaged m → IsManaged (background env i m)
  unfolding background
  background-IsManaged i m h = background_current-IsManaged i m.current m refl h
