-- ===== src/Session/Manager/Connects.antt =====
-- core/session/manager.go: a `Connect` that returns no error has brought its session up.
use sora_client.Prelude.{arith, ◌≡◌, refl, true, Option, none, some, inl, inr, Bool-cases}
use sora_client.Errs.{Err}
use sora_client.Session.State.{Status, connected}
use sora_client.Session.World.{
  Settings, Env, World, context_err, eng_validate, plan_validate, factory, prepare_tun,
}
use sora_client.Session.Runner.{Config}
use sora_client.Session.Notices.{Loop}
use sora_client.Session.Guarding.{start-connects}
use sora_client.Session.Manager.{
  Manager, enter, ask, stop_loop, start_loop, new_session, discard, keep_failed, started,
  start_created, stopped_previous, replace, checked, connect_built, built, prepared, unlock,
  connect,
}

-- The session is connected.
abbrev pub IsUp : Option Loop → Type 0
IsUp none = ⊥
IsUp (some l) = l.sys.session.state ≡ connected

abbrev Delivers : Option Err × Manager → Type 0
Delivers (none, m) = IsUp m.current
Delivers (some e, m) = Unit

module _ (env : Env) where
  keep_failed-Delivers :
      (r : Option Err × Loop) (e : Err) (status : Status) (m : Manager)
      → Delivers (keep_failed env r e status m)
  unfolding keep_failed
  keep_failed-Delivers (none, l) e status m = tt
  keep_failed-Delivers (some x, l) e status m = tt

  started-Delivers :
      (r : Option Err × Loop) (m : Manager)
      → (r.0 ≡ none → r.1.sys.session.state ≡ connected)
      → Delivers (started env r m)
  unfolding started
  started-Delivers (none, l) m h = h refl
  started-Delivers (some e, l) m h = keep_failed-Delivers (stop_loop env l) e l.sys.session.status m

  start_created-Delivers :
      (config : Config) (x : Settings) (m : Manager) → Delivers (start_created env config x m)
  unfolding start_created start_loop new_session
  start_created-Delivers config x m =
      started-Delivers (start_loop env created) (record m { current = none })
        (start-connects env created.sys refl)
    where
      created : Loop
      created = new_session env config x m.journal_capacity m.world

  stopped_previous-Delivers :
      (r : Option Err × Loop) (config : Config) (x : Settings) (m : Manager)
      → Delivers (stopped_previous env r config x m)
  unfolding stopped_previous discard
  stopped_previous-Delivers (some e, l) config x m = tt
  stopped_previous-Delivers (none, l) config x m =
      start_created-Delivers config x
        (record m { world = l.sys.world; last = l.sys.session.status })

  replace-Delivers :
      (o : Option Loop) (config : Config) (x : Settings) (m : Manager)
      → Delivers (replace env o config x m)
  unfolding replace
  replace-Delivers none config x m = start_created-Delivers config x m
  replace-Delivers (some l) config x m =
      stopped_previous-Delivers (stop_loop env (enter m.world l)) config x m

  checked-Delivers :
      (r : Option Err × World) (as_error : Err → Err) (m : Manager)
      (rest : Manager → Option Err × Manager)
      → ((m' : Manager) → Delivers (rest m'))
      → Delivers (checked env r as_error m rest)
  unfolding checked discard
  checked-Delivers (some e, w) as_error m rest k = tt
  checked-Delivers (none, w) as_error m rest k = k (record m { world = w })

  connect_built-Delivers :
      (config : Config) (x : Settings) (m : Manager) → Delivers (connect_built env config x m)
  unfolding connect_built
  connect_built-Delivers config x m = checked-Delivers (ask env plan_validate m.world) _ m _ λ m1.
      checked-Delivers (ask env eng_validate m1.world) _ m1 _ λ m2.
        checked-Delivers (ask env context_err m2.world) _ m2 _
          λ m3. replace-Delivers m3.current config x m3

  built-Delivers :
      (r : Option Err × World) (config : Config) (x : Settings) (m : Manager)
      → Delivers (built env r config x m)
  unfolding built
  built-Delivers (some e, w) config x m = tt
  built-Delivers (none, w) config x m = connect_built-Delivers config x (record m { world = w })

  prepared-Delivers :
      (r : Option Err × World) (config : Config) (x : Settings) (m : Manager)
      → Delivers (prepared env r config x m)
  unfolding prepared
  prepared-Delivers (some e, w) config x m = tt
  prepared-Delivers (none, w) config x m =
      built-Delivers (ask env factory w) config x (record m { world = w })

  unlock-Delivers : (r : Option Err × Manager) → Delivers r → Delivers (unlock env r)
  unfolding unlock
  unlock-Delivers (none, m) h = h
  unlock-Delivers (some e, m) h = tt

  connect-Delivers :
      (config : Config) (x : Settings) (m : Manager) → Delivers (connect env config x m)
  unfolding connect
  connect-Delivers config x m = elim (Bool-cases m.busy) [
    | inl b ↦ simp b tt
    | inr b ↦ simp b (
        unlock-Delivers
          (prepared env (ask env prepare_tun m.world) config x (record m { busy = true }))
          (prepared-Delivers (ask env prepare_tun m.world) config x (record m { busy = true })))
  ]

  Delivers-IsUp : (r : Option Err × Manager) → Delivers r → r.0 ≡ none → IsUp r.1.current
  Delivers-IsUp (none, m) d e = d
  Delivers-IsUp (some x, m) d e = absurd (ground arith)

  -- A `Connect` that returns no error leaves a current session, and that session is connected.
  pub connect-IsUp :
      (config : Config) (x : Settings) (m : Manager)
      → (connect env config x m).0 ≡ none
      → IsUp (connect env config x m).1.current
  connect-IsUp config x m ok =
      Delivers-IsUp (connect env config x m) (connect-Delivers config x m) ok
