-- ===== src/Session/Ordering.antt =====
-- core/session/runner.go: the order in which `Start` and `Stop` call the engine and the guard.
use sora_client.Prelude.{
  ◌≡◌, false, ◌&&◌, not, Option, none, arith, List, [], ◌∷◌, ◌++◌, if◌then◌else◌, str_eq,
}
use sora_client.Errs.{Err}
use sora_client.Session.State.{disconnected, can_transition}
use sora_client.Session.World.{
  Env, Call, eng_validate, eng_apply, eng_stop, eng_close, unsubscribe, guard_apply, guard_restore,
  tun_up,
}
use sora_client.Session.Runner.{
  Sys, call, read_clock, log_append, set_state_locked, settings_locked, restore_guard,
}
use sora_client.Session.Lifecycle.{start, stop}

abbrev pub calls : List (Call × Option Err) → List Call
calls [] = []
calls ((c, e) ∷ t) = c ∷ calls t

module _ (env : Env) where
  -- The first `Stop` stops the engine before it restores the guard, restores the guard exactly if the
  -- session owns it, and closes the engine last, whatever any of them answers.
  pub stop_order :
      (s : Sys)
      → s.session.stopping ≡ false
      → calls (stop env s).1.world.trace
        ≡ eng_close ∷ (if s.session.engine_sub then unsubscribe ∷ [] else [])
          ++ (if s.session.guard_applied then guard_restore ∷ [] else [])
          ++ eng_stop ∷ calls s.world.trace
  unfolding stop restore_guard call set_state_locked log_append read_clock can_transition
  stop_order s h = ground arith

  -- A `Start` of a disconnected session that returns no error validates the plan, then applies the
  -- guard, then the engine, and last waits for the adapter if the plan names one.
  pub start_order :
      (s : Sys)
      → s.session.state ≡ disconnected
      → (start env s).0 ≡ none
      → calls (start env s).1.world.trace
        ≡ (if s.session.config.tun_enabled && not (str_eq s.session.config.tun_device "")
            then tun_up s.session.config.tun_device ∷ []
            else [])
          ++ eng_apply
            ∷ guard_apply (settings_locked env s.session)
            ∷ eng_validate
            ∷ calls s.world.trace
  unfolding start restore_guard call set_state_locked log_append read_clock can_transition
      settings_locked
  start_order s d h = ground arith
