-- ===== src/Session/Supervise.antt =====
-- core/session/runner.go and network.go: the background loop of a session. Each input is what one
-- `select` of the loop received; the fingerprint watch gives the reason of `network`.
use sora_client.Prelude.{
  String, Bool, true, false, ◌&&◌, not, Option, none, some, List, [], ◌∷◌, if◌then◌else◌, str_eq,
}
use sora_client.Errs.{no_code, unavailable, Err, newf, text}
use sora_client.Errs.Line.{cat}
use sora_client.Engine.Events
use sora_client.Engine.Events.{GroupStatus, state_text}
use sora_client.Session.State.{connected, reconnecting, same_state}
use sora_client.Session.Journal.{zero_event, log_event}
use sora_client.Session.World.{Env, eng_apply, close_connections}
use sora_client.Session.Notices.{
  Loop, key_engine_stopped, reason_of, reason_key, forget, publish_engine_event, publish_counters,
  notice_fallbacks,
}
use sora_client.Session.Runner.{
  Sys, key_start_failed, call, log_append, set_state, set_state_reconnecting, log_error, fail,
}

-- What one round of the loop receives.
pub data Input : Type 0 where
  context_done tick look events_closed : Input
  network : String → Input
  event : Events.Event → Input

module _ (env : Env) where
  reapplied : Option Err × Sys → Sys
  reapplied (none, s) = s
  reapplied (some e, s) = log_error env unavailable key_start_failed (env.mask (text e)) s

  reopen : Option Err × Sys → Sys
  unfolding reapplied
  reopen (none, s) = s
  reopen (some e, s) = reapplied (call env eng_apply s)

  unfoldable pub renew_connections : String → Sys → Sys
  unfolding reopen
  renew_connections why s =
      let s1 =
        log_append env
          (record zero_event { kind = log_event; detail = cat why "; connections reopen" }) s in
      if not (same_state s.session.state connected)
      then s
      else if env.tracks_connections
      then reopen (call env close_connections s1)
      else reapplied (call env eng_apply s1)

  is_running : Option Events.State → Bool
  is_running (some Events.running) = true
  is_running _ = false

  fatal_error : Err
  fatal_error = newf unavailable key_engine_stopped "session: the engine reported a fatal error"

  -- The `switch` on an engine event that follows its publication.
  react : Events.EventKind → Events.Event → Loop → Loop
  unfolding is_running fatal_error
  react Events.engine_down ev l = record l {
    sys = set_state_reconnecting env (reason_of env ev.err) (reason_key env ev.err) 0 l.sys;
  }
  react Events.state_event ev l =
      if is_running ev.state && same_state l.sys.session.state reconnecting
      then record l {
        fallbacks = forget l.fallbacks;
        sys = set_state env connected no_code "" "" l.sys;
      }
      else l
  react Events.fatal ev l = record l { sys = fail env fatal_error l.sys; ended = true }
  react _ ev l = l

  unfoldable pub on_event : Events.Event → Loop → Loop
  unfolding react publish_engine_event
  on_event ev l = react ev.kind ev (record l { sys = publish_engine_event env ev l.sys })

  -- One round of the loop's `select`.
  round : Input → Loop → Loop
  round context_done l = record l { ended = true }
  round events_closed l = record l { ended = true }
  round tick l = record l { sys = publish_counters env l.sys }
  round look l = if same_state l.sys.session.state connected then notice_fallbacks env l else l
  round (network why) l =
      if str_eq why "" then l else record l { sys = renew_connections why l.sys }
  round (event ev) l = on_event ev l

  -- A loop that has returned receives nothing.
  unfoldable pub supervise : Input → Loop → Loop
  unfolding round
  supervise i l = if l.ended then l else round i l

  pub supervise_all : List Input → Loop → Loop
  supervise_all [] l = l
  supervise_all (i ∷ rest) l = supervise_all rest (supervise i l)
