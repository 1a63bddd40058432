-- ===== src/Session/Notices.antt =====
-- core/session/runner.go: what the background loop of a session publishes about the engine's events,
-- its counters and its fallback groups.
use sora_client.Prelude.{
  ℕ, String, Bool, false, ◌||◌, Option, none, some, List, [], ◌∷◌, map, if◌then◌else◌, str_eq, ltb,
  ◌==◌,
}
use sora_client.Errs.{unavailable, Code, Key, Err}
use sora_client.Errs.Line.{cat, trim_space}
use sora_client.Engine.Events
use sora_client.Engine.Events.{GroupStatus, state_text}
use sora_client.Session.Journal.{
  Event, ProbeOutcome, zero_event, counters_event, log_event, probe_event, error_event, group_event,
}
use sora_client.Session.World.{Env, eng_counters, eng_groups}
use sora_client.Session.Runner.{Sys, call, log_append, code_of, key_of}

-- The loop's own variables: the last member of each watched group, and whether it has returned.
pub record Loop : Type 0 where
  pub sys : Sys
  pub fallbacks : List (String × String)
  pub ended : Bool

abbrev pub key_engine_stopped : Key
key_engine_stopped = "core.engine.stopped"

-- `last[k]`, with the flag that tells an absent key.
unfoldable pub lookup : String → List (String × String) → Option String
lookup k [] = none
lookup k ((j, v) ∷ rest) = if str_eq j k then some v else lookup k rest

unfoldable pub assign : String → String → List (String × String) → List (String × String)
assign k v [] = []
assign k v ((j, w) ∷ rest) = (j, if str_eq j k then v else w) ∷ assign k v rest

-- `g.LatencyMS[name]`: 0 where there is no entry.
unfoldable pub latency : String → List (String × ℕ) → ℕ
latency k [] = 0
latency k ((j, v) ∷ rest) = if str_eq j k then v else latency k rest

-- The loop of `probeOutcomeOf`: the first entry that is the selected member.
probe_loop : GroupStatus → List (String × ℕ) → ProbeOutcome
probe_loop g [] = record { server_id = g.name; reachable = false; latency_ms = 0; err = none }
probe_loop g ((name, ms) ∷ rest) =
    if str_eq name g.selected || str_eq g.selected ""
    then record { server_id = name; reachable = ltb 0 ms; latency_ms = ms; err = none }
    else probe_loop g rest

unfoldable pub probe_outcome_of : Option GroupStatus → Option ProbeOutcome
unfolding probe_loop
probe_outcome_of none = none
probe_outcome_of (some g) = some (probe_loop g g.latency_ms)

-- The groups that are watched, none of them seen yet.
unfoldable pub watched : List String → List (String × String)
watched names = map (λ g. (g, "")) names

unfoldable pub forget : List (String × String) → List (String × String)
forget last = map (λ (g, _). (g, "")) last

module _ (env : Env) where
  state_line : Events.Event → String
  state_line ev =
      let name : String = elim ev.state [ none ↦ "" | some st ↦ state_text st ] in
      env.mask (trim_space (cat name (cat " " ev.message)))

  abbrev pub reason_of : Option Err → Code
  reason_of none = unavailable
  reason_of (some e) = code_of env e

  abbrev pub reason_key : Option Err → Key
  reason_key none = key_engine_stopped
  reason_key (some e) = key_of env e

  probe_of : Events.Event → Event → Event
  probe_of ev out = elim ev.group [
    | none ↦ record out { kind = probe_event }
    | some g ↦ record out { kind = probe_event; probe = probe_outcome_of (some g); detail = g.name }
  ]

  -- The `switch` of `publishEngineEvent`; a log line is moved to its own field.
  translate : Events.EventKind → Events.Event → Event
  unfolding state_line probe_of
  translate Events.state_event ev = record zero_event { kind = log_event; log_line = state_line ev }
  translate Events.log_event ev = record zero_event {
    kind = log_event;
    log_line = env.mask ev.message;
  }
  translate Events.counters_event ev = record zero_event {
    kind = counters_event;
    detail = env.mask ev.message;
    counters = record {
      bytes_up = ev.counters.bytes_up;
      bytes_down = ev.counters.bytes_down;
      active_connections = ev.counters.active_connections;
      at = ev.counters.at;
    };
  }
  translate Events.group_event ev = probe_of ev (record zero_event { detail = env.mask ev.message })
  translate Events.restart_event ev =
      probe_of ev (record zero_event { detail = env.mask ev.message })
  translate Events.engine_down ev = record zero_event {
    kind = error_event;
    reason = reason_of ev.err;
    key = reason_key ev.err;
    detail = env.mask ev.message;
  }
  translate Events.fatal ev = record zero_event {
    kind = error_event;
    reason = reason_of ev.err;
    key = reason_key ev.err;
    detail = env.mask ev.message;
  }

  unfoldable pub publish_engine_event : Events.Event → Sys → Sys
  unfolding translate
  publish_engine_event ev s = log_append env (translate ev.kind ev) s

  publish : Option Err × Sys → Sys
  publish (some e, s) = s
  publish (none, s) =
      log_append env (record zero_event { kind = counters_event; counters = env.counters s.world })
        s

  unfoldable pub publish_counters : Sys → Sys
  unfolding publish
  publish_counters s = publish (call env eng_counters s)

  -- One group of `noticeFallbacks`.
  unfoldable pub notice_one : GroupStatus → Loop → Loop
  unfolding latency lookup assign
  notice_one g l = elim (lookup g.name l.fallbacks) [
    | none ↦ l
    | some before ↦
        if str_eq g.selected "" || str_eq g.selected before || latency g.selected g.latency_ms == 0
        then l
        else let event = record zero_event {
          kind = group_event;
          switch = some (record { group = g.name; previous = before; selected = g.selected });
        } in
          record l {
            fallbacks = assign g.name g.selected l.fallbacks;
            sys = if str_eq before "" then l.sys else log_append env event l.sys;
          }
  ]

  unfoldable pub notice_all : List GroupStatus → Loop → Loop
  notice_all [] l = l
  notice_all (g ∷ rest) l = notice_all rest (notice_one g l)

  notice_answer : Option Err × Sys → Loop → Loop
  unfolding notice_all
  notice_answer (some e, s) l = record l { sys = s }
  notice_answer (none, s) l = notice_all (env.groups s.world) (record l { sys = s })

  unfoldable pub notice_fallbacks : Loop → Loop
  unfolding notice_answer
  notice_fallbacks l = notice_answer (call env eng_groups l.sys) l
