-- ===== src/Session/Manager/Runs.antt =====
-- core/session/manager.go: what holds after any sequence of requests and background rounds.
use sora_client.Prelude.{Bool, List, [], ◌∷◌}
use sora_client.Session.World.{Settings, Env, World}
use sora_client.Session.Runner.{Config}
use sora_client.Session.Supervise.{Input}
use sora_client.Session.Manager.{Manager, connect, disconnect, background, switch}

-- What clients ask of a manager, and what its session's loop receives.
pub data Op : Type 0 where
  connects : Config → Settings → Op
  disconnects : Op
  switches : Bool → Op
  rounds : Input → Op

module _ (env : Env) where
  unfoldable pub apply : Op → Manager → Manager
  apply (connects config x) m = (connect env config x m).1
  apply disconnects m = (disconnect env m).1
  apply (switches enabled) m = (switch env enabled m).1
  apply (rounds i) m = background env i m

  unfoldable pub run : List Op → Manager → Manager
  unfolding apply
  run [] m = m
  run (o ∷ rest) m = run rest (apply o m)
