-- ===== src/Plan/Select.antt =====
-- core/engine/catalog.go: the choice of the engine that carries a plan. `tun_routes` says whether
-- core/engine/catalog_linux.go is compiled in, and `none` stands for a nil pointer.
pub mod Fitness
pub mod Recent
pub mod Offered
pub mod Carries
pub mod First
use sora_client.Prelude.{
  ℕ, ◌≡◌, refl, String, Bool, true, false, ◌||◌, ◌&&◌, not, Option, none, some, List, [], ◌∷◌, ◌++◌,
  arith, if◌then◌else◌, str_eq, length,
}
use sora_client.Errs.Line.{cat, join}
use sora_client.Engine.Version.{Version, less}
use sora_client.Engine.Version.Decimal.{show}
use sora_client.Engine.Version.Parse.{parse_version}
use sora_client.Plan.Names.{lookup}
use sora_client.Plan.Model.{Plan, Kind}
use sora_client.Plan.Needs.{is_empty}
use sora_client.Plan.Catalog.{Capabilities, catalog, build_capabilities, missing}

pub record Availability : Type 0 where
  pub kind : Kind
  pub path : String
  pub version : Version
  pub usable : Bool
  pub reason : String
  pub build_tags : List String

pub record Selection : Type 0 where
  pub kind : Kind
  pub reason : String
  pub rejected : List String

-- What `SelectEngine` returns: an error for a plan that no engine is asked about, the chosen engine, or
-- an error with the reasons of all engines.
pub data Outcome : Type 0 where
  nil_plan no_outbounds : Outcome
  chosen : Selection → Outcome
  no_engine : List String → Outcome

-- `byKind`, in which a later build replaces an earlier one of the same kind.
unfoldable pub by_kind : List Availability → List (Kind × Availability) → List (Kind × Availability)
by_kind [] m = m
by_kind (a ∷ rest) m = by_kind rest ((a.kind, a) ∷ m)

unfoldable pub older_than : Version → Option Version → Bool
older_than v none = false
older_than v (some lowest) = less v lowest

-- `err == nil && avail.Version.Less(lowest)`
unfoldable pub too_old : Capabilities → Version → Bool
too_old caps v = older_than v (parse_version caps.min_version)

unfoldable pub why_unusable : String → String
why_unusable r = if str_eq r "" then "not installed" else r

unfoldable pub lacks : Kind → List String → Option String
lacks k missed =
    if is_empty missed then none else some (cat k (cat ": cannot carry " (join ", " missed)))

unfoldable pub refused_build : Kind → Plan → Capabilities → Version → Option String
refused_build k p caps v =
    if too_old caps v
    then some (cat k (cat ": version " (cat v.raw (cat " is older than " caps.min_version))))
    else lacks k (missing caps p)

unfoldable pub refused_usable : Kind → Plan → Availability → Option Capabilities → Option String
refused_usable k p a none = some (cat k ": no capability matrix")
refused_usable k p a (some caps) =
    refused_build k p (build_capabilities caps a.version a.build_tags) a.version

unfoldable pub refused : Bool → Kind → Plan → Option Availability → Option String
refused tun_routes k p none = some (cat k ": not installed")
refused tun_routes k p (some a) =
    if a.usable
    then refused_usable k p a (lookup k (catalog tun_routes))
    else some (cat k (cat ": " (why_unusable a.reason)))

unfoldable pub reason_of : Kind → Plan → String
reason_of k p = cat k (
    cat " carries " (
      cat (show (length p.outbounds))
        (cat " outbounds and " (cat (show (length p.groups)) " groups"))))

-- The loop over the preference, with the reasons so far; `r` is what the loop says of each kind.
unfoldable pub select_loop : (Kind → Option String) → Plan → List Kind → List String → Outcome
select_loop r p [] rejected = no_engine rejected
select_loop r p (k ∷ ks) rejected = elim (r k) [
  | none ↦ chosen (record { kind = k; reason = reason_of k p; rejected = rejected })
  | some why ↦ select_loop r p ks (rejected ++ why ∷ [])
]

-- `SelectEngine`
unfoldable pub select_engine : Bool → Option Plan → List Availability → List Kind → Outcome
select_engine tun_routes none available preference = nil_plan
select_engine tun_routes (some p) available preference =
    if is_empty p.outbounds
    then no_outbounds
    else select_loop (λ k. refused tun_routes k p (lookup k (by_kind available []))) p preference []
