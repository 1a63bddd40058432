-- ===== src/Errs/Catalog.antt =====
-- core/errs/catalog.go: the catalog of keys. The summaries are left out.
use Prim.Native.String.{compare}
use text.Mathlib.Text.{is_lt}
use sora_client.Prelude.{
  Bool, true, false, Option, none, some, List, [], ◌∷◌, if◌then◌else◌, str_eq,
}
use sora_client.Errs.{
  Code, Key, version_mismatch, invalid_argument, unauthenticated, permission_denied, not_found,
  failed_precondition, resource_exhausted, deadline_exceeded, cancelled, timeout, unavailable, tls,
  unsupported, internal, code_text,
}
use sora_client.Plan.Names.{lookup}

pub record Entry : Type 0 where
  pub code : Code
  pub retryable : Bool

unfoldable pub catalog_entries : List (Key × Entry)
catalog_entries =
    ("core.api.version_mismatch", record { code = version_mismatch; retryable = false })
    ∷ ("core.auth.unauthenticated", record { code = unauthenticated; retryable = false })
    ∷ ("core.auth.permission_denied", record { code = permission_denied; retryable = false })
    ∷ ("core.request.invalid", record { code = invalid_argument; retryable = false })
    ∷ ("core.request.too_large", record { code = resource_exhausted; retryable = false })
    ∷ ("core.session.unknown", record { code = not_found; retryable = false })
    ∷ ("core.session.required", record { code = failed_precondition; retryable = false })
    ∷ ("core.session.busy", record { code = failed_precondition; retryable = true })
    ∷ ("core.internal.unexpected", record { code = internal; retryable = false })
    ∷ ("core.request.cancelled", record { code = cancelled; retryable = false })
    ∷ ("core.request.deadline_exceeded", record { code = deadline_exceeded; retryable = true })
    ∷ ("core.plan.empty", record { code = invalid_argument; retryable = false })
    ∷ ("core.plan.too_large", record { code = resource_exhausted; retryable = false })
    ∷ ("core.plan.outbounds_invalid", record { code = invalid_argument; retryable = false })
    ∷ ("core.plan.duplicate_id", record { code = invalid_argument; retryable = false })
    ∷ ("core.plan.unknown_target", record { code = invalid_argument; retryable = false })
    ∷ ("core.plan.rule_invalid", record { code = invalid_argument; retryable = false })
    ∷ ("core.plan.tunnel_unsupported", record { code = invalid_argument; retryable = false })
    ∷ ("core.plan.dns_invalid", record { code = invalid_argument; retryable = false })
    ∷ ("core.plan.bypass_invalid", record { code = invalid_argument; retryable = false })
    ∷ ("core.plan.groups_invalid", record { code = invalid_argument; retryable = false })
    ∷ ("core.plan.local_proxy_invalid", record { code = invalid_argument; retryable = false })
    ∷ ("core.plan.engine_unsupported", record { code = failed_precondition; retryable = false })
    ∷ ("core.logs.unavailable", record { code = unsupported; retryable = false })
    ∷ ("core.logs.filter_invalid", record { code = invalid_argument; retryable = false })
    ∷ ("core.logs.export_failed", record { code = resource_exhausted; retryable = false })
    ∷ ("core.connections.unavailable", record { code = unsupported; retryable = false })
    ∷ ("core.subscription.duplicate", record { code = invalid_argument; retryable = false })
    ∷ ("core.subscription.not_found", record { code = not_found; retryable = false })
    ∷ ("core.subscription.limit", record { code = resource_exhausted; retryable = false })
    ∷ ("core.subscription.interval_invalid", record { code = invalid_argument; retryable = false })
    ∷ ("core.engine.binary_missing", record { code = not_found; retryable = false })
    ∷ ("core.engine.start_failed", record { code = unavailable; retryable = true })
    ∷ ("core.engine.stopped", record { code = unavailable; retryable = true })
    ∷ ("core.engine.restart_budget_spent", record { code = unavailable; retryable = true })
    ∷ ("core.subscription.empty", record { code = invalid_argument; retryable = false })
    ∷ ("core.subscription.too_large", record { code = resource_exhausted; retryable = false })
    ∷ ("core.subscription.fetch_failed", record { code = unavailable; retryable = true })
    ∷ ("core.subscription.status", record { code = unavailable; retryable = false })
    ∷ ("core.subscription.redirect_rejected", record { code = invalid_argument; retryable = false })
    ∷ ("core.subscription.scheme_unsupported", record { code = unsupported; retryable = false })
    ∷ ("core.subscription.format_unknown", record { code = unsupported; retryable = false })
    ∷ ("core.subscription.no_servers", record { code = invalid_argument; retryable = false })
    ∷ ("core.secret.reference_invalid", record { code = invalid_argument; retryable = false })
    ∷ ("core.secret.not_found", record { code = not_found; retryable = false })
    ∷ ("core.secret.too_large", record { code = resource_exhausted; retryable = false })
    ∷ ("core.secret.store_corrupt", record { code = internal; retryable = false })
    ∷ ("core.secret.store_unavailable", record { code = internal; retryable = true })
    ∷ ("core.guard.proxy_failed", record { code = internal; retryable = true })
    ∷ ("core.guard.firewall_failed", record { code = internal; retryable = true })
    ∷ ("core.guard.restore_failed", record { code = internal; retryable = true })
    ∷ ("core.probe.invalid_endpoint", record { code = invalid_argument; retryable = false })
    ∷ ("core.probe.no_endpoints", record { code = invalid_argument; retryable = false })
    ∷ ("core.probe.too_many", record { code = resource_exhausted; retryable = false })
    ∷ ("core.diagnostics.failed", record { code = internal; retryable = false })
    ∷ ("core.diagnostics.too_large", record { code = resource_exhausted; retryable = false })
    ∷ ("core.generic.not_found", record { code = not_found; retryable = false })
    ∷ ("core.network.failed", record { code = unavailable; retryable = true })
    ∷ ("core.network.timeout", record { code = timeout; retryable = true })
    ∷ ("core.network.connection_refused", record { code = unavailable; retryable = true })
    ∷ ("core.tls.certificate", record { code = tls; retryable = false })
    ∷ []

-- `Lookup`
unfoldable pub lookup_entry : Key → Option Entry
lookup_entry k = lookup k catalog_entries

unfoldable pub retryable_of : Option Entry → Bool
retryable_of none = false
retryable_of (some e) = e.retryable

-- The `Retryable` column of a key.
unfoldable pub retryable_key : Key → Bool
retryable_key k = retryable_of (lookup_entry k)

unfoldable pub insert_key_sorted : Key → List Key → List Key
insert_key_sorted k [] = k ∷ []
insert_key_sorted k (j ∷ js) =
    let later = j ∷ insert_key_sorted k js in if is_lt (compare j k) then later else k ∷ j ∷ js

unfoldable pub sorted_keys : List (Key × Entry) → List Key
sorted_keys [] = []
sorted_keys ((k, e) ∷ rest) = insert_key_sorted k (sorted_keys rest)

-- `Keys`
unfoldable pub keys : List Key
keys = sorted_keys catalog_entries

unfoldable pub has_code : Code → Option Entry → Bool
has_code c none = false
has_code c (some e) = str_eq (code_text e.code) (code_text c)

unfoldable pub first_with_code : Code → List Key → Key
first_with_code c [] = "core.internal.unexpected"
first_with_code c (k ∷ ks) =
    let later = first_with_code c ks in if has_code c (lookup_entry k) then k else later

-- `DefaultKey`
unfoldable pub default_key : Code → Key
default_key c = first_with_code c keys
