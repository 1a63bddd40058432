-- ===== src/Errs/Classify.antt =====
-- core/errs/classify.go: `From`, which makes a catalog error of a foreign one. The texts of errors are
-- those of the Go library; `leaf_text` gives the text of an error that wraps nothing, and `quote` is `%q`.
pub mod Private
pub mod Agrees
use sora_client.Prelude.{
  ℕ, ◌≡◌, refl, String, Bool, true, false, ◌||◌, ◌&&◌, Option, none, some, List, [], ◌∷◌, arith,
  if◌then◌else◌, str_eq,
}
use sora_client.Errs.Line.{one_line, cat}
use sora_client.Errs.{
  Code, Key, Fields, permission_denied, not_found, deadline_exceeded, cancelled, timeout,
  unavailable, tls, internal, render,
}
use sora_client.Errs.Causes.{
  Leaf, Cause, root, catalog_of, net_timeout, is_refused, is_network_failure, is_unexpected_eof,
  is_not_exist, is_permission, is_canceled, is_deadline, certificate_detail,
}
use sora_client.Errs.Catalog.{retryable_key}
use sora_client.Engine.Version.Decimal.{show}

-- `New` with a cause of this text.
unfoldable pub new_fields : Code → Key → String → Fields
new_fields c k t = record {
  code = c;
  key = k;
  detail = one_line t;
  retryable = retryable_key k;
  retry_after = 0;
}

-- The result of `fromURLError` and of `fromPathError`, from that of the cause.
unfoldable pub prefixed : String → Fields → Fields
prefixed op inner = record {
  code = inner.code;
  key = inner.key;
  detail = if str_eq inner.detail "" then op else cat op (cat ": " inner.detail);
  retryable = inner.retryable;
  retry_after = 0;
}

unfoldable pub certificate_fields : String → Fields
certificate_fields detail = record {
  code = tls;
  key = "core.tls.certificate";
  detail = detail;
  retryable = false;
  retry_after = 0;
}

unfoldable pub or_else_text : Option String → String → String
or_else_text (some t) u = t
or_else_text none u = u

unfoldable pub certificate_of : Option Leaf → Option String
certificate_of none = none
certificate_of (some l) = certificate_detail l

module _ (leaf_text : Leaf → String) (quote : String → String) where
  -- `Error`
  unfoldable pub cause_text : Cause → String
  cause_text (Cause.leaf l) = leaf_text l
  cause_text (Cause.dns t n s b w) =
      let at = if str_eq s "" then "" else cat " on " s in
      cat "lookup " (cat n (cat at (cat ": " t)))
  cause_text (Cause.catalogued f) = render f
  cause_text (Cause.wrapped t e) = cat t (cause_text e)
  cause_text (Cause.syscall_failed n e) = cat n (cat ": " (cause_text e))
  cause_text (Cause.verification e) = cat "tls: failed to verify certificate: " (cause_text e)
  cause_text (Cause.url_failed op u e) = cat op (cat " " (cat (quote u) (cat ": " (cause_text e))))
  cause_text (Cause.path_failed op p e) = cat op (cat " " (cat p (cat ": " (cause_text e))))
  cause_text (Cause.operation op a e) = cat op (cat a (cat ": " (cause_text e)))

  -- `netDetail`: of the first `net.OpError` of the chain, or else of a `net.DNSError` at its end.
  unfoldable pub operation_detail : Cause → Option String
  operation_detail (Cause.leaf l) = none
  operation_detail (Cause.dns t n s b w) = none
  operation_detail (Cause.catalogued f) = none
  operation_detail (Cause.wrapped t e) = operation_detail e
  operation_detail (Cause.syscall_failed n e) = operation_detail e
  operation_detail (Cause.verification e) = operation_detail e
  operation_detail (Cause.url_failed op u e) = operation_detail e
  operation_detail (Cause.path_failed op p e) = operation_detail e
  operation_detail (Cause.operation op a e) = some (cat op (cat ": " (cause_text e)))

  unfoldable pub dns_detail : Cause → Option String
  dns_detail (Cause.leaf l) = none
  dns_detail (Cause.dns t n s b w) = some (if str_eq t "" then "lookup" else cat "lookup: " t)
  dns_detail (Cause.catalogued f) = none
  dns_detail (Cause.wrapped t e) = dns_detail e
  dns_detail (Cause.syscall_failed n e) = dns_detail e
  dns_detail (Cause.verification e) = dns_detail e
  dns_detail (Cause.url_failed op u e) = dns_detail e
  dns_detail (Cause.path_failed op p e) = dns_detail e
  dns_detail (Cause.operation op a e) = dns_detail e

  unfoldable pub net_detail : Cause → String
  net_detail e = or_else_text (operation_detail e) (or_else_text (dns_detail e) (cause_text e))

  -- The tests after those for a URL and a path.
  unfoldable pub from_network : Cause → Option String → Fields
  from_network e (some detail) = certificate_fields detail
  from_network e none =
      if net_timeout e
      then new_fields timeout "core.network.timeout" (net_detail e)
      else if is_refused (root e)
      then new_fields unavailable "core.network.connection_refused" (net_detail e)
      else if is_network_failure (root e) || is_unexpected_eof (root e)
      then new_fields unavailable "core.network.failed" (net_detail e)
      else if is_not_exist (root e)
      then new_fields not_found "core.generic.not_found" (cause_text e)
      else if is_permission (root e)
      then new_fields permission_denied "core.auth.permission_denied" (cause_text e)
      else new_fields internal "core.internal.unexpected" (cause_text e)

  unfoldable pub from_url_or_path : Cause → Option Fields → Option Fields → Fields
  from_url_or_path e (some u) p = u
  from_url_or_path e none (some p) = p
  from_url_or_path e none none = from_network e (certificate_of (root e))

  unfoldable pub from_foreign : Cause → Option Fields → Option Fields → Fields
  from_foreign e u p =
      if is_canceled (root e)
      then new_fields cancelled "core.request.cancelled" (cause_text e)
      else if is_deadline (root e)
      then new_fields deadline_exceeded "core.request.deadline_exceeded" (cause_text e)
      else from_url_or_path e u p

  unfoldable pub from_with : Cause → Option Fields → Option Fields × Option Fields → Fields
  from_with e (some f) r = f
  from_with e none r = from_foreign e r.0 r.1

  -- What the first URL error and the first path error of the chain give, by `From` of their causes.
  unfoldable pub inner_results : Cause → Option Fields × Option Fields
  inner_results (Cause.leaf l) = (none, none)
  inner_results (Cause.dns t n s b w) = (none, none)
  inner_results (Cause.catalogued f) = (none, none)
  inner_results (Cause.wrapped t e) = inner_results e
  inner_results (Cause.syscall_failed n e) = inner_results e
  inner_results (Cause.verification e) = inner_results e
  inner_results (Cause.url_failed op u e) =
      (some (prefixed op (from_with e (catalog_of e) (inner_results e))), (inner_results e).1)
  inner_results (Cause.path_failed op p e) =
      ((inner_results e).0, some (prefixed op (from_with e (catalog_of e) (inner_results e))))
  inner_results (Cause.operation op a e) = inner_results e

  -- `From`, on an error that is not nil.
  unfoldable pub from : Cause → Fields
  from e = from_with e (catalog_of e) (inner_results e)
