-- ===== src/Errs/Causes.antt =====
-- core/errs/classify.go: the errors of the Go library that `From` tells apart, and how it looks into their
-- chains. `Leaf` is an error that wraps nothing, `Cause` one with its chain.
use sora_client.Prelude.{ℕ, String, Bool, true, false, Option, none, some}
use sora_client.Errs.Line.{cat}
use sora_client.Errs.{Fields}
use sora_client.Engine.Version.Decimal.{show}

-- The numbers of the operating system.
pub data Errno : Type 0 where
  refused reset host_unreachable net_unreachable net_down timed_out pipe host_down : Errno
  no_entry no_access other_errno : Errno

-- `x509.InvalidReason`
pub data Reason : Type 0 where
  expired name_mismatch not_authorized_for_name not_authorized_to_sign incompatible_usage : Reason
  other_reason : Reason

pub data Leaf : Type 0 where
  canceled context_deadline unexpected_eof not_exist permission net_closed : Leaf
  errno : Errno → Leaf
  unknown_authority hostname insecure_algorithm record_header : Leaf
  invalid : Reason → Leaf
  alert : ℕ → Leaf
  network : String → Bool → Leaf  -- another `net.Error`: its text, and what `Timeout` answers
  other : String → Leaf

-- What ends a lookup, `UnwrapErr` of a `net.DNSError`: the context was canceled or its deadline passed.
pub data Ended : Type 0 where
  abandoned overdue : Ended

unfoldable pub ended_as : Option Ended → Option Leaf
ended_as none = none
ended_as (some Ended.abandoned) = some Leaf.canceled
ended_as (some Ended.overdue) = some Leaf.context_deadline

-- `dns`: text, name, server, timeout, and what it wraps. `operation` is `net.OpError` with an error in it,
-- its network and addresses as one text. `wrapped` is `fmt.Errorf("…%w")`.
pub data Cause : Type 0 where
  leaf : Leaf → Cause
  dns : String → String → String → Bool → Option Ended → Cause
  catalogued : Fields → Cause
  wrapped : String → Cause → Cause
  syscall_failed : String → Cause → Cause
  verification : Cause → Cause
  url_failed : String → String → Cause → Cause
  path_failed : String → String → Cause → Cause
  operation : String → String → Cause → Cause

-- The error at the end of the chain, which `errors.Is` and `errors.As` reach.
unfoldable pub root : Cause → Option Leaf
root (Cause.leaf l) = some l
root (Cause.dns t n s b w) = ended_as w
root (Cause.catalogued f) = none
root (Cause.wrapped t e) = root e
root (Cause.syscall_failed n e) = root e
root (Cause.verification e) = root e
root (Cause.url_failed op u e) = root e
root (Cause.path_failed op p e) = root e
root (Cause.operation op a e) = root e

-- `errors.As` for a catalog error.
unfoldable pub catalog_of : Cause → Option Fields
catalog_of (Cause.leaf l) = none
catalog_of (Cause.dns t n s b w) = none
catalog_of (Cause.catalogued f) = some f
catalog_of (Cause.wrapped t e) = catalog_of e
catalog_of (Cause.syscall_failed n e) = catalog_of e
catalog_of (Cause.verification e) = catalog_of e
catalog_of (Cause.url_failed op u e) = catalog_of e
catalog_of (Cause.path_failed op p e) = catalog_of e
catalog_of (Cause.operation op a e) = catalog_of e

unfoldable pub leaf_timeout : Leaf → Bool
leaf_timeout Leaf.context_deadline = true
leaf_timeout (Leaf.errno Errno.timed_out) = true
leaf_timeout (Leaf.network t b) = b
leaf_timeout l = false

-- `Timeout` of the error itself, false where it has no such method.
unfoldable pub timeout_method : Cause → Bool
timeout_method (Cause.leaf l) = leaf_timeout l
timeout_method (Cause.dns t n s b w) = b
timeout_method (Cause.catalogued f) = false
timeout_method (Cause.wrapped t e) = false
timeout_method (Cause.syscall_failed n e) = timeout_method e
timeout_method (Cause.verification e) = false
timeout_method (Cause.url_failed op u e) = timeout_method e
timeout_method (Cause.path_failed op p e) = timeout_method e
timeout_method (Cause.operation op a e) = timeout_method e

-- `errors.As` for a `net.Error`, and its `Timeout`.
unfoldable pub net_timeout : Cause → Bool
net_timeout (Cause.leaf l) = leaf_timeout l
net_timeout (Cause.dns t n s b w) = b
net_timeout (Cause.catalogued f) = false
net_timeout (Cause.wrapped t e) = net_timeout e
net_timeout (Cause.syscall_failed n e) = net_timeout e
net_timeout (Cause.verification e) = net_timeout e
net_timeout (Cause.url_failed op u e) = timeout_method e
net_timeout (Cause.path_failed op p e) = net_timeout e
net_timeout (Cause.operation op a e) = timeout_method e

-- `invalidReason`
unfoldable pub invalid_reason : Reason → String
invalid_reason Reason.expired = "it expired"
invalid_reason Reason.name_mismatch = "it is issued for another name"
invalid_reason Reason.not_authorized_for_name = "its issuer does not allow this name"
invalid_reason Reason.not_authorized_to_sign = "its issuer is not allowed to sign it"
invalid_reason Reason.incompatible_usage = "its usage does not cover this handshake"
invalid_reason Reason.other_reason = "the chain was rejected"

-- The fixed texts of `fromCertificateError`.
unfoldable pub certificate_detail : Leaf → Option String
certificate_detail Leaf.unknown_authority = some "the certificate is signed by an unknown authority"
certificate_detail Leaf.hostname = some "the certificate is valid for another name"
certificate_detail (Leaf.invalid r) =
    some (cat "the certificate is not usable: " (invalid_reason r))
certificate_detail Leaf.insecure_algorithm = some "the certificate uses an insecure algorithm"
certificate_detail Leaf.record_header = some "the peer did not answer with a TLS handshake"
certificate_detail (Leaf.alert n) = some (cat "the peer aborted the handshake with alert " (show n))
certificate_detail l = none

-- `isRefused` and `isNetworkFailure`, of the end of the chain.
unfoldable pub is_refused : Option Leaf → Bool
is_refused (some (Leaf.errno Errno.refused)) = true
is_refused o = false

unfoldable pub is_network_failure : Option Leaf → Bool
is_network_failure (some Leaf.net_closed) = true
is_network_failure (some (Leaf.errno Errno.reset)) = true
is_network_failure (some (Leaf.errno Errno.host_unreachable)) = true
is_network_failure (some (Leaf.errno Errno.net_unreachable)) = true
is_network_failure (some (Leaf.errno Errno.net_down)) = true
is_network_failure (some (Leaf.errno Errno.timed_out)) = true
is_network_failure (some (Leaf.errno Errno.pipe)) = true
is_network_failure (some (Leaf.errno Errno.host_down)) = true
is_network_failure o = false

unfoldable pub is_unexpected_eof : Option Leaf → Bool
is_unexpected_eof (some Leaf.unexpected_eof) = true
is_unexpected_eof o = false

-- `errors.Is` with `fs.ErrNotExist` and with `fs.ErrPermission`.
unfoldable pub is_not_exist : Option Leaf → Bool
is_not_exist (some Leaf.not_exist) = true
is_not_exist (some (Leaf.errno Errno.no_entry)) = true
is_not_exist o = false

unfoldable pub is_permission : Option Leaf → Bool
is_permission (some Leaf.permission) = true
is_permission (some (Leaf.errno Errno.no_access)) = true
is_permission o = false

unfoldable pub is_canceled : Option Leaf → Bool
is_canceled (some Leaf.canceled) = true
is_canceled o = false

unfoldable pub is_deadline : Option Leaf → Bool
is_deadline (some Leaf.context_deadline) = true
is_deadline o = false
