-- ===== src/Errs/Classify/Agrees.antt =====
-- core/errs/classify.go against core/errs/catalog.go: the codes that `From` uses are those of the catalog.
use sora_client.Prelude.{◌≡◌, refl, String, ◌||◌, Option, none, some, if-both, subst, arith}
use sora_client.Errs.{
  Code, Key, Fields, timeout, unavailable, not_found, permission_denied, internal, cancelled,
  deadline_exceeded,
}
use sora_client.Errs.Catalog.{lookup_entry, catalog_entries, retryable_key, retryable_of}
use sora_client.Errs.Causes.{
  Leaf, Cause, root, catalog_of, net_timeout, is_refused, is_network_failure, is_unexpected_eof,
  is_not_exist, is_permission, is_canceled, is_deadline,
}
use sora_client.Errs.Classify.{
  from_network, from_url_or_path, from_foreign, from_with, inner_results, from, new_fields,
  certificate_of, certificate_fields, prefixed,
}

-- The code and the retry of an error are those that the catalog gives its key.
unfoldable pub Agrees : Fields → Type 0
Agrees f = lookup_entry f.key ≡ some (record { code = f.code; retryable = f.retryable })

by_table :
    (c : Code) (k : Key) (t : String)
    → lookup_entry k ≡ some (record { code = c; retryable = retryable_key k })
    → Agrees (new_fields c k t)
unfolding Agrees new_fields
by_table c k t h = h

certificate_fields-Agrees : (t : String) → Agrees (certificate_fields t)
unfolding Agrees certificate_fields lookup_entry catalog_entries
certificate_fields-Agrees t = refl

module _ (leaf_text : Leaf → String) (quote : String → String) where
  from_network-Agrees : (e : Cause) (c : Option String) → Agrees (from_network leaf_text quote e c)
  unfolding from_network lookup_entry catalog_entries retryable_key retryable_of
  from_network-Agrees e (some t) = certificate_fields-Agrees t
  from_network-Agrees e none =
      if-both Agrees (net_timeout e) _ _ (by_table timeout "core.network.timeout" _ refl) (
        if-both Agrees (is_refused (root e)) _ _
          (by_table unavailable "core.network.connection_refused" _ refl)
          (if-both Agrees (is_network_failure (root e) || is_unexpected_eof (root e)) _ _
            (by_table unavailable "core.network.failed" _ refl)
            (if-both Agrees (is_not_exist (root e)) _ _
              (by_table not_found "core.generic.not_found" _ refl)
              (if-both Agrees (is_permission (root e)) _ _
                (by_table permission_denied "core.auth.permission_denied" _ refl)
                (by_table internal "core.internal.unexpected" _ refl)))))

  from_url_or_path-Agrees :
      (e : Cause) (u p : Option Fields)
      → ((f : Fields) → u ≡ some f → Agrees f)
      → ((f : Fields) → p ≡ some f → Agrees f)
      → Agrees (from_url_or_path leaf_text quote e u p)
  unfolding from_url_or_path
  from_url_or_path-Agrees e (some u) p h k = h u refl
  from_url_or_path-Agrees e none (some p) h k = k p refl
  from_url_or_path-Agrees e none none h k = from_network-Agrees e (certificate_of (root e))

  Both : Option Fields × Option Fields → Type 0
  Both r = ((f : Fields) → r.0 ≡ some f → Agrees f) × ((f : Fields) → r.1 ≡ some f → Agrees f)

  from_with-Agrees :
      (e : Cause) (r : Option Fields × Option Fields)
      → Both r
      → Agrees (from_with leaf_text quote e none r)
  unfolding Both from_with from_foreign lookup_entry catalog_entries retryable_key retryable_of
  from_with-Agrees e r h =
      if-both Agrees (is_canceled (root e)) _ _ (by_table cancelled "core.request.cancelled" _ refl)
        (if-both Agrees (is_deadline (root e)) _ _
          (by_table deadline_exceeded "core.request.deadline_exceeded" _ refl)
          (from_url_or_path-Agrees e r.0 r.1 h.0 h.1))

  prefixed-Agrees : (op : String) (f : Fields) → Agrees f → Agrees (prefixed op f)
  unfolding Agrees prefixed
  prefixed-Agrees op f h = h

  -- `From` of the cause of a URL error or a path error.
  inner-Agrees :
      (op : String) (e : Cause)
      → catalog_of e ≡ none
      → Both (inner_results leaf_text quote e)
      → Agrees (
          prefixed op
            (from_with leaf_text quote e (catalog_of e) (inner_results leaf_text quote e)))
  inner-Agrees op e h k =
      prefixed-Agrees op _ (rw h (from_with-Agrees e (inner_results leaf_text quote e) k))

  some-Agrees : (g f : Fields) → some g ≡ some f → Agrees g → Agrees f
  some-Agrees g f e h = subst Agrees (some_inj e) h
    where
      some_inj : {g f : Fields} → some g ≡ some f → g ≡ f
      some_inj e = ground arith

  inner_results-Both : (e : Cause) → catalog_of e ≡ none → Both (inner_results leaf_text quote e)
  unfolding inner_results catalog_of Both
  inner_results-Both (Cause.leaf l) h = (λ f e. ground arith, λ f e. ground arith)
  inner_results-Both (Cause.dns t n s b w) h = (λ f e. ground arith, λ f e. ground arith)
  inner_results-Both (Cause.catalogued f) h = ground arith
  inner_results-Both (Cause.wrapped t e) h = inner_results-Both e h
  inner_results-Both (Cause.syscall_failed n e) h = inner_results-Both e h
  inner_results-Both (Cause.verification e) h = inner_results-Both e h
  inner_results-Both (Cause.url_failed op u e) h =
      let below = inner_results-Both e h in
      (λ f i. some-Agrees _ f i (inner-Agrees op e h below), below.1)
  inner_results-Both (Cause.path_failed op p e) h =
      let below = inner_results-Both e h in
      (below.0, λ f i. some-Agrees _ f i (inner-Agrees op e h below))
  inner_results-Both (Cause.operation op a e) h = inner_results-Both e h

  -- `From` of an error with no catalog error in its chain, whatever it wraps, gives a key that the catalog
  -- has, with the code and the retry that the catalog gives it.
  pub from-Agrees : (e : Cause) → catalog_of e ≡ none → Agrees (from leaf_text quote e)
  unfolding from
  from-Agrees e h = rw h (from_with-Agrees e _ (inner_results-Both e h))
