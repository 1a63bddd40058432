-- ===== src/Errs/Classify/Private.antt =====
-- core/errs/classify.go: what the detail that `From` makes keeps of URLs, paths, addresses and names.
use sora_client.Prelude.{
  ◌≡◌, refl, sym, String, Bool, true, false, ◌||◌, ◌&&◌, Option, none, some, arith, if◌then◌else◌,
  Bool-cases, inl, inr,
}
use sora_client.Errs.Line.{one_line, cat}
use sora_client.Errs.{Fields}
use sora_client.Errs.Causes.{
  Leaf, Cause, Ended, root, catalog_of, timeout_method, net_timeout, is_refused, is_network_failure,
  is_unexpected_eof, is_canceled, is_deadline,
}
use sora_client.Errs.Classify.{
  cause_text, operation_detail, net_detail, or_else_text, from_network, from_url_or_path,
  from_foreign, from_with, inner_results, from, new_fields, certificate_of,
}

abbrev is_none : Option Ended → Bool
is_none none = true
is_none (some e) = false

module _ (leaf_text : Leaf → String) (quote : String → String) where
  -- Two errors that agree on the tests before those for a URL and a path.
  from_with-alike :
      (x y : Cause) (c : Option Fields) (r : Option Fields × Option Fields)
      → is_canceled (root x) ≡ false
      → is_deadline (root x) ≡ false
      → root x ≡ root y
      → from_url_or_path leaf_text quote x r.0 r.1 ≡ from_url_or_path leaf_text quote y r.0 r.1
      → from_with leaf_text quote x c r ≡ from_with leaf_text quote y c r
  unfolding from_with from_foreign
  from_with-alike x y (some f) r h k e same = refl
  from_with-alike x y none r h k e same = rw (sym e, h, k) same

  path-alike :
      (x y : Cause) (u : Option Fields) (f : Fields)
      → from_url_or_path leaf_text quote x u (some f)
        ≡ from_url_or_path leaf_text quote y u (some f)
  unfolding from_url_or_path
  path-alike x y none f = refl
  path-alike x y (some g) f = refl

  network-alike :
      (op a b : String) (e : Cause) (c : Option String)
      → (timeout_method e
          || (is_refused (root e) || (is_network_failure (root e) || is_unexpected_eof (root e))))
        ≡ true
      → from_network leaf_text quote (Cause.operation op a e) c
        ≡ from_network leaf_text quote (Cause.operation op b e) c
  unfolding from_network net_timeout root net_detail operation_detail or_else_text
  network-alike op a b e (some t) h = refl
  network-alike op a b e none h = elim (Bool-cases (timeout_method e)) [
    | inl i ↦ rw i
    | inr i ↦ elim (Bool-cases (is_refused (root e))) [
      | inl j ↦ rw (i, j)
      | inr j ↦ rw (i, j, or_true i j h)
    ]
  ]
    where
      or_true : {a b c : Bool} → a ≡ false → b ≡ false → (a || (b || c)) ≡ true → c ≡ true
      or_true i j h = ground arith

  url-alike :
      (op a b : String) (e : Cause) (u p : Option Fields)
      → (timeout_method e
          || (is_refused (root e) || (is_network_failure (root e) || is_unexpected_eof (root e))))
        ≡ true
      → from_url_or_path leaf_text quote (Cause.operation op a e) u p
        ≡ from_url_or_path leaf_text quote (Cause.operation op b e) u p
  unfolding from_url_or_path root
  url-alike op a b e (some u) p h = refl
  url-alike op a b e none (some p) h = refl
  url-alike op a b e none none h = network-alike op a b e (certificate_of (root e)) h

  -- Unless the request was canceled or ran out of its deadline, the error that `From` makes of a URL error
  -- does not depend on the URL, and that of a path error not on the path.
  pub from-hides :
      (op u v : String) (e : Cause)
      → is_canceled (root e) ≡ false
      → is_deadline (root e) ≡ false
      → (from leaf_text quote (Cause.url_failed op u e)
          ≡ from leaf_text quote (Cause.url_failed op v e))
        × (from leaf_text quote (Cause.path_failed op u e)
            ≡ from leaf_text quote (Cause.path_failed op v e))
  unfolding from from_with inner_results catalog_of from_foreign root from_url_or_path
  from-hides op u v e h k = (
    from_with-alike (Cause.url_failed op u e) (Cause.url_failed op v e) (catalog_of e) _ h k refl
        refl,
    from_with-alike (Cause.path_failed op u e) (Cause.path_failed op v e) (catalog_of e) _ h k refl
        (path-alike _ _ (inner_results leaf_text quote e).0 _),
  )

  -- If a network operation was refused, timed out or lost its network, the error that `From` makes of it
  -- does not depend on the addresses.
  pub from-hides_address :
      (op a b : String) (e : Cause)
      → is_canceled (root e) ≡ false
      → is_deadline (root e) ≡ false
      → (timeout_method e
          || (is_refused (root e) || (is_network_failure (root e) || is_unexpected_eof (root e))))
        ≡ true
      → from leaf_text quote (Cause.operation op a e)
        ≡ from leaf_text quote (Cause.operation op b e)
  unfolding from from_with inner_results catalog_of from_foreign root
  from-hides_address op a b e h k l =
      from_with-alike (Cause.operation op a e) (Cause.operation op b e) (catalog_of e)
        (inner_results leaf_text quote e) h k refl (url-alike op a b e _ _ l)

  deadline_or_canceled :
      (b c : Bool) (x y z : Fields) (t : String)
      → (b || c) ≡ true
      → x.detail ≡ t
      → y.detail ≡ t
      → (if b then x else if c then y else z).detail ≡ t
  deadline_or_canceled true c x y z t h e f = e
  deadline_or_canceled false true x y z t h e f = f
  deadline_or_canceled false false x y z t h e f = ground arith

  -- If the request was canceled or ran out of its deadline, the detail that `From` makes of a URL error is
  -- the whole text of the error, URL included.
  pub from-keeps_url :
      (op u : String) (e : Cause)
      → catalog_of e ≡ none
      → (is_canceled (root e) || is_deadline (root e)) ≡ true
      → (from leaf_text quote (Cause.url_failed op u e)).detail
        ≡ one_line (cat op (cat " " (cat (quote u) (cat ": " (cause_text leaf_text quote e)))))
  unfolding from from_with catalog_of from_foreign root new_fields cause_text
  from-keeps_url op u e c h =
      rw c (deadline_or_canceled (is_canceled (root e)) (is_deadline (root e)) _ _ _ _ h refl refl)

  -- The detail that `From` makes of a network operation that failed in the lookup of a name is the text of
  -- the failed lookup, name included, after the operation, and after the addresses, too, unless the lookup
  -- timed out although its context had not ended.
  pub from-keeps_name :
      (op a t n s : String) (timed_out : Bool) (w : Option Ended)
      → (from leaf_text quote (Cause.operation op a (Cause.dns t n s timed_out w))).detail
        ≡ one_line (
            cat op (
              cat
                (if timed_out && is_none w then "" else a)
                (cat ": " (cause_text leaf_text quote (Cause.dns t n s timed_out w)))))
  unfolding from from_with catalog_of from_foreign root new_fields cause_text inner_results
      from_url_or_path from_network certificate_of net_timeout timeout_method net_detail
      operation_detail or_else_text is_canceled is_deadline is_refused is_network_failure
      is_unexpected_eof sora_client.Errs.Causes.is_not_exist sora_client.Errs.Causes.is_permission
      sora_client.Errs.Causes.ended_as
  from-keeps_name op a t n s true none = refl
  from-keeps_name op a t n s false none = refl
  from-keeps_name op a t n s true (some Ended.abandoned) = refl
  from-keeps_name op a t n s false (some Ended.abandoned) = refl
  from-keeps_name op a t n s true (some Ended.overdue) = refl
  from-keeps_name op a t n s false (some Ended.overdue) = refl
