-- ===== src/Errs.antt =====
-- core/errs/errs.go: catalog errors with a code, a localization key and a detail, and the errors
-- that wrap them. Two things enter as arguments: `classify`, which is `From` of
-- core/errs/classify.go on an error with no catalog error in its chain, and `retryable_key`, the
-- `Retryable` column of the catalog in core/errs/catalog.go (absent keys are false).
pub mod Line
pub mod Chains
pub mod Catalog
pub mod Causes
pub mod Classify
use sora_client.Prelude.{
  ℕ, String, Bool, true, false, Option, none, some, List, [], ◌∷◌, ◌++◌, if◌then◌else◌,
}
use sora_client.Errs.Line.{one_line, cat}

-- `type Code string`; `no_code` is the empty string of a nil error.
pub data Code : Type 0 where
  no_code version_mismatch invalid_argument unauthenticated permission_denied not_found : Code
  failed_precondition resource_exhausted deadline_exceeded cancelled timeout unavailable : Code
  tls unsupported internal : Code

unfoldable pub code_text : Code → String
code_text no_code = ""
code_text version_mismatch = "version_mismatch"
code_text invalid_argument = "invalid_argument"
code_text unauthenticated = "unauthenticated"
code_text permission_denied = "permission_denied"
code_text not_found = "not_found"
code_text failed_precondition = "failed_precondition"
code_text resource_exhausted = "resource_exhausted"
code_text deadline_exceeded = "deadline_exceeded"
code_text cancelled = "cancelled"
code_text timeout = "timeout"
code_text unavailable = "unavailable"
code_text tls = "tls"
code_text unsupported = "unsupported"
code_text internal = "internal"

abbrev pub Key : Type 0
Key = String

-- `type Error struct`, without its cause.
pub record Fields : Type 0 where
  pub code : Code
  pub key : Key
  pub detail : String
  pub retryable : Bool
  pub retry_after : ℕ

-- The shapes of Go's `error` values that the core looks into.
pub data Err : Type 0 where
  foreign : String → Err  -- an error of another package, by its text
  wrapping : String → Err → Err  -- `fmt.Errorf("…%w…")`
  joined : Err → Err → Err  -- `errors.Join`
  catalog : Fields → Err  -- `*Error` with a nil cause
  caused : Fields → Err → Err  -- `*Error` with a cause

-- `func (e *Error) Error() string`
pub render : Fields → String
unfolding code_text
render f =
    let out = cat (code_text f.code) (cat " " f.key) in
    if is_empty f.detail then out else cat out (cat ": " f.detail)
  where
    is_empty : String → Bool
    is_empty String.[] = true
    is_empty (String.◌∷◌ c s) = false

-- `err.Error()`
pub text : Err → String
unfolding render
text (foreign t) = t
text (wrapping t e) = t
text (joined a b) = cat (text a) (cat "\n" (text b))
text (catalog f) = render f
text (caused f e) = render f

abbrev or_else {ℓ} : {A : Type ℓ} → Option A → Option A → Option A
or_else (some a) o = some a
or_else none o = o

-- `errors.As` with a target of type `*Error`: the first catalog error of the chain.
unfoldable pub as_catalog : Err → Option Fields
as_catalog (foreign t) = none
as_catalog (wrapping t e) = as_catalog e
as_catalog (joined a b) = or_else (as_catalog a) (as_catalog b)
as_catalog (catalog f) = some f
as_catalog (caused f e) = some f

-- Every error of the chain, outermost first: what `errors.Is` compares.
unfoldable pub chain : Err → List Err
chain (foreign t) = foreign t ∷ []
chain (wrapping t e) = wrapping t e ∷ chain e
chain (joined a b) = joined a b ∷ (chain a ++ chain b)
chain (catalog f) = catalog f ∷ []
chain (caused f e) = caused f e ∷ chain e

-- `Newf`; the formatted text is the argument.
unfoldable pub newf : Code → Key → String → Err
newf c k t =
    catalog (record { code = c; key = k; detail = one_line t; retryable = false; retry_after = 0 })

-- `WithRetry`, `WithDetail` and `WithoutCause`, on an error that is not nil.
pub with_retry : ℕ → Fields → Fields
with_retry d f = record f { retryable = true; retry_after = d }

pub with_detail : String → Fields → Fields
with_detail t f = record f { detail = t }

pub without_cause : Err → Err
without_cause (caused f e) = catalog f
without_cause e = e

-- `New` with a cause, which is also `Wrap` of an error that is not nil.
unfoldable pub wrap : (Key → Bool) → Err → Code → Key → Err
wrap retryable_key e c k =
    caused
      (record {
        code = c;
        key = k;
        detail = one_line (text e);
        retryable = retryable_key k;
        retry_after = 0;
      })
      e

-- `CodeOf` and `KeyOf`: of the first catalog error, or of the classification.
unfoldable pub code_of : (Err → Fields) → Err → Code
code_of classify e = elim (as_catalog e) [ some f ↦ f.code | none ↦ (classify e).code ]

unfoldable pub key_of : (Err → Fields) → Err → Key
key_of classify e = elim (as_catalog e) [ some f ↦ f.key | none ↦ (classify e).key ]

-- `Retryable` and `RetryAfter` of the package: external errors ask for no retry.
unfoldable pub retryable : Err → Bool
retryable e = elim (as_catalog e) [ some f ↦ f.retryable | none ↦ false ]

pub retry_after : Err → ℕ
retry_after e = elim (as_catalog e) [ some f ↦ f.retry_after | none ↦ 0 ]

-- `Detail`: the text of an external error is returned as it is.
unfoldable pub detail_of : Err → String
detail_of e = elim (as_catalog e) [ some f ↦ f.detail | none ↦ text e ]
