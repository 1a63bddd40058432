-- ===== src/Plan/Strategy.antt =====
-- core/engine/validate.go: `bypassPosition` and `BypassStrategy.validate`.
use Prim.Native.Char.{code}
use Prim.Native.String.{◌∷◌ as scons, [] as snil}
use sora_client.Prelude.{
  ℕ, suc, String, Bool, true, false, ◌||◌, ◌&&◌, not, Option, none, some, List, [], ◌∷◌, ◌++◌, leb,
  ltb, ◌==◌, length, if◌then◌else◌, str_eq, any,
}
use sora_client.Engine.Version.Decimal.{is_digit}
use sora_client.Plan.Model.{BypassStrategy}
use sora_client.Plan.Needs.{is_empty}
use sora_client.Plan.Fields.{Problem, fail_if}

-- One to four digits and no more.
unfoldable pub few_digits : ℕ → String → Bool
few_digits n snil = leb 1 n && leb n 4
few_digits n (scons c s) = is_digit c && few_digits (suc n) s

unfoldable pub strip_prefix : String → String → Option String
strip_prefix snil s = some s
strip_prefix (scons c p) snil = none
strip_prefix (scons c p) (scons d s) =
    let rest = strip_prefix p s in if code c == code d then rest else none

-- `([+-][0-9]{1,4})?` up to the end of the text.
unfoldable pub offset : Option String → Bool
offset none = false
offset (some snil) = true
offset (some (scons c s)) = (code c == 43 || code c == 45) && few_digits 0 s

unfoldable pub signed_digits : String → Bool
signed_digits snil = false
signed_digits (scons c s) = (code c == 45 && few_digits 0 s) || few_digits 0 (scons c s)

-- `bypassPosition.MatchString`
unfoldable pub is_bypass_position : String → Bool
is_bypass_position s =
    signed_digits s
    || any (λ m. offset (strip_prefix m s))
        ("method" ∷ "host" ∷ "endhost" ∷ "sld" ∷ "midsld" ∷ "endsld" ∷ "sniext" ∷ [])

unfoldable pub first_bad_split : String → List String → List Problem
first_bad_split id [] = []
first_bad_split id (s ∷ rest) =
    let later = first_bad_split id rest in
    if not (str_eq s "") && not (is_bypass_position s) then Problem.bad_split id s ∷ [] else later

-- The last test of a strategy, which is made if no position is bad.
unfoldable pub or_no_split : String → BypassStrategy → List Problem → List Problem
or_no_split id s [] = fail_if ((s.disorder || s.oob) && is_empty s.split_pos) (Problem.no_split id)
or_no_split id s (e ∷ es) = e ∷ es

-- `BypassStrategy.validate`, which returns the first error.
unfoldable pub validate_bypass : String → Option BypassStrategy → List Problem
validate_bypass id none = Problem.no_strategy id ∷ []
validate_bypass id (some s) =
    if is_empty s.split_pos
      && str_eq s.tls_record ""
      && not s.host_case
      && not s.domain_case
      && not s.method_eol
    then Problem.idle_strategy id ∷ []
    else if ltb 8 (length s.split_pos)
    then Problem.too_many_splits id ∷ []
    else or_no_split id s (first_bad_split id (s.split_pos ++ s.tls_record ∷ []))
