-- ===== src/Plan/Fields/Server.antt =====
-- core/engine/fields.go: what `validateServer` says of an address with a colon.
use Prim.Native.Char.{Char, code}
use Prim.Native.String.{◌∷◌ as scons, [] as snil}
use sora_client.Prelude.{
  ◌≡◌, ap, String, Bool, true, false, [], ◌∷◌, arith, ◌==◌, str_eq, str_eq_iff, Bool-cases, inl,
  inr,
}
use sora_client.Errs.Line.{contains_any}
use sora_client.Plan.Fields.{Formats, Problem, is_separator, validate_server}

abbrev pub is_colon : Char → Bool
is_colon c = code c == 58

contains_any-separator :
    (s : String) → contains_any is_colon s ≡ true → contains_any is_separator s ≡ true
contains_any-separator snil h = h
contains_any-separator (scons c s) h = ground (arith, contains_any-separator s)

pub str_eq-scons : (c : Char) (s : String) → str_eq (scons c s) snil ≡ false
str_eq-scons c s = elim (Bool-cases (str_eq (scons c s) snil)) [
  | inl e ↦ ground (arith, ap (contains_any (λ d. true)) ((str_eq_iff (scons c s) snil).0 e))
  | inr e ↦ e
]

-- `validateServer` rejects every text with a colon as no bare host, whatever `net.ParseIP` says of it and
-- whether or not a server is required: no IPv6 address is accepted, in brackets or without.
pub validate_server-colon :
    (formats : Formats) (what server : String) (required : Bool)
    → contains_any is_colon server ≡ true
    → validate_server formats what server required ≡ Problem.server_not_bare what ∷ []
unfolding validate_server
validate_server-colon formats what snil required h = ground arith
validate_server-colon formats what (scons c s) required h =
    rw (str_eq-scons c s, contains_any-separator (scons c s) h)
