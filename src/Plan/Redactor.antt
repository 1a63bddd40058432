-- ===== src/Plan/Redactor.antt =====
-- core/engine/redact.go: `Redactor`. `mask_patterns` is the replacement of the three regular expressions
-- at the end of the file.
pub mod Order
pub mod Masks
use Prim.Native.Char.{Char, code}
use Prim.Native.String.{◌∷◌ as scons, [] as snil}
use sora_client.Prelude.{
  ℕ, zero, suc, String, Bool, true, false, ◌||◌, ◌&&◌, not, Option, none, some, List, [], ◌∷◌, ◌++◌,
  leb, ltb, if◌then◌else◌, str_eq,
}
use sora_client.Errs.Line.{cat, chars}
use sora_client.Plan.Names.{len, mem}
use sora_client.Plan.Fields.{has_prefix}

-- `build` is the replacer, by the values that it was made of.
pub record Redactor : Type 0 where
  pub values : List String
  pub build : Option (List String)

-- One value of `Add`; the flag is `added`.
unfoldable pub add_value : String → List String × Bool → List String × Bool
add_value v (values, added) =
    if ltb (len v) 4
    then (values, added)
    else if mem v values
    then (values, added)
    else (values ++ v ∷ [], true)

unfoldable pub add_loop : List String → List String × Bool → List String × Bool
add_loop [] state = state
add_loop (v ∷ vs) state = add_loop vs (add_value v state)

-- `sort.SliceStable` by decreasing length: an element goes in front of those that are not longer.
unfoldable pub insert_longest : String → List String → List String
insert_longest v [] = v ∷ []
insert_longest v (w ∷ ws) =
    let later = w ∷ insert_longest v ws in if leb (len w) (len v) then v ∷ w ∷ ws else later

unfoldable pub sort_longest : List String → List String
sort_longest [] = []
sort_longest (v ∷ vs) = insert_longest v (sort_longest vs)

unfoldable pub settle : Redactor → List String × Bool → Redactor
settle r (values, true) = record { values = sort_longest values; build = none }
settle r (values, false) = record r { values = values }

-- `Add`
unfoldable pub add : List String → Redactor → Redactor
add vs r = settle r (add_loop vs (r.values, false))

-- `NewRedactor`
unfoldable pub new_redactor : List String → Redactor
new_redactor vs = add vs (record { values = []; build = none })

-- The first of the values that the text begins with.
unfoldable pub first_match : List String → String → Option String
first_match [] s = none
first_match (v ∷ vs) s = let later = first_match vs s in if has_prefix v s then some v else later

abbrev pub pred : ℕ → ℕ
pred zero = zero
pred (suc n) = n

-- `strings.Replacer.Replace` with "[masked]" for every value: at each place the values are tried in
-- their order, and a match is passed over as a whole. `skip` is what is left of a match.
unfoldable pub replace_from : List String → ℕ → String → String
replace_from vs skip snil = snil
replace_from vs (suc skip) (scons c s) = replace_from vs skip s
replace_from vs zero (scons c s) = elim (first_match vs (scons c s)) [
  | none ↦ scons c (replace_from vs zero s)
  | some v ↦ cat "[masked]" (replace_from vs (pred (chars v)) s)
]

unfoldable pub built : Redactor → List String
built r = elim r.build [ some vs ↦ vs | none ↦ r.values ]

-- `String`: the masked text, and the redactor with its replacer.
unfoldable pub mask : (String → String) → Redactor → String → String × Redactor
mask mask_patterns r s =
    if str_eq s ""
    then (s, r)
    else (mask_patterns (replace_from (built r) zero s), record r { build = some (built r) })
