-- ===== src/Plan/Cycle.antt =====
-- core/engine/validate.go: `groupCycle`. The map from a group to its members is the list of its entries,
-- the latest first. The deletion that `defer` makes restores the set on return: each call gets the set
-- of its callers.
pub mod Grounded
pub mod Enough
use sora_client.Prelude.{
  ℕ, zero, suc, String, Bool, true, false, Option, none, some, List, [], ◌∷◌, if◌then◌else◌,
}
use sora_client.Plan.Names.{mem, lookup, has_key}

abbrev pub Members : Type 0
Members = List (String × List String)

unfoldable pub or_empty : Option (List String) → List String
or_empty none = []
or_empty (some xs) = xs

-- `members[group]`, with no members for an unknown group.
unfoldable pub members_of : Members → String → List String
members_of members g = or_empty (lookup g members)

-- `if isGroup && groupCycle(...) { return true }`, where `answer` is the answer of the call.
unfoldable pub or_next : Option Bool → Option Bool → Option Bool
or_next none next = none
or_next (some true) next = some true
or_next (some false) next = next

-- The loop over the members, with `call` for the recursive call.
unfoldable pub any_member : (String → Option Bool) → Members → List String → Option Bool
any_member call members [] = some false
any_member call members (m ∷ ms) =
    let next = any_member call members ms in
    let answer = or_next (call m) next in if has_key m members then answer else next

-- `groupCycle`; `none` means that the fuel ran out.
unfoldable pub group_cycle : ℕ → Members → List String → String → Option Bool
group_cycle zero members visiting group = none
group_cycle (suc fuel) members visiting group =
    let rest =
      any_member (λ m. group_cycle fuel members (group ∷ visiting) m) members
        (members_of members group) in
    if mem group visiting then some true else rest
