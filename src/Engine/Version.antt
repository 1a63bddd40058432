-- ===== src/Engine/Version.antt =====
-- core/engine/engine.go: engine versions and their order.
pub mod Decimal
pub mod Parse
use sora_client.Prelude.{
  ℕ, ◌≡◌, String, Bool, true, false, ◌&&◌, ◌||◌, not, arith, ltb, ◌==◌, if◌then◌else◌,
}

-- `ParseVersion` gives no negative component.
pub record Version : Type 0 where
  pub raw : String
  pub major : ℕ
  pub minor : ℕ
  pub patch : ℕ
  pub pre_release : String

-- `Less`
unfoldable pub less : Version → Version → Bool
less v other =
    if not (v.major == other.major)
    then ltb v.major other.major
    else if not (v.minor == other.minor)
    then ltb v.minor other.minor
    else ltb v.patch other.patch

-- `Less` orders versions strictly by their three numbers, whatever their texts: no version sorts
-- before itself, the order is transitive, and of two versions one sorts before the other or all three
-- numbers agree.
pub less_order :
    (a b c : Version)
    → (less a a ≡ false)
      × (not (less a b && less b c) || less a c ≡ true)
      × (less a b || less b a || (a.major == b.major && a.minor == b.minor && a.patch == b.patch)
          ≡ true)
unfolding less
less_order a b c = (ground arith, ground arith, ground arith)
