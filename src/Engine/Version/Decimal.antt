-- ===== src/Engine/Version/Decimal.antt =====
-- core/engine/engine.go: `strconv.Atoi` as `ParseVersion` uses it, and the decimal text of a number.
use Prim.Native.Char.{Char, nul, code}
use Prim.Native.String.{◌∷◌ as scons, [] as snil}
use sora_client.Prelude.{
  ℕ, zero, suc, ◌+◌, ◌-◌, ◌*◌, ◌/◌, ◌%◌, ◌<◌, ◌≤◌, ◌≡◌, refl, sym, ◌∙◌, ap, String, Bool, true,
  ◌&&◌, Option, none, some, arith, leb, ltb, ◌==◌, if◌then◌else◌, Bool-cases, inl, inr, ltb→lt,
  ==_iff, le→leb, subst,
}

abbrev pub is_digit : Char → Bool
is_digit c = leb 48 (code c) && leb (code c) 57

-- The digits of a text, read after those of `n`.
unfoldable pub decimal : ℕ → String → Option ℕ
decimal n snil = some n
decimal n (scons c s) =
    let more = decimal (n * 10 + (code c - 48)) s in if is_digit c then more else none

unfoldable pub in_range : Option ℕ → Option ℕ
in_range none = none
in_range (some n) = if leb n 9223372036854775807 then some n else none

-- `strconv.Atoi` of a text with no sign, as every part of a version is: the parts stand before the
-- first `-` or `+`. An empty text, a text with another character and a number over the largest `int`
-- are errors.
unfoldable pub atoi : String → Option ℕ
atoi snil = none
atoi (scons c s) = in_range (decimal 0 (scons c s))

abbrev pub nth : ℕ → String → Char
nth n snil = nul
nth zero (scons c s) = c
nth (suc n) (scons c s) = nth n s

abbrev pub digit_char : ℕ → Char
digit_char n = nth n "0123456789"

-- The digits of a number, in front of a text; the fuel is the number itself.
unfoldable pub show_onto : ℕ → ℕ → String → String
show_onto zero n s = scons (digit_char n) s
show_onto (suc fuel) n s =
    let more = show_onto fuel (n / 10) (scons (digit_char (n % 10)) s) in
    if ltb n 10 then scons (digit_char n) s else more

unfoldable pub show : ℕ → String
show n = show_onto n n snil

digits_checked : ℕ → Bool
digits_checked zero = true
digits_checked (suc n) = digits_checked n && code (digit_char n) == 48 + n

digits_checked-lt :
    (k n : ℕ) → digits_checked k ≡ true → n < k → (code (digit_char n) == 48 + n) ≡ true
unfolding digits_checked
digits_checked-lt zero n h k = absurd (omega arith)
digits_checked-lt (suc k) n h l = elim (Bool-cases (n == k)) [
  | inl e ↦
      subst (λ m. (code (digit_char m) == 48 + m) ≡ true) (sym ((==_iff n k).0 e)) (ground arith)
  | inr e ↦ digits_checked-lt k n (ground arith) (ground arith)
]

pub code-digit_char : (n : ℕ) → n < 10 → code (digit_char n) ≡ 48 + n
unfolding digits_checked
code-digit_char n h = (==_iff _ _).0 (digits_checked-lt 10 n refl h)

add_sub : (k m : ℕ) → k + m - k ≡ m
add_sub k m = omega arith

decimal-digit :
    (n m : ℕ) (s : String) → m < 10 → decimal n (scons (digit_char m) s) ≡ decimal (n * 10 + m) s
unfolding decimal
decimal-digit n m s h = rw (
  code-digit_char m h,
  le→leb 48 (48 + m) (omega arith),
  le→leb (48 + m) 57 (omega arith),
  add_sub 48 m,
)

pub decimal-show_onto :
    (fuel n : ℕ) (s : String) → n ≤ fuel → decimal 0 (show_onto fuel n s) ≡ decimal n s
unfolding show_onto
decimal-show_onto zero n s h =
    decimal-digit 0 n s (omega arith) ∙ ap (λ m. decimal m s) (omega arith)
decimal-show_onto (suc fuel) n s h = elim (Bool-cases (ltb n 10)) [
  | inl e ↦ rw e (decimal-digit 0 n s (ltb→lt n 10 e) ∙ ap (λ m. decimal m s) (omega arith))
  | inr e ↦ rw e (
      decimal-show_onto fuel (n / 10) (scons (digit_char (n % 10)) s) (ground arith)
      ∙ decimal-digit (n / 10) (n % 10) s (omega arith)
      ∙ ap (λ m. decimal m s) (omega arith))
]
