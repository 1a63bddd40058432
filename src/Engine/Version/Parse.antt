-- ===== src/Engine/Version/Parse.antt =====
-- core/engine/engine.go: `ParseVersion`, which accepts "1.19.32", "v1.19.32" and "v1.19.32-beta.3".
use Prim.Native.Char.{Char, char, code}
use Prim.Native.String.{◌∷◌ as scons, [] as snil}
use sora_client.Prelude.{
  ℕ, zero, suc, ◌≤◌, ◌<◌, ◌≡◌, refl, ◌∙◌, ap, String, Bool, true, false, ◌||◌, Option, none, some,
  List, [], ◌∷◌, arith, ltb, ◌==◌, if◌then◌else◌, Bool-cases, inl, inr, le→leb, or_left, or_right,
  ◌%◌, ◌/◌, ltb→lt,
}
use sora_client.Errs.Line.{
  cat, contains_any, contains_any-cat, is_space, trim_space, trim_space-bare,
}
use sora_client.Engine.Version.{Version}
use sora_client.Engine.Version.Decimal.{
  atoi, decimal, in_range, is_digit, digit_char, code-digit_char, show, show_onto,
  decimal-show_onto,
}

-- `strings.TrimPrefix(s, "v")`
unfoldable pub trim_prefix_v : String → String
trim_prefix_v snil = snil
trim_prefix_v (scons c s) = if code c == 118 then s else scons c s

abbrev pub is_sign : Char → Bool
is_sign c = code c == 45 || code c == 43

abbrev pub is_dot : Char → Bool
is_dot c = code c == 46

-- `strings.IndexAny(s, "-+")` and the two slices around it.
unfoldable pub cut_sign : String → String × String
cut_sign snil = (snil, snil)
cut_sign (scons c s) =
    let rest = cut_sign s in if is_sign c then (snil, s) else (scons c rest.0, rest.1)

unfoldable pub onto_first : Char → List String → List String
onto_first c [] = scons c snil ∷ []
onto_first c (x ∷ xs) = scons c x ∷ xs

-- `strings.Split(s, ".")`
unfoldable pub split_dots : String → List String
split_dots snil = snil ∷ []
split_dots (scons c s) =
    let rest = split_dots s in if is_dot c then snil ∷ rest else onto_first c rest

unfoldable pub of_numbers : String → String → Option ℕ → Option ℕ → Option ℕ → Option Version
of_numbers raw pre (some a) (some b) (some c) =
    some (record { raw = raw; major = a; minor = b; patch = c; pre_release = pre })
of_numbers raw pre _ _ _ = none

unfoldable pub of_parts : String → String → List String → Option Version
of_parts raw pre (a ∷ b ∷ c ∷ []) = of_numbers raw pre (atoi a) (atoi b) (atoi c)
of_parts raw pre _ = none

unfoldable pub parse_trimmed : String → String → Option Version
parse_trimmed raw snil = none
parse_trimmed raw (scons c s) =
    let cut = cut_sign (scons c s) in of_parts raw cut.1 (split_dots cut.0)

-- `ParseVersion`; the error is `none`.
unfoldable pub parse_version : String → Option Version
parse_version raw = parse_trimmed (trim_space raw) (trim_space (trim_prefix_v (trim_space raw)))

-- Texts in which a test finds nothing.
cut_sign-cat :
    (s t : String)
    → contains_any is_sign s ≡ false
    → cut_sign (cat s t) ≡ (cat s (cut_sign t).0, (cut_sign t).1)
unfolding cut_sign
cut_sign-cat snil t h = refl
cut_sign-cat (scons c s) t h =
    rw (or_left (is_sign c) _ h, cut_sign-cat s t (or_right (is_sign c) _ h))

split_dots-cat :
    (s t : String)
    → contains_any is_dot s ≡ false
    → split_dots (cat s (cat "." t)) ≡ s ∷ split_dots t
unfolding split_dots onto_first
split_dots-cat snil t h = refl
split_dots-cat (scons c s) t h =
    rw (or_left (is_dot c) _ h, split_dots-cat s t (or_right (is_dot c) _ h))

split_dots-bare : (s : String) → contains_any is_dot s ≡ false → split_dots s ≡ s ∷ []
unfolding split_dots onto_first
split_dots-bare snil h = refl
split_dots-bare (scons c s) h =
    rw (or_left (is_dot c) _ h, split_dots-bare s (or_right (is_dot c) _ h))

-- A test that no digit passes finds nothing in the decimal text of a number.
is_digit-digit_char : (n : ℕ) → n < 10 → is_digit (digit_char n) ≡ true
is_digit-digit_char n h = rw (code-digit_char n h) (ground arith)

show_onto-bare :
    (p : Char → Bool)
    → ((c : Char) → is_digit c ≡ true → p c ≡ false)
    → (fuel n : ℕ) (s : String) → n ≤ fuel
    → contains_any p s ≡ false
    → contains_any p (show_onto fuel n s) ≡ false
unfolding show_onto
show_onto-bare p out zero n s h k = rw (out (digit_char n) (is_digit-digit_char n (omega arith))) k
show_onto-bare p out (suc fuel) n s h k = elim (Bool-cases (ltb n 10)) [
  | inl e ↦ rw (e, out (digit_char n) (is_digit-digit_char n (ltb→lt n 10 e))) k
  | inr e ↦ rw e (
      show_onto-bare p out fuel (n / 10) _ (ground arith)
        (rw (out (digit_char (n % 10)) (is_digit-digit_char (n % 10) (omega arith))) k))
]

-- Texts with a character at all.
abbrev anything : Char → Bool
anything c = true

show_onto-some : (fuel n : ℕ) (s : String) → contains_any anything (show_onto fuel n s) ≡ true
unfolding show_onto
show_onto-some zero n s = refl
show_onto-some (suc fuel) n s = elim (Bool-cases (ltb n 10)) [
  | inl e ↦ rw e
  | inr e ↦ rw e (show_onto-some fuel (n / 10) _)
]

atoi_of :
    (s : String) (n : ℕ)
    → contains_any anything s ≡ true
    → decimal 0 s ≡ some n
    → n ≤ 9223372036854775807
    → atoi s ≡ some n
unfolding atoi in_range
atoi_of snil n h k l = ground arith
atoi_of (scons c s) n h k l = rw (k, le→leb n 9223372036854775807 l)

atoi-show : (n : ℕ) → n ≤ 9223372036854775807 → atoi (show n) ≡ some n
unfolding show decimal
atoi-show n h =
    atoi_of (show n) n (show_onto-some n n snil) (decimal-show_onto n n snil (omega arith)) h

trim_prefix_v-bare :
    (s : String)
    → contains_any anything s ≡ true
    → contains_any (λ c. code c == 118) s ≡ false
    → (t : String) → trim_prefix_v (cat s t) ≡ cat s t
unfolding trim_prefix_v
trim_prefix_v-bare snil h k t = ground arith
trim_prefix_v-bare (scons c s) h k t = rw (or_left (code c == 118) _ k)

parse_trimmed-some :
    (raw s t : String)
    → contains_any anything s ≡ true
    → parse_trimmed raw (cat s t)
      ≡ of_parts raw (cut_sign (cat s t)).1 (split_dots (cut_sign (cat s t)).0)
unfolding parse_trimmed
parse_trimmed-some raw snil t h = ground arith
parse_trimmed-some raw (scons c s) t h = refl

cat-nil : (s : String) → cat s snil ≡ s
cat-nil snil = refl
cat-nil (scons c s) = ap (scons c) (cat-nil s)

-- The three numbers with dots between them.
abbrev pub print_numbers : ℕ → ℕ → ℕ → String
print_numbers a b c = cat (show a) (cat "." (cat (show b) (cat "." (show c))))

-- The text of a version: with no suffix where there is no pre-release.
abbrev pub print_suffix : String → String
print_suffix snil = snil
print_suffix (scons c s) = scons (char 45 tt) (scons c s)

abbrev pub print_version : ℕ → ℕ → ℕ → String → String
print_version a b c pre = cat (print_numbers a b c) (print_suffix pre)

print_numbers-bare :
    (p : Char → Bool)
    → ((c : Char) → is_digit c ≡ true → p c ≡ false)
    → p (char 46 tt) ≡ false
    → (a b c : ℕ) → contains_any p (print_numbers a b c) ≡ false
unfolding show
print_numbers-bare p out dot a b c =
    rw
      (
        contains_any-cat p (show_onto a a snil) (
            scons (char 46 tt)
              (cat (show_onto b b snil) (scons (char 46 tt) (show_onto c c snil)))),
        show_onto-bare p out a a snil (omega arith) refl,
        dot,
        contains_any-cat p (show_onto b b snil) (scons (char 46 tt) (show_onto c c snil)),
        show_onto-bare p out b b snil (omega arith) refl,
        dot,
      )
      (show_onto-bare p out c c snil (omega arith) refl)

cut_sign-suffix : (pre : String) → cut_sign (print_suffix pre) ≡ (snil, pre)
unfolding cut_sign
cut_sign-suffix snil = refl
cut_sign-suffix (scons c s) = refl

show-bare :
    (p : Char → Bool)
    → ((c : Char) → is_digit c ≡ true → p c ≡ false)
    → (n : ℕ) → contains_any p (show n) ≡ false
unfolding show
show-bare p out n = show_onto-bare p out n n snil (omega arith) refl

print_numbers-some : (a b c : ℕ) → contains_any anything (print_numbers a b c) ≡ true
unfolding show
print_numbers-some a b c = rw (contains_any-cat, show_onto-some a a snil)

split_dots-print_numbers :
    (a b c : ℕ) → split_dots (print_numbers a b c) ≡ show a ∷ show b ∷ show c ∷ []
split_dots-print_numbers a b c =
    let bare = show-bare is_dot (λ d h. ground arith) in
    split_dots-cat (show a) (cat (show b) (cat "." (show c))) (bare a)
    ∙ ap (λ l. show a ∷ l)
        (split_dots-cat (show b) (show c) (bare b)
          ∙ ap (λ l. show b ∷ l) (split_dots-bare (show c) (bare c)))

cut_sign-print_version :
    (a b c : ℕ) (pre : String) → cut_sign (print_version a b c pre) ≡ (print_numbers a b c, pre)
cut_sign-print_version a b c pre =
    cut_sign-cat (print_numbers a b c) (print_suffix pre)
      (print_numbers-bare is_sign (λ d h. ground arith) refl a b c)
    ∙ rw (cut_sign-suffix pre, cat-nil (print_numbers a b c))

parse_trimmed-print :
    (raw : String) (a b c : ℕ) (pre : String)
    → a ≤ 9223372036854775807
    → b ≤ 9223372036854775807
    → c ≤ 9223372036854775807
    → parse_trimmed raw (print_version a b c pre)
      ≡ some (record { raw = raw; major = a; minor = b; patch = c; pre_release = pre })
unfolding of_parts of_numbers
parse_trimmed-print raw a b c pre ha hb hc =
    parse_trimmed-some raw (print_numbers a b c) (print_suffix pre) (print_numbers-some a b c)
    ∙ rw (
      cut_sign-print_version a b c pre,
      split_dots-print_numbers a b c,
      atoi-show a ha,
      atoi-show b hb,
      atoi-show c hc,
    )

print_version-bare :
    (a b c : ℕ) (pre : String)
    → contains_any is_space pre ≡ false
    → contains_any is_space (print_version a b c pre) ≡ false
unfolding is_space
print_version-bare a b c pre h =
    rw
      (
        contains_any-cat is_space (print_numbers a b c) (print_suffix pre),
        print_numbers-bare is_space (λ d h. ground arith) refl a b c,
      )
      (suffix pre h)
  where
    suffix :
        (t : String)
        → contains_any is_space t ≡ false
        → contains_any is_space (print_suffix t) ≡ false
    suffix snil k = refl
    suffix (scons d t) k = k

trim_prefix_v-print :
    (a b c : ℕ) (pre : String) → trim_prefix_v (print_version a b c pre) ≡ print_version a b c pre
trim_prefix_v-print a b c pre =
    trim_prefix_v-bare (print_numbers a b c) (print_numbers-some a b c)
      (print_numbers-bare (λ d. code d == 118) (λ d h. ground arith) refl a b c) (print_suffix pre)

-- `ParseVersion` reads back the text of a version. The text is three numbers, each at most the largest
-- `int`, with dots between them, and a `-` and the pre-release after them if there is one; where the
-- pre-release holds no blank, the answer has these numbers, this pre-release and the text itself, and a
-- `v` in front of the text changes the stored text alone.
pub parse-print :
    (a b c : ℕ) (pre : String)
    → a ≤ 9223372036854775807
    → b ≤ 9223372036854775807
    → c ≤ 9223372036854775807
    → contains_any is_space pre ≡ false
    → (parse_version (print_version a b c pre)
        ≡ some (record {
          raw = print_version a b c pre;
          major = a;
          minor = b;
          patch = c;
          pre_release = pre;
        }))
      × (parse_version (cat "v" (print_version a b c pre))
          ≡ some (record {
            raw = cat "v" (print_version a b c pre);
            major = a;
            minor = b;
            patch = c;
            pre_release = pre;
          }))
unfolding parse_version trim_prefix_v is_space
parse-print a b c pre ha hb hc hp =
    let bare = print_version-bare a b c pre hp in
    let trimmed = trim_space-bare (print_version a b c pre) bare in
    (
      rw (trimmed, trim_prefix_v-print a b c pre, trimmed)
          (parse_trimmed-print _ a b c pre ha hb hc),
      rw (trim_space-bare (cat "v" (print_version a b c pre)) bare, trimmed)
          (parse_trimmed-print _ a b c pre ha hb hc),
    )
