-- ===== src/Errs/Line.antt =====
-- core/errs/errs.go: `oneLine`, with the functions of the Go library that it calls. A text is its
-- code points.
use Prim.Native.Char.{Char, code}
use Prim.Native.String.{◌∷◌ as scons, [] as snil}
use sora_client.Prelude.{
  ℕ, suc, ◌≤◌, if-both, or_left, or_right, String, ◌≡◌, refl, Bool, false, ◌||◌, ◌&&◌, List, [],
  ◌∷◌, arith, ◌==◌, leb, Bool-cases, inl, inr, ◌∙◌, if◌then◌else◌,
}

abbrev pub cat : String → String → String
cat snil t = t
cat (scons c s) t = scons c (cat s t)

-- The number of code points.
abbrev pub chars : String → ℕ
chars snil = 0
chars (scons c s) = suc (chars s)

abbrev pub contains_any : (Char → Bool) → String → Bool
contains_any p snil = false
contains_any p (scons c s) = p c || contains_any p s

-- `unicode.IsSpace`
unfoldable pub is_space : Char → Bool
is_space c =
    let n = code c in
    (leb 9 n && leb n 13)
    || n == 32
    || n == 133
    || n == 160
    || n == 5760
    || (leb 8192 n && leb n 8202)
    || n == 8232
    || n == 8233
    || n == 8239
    || n == 8287
    || n == 12288

trim_left : String → String
trim_left snil = snil
trim_left (scons c s) = let rest = trim_left s in if is_space c then rest else scons c s

-- One character more in front of a text that is trimmed at its right end.
prepend_trimmed : Char → String → String
prepend_trimmed c snil = if is_space c then snil else scons c snil
prepend_trimmed c (scons d s) = scons c (scons d s)

trim_right : String → String
unfolding prepend_trimmed
trim_right snil = snil
trim_right (scons c s) = prepend_trimmed c (trim_right s)

-- `strings.TrimSpace`
unfoldable pub trim_space : String → String
unfolding is_space trim_left trim_right
trim_space s = trim_right (trim_left s)

unfoldable pub is_newline : Char → Bool
is_newline c = code c == 10 || code c == 13

flush : String → List String → List String
flush snil rest = rest
flush (scons c s) rest = scons c s ∷ rest

-- `strings.FieldsFunc`; `current` is the field that is being read.
fields_func : (Char → Bool) → String → String → List String
unfolding flush
fields_func p snil current = flush current []
fields_func p (scons c s) current =
    let cut = flush current (fields_func p s snil) in
    let more = fields_func p s (cat current (scons c snil)) in if p c then cut else more

-- `strings.Join`
pub join : String → List String → String
join sep [] = snil
join sep (x ∷ []) = x
join sep (x ∷ y ∷ rest) = cat x (cat sep (join sep (y ∷ rest)))

unfoldable pub one_line : String → String
unfolding is_newline trim_space fields_func join
one_line s =
    if contains_any is_newline s then join " " (fields_func is_newline s snil) else trim_space s

one_line_folds : one_line "dial\r\nfake: record\n" ≡ "dial fake: record"
unfolding one_line
one_line_folds = refl

pub contains_any-cat :
    (p : Char → Bool) (s t : String)
    → contains_any p (cat s t) ≡ (contains_any p s || contains_any p t)
contains_any-cat p snil t = refl
contains_any-cat p (scons c s) t = ground (arith, contains_any-cat p s t)

trim_left-clean :
    (p : Char → Bool) (s : String) → contains_any p s ≡ false → contains_any p (trim_left s) ≡ false
unfolding trim_left
trim_left-clean p snil h = h
trim_left-clean p (scons c s) h = ground (arith, trim_left-clean p s)

prepend_trimmed-clean :
    (p : Char → Bool) (c : Char) (s : String)
    → p c ≡ false
    → contains_any p s ≡ false
    → contains_any p (prepend_trimmed c s) ≡ false
unfolding prepend_trimmed
prepend_trimmed-clean p c snil h k = elim (Bool-cases (is_space c)) [
  | inl e ↦ rw e
  | inr e ↦ rw e (rw h)
]
prepend_trimmed-clean p c (scons d s) h k = ground arith

trim_right-clean :
    (p : Char → Bool) (s : String)
    → contains_any p s ≡ false
    → contains_any p (trim_right s) ≡ false
unfolding trim_right
trim_right-clean p snil h = h
trim_right-clean p (scons c s) h =
    prepend_trimmed-clean p c (trim_right s) (ground arith) (trim_right-clean p s (ground arith))

-- Every field lacks the separators.
abbrev AllClean : (Char → Bool) → List String → Type 0
AllClean p [] = Unit
AllClean p (x ∷ xs) = (contains_any p x ≡ false) × AllClean p xs

flush-clean :
    (p : Char → Bool) (s : String) (rest : List String)
    → contains_any p s ≡ false
    → AllClean p rest
    → AllClean p (flush s rest)
unfolding flush
flush-clean p snil rest h k = k
flush-clean p (scons c s) rest h k = (h, k)

fields_func-clean :
    (p : Char → Bool) (s current : String)
    → contains_any p current ≡ false
    → AllClean p (fields_func p s current)
unfolding fields_func
fields_func-clean p snil current h = flush-clean p current [] h tt
fields_func-clean p (scons c s) current h = elim (Bool-cases (p c)) [
  | inl e ↦ rw e (flush-clean p current _ h (fields_func-clean p s snil refl))
  | inr e ↦ rw e (
      fields_func-clean p s (cat current (scons c snil))
        (contains_any-cat p current (scons c snil) ∙ rw (h, e)))
]

join-clean :
    (p : Char → Bool) (sep : String) (xs : List String)
    → contains_any p sep ≡ false
    → AllClean p xs
    → contains_any p (join sep xs) ≡ false
unfolding join
join-clean p sep [] h k = refl
join-clean p sep (x ∷ []) h k = k.0
join-clean p sep (x ∷ y ∷ rest) h k = ground (
  arith,
  contains_any-cat p x (cat sep (join sep (y ∷ rest))),
  contains_any-cat p sep (join sep (y ∷ rest)),
  join-clean p sep (y ∷ rest),
)

-- What `oneLine` makes of a text, the detail that `New` and `Newf` store, never holds a line feed or a
-- carriage return.
pub one_line-clean : (s : String) → contains_any is_newline (one_line s) ≡ false
unfolding one_line
one_line-clean s = elim (Bool-cases (contains_any is_newline s)) [
  | inl e ↦ rw e (join-clean is_newline " " _ refl (fields_func-clean is_newline s snil refl))
  | inr e ↦ rw e (trim_right-clean is_newline (trim_left s) (trim_left-clean is_newline s e))
]

trim_left-bare : (s : String) → contains_any is_space s ≡ false → trim_left s ≡ s
unfolding trim_left
trim_left-bare snil h = refl
trim_left-bare (scons c s) h = rw (or_left _ (contains_any is_space s) h)

trim_right-bare : (s : String) → contains_any is_space s ≡ false → trim_right s ≡ s
unfolding trim_right prepend_trimmed
trim_right-bare snil h = refl
trim_right-bare (scons c snil) h = rw (or_left (is_space c) false h)
trim_right-bare (scons c (scons d s)) h =
    rw (trim_right-bare (scons d s) (or_right (is_space c) _ h))

-- A text with no blank at all is trimmed already.
pub trim_space-bare : (s : String) → contains_any is_space s ≡ false → trim_space s ≡ s
unfolding trim_space
trim_space-bare s h = rw (trim_left-bare s h) (trim_right-bare s h)

chars-trim_left : (s : String) → chars (trim_left s) ≤ chars s
unfolding trim_left
chars-trim_left snil = omega arith
chars-trim_left (scons c s) = ground (arith, chars-trim_left s)

chars-prepend_trimmed : (c : Char) (s : String) → chars (prepend_trimmed c s) ≤ suc (chars s)
unfolding prepend_trimmed
chars-prepend_trimmed c snil =
    if-both (λ t. chars t ≤ 1) (is_space c) snil (scons c snil) (omega arith) (omega arith)
chars-prepend_trimmed c (scons d s) = omega arith

chars-trim_right : (s : String) → chars (trim_right s) ≤ chars s
unfolding trim_right
chars-trim_right snil = omega arith
chars-trim_right (scons c s) =
    omega (arith, chars-trim_right s, chars-prepend_trimmed c (trim_right s))

-- Trimming makes no text longer, and brings in no character.
pub chars-trim_space : (s : String) → chars (trim_space s) ≤ chars s
unfolding trim_space
chars-trim_space s = omega (arith, chars-trim_left s, chars-trim_right (trim_left s))

pub trim_space-clean :
    (p : Char → Bool) (s : String)
    → contains_any p s ≡ false
    → contains_any p (trim_space s) ≡ false
unfolding trim_space
trim_space-clean p s h = trim_right-clean p (trim_left s) (trim_left-clean p s h)
