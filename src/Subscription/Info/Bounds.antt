-- ===== src/Subscription/Info/Bounds.antt =====
-- core/subscription/info.go: what a provider says is bounded before it is shown or acted on.
use Prim.Native.Char.{Char, code}
use Prim.Native.String.{◌∷◌ as scons, [] as snil}
use sora_client.Prelude.{
  ℕ, zero, suc, ◌≤◌, ◌≡◌, refl, String, Bool, true, false, ◌&&◌, ◌||◌, not, leb, ◌==◌, ◌∙◌, Option,
  none, some, arith, str_eq, if-both, if-cases,
}
use sora_client.Errs.Line.{chars, contains_any, trim_space, trim_space-clean, chars-trim_space}
use sora_client.Plan.Names.{lookup}
use sora_client.Subscription.Info.{
  Decoders, Headers, Info, Figures, is_dropped, clean_loop, clean_text, max_title_runes,
  max_announce_runes, max_interval_hours, disposition_name, or_named, value_of, interval_of,
  with_usage, has_figure, info_of, parse_info,
}

chars-clean_loop :
    (left : ℕ) (multiline : Bool) (s : String) → chars (clean_loop left multiline s) ≤ left
unfolding clean_loop
chars-clean_loop zero multiline s = omega arith
chars-clean_loop (suc left) multiline snil = omega arith
chars-clean_loop (suc left) multiline (scons c s) =
    if-both (λ t. chars t ≤ suc left) (is_dropped multiline c) _ _
      (chars-clean_loop (suc left) multiline s) (omega (arith, chars-clean_loop left multiline s))

clean_loop-clean :
    (left : ℕ) (multiline : Bool) (s : String)
    → contains_any (is_dropped multiline) (clean_loop left multiline s) ≡ false
unfolding clean_loop
clean_loop-clean zero multiline s = refl
clean_loop-clean (suc left) multiline snil = refl
clean_loop-clean (suc left) multiline (scons c s) =
    if-cases (λ t. contains_any (is_dropped multiline) t ≡ false) (is_dropped multiline c) _ _
      (λ e. clean_loop-clean (suc left) multiline s) (λ e. rw e (clean_loop-clean left multiline s))

-- The characters that may stay: those from the blank to the tilde, those from code 160 on, and the line
-- break where it is allowed. The others are the control characters of Unicode.
abbrev pub is_shown : Bool → Char → Bool
is_shown breaks c =
    (leb 32 (code c) && leb (code c) 126) || (leb 160 (code c) || (breaks && code c == 10))

-- A text of at most so many characters, all of which may stay.
abbrev pub IsClean : ℕ → Bool → String → Type 0
IsClean limit breaks t = (chars t ≤ limit) × (contains_any (λ c. not (is_shown breaks c)) t ≡ false)

not_shown-is_dropped : (breaks : Bool) (c : Char) → not (is_shown breaks c) ≡ is_dropped breaks c
unfolding is_dropped
not_shown-is_dropped breaks c = ground arith

contains_any-same :
    (p q : Char → Bool) (t : String)
    → ((c : Char) → p c ≡ q c)
    → contains_any p t ≡ contains_any q t
contains_any-same p q snil h = refl
contains_any-same p q (scons c t) h = rw (h c, contains_any-same p q t h) refl

clean_text-IsClean :
    (v : String) (limit : ℕ) (multiline : Bool)
    → IsClean limit multiline (clean_text v limit multiline)
unfolding clean_text
clean_text-IsClean v limit multiline =
    let loop = clean_loop limit multiline (trim_space v) in
    (
      omega (arith, chars-trim_space loop, chars-clean_loop limit multiline (trim_space v)),
      contains_any-same (λ c. not (is_shown multiline c)) (is_dropped multiline) (trim_space loop)
            (not_shown-is_dropped multiline)
          ∙ trim_space-clean (is_dropped multiline) loop
              (clean_loop-clean limit multiline (trim_space v)),
    )

-- What an `Info` must keep to.
pub record IsBounded (info : Info) : Type 0 where
  pub title : IsClean max_title_runes false info.title
  pub announce : IsClean max_announce_runes true info.announce
  pub interval : info.update_interval ≤ max_interval_hours

or_named-IsClean :
    (d : Decoders) (values : Headers) (title : String)
    → IsClean max_title_runes false title
    → IsClean max_title_runes false (or_named d values title)
unfolding or_named
or_named-IsClean d values title h =
    if-both (IsClean max_title_runes false) (str_eq title "") _ _
      (clean_text-IsClean (disposition_name d (value_of "content-disposition" values))
        max_title_runes false)
      h

interval_of-le : (o : Option ℕ) → interval_of o ≤ max_interval_hours
unfolding interval_of
interval_of-le none = omega arith
interval_of-le (some hours) = ground arith

with_usage-IsBounded :
    (fields : Figures) (info : Info) → IsBounded info → IsBounded (with_usage fields info)
unfolding with_usage
with_usage-IsBounded fields info h =
    if-both IsBounded
      (not (has_figure (lookup "upload" fields)) && not (has_figure (lookup "download" fields))) _ _
      h (record { title = h.title; announce = h.announce; interval = h.interval })

-- Whatever a provider sends, and whatever the decoders make of it, `parseInfo` gives a title of at most 128
-- characters without control characters, an announcement of at most 2048 characters whose only control
-- characters are line breaks, and an interval of at most a year.
pub parse_info-IsBounded :
    (d : Decoders) (header : Headers) (body : String) → IsBounded (parse_info d header body)
unfolding parse_info info_of
parse_info-IsBounded d header body = with_usage-IsBounded _ _ (record {
  title = or_named-IsClean d _ _ (clean_text-IsClean _ max_title_runes false);
  announce = clean_text-IsClean _ max_announce_runes true;
  interval = interval_of-le _;
})
