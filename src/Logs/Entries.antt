-- ===== src/Logs/Entries.antt =====
-- core/logs/logs.go: log entries and the filters that select them. Texts are their bytes, and an
-- instant is a number with 0 for Go's zero time.
use sora_client.Prelude.{
  ℕ, ◌+◌, Bool, true, false, ◌&&◌, ◌||◌, not, Option, none, some, List, [], ◌∷◌, length, any, ltb,
  leb, ◌==◌,
}

abbrev pub Bytes : Type 0
Bytes = List ℕ

abbrev pub same : Bytes → Bytes → Bool
same [] [] = true
same [] (d ∷ t) = false
same (c ∷ s) [] = false
same (c ∷ s) (d ∷ t) = c == d && same s t

-- `LevelDebug` to `LevelError` are 1 to 4; 0 is no level.
abbrev pub level_debug : ℕ
level_debug = 1

abbrev pub level_info : ℕ
level_info = 2

abbrev pub level_warning : ℕ
level_warning = 3

abbrev pub level_error : ℕ
level_error = 4

abbrev pub is_level : ℕ → Bool
is_level n = leb level_debug n && leb n level_error

pub record Entry : Type 0 where
  pub seq : ℕ
  pub time : ℕ
  pub level : ℕ
  pub source : Bytes
  pub message : Bytes
  pub repeat : ℕ

abbrev pub size : Entry → ℕ
size e = length e.message + length e.source + 48

-- `Filter`; a nil pattern is `none`, and any other decides a message.
pub record Filter : Type 0 where
  pub min_level : ℕ
  pub sources : List Bytes
  pub contains : Bytes
  pub pattern : Option (Bytes → Bool)
  pub since : ℕ
  pub until : ℕ

abbrev pub is_empty : Bytes → Bool
is_empty [] = true
is_empty (c ∷ s) = false

abbrev starts_with : Bytes → Bytes → Bool
starts_with s [] = true
starts_with [] (d ∷ t) = false
starts_with (c ∷ s) (d ∷ t) = c == d && starts_with s t

-- `strings.Contains`
substring : Bytes → Bytes → Bool
substring [] t = is_empty t
substring (c ∷ s) t = starts_with (c ∷ s) t || substring s t

-- `lower` is `strings.ToLower`.
module _ (lower : Bytes → Bytes) where
  -- `match`
  unfoldable pub matches : Filter → Entry → Bool
  unfolding substring
  matches f e =
      not (ltb e.level f.min_level)
      && (length f.sources == 0 || any (same e.source) f.sources)
      && (f.since == 0 || not (ltb e.time f.since))
      && (f.until == 0 || not (ltb f.until e.time))
      && (is_empty f.contains || substring (lower e.message) (lower f.contains))
      && elim f.pattern [ none ↦ true | some p ↦ p e.message ]
