-- ===== src/Logs.antt =====
-- core/logs/logs.go and core/logs/watch.go: the bounded in-memory log. Texts are their bytes, an
-- instant is a number with 0 for Go's zero time, and a bound that is not positive is 0. The
-- arguments of the section are `HideDestinations` of core/logs/privacy.go, which is four regular
-- expressions, and `strings.ToLower`.
pub mod Entries
pub mod Bounds
pub mod Sequence
pub mod Query
pub mod Pages
use sora_client.Prelude.{
  ℕ, zero, suc, ◌+◌, ◌-◌, Bool, true, false, ◌&&◌, ◌||◌, not, Option, none, some, List, [], ◌∷◌,
  ◌++◌, length, take, keep, any, ltb, leb, ◌==◌, u32, u64, if◌then◌else◌,
}
use sora_client.Logs.Entries.{
  Bytes, same, level_info, is_level, Entry, size, Filter, is_empty, matches,
}
use mathlib.Core.List.{reverse}

pub record Settings : Type 0 where
  pub capture_level : ℕ
  pub record_destinations : Bool
  pub max_entries : ℕ
  pub max_bytes : ℕ

abbrev pub default_max_entries : ℕ
default_max_entries = 20000

abbrev pub default_max_bytes : ℕ
default_max_bytes = 8388608

abbrev pub max_message_bytes : ℕ
max_message_bytes = 4096

-- Thirty seconds.
abbrev pub fold_window : ℕ
fold_window = 30000000000

unfoldable pub default_settings : Settings
default_settings = record {
  capture_level = level_info;
  record_destinations = true;
  max_entries = default_max_entries;
  max_bytes = default_max_bytes;
}

unfoldable pub normalized : Settings → Settings
normalized s = record s {
  capture_level = if is_level s.capture_level then s.capture_level else level_info;
  max_entries = if s.max_entries == 0 then default_max_entries else s.max_entries;
  max_bytes = if s.max_bytes == 0 then default_max_bytes else s.max_bytes;
}

-- A watcher's channel holds `queue`, and has room for `buffer` entries.
pub record Watcher : Type 0 where
  pub filter : Filter
  pub buffer : ℕ
  pub queue : List Entry
  pub lost : ℕ

-- Oldest entries first.
pub record Center : Type 0 where
  pub settings : Settings
  pub entries : List Entry
  pub bytes : ℕ
  pub next : ℕ
  pub dropped : ℕ
  pub watchers : List Watcher

unfoldable pub new_center : Settings → Center
unfolding normalized
new_center s = record {
  settings = normalized s;
  entries = [];
  bytes = 0;
  next = 1;
  dropped = 0;
  watchers = [];
}

-- The loop of `evict`: how many bytes and entries are left, and how many entries have gone.
unfoldable pub evict_loop : ℕ → ℕ → List Entry → ℕ → ℕ → List Entry × ℕ × ℕ
evict_loop max_entries max_bytes [] bytes drop = ([], bytes, drop)
evict_loop max_entries max_bytes (e ∷ rest) bytes drop =
    let more = evict_loop max_entries max_bytes rest (bytes - size e) (drop + 1) in
    if ltb max_entries (length (e ∷ rest)) || ltb max_bytes bytes
    then more
    else (e ∷ rest, bytes, drop)

unfoldable pub evict : Center → Center
evict c =
    let (entries, bytes, drop) =
      evict_loop c.settings.max_entries c.settings.max_bytes c.entries c.bytes 0 in
    record c { entries = entries; bytes = bytes; dropped = u64 (c.dropped + drop) }

unfoldable pub set_settings : Settings → Center → Center
unfolding normalized evict
set_settings s c = evict (record c { settings = normalized s })

unfoldable pub clear : Center → Center
clear c = record c { entries = []; bytes = 0 }

-- `strings.TrimRight(message, "\r\n")`, one byte at a time from the right end.
trimmed_cons : ℕ → Bytes → Bytes
trimmed_cons c [] = if c == 13 || c == 10 then [] else c ∷ []
trimmed_cons c (d ∷ s) = c ∷ d ∷ s

trim_right : Bytes → Bytes
unfolding trimmed_cons
trim_right [] = []
trim_right (c ∷ s) = trimmed_cons c (trim_right s)

-- " [cut]"
abbrev pub cut_mark : Bytes
cut_mark = 32 ∷ 91 ∷ 99 ∷ 117 ∷ 116 ∷ 93 ∷ []

unfoldable pub cut : Bytes → Bytes
cut s = if ltb max_message_bytes (length s) then take max_message_bytes s ++ cut_mark else s

-- The last entry and those before it.
unfoldable pub split_last : List Entry → Option (List Entry × Entry)
split_last [] = none
split_last (e ∷ rest) = elim (split_last rest) [
  | none ↦ some ([], e)
  | some r ↦ some (e ∷ r.0, r.1)
]

module _ (hide : Bytes → Bytes) (lower : Bytes → Bytes) where
  -- `notify`
  unfoldable pub notify : Entry → List Watcher → List Watcher
  notify e [] = []
  notify e (w ∷ rest) =
      (if not (matches lower w.filter e)
        then w
        else if ltb (length w.queue) w.buffer
        then record w { queue = w.queue ++ e ∷ [] }
        else record w { lost = u64 (w.lost + 1) })
      ∷ notify e rest

  -- Whether a message is folded into the entry before it.
  abbrev pub folds : ℕ → ℕ → Bytes → Bytes → Entry → Bool
  folds at level source message last =
      same last.source source
      && last.level == level
      && same last.message message
      && ltb at (last.time + fold_window)

  -- A message that opens an entry of its own.
  unfoldable pub write_new : ℕ → ℕ → Bytes → Bytes → Center → Center
  unfolding evict notify
  write_new at level source message c =
      let e : Entry = record {
        seq = c.next;
        time = at;
        level = level;
        source = source;
        message = message;
        repeat = 1;
      } in
      let c1 = evict (record c {
        next = u64 (c.next + 1);
        entries = c.entries ++ e ∷ [];
        bytes = c.bytes + size e;
      }) in
      record c1 { watchers = notify e c1.watchers }

  unfoldable pub write_folded : ℕ → List Entry → Entry → Center → Center
  unfolding notify
  write_folded at front last c =
      let e = record last { repeat = u32 (last.repeat + 1); time = at } in
      record c { entries = front ++ e ∷ []; watchers = notify e c.watchers }

  write_after : Option (List Entry × Entry) → ℕ → ℕ → Bytes → Bytes → Center → Center
  unfolding write_new write_folded
  write_after none at level source message c = write_new at level source message c
  write_after (some (front, last)) at level source message c =
      if folds at level source message last
      then write_folded at front last c
      else write_new at level source message c

  -- `Write`; `now` is what the clock reads, and `core` and `subscription` are the two source names
  -- whose messages are never masked.
  unfoldable pub write : Bytes → Bytes → ℕ → ℕ → ℕ → Bytes → Bytes → Center → Center
  unfolding trim_right cut split_last write_after
  write core subscription now at level source message c =
      let text = cut (trim_right message) in
      let date = if at == 0 then now else at in
      let masked =
        if not c.settings.record_destinations
          && not (same source core)
          && not (same source subscription)
        then hide text
        else text in
      if is_empty (trim_right message) || ltb level c.settings.capture_level
      then c
      else write_after (split_last c.entries) date level source masked c
