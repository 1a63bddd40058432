-- ===== src/Secret/Store.antt =====
-- core/secret/store.go and format.go: `Store`. A failure is its code and its key. `file` is the map
-- that the vault file holds, which a failed write leaves as it is; wiping is not seen.
pub mod Kept
pub mod Atomic
use Prim.Native.Char.{Char, code}
use sora_client.Prelude.{
  ℕ, String, Bool, true, false, ◌||◌, ◌&&◌, not, Option, none, some, List, [], ◌∷◌, ◌⊎◌, inl, inr,
  length, ltb, leb, ◌==◌, str_eq, if◌then◌else◌,
}
use sora_client.Errs.{Code, Key, invalid_argument, internal, resource_exhausted, not_found}
use sora_client.Errs.Line.{contains_any}
use sora_client.Plan.Names.{lookup, has_key, len}
use sora_client.Secret.Items.{Bytes, Items, remove, store, remove_all, store_all}

abbrev pub max_secret_bytes : ℕ
max_secret_bytes = 65536

abbrev pub max_secrets : ℕ
max_secrets = 4096

abbrev pub max_vault_bytes : ℕ
max_vault_bytes = 8388608

abbrev pub max_reference_len : ℕ
max_reference_len = 64

abbrev pub Failure : Type 0
Failure = Code × Key

abbrev pub reference_invalid : Failure
reference_invalid = (invalid_argument, "core.secret.reference_invalid")

abbrev pub too_large : Failure
too_large = (resource_exhausted, "core.secret.too_large")

abbrev pub full : Failure
full = (resource_exhausted, "core.secret.store_unavailable")

abbrev pub unavailable : Failure
unavailable = (internal, "core.secret.store_unavailable")

abbrev pub not_stored : Failure
not_stored = (not_found, "core.secret.not_found")

pub record Store : Type 0 where
  pub items : Items
  pub file : Items
  pub closed : Bool

-- What `seal` and `writeFile` answer: the size of the sealed map or an error, and an error or nil.
pub record World : Type 0 where
  pub seal : Items → Failure ⊎ ℕ
  pub write_file : Items → Option Failure

-- A character that is neither a letter, a digit, a dash nor an underscore.
abbrev pub is_unsupported : Char → Bool
is_unsupported c = not (
    (leb 97 (code c) && leb (code c) 122)
    || ((leb 65 (code c) && leb (code c) 90)
        || ((leb 48 (code c) && leb (code c) 57) || ((code c == 45) || (code c == 95)))))

-- `ValidateReference`
unfoldable pub validate_reference : String → Option Failure
validate_reference reference =
    if str_eq reference ""
    then some reference_invalid
    else if ltb max_reference_len (len reference)
    then some reference_invalid
    else if contains_any is_unsupported reference
    then some reference_invalid
    else none

unfoldable pub opened : Items → Store
opened file = record { items = file; file = file; closed = false }

unfoldable pub with_items : Items → Store → Store
with_items items s = record { items = items; file = s.file; closed = s.closed }

unfoldable pub written : Option Failure → Store → Option Failure × Store
written (some e) s = (some e, s)
written none s = (none, record { items = s.items; file = s.items; closed = s.closed })

unfoldable pub write_sealed : World → Failure ⊎ ℕ → Store → Option Failure × Store
write_sealed w (inl e) s = (some e, s)
write_sealed w (inr size) s =
    if ltb max_vault_bytes size then (some too_large, s) else written (w.write_file s.items) s

-- `writeLocked`
unfoldable pub write_locked : World → Store → Option Failure × Store
write_locked w s = write_sealed w (w.seal s.items) s

-- What becomes of a reference when a write fails: its previous material comes back.
unfoldable pub put_back : String → Option Bytes → Items → Items
put_back reference none items = remove reference items
put_back reference (some previous) items = store reference previous items

unfoldable pub undo : String → Option Bytes → Option Failure × Store → Option Failure × Store
undo reference previous (none, s) = (none, s)
undo reference previous (some e, s) = (some e, with_items (put_back reference previous s.items) s)

-- The part of `Put` under the lock.
unfoldable pub put_locked : World → String → Bytes → Store → Option Failure × Store
put_locked w reference material s =
    if s.closed
    then (some unavailable, s)
    else if not (has_key reference s.items) && leb max_secrets (length s.items)
    then (some full, s)
    else undo reference (lookup reference s.items)
        (write_locked w (with_items (store reference material s.items) s))

unfoldable pub check_material : Bytes → Option Failure
check_material material =
    if length material == 0
    then some reference_invalid
    else if ltb max_secret_bytes (length material)
    then some too_large
    else none

-- The first failure of two checks.
unfoldable pub first_of : Option Failure → Option Failure → Option Failure
first_of (some e) later = some e
first_of none later = later

-- A check before the lock is taken.
unfoldable pub after : Option Failure → Option Failure × Store → Store → Option Failure × Store
after (some e) r s = (some e, s)
after none r s = r

unfoldable pub put : World → String → Bytes → Store → Option Failure × Store
put w reference material s =
    after (first_of (validate_reference reference) (check_material material))
      (put_locked w reference material s) s

unfoldable pub found : Option Bytes → Failure ⊎ Bytes
found none = inl not_stored
found (some b) = inr b

unfoldable pub get_valid : Option Failure → String → Store → Failure ⊎ Bytes
get_valid (some e) reference s = inl e
get_valid none reference s = if s.closed then inl unavailable else found (lookup reference s.items)

unfoldable pub get : String → Store → Failure ⊎ Bytes
get reference s = get_valid (validate_reference reference) reference s

unfoldable pub delete_stored : World → String → Option Bytes → Store → Option Failure × Store
delete_stored w reference none s = (none, s)
delete_stored w reference (some previous) s =
    undo reference (some previous) (write_locked w (with_items (remove reference s.items) s))

-- The part of `Delete` under the lock.
unfoldable pub delete_locked : World → String → Store → Option Failure × Store
delete_locked w reference s =
    if s.closed
    then (some unavailable, s)
    else delete_stored w reference (lookup reference s.items) s

unfoldable pub delete : World → String → Store → Option Failure × Store
delete w reference s = after (validate_reference reference) (delete_locked w reference s) s

unfoldable pub check_puts : Items → Option Failure
check_puts [] = none
check_puts ((reference, material) ∷ rest) =
    first_of (first_of (validate_reference reference) (check_material material)) (check_puts rest)

unfoldable pub check_deletes : List String → Option Failure
check_deletes [] = none
check_deletes (reference ∷ rest) = first_of (validate_reference reference) (check_deletes rest)

-- A failed write brings the previous map back.
unfoldable pub restore : Items → Option Failure × Store → Option Failure × Store
restore previous (none, s) = (none, s)
restore previous (some e, s) = (some e, with_items previous s)

unfoldable pub apply_next : World → Items → Store → Option Failure × Store
apply_next w next s =
    if ltb max_secrets (length next)
    then (some full, s)
    else restore s.items (write_locked w (with_items next s))

-- `Apply`; `puts` is the map in the order in which the loops over it meet its entries.
unfoldable pub apply : World → Items → List String → Store → Option Failure × Store
apply w puts deletes s =
    after (first_of (check_puts puts) (check_deletes deletes))
      (if s.closed
        then (some unavailable, s)
        else apply_next w (store_all puts (remove_all deletes s.items)) s)
      s

unfoldable pub has : String → Store → Bool
has reference s = elim (validate_reference reference) [
  | none ↦ has_key reference s.items
  | some e ↦ false
]

unfoldable pub count : Store → ℕ
count s = length s.items

unfoldable pub close : Store → Store
close s = if s.closed then s else record { items = []; file = s.file; closed = true }
