-- ===== src/Control/Book/Record.antt =====
-- core/control/subscriptions.go: the records of subscriptions, where they are stored, and the book. A
-- server is its wire form. `spawned` lists the subscriptions for which a `refresh` was started in the
-- background, the latest first.
use sora_client.Prelude.{
  ℕ, zero, suc, ◌*◌, String, Bool, not, Option, none, some, List, [], ◌∷◌, ◌++◌, take, drop, ltb,
  min, str_eq, if◌then◌else◌,
}
use sora_client.Errs.{Code, Key}
use sora_client.Errs.Line.{cat}
use sora_client.Engine.Version.Decimal.{show}
use sora_client.Subscription.Info.{Info}
use sora_client.Secret.Items.{Bytes, Items}
use sora_client.Secret.Store.{Failure, Store, World, unavailable, apply}

abbrev pub max_subscriptions : ℕ
max_subscriptions = 100

-- Durations are in nanoseconds.
abbrev pub hour : ℕ
hour = 3600000000000

abbrev pub default_update_interval : ℕ
default_update_interval = 24 * hour

abbrev pub min_update_interval : ℕ
min_update_interval = hour

abbrev pub max_update_interval : ℕ
max_update_interval = 720 * hour

abbrev pub record_version : ℕ
record_version = 1

abbrev pub list_chunk_bytes : ℕ
list_chunk_bytes = 61440

unfoldable pub record_ref : String → String
record_ref id = cat "u1_" (cat id "_rec")

unfoldable pub list_ref : String → ℕ → String
list_ref id part = cat "u1_" (cat id (cat "_l" (show part)))

-- `storedError`
pub record StoredError : Type 0 where
  pub code : Code
  pub key : Key
  pub detail : String

-- `subscriptionRecord`
pub record Record : Type 0 where
  pub version : ℕ
  pub id : String
  pub url : String
  pub name : String
  pub user_agent : String
  pub auto_update : Bool
  pub interval : ℕ
  pub created : ℕ
  pub last_attempt : ℕ
  pub last_success : ℕ
  pub failures : ℕ
  pub last_error : Option StoredError
  pub info : Info
  pub servers : List String
  pub list_parts : ℕ

abbrev pub Records : Type 0
Records = List (String × Record)

abbrev pub Lists : Type 0
Lists = List (String × List Bytes)

-- Whether there is a store and a fetcher stands in `stores` and `fetches`.
pub record Book : Type 0 where
  pub stores : Bool
  pub fetches : Bool
  pub records : Records
  pub lists : Lists
  pub updating : List String
  pub vault : Store
  pub spawned : List String

-- `json.Marshal` of a record and `proto.Marshal` of a list, `none` where they fail; `sort.Strings`; and
-- `errs.Detail` of a failure.
pub record Codec : Type 0 where
  pub record_bytes : Record → Option Bytes
  pub list_bytes : List Bytes → Option Bytes
  pub sort : List String → List String
  pub detail_of : Failure → String

abbrev pub set {ℓ} : {A : Type ℓ} → String → A → List (String × A) → List (String × A)
set k a [] = (k, a) ∷ []
set k a ((j, b) ∷ rest) =
    let later = set k a rest in if str_eq k j then (k, a) ∷ rest else (j, b) ∷ later

abbrev pub unset {ℓ} : {A : Type ℓ} → String → List (String × A) → List (String × A)
unset k [] = []
unset k ((j, b) ∷ rest) = let later = unset k rest in if str_eq k j then later else (j, b) ∷ later

abbrev pub without : String → List String → List String
without k [] = []
without k (j ∷ rest) = let later = without k rest in if str_eq k j then later else j ∷ later

-- `subscriptionRecord.interval`, which takes that of the user before that of the provider, whose
-- interval is in hours.
unfoldable pub interval_of : Record → ℕ
interval_of rec =
    if ltb 0 rec.interval
    then rec.interval
    else if not (ltb (rec.info.update_interval * hour) min_update_interval)
    then min (rec.info.update_interval * hour) max_update_interval
    else default_update_interval

-- The references of the parts from `part` on, `left` of them.
unfoldable pub part_refs : String → ℕ → ℕ → List String
part_refs id part zero = []
part_refs id part (suc left) = list_ref id part ∷ part_refs id (suc part) left

-- A list cut into parts, and where each is stored; `fuel` is the length of the list.
unfoldable pub part_puts : String → ℕ → ℕ → Bytes → Items
part_puts id part zero raw = []
part_puts id part (suc fuel) [] = []
part_puts id part (suc fuel) (b ∷ raw) =
    (list_ref id part, take list_chunk_bytes (b ∷ raw))
    ∷ part_puts id (suc part) fuel (drop list_chunk_bytes (b ∷ raw))

-- `b.srv.secrets.Apply`
unfoldable pub stored_in : Book → Option Failure × Store → Option Failure × Book
stored_in b (e, vault) = (
  e,
  record {
    stores = b.stores;
    fetches = b.fetches;
    records = b.records;
    lists = b.lists;
    updating = b.updating;
    vault = vault;
    spawned = b.spawned;
  },
)

unfoldable pub persist_raw :
    World → Option Bytes → Record → Items → List String → Book → Option Failure × Book
persist_raw w none rec puts deletes b = (some unavailable, b)
persist_raw w (some raw) rec puts deletes b =
    stored_in b (apply w ((puts ++ (record_ref rec.id, raw) ∷ [])) deletes b.vault)

-- `persistLocked`
unfoldable pub persist : Codec → World → Record → Items → List String → Book → Option Failure × Book
persist c w rec puts deletes b = persist_raw w (c.record_bytes rec) rec puts deletes b
