-- ===== src/Control/Book/Update.antt =====
-- core/control/subscriptions.go: `refresh`, which is two steps, since the book is not locked while the
-- subscription is fetched, and `applyUpdateLocked`. The answer of the fetch comes with the second step,
-- its failures as `errs.From` makes them.
use sora_client.Prelude.{
  ℕ, ◌+◌, ◌-◌, String, not, Option, none, some, List, [], ◌∷◌, ◌++◌, ◌⊎◌, inl, inr, length, map,
  keep, str_eq, if◌then◌else◌,
}
use sora_client.Errs.{unsupported}
use sora_client.Plan.Names.{lookup, mem}
use sora_client.Subscription.Info.{Info}
use sora_client.Secret.Items.{Bytes, Items}
use sora_client.Secret.Store.{Failure, World, unavailable}
use sora_client.Control.Book.Record.{
  Record, Book, Codec, StoredError, part_refs, part_puts, set, without, persist,
}
use sora_client.Control.Book.Save.{no_subscription}

-- `importedServer`
pub record Imported : Type 0 where
  pub reference : String
  pub document : Bytes
  pub spec : Bytes

-- What the first step of `refresh` comes to.
pub data Begun : Type 0 where
  refused : Failure → Begun
  busy : Begun
  fetching : String → String → Begun

-- What the provider sent: an error, or what it says of itself and the servers or an error.
abbrev pub Answer : Type 0
Answer = Failure ⊎ (Info × (Failure ⊎ List Imported))

unfoldable pub with_updating : List String → Book → Book
with_updating updating b = record {
  stores = b.stores;
  fetches = b.fetches;
  records = b.records;
  lists = b.lists;
  updating = updating;
  vault = b.vault;
  spawned = b.spawned;
}

unfoldable pub begin_found : String → Option Record → Book → Begun × Book
begin_found id none b = (Begun.refused no_subscription, b)
begin_found id (some rec) b =
    if mem id b.updating
    then (Begun.busy, b)
    else if not b.fetches
    then (Begun.refused (unsupported, "core.subscription.fetch_failed"), b)
    else (Begun.fetching rec.url rec.user_agent, with_updating (id ∷ b.updating) b)

-- `refresh` until it unlocks the book.
unfoldable pub begin : String → Book → Begun × Book
begin id b = begin_found id (lookup id b.records) b

unfoldable pub attempted : ℕ → Record → Record
attempted now rec = record {
  version = rec.version;
  id = rec.id;
  url = rec.url;
  name = rec.name;
  user_agent = rec.user_agent;
  auto_update = rec.auto_update;
  interval = rec.interval;
  created = rec.created;
  last_attempt = now;
  last_success = rec.last_success;
  failures = rec.failures;
  last_error = rec.last_error;
  info = rec.info;
  servers = rec.servers;
  list_parts = rec.list_parts;
}

unfoldable pub with_info : Option Info → Record → Record
with_info none rec = rec
with_info (some info) rec = record {
  version = rec.version;
  id = rec.id;
  url = rec.url;
  name = rec.name;
  user_agent = rec.user_agent;
  auto_update = rec.auto_update;
  interval = rec.interval;
  created = rec.created;
  last_attempt = rec.last_attempt;
  last_success = rec.last_success;
  failures = rec.failures;
  last_error = rec.last_error;
  info = info;
  servers = rec.servers;
  list_parts = rec.list_parts;
}

unfoldable pub failed_with : StoredError → Record → Record
failed_with e rec = record {
  version = rec.version;
  id = rec.id;
  url = rec.url;
  name = rec.name;
  user_agent = rec.user_agent;
  auto_update = rec.auto_update;
  interval = rec.interval;
  created = rec.created;
  last_attempt = rec.last_attempt;
  last_success = rec.last_success;
  failures = rec.failures + 1;
  last_error = some e;
  info = rec.info;
  servers = rec.servers;
  list_parts = rec.list_parts;
}

unfoldable pub updated : List String → ℕ → Info → Record → Record
updated servers parts info rec = record {
  version = rec.version;
  id = rec.id;
  url = rec.url;
  name = rec.name;
  user_agent = rec.user_agent;
  auto_update = rec.auto_update;
  interval = rec.interval;
  created = rec.created;
  last_attempt = rec.last_attempt;
  last_success = rec.last_attempt;
  failures = 0;
  last_error = none;
  info = info;
  servers = servers;
  list_parts = parts;
}

unfoldable pub with_record : String → Record → Book → Book
with_record id rec b = record {
  stores = b.stores;
  fetches = b.fetches;
  records = set id rec b.records;
  lists = b.lists;
  updating = b.updating;
  vault = b.vault;
  spawned = b.spawned;
}

unfoldable pub with_list : String → List Bytes → Book → Book
with_list id specs b = record {
  stores = b.stores;
  fetches = b.fetches;
  records = b.records;
  lists = set id specs b.lists;
  updating = b.updating;
  vault = b.vault;
  spawned = b.spawned;
}

abbrev pub references : List Imported → List String
references servers = map (λ s. s.reference) servers

abbrev pub documents : List Imported → Items
documents servers = map (λ s. (s.reference, s.document)) servers

abbrev pub specs : List Imported → List Bytes
specs servers = map (λ s. s.spec) servers

-- The references that an update deletes.
unfoldable pub dropped : Record → List Imported → ℕ → List String
dropped rec servers parts =
    keep (λ r. not (mem r (references servers))) rec.servers
    ++ part_refs rec.id parts (rec.list_parts - parts)

unfoldable pub listed :
    Record → List Imported → Option Failure × Book → (Option Failure × Record) × Book
listed rec servers (some e, b) = ((some e, rec), b)
listed rec servers (none, b) = ((none, rec), with_list rec.id (specs servers) b)

-- The records that come back are only looked at if there is no failure.
unfoldable pub apply_raw :
    Codec
    → World
    → Record
    → Info
    → List Imported
    → Option Bytes
    → Book
    → (Option Failure × Record) × Book
apply_raw c w rec info servers none b = ((some unavailable, rec), b)
apply_raw c w rec info servers (some raw) b =
    let parts = part_puts rec.id 0 (length raw) raw in
    let next = updated (c.sort (references servers)) (length parts) info rec in
    listed next servers
      (persist c w next (documents servers ++ parts) (dropped rec servers (length parts)) b)

-- `applyUpdateLocked`
unfoldable pub apply_update :
    Codec → World → Record → Info → List Imported → Book → (Option Failure × Record) × Book
apply_update c w rec info servers b =
    apply_raw c w rec info servers (c.list_bytes (specs servers)) b

unfoldable pub put_failed :
    String → Failure → Record → Option Failure × Book → Option Failure × Book
put_failed id e rec (some p, b) = (some p, b)
put_failed id e rec (none, b) = (some e, with_record id rec b)

-- What `refresh` does of an error.
unfoldable pub update_failed :
    Codec → World → String → Failure → Option Info → Record → Book → Option Failure × Book
update_failed c w id e info rec b =
    let next =
      failed_with (record { code = e.0; key = e.1; detail = c.detail_of e }) (with_info info rec) in
    put_failed id e next (persist c w next [] [] b)

unfoldable pub update_applied :
    Codec
    → World
    → String
    → Info
    → Record
    → (Option Failure × Record) × Book
    → Option Failure × Book
update_applied c w id info rec ((none, next), b) = (none, with_record id next b)
update_applied c w id info rec ((some e, next), b) = update_failed c w id e (some info) rec b

unfoldable pub take_answer : Codec → World → String → Answer → Record → Book → Option Failure × Book
take_answer c w id (inl e) rec b = update_failed c w id e none rec b
take_answer c w id (inr (info, inl e)) rec b = update_failed c w id e (some info) rec b
take_answer c w id (inr (info, inr servers)) rec b =
    update_applied c w id info rec (apply_update c w rec info servers b)

unfoldable pub finish_found :
    Codec → World → ℕ → String → String → Answer → Option Record → Book → Option Failure × Book
finish_found c w now id link answer none b = (some no_subscription, b)
finish_found c w now id link answer (some rec) b =
    if str_eq rec.url link
    then take_answer c w id answer (attempted now rec) b
    else (some no_subscription, b)

-- `refresh` after it has locked the book again; `link` is what it has fetched.
unfoldable pub finish : Codec → World → ℕ → String → String → Answer → Book → Option Failure × Book
finish c w now id link answer b =
    finish_found c w now id link answer (lookup id b.records)
      (with_updating (without id b.updating) b)
