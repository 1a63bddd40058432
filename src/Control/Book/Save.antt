-- ===== src/Control/Book/Save.antt =====
-- core/control/subscriptions.go: `save` and `delete`. `parse_url` and `to_lower` are `url.Parse` and
-- `strings.ToLower`, and `link_text` is `String` of a URL without its fragment. `new_id` is the random
-- identifier, `none` if there are no random bytes.
use sora_client.Prelude.{
  ℕ, String, Bool, true, false, ◌&&◌, ◌||◌, not, Option, none, some, List, [], ◌∷◌, ◌++◌, ◌⊎◌, inl,
  inr, length, any, ltb, leb, str_eq, if◌then◌else◌,
}
use sora_client.Errs.{Fields, invalid_argument, failed_precondition, resource_exhausted, not_found}
use sora_client.Errs.Line.{trim_space}
use sora_client.Plan.Names.{lookup}
use sora_client.Subscription.Info.{Info}
use sora_client.Subscription.Reference.{Url, validate_reference, user_agent_for}
use sora_client.Secret.Store.{Failure, World, unavailable, apply}
use sora_client.Control.Book.Record.{
  Record, Records, Book, Codec, max_subscriptions, min_update_interval, max_update_interval,
  record_version, record_ref, part_refs, set, unset, persist, stored_in,
}

-- `SubscriptionSettings`
pub record Settings : Type 0 where
  pub id : String
  pub url : String
  pub name : String
  pub user_agent : String
  pub auto_update : Bool
  pub update_interval : Option ℕ

pub record Links : Type 0 where
  pub parse_url : String → Option Url
  pub to_lower : String → String
  pub link_text : Url → String

-- What `save` has read from the settings.
pub record Checked : Type 0 where
  pub agent : String
  pub interval : ℕ
  pub link : String

abbrev pub failure_of : Fields → Failure
failure_of f = (f.code, f.key)

abbrev pub no_store : Failure
no_store = (failed_precondition, "core.secret.store_unavailable")

abbrev pub bad_interval : Failure
bad_interval = (invalid_argument, "core.subscription.interval_invalid")

abbrev pub duplicate : Failure
duplicate = (invalid_argument, "core.subscription.duplicate")

abbrev pub no_link : Failure
no_link = (invalid_argument, "core.subscription.scheme_unsupported")

abbrev pub too_many : Failure
too_many = (resource_exhausted, "core.subscription.limit")

abbrev pub no_subscription : Failure
no_subscription = (not_found, "core.subscription.not_found")

unfoldable pub link_of : Links → Fields ⊎ Url → Failure ⊎ String
link_of l (inl e) = inl (failure_of e)
link_of l (inr u) = inr (
    l.link_text (record {
      scheme = l.to_lower u.scheme;
      has_user = u.has_user;
      host = l.to_lower u.host;
      rest = u.rest;
    }))

-- `normalizedLink`
unfoldable pub normalized_link : Links → String → Failure ⊎ String
normalized_link l raw = link_of l (validate_reference l.parse_url l.to_lower raw)

unfoldable pub check_interval : Option ℕ → Failure ⊎ ℕ
check_interval none = inr 0
check_interval (some v) =
    if ltb v min_update_interval || ltb max_update_interval v then inl bad_interval else inr v

unfoldable pub with_link : String → ℕ → Failure ⊎ String → Failure ⊎ Checked
with_link agent interval (inl e) = inl e
with_link agent interval (inr link) =
    inr (record { agent = agent; interval = interval; link = link })

unfoldable pub with_interval : Links → Settings → Failure ⊎ ℕ → Failure ⊎ Checked
with_interval l input (inl e) = inl e
with_interval l input (inr interval) =
    with_link (trim_space input.user_agent) interval
      (if str_eq (trim_space input.url) "" then inr "" else normalized_link l input.url)

unfoldable pub with_agent : Links → Settings → Fields ⊎ String → Failure ⊎ Checked
with_agent l input (inl e) = inl (failure_of e)
with_agent l input (inr sent) = with_interval l input (check_interval input.update_interval)

-- What `save` checks before it locks the book.
unfoldable pub check_settings : Links → Settings → Failure ⊎ Checked
check_settings l input = with_agent l input (user_agent_for (trim_space input.user_agent))

-- Whether another subscription has the link.
unfoldable pub is_duplicate : String → String → Records → Bool
is_duplicate link id records = any (λ e. str_eq e.1.url link && not (str_eq e.0 id)) records

abbrev pub no_info : Info
no_info = record {
  title = "";
  update_interval = 0;
  has_usage = false;
  upload = 0;
  download = 0;
  total = 0;
  expire = none;
  web_page_url = "";
  support_url = "";
  announce = "";
}

unfoldable pub new_record : ℕ → String → String → Record
new_record now id link = record {
  version = record_version;
  id = id;
  url = link;
  name = "";
  user_agent = "";
  auto_update = false;
  interval = 0;
  created = now;
  last_attempt = 0;
  last_success = 0;
  failures = 0;
  last_error = none;
  info = no_info;
  servers = [];
  list_parts = 0;
}

unfoldable pub with_url : String → Record → Record
with_url link rec = record {
  version = rec.version;
  id = rec.id;
  url = link;
  name = rec.name;
  user_agent = rec.user_agent;
  auto_update = rec.auto_update;
  interval = rec.interval;
  created = rec.created;
  last_attempt = rec.last_attempt;
  last_success = rec.last_success;
  failures = 0;
  last_error = none;
  info = rec.info;
  servers = rec.servers;
  list_parts = rec.list_parts;
}

unfoldable pub with_settings : Settings → Checked → Record → Record
with_settings input c rec = record {
  version = rec.version;
  id = rec.id;
  url = rec.url;
  name = trim_space input.name;
  user_agent = c.agent;
  auto_update = input.auto_update;
  interval = c.interval;
  created = rec.created;
  last_attempt = rec.last_attempt;
  last_success = rec.last_success;
  failures = rec.failures;
  last_error = rec.last_error;
  info = rec.info;
  servers = rec.servers;
  list_parts = rec.list_parts;
}

unfoldable pub draft_new : ℕ → Option String → String → Failure ⊎ (Record × Bool)
draft_new now none link = inl unavailable
draft_new now (some id) link = inr (new_record now id link, true)

unfoldable pub draft_changed : String → Option Record → Failure ⊎ (Record × Bool)
draft_changed link none = inl no_subscription
draft_changed link (some rec) =
    if not (str_eq link "") && not (str_eq link rec.url)
    then inr (with_url link rec, true)
    else inr (rec, false)

-- The record to be changed, and whether it is to be fetched.
unfoldable pub draft : ℕ → Option String → Settings → String → Records → Failure ⊎ (Record × Bool)
draft now new_id input link records =
    if str_eq input.id ""
    then if str_eq link ""
      then inl no_link
      else if leb max_subscriptions (length records)
      then inl too_many
      else draft_new now new_id link
    else draft_changed link (lookup input.id records)

unfoldable pub with_records : Records → List String → Book → Book
with_records records spawned b = record {
  stores = b.stores;
  fetches = b.fetches;
  records = records;
  lists = b.lists;
  updating = b.updating;
  vault = b.vault;
  spawned = spawned;
}

unfoldable pub saved : Record → Bool → Option Failure × Book → Option Failure × Book
saved rec fetch_now (some e, b) = (some e, b)
saved rec fetch_now (none, b) = (
  none,
  with_records (set rec.id rec b.records) (if fetch_now then rec.id ∷ b.spawned else b.spawned) b,
)

unfoldable pub save_draft :
    Codec → World → Settings → Checked → Failure ⊎ (Record × Bool) → Book → Option Failure × Book
save_draft codec w input c (inl e) b = (some e, b)
save_draft codec w input c (inr (rec, fetch_now)) b =
    saved (with_settings input c rec) fetch_now
      (persist codec w (with_settings input c rec) [] [] b)

-- The part of `save` under the lock.
unfoldable pub save_locked :
    Codec → World → ℕ → Option String → Settings → Checked → Book → Option Failure × Book
save_locked codec w now new_id input c b =
    if not (str_eq c.link "") && is_duplicate c.link input.id b.records
    then (some duplicate, b)
    else save_draft codec w input c (draft now new_id input c.link b.records) b

unfoldable pub save_checked :
    Codec → World → ℕ → Option String → Settings → Failure ⊎ Checked → Book → Option Failure × Book
save_checked codec w now new_id input (inl e) b = (some e, b)
save_checked codec w now new_id input (inr c) b = save_locked codec w now new_id input c b

unfoldable pub save :
    Links → Codec → World → ℕ → Option String → Settings → Book → Option Failure × Book
save l codec w now new_id input b =
    if b.stores
    then save_checked codec w now new_id input (check_settings l input) b
    else (some no_store, b)

unfoldable pub removed : String → Option Failure × Book → Option Failure × Book
removed id (some e, b) = (some e, b)
removed id (none, b) = (
  none,
  record {
    stores = b.stores;
    fetches = b.fetches;
    records = unset id b.records;
    lists = unset id b.lists;
    updating = b.updating;
    vault = b.vault;
    spawned = b.spawned;
  },
)

-- What a subscription has in the store.
unfoldable pub refs_of : String → Record → List String
refs_of id rec = (record_ref id ∷ rec.servers) ++ part_refs id 0 rec.list_parts

unfoldable pub delete_found : World → String → Option Record → Book → Option Failure × Book
delete_found w id none b = (some no_subscription, b)
delete_found w id (some rec) b = removed id (stored_in b (apply w [] (refs_of id rec) b.vault))

unfoldable pub delete : World → String → Book → Option Failure × Book
delete w id b = delete_found w id (lookup id b.records) b
