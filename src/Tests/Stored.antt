-- ===== src/Tests/Stored.antt =====
-- The store of secrets and the book of subscriptions on concrete inputs.
use sora_client.Prelude.{
  ◌≡◌, refl, String, true, false, none, some, List, [], ◌∷◌, ◌⊎◌, inl, inr, arith,
}
use sora_client.Errs.{not_found}
use sora_client.Subscription.Info.{Info}
use sora_client.Subscription.Reference.{Url}
use sora_client.Secret.Items.{Items}
use sora_client.Secret.Store.{
  Store, World, Failure, unavailable, opened, validate_reference, check_material, put, get, apply,
}
use sora_client.Secret.Store.Kept.{IsKept, Op, run, run-IsKept}
use sora_client.Secret.Store.Atomic.{IsAtomic, apply-IsAtomic}
use sora_client.Control.Book.Record.{Record, Book, Codec, record_ref, list_ref}
use sora_client.Control.Book.Save.{
  Links, Settings, new_record, no_info, delete, save, no_subscription,
}
use sora_client.Control.Book.Update.{Imported, begin, finish, Begun}
use sora_client.Control.Book.Runs.{HasBook, has_book, run-HasBook}
use sora_client.Control.Book.Runs.{Op as BookOp, run as run_book, HasId}
use sora_client.Control.Book.Removed.{
  IsRemoved, delete-IsRemoved, KeepsServers, finish-KeepsServers,
}

abbrev good : World
good = record { seal = λ items. inr 100; write_file = λ items. none }

abbrev broken : World
broken = record { seal = λ items. inr 100; write_file = λ items. some unavailable }

abbrev small_file : Items
small_file = ("token", 1 ∷ 2 ∷ []) ∷ ("pass", 3 ∷ []) ∷ []

abbrev uses : List Op
uses =
    Op.puts broken "token" (9 ∷ [])
    ∷ Op.applies good (("new", 5 ∷ []) ∷ []) ("pass" ∷ [])
    ∷ Op.deletes broken "new"
    ∷ Op.puts good "bad name" (9 ∷ [])
    ∷ []

run-IsKept_example : IsKept (run uses (opened small_file))
unfolding validate_reference check_material
run-IsKept_example = run-IsKept small_file uses (omega arith, ((refl, refl), ((refl, refl), tt)))

apply-IsAtomic_example :
    IsAtomic
      (("new", 5 ∷ []) ∷ [])
      ("pass" ∷ [])
      (opened small_file)
      (apply good (("new", 5 ∷ []) ∷ []) ("pass" ∷ []) (opened small_file))
apply-IsAtomic_example =
    apply-IsAtomic good (("new", 5 ∷ []) ∷ []) ("pass" ∷ []) (opened small_file)

-- A deleted entry is not found, a failed put changes nothing.
deleted_entry :
    get "pass" (apply good (("new", 5 ∷ []) ∷ []) ("pass" ∷ []) (opened small_file)).1
    ≡ inl (not_found, "core.secret.not_found")
unfolding get sora_client.Secret.Store.get_valid validate_reference apply
    sora_client.Secret.Store.after sora_client.Secret.Store.first_of
    sora_client.Secret.Store.check_puts check_material sora_client.Secret.Store.check_deletes opened
    sora_client.Secret.Store.apply_next sora_client.Secret.Store.restore
    sora_client.Secret.Store.write_locked sora_client.Secret.Store.write_sealed
    sora_client.Secret.Store.written sora_client.Secret.Store.with_items
    sora_client.Secret.Store.found
deleted_entry = refl

failed_put : get "token" (put broken "token" (9 ∷ []) (opened small_file)).1 ≡ inr (1 ∷ 2 ∷ [])
unfolding get sora_client.Secret.Store.get_valid validate_reference put
    sora_client.Secret.Store.after sora_client.Secret.Store.first_of check_material
    sora_client.Secret.Store.put_locked opened sora_client.Secret.Store.undo
    sora_client.Secret.Store.write_locked sora_client.Secret.Store.write_sealed
    sora_client.Secret.Store.written sora_client.Secret.Store.with_items
    sora_client.Secret.Store.found sora_client.Secret.Store.put_back
failed_put = refl

abbrev codec : Codec
codec = record {
  record_bytes = λ rec. some (7 ∷ []);
  list_bytes = λ servers. some (8 ∷ 8 ∷ []);
  sort = λ refs. refs;
  detail_of = λ e. "";
}

abbrev links : Links
links = record {
  parse_url =
      λ t. some (record { scheme = "https"; has_user = false; host = "a.example"; rest = t });
  to_lower = λ t. t;
  link_text = λ u. u.rest;
}

abbrev settings : String → String → Settings
settings id url = record {
  id = id;
  url = url;
  name = "home";
  user_agent = "";
  auto_update = true;
  update_interval = none;
}

abbrev empty_book : Book
empty_book = record {
  stores = true;
  fetches = true;
  records = [];
  lists = [];
  updating = [];
  vault = opened [];
  spawned = [];
}

abbrev server : Imported
server = record { reference = "u1_1_s"; document = 4 ∷ []; spec = 6 ∷ [] }

abbrev fetched : Info × (Failure ⊎ List Imported)
fetched = (no_info, inr (server ∷ []))

abbrev rounds : List BookOp
rounds =
    BookOp.saves links codec good 10 (some "1") (settings "" "https://a.example/x")
    ∷ BookOp.saves links codec good 11 (some "2") (settings "" "https://a.example/x")
    ∷ BookOp.begins "1"
    ∷ BookOp.finishes codec good 12 "1" "https://a.example/x" (inr fetched)
    ∷ BookOp.saves links codec good 13 none (settings "1" "https://a.example/y")
    ∷ []

run-HasBook_example : HasBook (run_book rounds empty_book)
unfolding HasId
run-HasBook_example =
    run-HasBook rounds empty_book (refl, (refl, (tt, (tt, (tt, tt)))))
      (has_book (tt, (omega arith, tt)))

abbrev home : Record
home = record {
  version = 1;
  id = "1";
  url = "https://a.example/x";
  name = "home";
  user_agent = "";
  auto_update = true;
  interval = 0;
  created = 10;
  last_attempt = 11;
  last_success = 11;
  failures = 0;
  last_error = none;
  info = no_info;
  servers = "u1_1_s" ∷ [];
  list_parts = 1;
}

abbrev home_file : Items
home_file =
    ("u1_1_rec", 7 ∷ []) ∷ ("u1_1_s", 4 ∷ []) ∷ ("u1_1_l0", 8 ∷ 8 ∷ []) ∷ ("mine", 5 ∷ []) ∷ []

abbrev home_book : Book
home_book = record {
  stores = true;
  fetches = true;
  records = ("1", home) ∷ [];
  lists = ("1", (6 ∷ []) ∷ []) ∷ [];
  updating = "1" ∷ [];
  vault = opened home_file;
  spawned = [];
}

delete-IsRemoved_example : IsRemoved "1" home home_book (delete good "1" home_book)
delete-IsRemoved_example = delete-IsRemoved good "1" home_book home refl

finish-KeepsServers_example :
    KeepsServers "1" home home_book
      (finish codec good 20 "1" "https://a.example/x" (inl unavailable) home_book)
finish-KeepsServers_example =
    finish-KeepsServers codec good 20 "1" "https://a.example/x" (inl unavailable) home_book home
      refl

deleted_server :
    get "u1_1_s" (delete good "1" home_book).1.vault ≡ inl (not_found, "core.secret.not_found")
unfolding get sora_client.Secret.Store.get_valid validate_reference delete
    sora_client.Control.Book.Save.delete_found sora_client.Control.Book.Save.removed
    sora_client.Control.Book.Record.stored_in apply sora_client.Secret.Store.after
    sora_client.Secret.Store.first_of sora_client.Secret.Store.check_puts
    sora_client.Secret.Store.check_deletes sora_client.Control.Book.Save.refs_of record_ref
    sora_client.Control.Book.Record.part_refs list_ref sora_client.Engine.Version.Decimal.show
    sora_client.Engine.Version.Decimal.show_onto opened sora_client.Secret.Store.apply_next
    sora_client.Secret.Store.restore sora_client.Secret.Store.write_locked
    sora_client.Secret.Store.write_sealed sora_client.Secret.Store.written
    sora_client.Secret.Store.with_items sora_client.Secret.Store.found
deleted_server = refl

kept_secret : get "mine" (delete good "1" home_book).1.vault ≡ inr (5 ∷ [])
unfolding get sora_client.Secret.Store.get_valid validate_reference delete
    sora_client.Control.Book.Save.delete_found sora_client.Control.Book.Save.removed
    sora_client.Control.Book.Record.stored_in apply sora_client.Secret.Store.after
    sora_client.Secret.Store.first_of sora_client.Secret.Store.check_puts
    sora_client.Secret.Store.check_deletes sora_client.Control.Book.Save.refs_of record_ref
    sora_client.Control.Book.Record.part_refs list_ref sora_client.Engine.Version.Decimal.show
    sora_client.Engine.Version.Decimal.show_onto opened sora_client.Secret.Store.apply_next
    sora_client.Secret.Store.restore sora_client.Secret.Store.write_locked
    sora_client.Secret.Store.write_sealed sora_client.Secret.Store.written
    sora_client.Secret.Store.with_items sora_client.Secret.Store.found
kept_secret = refl

-- A link that is changed while the old one is being fetched is fetched by nobody: the refresh that `save`
-- starts finds the update under way, and that one discards what it gets.
abbrev changed : Book
changed = (save links codec good 21 none (settings "1" "https://a.example/y") home_book).1

not_begun : (begin "1" changed).0 ≡ Begun.busy
unfolding begin sora_client.Control.Book.Update.begin_found save
    sora_client.Control.Book.Save.save_checked sora_client.Control.Book.Save.check_settings
    sora_client.Control.Book.Save.with_agent sora_client.Subscription.Reference.user_agent_for
    sora_client.Errs.Line.trim_space sora_client.Control.Book.Save.with_interval
    sora_client.Control.Book.Save.check_interval sora_client.Control.Book.Save.with_link
    sora_client.Control.Book.Save.normalized_link sora_client.Control.Book.Save.link_of
    sora_client.Subscription.Reference.validate_reference
    sora_client.Subscription.Reference.accept_parsed
    sora_client.Subscription.Reference.accept_scheme sora_client.Subscription.Reference.accept_host
    sora_client.Control.Book.Save.save_locked sora_client.Control.Book.Save.is_duplicate
    sora_client.Control.Book.Save.save_draft sora_client.Control.Book.Save.draft
    sora_client.Control.Book.Save.draft_changed sora_client.Control.Book.Save.saved
    sora_client.Control.Book.Record.persist sora_client.Control.Book.Record.persist_raw
    sora_client.Control.Book.Record.stored_in apply sora_client.Secret.Store.after
    sora_client.Secret.Store.first_of sora_client.Secret.Store.check_puts validate_reference
    record_ref sora_client.Control.Book.Save.with_settings sora_client.Control.Book.Save.draft_new
    new_record sora_client.Control.Book.Save.with_records sora_client.Control.Book.Save.with_url
    sora_client.Control.Book.Update.with_updating sora_client.Errs.Line.is_newline
    sora_client.Errs.Line.is_space sora_client.Errs.Line.one_line
    sora_client.Secret.Store.apply_next sora_client.Secret.Store.check_deletes check_material
    sora_client.Secret.Store.restore sora_client.Secret.Store.with_items
    sora_client.Secret.Store.write_locked sora_client.Secret.Store.write_sealed
    sora_client.Secret.Store.written sora_client.Subscription.Reference.failure opened
not_begun = refl

discarded :
    (finish codec good 22 "1" "https://a.example/x" (inr fetched) changed).0 ≡ some no_subscription
unfolding finish sora_client.Control.Book.Update.finish_found save
    sora_client.Control.Book.Save.save_checked sora_client.Control.Book.Save.check_settings
    sora_client.Control.Book.Save.with_agent sora_client.Subscription.Reference.user_agent_for
    sora_client.Errs.Line.trim_space sora_client.Control.Book.Save.with_interval
    sora_client.Control.Book.Save.check_interval sora_client.Control.Book.Save.with_link
    sora_client.Control.Book.Save.normalized_link sora_client.Control.Book.Save.link_of
    sora_client.Subscription.Reference.validate_reference
    sora_client.Subscription.Reference.accept_parsed
    sora_client.Subscription.Reference.accept_scheme sora_client.Subscription.Reference.accept_host
    sora_client.Control.Book.Save.save_locked sora_client.Control.Book.Save.is_duplicate
    sora_client.Control.Book.Save.save_draft sora_client.Control.Book.Save.draft
    sora_client.Control.Book.Save.draft_changed sora_client.Control.Book.Save.saved
    sora_client.Control.Book.Record.persist sora_client.Control.Book.Record.persist_raw
    sora_client.Control.Book.Record.stored_in apply sora_client.Secret.Store.after
    sora_client.Secret.Store.first_of sora_client.Secret.Store.check_puts validate_reference
    record_ref sora_client.Control.Book.Save.with_settings list_ref
    sora_client.Control.Book.Record.part_puts sora_client.Control.Book.Record.part_refs
    sora_client.Control.Book.Save.draft_new new_record sora_client.Control.Book.Save.with_records
    sora_client.Control.Book.Save.with_url sora_client.Control.Book.Update.apply_raw
    sora_client.Control.Book.Update.apply_update sora_client.Control.Book.Update.attempted
    sora_client.Control.Book.Update.dropped sora_client.Control.Book.Update.failed_with
    sora_client.Control.Book.Update.listed sora_client.Control.Book.Update.put_failed
    sora_client.Control.Book.Update.take_answer sora_client.Control.Book.Update.update_applied
    sora_client.Control.Book.Update.update_failed sora_client.Control.Book.Update.updated
    sora_client.Control.Book.Update.with_info sora_client.Control.Book.Update.with_list
    sora_client.Control.Book.Update.with_record sora_client.Control.Book.Update.with_updating
    sora_client.Engine.Version.Decimal.show sora_client.Engine.Version.Decimal.show_onto
    sora_client.Errs.Line.is_newline sora_client.Errs.Line.is_space sora_client.Errs.Line.one_line
    sora_client.Secret.Store.apply_next sora_client.Secret.Store.check_deletes check_material
    sora_client.Secret.Store.restore sora_client.Secret.Store.with_items
    sora_client.Secret.Store.write_locked sora_client.Secret.Store.write_sealed
    sora_client.Secret.Store.written sora_client.Subscription.Reference.failure opened
discarded = refl
