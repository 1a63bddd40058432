-- ===== src/Control/Book/Runs.antt =====
-- core/control/subscriptions.go: what every use of the book keeps.
use mathlib.Core.Bool.{true≢false}
use sora_client.Prelude.{
  ℕ, ◌≤◌, ◌<◌, ◌≡◌, refl, sym, ap, ◌∙◌, subst, String, Bool, true, false, ◌&&◌, not, Option-cases,
  Option, none, some, List, [], ◌∷◌, ◌++◌, ◌⊎◌, inl, inr, arith, length, All, leb, str_eq,
  str_eq_iff, if◌then◌else◌, if-both, if-cases, and_left,
}
use sora_client.Plan.Names.{lookup, mem}
use sora_client.Errs.{unsupported}
use sora_client.Secret.Items.{Bytes, Items, str_eq_refl}
use sora_client.Secret.Store.{Failure, Store, World, apply}
use sora_client.Subscription.Info.{Info}
use sora_client.Control.Book.Record.{
  Record, Records, Book, Codec, set, unset, without, persist, persist_raw, stored_in,
  max_subscriptions, part_puts, StoredError,
}
use sora_client.Control.Book.Save.{
  Settings, Links, Checked, check_settings, is_duplicate, new_record, with_url, with_settings,
  draft_new, draft_changed, draft, saved, save_draft, save_locked, save_checked, save, removed,
  delete_found, delete, with_records, duplicate, no_store, no_link, too_many, no_subscription,
  refs_of,
}
use sora_client.Control.Book.Update.{
  Imported, Begun, Answer, begin, begin_found, with_updating, attempted, with_info, failed_with,
  updated, with_record, with_list, listed, apply_raw, apply_update, put_failed, update_failed,
  update_applied, take_answer, finish_found, finish, specs, documents, references, dropped,
}
use sora_client.Control.Book.Distinct.{
  IsDistinct, IsFree, All-set, set-IsDistinct, All-lookup, lookup-IsFree, All-unset,
  unset-IsDistinct, length-unset, length-set, length-set_found, not_duplicate-IsFree,
}

-- A record stands under its own identifier, which is not empty.
abbrev pub IsNamed : String × Record → Type 0
IsNamed e = (str_eq e.0 e.1.id ≡ true) × (str_eq e.0 "" ≡ false)

-- At most 100 subscriptions, no two with one identifier or one link.
abbrev pub IsBook : Records → Type 0
IsBook m = IsDistinct m × ((length m ≤ 100) × All IsNamed m)

pub data HasBook (b : Book) : Type 0 where
  has_book : IsBook b.records → HasBook b

Fine : Option Failure × Book → Type 0
Fine r = HasBook r.1

-- A record that takes the place of another one, or of none while there is room.
set-IsBook :
    (k : String) (r : Record) (m : Records)
    → IsBook m
    → str_eq k r.id ≡ true
    → str_eq k "" ≡ false
    → All (IsFree k r.url) m
    → (length (set k r m) ≤ 100)
    → IsBook (set k r m)
set-IsBook k r m h n e f l = (set-IsDistinct k r m h.0 f, (l, All-set IsNamed k r m (n, e) h.1.1))

-- Storing a record does not change the book.
persist-records :
    (c : Codec) (w : World) (r : Record) (puts : Items) (deletes : List String) (b : Book)
    → (persist c w r puts deletes b).1.records ≡ b.records
unfolding persist persist_raw stored_in
persist-records c w r puts deletes b = raw (c.record_bytes r)
  where
    raw : (o : Option Bytes) → (persist_raw w o r puts deletes b).1.records ≡ b.records
    raw none = refl
    raw (some bytes) = refl

-- The draft of `save`: room for it, its identifier, and its link free.
IsDraft : Records → Failure ⊎ (Record × Bool) → Type 0
IsDraft m (inl e) = Unit
IsDraft m (inr (r, now)) =
    (str_eq r.id "" ≡ false)
    × (All (IsFree r.id r.url) m × ((length m < 100) ⊎ ((s : Record) × (lookup r.id m ≡ some s))))

-- What `save` has found out of a new identifier and of the link.
abbrev IsNew : Option String → Type 0
IsNew none = Unit
IsNew (some id) = str_eq id "" ≡ false

All-new :
    (k id link : String) (m : Records)
    → str_eq id "" ≡ true
    → All IsNamed m
    → All (IsFree id link) m
    → All (IsFree k link) m
All-new k id link [] e n f = tt
All-new k id link (x ∷ rest) e n f = (
  elim f.0 [
    | inl g ↦ absurd (
        true≢false (
          sym (
            ap (λ y. str_eq x.0 y) (sym ((str_eq_iff id "").0 e))
            ∙ (ap (λ y. str_eq x.0 y) ((str_eq_iff id x.0).0 g) ∙ str_eq_refl x.0))
          ∙ n.0.1))
    | inr g ↦ inr g
  ],
  All-new k id link rest e n.1 f.1,
)

draft_new-IsDraft :
    (now : ℕ) (new_id : Option String) (id link : String) (m : Records)
    → IsNew new_id
    → IsBook m
    → str_eq id "" ≡ true
    → leb max_subscriptions (length m) ≡ false
    → All (IsFree id link) m
    → IsDraft m (draft_new now new_id link)
unfolding IsDraft draft_new new_record
draft_new-IsDraft now none id link m n h e l f = tt
draft_new-IsDraft now (some k) id link m n h e l f =
    (n, (All-new k id link m e h.1.1 f, inl (ground arith)))

found-IsDraft :
    (id link : String) (rec : Record) (m : Records)
    → IsBook m
    → lookup id m ≡ some rec
    → (str_eq link "" ≡ false → All (IsFree id link) m)
    → IsDraft m (draft_changed link (some rec))
unfolding IsDraft draft_changed with_url
found-IsDraft id link rec m h e f =
    if-cases (IsDraft m) (not (str_eq link "") && not (str_eq link rec.url))
      (inr (with_url link rec, true)) (inr (rec, false))
      (λ t. (
        subst (λ k. str_eq k "" ≡ false) same named.1,
        (
          subst (λ k. All (IsFree k link) m) same
              (f (
                not_true (str_eq link "")
                  (and_left (not (str_eq link "")) (not (str_eq link rec.url)) t))),
          inr (rec, subst (λ k. lookup k m ≡ some rec) same e),
        ),
      ))
      (λ _. (
        subst (λ k. str_eq k "" ≡ false) same named.1,
        (
          subst (λ k. All (IsFree k rec.url) m) same (lookup-IsFree id m rec h.0 e),
          inr (rec, subst (λ k. lookup k m ≡ some rec) same e),
        ),
      ))
  where
    named : IsNamed (id, rec)
    named = All-lookup IsNamed id m rec h.1.1 e

    same : id ≡ rec.id
    same = (str_eq_iff id rec.id).0 named.0

    not_true : (x : Bool) → not x ≡ true → x ≡ false
    not_true true h = sym h
    not_true false h = refl

draft-IsDraft :
    (now : ℕ) (new_id : Option String) (input : Settings) (link : String) (m : Records)
    → IsNew new_id
    → IsBook m
    → (str_eq link "" ≡ false → All (IsFree input.id link) m)
    → IsDraft m (draft now new_id input link m)
unfolding draft draft_changed IsDraft
draft-IsDraft now new_id input link m n h f =
    if-cases (IsDraft m) (str_eq input.id "")
      (if str_eq link ""
        then inl no_link
        else if leb max_subscriptions (length m)
        then inl too_many
        else draft_new now new_id link)
      (draft_changed link (lookup input.id m))
      (λ e.
        if-cases (IsDraft m) (str_eq link "") (inl no_link)
          (if leb max_subscriptions (length m) then inl too_many else draft_new now new_id link)
          (λ _. tt)
          (λ g.
            if-cases (IsDraft m) (leb max_subscriptions (length m)) (inl too_many)
              (draft_new now new_id link) (λ _. tt)
              (λ l. draft_new-IsDraft now new_id input.id link m n h e l (f g))))
      (λ _. changed (Option-cases (lookup input.id m)))
  where
    changed :
        (lookup input.id m ≡ none) ⊎ ((r : Record) × (lookup input.id m ≡ some r))
        → IsDraft m (draft_changed link (lookup input.id m))
    changed (inl e) = rw e tt
    changed (inr (r, e)) = rw e (found-IsDraft input.id link r m h e f)

put_draft :
    (r : Record) (m : Records)
    → IsBook m
    → str_eq r.id "" ≡ false
    → All (IsFree r.id r.url) m
    → (length m < 100) ⊎ ((s : Record) × (lookup r.id m ≡ some s))
    → IsBook (set r.id r m)
put_draft r m h e f l = set-IsBook r.id r m h (str_eq_refl r.id) e f (elim l [
  | inl room ↦ let q = length-set r.id r m in omega arith
  | inr (s, g) ↦ let q = length-set_found r.id r s m g in let t = h.1.0 in omega arith
])

saved-Fine :
    (r : Record) (now : Bool) (b : Book)
    → IsBook b.records
    → IsDraft b.records (inr (r, now))
    → (p : Option Failure × Book) → p.1.records ≡ b.records
    → (q : Record) → q.id ≡ r.id
    → q.url ≡ r.url
    → Fine (saved q now p)
unfolding Fine saved IsDraft with_records
saved-Fine r now b h d (some e, b2) same q i u = has_book (rw same h)
saved-Fine r now b h d (none, b2) same q i u =
    has_book (rw same (put_draft q b.records h (rw i d.0) (rw (i, u) d.1.0) (rw i d.1.1)))

save_draft-Fine :
    (codec : Codec) (w : World) (input : Settings) (c : Checked) (d : Failure ⊎ (Record × Bool))
    (b : Book)
    → IsBook b.records
    → IsDraft b.records d
    → Fine (save_draft codec w input c d b)
unfolding Fine save_draft with_settings
save_draft-Fine codec w input c (inl e) b h d = has_book h
save_draft-Fine codec w input c (inr (r, now)) b h d =
    saved-Fine r now b h d (persist codec w (with_settings input c r) [] [] b)
      (persist-records codec w (with_settings input c r) [] [] b) (with_settings input c r) refl
      refl

save_locked-Fine :
    (codec : Codec) (w : World) (now : ℕ) (new_id : Option String) (input : Settings) (c : Checked)
    (b : Book)
    → IsNew new_id
    → IsBook b.records
    → Fine (save_locked codec w now new_id input c b)
unfolding save_locked Fine
save_locked-Fine codec w now new_id input c b n h =
    if-cases Fine (not (str_eq c.link "") && is_duplicate c.link input.id b.records)
      (some duplicate, b) (save_draft codec w input c (draft now new_id input c.link b.records) b)
      (λ _. has_book h)
      (λ t. save_draft-Fine codec w input c (draft now new_id input c.link b.records) b h (
        draft-IsDraft now new_id input c.link b.records n h (λ g.
          not_duplicate-IsFree c.link input.id b.records (
            left_true (not (str_eq c.link "")) (is_duplicate c.link input.id b.records) (ap not g)
              t))))
  where
    left_true : (x y : Bool) → x ≡ true → (x && y) ≡ false → y ≡ false
    left_true true y e h = h
    left_true false y e h = absurd (true≢false (sym e))

save-Fine :
    (l : Links) (codec : Codec) (w : World) (now : ℕ) (new_id : Option String) (input : Settings)
    (b : Book)
    → IsNew new_id
    → IsBook b.records
    → Fine (save l codec w now new_id input b)
unfolding save save_checked Fine
save-Fine l codec w now new_id input b n h =
    if-both Fine b.stores (save_checked codec w now new_id input (check_settings l input) b)
      (some no_store, b) (checked (check_settings l input)) (has_book h)
  where
    checked : (d : Failure ⊎ Checked) → Fine (save_checked codec w now new_id input d b)
    checked (inl e) = has_book h
    checked (inr c) = save_locked-Fine codec w now new_id input c b n h

delete-Fine : (w : World) (id : String) (b : Book) → IsBook b.records → Fine (delete w id b)
unfolding delete delete_found removed stored_in Fine
delete-Fine w id b h = found (lookup id b.records)
  where
    left : IsBook (unset id b.records)
    left = (
      unset-IsDistinct id b.records h.0,
      (
        let q = length-unset id b.records in let t = h.1.0 in omega arith,
        All-unset IsNamed id b.records h.1.1,
      ),
    )

    applied : (r : Option Failure × Store) → Fine (removed id (stored_in b r))
    applied (some e, s) = has_book h
    applied (none, s) = has_book left

    found : (o : Option Record) → Fine (delete_found w id o b)
    found none = has_book h
    found (some r) = applied (apply w [] (refs_of id r) b.vault)

Stays : Begun × Book → Type 0
Stays r = HasBook r.1

begin-HasBook : (id : String) (b : Book) → IsBook b.records → HasBook (begin id b).1
unfolding begin begin_found with_updating Stays
begin-HasBook id b h = found (lookup id b.records)
  where
    allowed : Record → Begun × Book
    allowed r =
        if not b.fetches
        then (Begun.refused (unsupported, "core.subscription.fetch_failed"), b)
        else (Begun.fetching r.url r.user_agent, with_updating (id ∷ b.updating) b)

    found : (o : Option Record) → HasBook (begin_found id o b).1
    found none = has_book h
    found (some r) =
        if-both Stays (mem id b.updating) (Begun.busy, b) (allowed r) (has_book h)
          (if-both Stays (not b.fetches)
            (Begun.refused (unsupported, "core.subscription.fetch_failed"), b)
            (Begun.fetching r.url r.user_agent, with_updating (id ∷ b.updating) b) (has_book h)
            (has_book h))

-- A record that keeps its identifier and its link in the place of the one that was found.
replaced-IsBook :
    (id : String) (r q : Record) (m : Records)
    → IsBook m
    → lookup id m ≡ some r
    → q.id ≡ r.id
    → q.url ≡ r.url
    → IsBook (set id q m)
replaced-IsBook id r q m h e i u =
    let named = All-lookup IsNamed id m r h.1.1 e in
    set-IsBook id q m h (rw i named.0) named.1 (rw u (lookup-IsFree id m r h.0 e))
      (let l = length-set_found id q r m e in let t = h.1.0 in omega arith)

-- What an update leaves of the records, and of the record that it returns.
IsUpdate : Record → Records → (Option Failure × Record) × Book → Type 0
IsUpdate rec m r = (r.1.records ≡ m) × ((r.0.1.id ≡ rec.id) × (r.0.1.url ≡ rec.url))

apply_update-IsUpdate :
    (c : Codec) (w : World) (rec : Record) (info : Info) (servers : List Imported) (b : Book)
    → IsUpdate rec b.records (apply_update c w rec info servers b)
unfolding IsUpdate apply_update apply_raw listed with_list updated
apply_update-IsUpdate c w rec info servers b = raw (c.list_bytes (specs servers))
  where
    kept :
        (q : Record)
        → (p : Option Failure × Book) → p.1.records ≡ b.records
        → IsUpdate q b.records (listed q servers p)
    kept q (some e, t) h = (h, (refl, refl))
    kept q (none, t) h = (h, (refl, refl))

    raw : (o : Option Bytes) → IsUpdate rec b.records (apply_raw c w rec info servers o b)
    raw none = (refl, (refl, refl))
    raw (some bytes) =
        let parts = part_puts rec.id 0 (length bytes) bytes in
        let next = updated (c.sort (references servers)) (length parts) info rec in
        kept next
          (persist c w next (documents servers ++ parts) (dropped rec servers (length parts)) b)
          (persist-records c w next (documents servers ++ parts)
            (dropped rec servers (length parts)) b)

stored : Codec → Failure → StoredError
stored c e = record { code = e.0; key = e.1; detail = c.detail_of e }

put_failed-Fine :
    (id : String) (e : Failure) (r q : Record) (b : Book)
    → IsBook b.records
    → lookup id b.records ≡ some r
    → q.id ≡ r.id
    → q.url ≡ r.url
    → (p : Option Failure × Book) → p.1.records ≡ b.records
    → Fine (put_failed id e q p)
unfolding Fine put_failed with_record
put_failed-Fine id e r q b h l i u (some f, t) k = has_book (rw k h)
put_failed-Fine id e r q b h l i u (none, t) k =
    has_book (rw k (replaced-IsBook id r q b.records h l i u))

update_failed-Fine :
    (c : Codec) (w : World) (id : String) (e : Failure) (info : Option Info) (r q : Record)
    (b : Book)
    → IsBook b.records
    → lookup id b.records ≡ some r
    → q.id ≡ r.id
    → q.url ≡ r.url
    → Fine (update_failed c w id e info q b)
unfolding Fine update_failed put_failed with_record failed_with with_info stored
update_failed-Fine c w id e none r q b h l i u =
    put_failed-Fine id e r (failed_with (stored c e) q) b h l i u
      (persist c w (failed_with (stored c e) q) [] [] b)
      (persist-records c w (failed_with (stored c e) q) [] [] b)
update_failed-Fine c w id e (some info) r q b h l i u =
    put_failed-Fine id e r (failed_with (stored c e) (with_info (some info) q)) b h l i u
      (persist c w (failed_with (stored c e) (with_info (some info) q)) [] [] b)
      (persist-records c w (failed_with (stored c e) (with_info (some info) q)) [] [] b)

update_applied-Fine :
    (c : Codec) (w : World) (id : String) (info : Info) (r q : Record) (b : Book)
    → IsBook b.records
    → lookup id b.records ≡ some r
    → q.id ≡ r.id
    → q.url ≡ r.url
    → (p : (Option Failure × Record) × Book) → IsUpdate q b.records p
    → Fine (update_applied c w id info q p)
unfolding Fine update_applied IsUpdate with_record
update_applied-Fine c w id info r q b h l i u ((none, next), t) k =
    has_book (rw k.0 (replaced-IsBook id r next b.records h l (k.1.0 ∙ i) (k.1.1 ∙ u)))
update_applied-Fine c w id info r q b h l i u ((some e, next), t) k =
    update_failed-Fine c w id e (some info) r q t (rw k.0 h) (rw k.0 l) i u

finish-Fine :
    (c : Codec) (w : World) (now : ℕ) (id link : String) (answer : Answer) (b : Book)
    → IsBook b.records
    → Fine (finish c w now id link answer b)
unfolding finish finish_found with_updating attempted take_answer Fine
finish-Fine c w now id link answer b h = found (Option-cases (lookup id b.records))
  where
    still : Book
    still = with_updating (without id b.updating) b

    taken :
        (r : Record) (a : Answer)
        → lookup id b.records ≡ some r
        → Fine (take_answer c w id a (attempted now r) still)
    taken r (inl e) l = update_failed-Fine c w id e none r (attempted now r) still h l refl refl
    taken r (inr (info, inl e)) l =
        update_failed-Fine c w id e (some info) r (attempted now r) still h l refl refl
    taken r (inr (info, inr servers)) l =
        update_applied-Fine c w id info r (attempted now r) still h l refl refl
          (apply_update c w (attempted now r) info servers still)
          (apply_update-IsUpdate c w (attempted now r) info servers still)

    found :
        (lookup id b.records ≡ none) ⊎ ((r : Record) × (lookup id b.records ≡ some r))
        → Fine (finish_found c w now id link answer (lookup id b.records) still)
    found (inl e) = rw e (has_book h)
    found (inr (r, e)) = rw e (
        if-both Fine (str_eq r.url link) (take_answer c w id answer (attempted now r) still)
          (some no_subscription, still) (taken r answer e) (has_book h))

-- A use of the book, with what the store and the provider answer to it.
pub data Op : Type 0 where
  saves : Links → Codec → World → ℕ → Option String → Settings → Op
  deletes : World → String → Op
  begins : String → Op
  finishes : Codec → World → ℕ → String → String → Answer → Op

-- A random identifier is not empty.
unfoldable pub HasId : Op → Type 0
HasId (saves l c w now new_id input) = IsNew new_id
HasId (deletes w id) = Unit
HasId (begins id) = Unit
HasId (finishes c w now id link answer) = Unit

unfoldable pub perform : Op → Book → Book
perform (saves l c w now new_id input) b = (save l c w now new_id input b).1
perform (deletes w id) b = (delete w id b).1
perform (begins id) b = (begin id b).1
perform (finishes c w now id link answer) b = (finish c w now id link answer b).1

unfoldable pub run : List Op → Book → Book
run [] b = b
run (o ∷ os) b = run os (perform o b)

perform-HasBook : (o : Op) (b : Book) → HasId o → HasBook b → HasBook (perform o b)
unfolding HasId perform Fine
perform-HasBook (saves l c w now new_id input) b n (has_book h) =
    save-Fine l c w now new_id input b n h
perform-HasBook (deletes w id) b n (has_book h) = delete-Fine w id b h
perform-HasBook (begins id) b n (has_book h) = begin-HasBook id b h
perform-HasBook (finishes c w now id link answer) b n (has_book h) =
    finish-Fine c w now id link answer b h

-- However subscriptions are saved, deleted and refreshed, also while others are being fetched, and whatever
-- the store and the providers answer, a book of at most 100 subscriptions, no two with one identifier or
-- one link, stays one, if the random identifiers are not empty.
pub run-HasBook : (os : List Op) (b : Book) → All HasId os → HasBook b → HasBook (run os b)
unfolding run
run-HasBook [] b n h = h
run-HasBook (o ∷ os) b n h = run-HasBook os (perform o b) n.1 (perform-HasBook o b n.0 h)
