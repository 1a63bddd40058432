-- ===== src/Control/Book/Removed.antt =====
-- core/control/subscriptions.go: what a deletion and a failed update leave in the store.
use sora_client.Prelude.{
  ℕ, zero, suc, ◌+◌, ◌<◌, arith, subst, str_eq_iff, ◌≡◌, refl, sym, ap, ◌∙◌, String, true, false,
  Bool-cases, Option, none, some, List, [], ◌∷◌, ◌++◌, inl, inr, length, str_eq, if◌then◌else◌,
  if-both,
}
use mathlib.Core.List.{Memᴰ}
use sora_client.Plan.Names.{lookup, mem, mem-append}
use sora_client.Subscription.Info.{Info}
use sora_client.Secret.Items.{Bytes, Items, str_eq_refl}
use sora_client.Secret.Store.{
  Failure, Store, World, validate_reference, get, found, not_stored, apply,
}
use sora_client.Secret.Store.Atomic.{IsAtomic, apply-IsAtomic, get-found}
use sora_client.Control.Book.Record.{
  Record, Records, Book, Codec, record_ref, list_ref, part_refs, set, unset, without, persist,
  persist_raw, stored_in, part_puts, StoredError,
}
use sora_client.Control.Book.Save.{removed, delete_found, delete, refs_of, no_subscription}
use sora_client.Control.Book.Update.{
  Imported, Answer, with_updating, attempted, with_info, failed_with, updated, with_record, listed,
  apply_raw, apply_update, put_failed, update_failed, update_applied, take_answer, finish_found,
  finish, specs, documents, references, dropped,
}

lookup-unset : (k : String) (m : Records) → lookup k (unset k m) ≡ none
lookup-unset k [] = refl
lookup-unset k ((j, r) ∷ rest) = elim (Bool-cases (str_eq k j)) [
  | inl e ↦ rw e (lookup-unset k rest)
  | inr e ↦ rw (e, e) (lookup-unset k rest)
]

lookup-set : (k : String) (r : Record) (m : Records) → lookup k (set k r m) ≡ some r
lookup-set k r [] = rw (str_eq_refl k) refl
lookup-set k r ((j, s) ∷ rest) = elim (Bool-cases (str_eq k j)) [
  | inl e ↦ rw (e, str_eq_refl k) refl
  | inr e ↦ rw (e, e) (lookup-set k r rest)
]

-- The references of a subscription's values in the store: its entry, its servers, and the parts of its
-- list, which are numbered from 0.
pub data Belongs (id : String) (rec : Record) (k : String) : Type 0 where
  entry : k ≡ record_ref id → Belongs id rec k
  of_server : Memᴰ k rec.servers → Belongs id rec k
  of_list : (part : ℕ) → part < rec.list_parts → k ≡ list_ref id part → Belongs id rec k

mem-Memᴰ : (k : String) (ks : List String) → Memᴰ k ks → mem k ks ≡ true
mem-Memᴰ k [] m = elim m [ ]
mem-Memᴰ k (j ∷ ks) (Memᴰ.head e) = rw ((str_eq_iff k j).1 e) refl
mem-Memᴰ k (j ∷ ks) (Memᴰ.tail m) = ground (arith, mem-Memᴰ k ks m)

Memᴰ-mem : (k : String) (ks : List String) → mem k ks ≡ true → Memᴰ k ks
Memᴰ-mem k [] h = absurd (ground arith)
Memᴰ-mem k (j ∷ ks) h = elim (Bool-cases (str_eq k j)) [
  | inl e ↦ Memᴰ.head ((str_eq_iff k j).0 e)
  | inr e ↦ Memᴰ.tail (Memᴰ-mem k ks (ground arith))
]

-- The references of the parts from one on.
part_refs-mem :
    (id : String) (first left part : ℕ)
    → part < left
    → mem (list_ref id (first + part)) (part_refs id first left) ≡ true
unfolding part_refs
part_refs-mem id first zero part h = absurd (omega arith)
part_refs-mem id first (suc left) zero h =
    let same : first + 0 ≡ first = omega arith in rw (same, str_eq_refl (list_ref id first)) refl
part_refs-mem id first (suc left) (suc part) h =
    let later = part_refs-mem id (suc first) left part (omega arith) in
    let same : suc first + part ≡ first + suc part = omega arith in
    let there : mem (list_ref id (first + suc part)) (part_refs id (suc first) left) ≡ true =
      subst (λ n. mem (list_ref id n) (part_refs id (suc first) left) ≡ true) same later in
    ground arith

mem-part_refs :
    (id k : String) (first left : ℕ)
    → mem k (part_refs id first left) ≡ true
    → (part : ℕ) × ((part < left) × (k ≡ list_ref id (first + part)))
unfolding part_refs
mem-part_refs id k first zero h = absurd (ground arith)
mem-part_refs id k first (suc left) h = elim (Bool-cases (str_eq k (list_ref id first))) [
  | inl e ↦ (
    0,
    (omega arith, (str_eq_iff k (list_ref id first)).0 e ∙ ap (λ n. list_ref id n) (omega arith)),
  )
  | inr e ↦
      let (part, (l, q)) = mem-part_refs id k (suc first) left (ground arith) in
      (suc part, (omega arith, q ∙ ap (λ n. list_ref id n) (omega arith)))
]

-- The references that `delete` removes are those of the subscription.
refs_of-Belongs :
    (id : String) (rec : Record) (k : String) → Belongs id rec k → mem k (refs_of id rec) ≡ true
unfolding refs_of
refs_of-Belongs id rec k (entry e) = rw ((str_eq_iff k (record_ref id)).1 e) refl
refs_of-Belongs id rec k (of_server m) =
    let h = mem-Memᴰ k rec.servers m in
    let a = mem-append k rec.servers (part_refs id 0 rec.list_parts) in ground arith
refs_of-Belongs id rec k (of_list part l e) =
    let h = part_refs-mem id 0 rec.list_parts part l in
    let same : 0 + part ≡ part = omega arith in
    let k_in : mem k (part_refs id 0 rec.list_parts) ≡ true = rw e (rw same at h) in
    let a = mem-append k rec.servers (part_refs id 0 rec.list_parts) in ground arith

Belongs-refs_of :
    (id : String) (rec : Record) (k : String) → mem k (refs_of id rec) ≡ true → Belongs id rec k
unfolding refs_of
Belongs-refs_of id rec k h = elim (Bool-cases (str_eq k (record_ref id))) [
  | inl e ↦ entry ((str_eq_iff k (record_ref id)).0 e)
  | inr e ↦ elim (Bool-cases (mem k rec.servers)) [
    | inl m ↦ of_server (Memᴰ-mem k rec.servers m)
    | inr m ↦
        let a = mem-append k rec.servers (part_refs id 0 rec.list_parts) in
        let (part, (l, q)) = mem-part_refs id k 0 rec.list_parts (ground arith) in
        of_list part l (q ∙ ap (λ n. list_ref id n) (omega arith))
  ]
]

-- Either a failure that leaves the records and every stored value, or the record is gone, every value of
-- the subscription is gone from the store, and every other value is as it was.
unfoldable pub IsRemoved : String → Record → Book → Option Failure × Book → Type 0
IsRemoved id rec b (some e, t) =
    (t.records ≡ b.records) × ((k : String) → get k t.vault ≡ get k b.vault)
IsRemoved id rec b (none, t) =
    (lookup id t.records ≡ none)
    × (((k : String)
          → validate_reference k ≡ none
          → Belongs id rec k
          → get k t.vault ≡ inl not_stored)
        × ((k : String)
            → validate_reference k ≡ none
            → ¬ Belongs id rec k
            → get k t.vault ≡ get k b.vault))

-- Deleting a subscription of the book either fails and changes neither the records nor what the store
-- holds, or removes the record and with it its entry, each of its servers and every part of its list from
-- the store, and nothing else.
pub delete-IsRemoved :
    (w : World) (id : String) (b : Book) (rec : Record)
    → lookup id b.records ≡ some rec
    → IsRemoved id rec b (delete w id b)
unfolding delete delete_found removed stored_in IsRemoved IsAtomic found
delete-IsRemoved w id b rec e =
    rw e (
      of_store (apply w [] (refs_of id rec) b.vault) (apply-IsAtomic w [] (refs_of id rec) b.vault))
  where
    kept :
        (k : String)
        → ¬ Belongs id rec k
        → (if mem k (refs_of id rec) then none else lookup k b.vault.items) ≡ lookup k b.vault.items
    kept k n = elim (Bool-cases (mem k (refs_of id rec))) [
      | inl h ↦ absurd (n (Belongs-refs_of id rec k h))
      | inr h ↦ rw h refl
    ]

    of_store :
        (r : Option Failure × Store)
        → IsAtomic [] (refs_of id rec) b.vault r
        → IsRemoved id rec b (removed id (stored_in b r))
    of_store (some f, s) h = (refl, h)
    of_store (none, s) h = (
      lookup-unset id b.records,
      (
        λ k v m. h.1 k v ∙ (rw (refs_of-Belongs id rec k m) refl),
        λ k v n. h.1 k v ∙ (ap found (kept k n) ∙ sym (get-found k b.vault h.0 v)),
      ),
    )

-- What is stored apart from one entry is as before.
Untouched : String → Store → Store → Type 0
Untouched except s t =
    (k : String) → validate_reference k ≡ none → str_eq k except ≡ false → get k t ≡ get k s

-- A failure keeps the lists, the servers of the record, and what is stored apart from the record.
unfoldable pub KeepsServers : String → Record → Book → Option Failure × Book → Type 0
KeepsServers id rec b (none, t) = Unit
KeepsServers id rec b (some e, t) =
    (t.lists ≡ b.lists)
    × (((q : Record) × ((lookup id t.records ≡ some q)
            × ((q.servers ≡ rec.servers) × (q.list_parts ≡ rec.list_parts))))
        × ((k : String)
            → validate_reference k ≡ none
            → str_eq k (record_ref rec.id) ≡ false
            → get k t.vault ≡ get k b.vault))

-- Storing a record, whether or not it fails, touches nothing else.
persist-Untouched :
    (c : Codec) (w : World) (r : Record) (b : Book)
    → Untouched (record_ref r.id) b.vault (persist c w r [] [] b).1.vault
unfolding persist persist_raw stored_in Untouched IsAtomic
persist-Untouched c w r b = raw (c.record_bytes r)
  where
    of_store :
        (bytes : Bytes) (p : Option Failure × Store)
        → IsAtomic ((record_ref r.id, bytes) ∷ []) [] b.vault p
        → Untouched (record_ref r.id) b.vault p.1
    of_store bytes (some e, s) h k v o = h k
    of_store bytes (none, s) h k v o = h.1 k v ∙ (rw o (sym (get-found k b.vault h.0 v)))

    raw :
        (o : Option Bytes) → Untouched (record_ref r.id) b.vault (persist_raw w o r [] [] b).1.vault
    raw none = λ k v o. refl
    raw (some bytes) =
        of_store bytes (apply w ((record_ref r.id, bytes) ∷ []) [] b.vault)
          (apply-IsAtomic w ((record_ref r.id, bytes) ∷ []) [] b.vault)

-- What storing more leaves if it fails, the book as it was but for what the store has noted of itself.
IsClean : Book → Option Failure × Book → Type 0
IsClean b (none, t) = Unit
IsClean b (some e, t) =
    (t.records ≡ b.records) × ((t.lists ≡ b.lists) × ((k : String) → get k t.vault ≡ get k b.vault))

persist-IsClean :
    (c : Codec) (w : World) (r : Record) (puts : Items) (deletes : List String) (b : Book)
    → IsClean b (persist c w r puts deletes b)
unfolding persist persist_raw stored_in IsClean IsAtomic
persist-IsClean c w r puts deletes b = raw (c.record_bytes r)
  where
    of_store :
        (all : Items) (p : Option Failure × Store)
        → IsAtomic all deletes b.vault p
        → IsClean b (stored_in b p)
    of_store all (some e, s) h = (refl, (refl, h))
    of_store all (none, s) h = tt

    raw : (o : Option Bytes) → IsClean b (persist_raw w o r puts deletes b)
    raw none = (refl, (refl, λ k. refl))
    raw (some bytes) =
        of_store (puts ++ (record_ref r.id, bytes) ∷ [])
          (apply w (puts ++ (record_ref r.id, bytes) ∷ []) deletes b.vault)
          (apply-IsAtomic w (puts ++ (record_ref r.id, bytes) ∷ []) deletes b.vault)

-- The same of an update.
IsCleanUpdate : Book → (Option Failure × Record) × Book → Type 0
IsCleanUpdate b ((e, next), t) = IsClean b (e, t)

apply_update-IsClean :
    (c : Codec) (w : World) (rec : Record) (info : Info) (servers : List Imported) (b : Book)
    → IsCleanUpdate b (apply_update c w rec info servers b)
unfolding apply_update apply_raw listed IsCleanUpdate IsClean
apply_update-IsClean c w rec info servers b = raw (c.list_bytes (specs servers))
  where
    kept :
        (q : Record) (p : Option Failure × Book)
        → IsClean b p
        → IsCleanUpdate b (listed q servers p)
    kept q (some e, t) h = h
    kept q (none, t) h = tt

    raw : (o : Option Bytes) → IsCleanUpdate b (apply_raw c w rec info servers o b)
    raw none = (refl, (refl, λ k. refl))
    raw (some bytes) =
        let parts = part_puts rec.id 0 (length bytes) bytes in
        let next = updated (c.sort (references servers)) (length parts) info rec in
        kept next
          (persist c w next (documents servers ++ parts) (dropped rec servers (length parts)) b)
          (persist-IsClean c w next (documents servers ++ parts)
            (dropped rec servers (length parts)) b)

persist-lists :
    (c : Codec) (w : World) (r : Record) (b : Book) → (persist c w r [] [] b).1.lists ≡ b.lists
unfolding persist persist_raw stored_in
persist-lists c w r b = raw (c.record_bytes r)
  where
    raw : (o : Option Bytes) → (persist_raw w o r [] [] b).1.lists ≡ b.lists
    raw none = refl
    raw (some bytes) = refl

abbrev stored : Codec → Failure → StoredError
stored c e = record { code = e.0; key = e.1; detail = c.detail_of e }

-- A record with the servers of `r`, put in its place.
put_failed-Keeps :
    (c : Codec) (w : World) (id : String) (e : Failure) (r q : Record) (b t : Book)
    → lookup id b.records ≡ some r
    → q.id ≡ r.id
    → q.servers ≡ r.servers
    → q.list_parts ≡ r.list_parts
    → IsClean b (some e, t)
    → KeepsServers id r b (put_failed id e q (persist c w q [] [] t))
unfolding put_failed KeepsServers with_record IsClean Untouched
put_failed-Keeps c w id e r q b t l i v p h =
    of_store (persist c w q [] [] t) (persist-IsClean c w q [] [] t) (persist-Untouched c w q t)
      (persist-lists c w q t)
  where
    of_store :
        (z : Option Failure × Book)
        → IsClean t z
        → Untouched (record_ref q.id) t.vault z.1.vault
        → z.1.lists ≡ t.lists
        → KeepsServers id r b (put_failed id e q z)
    of_store (some f, u) c n s = (
      c.1.0 ∙ h.1.0,
      ((r, (ap (λ m. lookup id m) (c.0 ∙ h.0) ∙ l, (refl, refl))), λ k g o. c.1.1 k ∙ h.1.1 k),
    )
    of_store (none, u) c n s = (
      s ∙ h.1.0,
      (
        (q, (lookup-set id q u.records, (v, p))),
        λ k g o. n k g (ap (λ x. str_eq k (record_ref x)) i ∙ o) ∙ h.1.1 k,
      ),
    )

update_failed-Keeps :
    (c : Codec) (w : World) (id : String) (e : Failure) (info : Option Info) (now : ℕ) (r : Record)
    (b t : Book)
    → lookup id b.records ≡ some r
    → IsClean b (some e, t)
    → KeepsServers id r b (update_failed c w id e info (attempted now r) t)
unfolding update_failed attempted failed_with with_info
update_failed-Keeps c w id e none now r b t l h =
    put_failed-Keeps c w id e r (failed_with (stored c e) (attempted now r)) b t l refl refl refl h
update_failed-Keeps c w id e (some info) now r b t l h =
    put_failed-Keeps c w id e r (failed_with (stored c e) (with_info (some info) (attempted now r)))
      b t l refl refl refl h

update_applied-Keeps :
    (c : Codec) (w : World) (id : String) (info : Info) (now : ℕ) (r : Record) (b : Book)
    → lookup id b.records ≡ some r
    → (p : (Option Failure × Record) × Book) → IsCleanUpdate b p
    → KeepsServers id r b (update_applied c w id info (attempted now r) p)
unfolding update_applied KeepsServers IsCleanUpdate IsClean
update_applied-Keeps c w id info now r b l ((none, next), t) h = tt
update_applied-Keeps c w id info now r b l ((some e, next), t) h =
    update_failed-Keeps c w id e (some info) now r b t l h

-- A refresh of a subscription that fails, at the provider, in the parser or in the store, or because the
-- link has changed, keeps the lists of servers, the servers of the record and everything that is stored
-- apart from the record's own entry.
pub finish-KeepsServers :
    (c : Codec) (w : World) (now : ℕ) (id link : String) (answer : Answer) (b : Book) (r : Record)
    → lookup id b.records ≡ some r
    → KeepsServers id r b (finish c w now id link answer b)
unfolding finish finish_found take_answer with_updating KeepsServers IsClean
finish-KeepsServers c w now id link answer b r l = rw l (
    if-both (KeepsServers id r b) (str_eq r.url link)
      (take_answer c w id answer (attempted now r) still) (some no_subscription, still)
      (taken answer) (refl, ((r, (l, (refl, refl))), λ k v o. refl)))
  where
    still : Book
    still = with_updating (without id b.updating) b

    taken : (a : Answer) → KeepsServers id r b (take_answer c w id a (attempted now r) still)
    taken (inl e) = update_failed-Keeps c w id e none now r b still l (refl, (refl, λ k. refl))
    taken (inr (info, inl e)) =
        update_failed-Keeps c w id e (some info) now r b still l (refl, (refl, λ k. refl))
    taken (inr (info, inr servers)) =
        update_applied-Keeps c w id info now r still l
          (apply_update c w (attempted now r) info servers still)
          (apply_update-IsClean c w (attempted now r) info servers still)
