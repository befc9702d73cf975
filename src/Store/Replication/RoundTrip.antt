-- ===== src/Store/Replication/RoundTrip.antt =====
-- Importing an exported snapshot.
use mathlib.Core.Option
use huginn_messenger.Prelude.{
  ℕ, ◌≡◌, refl, String, Bool, true, false, Option, none, some, List, [], ◌∷◌, arith, map, ◌∙◌, ap,
  str_eq, eq_iff, if◌then◌else◌, any, All,
}
use huginn_messenger.Prelude.Result.{ok}
use huginn_messenger.Prelude.Sort.{sort_by}
use huginn_messenger.Store.Sql.{lookup, has, upsert, at}
use huginn_messenger.Store.Sql.Laws.{lookup-upsert, eqb-key-lookup}
use huginn_messenger.Store.Sql.Query.{
  any-sort_by, All-sort_by, any-map, All-map, All-lookup_self, All-imp,
}
use huginn_messenger.Store.Clock.{Time, unix_micro}
use huginn_messenger.Store.Rows.{Message, message_pk, Db}
use huginn_messenger.Store.Invariant.{IsValid}
use huginn_messenger.Store.Sync.{ReplicatedMessage, replicated, message_of}
use huginn_messenger.Store.Replication.{
  merge_message, import_replicated_messages, by_created_and_uid, read_replicated_messages,
  export_replication_snapshot, import_replication_snapshot,
}

-- The replicated part of the message with an id.
abbrev pub view : String → List Message → Option ReplicatedMessage
view k t = Option.map replicated (lookup message_pk k t)

view_merged :
    (now : ℕ) (m : ReplicatedMessage) (o : Message)
    → str_eq o.message_uid m.message_uid ≡ true
    → replicated (merge_message o (message_of now m)) ≡ m
view_merged now m o h = ground (arith, eq_iff o.message_uid m.message_uid)

view_of_upserted :
    (now : ℕ) (m : ReplicatedMessage) (o : Option Message)
    → ((r : Message) → o ≡ some r → str_eq r.message_uid m.message_uid ≡ true)
    → Option.map replicated
        (some (elim o [ none ↦ message_of now m | some r ↦ merge_message r (message_of now m) ]))
      ≡ some m
view_of_upserted now m none h = refl
view_of_upserted now m (some r) h = ap some (view_merged now m r (h r refl))

view-upsert :
    (now : ℕ) (m : ReplicatedMessage) (k : String) (t : List Message)
    → view k (upsert message_pk merge_message (message_of now m) t)
      ≡ (if str_eq m.message_uid k then some m else view k t)
view-upsert now m k t =
    let key = λ (r : Message) (e : lookup message_pk m.message_uid t ≡ some r).
      eqb-key-lookup message_pk m.message_uid t {r = r} e in
    ground (
      arith,
      lookup-upsert message_pk merge_message (λ o e. refl) (message_of now m) k t,
      view_of_upserted now m (lookup message_pk m.message_uid t) key,
      eq_iff m.message_uid k,
    )

abbrev lists : String → List ReplicatedMessage → Bool
lists k ms = any (λ m. str_eq m.message_uid k) ms

-- A message that the snapshot does not list stays.
view_unlisted :
    (now : ℕ) (ms : List ReplicatedMessage) (k : String) (t : List Message)
    → lists k ms ≡ false
    → view k (import_replicated_messages now ms t) ≡ view k t
unfolding import_replicated_messages
view_unlisted now [] k t h = refl
view_unlisted now (m ∷ ms) k t h = ground (
  arith,
  view_unlisted now ms k (upsert message_pk merge_message (message_of now m) t),
  view-upsert now m k t,
)

-- One that it lists is as the snapshot has it, where all of its entries agree.
view_listed :
    (now : ℕ) (f : String → Option ReplicatedMessage) (ms : List ReplicatedMessage) (k : String)
    (t : List Message)
    → All (λ (m : ReplicatedMessage). f m.message_uid ≡ some m) ms
    → lists k ms ≡ true
    → view k (import_replicated_messages now ms t) ≡ f k
unfolding import_replicated_messages
view_listed now f [] k t a h = cc
view_listed now f (m ∷ ms) k t a h = ground (
  arith,
  view_listed now f ms k (upsert message_pk merge_message (message_of now m) t),
  view_unlisted now ms k (upsert message_pk merge_message (message_of now m) t),
  view-upsert now m k t,
  eq_iff m.message_uid k,
)

listed_if_there :
    (k : String) (t : List Message)
    → lists k (map replicated (sort_by by_created_and_uid t)) ≡ has message_pk k t
unfolding has
listed_if_there k t =
    any-map replicated (λ (m : ReplicatedMessage). str_eq m.message_uid k)
      (sort_by by_created_and_uid t)
    ∙ any-sort_by by_created_and_uid (at message_pk k) t

entries_agree :
    (a : Db)
    → IsValid a
    → All
        (λ (m : ReplicatedMessage). view m.message_uid a.messages ≡ some m)
        (map replicated (sort_by by_created_and_uid a.messages))
entries_agree a v =
    All-map replicated (λ m. view m.message_uid a.messages ≡ some m)
      (sort_by by_created_and_uid a.messages)
      (All-sort_by (λ r. view r.message_uid a.messages ≡ some (replicated r)) by_created_and_uid
        a.messages
        (All-imp (λ r. lookup message_pk r.message_uid a.messages ≡ some r)
          (λ r. view r.message_uid a.messages ≡ some (replicated r)) a.messages (λ r e. rw e)
          (All-lookup_self message_pk a.messages v.messages)))

-- Importing the snapshot of a database with unique keys succeeds, and then each message id shows what
-- the source has for it or, where the source has none, what the target had.
pub import-export :
    (a b : Db) (now : Time) (k : String)
    → IsValid a
    → (b' : Db) × (import_replication_snapshot (export_replication_snapshot a) now b ≡ ok b')
      × (view k b'.messages
          ≡ (if has message_pk k a.messages then view k a.messages else view k b.messages))
unfolding import_replication_snapshot export_replication_snapshot read_replicated_messages
import-export a b now k v = (
  _,
  refl,
  ground (
    arith,
    listed_if_there k a.messages,
    view_unlisted (unix_micro now) (map replicated (sort_by by_created_and_uid a.messages)) k
        b.messages,
    view_listed (unix_micro now) (λ (j : String). view j a.messages)
        (map replicated (sort_by by_created_and_uid a.messages)) k b.messages (entries_agree a v),
  ),
)
