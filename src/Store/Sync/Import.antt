-- ===== src/Store/Sync/Import.antt =====
-- What an import of a delta does, and that exchanging deltas brings a replica up to date.
use huginn_messenger.Prelude.{
  ℕ, ◌<◌, ◌≡◌, refl, String, true, Option, some, List, [], ◌∷◌, arith, map, ◌∙◌, str_eq, eq_iff,
  eq_refl, any, select, inl, inr, ap, suc, ◌⊎◌,
}
use huginn_messenger.Prelude.Result.{ok}
use huginn_messenger.Prelude.Sort.{sort_by}
use huginn_messenger.Store.Sql.{lookup, has, insert_or_ignore, at}
use huginn_messenger.Store.Sql.Laws.{lookup-insert_or_ignore, has-eq-lookup}
use huginn_messenger.Store.Sql.Query.{any-sort_by, any-map, any-select}
use huginn_messenger.Store.Clock.{Time, unix_micro}
use huginn_messenger.Store.Rows.{Message, message_pk, Db}
use huginn_messenger.Store.Sync.{
  ReplicatedMessage, replicated, message_of, import_messages, import_state_sync_messages,
  export_messages_for_state_sync, in_window, or_zero, updated_first,
}

-- A row that is there stays as it is.
lookup-import_messages :
    (at : ℕ) (ms : List ReplicatedMessage) (t : List Message) (k : String) (r : Message)
    → lookup message_pk k t ≡ some r
    → lookup message_pk k (import_messages at ms t).1 ≡ some r
unfolding import_messages
lookup-import_messages at [] t k r h = h
lookup-import_messages at (m ∷ ms) t k r h =
    lookup-import_messages at ms (insert_or_ignore message_pk (message_of at m) t) k r (
      ground (
        arith,
        lookup-insert_or_ignore message_pk (message_of at m) k t,
        has-eq-lookup message_pk m.message_uid t,
        eq_iff m.message_uid k,
      ))

has-import_messages :
    (at : ℕ) (ms : List ReplicatedMessage) (t : List Message) (k : String)
    → has message_pk k t ≡ true
    → has message_pk k (import_messages at ms t).1 ≡ true
unfolding import_messages
has-import_messages at [] t k h = h
has-import_messages at (m ∷ ms) t k h =
    has-import_messages at ms (insert_or_ignore message_pk (message_of at m) t) k (
      ground (
        arith,
        lookup-insert_or_ignore message_pk (message_of at m) k t,
        has-eq-lookup message_pk m.message_uid t,
        has-eq-lookup message_pk k t,
        has-eq-lookup message_pk k (insert_or_ignore message_pk (message_of at m) t),
        eq_iff m.message_uid k,
      ))

has-insert_or_ignore :
    (at : ℕ) (m : ReplicatedMessage) (t : List Message)
    → has message_pk m.message_uid (insert_or_ignore message_pk (message_of at m) t) ≡ true
has-insert_or_ignore at m t = ground (
  arith,
  lookup-insert_or_ignore message_pk (message_of at m) m.message_uid t,
  has-eq-lookup message_pk m.message_uid t,
  has-eq-lookup message_pk m.message_uid (insert_or_ignore message_pk (message_of at m) t),
  eq_refl m.message_uid,
)

-- Every message of the delta is there afterwards.
imported :
    (at : ℕ) (ms : List ReplicatedMessage) (t : List Message) (k : String)
    → any (λ (m : ReplicatedMessage). str_eq m.message_uid k) ms ≡ true
    → has message_pk k (import_messages at ms t).1 ≡ true
unfolding import_messages
imported at [] t k h = cc
imported at (m ∷ ms) t k h = ground (
  arith,
  imported at ms (insert_or_ignore message_pk (message_of at m) t) k,
  has-import_messages at ms (insert_or_ignore message_pk (message_of at m) t) k,
  has-insert_or_ignore at m t,
  eq_iff m.message_uid k,
)

-- Messages that are all there are not inserted.
import_nothing :
    (at : ℕ) (ms : List ReplicatedMessage) (t : List Message)
    → ((k : String)
        → any (λ (m : ReplicatedMessage). str_eq m.message_uid k) ms ≡ true
        → has message_pk k t ≡ true)
    → import_messages at ms t ≡ ([], t)
unfolding import_messages insert_or_ignore
import_nothing at [] t h = refl
import_nothing at (m ∷ ms) t h =
    rw (h m.message_uid (ground (arith, eq_refl m.message_uid)))
      (import_nothing at ms t (λ k e. h k (ground arith)))

-- ImportStateSyncMessages keeps every row that was there, with the local body, whatever the delta
-- says of it; and after an import a second import of the same delta inserts nothing and changes
-- nothing.
pub import_state_sync_idempotent :
    (ms : List ReplicatedMessage) (now later : Time) (db : Db)
    → ((k : String) (r : Message)
        → lookup message_pk k db.messages ≡ some r
        → lookup message_pk k (import_state_sync_messages ms now db).1.messages ≡ some r)
      × (import_state_sync_messages ms later (import_state_sync_messages ms now db).1
          ≡ ([], (import_state_sync_messages ms now db).1))
unfolding import_state_sync_messages
import_state_sync_idempotent ms now later db = (
  λ k r h. lookup-import_messages (unix_micro now) ms db.messages k r h,
  ap {A = List ReplicatedMessage × List Message} (λ p. (p.0, record db { messages = p.1 }))
      (import_nothing (unix_micro later) ms (import_messages (unix_micro now) ms db.messages).1
        (λ k h. imported (unix_micro now) ms db.messages k h)),
)

-- `b` has every message of `a` that was updated before a time.
abbrev pub HasAllBefore : ℕ → Db → Db → Type 0
HasAllBefore time a b =
    (k : String) (r : Message)
    → lookup message_pk k a.messages ≡ some r
    → r.state_updated_at < time
    → has message_pk k b.messages ≡ true

-- The delta lists each message of its window.
delta_has :
    (since checkpoint : ℕ) (a : Db) (k : String) (r : Message)
    → lookup message_pk k a.messages ≡ some r
    → in_window since checkpoint r ≡ true
    → any
        (λ (m : ReplicatedMessage). str_eq m.message_uid k)
        (map replicated (sort_by updated_first (select (in_window since checkpoint) a.messages)))
      ≡ true
delta_has since checkpoint a k r h w =
    any-map replicated (λ (m : ReplicatedMessage). str_eq m.message_uid k)
      (sort_by updated_first (select (in_window since checkpoint) a.messages))
    ∙ any-sort_by updated_first (at message_pk k) (select (in_window since checkpoint) a.messages)
    ∙ any-select message_pk k (in_window since checkpoint) a.messages {r = r} h w

abbrev delta_messages : ℕ → ℕ → Db → List ReplicatedMessage
delta_messages since checkpoint a =
    map replicated (sort_by updated_first (select (in_window since checkpoint) a.messages))

export_result :
    (since : Option ℕ) (checkpoint sent : ℕ) (ms : List ReplicatedMessage) (a : Db)
    → export_messages_for_state_sync since (some checkpoint) a ≡ ok (sent, ms)
    → (sent ≡ checkpoint) × (ms ≡ delta_messages (or_zero since) checkpoint a)
unfolding export_messages_for_state_sync
export_result since checkpoint sent ms a h = ground arith

window_or_before :
    (since checkpoint : ℕ) (r : Message)
    → r.state_updated_at < suc checkpoint
    → (r.state_updated_at < since) ⊎ (in_window since checkpoint r ≡ true)
window_or_before since checkpoint r h = ground arith

-- Two lists of messages with the same ids, or more in the second.
abbrev pub CoveredBy : List ReplicatedMessage → List ReplicatedMessage → Type 0
CoveredBy ms ns =
    (k : String)
    → any (λ (m : ReplicatedMessage). str_eq m.message_uid k) ms ≡ true
    → any (λ (m : ReplicatedMessage). str_eq m.message_uid k) ns ≡ true

-- An import of a list that covers what `a` exports brings `b` up to date.
pub covering_import :
    (since : Option ℕ) (checkpoint sent : ℕ) (ms ns : List ReplicatedMessage) (now : Time)
    (a b : Db)
    → HasAllBefore (or_zero since) a b
    → export_messages_for_state_sync since (some checkpoint) a ≡ ok (sent, ms)
    → CoveredBy ms ns
    → (sent ≡ checkpoint) × HasAllBefore (suc checkpoint) a (import_state_sync_messages ns now b).1
unfolding import_state_sync_messages
covering_import since checkpoint sent ms ns now a b before h covered =
    let (same, listed) = export_result since checkpoint sent ms a h in
    (
      same,
      λ k r found recent. elim (window_or_before (or_zero since) checkpoint r recent) [
        | inl old ↦ has-import_messages (unix_micro now) ns b.messages k (before k r found old)
        | inr fresh ↦
            imported (unix_micro now) ns b.messages k
              (covered k (rw listed (delta_has (or_zero since) checkpoint a k r found fresh)))
      ],
    )

-- One exchange: if the replica `b` has all messages of `a` updated before `since`, then importing the
-- delta that `a` exports for `since` and `checkpoint` gives it all updated up to the checkpoint, which
-- is the checkpoint that the delta carries.
pub exchange_catches_up :
    (since : Option ℕ) (checkpoint sent : ℕ) (ms : List ReplicatedMessage) (now : Time) (a b : Db)
    → HasAllBefore (or_zero since) a b
    → export_messages_for_state_sync since (some checkpoint) a ≡ ok (sent, ms)
    → (sent ≡ checkpoint) × HasAllBefore (suc checkpoint) a (import_state_sync_messages ms now b).1
exchange_catches_up since checkpoint sent ms now a b before h =
    covering_import since checkpoint sent ms ms now a b before h (λ k listed. listed)
