-- ===== src/Store/History.antt =====
-- What the methods of the store do to the history that is there.
use huginn_messenger.Prelude.{
  ◌≡◌, refl, sym, ◌∙◌, subst, String, Bool, true, false, Option, none, some, List, [], ◌∷◌, arith,
  str_eq, ◌++◌, if◌then◌else◌, ℕ, any,
}
use huginn_messenger.Prelude.Int.{ℤ}
use huginn_messenger.Prelude.Result.{Result, ok, err, ◌>>=◌, IfOk, IfOk-map, IfOk-bind}
use huginn_messenger.Store.Sql
use huginn_messenger.Store.Sql.{Error, insert, lookup}
use huginn_messenger.Store.Sql.Laws.{lookup-append_one}
use huginn_messenger.Store.Clock.{Time}
use huginn_messenger.Store.Rows.{
  Bytes, Message, PendingChunk, GroupChat, FileDownload, message_pk, group_pk, Db,
}
use huginn_messenger.Store.Chunks
use huginn_messenger.Store.Pending
use huginn_messenger.Store.Pending.{queue_chunk, queue_chunks}
use huginn_messenger.Store.Pending.Queue.{messages-queue_chunks}
use huginn_messenger.Store.Track
use huginn_messenger.Store.Messages
use huginn_messenger.Store.Groups
use huginn_messenger.Store.Peers
use huginn_messenger.Store.Config
use huginn_messenger.Store.Config.{Config, save_value, save_values, config_pairs}
use huginn_messenger.Store.Downloads
use huginn_messenger.Store.Downloads.{update_if}
use huginn_messenger.Store.Sync
use huginn_messenger.Store.Sync.Import.{import_state_sync_idempotent}
use huginn_messenger.Store.Op.{Op, run}

-- Every message is still there, with all its columns.
abbrev pub KeepsHistory : Db → Db → Type 0
KeepsHistory d d' =
    (k : String) (m : Message)
    → lookup message_pk k d.messages ≡ some m
    → lookup message_pk k d'.messages ≡ some m

same-KeepsHistory : (d d' : Db) → d'.messages ≡ d.messages → KeepsHistory d d'
same-KeepsHistory d d' e k m h = rw e h

-- The database is there and its history is the same.
abbrev SameHistory : Db → Result Error Db → Type 0
SameHistory d r = IfOk (λ d'. d'.messages ≡ d.messages) r

abbrev KeepsOk : Db → Result Error Db → Type 0
KeepsOk d r = IfOk (KeepsHistory d) r

same-KeepsOk : (d : Db) (r : Result Error Db) → SameHistory d r → KeepsOk d r
same-KeepsOk d r h =
    IfOk-map (λ d'. d'.messages ≡ d.messages) (KeepsHistory d) r (λ d' e. same-KeepsHistory d d' e)
      h

insert_message :
    (row : Message) (d : Db)
    → IfOk (λ t. KeepsHistory d (record d { messages = t })) (insert message_pk row d.messages)
unfolding insert
insert_message row d = by_test (Sql.has message_pk row.message_uid d.messages)
  where
    by_test :
        (b : Bool)
        → IfOk
            (λ t. KeepsHistory d (record d { messages = t }))
            (if b then err Sql.constraint_failed else ok (d.messages ++ row ∷ []))
    by_test true = tt
    by_test false = λ k m h. ground (arith, lookup-append_one message_pk k row d.messages, h)

update_if-SameHistory :
    (f : String) (test : FileDownload → Bool) (g : FileDownload → FileDownload) (e : Error) (d : Db)
    → SameHistory d (update_if f test g e d)
unfolding update_if
update_if-SameHistory f test g e d = ground arith

save_values-same : (ps : List (String × String)) (d : Db) → (save_values ps d).messages ≡ d.messages
unfolding save_values save_value Config.set_config_value
save_values-same [] d = refl
save_values-same ((n, x) ∷ ps) d = save_values-same ps (save_value n x d) ∙ by_test (str_eq x "")
  where
    by_test : (b : Bool) → (if b then d else Config.set_config_value n x d).messages ≡ d.messages
    by_test true = refl
    by_test false = refl

save_app_config-SameHistory :
    (c : Option Config) (d : Db) → SameHistory d (Config.save_app_config c d)
unfolding Config.save_app_config
save_app_config-SameHistory none d = tt
save_app_config-SameHistory (some c) d = save_values-same (config_pairs c) d

create_group_chat-SameHistory :
    (g : GroupChat) (d : Db) → SameHistory d (Groups.create_group_chat g d)
unfolding Groups.create_group_chat
create_group_chat-SameHistory g d = by_result (insert group_pk g d.group_chats)
  where
    by_result :
        (r : Result Error (List GroupChat))
        → SameHistory d (r >>= λ t. ok (record d { group_chats = t }))
    by_result (err e) = tt
    by_result (ok t) = refl

track-SameHistory :
    (f n : String) (c : ℤ) (t : Time) (ttl : ℤ) (d : Db)
    → SameHistory d (run (Op.track_file_download f n c t ttl) d)
unfolding run Downloads.track_file_download Downloads.get_file_download
track-SameHistory f n c t ttl d = ground arith

check-SameHistory :
    (p : String) (t : Option ℕ) (d : Db) → SameHistory d (Sync.set_last_state_check p t d)
unfolding Sync.set_last_state_check
check-SameHistory p none d = ground arith
check-SameHistory p (some t) d = ground arith

save_message-Keeps :
    (m l s c : String) (b : Bytes) (t : ℤ) (now : Time) (d : Db)
    → KeepsOk d (Messages.save_message m l s c b t now d)
unfolding Messages.save_message
save_message-Keeps m l s c b t now d =
    IfOk-bind (λ t. KeepsHistory d (record d { messages = t })) (KeepsHistory d)
      (insert message_pk _ d.messages) (λ messages. ok (record d { messages = messages }))
      (insert_message _ d) (λ messages h. h)

queue_outgoing-Keeps :
    (m l s c : String) (b : Bytes) (t : ℤ) (cs : List PendingChunk) (now : Time) (d : Db)
    → KeepsOk d (Pending.queue_outgoing m l s c b t cs now d)
unfolding Pending.queue_outgoing
queue_outgoing-Keeps m l s c b t cs now d =
    IfOk-bind (λ t. KeepsHistory d (record d { messages = t })) (KeepsHistory d)
      (insert message_pk _ d.messages)
      (λ messages. queue_chunks cs (record d { messages = messages })) (insert_message _ d)
      (λ messages h.
        IfOk-map (λ d'. d'.messages ≡ messages) (KeepsHistory d)
          (queue_chunks cs (record d { messages = messages }))
          (λ d' e k r found. subst (λ t. lookup message_pk k t ≡ some r) (sym e) (h k r found))
          (messages-queue_chunks cs (record d { messages = messages })))

-- The one operation that may change a message that is there.
abbrev pub is_snapshot : Op → Bool
is_snapshot (Op.import_replication_snapshot s now) = true
is_snapshot _ = false

run-KeepsOk : (op : Op) (d : Db) → is_snapshot op ≡ false → KeepsOk d (run op d)
unfolding run Chunks.store_chunk Chunks.delete_chunks Chunks.delete_chunk
    Chunks.delete_chunks_with_message Chunks.delete_expired_chunks Pending.store_pending_chunk
    Pending.mark_chunk_placed Pending.delete_pending_chunks Pending.delete_expired_pending_chunks
    Track.set_last_chunk_check Track.store_failed_chunk Track.delete_failed_chunk
    Track.delete_expired_failed_chunks Track.delete_failed_message Groups.delete_group_chat
    Peers.store_peer Downloads.mark_file_download_completed Downloads.cancel_file_download
    Downloads.reset_file_download_completion Downloads.mark_file_download_stopped
    Config.set_config_value
run-KeepsOk (Op.queue_outgoing m l s c b t cs now) d h = queue_outgoing-Keeps m l s c b t cs now d
run-KeepsOk (Op.save_message m l s c b t now) d h = save_message-Keeps m l s c b t now d
run-KeepsOk (Op.import_state_sync_messages ms now) d h =
    (import_state_sync_idempotent ms now now d).0
run-KeepsOk (Op.create_group_chat g) d h =
    same-KeepsOk d (Groups.create_group_chat g d) (create_group_chat-SameHistory g d)
run-KeepsOk (Op.save_app_config c) d h =
    same-KeepsOk d (Config.save_app_config c d) (save_app_config-SameHistory c d)
run-KeepsOk (Op.track_file_download f n c t ttl) d h =
    same-KeepsOk d (run (Op.track_file_download f n c t ttl) d) (track-SameHistory f n c t ttl d)
run-KeepsOk (Op.mark_file_download_completed f p t) d h =
    same-KeepsOk d _ (update_if-SameHistory f _ _ Sql.file_download_not_found d)
run-KeepsOk (Op.cancel_file_download f t) d h =
    same-KeepsOk d _ (update_if-SameHistory f _ _ Sql.download_not_active d)
run-KeepsOk (Op.set_last_state_check p t) d h =
    same-KeepsOk d (Sync.set_last_state_check p t d) (check-SameHistory p t d)
run-KeepsOk (Op.import_replication_snapshot s now) d h = cc
run-KeepsOk (Op.store_chunk f i b ttl now) d h = λ k m e. e
run-KeepsOk (Op.delete_chunks f) d h = λ k m e. e
run-KeepsOk (Op.delete_chunk f i) d h = λ k m e. e
run-KeepsOk Op.delete_chunks_with_message d h = λ k m e. e
run-KeepsOk (Op.delete_expired_chunks now) d h = λ k m e. e
run-KeepsOk (Op.store_pending_chunk c) d h = λ k m e. e
run-KeepsOk (Op.mark_chunk_placed f i) d h = λ k m e. e
run-KeepsOk (Op.delete_pending_chunks f) d h = λ k m e. e
run-KeepsOk (Op.delete_expired_pending_chunks now) d h = λ k m e. e
run-KeepsOk (Op.set_last_chunk_check r t) d h = λ k m e. e
run-KeepsOk (Op.store_failed_chunk f i r ttl now) d h = λ k m e. e
run-KeepsOk (Op.delete_failed_chunk f i) d h = λ k m e. e
run-KeepsOk (Op.delete_expired_failed_chunks now) d h = λ k m e. e
run-KeepsOk (Op.delete_failed_message f) d h = λ k m e. e
run-KeepsOk (Op.delete_group_chat u) d h = λ k m e. e
run-KeepsOk (Op.store_peer l p e s t f) d h = λ k m x. x
run-KeepsOk (Op.set_config_value n v) d h = λ k m e. e
run-KeepsOk (Op.reset_file_download_completion f) d h = λ k m e. e
run-KeepsOk (Op.mark_file_download_stopped f t) d h = λ k m e. e

-- All of these operations, in their order; one that fails changes nothing.
abbrev pub or_same : Db → Result Error Db → Db
or_same d (ok d') = d'
or_same d (err e) = d

unfoldable pub run_all : List Op → Db → Db
run_all [] d = d
run_all (op ∷ ops) d = run_all ops (or_same d (run op d))

or_same-KeepsHistory : (d : Db) (r : Result Error Db) → KeepsOk d r → KeepsHistory d (or_same d r)
or_same-KeepsHistory d (ok d') h = h
or_same-KeepsHistory d (err e) h = λ k m found. found

-- A message that is in the history stays there, with all its columns, whatever sequence of
-- operations on the store follows, as long as none of them imports a replication snapshot.
pub run_all-KeepsHistory :
    (ops : List Op) (d : Db) → any is_snapshot ops ≡ false → KeepsHistory d (run_all ops d)
unfolding run_all
run_all-KeepsHistory [] d h k m found = found
run_all-KeepsHistory (op ∷ ops) d h k m found =
    run_all-KeepsHistory ops (or_same d (run op d)) (ground (arith, h)) k m
      (or_same-KeepsHistory d (run op d) (run-KeepsOk op d (ground (arith, h))) k m found)
