-- ===== src/Store/Invariant.antt =====
-- The invariant of the database, and that every operation keeps it.
mod Tables
mod Loops
pub use Tables.{IsValid}
use huginn_messenger.Prelude.{
  ℕ, ◌≡◌, refl, String, Bool, false, Option, none, some, List, [], ◌∷◌, arith, Bool-cases, inl, inr,
  str_eq, ◌&&◌, adjust,
}
use huginn_messenger.Prelude.Int.{ℤ}
use huginn_messenger.Prelude.Result.{Result, ok, IfOk, IfOk-at, IfOk-bind}
use huginn_messenger.Store.Sql
use huginn_messenger.Store.Sql.{Error, insert, insert_or_ignore, update, upsert}
use huginn_messenger.Store.Sql.Unique.{
  IsUnique, reject-IsUnique, delete-IsUnique, update-IsUnique, adjust-IsUnique, insert-IsUnique,
  insert_or_replace-IsUnique, insert_or_ignore-IsUnique, upsert-IsUnique,
}
use huginn_messenger.Store.Rows.{
  Chunk, Message, PeerRow, GroupChat, PendingChunk, FailedChunk, LastCheck, ConfigValue,
  FileDownload, LastStateCheck, chunk_pk, pending_pk, failed_pk, message_pk, peer_pk, group_pk,
  last_check_pk, config_pk, download_pk, state_check_pk, Db,
}
use huginn_messenger.Store.Chunks.Expiry.{delete_expired_payloads-IsUnique}
use huginn_messenger.Store.Chunks
use huginn_messenger.Store.Pending
use huginn_messenger.Store.Pending.{chunk_of, queue_chunk, queue_chunks}
use huginn_messenger.Store.Track
use huginn_messenger.Store.Messages
use huginn_messenger.Store.Groups
use huginn_messenger.Store.Peers
use huginn_messenger.Store.Config
use huginn_messenger.Store.Config.{Config, save_value, save_values, config_pairs}
use huginn_messenger.Store.Downloads
use huginn_messenger.Store.Downloads.{retrack, new_download, update_if}
use huginn_messenger.Store.Clock.{Time, unix_micro}
use huginn_messenger.Store.Sync
use huginn_messenger.Store.Sync.{import_messages, ReplicatedMessage, message_of, latest_check}
use huginn_messenger.Store.Replication
use huginn_messenger.Store.Replication.{
  import_replicated_messages, import_replicated_peers, import_replicated_groups, merge_message,
  merge_peer, merge_group, ReplicationSnapshot,
}
use huginn_messenger.Store.Op.{Op, run}
use huginn_messenger.Store.Invariant.Tables.{
  IsOkValid, with_chunks, with_pending_chunks, with_failed_chunks, with_messages, with_stored_peers,
  with_group_chats, with_last_check, with_config_values, with_file_downloads, with_last_state_check,
}
use huginn_messenger.Store.Invariant.Loops.{
  queue_chunk-IsValid, queue_chunks-IsValid, import_messages-IsUnique,
  import_replicated_messages-IsUnique, import_replicated_peers-IsUnique,
  import_replicated_groups-IsUnique, set_config_value-IsValid, save_value-IsValid,
  save_values-IsValid, save_app_config-IsValid, track-IsUnique, update_if-IsOkValid,
  track-IsOkValid, check-IsOkValid, snapshot-IsOkValid,
}

run-IsOkValid : (op : Op) (db : Db) → IsValid db → IsOkValid (run op db)
unfolding run Chunks.store_chunk Chunks.delete_chunks Chunks.delete_chunk
    Chunks.delete_chunks_with_message Chunks.delete_expired_chunks Pending.store_pending_chunk
    Pending.mark_chunk_placed Pending.delete_pending_chunks Pending.delete_expired_pending_chunks
    Track.set_last_chunk_check Track.store_failed_chunk Track.delete_failed_chunk
    Track.delete_expired_failed_chunks Track.delete_failed_message Messages.save_message
    Groups.create_group_chat Groups.delete_group_chat Peers.store_peer Pending.queue_outgoing
    Downloads.track_file_download Downloads.get_file_download Downloads.mark_file_download_completed
    Downloads.cancel_file_download Downloads.reset_file_download_completion
    Downloads.mark_file_download_stopped Sync.set_last_state_check Sync.import_state_sync_messages
    Replication.import_replication_snapshot
run-IsOkValid (Op.store_chunk f i b ttl now) db v =
    with_chunks v _ (insert_or_replace-IsUnique chunk_pk _ db.chunks v.chunks)
run-IsOkValid (Op.delete_chunks f) db v =
    with_chunks v _ (reject-IsUnique chunk_pk _ db.chunks v.chunks)
run-IsOkValid (Op.delete_chunk f i) db v =
    with_chunks v _ (delete-IsUnique chunk_pk _ db.chunks v.chunks)
run-IsOkValid Op.delete_chunks_with_message db v =
    with_chunks v _ (reject-IsUnique chunk_pk _ db.chunks v.chunks)
run-IsOkValid (Op.delete_expired_chunks now) db v =
    with_chunks v _ (delete_expired_payloads-IsUnique chunk_pk _ _ now db.chunks v.chunks)
run-IsOkValid (Op.store_pending_chunk c) db v =
    with_pending_chunks v _ (insert_or_replace-IsUnique pending_pk c db.pending_chunks v.pending)
run-IsOkValid (Op.mark_chunk_placed f i) db v =
    with_pending_chunks v _
      (update-IsUnique pending_pk (f, i) _ (λ r. refl) db.pending_chunks v.pending)
run-IsOkValid (Op.delete_pending_chunks f) db v =
    with_pending_chunks v _ (reject-IsUnique pending_pk _ db.pending_chunks v.pending)
run-IsOkValid (Op.delete_expired_pending_chunks now) db v =
    with_pending_chunks v _
      (delete_expired_payloads-IsUnique pending_pk _ _ now db.pending_chunks v.pending)
run-IsOkValid (Op.queue_outgoing m l s c b t cs now) db v =
    IfOk-bind (IsUnique message_pk) IsValid (insert message_pk _ db.messages)
      (λ messages. queue_chunks cs (record db { messages = messages }))
      (insert-IsUnique message_pk _ db.messages v.messages)
      (λ messages u.
        queue_chunks-IsValid cs (record db { messages = messages }) (with_messages v messages u))
run-IsOkValid (Op.set_last_chunk_check r t) db v =
    with_last_check v _ (insert_or_replace-IsUnique last_check_pk _ db.last_check v.cursors)
run-IsOkValid (Op.store_failed_chunk f i r ttl now) db v =
    with_failed_chunks v _ (insert_or_ignore-IsUnique failed_pk _ db.failed_chunks v.failed)
run-IsOkValid (Op.delete_failed_chunk f i) db v =
    with_failed_chunks v _ (delete-IsUnique failed_pk _ db.failed_chunks v.failed)
run-IsOkValid (Op.delete_expired_failed_chunks now) db v =
    with_failed_chunks v _ (reject-IsUnique failed_pk _ db.failed_chunks v.failed)
run-IsOkValid (Op.delete_failed_message f) db v =
    with_failed_chunks v _ (reject-IsUnique failed_pk _ db.failed_chunks v.failed)
run-IsOkValid (Op.save_message m l s c b t now) db v =
    IfOk-bind (IsUnique message_pk) IsValid (insert message_pk _ db.messages)
      (λ messages. ok (record db { messages = messages }))
      (insert-IsUnique message_pk _ db.messages v.messages)
      (λ messages u. with_messages v messages u)
run-IsOkValid (Op.create_group_chat g) db v =
    IfOk-bind (IsUnique group_pk) IsValid (insert group_pk g db.group_chats)
      (λ groups. ok (record db { group_chats = groups }))
      (insert-IsUnique group_pk g db.group_chats v.groups) (λ groups u. with_group_chats v groups u)
run-IsOkValid (Op.delete_group_chat u) db v =
    with_group_chats v _ (delete-IsUnique group_pk u db.group_chats v.groups)
run-IsOkValid (Op.store_peer l p e s t f) db v =
    with_stored_peers v _ (insert_or_replace-IsUnique peer_pk _ db.stored_peers v.peers)
run-IsOkValid (Op.set_config_value n x) db v = set_config_value-IsValid n x db v
run-IsOkValid (Op.save_app_config c) db v = save_app_config-IsValid c db v
run-IsOkValid (Op.track_file_download f n c t ttl) db v = track-IsOkValid f n c t ttl db v
run-IsOkValid (Op.mark_file_download_completed f p t) db v =
    update_if-IsOkValid f _ _ (λ d. refl) Sql.file_download_not_found db v
run-IsOkValid (Op.cancel_file_download f t) db v =
    update_if-IsOkValid f _ _ (λ d. refl) Sql.download_not_active db v
run-IsOkValid (Op.reset_file_download_completion f) db v =
    with_file_downloads v _
      (update-IsUnique download_pk f _ (λ d. refl) db.file_downloads v.downloads)
run-IsOkValid (Op.mark_file_download_stopped f t) db v =
    with_file_downloads v _
      (adjust-IsUnique download_pk _ _ (λ d. refl) db.file_downloads v.downloads)
run-IsOkValid (Op.set_last_state_check p t) db v = check-IsOkValid p t db v
run-IsOkValid (Op.import_state_sync_messages ms now) db v =
    with_messages v _ (import_messages-IsUnique (unix_micro now) ms db.messages v.messages)
run-IsOkValid (Op.import_replication_snapshot s now) db v = snapshot-IsOkValid s now db v

-- An operation that succeeds on a database whose primary keys are unique leaves a database whose
-- primary keys are unique. This covers all 29 writing methods of the store, the loops inside the
-- transactions included.
run-IsValid : (op : Op) (db db' : Db) → IsValid db → run op db ≡ ok db' → IsValid db'
run-IsValid op db db' v h = IfOk-at IsValid (run op db) (run-IsOkValid op db v) h
