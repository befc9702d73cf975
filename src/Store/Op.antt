-- ===== src/Store/Op.antt =====
-- Every method of the store that writes, as one type of operations, and what each does to the
-- database. An error leaves the database as it was.
use huginn_messenger.Prelude.{ℕ, String, Bool, Option, List}
use huginn_messenger.Prelude.Int.{ℤ}
use huginn_messenger.Prelude.Result.{Result, ok, ◌>>=◌}
use huginn_messenger.Store.Sql.{Error}
use huginn_messenger.Store.Clock.{Time}
use huginn_messenger.Store.Rows.{Bytes, PendingChunk, GroupChat, Db}
use huginn_messenger.Store.Chunks
use huginn_messenger.Store.Pending
use huginn_messenger.Store.Track
use huginn_messenger.Store.Messages
use huginn_messenger.Store.Groups
use huginn_messenger.Store.Peers
use huginn_messenger.Store.Config
use huginn_messenger.Store.Config.{Config}
use huginn_messenger.Store.Downloads
use huginn_messenger.Store.Sync
use huginn_messenger.Store.Sync.{ReplicatedMessage}
use huginn_messenger.Store.Replication
use huginn_messenger.Store.Replication.{ReplicationSnapshot}

pub data Op : Type 0 where
  store_chunk : String → ℤ → Bytes → ℤ → Time → Op
  delete_chunks : String → Op
  delete_chunk : String → ℤ → Op
  delete_chunks_with_message : Op
  delete_expired_chunks : Time → Op
  store_pending_chunk : PendingChunk → Op
  mark_chunk_placed : String → ℤ → Op
  delete_pending_chunks : String → Op
  delete_expired_pending_chunks : Time → Op
  queue_outgoing : String → String → String → String → Bytes → ℤ → List PendingChunk → Time → Op
  set_last_chunk_check : String → ℤ → Op
  store_failed_chunk : String → ℤ → String → ℤ → Time → Op
  delete_failed_chunk : String → ℤ → Op
  delete_expired_failed_chunks : ℕ → Op
  delete_failed_message : String → Op
  save_message : String → String → String → String → Bytes → ℤ → Time → Op
  create_group_chat : GroupChat → Op
  delete_group_chat : String → Op
  store_peer : String → String → String → String → Time → Bool → Op
  set_config_value : String → String → Op
  save_app_config : Option Config → Op
  track_file_download : String → String → ℤ → Time → ℤ → Op
  mark_file_download_completed : String → String → Time → Op
  cancel_file_download : String → Time → Op
  reset_file_download_completion : String → Op
  mark_file_download_stopped : String → Time → Op
  set_last_state_check : String → Option ℕ → Op
  import_state_sync_messages : List ReplicatedMessage → Time → Op
  import_replication_snapshot : ReplicationSnapshot → Time → Op

unfoldable pub run : Op → Db → Result Error Db
run (store_chunk f i b ttl now) db = ok (Chunks.store_chunk f i b ttl now db)
run (delete_chunks f) db = ok (Chunks.delete_chunks f db)
run (delete_chunk f i) db = ok (Chunks.delete_chunk f i db)
run delete_chunks_with_message db = ok (Chunks.delete_chunks_with_message db)
run (delete_expired_chunks now) db = ok (Chunks.delete_expired_chunks now db)
run (store_pending_chunk c) db = ok (Pending.store_pending_chunk c db)
run (mark_chunk_placed f i) db = ok (Pending.mark_chunk_placed f i db)
run (delete_pending_chunks f) db = ok (Pending.delete_pending_chunks f db)
run (delete_expired_pending_chunks now) db = ok (Pending.delete_expired_pending_chunks now db)
run (queue_outgoing m l s c b t cs now) db = Pending.queue_outgoing m l s c b t cs now db
run (set_last_chunk_check r t) db = ok (Track.set_last_chunk_check r t db)
run (store_failed_chunk f i r ttl now) db = ok (Track.store_failed_chunk f i r ttl now db)
run (delete_failed_chunk f i) db = ok (Track.delete_failed_chunk f i db)
run (delete_expired_failed_chunks now) db = ok (Track.delete_expired_failed_chunks now db)
run (delete_failed_message f) db = ok (Track.delete_failed_message f db)
run (save_message m l s c b t now) db = Messages.save_message m l s c b t now db
run (create_group_chat g) db = Groups.create_group_chat g db
run (delete_group_chat u) db = ok (Groups.delete_group_chat u db)
run (store_peer l p e s t f) db = ok (Peers.store_peer l p e s t f db)
run (set_config_value n v) db = ok (Config.set_config_value n v db)
run (save_app_config c) db = Config.save_app_config c db
run (track_file_download f n c t ttl) db = do
  result ← Downloads.track_file_download f n c t ttl db
  ok result.1
run (mark_file_download_completed f p t) db = Downloads.mark_file_download_completed f p t db
run (cancel_file_download f t) db = Downloads.cancel_file_download f t db
run (reset_file_download_completion f) db = ok (Downloads.reset_file_download_completion f db)
run (mark_file_download_stopped f t) db = ok (Downloads.mark_file_download_stopped f t db)
run (set_last_state_check p t) db = Sync.set_last_state_check p t db
run (import_state_sync_messages ms now) db = ok ((Sync.import_state_sync_messages ms now db).1)
run (import_replication_snapshot s now) db = Replication.import_replication_snapshot s now db
