-- ===== src/Messenger/Cleanup.antt =====
-- chunkCleanupLoop of internal/messenger/chunks.go: what the loop does at a tick.
pub mod Survival
use huginn_messenger.Store.Clock.{Time, unix}
use huginn_messenger.Store.Rows.{Db}
use huginn_messenger.Store.Chunks.{delete_expired_chunks, delete_chunks_with_message}
use huginn_messenger.Store.Pending.{delete_expired_pending_chunks}
use huginn_messenger.Store.Track.{delete_expired_failed_chunks}

-- `later` is the clock's second reading, for the last statement.
unfoldable pub cleanup : Time → Time → Db → Db
cleanup now later db =
    delete_expired_failed_chunks (unix later) (
      delete_chunks_with_message (delete_expired_pending_chunks now (delete_expired_chunks now db)))
