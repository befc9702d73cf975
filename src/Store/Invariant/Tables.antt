-- ===== src/Store/Invariant/Tables.antt =====
-- A database with unique keys stays one when a table is replaced by one with unique keys.
use huginn_messenger.Prelude.{List, arith}
use huginn_messenger.Prelude.Result.{Result, IfOk}
use huginn_messenger.Store.Sql.{Error}
use huginn_messenger.Store.Sql.Unique.{IsUnique}
use huginn_messenger.Store.Rows.{
  Chunk, Message, PeerRow, GroupChat, PendingChunk, FailedChunk, LastCheck, ConfigValue,
  FileDownload, LastStateCheck, chunk_pk, pending_pk, failed_pk, message_pk, peer_pk, group_pk,
  last_check_pk, config_pk, download_pk, state_check_pk, Db,
}

-- The primary keys of each table are unique.
pub record IsValid (db : Db) : Type 0 where
  pub chunks : IsUnique chunk_pk db.chunks
  pub pending : IsUnique pending_pk db.pending_chunks
  pub failed : IsUnique failed_pk db.failed_chunks
  pub messages : IsUnique message_pk db.messages
  pub peers : IsUnique peer_pk db.stored_peers
  pub groups : IsUnique group_pk db.group_chats
  pub cursors : IsUnique last_check_pk db.last_check
  pub config : IsUnique config_pk db.config_values
  pub downloads : IsUnique download_pk db.file_downloads
  pub checks : IsUnique state_check_pk db.last_state_check

-- One table is replaced by another with unique keys.
module _ {db : Db} (v : IsValid db) where
  pub with_chunks : (t : List Chunk) → IsUnique chunk_pk t → IsValid (record db { chunks = t })
  with_chunks t u = ground arith

  pub with_pending_chunks :
      (t : List PendingChunk) → IsUnique pending_pk t → IsValid (record db { pending_chunks = t })
  with_pending_chunks t u = ground arith

  pub with_failed_chunks :
      (t : List FailedChunk) → IsUnique failed_pk t → IsValid (record db { failed_chunks = t })
  with_failed_chunks t u = ground arith

  pub with_messages :
      (t : List Message) → IsUnique message_pk t → IsValid (record db { messages = t })
  with_messages t u = ground arith

  pub with_stored_peers :
      (t : List PeerRow) → IsUnique peer_pk t → IsValid (record db { stored_peers = t })
  with_stored_peers t u = ground arith

  pub with_group_chats :
      (t : List GroupChat) → IsUnique group_pk t → IsValid (record db { group_chats = t })
  with_group_chats t u = ground arith

  pub with_last_check :
      (t : List LastCheck) → IsUnique last_check_pk t → IsValid (record db { last_check = t })
  with_last_check t u = ground arith

  pub with_config_values :
      (t : List ConfigValue) → IsUnique config_pk t → IsValid (record db { config_values = t })
  with_config_values t u = ground arith

  pub with_file_downloads :
      (t : List FileDownload) → IsUnique download_pk t → IsValid (record db { file_downloads = t })
  with_file_downloads t u = ground arith

  pub with_last_state_check :
      (t : List LastStateCheck)
      → IsUnique state_check_pk t
      → IsValid (record db { last_state_check = t })
  with_last_state_check t u = ground arith

abbrev pub IsOkValid : Result Error Db → Type 0
IsOkValid = IfOk IsValid
