-- ===== src/Store/Track.antt =====
-- internal/store/trackStore.go: the poll cursor of each recipient, and the payloads to retry.
pub mod Retry
use huginn_messenger.Prelude.{
  ℕ, String, Bool, Option, none, some, List, str_eq, if◌then◌else◌, select, reject,
}
use huginn_messenger.Prelude.Int.{ℤ, pos, le_zero, add_leb}
use huginn_messenger.Store.Sql.{lookup, delete, insert_or_replace, insert_or_ignore, has}
use huginn_messenger.Store.Clock.{Time, unix}
use huginn_messenger.Store.Rows.{FailedChunk, LastCheck, failed_pk, last_check_pk, Db}

-- A missing row is 0.
abbrev cursor : Option LastCheck → ℤ
cursor none = pos 0
cursor (some r) = r.last_check

unfoldable pub get_last_chunk_check : String → Db → ℤ
get_last_chunk_check recipient_id db = cursor (lookup last_check_pk recipient_id db.last_check)

unfoldable pub set_last_chunk_check : String → ℤ → Db → Db
set_last_chunk_check recipient_id unix db = record db {
  last_check =
      insert_or_replace last_check_pk (record { recipient_id = recipient_id; last_check = unix })
        db.last_check;
}

abbrev pub default_ttl : ℤ → ℤ
default_ttl ttl = if le_zero ttl then pos 604800 else ttl

-- INSERT OR IGNORE: a payload that already waits keeps its first time.
unfoldable pub store_failed_chunk : String → ℤ → String → ℤ → Time → Db → Db
store_failed_chunk file_id chunk_index recipient_id ttl_seconds now db = record db {
  failed_chunks =
      insert_or_ignore failed_pk
        (record {
          file_id = file_id;
          chunk_index = chunk_index;
          recipient_id = recipient_id;
          created_at = unix now;
          ttl_seconds = default_ttl ttl_seconds;
        })
        db.failed_chunks;
}

unfoldable pub delete_failed_chunk : String → ℤ → Db → Db
delete_failed_chunk file_id chunk_index db = record db {
  failed_chunks = delete failed_pk (file_id, chunk_index) db.failed_chunks;
}

-- COUNT(*) > 0
unfoldable pub is_chunk_failed : String → ℤ → Db → Bool
is_chunk_failed file_id chunk_index db = has failed_pk (file_id, chunk_index) db.failed_chunks

unfoldable pub list_failed_chunks : String → Db → List FailedChunk
list_failed_chunks recipient_id db =
    select (λ c. str_eq c.recipient_id recipient_id) db.failed_chunks

-- WHERE created_at + ttl_seconds <= now, in Unix seconds
unfoldable pub delete_expired_failed_chunks : ℕ → Db → Db
delete_expired_failed_chunks now db = record db {
  failed_chunks = reject (λ c. add_leb c.created_at c.ttl_seconds now) db.failed_chunks;
}

unfoldable pub delete_failed_message : String → Db → Db
delete_failed_message file_id db = record db {
  failed_chunks = reject (λ c. str_eq c.file_id file_id) db.failed_chunks;
}
