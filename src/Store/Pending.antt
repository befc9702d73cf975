-- ===== src/Store/Pending.antt =====
-- internal/store/pendingChunkStore.go and outgoingStore.go: the queue of outgoing payloads.

pub mod Queue
use huginn_messenger.Prelude.{
  ℕ, String, Bool, true, false, Option, none, some, List, [], ◌∷◌, ◌++◌, ◌||◌, not, str_eq, leb,
  if◌then◌else◌, select, reject,
}
use huginn_messenger.Prelude.Int.{ℤ, le_zero, leb_ℤ}
use huginn_messenger.Prelude.Sort.{sort_by}
use huginn_messenger.Prelude.Result.{Result, ok, err, ◌>>=◌, ◌>>◌, fail_if}
use huginn_messenger.Store.Sql.{Error, invalid_outgoing_chunk, insert, insert_or_replace, update}
use huginn_messenger.Store.Clock.{Time, unix_micro}
use huginn_messenger.Store.Rows.{
  Bytes, Chunk, PendingChunk, Message, chunk_pk, pending_pk, message_pk, Db,
}
use huginn_messenger.Store.Chunks.{delete_expired_payloads}

unfoldable pub store_pending_chunk : PendingChunk → Db → Db
store_pending_chunk pc db = record db {
  pending_chunks = insert_or_replace pending_pk pc db.pending_chunks;
}

-- WHERE placed = 0 ORDER BY created_at ASC
unfoldable pub get_unplaced_chunks : Db → List PendingChunk
get_unplaced_chunks db =
    sort_by (λ a b. leb a.created_at b.created_at) (select (λ c. not c.placed) db.pending_chunks)

unfoldable pub mark_chunk_placed : String → ℤ → Db → Db
mark_chunk_placed file_id chunk_index db = record db {
  pending_chunks =
      update pending_pk (file_id, chunk_index) (λ c. record c { placed = true }) db.pending_chunks;
}

pub get_pending_chunks_by_message : String → Db → List PendingChunk
get_pending_chunks_by_message file_id db =
    sort_by (λ a b. leb_ℤ a.chunk_index b.chunk_index)
      (select (λ c. str_eq c.file_id file_id) db.pending_chunks)

unfoldable pub delete_pending_chunks : String → Db → Db
delete_pending_chunks file_id db = record db {
  pending_chunks = reject (λ c. str_eq c.file_id file_id) db.pending_chunks;
}

unfoldable pub delete_expired_pending_chunks : Time → Db → Db
delete_expired_pending_chunks now db = record db {
  pending_chunks =
      delete_expired_payloads pending_pk (λ c. c.created_at) (λ c. c.ttl_seconds) now
        db.pending_chunks;
}

abbrev is_empty : Bytes → Bool
is_empty [] = true
is_empty (b ∷ bs) = false

-- The two inserts of one chunk.
abbrev pub chunk_of : PendingChunk → Chunk
chunk_of c = record {
  file_id = c.file_id;
  chunk_index = c.chunk_index;
  body = c.body;
  created_at = c.created_at;
  ttl_seconds = c.ttl_seconds;
}

unfoldable pub queue_chunk : PendingChunk → Db → Result Error Db
queue_chunk c db = do
  fail_if (is_empty c.body || le_zero c.ttl_seconds) invalid_outgoing_chunk
  chunks ← insert chunk_pk (chunk_of c) db.chunks
  pending ← insert pending_pk (record c { placed = false }) db.pending_chunks
  ok (record db { chunks = chunks; pending_chunks = pending })

unfoldable pub queue_chunks : List PendingChunk → Db → Result Error Db
queue_chunks [] db = ok db
queue_chunks (c ∷ cs) db = queue_chunk c db >>= queue_chunks cs

-- One transaction: an error leaves the database as it was (there is no new one).
unfoldable pub queue_outgoing :
    String → String → String → String → Bytes → ℤ → List PendingChunk → Time → Db → Result Error Db
queue_outgoing msg_id login sender chat_id body sent_at chunks now db = do
  messages ←
      insert message_pk
        (record {
          message_uid = msg_id;
          login = login;
          sender_login = sender;
          chat_id = chat_id;
          body = body;
          created_at = sent_at;
          state_updated_at = unix_micro now;
        })
        db.messages
  queue_chunks chunks (record db { messages = messages })
