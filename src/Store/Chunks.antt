-- ===== src/Store/Chunks.antt =====
-- internal/store/chunkStore.go and chunkExpiry.go: payloads of this device and of other peers.

pub mod Expiry
use huginn_messenger.Prelude.{
  ℕ, String, Bool, true, false, Option, none, some, List, [], ◌∷◌, ◌++◌, map, ◌&&◌, not, str_eq,
  if◌then◌else◌, any, select, reject, ◌||◌,
}
use huginn_messenger.Prelude.Int.{ℤ, le_zero}
use huginn_messenger.Store.Sql.{PrimaryKey, lookup, delete, insert_or_replace}
use huginn_messenger.Store.Clock.{Time, expired}
use huginn_messenger.Store.Rows.{
  Bytes, ChunkKey, chunk_key_eqb, Chunk, PendingChunk, chunk_pk, pending_pk, Db,
}

unfoldable pub store_chunk : String → ℤ → Bytes → ℤ → Time → Db → Db
store_chunk file_id chunk_index body ttl_seconds now db = record db {
  chunks =
      insert_or_replace chunk_pk
        (record {
          file_id = file_id;
          chunk_index = chunk_index;
          body = body;
          created_at = now;
          ttl_seconds = ttl_seconds;
        })
        db.chunks;
}

-- The body of a queued payload that has not expired.
abbrev pub live_pending : Time → Option PendingChunk → Option Bytes
live_pending now none = none
live_pending now (some p) = if expired now p.created_at p.ttl_seconds then none else some p.body

-- A payload, or the copy of it in the outgoing queue; `none` is (nil, nil).
abbrev pub chunk_or_pending : Time → Option Chunk → Option PendingChunk → Option Bytes
chunk_or_pending now (some c) p = some c.body
chunk_or_pending now none p = live_pending now p

unfoldable pub get_chunk : String → ℤ → Time → Db → Option Bytes
get_chunk file_id chunk_index now db =
    chunk_or_pending now (lookup chunk_pk (file_id, chunk_index) db.chunks)
      (lookup pending_pk (file_id, chunk_index) db.pending_chunks)

unfoldable pub delete_chunks : String → Db → Db
delete_chunks file_id db = record db { chunks = reject (λ c. str_eq c.file_id file_id) db.chunks }

-- SELECT DISTINCT file_id
distinct : List String → List String
distinct [] = []
distinct (f ∷ fs) = f ∷ reject (λ g. str_eq g f) (distinct fs)

pub list_chunk_files : Db → List String
list_chunk_files db = distinct (map (λ (c : Chunk). c.file_id) db.chunks)

-- The map from index to body, as the list of its entries.
unfoldable pub list_chunks : String → Db → List (ℤ × Bytes)
list_chunks file_id db =
    map (λ (c : Chunk). (c.chunk_index, c.body)) (select (λ c. str_eq c.file_id file_id) db.chunks)

unfoldable pub delete_chunk : String → ℤ → Db → Db
delete_chunk file_id index db = record db { chunks = delete chunk_pk (file_id, index) db.chunks }

-- WHERE file_id IN (SELECT message_uid FROM messages)
--   AND file_id NOT IN (SELECT file_id FROM pending_chunks)
abbrev pub of_settled_message : Db → Chunk → Bool
of_settled_message db c =
    any (λ m. str_eq m.message_uid c.file_id) db.messages
    && not (any (λ p. str_eq p.file_id c.file_id) db.pending_chunks)

unfoldable pub delete_chunks_with_message : Db → Db
delete_chunks_with_message db = record db { chunks = reject (of_settled_message db) db.chunks }

-- deleteExpiredPayloads over either table: the keys of the rows that have expired are read first,
-- and then deleted one by one in a transaction.
module _ {R : Type 0} (pk : PrimaryKey R) (created : R → Time) (ttl : R → ℤ) where
  open pk use {Key, key}

  -- A row of `WHERE ttl_seconds > 0` that the loop appends to `expired`.
  abbrev pub is_expired : Time → R → Bool
  is_expired now r = not (le_zero (ttl r)) && expired now (created r) (ttl r)

  unfoldable pub expired_keys : Time → List R → List Key
  expired_keys now [] = []
  expired_keys now (r ∷ t) =
      let rest = expired_keys now t in if is_expired now r then key r ∷ rest else rest

  unfoldable pub delete_keys : List Key → List R → List R
  delete_keys [] t = t
  delete_keys (k ∷ ks) t = delete_keys ks (delete pk k t)

  unfoldable pub delete_expired_payloads : Time → List R → List R
  delete_expired_payloads now t = delete_keys (expired_keys now t) t

unfoldable pub delete_expired_chunks : Time → Db → Db
delete_expired_chunks now db = record db {
  chunks = delete_expired_payloads chunk_pk (λ c. c.created_at) (λ c. c.ttl_seconds) now db.chunks;
}
