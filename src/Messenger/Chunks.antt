-- ===== src/Messenger/Chunks.antt =====
-- handleChunkStore and handleChunkGet of internal/messenger/chunks.go, and the batches of
-- internal/webrtc/chunk_ack.go, which call the first for each chunk.
pub mod Batch
use huginn_messenger.Prelude.{
  String, Bool, true, false, Option, List, [], ◌∷◌, ◌++◌, ◌&&◌, not, str_eq, if◌then◌else◌,
}
use huginn_messenger.Prelude.Int.{ℤ}
use huginn_messenger.Prelude.Result.{Result, ok, err, ◌>>=◌, ◌>>◌, fail_if}
use huginn_messenger.Crypto.{Primitives}
use huginn_messenger.Chunk.{registered_hash}
use huginn_messenger.Store.Clock.{Time}
use huginn_messenger.Store.Rows.{Bytes, Db}
use huginn_messenger.Store.Chunks.{store_chunk, get_chunk}
use huginn_messenger.Store.Track.{default_ttl}

pub record ChunkStoreRequest : Type 0 where
  pub file_id : String
  pub chunk_index : ℤ
  pub body : Bytes
  pub sender_id : String
  pub recipient_id : String
  pub hash : String
  pub signature : String
  pub ttl_seconds : ℤ

pub data HandlerError : Type 0 where
  hash_mismatch : HandlerError

-- The jobs that are offered to the pool.
pub data ChunkJob : Type 0 where
  report_chunk : String → ChunkStoreRequest → ChunkJob
  check_pending_file_downloads : ChunkJob

unfoldable pub handle_chunk_get : String → ℤ → Time → Db → Option Bytes
handle_chunk_get file_id chunk_index now db = get_chunk file_id chunk_index now db

-- What the messenger knows: its own key, and the files that it waits for.
module _ (prim : Primitives) (own_key : String) (waiting : String → Bool) where
  abbrev pub is_mismatch : ChunkStoreRequest → Bool
  is_mismatch req =
      not (str_eq req.hash "") && not (str_eq (registered_hash prim req.body) req.hash)

  abbrev pub reports : String → ChunkStoreRequest → List ChunkJob
  reports peer req =
      if not (str_eq req.recipient_id "")
        && (not (str_eq req.recipient_id own_key)
            && (not (str_eq req.hash "") && not (str_eq req.sender_id "")))
      then report_chunk peer req ∷ []
      else []

  abbrev pub checks : ChunkStoreRequest → List ChunkJob
  checks req = if waiting req.file_id then check_pending_file_downloads ∷ [] else []

  unfoldable pub handle_chunk_store :
      String → ChunkStoreRequest → Time → Db → Result HandlerError (List ChunkJob × Db)
  handle_chunk_store peer req now db = do
    fail_if (is_mismatch req) hash_mismatch
    ok (
      reports peer req ++ checks req,
      store_chunk req.file_id req.chunk_index req.body (default_ttl req.ttl_seconds) now db,
    )

  -- The loop of storeChunkBatch, which stops at the first error: whether the acknowledgement is
  -- free of an error, and the database. All chunks get one reading of the clock.
  abbrev pub go_on : Db → (Db → Bool × Db) → Result HandlerError (List ChunkJob × Db) → Bool × Db
  go_on db rest (err e) = (false, db)
  go_on db rest (ok stored) = rest stored.1

  unfoldable pub store_chunk_batch : String → List ChunkStoreRequest → Time → Db → Bool × Db
  store_chunk_batch peer [] now db = (true, db)
  store_chunk_batch peer (req ∷ reqs) now db =
      go_on db (λ db'. store_chunk_batch peer reqs now db') (handle_chunk_store peer req now db)
