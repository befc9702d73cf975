-- ===== src/Examples/Chunks.antt =====
-- Tests of the chunk handlers.
use huginn_messenger.Prelude.{◌≡◌, refl, String, Bool, true, false, some, List, [], ◌∷◌, All}
use huginn_messenger.Prelude.Int.{ℤ, pos, int64}
use huginn_messenger.Store.Clock.{expired, duration_of_seconds}
use huginn_messenger.Store.Rows.{Db}
use huginn_messenger.Messenger.Chunks.{
  ChunkStoreRequest, is_mismatch, handle_chunk_get, handle_chunk_store, store_chunk_batch,
}
use huginn_messenger.Messenger.Chunks.Batch.{store_chunk_batch-handle_chunk_get}
use huginn_messenger.Examples.Envelopes.{plain}
use huginn_messenger.Chunk.{registered_hash}
use huginn_messenger.Examples.Data.{empty_db}

abbrev waiting : String → Bool
waiting file_id = false

abbrev request : ℤ → String → ChunkStoreRequest
request i hash = record {
  file_id = "f";
  chunk_index = i;
  body = 1 ∷ [];
  sender_id = "";
  recipient_id = "";
  hash = hash;
  signature = "";
  ttl_seconds = pos 60;
}

abbrev batch : List ChunkStoreRequest
batch = request (pos 0) "h" ∷ request (pos 1) "" ∷ []

abbrev stored_batch : Bool × Db
stored_batch = store_chunk_batch plain "alice" waiting "bob" batch 1000000000 empty_db

batch_stored : stored_batch.0 ≡ true
unfolding store_chunk_batch handle_chunk_store registered_hash
batch_stored = refl

-- A chunk whose hash is another is refused.
wrong_hash_refused :
    (store_chunk_batch plain "alice" waiting "bob" (request (pos 0) "g" ∷ []) 1000000000 empty_db).0
    ≡ false
unfolding store_chunk_batch handle_chunk_store registered_hash
wrong_hash_refused = refl

store_chunk_batch-handle_chunk_get_example :
    All
      (λ req.
        (is_mismatch plain "alice" waiting req ≡ false)
        × (handle_chunk_get req.file_id req.chunk_index 2000000000 stored_batch.1 ≡ some req.body))
      batch
store_chunk_batch-handle_chunk_get_example =
    store_chunk_batch-handle_chunk_get plain "alice" waiting "bob" batch 1000000000 2000000000
      empty_db (refl, (refl, tt)) batch_stored

-- One second more than the bound, and the payload expires when it is stored.
long_ttl_expires : expired 1000000000 1000000000 (pos 9223372037) ≡ true
unfolding expired duration_of_seconds int64
long_ttl_expires = refl
