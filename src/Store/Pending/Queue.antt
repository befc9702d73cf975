-- ===== src/Store/Pending/Queue.antt =====
-- What a successful QueueOutgoing has stored.
use huginn_messenger.Prelude.{
  ◌≡◌, refl, String, false, none, some, List, [], ◌∷◌, ◌∙◌, ◌++◌, ◌≢◌, arith, All,
}
use huginn_messenger.Prelude.Int.{ℤ, le_zero}
use huginn_messenger.Prelude.Result.{ok, >>=-eq-ok, IfOk, IfOk-at, IfOk-bind, IfOk-map, IfOk-both}
use huginn_messenger.Store.Sql.{insert, lookup, has}
use huginn_messenger.Store.Sql.Laws.{
  insert-lookup_self, insert-lookup_keeps, insert-ok_of_absent, lookup-append_one,
}
use huginn_messenger.Store.Clock.{Time, unix_micro}
use huginn_messenger.Store.Rows.{
  Bytes, ChunkKey, Chunk, PendingChunk, chunk_pk, pending_pk, message_pk, Db, Message,
  chunk_key_eqb_iff,
}
use huginn_messenger.Store.Pending.{chunk_of, queue_chunk, queue_chunks, queue_outgoing}
use huginn_messenger.Store.Messages.{find_message_by_id}

abbrev pub key_of : PendingChunk → ChunkKey
key_of c = (c.file_id, c.chunk_index)

-- Both copies of the payload are there, the queued one not yet placed.
pub record IsQueued (db : Db) (c : PendingChunk) : Type 0 where
  pub stored : lookup chunk_pk (key_of c) db.chunks ≡ some (chunk_of c)
  pub waiting : lookup pending_pk (key_of c) db.pending_chunks ≡ some (record c { placed = false })
  pub positive : le_zero c.ttl_seconds ≡ false

queue_chunk-IsQueued :
    (c : PendingChunk) (db : Db) → IfOk (λ db'. IsQueued db' c) (queue_chunk c db)
unfolding queue_chunk
queue_chunk-IsQueued c db = ground (
  arith,
  insert-lookup_self chunk_pk (chunk_of c) db.chunks,
  insert-lookup_self pending_pk (record c { placed = false }) db.pending_chunks,
)

queue_chunk-keeps :
    (c : PendingChunk) (db : Db) (d : PendingChunk)
    → IsQueued db d
    → IfOk (λ db'. IsQueued db' d) (queue_chunk c db)
unfolding queue_chunk
queue_chunk-keeps c db d q = ground (
  arith,
  insert-lookup_keeps chunk_pk (chunk_of c) db.chunks (key_of d) (chunk_of d),
  insert-lookup_keeps pending_pk (record c { placed = false }) db.pending_chunks (key_of d)
      (record d { placed = false }),
)

messages-queue_chunk :
    (c : PendingChunk) (db : Db) → IfOk (λ db'. db'.messages ≡ db.messages) (queue_chunk c db)
unfolding queue_chunk
messages-queue_chunk c db = ground arith

queue_chunks-keeps :
    (cs : List PendingChunk) (db : Db) (d : PendingChunk)
    → IsQueued db d
    → IfOk (λ db'. IsQueued db' d) (queue_chunks cs db)
unfolding queue_chunks
queue_chunks-keeps [] db d q = q
queue_chunks-keeps (c ∷ cs) db d q =
    IfOk-bind (λ db'. IsQueued db' d) (λ db'. IsQueued db' d) (queue_chunk c db) (queue_chunks cs)
      (queue_chunk-keeps c db d q) (λ db' q'. queue_chunks-keeps cs db' d q')

pub messages-queue_chunks :
    (cs : List PendingChunk) (db : Db)
    → IfOk (λ db'. db'.messages ≡ db.messages) (queue_chunks cs db)
unfolding queue_chunks
messages-queue_chunks [] db = refl
messages-queue_chunks (c ∷ cs) db =
    IfOk-bind (λ db'. db'.messages ≡ db.messages) (λ db'. db'.messages ≡ db.messages)
      (queue_chunk c db) (queue_chunks cs) (messages-queue_chunk c db)
      (λ db' e.
        IfOk-map (λ d. d.messages ≡ db'.messages) (λ d. d.messages ≡ db.messages)
          (queue_chunks cs db') (λ db'' e'. e' ∙ e) (messages-queue_chunks cs db'))

queue_chunks-All :
    (cs : List PendingChunk) (db : Db) → IfOk (λ db'. All (IsQueued db') cs) (queue_chunks cs db)
unfolding queue_chunks
queue_chunks-All [] db = tt
queue_chunks-All (c ∷ cs) db =
    IfOk-bind (λ db'. IsQueued db' c) (λ db'. IsQueued db' c × All (IsQueued db') cs)
      (queue_chunk c db) (queue_chunks cs) (queue_chunk-IsQueued c db)
      (λ db' q.
        IfOk-both (λ d. IsQueued d c) (λ d. All (IsQueued d) cs) (queue_chunks cs db')
          (queue_chunks-keeps cs db' c q) (queue_chunks-All cs db'))

abbrev pub message_row : String → String → String → String → Bytes → ℤ → Time → Message
message_row msg_id login sender chat_id body sent_at now = record {
  message_uid = msg_id;
  login = login;
  sender_login = sender;
  chat_id = chat_id;
  body = body;
  created_at = sent_at;
  state_updated_at = unix_micro now;
}

-- When QueueOutgoing succeeds, the message is in the history exactly as it was given, and each of
-- its chunks is stored with a positive TTL and waits in the queue, not placed.
pub queue_outgoing-IsQueued :
    (msg_id login sender chat_id : String) (body : Bytes) (sent_at : ℤ) (cs : List PendingChunk)
    (now : Time) (db db' : Db)
    → queue_outgoing msg_id login sender chat_id body sent_at cs now db ≡ ok db'
    → (lookup message_pk msg_id db'.messages
        ≡ some (message_row msg_id login sender chat_id body sent_at now))
      × All (IsQueued db') cs
unfolding queue_outgoing
queue_outgoing-IsQueued msg_id login sender chat_id body sent_at cs now db db' h =
    let row = message_row msg_id login sender chat_id body sent_at now in
    let (messages, inserted, queued) = >>=-eq-ok (insert message_pk row db.messages) _ h in
    (
      rw (IfOk-at _ _ (messages-queue_chunks cs (record db { messages = messages })) queued)
          (IfOk-at _ _ (insert-lookup_self message_pk row db.messages) inserted),
      IfOk-at _ _ (queue_chunks-All cs (record db { messages = messages })) queued,
    )

-- The keys of the chunks are new to both tables, and no two chunks share one.
abbrev pub AreFresh : List Chunk → List PendingChunk → List PendingChunk → Type 0
AreFresh chunks pending [] = Unit
AreFresh chunks pending (c ∷ cs) =
    (lookup chunk_pk (key_of c) chunks ≡ none)
    × (lookup pending_pk (key_of c) pending ≡ none)
    × (has pending_pk (key_of c) cs ≡ false)
    × AreFresh chunks pending cs

abbrev pub IsSendable : PendingChunk → Type 0
IsSendable c = (c.body ≢ []) × (le_zero c.ttl_seconds ≡ false)

-- The database after the two inserts of one chunk.
abbrev with_chunk : PendingChunk → Db → Db
with_chunk c db = record db {
  chunks = db.chunks ++ chunk_of c ∷ [];
  pending_chunks = db.pending_chunks ++ record c { placed = false } ∷ [];
}

queue_chunk_ok :
    (c : PendingChunk) (db : Db)
    → IsSendable c
    → lookup chunk_pk (key_of c) db.chunks ≡ none
    → lookup pending_pk (key_of c) db.pending_chunks ≡ none
    → queue_chunk c db ≡ ok (with_chunk c db)
unfolding queue_chunk
queue_chunk_ok c db v p q = ground (
  arith,
  insert-ok_of_absent chunk_pk (chunk_of c) db.chunks,
  insert-ok_of_absent pending_pk (record c { placed = false }) db.pending_chunks,
)

with_chunk-AreFresh :
    (c : PendingChunk) (db : Db) (cs : List PendingChunk)
    → has pending_pk (key_of c) cs ≡ false
    → AreFresh db.chunks db.pending_chunks cs
    → AreFresh (with_chunk c db).chunks (with_chunk c db).pending_chunks cs
unfolding has
with_chunk-AreFresh c db [] h f = tt
with_chunk-AreFresh c db (d ∷ cs) h f = ground (
  arith,
  lookup-append_one chunk_pk (key_of d) (chunk_of c) db.chunks,
  lookup-append_one pending_pk (key_of d) (record c { placed = false }) db.pending_chunks,
  with_chunk-AreFresh c db cs,
  chunk_key_eqb_iff (key_of c) (key_of d),
  chunk_key_eqb_iff (key_of d) (key_of c),
)

queue_chunks_ok :
    (cs : List PendingChunk) (db : Db)
    → All IsSendable cs
    → AreFresh db.chunks db.pending_chunks cs
    → (db' : Db) × (queue_chunks cs db ≡ ok db')
unfolding queue_chunks
queue_chunks_ok [] db v f = (db, refl)
queue_chunks_ok (c ∷ cs) db v f =
    rw (queue_chunk_ok c db v.0 f.0 f.1)
      (queue_chunks_ok cs (with_chunk c db) v.1 (with_chunk-AreFresh c db cs f.2 f.3))

-- QueueOutgoing succeeds whenever the message id is new, every chunk has a body and a positive TTL,
-- and the keys of the chunks are new and distinct.
pub queue_outgoing_succeeds :
    (msg_id login sender chat_id : String) (body : Bytes) (sent_at : ℤ) (cs : List PendingChunk)
    (now : Time) (db : Db)
    → find_message_by_id msg_id db ≡ false
    → All IsSendable cs
    → AreFresh db.chunks db.pending_chunks cs
    → (db' : Db) × (queue_outgoing msg_id login sender chat_id body sent_at cs now db ≡ ok db')
unfolding queue_outgoing find_message_by_id insert
queue_outgoing_succeeds msg_id login sender chat_id body sent_at cs now db new v f = rw new (
    queue_chunks_ok cs
      (record db {
        messages = db.messages ++ message_row msg_id login sender chat_id body sent_at now ∷ [];
      })
      v f)
