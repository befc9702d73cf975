-- ===== src/Messenger/Cleanup/Survival.antt =====
-- Cleaning up does not lose a payload that is still queued.
use huginn_messenger.Prelude.{
  ◌≡◌, refl, String, true, false, Option, none, some, List, [], ◌∷◌, arith, str_eq, eq_iff, any, ap,
}
use huginn_messenger.Prelude.Int.{ℤ}
use huginn_messenger.Store.Sql.{lookup}
use huginn_messenger.Store.Sql.Laws.{find-reject}
use huginn_messenger.Store.Clock.{Time, expired}
use huginn_messenger.Store.Rows.{Chunk, PendingChunk, chunk_pk, pending_pk, Db, chunk_key_eqb}
use huginn_messenger.Store.Invariant.{IsValid}
use huginn_messenger.Store.Chunks.{
  chunk_or_pending, get_chunk, of_settled_message, delete_expired_chunks,
  delete_chunks_with_message,
}
use huginn_messenger.Store.Chunks.Expiry.{lookup-delete_expired_payloads}
use huginn_messenger.Store.Pending.{delete_expired_pending_chunks}
use huginn_messenger.Store.Track.{delete_expired_failed_chunks}
use huginn_messenger.Messenger.Cleanup.{cleanup}

-- A queued payload keeps its file among the queued files.
any_pending :
    (f : String) (i : ℤ) (t : List PendingChunk) {p : PendingChunk}
    → lookup pending_pk (f, i) t ≡ some p
    → any (λ q. str_eq q.file_id f) t ≡ true
unfolding lookup
any_pending f i [] {p} h = cc
any_pending f i (r ∷ t) {p} h = ground (arith, any_pending f i t {p = p})

-- So a row of that file is not the row of a settled message.
not_settled :
    (f : String) (i : ℤ) (db : Db) {p : PendingChunk}
    → lookup pending_pk (f, i) db.pending_chunks ≡ some p
    → (c : Chunk) → chunk_key_eqb (c.file_id, c.chunk_index) (f, i) ≡ true
    → of_settled_message db c ≡ false
not_settled f i db {p} h c e =
    ground (arith, any_pending f i db.pending_chunks {p = p}, eq_iff c.file_id f)

lookup-delete_chunks_with_message :
    (f : String) (i : ℤ) (db : Db) {p : PendingChunk}
    → lookup pending_pk (f, i) db.pending_chunks ≡ some p
    → lookup chunk_pk (f, i) (delete_chunks_with_message db).chunks
      ≡ lookup chunk_pk (f, i) db.chunks
unfolding delete_chunks_with_message lookup
lookup-delete_chunks_with_message f i db {p} h =
    find-reject (of_settled_message db) _ (not_settled f i db {p = p} h) db.chunks

-- The database after the two expiry statements.
abbrev unexpired : Time → Db → Db
unexpired now db = delete_expired_pending_chunks now (delete_expired_chunks now db)

module _ (f : String) (i : ℤ) (now : Time) (db : Db) (p : PendingChunk) (v : IsValid db)
    (queued : lookup pending_pk (f, i) db.pending_chunks ≡ some p)
    (live : expired now p.created_at p.ttl_seconds ≡ false) where
  still_queued : lookup pending_pk (f, i) (unexpired now db).pending_chunks ≡ some p
  unfolding delete_expired_chunks delete_expired_pending_chunks
  still_queued = ground (
    arith,
    lookup-delete_expired_payloads pending_pk (λ (c : PendingChunk). c.created_at)
        (λ (c : PendingChunk). c.ttl_seconds) now (f, i) db.pending_chunks v.pending,
  )

  chunk_if_unexpired :
      (c : Chunk)
      → lookup chunk_pk (f, i) (unexpired now db).chunks ≡ some c
      → lookup chunk_pk (f, i) db.chunks ≡ some c
  unfolding delete_expired_chunks delete_expired_pending_chunks
  chunk_if_unexpired c h = ground (
    arith,
    lookup-delete_expired_payloads chunk_pk (λ (c : Chunk). c.created_at)
        (λ (c : Chunk). c.ttl_seconds) now (f, i) db.chunks v.chunks,
  )

  served :
      (o : Option Chunk)
      → ((c : Chunk) → o ≡ some c → c.body ≡ p.body)
      → chunk_or_pending now o (some p) ≡ some p.body
  served none same = rw live
  served (some c) same = ap some (same c refl)

-- While a queued payload has not expired, a round of cleanup leaves it to be served: whatever
-- happens to the row of `chunks`, a chunk request still gets the same body. The database has unique
-- keys, and the row of `chunks`, if there is one, holds the queued body.
pub cleanup-get_chunk :
    (f : String) (i : ℤ) (now later : Time) (db : Db) (p : PendingChunk)
    → IsValid db
    → lookup pending_pk (f, i) db.pending_chunks ≡ some p
    → expired now p.created_at p.ttl_seconds ≡ false
    → ((c : Chunk) → lookup chunk_pk (f, i) db.chunks ≡ some c → c.body ≡ p.body)
    → get_chunk f i now (cleanup now later db) ≡ some p.body
unfolding cleanup get_chunk delete_expired_failed_chunks delete_chunks_with_message
cleanup-get_chunk f i now later db p v queued live same =
    let waiting = still_queued f i now db p v queued live in
    rw (lookup-delete_chunks_with_message f i (unexpired now db) {p = p} waiting, waiting)
      (served f i now db p v queued live (lookup chunk_pk (f, i) (unexpired now db).chunks)
        (λ c h. same c (chunk_if_unexpired f i now db p v queued live c h)))
