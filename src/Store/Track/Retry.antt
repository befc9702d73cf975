-- ===== src/Store/Track/Retry.antt =====
-- Which retry rows there are after each statement.
use huginn_messenger.Prelude.{
  ◌≡◌, String, not, ◌&&◌, ◌||◌, List, [], ◌∷◌, arith, str_eq, eq_iff, reject,
}
use huginn_messenger.Prelude.Int.{ℤ, ◌==ℤ◌}
use huginn_messenger.Store.Sql.{has}
use huginn_messenger.Store.Sql.Laws.{has-insert_or_ignore}
use huginn_messenger.Store.Clock.{Time, unix}
use huginn_messenger.Store.Rows.{FailedChunk, failed_pk, Db}
use huginn_messenger.Store.Track.{
  store_failed_chunk, is_chunk_failed, delete_failed_message, default_ttl,
}

pub is_failed-store_failed :
    (f g : String) (i j : ℤ) (recipient : String) (ttl : ℤ) (now : Time) (d : Db)
    → is_chunk_failed f i (store_failed_chunk g j recipient ttl now d)
      ≡ (is_chunk_failed f i d || (str_eq g f && j ==ℤ i))
unfolding is_chunk_failed store_failed_chunk
is_failed-store_failed f g i j recipient ttl now d =
    has-insert_or_ignore failed_pk
      (record {
        file_id = g;
        chunk_index = j;
        recipient_id = recipient;
        created_at = unix now;
        ttl_seconds = default_ttl ttl;
      })
      (f, i) d.failed_chunks

has-delete_message :
    (f g : String) (i : ℤ) (t : List FailedChunk)
    → has failed_pk (f, i) (reject (λ c. str_eq c.file_id g) t)
      ≡ (not (str_eq g f) && has failed_pk (f, i) t)
unfolding has
has-delete_message f g i [] = ground arith
has-delete_message f g i (c ∷ t) =
    ground (arith, has-delete_message f g i t, eq_iff c.file_id g, eq_iff c.file_id f, eq_iff g f)

pub is_failed-delete_message :
    (f g : String) (i : ℤ) (d : Db)
    → is_chunk_failed f i (delete_failed_message g d) ≡ (not (str_eq g f) && is_chunk_failed f i d)
unfolding is_chunk_failed delete_failed_message
is_failed-delete_message f g i d = has-delete_message f g i d.failed_chunks
