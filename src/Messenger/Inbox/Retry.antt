-- ===== src/Messenger/Inbox/Retry.antt =====
-- What the retries of checkRecipientMessages may drop: rows that have expired, and no others.
use huginn_messenger.Prelude.{
  ◌≡◌, refl, subst, Bool-cases, inl, inr, eq_iff, String, Bool, true, false, ◌||◌, ◌&&◌, Option,
  none, some, List, [], ◌∷◌, if◌then◌else◌, arith, any, str_eq, select,
}
use huginn_messenger.Prelude.Int.{ℤ}
use huginn_messenger.Store.Sql.{delete}
use huginn_messenger.Store.Sql.Laws.{has-eq-lookup, lookup-delete}
use huginn_messenger.Store.Rows.{FailedChunk, failed_pk, chunk_key_eqb, Db}
use huginn_messenger.Store.Messages.{find_message_by_id}
use huginn_messenger.Store.Track.{is_chunk_failed, delete_failed_chunk, list_failed_chunks}
use huginn_messenger.Messenger.Session.{Session, Env, db, with_db, ChunkRecord, member}
use huginn_messenger.Messenger.Inbox.{retry_records, has_expired, retry_each, retry_failed_chunks}
use huginn_messenger.Messenger.Inbox.Collect.Kept.{Kept}
use huginn_messenger.Messenger.Inbox.Collect.Others.{collect-Others}
use huginn_messenger.Messenger.Inbox.Collect.Tracked.{FirstIsMessage, collect-Tracked}

delete_other-Kept :
    (f id : String) (j i : ℤ) (d : Db)
    → chunk_key_eqb (f, j) (id, i) ≡ false
    → Kept id i d
    → Kept id i (delete_failed_chunk f j d)
unfolding Kept delete_failed_chunk is_chunk_failed find_message_by_id
delete_other-Kept f id j i d h k = ground (
  arith,
  has-eq-lookup failed_pk (id, i) d.failed_chunks,
  has-eq-lookup failed_pk (id, i) (delete failed_pk (f, j) d.failed_chunks),
  lookup-delete failed_pk (f, j) (id, i) d.failed_chunks,
)

module _ (env : Env) where
  -- A row of the payload that has expired.
  abbrev pub is_over : String → ℤ → FailedChunk → Bool
  is_over id i fc = chunk_key_eqb (fc.file_id, fc.chunk_index) (id, i) && has_expired env fc

any-select :
    {R : Type 0} (p q : R → Bool) (t : List R) → any q t ≡ false → any q (select p t) ≡ false
any-select p q [] h = refl
any-select p q (r ∷ t) h = ground (arith, any-select p q t)

-- For one payload, whose message the directory does not take for a file.
module _ (env : Env) (id : String) (i : ℤ)
    (answer : (records : List ChunkRecord)
      → env.chunks_by_file_id id ≡ some records
      → FirstIsMessage records) where
  retry_records-Kept :
      (f : String) (s : Session)
      → Kept id i (db s)
      → (o : Option (List ChunkRecord)) → env.chunks_by_file_id f ≡ o
      → Kept id i (db (retry_records env f o s))
  retry_records-Kept f s k none e = k
  retry_records-Kept f s k (some records) e = elim (Bool-cases (str_eq f id)) [
    | inl same ↦
        let own : env.chunks_by_file_id id ≡ some records =
          subst (λ x. env.chunks_by_file_id x ≡ some records) ((eq_iff f id).0 same) e in
        (collect-Tracked env f records s (answer records own)).0.0 id i k
    | inr other ↦ collect-Others env f id i other records s k
  ]

  retry_each-Kept :
      (seen : List String) (fcs : List FailedChunk) (s : Session)
      → any (is_over env id i) fcs ≡ false
      → Kept id i (db s)
      → Kept id i (db (retry_each env seen fcs s))
  unfolding retry_each
  retry_each-Kept seen [] s h k = k
  retry_each-Kept seen (fc ∷ fcs) s h k =
      retry_each-Kept
        (if has_expired env fc || member fc.file_id seen then seen else fc.file_id ∷ seen) fcs
        (if has_expired env fc
          then with_db (delete_failed_chunk fc.file_id fc.chunk_index (db s)) s
          else if member fc.file_id seen
          then s
          else retry_records env fc.file_id (env.chunks_by_file_id fc.file_id) s)
        (ground (arith, h)) (by_tests (has_expired env fc) refl (member fc.file_id seen))
    where
      by_tests :
          (a : Bool)
          → has_expired env fc ≡ a
          → (b : Bool)
          → Kept id i (
              db (
                if a
                then with_db (delete_failed_chunk fc.file_id fc.chunk_index (db s)) s
                else if b
                then s
                else retry_records env fc.file_id (env.chunks_by_file_id fc.file_id) s))
      by_tests true e b =
          delete_other-Kept fc.file_id id fc.chunk_index i (db s) (ground (arith, h, e)) k
      by_tests false e true = k
      by_tests false e false =
          retry_records-Kept fc.file_id s k (env.chunks_by_file_id fc.file_id) refl

-- A payload that is in the history, or waits for a retry and has no row that has expired, still is
-- or does after the retries, whatever else is retried with it. (What the directory answers for its
-- message, if it does, is not a file's record first.)
pub retry_failed_chunks-Kept :
    (env : Env) (recipient id : String) (i : ℤ) (s : Session)
    (answer : (records : List ChunkRecord)
      → env.chunks_by_file_id id ≡ some records
      → FirstIsMessage records)
    → any (is_over env id i) (db s).failed_chunks ≡ false
    → Kept id i (db s)
    → Kept id i (db (retry_failed_chunks env recipient s))
unfolding retry_failed_chunks list_failed_chunks
retry_failed_chunks-Kept env recipient id i s answer h k =
    retry_each-Kept env id i answer [] (list_failed_chunks recipient (db s)) s
      (any-select (λ c. str_eq c.recipient_id recipient) (is_over env id i) (db s).failed_chunks h)
      k
