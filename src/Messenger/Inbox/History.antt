-- ===== src/Messenger/Inbox/History.antt =====
-- What leaves the history as it is: the retry rows and the gathering of payloads.
use huginn_messenger.Prelude.{
  ℕ, ◌≡◌, refl, ◌∙◌, String, Option, none, some, List, [], ◌∷◌, Bool-cases, inl, inr, any,
}
use huginn_messenger.Prelude.Int.{ℤ, ◌==ℤ◌}
use huginn_messenger.Store.Rows.{Bytes, Db}
use huginn_messenger.Store.Chunks.{delete_chunk}
use huginn_messenger.Store.Messages.{find_message_by_id}
use huginn_messenger.Store.Track.{store_failed_chunk, default_ttl}
use huginn_messenger.Messenger.Session.{Session, Env, db, with_db, ChunkRecord}
use huginn_messenger.Messenger.Session.Same.{Same}
use huginn_messenger.Messenger.Fetch.{get_chunk_data}
use huginn_messenger.Messenger.Fetch.Same.{get_chunk_data-Same}
use huginn_messenger.Messenger.Inbox.Collect.{
  track_records, is_wrong, check_fetched, fetch_record, mark_seen, gather,
}

-- The history is the same.
abbrev pub SameHistory : Db → Db → Type 0
SameHistory d d' = (id : String) → find_message_by_id id d' ≡ find_message_by_id id d

pub same_messages : (d d' : Db) → d'.messages ≡ d.messages → SameHistory d d'
unfolding find_message_by_id
same_messages d d' h id = rw h refl

pub trans : (a b c : Db) → SameHistory a b → SameHistory b c → SameHistory a c
trans a b c h k id = k id ∙ h id

store_failed-SameHistory :
    (f : String) (j : ℤ) (recipient : String) (ttl : ℤ) (now : ℕ) (d : Db)
    → SameHistory d (store_failed_chunk f j recipient ttl now d)
unfolding find_message_by_id store_failed_chunk
store_failed-SameHistory f j recipient ttl now d id = refl

module _ (env : Env) where
  pub track-SameHistory :
      (msg_id : String) (records : List ChunkRecord) (s : Session)
      → SameHistory (db s) (db (track_records env msg_id records s))
  unfolding track_records
  track-SameHistory msg_id [] s = λ id. refl
  track-SameHistory msg_id (r ∷ rs) s =
      let d = store_failed_chunk msg_id r.chunk_index r.recipient_id r.ttl env.now (db s) in
      trans (db s) d (db (track_records env msg_id rs (with_db d s)))
        (store_failed-SameHistory msg_id r.chunk_index r.recipient_id r.ttl env.now (db s))
        (track-SameHistory msg_id rs (with_db d s))

  check_fetched-SameHistory :
      (rec : ChunkRecord) (s : Session) (got : Option Bytes × Session)
      → Same s got.1
      → SameHistory (db s) (db (check_fetched env rec got).1)
  unfolding delete_chunk
  check_fetched-SameHistory rec s (none, s') h =
      trans (db s) (db s') (db (check_fetched env rec (none, s')).1)
        (same_messages (db s) (db s') h.0)
        (store_failed-SameHistory rec.file_id rec.chunk_index rec.recipient_id (default_ttl rec.ttl)
          env.now (db s'))
  check_fetched-SameHistory rec s (some body, s') h = elim (Bool-cases (is_wrong env rec body)) [
    | inl e ↦ rw e (same_messages (db s) (delete_chunk rec.file_id rec.chunk_index (db s')) h.0)
    | inr e ↦ rw e (same_messages (db s) (db s') h.0)
  ]

  fetch_record-SameHistory :
      (seen : List ℤ) (rec : ChunkRecord) (s : Session)
      → SameHistory (db s) (db (fetch_record env seen rec s).1)
  unfolding fetch_record
  fetch_record-SameHistory seen rec s = elim (Bool-cases (any (λ i. i ==ℤ rec.chunk_index) seen)) [
    | inl e ↦ rw e (λ id. refl)
    | inr e ↦
        rw e (
          check_fetched-SameHistory rec s (get_chunk_data env rec s)
            (get_chunk_data-Same env rec s))
  ]

  pub gather-SameHistory :
      (seen : List ℤ) (records : List ChunkRecord) (s : Session)
      → SameHistory (db s) (db (gather env seen records s).1)
  unfolding gather
  gather-SameHistory seen [] s = λ id. refl
  gather-SameHistory seen (rec ∷ recs) s =
      let got = fetch_record env seen rec s in
      let seen' = mark_seen env rec got.0 seen in
      trans (db s) (db got.1) (db (gather env seen' recs got.1).1)
        (fetch_record-SameHistory seen rec s) (gather-SameHistory seen' recs got.1)
