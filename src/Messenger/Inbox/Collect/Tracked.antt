-- ===== src/Messenger/Inbox/Collect/Tracked.antt =====
-- What a run of collectAndProcessMessage leaves of the payloads of its message, and of all others.
use huginn_messenger.Prelude.{
  ◌≡◌, refl, ◌∙◌, String, Bool, true, false, Option, none, some, List, [], ◌∷◌, All, Bool-cases,
  inl, inr, arith, any,
}
use huginn_messenger.Prelude.Int.{ℤ, ◌==ℤ◌}
use huginn_messenger.Store.Rows.{Bytes, Db}
use huginn_messenger.Store.Chunks.{delete_chunk}
use huginn_messenger.Store.Messages.{find_message_by_id}
use huginn_messenger.Store.Track.{store_failed_chunk, delete_failed_message, default_ttl}
use huginn_messenger.Messenger.Session.{
  Session, Env, db, with_db, ChunkRecord, try_process_msg, release_process_msg,
}
use huginn_messenger.Messenger.Session.Same.{Same, try_process_msg-Same}
use huginn_messenger.Messenger.Fetch.{get_chunk_data}
use huginn_messenger.Messenger.Fetch.Same.{get_chunk_data-Same}
use huginn_messenger.Messenger.Inbox.Collect.{
  track_records, is_wrong, check_fetched, fetch_record, mark_seen, gather, complete_envelopes,
  process_gathered, collect_new, collect_taken, if_taken, collect_and_process_message,
}
use huginn_messenger.Messenger.Inbox.Collect.Kept.{
  Kept, KeepsDb, Keeps, KeepsDb-trans, Same-Keeps, delete_failed-Keeps, store_failed-Keeps,
  store_failed-Kept, find_message-delete_failed, process_envelopes-Keeps,
}

-- All payloads of the records.
abbrev pub AllKept : String → List ChunkRecord → Db → Type 0
AllKept id records d = All (λ (r : ChunkRecord). Kept id r.chunk_index d) records

pub AllKept-KeepsDb :
    (id : String) (records : List ChunkRecord) (d d' : Db)
    → KeepsDb d d'
    → AllKept id records d
    → AllKept id records d'
AllKept-KeepsDb id [] d d' h k = tt
AllKept-KeepsDb id (r ∷ rs) d d' h k = (h.0 id r.chunk_index k.0, AllKept-KeepsDb id rs d d' h k.1)

found-AllKept :
    (id : String) (records : List ChunkRecord) (d : Db)
    → find_message_by_id id d ≡ true
    → AllKept id records d
unfolding Kept
found-AllKept id [] d h = tt
found-AllKept id (r ∷ rs) d h = (ground arith, found-AllKept id rs d h)

-- The records are not a file's, as far as the first tells.
abbrev pub FirstIsMessage : List ChunkRecord → Type 0
FirstIsMessage [] = Unit
FirstIsMessage (r ∷ rs) = r.persist ≡ false

module _ (env : Env) where
  pub track-Keeps :
      (msg_id : String) (records : List ChunkRecord) (s : Session)
      → Keeps s (track_records env msg_id records s)
  unfolding track_records
  track-Keeps msg_id [] s = (λ id i k. k, refl)
  track-Keeps msg_id (r ∷ rs) s =
      let d = store_failed_chunk msg_id r.chunk_index r.recipient_id r.ttl env.now (db s) in
      KeepsDb-trans (db s) d (db (track_records env msg_id rs (with_db d s)))
        (store_failed-Keeps msg_id r.chunk_index r.recipient_id r.ttl env.now (db s))
        (track-Keeps msg_id rs (with_db d s))

  track-AllKept :
      (msg_id : String) (records : List ChunkRecord) (s : Session)
      → AllKept msg_id records (db (track_records env msg_id records s))
  unfolding track_records
  track-AllKept msg_id [] s = tt
  track-AllKept msg_id (r ∷ rs) s =
      let d = store_failed_chunk msg_id r.chunk_index r.recipient_id r.ttl env.now (db s) in
      (
        (track-Keeps msg_id rs (with_db d s)).0 msg_id r.chunk_index
            (store_failed-Kept msg_id r.chunk_index r.recipient_id r.ttl env.now (db s)),
        track-AllKept msg_id rs (with_db d s),
      )

  delete_chunk-Keeps :
      (f : String) (i : ℤ) (s : Session) → Keeps s (with_db (delete_chunk f i (db s)) s)
  unfolding delete_chunk
  delete_chunk-Keeps f i s = Same-Keeps s (with_db (delete_chunk f i (db s)) s) (refl, refl, refl)

  check_fetched-Keeps :
      (rec : ChunkRecord) (s : Session) (got : Option Bytes × Session)
      → Same s got.1
      → Keeps s (check_fetched env rec got).1
  check_fetched-Keeps rec s (none, s') h =
      let d =
        store_failed_chunk rec.file_id rec.chunk_index rec.recipient_id (default_ttl rec.ttl)
          env.now (db s') in
      KeepsDb-trans (db s) (db s') d (Same-Keeps s s' h) (
        store_failed-Keeps rec.file_id rec.chunk_index rec.recipient_id (default_ttl rec.ttl)
          env.now (db s'))
  check_fetched-Keeps rec s (some body, s') h = elim (Bool-cases (is_wrong env rec body)) [
    | inl e ↦ rw e (
        KeepsDb-trans (db s) (db s') (delete_chunk rec.file_id rec.chunk_index (db s'))
          (Same-Keeps s s' h) (delete_chunk-Keeps rec.file_id rec.chunk_index s'))
    | inr e ↦ rw e (Same-Keeps s s' h)
  ]

  fetch_record-Keeps :
      (seen : List ℤ) (rec : ChunkRecord) (s : Session) → Keeps s (fetch_record env seen rec s).1
  unfolding fetch_record
  fetch_record-Keeps seen rec s = elim (Bool-cases (any (λ i. i ==ℤ rec.chunk_index) seen)) [
    | inl e ↦ rw e (λ id i k. k, refl)
    | inr e ↦
        rw e (check_fetched-Keeps rec s (get_chunk_data env rec s) (get_chunk_data-Same env rec s))
  ]

  pub gather-Keeps :
      (seen : List ℤ) (records : List ChunkRecord) (s : Session)
      → Keeps s (gather env seen records s).1
  unfolding gather
  gather-Keeps seen [] s = (λ id i k. k, refl)
  gather-Keeps seen (rec ∷ recs) s =
      let got = fetch_record env seen rec s in
      let seen' = mark_seen env rec got.0 seen in
      KeepsDb-trans (db s) (db got.1) (db (gather env seen' recs got.1).1)
        (fetch_record-Keeps seen rec s) (gather-Keeps seen' recs got.1)

  -- From the retry rows to the end.
  process-Keeps :
      (msg_id : String) (first : ChunkRecord) (records : List ChunkRecord) (s : Session)
      → first.persist ≡ false
      → Keeps s (process_gathered env msg_id first (gather env [] records s))
  process-Keeps msg_id first records s h =
      let got = gather env [] records s in
      KeepsDb-trans (db s) (db got.1) (db (process_gathered env msg_id first got))
        (gather-Keeps [] records s)
        (process_envelopes-Keeps env msg_id first h (complete_envelopes env got.0) got.1)

  collect_taken-Keeps :
      (msg_id : String) (first : ChunkRecord) (records : List ChunkRecord) (s : Session)
      → first.persist ≡ false
      → Keeps s (collect_taken env msg_id first records s)
        × AllKept msg_id records (db (collect_taken env msg_id first records s))
  unfolding collect_new
  collect_taken-Keeps msg_id first records s h =
      elim (Bool-cases (find_message_by_id msg_id (db s))) [
        | inl e ↦ rw e (
          delete_failed-Keeps msg_id (db s) e,
          found-AllKept msg_id records (delete_failed_message msg_id (db s))
              (find_message-delete_failed msg_id msg_id (db s) ∙ e),
        )
        | inr e ↦
            let s' = track_records env msg_id records s in
            let s'' = process_gathered env msg_id first (gather env [] records s') in
            rw e (
              KeepsDb-trans (db s) (db s') (db s'') (track-Keeps msg_id records s)
                  (process-Keeps msg_id first records s' h),
              AllKept-KeepsDb msg_id records (db s') (db s'')
                  (process-Keeps msg_id first records s' h) (track-AllKept msg_id records s),
            )
      ]

  -- A run keeps what is kept; if it tells that the message is tracked, its payloads are kept too.
  abbrev pub Tracked : String → List ChunkRecord → Session → Bool × Session → Type 0
  Tracked msg_id records s (tracked, s') =
      Keeps s s' × (tracked ≡ true → AllKept msg_id records (db s'))

  if_taken-Tracked :
      (msg_id : String) (first : ChunkRecord) (records : List ChunkRecord) (s : Session)
      (t : Bool × Session)
      → first.persist ≡ false
      → Same s t.1
      → Tracked msg_id records s (if_taken env msg_id first records t)
  unfolding release_process_msg
  if_taken-Tracked msg_id first records s (false, s') h k = (Same-Keeps s s' k, λ e. cc)
  if_taken-Tracked msg_id first records s (true, s') h k =
      let both = collect_taken-Keeps msg_id first records s' h in
      (
        KeepsDb-trans (db s) (db s') (db (collect_taken env msg_id first records s'))
            (Same-Keeps s s' k) both.0,
        λ e. both.1,
      )

  pub collect-Tracked :
      (msg_id : String) (records : List ChunkRecord) (s : Session)
      → FirstIsMessage records
      → Tracked msg_id records s (collect_and_process_message env msg_id records s)
  unfolding collect_and_process_message
  collect-Tracked msg_id [] s h = ((λ id i k. k, refl), λ e. cc)
  collect-Tracked msg_id (first ∷ rest) s h =
      if_taken-Tracked msg_id first (first ∷ rest) s (try_process_msg msg_id s) h
        (try_process_msg-Same msg_id s)
