-- ===== src/Messenger/Inbox/Collect.antt =====
-- collectAndProcessMessage of internal/messenger/messages.go and checkInviteText of
-- internal/messenger/groups.go.
pub mod Deliver
pub mod Kept
pub mod Tracked
pub mod Others
use huginn_messenger.Prelude.{
  ℕ, String, Bool, true, false, not, ◌&&◌, Option, none, some, List, [], ◌∷◌, str_eq, if◌then◌else◌,
  length, any, ◌==◌,
}
use huginn_messenger.Prelude.Int.{ℤ, pos, leb_ℤ, ◌==ℤ◌}
use huginn_messenger.Chunk.{Envelope, registered_hash}
use huginn_messenger.Store.Rows.{Bytes}
use huginn_messenger.Store.Chunks.{delete_chunk}
use huginn_messenger.Store.Messages.{find_message_by_id}
use huginn_messenger.Store.Track.{store_failed_chunk, delete_failed_message, default_ttl}
use huginn_messenger.Messenger.Session.{
  ChunkRecord, Session, Env, db, with_db, try_process_msg, release_process_msg, find_sender,
}
use huginn_messenger.Messenger.Fetch.{get_chunk_data}
use huginn_messenger.Messenger.Inbox.Collect.Deliver.{process_envelopes}

module _ (env : Env) where
  -- The retry rows that are written before anything else.
  unfoldable pub track_records : String → List ChunkRecord → Session → Session
  track_records msg_id [] s = s
  track_records msg_id (r ∷ rs) s =
      track_records msg_id rs
        (with_db (store_failed_chunk msg_id r.chunk_index r.recipient_id r.ttl env.now (db s)) s)

  abbrev pub is_wrong : ChunkRecord → Bytes → Bool
  is_wrong rec body =
      not (str_eq rec.hash "") && not (str_eq (registered_hash env.prim body) rec.hash)

  abbrev pub check_fetched : ChunkRecord → Option Bytes × Session → Option Bytes × Session
  check_fetched rec (none, s) = (
    none,
    with_db
        (store_failed_chunk rec.file_id rec.chunk_index rec.recipient_id (default_ttl rec.ttl)
          env.now (db s))
        s,
  )
  check_fetched rec (some body, s) =
      if is_wrong rec body
      then (none, with_db (delete_chunk rec.file_id rec.chunk_index (db s)) s)
      else (some body, s)

  -- One round of the loop over the records, which skips the indices that it has seen.
  unfoldable pub fetch_record : List ℤ → ChunkRecord → Session → Option Bytes × Session
  fetch_record seen rec s =
      if any (λ i. i ==ℤ rec.chunk_index) seen
      then (none, s)
      else check_fetched rec (get_chunk_data env rec s)

  abbrev pub mark_seen : ChunkRecord → Option Bytes → List ℤ → List ℤ
  mark_seen rec none seen = seen
  mark_seen rec (some body) seen = rec.chunk_index ∷ seen

  abbrev pub keep : Option Bytes → List Bytes → List Bytes
  keep none bodies = bodies
  keep (some body) bodies = body ∷ bodies

  -- chunkData
  unfoldable pub gather : List ℤ → List ChunkRecord → Session → List Bytes × Session
  gather seen [] s = ([], s)
  gather seen (rec ∷ recs) s =
      let got = fetch_record seen rec s in
      let rest = gather (mark_seen rec got.0 seen) recs got.1 in (keep got.0 rest.0, rest.1)

  abbrev pub keep_envelope : Option Envelope → List Envelope → List Envelope
  keep_envelope none envelopes = envelopes
  keep_envelope (some e) envelopes = e ∷ envelopes

  unfoldable pub unmarshal_all : List Bytes → List Envelope
  unmarshal_all [] = []
  unmarshal_all (body ∷ bodies) = keep_envelope (env.unmarshal_envelope body) (unmarshal_all bodies)

  abbrev pub if_enough : List Envelope → Option (List Envelope)
  if_enough [] = none
  if_enough (e ∷ es) = if leb_ℤ e.total_chunks (pos (length (e ∷ es))) then some (e ∷ es) else none

  -- The envelopes, if every payload is one and there are as many as the first says.
  unfoldable pub complete_envelopes : List Bytes → Option (List Envelope)
  complete_envelopes bodies =
      let envelopes = unmarshal_all bodies in
      if length envelopes == length bodies then if_enough envelopes else none

  abbrev pub process_gathered : String → ChunkRecord → List Bytes × Session → Session
  process_gathered msg_id first (bodies, s) =
      process_envelopes env msg_id first (complete_envelopes bodies) s

  unfoldable pub collect_new : String → ChunkRecord → List ChunkRecord → Session → Session
  collect_new msg_id first records s =
      process_gathered msg_id first (gather [] records (track_records msg_id records s))

  abbrev pub collect_taken : String → ChunkRecord → List ChunkRecord → Session → Session
  collect_taken msg_id first records s =
      if find_message_by_id msg_id (db s)
      then with_db (delete_failed_message msg_id (db s)) s
      else collect_new msg_id first records s

  abbrev pub if_taken : String → ChunkRecord → List ChunkRecord → Bool × Session → Bool × Session
  if_taken msg_id first records (false, s) = (false, s)
  if_taken msg_id first records (true, s) =
      (true, release_process_msg msg_id (collect_taken msg_id first records s))

  -- Whether the message is there or tracked by retry rows, and the session.
  unfoldable pub collect_and_process_message : String → List ChunkRecord → Session → Bool × Session
  collect_and_process_message msg_id [] s = (false, s)
  collect_and_process_message msg_id (first ∷ rest) s =
      if_taken msg_id first (first ∷ rest) (try_process_msg msg_id s)
