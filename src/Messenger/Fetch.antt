-- ===== src/Messenger/Fetch.antt =====
-- getChunkData, requestMissingChunk and requestMissingChunkFromPeer of
-- internal/messenger/chunks.go. Their context is not cancelled.
pub mod Same
use huginn_messenger.Prelude.{
  String, Bool, true, false, not, ◌&&◌, Option, none, some, List, [], ◌∷◌, str_eq, if◌then◌else◌,
}
use huginn_messenger.Prelude.Int.{ℤ, pos, ◌==ℤ◌}
use huginn_messenger.Store.Rows.{Bytes}
use huginn_messenger.Store.Chunks.{get_chunk}
use huginn_messenger.Messenger.Peers.{Peer}
use huginn_messenger.Messenger.Session.{
  ChunkRecord, Effect, send_chunk_get, connect_peer, wait_and_get, connect_later, Session, Env, db,
  emit, find_sender,
}

module _ (env : Env) where
  abbrev pub ask_for_chunk : ChunkRecord → Session → Session
  ask_for_chunk rec s =
      if str_eq rec.peer_id env.own_id
      then s
      else if env.is_connected rec.peer_id
      then emit (send_chunk_get rec.peer_id rec.file_id rec.chunk_index) s
      else emit (wait_and_get rec.peer_id rec.file_id rec.chunk_index)
          (emit (connect_peer rec.peer_id) s)

  -- The payload, if it is in the store; else it is asked for.
  abbrev pub stored_or_ask : ChunkRecord → Session → Option Bytes → Option Bytes × Session
  stored_or_ask rec s (some body) = (some body, s)
  stored_or_ask rec s none = (none, ask_for_chunk rec s)

  unfoldable pub get_chunk_data : ChunkRecord → Session → Option Bytes × Session
  get_chunk_data rec s = stored_or_ask rec s (get_chunk rec.file_id rec.chunk_index env.now (db s))

  abbrev pub ask_peer : String → ℤ → String → String → Session → Session
  ask_peer file_id chunk_index sender_id pid s =
      if env.is_connected pid
      then emit (send_chunk_get pid file_id chunk_index) s
      else if str_eq pid sender_id
      then emit (connect_later pid none) s
      else s

  unfoldable pub ask_peers : String → ℤ → String → List String → Session → Session
  ask_peers file_id chunk_index sender_id [] s = s
  ask_peers file_id chunk_index sender_id (pid ∷ pids) s =
      ask_peers file_id chunk_index sender_id pids (ask_peer file_id chunk_index sender_id pid s)

  abbrev pub ask_known : String → ℤ → String → Option Peer × Session → Session
  ask_known file_id chunk_index sender_id (none, s) = s
  ask_known file_id chunk_index sender_id (some p, s) =
      ask_peers file_id chunk_index sender_id p.ids s

  unfoldable pub request_missing_chunk : String → ℤ → String → Session → Session
  request_missing_chunk file_id chunk_index sender_id s =
      ask_known file_id chunk_index sender_id (find_sender env sender_id s)

  abbrev pub ask_preferred : String → ℤ → String → Session → Session
  ask_preferred file_id chunk_index preferred s =
      if str_eq preferred ""
      then s
      else if env.is_connected preferred
      then emit (send_chunk_get preferred file_id chunk_index) s
      else if chunk_index ==ℤ pos 0
      then emit (connect_later preferred (some (file_id, chunk_index))) s
      else s

  abbrev pub has_body : Option Bytes → Bool
  has_body none = false
  has_body (some b) = true

  -- The records of the index, until one is in the store.
  unfoldable pub fetch_first : ℤ → List ChunkRecord → Session → Session
  fetch_first chunk_index [] s = s
  fetch_first chunk_index (rec ∷ recs) s =
      let got = get_chunk_data rec s in
      let rest =
        fetch_first chunk_index recs (if rec.chunk_index ==ℤ chunk_index then got.1 else s) in
      if rec.chunk_index ==ℤ chunk_index && has_body got.0 then got.1 else rest

  abbrev pub fetch_records : ℤ → Option (List ChunkRecord) → Session → Session
  fetch_records chunk_index none s = s
  fetch_records chunk_index (some recs) s = fetch_first chunk_index recs s

  unfoldable pub request_missing_chunk_from_peer : String → ℤ → String → String → Session → Session
  request_missing_chunk_from_peer file_id chunk_index sender_id preferred s =
      fetch_records chunk_index (env.chunks_by_file_id file_id) (
        request_missing_chunk file_id chunk_index sender_id
          (ask_preferred file_id chunk_index preferred s))
