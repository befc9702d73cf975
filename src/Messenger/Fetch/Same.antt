-- ===== src/Messenger/Fetch/Same.antt =====
-- Asking for chunks changes neither the messages, nor the retry rows, nor the cursors.
use huginn_messenger.Prelude.{
  refl, String, Bool, true, false, ◌&&◌, Option, none, some, List, [], ◌∷◌, if◌then◌else◌, str_eq,
}
use huginn_messenger.Prelude.Int.{ℤ, pos, ◌==ℤ◌}
use huginn_messenger.Store.Rows.{Bytes}
use huginn_messenger.Store.Chunks.{get_chunk}
use huginn_messenger.Messenger.Peers.{Peer}
use huginn_messenger.Messenger.Session.{
  ChunkRecord, Session, Env, db, find_sender, emit, send_chunk_get, connect_later, wait_and_get,
  connect_peer,
}
use huginn_messenger.Messenger.Session.Same.{Same, Same-trans, Same-if, find_sender-Same}
use huginn_messenger.Messenger.Fetch.{
  ask_for_chunk, stored_or_ask, get_chunk_data, ask_peer, ask_peers, ask_known,
  request_missing_chunk, ask_preferred, fetch_first, fetch_records, has_body,
  request_missing_chunk_from_peer,
}

module _ (env : Env) where
  ask_for_chunk-Same : (rec : ChunkRecord) (s : Session) → Same s (ask_for_chunk env rec s)
  ask_for_chunk-Same rec s = by_tests (str_eq rec.peer_id env.own_id) (env.is_connected rec.peer_id)
    where
      by_tests :
          (a b : Bool)
          → Same s (
              if a
              then s
              else if b
              then emit (send_chunk_get rec.peer_id rec.file_id rec.chunk_index) s
              else emit
                  (wait_and_get rec.peer_id rec.file_id rec.chunk_index)
                  (emit (connect_peer rec.peer_id) s))
      by_tests true b = (refl, refl, refl)
      by_tests false true = (refl, refl, refl)
      by_tests false false = (refl, refl, refl)

  pub get_chunk_data-Same : (rec : ChunkRecord) (s : Session) → Same s (get_chunk_data env rec s).1
  unfolding get_chunk_data
  get_chunk_data-Same rec s = by_body (get_chunk rec.file_id rec.chunk_index env.now (db s))
    where
      by_body : (o : Option Bytes) → Same s (stored_or_ask env rec s o).1
      by_body none = ask_for_chunk-Same rec s
      by_body (some b) = (refl, refl, refl)

  ask_peer-Same :
      (file_id : String) (i : ℤ) (sender pid : String) (s : Session)
      → Same s (ask_peer env file_id i sender pid s)
  ask_peer-Same file_id i sender pid s = by_tests (env.is_connected pid) (str_eq pid sender)
    where
      by_tests :
          (a b : Bool)
          → Same s (
              if a
              then emit (send_chunk_get pid file_id i) s
              else if b
              then emit (connect_later pid none) s
              else s)
      by_tests true b = (refl, refl, refl)
      by_tests false true = (refl, refl, refl)
      by_tests false false = (refl, refl, refl)

  ask_peers-Same :
      (file_id : String) (i : ℤ) (sender : String) (pids : List String) (s : Session)
      → Same s (ask_peers env file_id i sender pids s)
  unfolding ask_peers
  ask_peers-Same file_id i sender [] s = (refl, refl, refl)
  ask_peers-Same file_id i sender (pid ∷ pids) s =
      let s' = ask_peer env file_id i sender pid s in
      Same-trans s s' (ask_peers env file_id i sender pids s')
        (ask_peer-Same file_id i sender pid s) (ask_peers-Same file_id i sender pids s')

  ask_known-Same :
      (file_id : String) (i : ℤ) (sender : String) (s : Session) (found : Option Peer × Session)
      → Same s found.1
      → Same s (ask_known env file_id i sender found)
  ask_known-Same file_id i sender s (none, s') h = h
  ask_known-Same file_id i sender s (some p, s') h =
      Same-trans s s' (ask_peers env file_id i sender p.ids s') h
        (ask_peers-Same file_id i sender p.ids s')

  ask_preferred-Same :
      (file_id : String) (i : ℤ) (preferred : String) (s : Session)
      → Same s (ask_preferred env file_id i preferred s)
  ask_preferred-Same file_id i preferred s =
      by_tests (str_eq preferred "") (env.is_connected preferred) (i ==ℤ pos 0)
    where
      by_tests :
          (a b c : Bool)
          → Same s (
              if a
              then s
              else if b
              then emit (send_chunk_get preferred file_id i) s
              else if c
              then emit (connect_later preferred (some (file_id, i))) s
              else s)
      by_tests true b c = (refl, refl, refl)
      by_tests false true c = (refl, refl, refl)
      by_tests false false true = (refl, refl, refl)
      by_tests false false false = (refl, refl, refl)

  fetch_first-Same :
      (i : ℤ) (recs : List ChunkRecord) (s : Session) → Same s (fetch_first env i recs s)
  unfolding fetch_first
  fetch_first-Same i [] s = (refl, refl, refl)
  fetch_first-Same i (rec ∷ recs) s =
      let got = get_chunk_data env rec s in
      let s' = if rec.chunk_index ==ℤ i then got.1 else s in
      Same-if (rec.chunk_index ==ℤ i && has_body env got.0) s got.1 (fetch_first env i recs s')
        (get_chunk_data-Same rec s)
        (Same-trans s s' (fetch_first env i recs s')
          (Same-if (rec.chunk_index ==ℤ i) s got.1 s (get_chunk_data-Same rec s) (refl, refl, refl))
          (fetch_first-Same i recs s'))

  fetch_records-Same :
      (i : ℤ) (records : Option (List ChunkRecord)) (s : Session)
      → Same s (fetch_records env i records s)
  fetch_records-Same i none s = (refl, refl, refl)
  fetch_records-Same i (some recs) s = fetch_first-Same i recs s

  pub request_missing_chunk_from_peer-Same :
      (file_id : String) (i : ℤ) (sender preferred : String) (s : Session)
      → Same s (request_missing_chunk_from_peer env file_id i sender preferred s)
  unfolding request_missing_chunk_from_peer request_missing_chunk
  request_missing_chunk_from_peer-Same file_id i sender preferred s =
      let a = ask_preferred env file_id i preferred s in
      let b = request_missing_chunk env file_id i sender a in
      Same-trans s a (fetch_records env i (env.chunks_by_file_id file_id) b)
        (ask_preferred-Same file_id i preferred s)
        (Same-trans a b (fetch_records env i (env.chunks_by_file_id file_id) b)
          (ask_known-Same file_id i sender a (find_sender env sender a)
            (find_sender-Same env sender a))
          (fetch_records-Same i (env.chunks_by_file_id file_id) b))
