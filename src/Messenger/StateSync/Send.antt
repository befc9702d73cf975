-- ===== src/Messenger/StateSync/Send.antt =====
-- The sending side of internal/messenger/state_replication.go: who may synchronise, and what is
-- sent to it.
pub mod Parts
pub mod Arrives
pub mod CatchUp
use huginn_messenger.Prelude.{
  ℕ, zero, suc, ◌+◌, ◌-◌, ◌*◌, ◌/◌, String, Bool, true, false, not, ◌||◌, Option, none, some, List,
  [], ◌∷◌, ◌++◌, map, str_eq, ltb, ◌==◌, if◌then◌else◌, length, take, drop, min,
}
use huginn_messenger.Prelude.Int.{ℤ, pos, le_zero}
use huginn_messenger.Prelude.Result.{Result, ok, err, ◌>>=◌, of_option}
use huginn_messenger.Store.Sql.{Error}
use huginn_messenger.Store.Clock.{Time, unix_micro}
use huginn_messenger.Store.Rows.{Bytes}
use huginn_messenger.Store.Sync.{
  ReplicatedMessage, MessageReplicationDelta, get_last_state_check, export_messages_for_state_sync,
}
use huginn_messenger.Chunk.{wrap}
use huginn_messenger.Messenger.Peers.{Peer, Directory, key, is_fresh}
use huginn_messenger.Messenger.Session.{FileMeta, ChatMessage}
use huginn_messenger.Messenger.Inbox.Collect.Deliver.{without_local_file_paths}
use huginn_messenger.Messenger.StateSync.{
  OutgoingTransfer, StateSyncManifest, StateSyncChunk, SyncState, assign, state_sync_version,
  state_sync_max_chunk_count, relogin_chunk_size, drop_outgoing,
}

-- What goes to a peer.
pub data Frame : Type 0 where
  request : String → Frame
  manifest : String → StateSyncManifest → Frame
  part : String → StateSyncChunk → Frame

-- What the sender reads: its keys, the directory, the codecs (encoding/json and gzip encode every
-- value), the clock, a new id, and which of its sends succeed (for a chunk, the wait for capacity and
-- the send).
pub record Sender : Type 0 where
  pub own_id : String
  pub own_key : String
  pub directory : Directory
  pub unmarshal_message : Bytes → Option ChatMessage
  pub marshal_message : ChatMessage → Bytes
  pub marshal_delta : MessageReplicationDelta → Bytes
  pub gzip : Bytes → Bytes
  pub hex_sum256 : Bytes → String
  pub now : Time
  pub transfer_id : String
  pub request_sent : Bool
  pub manifest_sent : Bool
  pub chunk_sent : ℕ → Bool

-- part of reloginChunkSize bytes, the last one shorter
abbrev pub slice : Bytes → ℕ → Bytes
slice compressed index =
    let start = index * relogin_chunk_size in
    let end = min (start + relogin_chunk_size) (length compressed) in
    take (end - start) (drop start compressed)

abbrev pub slice_count : Bytes → ℕ
slice_count compressed = (length compressed + relogin_chunk_size - 1) / relogin_chunk_size

pub data SendError : Type 0 where
  store_failed : Error → SendError
  undecodable_message : SendError
  invalid_chunk_count : SendError

-- A delta that is ready to go.
pub record Package : Type 0 where
  pub delta : MessageReplicationDelta
  pub checkpoint : ℕ
  pub compressed : Bytes

module _ (env : Sender) where
  open env use {own_id, own_key, directory, now}

  abbrev pub is_replica : String → Peer → Bool
  is_replica peer p = not (
      not (str_eq p.id peer)
      || (p.is_fake
          || (not (str_eq (key p) own_key) || (le_zero p.ttl_seconds || not (is_fresh now p)))))

  abbrev pub by_directory : String → (String → Bool) → Option Peer → Bool × (String → Bool)
  by_directory peer replica_peers none = (false, replica_peers)
  by_directory peer replica_peers (some p) =
      if is_replica peer p then (true, assign peer true replica_peers) else (false, replica_peers)

  -- The answer, and the map of the replicas that are known.
  unfoldable pub is_authorized_replica_peer : String → (String → Bool) → Bool × (String → Bool)
  is_authorized_replica_peer peer replica_peers =
      if str_eq peer "" || str_eq peer own_id
      then (false, replica_peers)
      else if replica_peers peer
      then (true, replica_peers)
      else by_directory peer replica_peers (directory.get peer)

  -- The peer is authorised.
  unfoldable pub request_state_sync : String → SyncState → SyncState × List Frame
  request_state_sync peer s =
      if s.requested peer
      then (s, [])
      else if env.request_sent
      then (record s { requested = assign peer true s.requested }, request peer ∷ [])
      else (record s { requested = assign peer false s.requested }, [])

  -- `connected` is what the connection manager tells.
  unfoldable pub handle_peer_disconnected : Bool → String → SyncState → SyncState
  handle_peer_disconnected connected peer s = if connected then s else record s {
    requested = assign peer false s.requested;
    incoming = assign peer none s.incoming;
    outgoing = assign peer none s.outgoing;
  }

  abbrev pub from_here : FileMeta → FileMeta
  from_here f = record f { source_peer_id = own_id }

  abbrev pub sanitize_message : ReplicatedMessage → ChatMessage → ReplicatedMessage
  sanitize_message r m = record r {
    body =
        env.marshal_message (record m { files = map from_here (without_local_file_paths m.files) });
  }

  unfoldable pub sanitize_state_sync_messages :
      List ReplicatedMessage → Result SendError (List ReplicatedMessage)
  sanitize_state_sync_messages [] = ok []
  sanitize_state_sync_messages (r ∷ rs) = do
    m ← of_option undecodable_message (env.unmarshal_message r.body)
    rest ← sanitize_state_sync_messages rs
    ok (sanitize_message r m ∷ rest)

  -- sendStateSync up to the encoded delta.
  unfoldable pub pack : String → SyncState → Result SendError Package
  pack peer s = do
    since ← wrap store_failed (get_last_state_check peer s.db)
    exported ← wrap store_failed (export_messages_for_state_sync since (some (unix_micro now)) s.db)
    messages ← sanitize_state_sync_messages exported.1
    let delta : MessageReplicationDelta = record {
      version = state_sync_version;
      checkpoint = pos exported.0;
      messages = messages;
    }
    ok (record {
      delta = delta;
      checkpoint = exported.0;
      compressed = env.gzip (env.marshal_delta delta);
    })

  abbrev pub manifest_of : Package → StateSyncManifest
  manifest_of p = record {
    transfer_id = env.transfer_id;
    checkpoint = pos p.checkpoint;
    chunk_count = pos (slice_count p.compressed);
    sha256 = env.hex_sum256 p.compressed;
    error = "";
  }

  abbrev pub chunk_of : Bytes → ℕ → StateSyncChunk
  chunk_of compressed index = record {
    transfer_id = env.transfer_id;
    index = pos index;
    body = slice compressed index;
  }

  -- A frame, and the sends after it; a send that fails is the last.
  abbrev pub send_first : Bool → Frame → Bool × List Frame → Bool × List Frame
  send_first true frame rest = (rest.0, frame ∷ rest.1)
  send_first false frame rest = (false, [])

  -- The rounds from i on, with as many left as the third argument.
  unfoldable pub send_chunks : String → Bytes → ℕ → ℕ → Bool × List Frame
  send_chunks peer compressed zero i = (true, [])
  send_chunks peer compressed (suc left) i =
      send_first (env.chunk_sent i) (part peer (chunk_of compressed i))
        (send_chunks peer compressed left (suc i))

  abbrev pub after_send : String → SyncState → Bool × List Frame → Bool × (SyncState × List Frame)
  after_send peer s (true, frames) = (true, (s, frames))
  after_send peer s (false, frames) = (false, (drop_outgoing peer s, frames))

  abbrev pub sending : String → Package → SyncState → SyncState
  sending peer p s = record s {
    outgoing =
        assign peer (some (record { transfer_id = env.transfer_id; checkpoint = p.checkpoint }))
          s.outgoing;
  }

  abbrev pub is_bad_count : ℕ → Bool
  is_bad_count count = count == 0 || ltb state_sync_max_chunk_count count

  abbrev pub unless_bad : String → Package → SyncState → Bool → Bool × (SyncState × List Frame)
  unless_bad peer p s true = (false, (s, []))
  unless_bad peer p s false = after_send peer (sending peer p s) (
      send_first env.manifest_sent (manifest peer (manifest_of p))
        (send_chunks peer p.compressed (slice_count p.compressed) 0))

  unfoldable pub send_package : String → Package → SyncState → Bool × (SyncState × List Frame)
  send_package peer p s = unless_bad peer p s (is_bad_count (slice_count p.compressed))

  abbrev pub if_packed :
      String → SyncState → Result SendError Package → Bool × (SyncState × List Frame)
  if_packed peer s (err e) = (false, (s, []))
  if_packed peer s (ok p) = send_package peer p s

  -- Whether there was no error, the state, and the frames that were sent.
  unfoldable pub send_state_sync : String → SyncState → Bool × (SyncState × List Frame)
  send_state_sync peer s = if_packed peer s (pack peer s)

  abbrev pub error_manifest : StateSyncManifest
  error_manifest = record {
    transfer_id = "";
    checkpoint = pos 0;
    chunk_count = pos 0;
    sha256 = "";
    error = "build or send state sync";
  }

  abbrev pub or_error : String → Bool × (SyncState × List Frame) → SyncState × List Frame
  or_error peer (true, sent) = sent
  or_error peer (false, (s, frames)) = (s, frames ++ manifest peer error_manifest ∷ [])

  abbrev pub Replica : Type 0
  Replica = (String → Bool) × SyncState

  unfoldable pub handle_state_sync_request : String → Replica → Replica × List Frame
  handle_state_sync_request peer (replica_peers, s) =
      let asked = is_authorized_replica_peer peer replica_peers in
      let answer = or_error peer (send_state_sync peer s) in
      if asked.0 then ((asked.1, answer.0), answer.1) else ((asked.1, s), [])

  unfoldable pub handle_peer_connected : String → Replica → Replica × List Frame
  handle_peer_connected peer (replica_peers, s) =
      let asked = is_authorized_replica_peer peer replica_peers in
      let requested = request_state_sync peer s in
      if asked.0 then ((asked.1, requested.0), requested.1) else ((asked.1, s), [])
