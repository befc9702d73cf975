-- ===== src/Messenger/Delivery/Location.antt =====
-- registerChunkLocation of internal/messenger/chunk_delivery.go: what the directory is told of the
-- chunks that a peer has.
use huginn_messenger.Prelude.{
  ℕ, zero, suc, ◌+◌, ◌-◌, ◌/◌, String, Bool, true, false, not, ◌||◌, ◌&&◌, Option, none, some, List,
  [], ◌∷◌, map, select, str_eq, ltb, if◌then◌else◌,
}
use huginn_messenger.Prelude.Int.{ℤ, pos, negsuc, le_zero, add_leb, ◌==ℤ◌}
use huginn_messenger.Store.Clock.{Time, unix, duration_of_seconds}
use huginn_messenger.Store.Rows.{PendingChunk}
use huginn_messenger.Messenger.Peers.{Peer}
use huginn_messenger.Messenger.Session.{ChunkRecord}
use huginn_messenger.Messenger.Chunks.{ChunkStoreRequest}

pub record RegisterChunkBatchEntry : Type 0 where
  pub chunk_index : ℤ
  pub sender_id : String
  pub recipient_id : String
  pub hash : String
  pub signature : String
  pub peer_id : String
  pub persist : Bool
  pub ttl : ℤ

-- Calls that leave the messenger.
pub data Effect : Type 0 where
  send_message : String → String → Time → String → Effect  -- peer, text, time, message
  register_chunks : String → List RegisterChunkBatchEntry → Effect
  send_batch : Peer → List ChunkStoreRequest → Effect

-- What the delivery reads: its id, the clock, the answers of the directory, the peers it knows,
-- which connections there are and come about, which calls succeed, and where its context is done.
pub record Courier : Type 0 where
  pub own_id : String
  pub now : Time
  pub peers : List Peer
  pub chunks_by_file_id : String → Option (List ChunkRecord)
  pub register_succeeds : String → List RegisterChunkBatchEntry → Bool
  pub get_best_thick_peers : ℕ → Option (List Peer)
  pub get_best_peers : ℕ → Option (List Peer)
  pub is_connected : String → Bool
  pub connect_peer : String → Bool
  pub wait_for_peer_connection : String → Bool
  pub is_confirmed : Peer → List ChunkStoreRequest → Bool
  pub is_done_before : String → Bool  -- recipient
  pub is_done_at : String → String → Bool  -- recipient, peer

abbrev pub opposite : ℕ → ℤ
opposite zero = pos 0
opposite (suc n) = negsuc n

-- start + d - now, in nanoseconds
abbrev until : Time → ℤ → Time → ℤ
until start (pos d) now =
    if ltb now (start + d) then pos (start + d - now) else opposite (now - (start + d))
until start (negsuc d) now =
    if ltb (now + suc d) start then pos (start - (now + suc d)) else opposite (now + suc d - start)

-- math.Ceil of the seconds; the rounding of float64 is not modelled.
abbrev ceil_seconds : ℤ → ℤ
ceil_seconds (pos n) = pos ((n + 999999999) / 1000000000)
ceil_seconds (negsuc n) = opposite (suc n / 1000000000)

unfoldable pub remaining_chunk_ttl : Time → PendingChunk → ℤ
remaining_chunk_ttl now c =
    ceil_seconds (until c.created_at (duration_of_seconds c.ttl_seconds) now)

abbrev pub is_live : Time → PendingChunk → Bool
is_live now c = not (le_zero (remaining_chunk_ttl now c))

module _ (env : Courier) where
  open env use {own_id, now}

  -- created_at + ttl > now
  abbrev pub is_after : ℤ → ℤ → Bool
  is_after (pos c) ttl = not (add_leb c ttl (unix now))
  is_after (negsuc c) (pos n) = ltb (unix now + suc c) n
  is_after (negsuc c) (negsuc n) = false

  abbrev pub is_current : String → ChunkRecord → Bool
  is_current peer r = str_eq r.peer_id peer && (le_zero r.ttl || is_after r.created_at r.ttl)

  -- existing[index], where the last record counts
  unfoldable pub existing : String → ℤ → String → List ChunkRecord → String
  existing peer index last [] = last
  existing peer index last (r ∷ rs) =
      existing peer index (if is_current peer r && r.chunk_index ==ℤ index then r.hash else last) rs

  abbrev pub known_records : Option (List ChunkRecord) → List ChunkRecord
  known_records none = []
  known_records (some records) = records

  abbrev pub is_missing : String → List ChunkRecord → PendingChunk → Bool
  is_missing peer records c =
      not (not (is_live now c) || str_eq (existing peer c.chunk_index "" records) c.hash)

  abbrev pub entry_of : String → PendingChunk → RegisterChunkBatchEntry
  entry_of peer c = record {
    chunk_index = c.chunk_index;
    sender_id = c.sender_id;
    recipient_id = c.recipient_id;
    hash = c.hash;
    signature = c.signature;
    peer_id = peer;
    persist = c.persist;
    ttl = remaining_chunk_ttl now c;
  }

  abbrev pub register_missing : String → List RegisterChunkBatchEntry → Bool × List Effect
  register_missing file_id [] = (true, [])
  register_missing file_id (e ∷ es) =
      (env.register_succeeds file_id (e ∷ es), register_chunks file_id (e ∷ es) ∷ [])

  unfoldable pub register_chunk_location : String → String → List PendingChunk → Bool × List Effect
  register_chunk_location file_id peer chunks = register_missing file_id (
      map (entry_of peer)
        (select (is_missing peer (known_records (env.chunks_by_file_id file_id))) chunks))
