-- ===== src/Messenger/StateSync.antt =====
-- The receiving side, and the acknowledgement, of internal/messenger/state_replication.go. Each
-- handler holds the mutex while it touches the maps; the import runs later, on the worker pool.
mod State
pub mod Slots
pub mod Step
pub mod Transfer
pub mod Ack
pub mod Import
pub mod Send
pub use State.*
use huginn_messenger.Prelude.{
  ℕ, zero, suc, ◌+◌, String, Bool, true, false, not, Option, none, some, List, [], ◌∷◌, ◌++◌, ◌||◌,
  ◌&&◌, str_eq, ltb, leb, ◌==◌, if◌then◌else◌, length, get_elem?, set, replicate,
}
use huginn_messenger.Prelude.Int.{ℤ, pos, negsuc, ◌==ℤ◌, le_zero, leb_ℤ}
use huginn_messenger.Prelude.Result.{Result, ok, err, ◌>>=◌, ◌>>◌, fail_if, of_option}
use huginn_messenger.Store.Sql.{Error}
use huginn_messenger.Store.Clock.{Time}
use huginn_messenger.Store.Rows.{Bytes, Db}
use huginn_messenger.Store.Sync.{
  ReplicatedMessage, MessageReplicationDelta, try_import_state_sync_messages, set_last_state_check,
}

-- delete(m.stateSyncRequested, peerID); delete(m.stateSyncIncoming, peerID)
abbrev pub drop_incoming : String → SyncState → SyncState
drop_incoming peer s = record s {
  requested = assign peer false s.requested;
  incoming = assign peer none s.incoming;
}

abbrev pub is_bad_manifest : StateSyncManifest → Bool
is_bad_manifest m =
    str_eq m.transfer_id ""
    || (le_zero m.checkpoint
        || (le_zero m.chunk_count
            || (not (leb_ℤ m.chunk_count (pos state_sync_max_chunk_count)) || str_eq m.sha256 "")))

-- make([][]byte, n)
abbrev pub empty_slots : ℤ → List Bytes
empty_slots (pos n) = replicate n []
empty_slots (negsuc n) = []

abbrev pub new_transfer : ℕ → StateSyncManifest → IncomingTransfer
new_transfer address m = record {
  address = address;
  transfer_id = m.transfer_id;
  checkpoint = m.checkpoint;
  expected_hash = m.sha256;
  chunks = empty_slots m.chunk_count;
  received = 0;
  processing = false;
}

unfoldable pub handle_state_sync_manifest : String → StateSyncManifest → SyncState → SyncState
handle_state_sync_manifest peer manifest s =
    if not (s.requested peer)
    then s
    else if not (str_eq manifest.error "")
    then drop_incoming peer s
    else if is_bad_manifest manifest
    then drop_incoming peer s
    else record s {
      incoming = assign peer (some (new_transfer s.next_address manifest)) s.incoming;
      next_address = suc s.next_address;
    }

-- `if m.stateSyncIncoming[peerID] == transfer`
abbrev pub is_same : Option IncomingTransfer → IncomingTransfer → Bool
is_same none t = false
is_same (some u) t = u.address == t.address

unfoldable pub clear_incoming_state_sync : String → IncomingTransfer → SyncState → SyncState
clear_incoming_state_sync peer transfer s =
    if is_same (s.incoming peer) transfer then drop_incoming peer s else s

unfoldable pub fail_state_sync_import :
    String → IncomingTransfer → SyncError → SyncState → SyncState × List Effect
fail_state_sync_import peer transfer e s = (
  clear_incoming_state_sync peer transfer s,
  send_ack peer (record {
    transfer_id = transfer.transfer_id;
    checkpoint = transfer.checkpoint;
    error = some e;
  })
      ∷ [],
)

abbrev pub is_nil : Bytes → Bool
is_nil [] = true
is_nil (b ∷ bs) = false

-- The slot is written if it is there and still nil.
unfoldable pub fill_slot : ℕ → Bytes → Option Bytes → IncomingTransfer → IncomingTransfer
fill_slot i body none t = t
fill_slot i body (some slot) t =
    if is_nil slot then record t { chunks = set t.chunks i body; received = suc t.received } else t

-- The index of a chunk that is in range.
unfoldable pub slot_index : StateSyncChunk → IncomingTransfer → Option ℕ
slot_index c t = in_range c.index
  where
    in_range : ℤ → Option ℕ
    in_range (negsuc n) = none
    in_range (pos i) =
        if ltb i (length t.chunks) && leb (length c.body) relogin_chunk_size then some i else none

-- What follows once the slot is written. `accepted` is what `submit` answers.
unfoldable pub after_fill : Bool → String → IncomingTransfer → SyncState → SyncState × List Effect
after_fill accepted peer t s =
    if not (t.received == length t.chunks)
    then (record s { incoming = assign peer (some t) s.incoming }, [])
    else let job = record t { processing = true } in
      let s' = record s { incoming = assign peer (some job) s.incoming } in
      if accepted
      then (s', submit_import peer job ∷ [])
      else fail_state_sync_import peer job shutting_down s'

abbrev pub reject_chunk :
    String → StateSyncChunk → IncomingTransfer → SyncState → SyncState × List Effect
reject_chunk peer c t s = (
  drop_incoming peer s,
  send_ack peer (record {
    transfer_id = c.transfer_id;
    checkpoint = t.checkpoint;
    error = some invalid_chunk;
  })
      ∷ [],
)

unfoldable pub chunk_for :
    Bool → String → StateSyncChunk → SyncState → Option IncomingTransfer → SyncState × List Effect
chunk_for accepted peer c s none = (s, [])
chunk_for accepted peer c s (some t) =
    if not (str_eq t.transfer_id c.transfer_id) || t.processing
    then (s, [])
    else elim (slot_index c t) [
      | none ↦ reject_chunk peer c t s
      | some i ↦ after_fill accepted peer (fill_slot i c.body (get_elem? t.chunks i) t) s
    ]

unfoldable pub handle_state_sync_chunk :
    Bool → String → StateSyncChunk → SyncState → SyncState × List Effect
handle_state_sync_chunk accepted peer c s = chunk_for accepted peer c s (s.incoming peer)

abbrev pub concat : List Bytes → Bytes
concat [] = []
concat (c ∷ cs) = c ++ concat cs

-- compress/gzip, sha256 with hex, and encoding/json are parameters: `read_gzip n` reads at most n
-- bytes of the decompressed stream.
module _ (hex_sum256 : Bytes → String) (read_gzip : ℕ → Bytes → Option Bytes)
    (unmarshal_delta : Bytes → Option MessageReplicationDelta) where
  unfoldable pub decode_state_sync_delta : Bytes → Result SyncError MessageReplicationDelta
  decode_state_sync_delta compressed = do
    raw ← of_option cannot_decode (read_gzip (state_sync_max_decoded_size + 1) compressed)
    fail_if (ltb state_sync_max_decoded_size (length raw)) too_large
    delta ← of_option cannot_decode (unmarshal_delta raw)
    fail_if (not (delta.version ==ℤ state_sync_version)) unsupported_version
    ok delta

  -- The checks before the import.
  unfoldable pub check_import : IncomingTransfer → Result SyncError MessageReplicationDelta
  check_import t = do
    fail_if (not (str_eq (hex_sum256 (concat t.chunks)) t.expected_hash)) checksum_mismatch
    delta ← decode_state_sync_delta (concat t.chunks)
    fail_if (not (delta.checkpoint ==ℤ t.checkpoint)) checkpoint_mismatch
    ok delta

  abbrev pub downloads_of : List ReplicatedMessage → String → List Effect
  downloads_of [] peer = []
  downloads_of (m ∷ ms) peer = queue_file_downloads (m ∷ ms) peer ∷ []

  -- After the transaction.
  abbrev pub after_import :
      String
      → IncomingTransfer
      → SyncState
      → Result Error (List ReplicatedMessage × Db)
      → SyncState × List Effect
  after_import peer t s (err e) = fail_state_sync_import peer t (import_failed e) s
  after_import peer t s (ok (inserted, db)) = (
    clear_incoming_state_sync peer t (record s { db = db }),
    downloads_of inserted peer
        ++ send_ack peer
            (record { transfer_id = t.transfer_id; checkpoint = t.checkpoint; error = none })
          ∷ [],
  )

  -- What the checks decide; `refuses` tells which transactions fail.
  unfoldable pub after_checks :
      (List ReplicatedMessage → Bool)
      → String
      → IncomingTransfer
      → Time
      → SyncState
      → Result SyncError MessageReplicationDelta
      → SyncState × List Effect
  after_checks refuses peer t now s (err e) = fail_state_sync_import peer t e s
  after_checks refuses peer t now s (ok delta) =
      after_import peer t s (try_import_state_sync_messages refuses delta.messages now s.db)

  unfoldable pub finish_state_sync_import :
      (List ReplicatedMessage → Bool)
      → String
      → IncomingTransfer
      → Time
      → SyncState
      → SyncState × List Effect
  finish_state_sync_import refuses peer t now s = after_checks refuses peer t now s (check_import t)

abbrev pub matches : Option OutgoingTransfer → StateSyncAck → Bool
matches none ack = false
matches (some t) ack = str_eq t.transfer_id ack.transfer_id && pos t.checkpoint ==ℤ ack.checkpoint

abbrev pub drop_outgoing : String → SyncState → SyncState
drop_outgoing peer s = record s { outgoing = assign peer none s.outgoing }

-- The checkpoint of an acknowledgement that matches is not negative.
abbrev pub persist_checkpoint : String → ℤ → SyncState → SyncState
persist_checkpoint peer (negsuc n) s = s
persist_checkpoint peer (pos checkpoint) s =
    elim (set_last_state_check peer (some checkpoint) s.db) [
      | err e ↦ s
      | ok db ↦ drop_outgoing peer (record s { db = db })
    ]

abbrev pub has_error : StateSyncAck → Bool
has_error ack = elim ack.error [ none ↦ false | some e ↦ true ]

unfoldable pub handle_state_sync_ack : String → StateSyncAck → SyncState → SyncState
handle_state_sync_ack peer ack s =
    if not (matches (s.outgoing peer) ack)
    then s
    else if has_error ack
    then drop_outgoing peer s
    else persist_checkpoint peer ack.checkpoint s
