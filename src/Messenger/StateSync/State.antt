-- ===== src/Messenger/StateSync/State.antt =====
-- The data of internal/messenger/state_replication.go, and the messages of internal/webrtc/webrtc.go
-- that it exchanges.
use huginn_messenger.Prelude.{ℕ, String, Bool, Option, List, str_eq, if◌then◌else◌}
use huginn_messenger.Prelude.Int.{ℤ, pos}
use huginn_messenger.Store.Sql.{Error}
use huginn_messenger.Store.Rows.{Bytes, Db}
use huginn_messenger.Store.Sync.{ReplicatedMessage}

-- stateSyncVersion, stateSyncMaxChunkCount, stateSyncMaxDecodedSize, reloginChunkSize
abbrev pub state_sync_version : ℤ
state_sync_version = pos 1

abbrev pub state_sync_max_chunk_count : ℕ
state_sync_max_chunk_count = 4096

abbrev pub state_sync_max_decoded_size : ℕ
state_sync_max_decoded_size = 268435456

abbrev pub relogin_chunk_size : ℕ
relogin_chunk_size = 32768

-- A nil slice and an empty one are both []: what the code asks of a slot is whether it is nil, and
-- it never stores an empty slice that is not.
pub record IncomingTransfer : Type 0 where
  pub address : ℕ  -- which object this is
  pub transfer_id : String
  pub checkpoint : ℤ
  pub expected_hash : String
  pub chunks : List Bytes
  pub received : ℕ
  pub processing : Bool

pub record OutgoingTransfer : Type 0 where
  pub transfer_id : String
  pub checkpoint : ℕ

pub record StateSyncManifest : Type 0 where
  pub transfer_id : String
  pub checkpoint : ℤ
  pub chunk_count : ℤ
  pub sha256 : String
  pub error : String

pub record StateSyncChunk : Type 0 where
  pub transfer_id : String
  pub index : ℤ
  pub body : Bytes

-- The texts that an acknowledgement reports; `none` is the empty one.
pub data SyncError : Type 0 where
  invalid_chunk : SyncError
  shutting_down : SyncError
  checksum_mismatch : SyncError
  cannot_decode : SyncError
  too_large : SyncError
  unsupported_version : SyncError
  checkpoint_mismatch : SyncError
  import_failed : Error → SyncError

pub record StateSyncAck : Type 0 where
  pub transfer_id : String
  pub checkpoint : ℤ
  pub error : Option SyncError

-- What a handler asks for: a job of the pool, a message to a peer, downloads of the files that
-- messages mention.
pub data Effect : Type 0 where
  submit_import : String → IncomingTransfer → Effect
  send_ack : String → StateSyncAck → Effect
  queue_file_downloads : List ReplicatedMessage → String → Effect

pub record SyncState : Type 0 where
  pub requested : String → Bool
  pub incoming : String → Option IncomingTransfer
  pub outgoing : String → Option OutgoingTransfer
  pub next_address : ℕ
  pub db : Db

abbrev pub assign {ℓ} : {A : Type ℓ} → String → A → (String → A) → String → A
assign peer v m other = if str_eq peer other then v else m other
