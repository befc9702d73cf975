-- ===== src/Store/Rows.antt =====
-- The rows of the database tables, with their primary keys
-- (internal/store/migrations/sqlite/*.sql, and the structs that the methods read them into).
use huginn_messenger.Prelude.{
  ℕ, String, ◌≡◌, ◌↔◌, Bool, true, Option, List, arith, str_eq, eq_iff, ◌&&◌,
}
use huginn_messenger.Prelude.Int.{ℤ, ◌==ℤ◌, ==ℤ_iff}
use huginn_messenger.Store.Sql.{PrimaryKey}
use huginn_messenger.Store.Clock.{Time}

-- A byte string.
abbrev pub Bytes : Type 0
Bytes = List ℕ

-- (file_id, chunk_index)
abbrev pub ChunkKey : Type 0
ChunkKey = String × ℤ

abbrev pub chunk_key_eqb : ChunkKey → ChunkKey → Bool
chunk_key_eqb (f, i) (g, j) = str_eq f g && i ==ℤ j

pub chunk_key_eqb_iff : (a b : ChunkKey) → (chunk_key_eqb a b ≡ true) ↔ (a ≡ b)
chunk_key_eqb_iff (f, i) (g, j) =
    (λ h. ground (arith, eq_iff f g, ==ℤ_iff i j), λ h. ground (arith, eq_iff f g, ==ℤ_iff i j))

pub record Chunk : Type 0 where
  pub file_id : String
  pub chunk_index : ℤ
  pub body : Bytes
  pub created_at : Time
  pub ttl_seconds : ℤ

pub record PendingChunk : Type 0 where
  pub file_id : String
  pub chunk_index : ℤ
  pub recipient_id : String
  pub sender_id : String
  pub body : Bytes
  pub hash : String
  pub signature : String
  pub created_at : Time
  pub placed : Bool
  pub ttl_seconds : ℤ
  pub persist : Bool

-- `created_at` is int64 Unix seconds here.
pub record FailedChunk : Type 0 where
  pub file_id : String
  pub chunk_index : ℤ
  pub recipient_id : String
  pub created_at : ℕ
  pub ttl_seconds : ℤ

-- `created_at` comes with the message, in microseconds; `state_updated_at` from the local clock.
pub record Message : Type 0 where
  pub message_uid : String
  pub login : String
  pub sender_login : String
  pub chat_id : String
  pub body : Bytes
  pub created_at : ℤ
  pub state_updated_at : ℕ

pub record PeerRow : Type 0 where
  pub login : String
  pub peer_id : String
  pub encryption_key : String
  pub signature_key : String
  pub last_seen : Time
  pub is_fake : Bool

pub record GroupChat : Type 0 where
  pub uid : String
  pub name : String
  pub enc_private : String
  pub enc_public : String
  pub sign_private : String
  pub sign_public : String
  pub created_at : Time

pub record LastCheck : Type 0 where
  pub recipient_id : String
  pub last_check : ℤ

pub record ConfigValue : Type 0 where
  pub name : String
  pub value : String

-- All times in Unix seconds; NULL is `none`.
pub record FileDownload : Type 0 where
  pub file_id : String
  pub first_seen_at : ℕ
  pub expires_at : ℕ
  pub completed_at : Option ℕ
  pub stopped_at : Option ℕ
  pub local_path : String
  pub cancelled_at : Option ℕ
  pub filename : String
  pub total_chunks : ℤ

pub record LastStateCheck : Type 0 where
  pub peer_id : String
  pub last_check_datetime : ℕ

abbrev pub chunk_pk : PrimaryKey Chunk
chunk_pk = record {
  Key = ChunkKey;
  key = λ c. (c.file_id, c.chunk_index);
  eqb = chunk_key_eqb;
  eqb_iff = chunk_key_eqb_iff;
}

abbrev pub pending_pk : PrimaryKey PendingChunk
pending_pk = record {
  Key = ChunkKey;
  key = λ c. (c.file_id, c.chunk_index);
  eqb = chunk_key_eqb;
  eqb_iff = chunk_key_eqb_iff;
}

abbrev pub failed_pk : PrimaryKey FailedChunk
failed_pk = record {
  Key = ChunkKey;
  key = λ c. (c.file_id, c.chunk_index);
  eqb = chunk_key_eqb;
  eqb_iff = chunk_key_eqb_iff;
}

-- A table whose key is one TEXT column.
abbrev pub text_pk : {R : Type 0} → (R → String) → PrimaryKey R
text_pk f = record { Key = String; key = f; eqb = str_eq; eqb_iff = eq_iff }

abbrev pub message_pk : PrimaryKey Message
message_pk = text_pk (λ m. m.message_uid)

abbrev pub group_pk : PrimaryKey GroupChat
group_pk = text_pk (λ g. g.uid)

abbrev pub last_check_pk : PrimaryKey LastCheck
last_check_pk = text_pk (λ r. r.recipient_id)

abbrev pub config_pk : PrimaryKey ConfigValue
config_pk = text_pk (λ r. r.name)

abbrev pub download_pk : PrimaryKey FileDownload
download_pk = text_pk (λ r. r.file_id)

abbrev pub state_check_pk : PrimaryKey LastStateCheck
state_check_pk = text_pk (λ r. r.peer_id)

abbrev pub peer_key_eqb : String × String → String × String → Bool
peer_key_eqb (f, i) (g, j) = str_eq f g && str_eq i j

pub peer_key_eqb_iff : (a b : String × String) → (peer_key_eqb a b ≡ true) ↔ (a ≡ b)
peer_key_eqb_iff (f, i) (g, j) =
    (λ h. ground (arith, eq_iff f g, eq_iff i j), λ h. ground (arith, eq_iff f g, eq_iff i j))

-- (login, signature_key)
abbrev pub peer_pk : PrimaryKey PeerRow
peer_pk = record {
  Key = String × String;
  key = λ p. (p.login, p.signature_key);
  eqb = peer_key_eqb;
  eqb_iff = peer_key_eqb_iff;
}

-- The database.
pub record Db : Type 0 where
  pub chunks : List Chunk
  pub pending_chunks : List PendingChunk
  pub failed_chunks : List FailedChunk
  pub messages : List Message
  pub stored_peers : List PeerRow
  pub group_chats : List GroupChat
  pub last_check : List LastCheck
  pub config_values : List ConfigValue
  pub file_downloads : List FileDownload
  pub last_state_check : List LastStateCheck
