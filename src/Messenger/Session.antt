-- ===== src/Messenger/Session.antt =====
-- The data of internal/messenger/messenger.go and of the directory's answers
-- (internal/muninn/client.go), the part of the messenger's state that the handlers of messages and
-- files share, and what those handlers ask of the world.
pub mod Same
use huginn_messenger.Prelude.{
  ℕ, String, Bool, true, false, Option, none, some, List, [], ◌∷◌, ◌++◌, str_eq, if◌then◌else◌, any,
  reject, not,
}
use huginn_messenger.Prelude.Int.{ℤ}
use huginn_messenger.Crypto.{Primitives}
use huginn_messenger.Chunk.{Envelope}
use huginn_messenger.Store.Clock.{Time}
use huginn_messenger.Store.Rows.{Bytes, Db}
use huginn_messenger.Messenger.Peers.{Book, Directory, find_peer_by_key, Peer}

pub record FileMeta : Type 0 where
  pub file_id : String
  pub file_hash : String
  pub decryption_key : String
  pub total_chunks : ℤ
  pub filename : String
  pub file_path : String
  pub source_peer_id : String

pub record ChatMessage : Type 0 where
  pub from : String
  pub chat_id : String
  pub text : String
  pub timestamp : Time
  pub msg_id : String
  pub files : List FileMeta

-- The zero time is `none`.
pub record MessagePayload : Type 0 where
  pub text : String
  pub timestamp : Option Time
  pub files : List FileMeta

pub record PendingFileDownload : Type 0 where
  pub file_meta : FileMeta
  pub sender_id : String
  pub preferred_peer_id : String

pub record FileReadyEvent : Type 0 where
  pub file_id : String
  pub file_path : String
  pub filename : String
  pub sender_id : String

pub record GroupInvitePayload : Type 0 where
  pub uid : String
  pub name : String
  pub enc_private : String
  pub enc_public : String
  pub sign_private : String
  pub sign_public : String

-- The fields of a directory record that the messenger reads.
pub record ChunkRecord : Type 0 where
  pub file_id : String
  pub chunk_index : ℤ
  pub sender_id : String
  pub recipient_id : String
  pub hash : String
  pub peer_id : String
  pub persist : Bool
  pub created_at : ℤ
  pub updated_at : ℤ
  pub ttl : ℤ

-- Calls and jobs that leave the messenger, in their order.
pub data Effect : Type 0 where
  send_chunk_get : String → String → ℤ → Effect  -- peer, file, index
  connect_peer : String → Effect
  -- A job that waits up to five seconds for the connection, and then sends the request.
  wait_and_get : String → String → ℤ → Effect
  -- A job that connects to the peer (and does the same, if there is a request).
  connect_later : String → Option (String × ℤ) → Effect
  publish : ChatMessage → Effect
  notify_file_ready : FileReadyEvent → Effect
  -- The Go runtime panics: the program ends here, and what a handler does next does not happen.
  panic : Effect

-- `processing` is processingMsg, `download_contexts` the keys of downloadContexts. A file on the
-- disk is a path and its contents.
pub record Session : Type 0 where
  pub book : Book
  pub processing : List String
  pub pending_downloads : List (String × PendingFileDownload)
  pub download_contexts : List String
  pub disk : List (String × Bytes)
  pub out : List Effect

-- What a handler reads but does not change: keys, the answers of the directory (`none` is an
-- error), the codecs of encoding/json (which encode every value of these types), connections, and the clock, which a handler reads once here.
pub record Env : Type 1 where
  pub prim : Primitives
  pub own_key : String
  pub own_id : String
  pub username : String
  pub enc_private : Bytes
  pub sign_private : Bytes
  pub sign_public : Bytes
  pub downloads_dir : String
  pub directory : Directory
  pub chunks_by_recipient : String → ℤ → Option (List ChunkRecord)
  pub chunks_by_file_id : String → Option (List ChunkRecord)
  pub marshal_envelope : Envelope → Bytes
  pub marshal_payload : MessagePayload → Bytes
  pub expected_bytes : String → ℤ → String → Bytes  -- "muninn/expected/v1\n%s\n%d\n%s"
  pub unmarshal_envelope : Bytes → Option Envelope
  pub unmarshal_payload : Bytes → Option MessagePayload
  pub text_of : Bytes → String  -- string(b)
  pub marshal_message : ChatMessage → Bytes
  pub unmarshal_invite : String → Option GroupInvitePayload
  pub is_connected : String → Bool
  pub join_path : String → String → String
  pub base_path : String → String
  pub now : Time

abbrev pub db : Session → Db
db s = s.book.db

abbrev pub with_db : Db → Session → Session
with_db d s = record s { book = record s.book { db = d } }

abbrev pub emit : Effect → Session → Session
emit e s = record s { out = s.out ++ e ∷ [] }

abbrev pub member : String → List String → Bool
member x xs = any (λ y. str_eq y x) xs

abbrev pub remove : String → List String → List String
remove x xs = reject (λ y. str_eq y x) xs

abbrev pub unless_busy : String → Session → Bool → Bool × Session
unless_busy id s true = (false, s)
unless_busy id s false = (true, record s { processing = id ∷ s.processing })

unfoldable pub try_process_msg : String → Session → Bool × Session
try_process_msg id s = unless_busy id s (member id s.processing)

unfoldable pub release_process_msg : String → Session → Session
release_process_msg id s = record s { processing = remove id s.processing }

-- findPeerByKey, which may add peers to the book.
unfoldable pub find_sender : Env → String → Session → Option Peer × Session
find_sender env key s =
    let found = find_peer_by_key env.directory key s.book in (found.0, record s { book = found.1 })
