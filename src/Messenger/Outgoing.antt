-- ===== src/Messenger/Outgoing.antt =====
-- Preparing a message to send: prepareOutgoing, prepareFileChunks and pendingEnvelopes of
-- internal/messenger/outgoing.go.
pub mod Queued
use huginn_messenger.Prelude.{
  ℕ, String, Bool, true, false, not, ◌&&◌, Option, none, some, List, [], ◌∷◌, ◌++◌, map, str_eq,
  if◌then◌else◌, length,
}
use huginn_messenger.Prelude.Int.{ℤ, pos}
use huginn_messenger.Prelude.Result.{Result, ok, err, ◌>>=◌, of_option}
use huginn_messenger.Crypto.{CryptoError, encode_key, decode_key}
use huginn_messenger.Chunk.{
  Envelope, ChunkError, wrap, split_and_encrypt, split_and_encrypt_file, registered_hash,
  compute_hash,
}
use huginn_messenger.Store.Sql.{Error}
use huginn_messenger.Store.Clock.{Time, unix_micro}
use huginn_messenger.Store.Rows.{Bytes, PendingChunk, GroupChat, Db}
use huginn_messenger.Store.Groups.{get_group_chat}
use huginn_messenger.Store.Pending.{queue_outgoing}
use huginn_messenger.Store.Track.{default_ttl}
use huginn_messenger.Messenger.Peers.{Peer, key}
use huginn_messenger.Messenger.Session.{
  FileMeta, ChatMessage, MessagePayload, publish, Session, Env, db, with_db, emit, find_sender,
}
use huginn_messenger.Messenger.Files.Prepare.{read_file}
use huginn_messenger.Messenger.Inbox.Collect.Deliver.{without_local_file_paths}

pub data SendError : Type 0 where
  recipient_not_found : SendError
  invalid_recipient_key : CryptoError → SendError
  cannot_read_attachment : SendError
  random_failed : SendError
  encrypt_failed : ChunkError → SendError
  queue_failed : Error → SendError

-- A file to send, with the random values that its preparation draws: an id, a key and nonces.
pub record Attachment : Type 0 where
  pub path : String
  pub file_id : String
  pub file_key : Option Bytes
  pub nonces : ℕ → Option Bytes

-- The random values of a message.
pub record Fresh : Type 0 where
  pub msg_id : String
  pub ephemeral : Option Bytes
  pub nonces : ℕ → Option Bytes

pub record OutgoingMessage : Type 0 where
  pub message : ChatMessage
  pub peer : Peer
  pub chunks : List PendingChunk

-- What a message is before it is queued: its files, their chunks, and its envelopes.
pub record Sealed : Type 0 where
  pub files : List FileMeta
  pub file_chunks : List PendingChunk
  pub envelopes : List Envelope

module _ (env : Env) where
  abbrev pub queued_payload : Envelope → String → Time → ℤ → Bool → Bytes → String → PendingChunk
  queued_payload envelope recipient created ttl persist body hash = record {
    file_id = envelope.message_id;
    chunk_index = envelope.chunk_index;
    recipient_id = recipient;
    sender_id = env.own_key;
    body = body;
    hash = hash;
    signature = encode_key env.prim (
        env.prim.sign env.sign_private
          (env.expected_bytes envelope.message_id envelope.chunk_index hash));
    created_at = created;
    placed = false;
    ttl_seconds = ttl;
    persist = persist;
  }

  -- One round of the loop of pendingEnvelopes.
  unfoldable pub pending_envelope : String → Time → ℤ → Bool → Envelope → PendingChunk
  pending_envelope recipient created ttl persist envelope =
      let body = env.marshal_envelope envelope in
      queued_payload envelope recipient created ttl persist body (registered_hash env.prim body)

  unfoldable pub pending_envelopes : List Envelope → String → Time → ℤ → Bool → List PendingChunk
  pending_envelopes envelopes recipient created ttl persist =
      map (pending_envelope recipient created ttl persist) envelopes

  abbrev pub announced : Attachment → Bytes → Bytes → List PendingChunk → FileMeta
  announced a body file_key chunks = record {
    file_id = a.file_id;
    file_hash = compute_hash env.prim body;
    decryption_key = encode_key env.prim file_key;
    total_chunks = pos (length chunks);
    filename = env.base_path a.path;
    file_path = a.path;
    source_peer_id = "";
  }

  unfoldable pub prepare_file_chunks :
      Attachment → Time → ℤ → Session → Result SendError (FileMeta × List PendingChunk)
  prepare_file_chunks a created ttl s = do
    file ← of_option cannot_read_attachment (read_file a.path s)
    file_key ← of_option random_failed a.file_key
    envelopes ← wrap encrypt_failed (
        split_and_encrypt_file env.prim a.file_id env.own_id file.1 file_key env.sign_private
          a.nonces)
    let chunks = pending_envelopes envelopes "" created ttl true
    ok (announced a file.1 file_key chunks, chunks)

  -- The loop over the attachments.
  unfoldable pub prepare_files :
      List Attachment → Time → ℤ → Session → Result SendError (List FileMeta × List PendingChunk)
  prepare_files [] created ttl s = ok ([], [])
  prepare_files (a ∷ as') created ttl s = do
    first ← prepare_file_chunks a created ttl s
    rest ← prepare_files as' created ttl s
    ok (first.0 ∷ rest.0, first.1 ++ rest.1)

  -- A group stands for a peer that is not there.
  abbrev pub group_peer : GroupChat → Peer
  group_peer g = record {
    id = g.uid;
    ids = [];
    login = g.uid;
    encryption_key = g.enc_public;
    signature_key = g.sign_public;
    last_seen = 0;
    ttl_seconds = pos 0;
    is_fake = true;
  }

  abbrev pub peer_of_group : Result Error GroupChat → Option Peer
  peer_of_group (err e) = none
  peer_of_group (ok g) = some (group_peer g)

  abbrev pub or_group : String → Option Peer × Session → Option Peer × Session
  or_group to (some p, s) = (some p, s)
  or_group to (none, s) = (peer_of_group (get_group_chat to (db s)), s)

  unfoldable pub find_recipient : String → Session → Option Peer × Session
  find_recipient to s = or_group to (find_sender env to s)

  abbrev pub chat_of : Peer → String
  chat_of p = if p.is_fake && not (str_eq p.id "") then p.id else key p

  abbrev pub message_to : Peer → String → List FileMeta → Fresh → ChatMessage
  message_to p text files fresh = record {
    from = env.username;
    chat_id = chat_of p;
    text = text;
    timestamp = env.now;
    msg_id = fresh.msg_id;
    files = files;
  }

  abbrev pub payload_of : String → List FileMeta → MessagePayload
  payload_of text files = record {
    text = text;
    timestamp = some env.now;
    files = without_local_file_paths files;
  }

  unfoldable pub seal_for :
      String → List Attachment → ℤ → Fresh → Session → Peer → Result SendError Sealed
  seal_for text attachments ttl fresh s p = do
    recipient_key ← wrap invalid_recipient_key (decode_key env.prim p.encryption_key)
    files ← prepare_files attachments env.now ttl s
    envelopes ← wrap encrypt_failed (
        split_and_encrypt env.prim fresh.msg_id env.own_id p.id
          (env.marshal_payload (payload_of text files.0)) recipient_key env.sign_private
          fresh.ephemeral fresh.nonces)
    ok (record { files = files.0; file_chunks = files.1; envelopes = envelopes })

  abbrev pub outgoing_of : String → ℤ → Fresh → Peer → Sealed → OutgoingMessage
  outgoing_of text ttl fresh p sealed = record {
    message = message_to p text sealed.files fresh;
    peer = p;
    chunks = sealed.file_chunks ++ pending_envelopes sealed.envelopes (key p) env.now ttl false;
  }

  abbrev pub queue_message : Fresh → OutgoingMessage → Session → Result Error Db
  queue_message fresh o s =
      queue_outgoing fresh.msg_id (key o.peer) env.username o.message.chat_id
        (env.marshal_message o.message) (pos (unix_micro env.now)) o.chunks env.now (db s)

  -- What is done once the recipient is known.
  unfoldable pub prepare_for :
      String
      → List Attachment
      → ℤ
      → Fresh
      → Session
      → Peer
      → Result SendError (OutgoingMessage × Db)
  prepare_for text attachments ttl fresh s p = do
    sealed ← seal_for text attachments ttl fresh s p
    let o = outgoing_of text ttl fresh p sealed
    d ← wrap queue_failed (queue_message fresh o s)
    ok (o, d)

  abbrev pub published :
      Session → Result SendError (OutgoingMessage × Db) → Result SendError OutgoingMessage × Session
  published s (err e) = (err e, s)
  published s (ok (outgoing, d)) = (ok outgoing, emit (publish outgoing.message) (with_db d s))

  abbrev pub prepare_found :
      String
      → List Attachment
      → ℤ
      → Fresh
      → Option Peer × Session
      → Result SendError OutgoingMessage × Session
  prepare_found text attachments ttl fresh (none, s) = (err recipient_not_found, s)
  prepare_found text attachments ttl fresh (some p, s) =
      published s (prepare_for text attachments (default_ttl ttl) fresh s p)

  unfoldable pub prepare_outgoing :
      String
      → String
      → List Attachment
      → ℤ
      → Fresh
      → Session
      → Result SendError OutgoingMessage × Session
  prepare_outgoing to text attachments ttl fresh s =
      prepare_found text attachments ttl fresh (find_recipient to s)
