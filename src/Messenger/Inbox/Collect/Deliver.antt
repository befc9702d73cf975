-- ===== src/Messenger/Inbox/Collect/Deliver.antt =====
-- The last part of collectAndProcessMessage (internal/messenger/messages.go), from the envelopes
-- of a message to its row in the history; checkInviteText of internal/messenger/groups.go.
use huginn_messenger.Prelude.{
  String, Bool, true, false, ◌||◌, Option, none, some, List, [], ◌∷◌, map, str_eq, if◌then◌else◌,
}
use huginn_messenger.Prelude.Int.{pos}
use huginn_messenger.Prelude.Result.{Result, ok, err}
use huginn_messenger.Prelude.Strings.{str_append, strip_prefix, before_colon}
use huginn_messenger.Crypto.{CryptoError, decode_key}
use huginn_messenger.Chunk.{Envelope, ChunkError, assemble_and_decrypt}
use huginn_messenger.Store.Sql.{Error}
use huginn_messenger.Store.Clock.{Time, unix_micro}
use huginn_messenger.Store.Rows.{Bytes, GroupChat, Db}
use huginn_messenger.Store.Groups.{get_group_chat, create_group_chat}
use huginn_messenger.Store.Messages.{save_message}
use huginn_messenger.Store.Track.{delete_failed_message}
use huginn_messenger.Messenger.Peers.{Peer, key}
use huginn_messenger.Messenger.Session.{
  FileMeta, ChatMessage, MessagePayload, GroupInvitePayload, ChunkRecord, publish, Session, Env, db,
  with_db, emit, find_sender,
}
use huginn_messenger.Messenger.Files.{process_received_file}

abbrev pub invite_prefix : String
invite_prefix = "__group_invite__:"

abbrev pub without_local_file_paths : List FileMeta → List FileMeta
without_local_file_paths files = map (λ (f : FileMeta). record f { file_path = "" }) files

module _ (env : Env) where
  abbrev pub invited_group : GroupInvitePayload → GroupChat
  invited_group inv = record {
    uid = inv.uid;
    name = inv.name;
    enc_private = inv.enc_private;
    enc_public = inv.enc_public;
    sign_private = inv.sign_private;
    sign_public = inv.sign_public;
    created_at = env.now;
  }

  abbrev pub created : Session → Result Error Db → Session
  created s (err e) = s
  created s (ok d) = with_db d s

  abbrev pub join_group : GroupInvitePayload → Session → Result Error GroupChat → Session
  join_group inv s (err e) = created s (create_group_chat (invited_group inv) (db s))
  join_group inv s (ok existing) = s

  abbrev pub if_invite : String → Session → Option GroupInvitePayload → String × Session
  if_invite text s none = (text, s)
  if_invite text s (some inv) = (
    str_append "You were invited to group chat: " inv.name,
    join_group inv s (get_group_chat inv.uid (db s)),
  )

  abbrev pub if_prefixed : String → Session → Option String → String × Session
  if_prefixed text s none = (text, s)
  if_prefixed text s (some raw) = if_invite text s (env.unmarshal_invite raw)

  unfoldable pub check_invite_text : String → Session → String × Session
  check_invite_text text s = if_prefixed text s (strip_prefix invite_prefix text)

  unfoldable pub process_files : List FileMeta → String → Session → Session
  process_files [] sender s = s
  process_files (f ∷ fs) sender s = process_files fs sender (process_received_file env f sender s)

  module _ (msg_id : String) (first : ChunkRecord) where
    abbrev pub is_ours : Bool
    is_ours = str_eq first.recipient_id "" || str_eq first.recipient_id env.own_key

    abbrev pub group_key : Result Error GroupChat → Bytes
    group_key (err e) = env.enc_private
    group_key (ok gc) = elim (decode_key env.prim gc.enc_private) [
      | err e ↦ env.enc_private
      | ok private ↦ private
    ]

    -- encPrivate
    unfoldable pub private_key : Session → Bytes
    private_key s =
        if is_ours
        then env.enc_private
        else group_key (get_group_chat (before_colon first.recipient_id) (db s))

    abbrev pub group_chat_id : Result Error GroupChat → String
    group_chat_id (err e) = first.recipient_id
    group_chat_id (ok gc) = before_colon first.recipient_id

    unfoldable pub chat_id : Peer → Session → String
    chat_id p s =
        if is_ours
        then key p
        else group_chat_id (get_group_chat (before_colon first.recipient_id) (db s))

    abbrev pub or_now : Option Time → Time
    or_now none = env.now
    or_now (some t) = t

    abbrev pub or_text : Bytes → Option MessagePayload → MessagePayload
    or_text plaintext none = record { text = env.text_of plaintext; timestamp = none; files = [] }
    or_text plaintext (some payload) = payload

    abbrev pub message_of : MessagePayload → Peer → String → String → ChatMessage
    message_of payload p chat text = record {
      from = p.login;
      chat_id = chat;
      text = text;
      timestamp = or_now payload.timestamp;
      msg_id = msg_id;
      files = without_local_file_paths payload.files;
    }

    abbrev pub after_save : ChatMessage → Session → Result Error Db → Session
    after_save m s (err e) = s
    after_save m s (ok d) = emit (publish m) (with_db (delete_failed_message msg_id d) s)

    abbrev pub save : Peer → ChatMessage → Session → Session
    save p m s = after_save m s (
        save_message msg_id (key p) p.login m.chat_id (env.marshal_message m)
          (pos (unix_micro m.timestamp)) env.now (db s))

    unfoldable pub deliver : Peer → MessagePayload → Session → Session
    deliver p payload s =
        let invited = check_invite_text payload.text s in
        save p (message_of payload p (chat_id p s) invited.0)
          (process_files (without_local_file_paths payload.files) first.sender_id invited.1)

    abbrev pub if_decrypted : Peer → Session → Result ChunkError Bytes → Session
    if_decrypted p s (err e) = s
    if_decrypted p s (ok plaintext) =
        deliver p (or_text plaintext (env.unmarshal_payload plaintext)) s

    -- The argument tells that the records are a file's: its chunks stay in the store until a
    -- message brings their key.
    abbrev pub if_file : Bool → Peer → List Envelope → Bytes → Session → Session
    if_file true p envelopes sign_key s = with_db (delete_failed_message msg_id (db s)) s
    if_file false p envelopes sign_key s =
        if_decrypted p s (assemble_and_decrypt env.prim envelopes (private_key s) sign_key)

    abbrev pub with_key : Peer → List Envelope → Session → Result CryptoError Bytes → Session
    with_key p envelopes s (err e) = s
    with_key p envelopes s (ok sign_key) = if_file first.persist p envelopes sign_key s

    unfoldable pub with_sender : List Envelope → Option Peer × Session → Session
    with_sender envelopes (none, s) = s
    with_sender envelopes (some p, s) = with_key p envelopes s (decode_key env.prim p.signature_key)

    unfoldable pub process_envelopes : Option (List Envelope) → Session → Session
    process_envelopes none s = s
    process_envelopes (some envelopes) s = with_sender envelopes (find_sender env first.sender_id s)
