-- ===== src/Messenger/Inbox/Collect/Kept.antt =====
-- What collectAndProcessMessage keeps: a payload whose message is in the history, or that waits for
-- a retry, goes on to be one of the two.
use huginn_messenger.Prelude.{
  ℕ, ◌≡◌, refl, sym, subst, ◌∙◌, String, true, false, ◌||◌, Option, none, some, List, [], ◌∷◌,
  arith, eq_iff,
}
use huginn_messenger.Prelude.Int.{ℤ, ==ℤ_iff, pos}
use huginn_messenger.Prelude.Result.{Result, ok, err, ◌>>=◌, IfOk}
use huginn_messenger.Prelude.Strings.{strip_prefix}
use huginn_messenger.Crypto.{CryptoError, decode_key}
use huginn_messenger.Chunk.{Envelope, ChunkError, assemble_and_decrypt}
use huginn_messenger.Store.Sql.{Error, insert}
use huginn_messenger.Store.Clock.{unix_micro}
use huginn_messenger.Store.Rows.{Bytes, GroupChat, group_pk, Db}
use huginn_messenger.Store.Groups.{create_group_chat, get_group_chat}
use huginn_messenger.Store.Messages.{find_message_by_id, save_message}
use huginn_messenger.Store.Messages.Saved.{Saved, save_message-Saved}
use huginn_messenger.Store.Track.{is_chunk_failed, store_failed_chunk, delete_failed_message}
use huginn_messenger.Store.Track.Retry.{is_failed-store_failed, is_failed-delete_message}
use huginn_messenger.Messenger.Session.{
  Session, Env, db, ChunkRecord, FileMeta, MessagePayload, ChatMessage, GroupInvitePayload,
  find_sender,
}
use huginn_messenger.Messenger.Session.Same.{Same, Same-trans, find_sender-Same}
use huginn_messenger.Messenger.Peers.{Peer, key}
use huginn_messenger.Messenger.Files.{process_received_file}
use huginn_messenger.Messenger.Files.Same.{process_received_file-Same}
use huginn_messenger.Messenger.Inbox.Collect.Deliver.{
  invite_prefix, invited_group, created, join_group, if_invite, if_prefixed, check_invite_text,
  process_files, after_save, deliver, if_decrypted, if_file, with_key, with_sender,
  process_envelopes, message_of, chat_id, without_local_file_paths, private_key, or_text,
}

-- The message is in the history, or the payload has a retry row.
unfoldable pub Kept : String → ℤ → Db → Type 0
Kept id i d = (find_message_by_id id d || is_chunk_failed id i d) ≡ true

-- From one database to the next, nothing that is kept is lost, and the cursors stay.
abbrev pub KeepsDb : Db → Db → Type 0
KeepsDb d d' = ((id : String) (i : ℤ) → Kept id i d → Kept id i d') × (d'.last_check ≡ d.last_check)

abbrev pub Keeps : Session → Session → Type 0
Keeps s s' = KeepsDb (db s) (db s')

pub KeepsDb-trans : (a b c : Db) → KeepsDb a b → KeepsDb b c → KeepsDb a c
KeepsDb-trans a b c h k = (λ id i x. k.0 id i (h.0 id i x), k.1 ∙ h.1)

pub Same-Keeps : (s s' : Session) → Same s s' → Keeps s s'
unfolding Kept find_message_by_id is_chunk_failed
Same-Keeps s s' h = (λ id i k. rw (h.0, h.1) k, h.2)

pub find_message-delete_failed :
    (id msg_id : String) (d : Db)
    → find_message_by_id id (delete_failed_message msg_id d) ≡ find_message_by_id id d
unfolding find_message_by_id delete_failed_message
find_message-delete_failed id msg_id d = refl

-- Retry rows of a message that is there can go.
pub delete_failed-Keeps :
    (msg_id : String) (d : Db)
    → find_message_by_id msg_id d ≡ true
    → KeepsDb d (delete_failed_message msg_id d)
unfolding Kept delete_failed_message
delete_failed-Keeps msg_id d h = (
  λ id i k. ground (
    arith,
    find_message-delete_failed id msg_id d,
    is_failed-delete_message id msg_id i d,
    eq_iff msg_id id,
  ),
  refl,
)

pub is_failed-same :
    (d d' : Db) (id : String) (i : ℤ)
    → d'.failed_chunks ≡ d.failed_chunks
    → is_chunk_failed id i d' ≡ is_chunk_failed id i d
unfolding is_chunk_failed
is_failed-same d d' id i h = rw h refl

find_message-store_failed :
    (id f : String) (j : ℤ) (recipient : String) (ttl : ℤ) (now : ℕ) (d : Db)
    → find_message_by_id id (store_failed_chunk f j recipient ttl now d) ≡ find_message_by_id id d
unfolding find_message_by_id store_failed_chunk
find_message-store_failed id f j recipient ttl now d = refl

last_check-store_failed :
    (f : String) (j : ℤ) (recipient : String) (ttl : ℤ) (now : ℕ) (d : Db)
    → (store_failed_chunk f j recipient ttl now d).last_check ≡ d.last_check
unfolding store_failed_chunk
last_check-store_failed f j recipient ttl now d = refl

-- A retry row that is written.
pub store_failed-Keeps :
    (f : String) (j : ℤ) (recipient : String) (ttl : ℤ) (now : ℕ) (d : Db)
    → KeepsDb d (store_failed_chunk f j recipient ttl now d)
unfolding Kept
store_failed-Keeps f j recipient ttl now d = (
  λ id i k. ground (
    arith,
    find_message-store_failed id f j recipient ttl now d,
    is_failed-store_failed id f i j recipient ttl now d,
  ),
  last_check-store_failed f j recipient ttl now d,
)

pub store_failed-Kept :
    (f : String) (j : ℤ) (recipient : String) (ttl : ℤ) (now : ℕ) (d : Db)
    → Kept f j (store_failed_chunk f j recipient ttl now d)
unfolding Kept
store_failed-Kept f j recipient ttl now d =
    ground (arith, is_failed-store_failed f f j j recipient ttl now d, eq_iff f f, ==ℤ_iff j j)

module _ (env : Env) where
  created-Same : (s : Session) (g : GroupChat) → Same s (created env s (create_group_chat g (db s)))
  unfolding create_group_chat
  created-Same s g = by_result (insert group_pk g (db s).group_chats)
    where
      by_result :
          (r : Result Error (List GroupChat))
          → Same s (created env s (r >>= λ t. ok (record (db s) { group_chats = t })))
      by_result (err e) = (refl, refl, refl)
      by_result (ok t) = (refl, refl, refl)

  join_group-Same :
      (inv : GroupInvitePayload) (s : Session) (r : Result Error GroupChat)
      → Same s (join_group env inv s r)
  join_group-Same inv s (err e) = created-Same s (invited_group env inv)
  join_group-Same inv s (ok existing) = (refl, refl, refl)

  if_invite-Same :
      (text : String) (s : Session) (o : Option GroupInvitePayload)
      → Same s (if_invite env text s o).1
  if_invite-Same text s none = (refl, refl, refl)
  if_invite-Same text s (some inv) = join_group-Same inv s (get_group_chat inv.uid (db s))

  if_prefixed-Same :
      (text : String) (s : Session) (o : Option String) → Same s (if_prefixed env text s o).1
  if_prefixed-Same text s none = (refl, refl, refl)
  if_prefixed-Same text s (some raw) = if_invite-Same text s (env.unmarshal_invite raw)

  pub check_invite_text-Same :
      (text : String) (s : Session) → Same s (check_invite_text env text s).1
  unfolding check_invite_text
  check_invite_text-Same text s = if_prefixed-Same text s (strip_prefix invite_prefix text)

  pub process_files-Same :
      (fs : List FileMeta) (sender : String) (s : Session) → Same s (process_files env fs sender s)
  unfolding process_files
  process_files-Same [] sender s = (refl, refl, refl)
  process_files-Same (f ∷ fs) sender s =
      let s' = process_received_file env f sender s in
      Same-trans s s' (process_files env fs sender s') (process_received_file-Same env f sender s)
        (process_files-Same fs sender s')

  module _ (msg_id : String) (first : ChunkRecord) where
    Saved-Keeps : (d d' : Db) → Saved msg_id d d' → KeepsDb d d'
    unfolding Kept
    Saved-Keeps d d' h = (λ id i k. ground (arith, h.0 id, is_failed-same d d' id i h.1), h.2)

    after_save-Keeps :
        (m : ChatMessage) (s : Session) (r : Result Error Db)
        → IfOk (Saved msg_id (db s)) r
        → Keeps s (after_save env msg_id first m s r)
    after_save-Keeps m s (err e) h = (λ id i k. k, refl)
    after_save-Keeps m s (ok d) h =
        KeepsDb-trans (db s) d (delete_failed_message msg_id d) (Saved-Keeps (db s) d h)
          (delete_failed-Keeps msg_id d (ground (arith, h.0 msg_id, eq_iff msg_id msg_id)))

    deliver-Keeps :
        (p : Peer) (payload : MessagePayload) (s : Session)
        → Keeps s (deliver env msg_id first p payload s)
    unfolding deliver
    deliver-Keeps p payload s =
        let invited = check_invite_text env payload.text s in
        let files = without_local_file_paths payload.files in
        let s' = process_files env files first.sender_id invited.1 in
        let m = message_of env msg_id first payload p (chat_id env msg_id first p s) invited.0 in
        let saved =
          save_message msg_id (key p) p.login m.chat_id (env.marshal_message m)
            (pos (unix_micro m.timestamp)) env.now (db s') in
        KeepsDb-trans (db s) (db s') (db (after_save env msg_id first m s' saved))
          (Same-Keeps s s' (
            Same-trans s invited.1 s' (check_invite_text-Same payload.text s)
              (process_files-Same files first.sender_id invited.1)))
          (after_save-Keeps m s' saved (
            save_message-Saved msg_id (key p) p.login m.chat_id (env.marshal_message m)
              (pos (unix_micro m.timestamp)) env.now (db s')))

    pub if_decrypted-Keeps :
        (p : Peer) (s : Session) (r : Result ChunkError Bytes)
        → Keeps s (if_decrypted env msg_id first p s r)
    if_decrypted-Keeps p s (err e) = (λ id i k. k, refl)
    if_decrypted-Keeps p s (ok plaintext) =
        deliver-Keeps p (or_text env msg_id first plaintext (env.unmarshal_payload plaintext)) s

    with_key-Keeps :
        first.persist ≡ false
        → (p : Peer) (envelopes : List Envelope) (s : Session) (r : Result CryptoError Bytes)
        → Keeps s (with_key env msg_id first p envelopes s r)
    with_key-Keeps h p envelopes s (err e) = (λ id i k. k, refl)
    with_key-Keeps h p envelopes s (ok sign_key) =
        subst (λ b. Keeps s (if_file env msg_id first b p envelopes sign_key s)) (sym h)
          (if_decrypted-Keeps p s
            (assemble_and_decrypt env.prim envelopes (private_key env msg_id first s) sign_key))

    with_sender-Keeps :
        first.persist ≡ false
        → (envelopes : List Envelope) (s : Session) (found : Option Peer × Session) → Same s found.1
        → Keeps s (with_sender env msg_id first envelopes found)
    unfolding with_sender
    with_sender-Keeps h envelopes s (none, s') k = Same-Keeps s s' k
    with_sender-Keeps h envelopes s (some p, s') k =
        let sign_key = decode_key env.prim p.signature_key in
        KeepsDb-trans (db s) (db s') (db (with_key env msg_id first p envelopes s' sign_key))
          (Same-Keeps s s' k) (with_key-Keeps h p envelopes s' sign_key)

    pub process_envelopes-Keeps :
        first.persist ≡ false
        → (o : Option (List Envelope)) (s : Session)
        → Keeps s (process_envelopes env msg_id first o s)
    unfolding process_envelopes
    process_envelopes-Keeps h none s = (λ id i k. k, refl)
    process_envelopes-Keeps h (some envelopes) s =
        with_sender-Keeps h envelopes s (find_sender env first.sender_id s)
          (find_sender-Same env first.sender_id s)
