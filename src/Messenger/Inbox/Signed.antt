-- ===== src/Messenger/Inbox/Signed.antt =====
-- A message reaches the history only with the signatures of the sender that the directory names.
use huginn_messenger.Prelude.{
  ◌≡◌, ◌≢◌, refl, sym, ap, subst, ◌∙◌, String, Bool, true, false, Option, none, some, List, [], ◌∷◌,
  All, Bool-cases, inl, inr, ◌⊎◌, arith, str_eq, eq_iff,
}
use huginn_messenger.Prelude.Int.{pos}
use huginn_messenger.Prelude.Result.{Result, ok, err, IfOk}
use huginn_messenger.Crypto.{CryptoError, decode_key}
use huginn_messenger.Chunk.{Envelope, ChunkError, assemble_and_decrypt}
use huginn_messenger.Chunk.Accepted.{IsSigned, assemble-IsSigned}
use huginn_messenger.Store.Sql.{Error}
use huginn_messenger.Store.Clock.{unix_micro}
use huginn_messenger.Store.Rows.{Bytes, Db}
use huginn_messenger.Store.Messages.{find_message_by_id, save_message}
use huginn_messenger.Store.Messages.Saved.{Saved, save_message-Saved}
use huginn_messenger.Store.Track.{delete_failed_message}
use huginn_messenger.Messenger.Peers.{Peer, key}
use huginn_messenger.Messenger.Session.{
  Session, Env, db, with_db, ChunkRecord, MessagePayload, ChatMessage, find_sender, try_process_msg,
  release_process_msg,
}
use huginn_messenger.Messenger.Session.Same.{
  Same, Same-trans, find_sender-Same, try_process_msg-Same,
}
use huginn_messenger.Messenger.Inbox.Collect.Deliver.{
  check_invite_text, process_files, after_save, deliver, if_decrypted, if_file, with_key,
  with_sender, process_envelopes, message_of, chat_id, without_local_file_paths, private_key,
  or_text,
}
use huginn_messenger.Messenger.Inbox.Collect.{
  track_records, gather, complete_envelopes, process_gathered, collect_new, collect_taken, if_taken,
  collect_and_process_message,
}
use huginn_messenger.Messenger.Inbox.History.{
  SameHistory, same_messages, trans, track-SameHistory, gather-SameHistory,
}
use huginn_messenger.Messenger.Inbox.Collect.Kept.{
  find_message-delete_failed, check_invite_text-Same, process_files-Same,
}

false-not-true : false ≡ true → ⊥
false-not-true h = cc

-- The payloads that a run gathers, and the session after that.
abbrev pub gathered : Env → String → List ChunkRecord → Session → List Bytes × Session
gathered env msg_id records s =
    gather env [] records (track_records env msg_id records (try_process_msg msg_id s).1)

-- The gathered payloads are envelopes, at least one, that are all signed with the key of the peer
-- that is found under the sender's key in the record, and that decrypt.
abbrev pub SignedBy : Env → String → ChunkRecord → List Bytes × Session → Type 0
SignedBy env msg_id first got =
    (envelopes : List Envelope) × (p : Peer) × (sign_key : Bytes) × (plaintext : Bytes)
    × (complete_envelopes env got.0 ≡ some envelopes)
    × ((find_sender env first.sender_id got.1).0 ≡ some p)
    × (decode_key env.prim p.signature_key ≡ ok sign_key)
    × (assemble_and_decrypt env.prim envelopes
          (private_key env msg_id first (find_sender env first.sender_id got.1).1) sign_key
        ≡ ok plaintext)
    × (envelopes ≢ [])
    × All (IsSigned env.prim sign_key) envelopes

-- `Reason` is why a message is new.
module _ (env : Env) (msg_id : String) (first : ChunkRecord) (Reason : Type 0) where
  -- What is in the history afterwards was there before, or is this message, for this reason.
  abbrev pub Explained : Session → Session → Type 0
  Explained s s' =
      (id : String)
      → (find_message_by_id id (db s') ≡ find_message_by_id id (db s)) ⊎ ((id ≡ msg_id) × Reason)

  unchanged : (s s' : Session) → SameHistory (db s) (db s') → Explained s s'
  unchanged s s' h id = inl (h id)

  after : (a b c : Session) → SameHistory (db a) (db b) → Explained b c → Explained a c
  after a b c h k id = elim (k id) [ inl e ↦ inl (e ∙ h id) | inr x ↦ inr x ]

  -- Other messages are as before.
  abbrev OnlyThis : Db → Db → Type 0
  OnlyThis d d' =
      (id : String) → str_eq msg_id id ≡ false → find_message_by_id id d' ≡ find_message_by_id id d

  after_save-OnlyThis :
      (m : ChatMessage) (s : Session) (r : Result Error Db)
      → IfOk (Saved msg_id (db s)) r
      → OnlyThis (db s) (db (after_save env msg_id first m s r))
  after_save-OnlyThis m s (err e) h id k = refl
  after_save-OnlyThis m s (ok d) h id k =
      ground (arith, find_message-delete_failed id msg_id d, h.0 id, k)

  deliver-OnlyThis :
      (p : Peer) (payload : MessagePayload) (s : Session)
      → OnlyThis (db s) (db (deliver env msg_id first p payload s))
  unfolding deliver
  deliver-OnlyThis p payload s id k =
      let invited = check_invite_text env payload.text s in
      let files = without_local_file_paths payload.files in
      let s' = process_files env files first.sender_id invited.1 in
      let m = message_of env msg_id first payload p (chat_id env msg_id first p s) invited.0 in
      let same =
        Same-trans s invited.1 s' (check_invite_text-Same env payload.text s)
          (process_files-Same env files first.sender_id invited.1) in
      after_save-OnlyThis m s'
        (save_message msg_id (key p) p.login m.chat_id (env.marshal_message m)
          (pos (unix_micro m.timestamp)) env.now (db s'))
        (save_message-Saved msg_id (key p) p.login m.chat_id (env.marshal_message m)
          (pos (unix_micro m.timestamp)) env.now (db s'))
        id k
      ∙ same_messages (db s) (db s') same.0 id

  if_decrypted-Explained :
      (p : Peer) (s : Session) (r : Result ChunkError Bytes)
      → ((plaintext : Bytes) → r ≡ ok plaintext → Reason)
      → Explained s (if_decrypted env msg_id first p s r)
  if_decrypted-Explained p s (err e) why id = inl refl
  if_decrypted-Explained p s (ok plaintext) why id = elim (Bool-cases (str_eq msg_id id)) [
    | inl e ↦ inr (sym ((eq_iff msg_id id).0 e), why plaintext refl)
    | inr e ↦ inl (
        deliver-OnlyThis p (or_text env msg_id first plaintext (env.unmarshal_payload plaintext)) s
          id e)
  ]

  if_file-Explained :
      (file : Bool) (p : Peer) (envelopes : List Envelope) (sign_key : Bytes) (s : Session)
      → ((plaintext : Bytes)
          → assemble_and_decrypt env.prim envelopes (private_key env msg_id first s) sign_key
            ≡ ok plaintext
          → Reason)
      → Explained s (if_file env msg_id first file p envelopes sign_key s)
  if_file-Explained true p envelopes sign_key s why =
      unchanged s (with_db (delete_failed_message msg_id (db s)) s)
        (λ id. find_message-delete_failed id msg_id (db s))
  if_file-Explained false p envelopes sign_key s why =
      if_decrypted-Explained p s
        (assemble_and_decrypt env.prim envelopes (private_key env msg_id first s) sign_key) why

  with_key-Explained :
      (p : Peer) (envelopes : List Envelope) (s : Session) (r : Result CryptoError Bytes)
      → ((sign_key plaintext : Bytes)
          → r ≡ ok sign_key
          → assemble_and_decrypt env.prim envelopes (private_key env msg_id first s) sign_key
            ≡ ok plaintext
          → Reason)
      → Explained s (with_key env msg_id first p envelopes s r)
  with_key-Explained p envelopes s (err e) why = unchanged s s (λ id. refl)
  with_key-Explained p envelopes s (ok sign_key) why =
      if_file-Explained first.persist p envelopes sign_key s
        (λ plaintext made. why sign_key plaintext refl made)

  with_sender-Explained :
      (envelopes : List Envelope) (s : Session) (o : Option Peer × Session)
      → ((p : Peer) (sign_key plaintext : Bytes)
          → o.0 ≡ some p
          → decode_key env.prim p.signature_key ≡ ok sign_key
          → assemble_and_decrypt env.prim envelopes (private_key env msg_id first o.1) sign_key
            ≡ ok plaintext
          → Reason)
      → Same s o.1
      → Explained s (with_sender env msg_id first envelopes o)
  unfolding with_sender
  with_sender-Explained envelopes s (none, s') why h =
      unchanged s s' (same_messages (db s) (db s') h.0)
  with_sender-Explained envelopes s (some p, s') why h =
      let sign_key = decode_key env.prim p.signature_key in
      after s s' (with_key env msg_id first p envelopes s' sign_key)
        (same_messages (db s) (db s') h.0)
        (with_key-Explained p envelopes s' sign_key
          (λ k plaintext decoded made. why p k plaintext refl decoded made))

module _ (env : Env) (msg_id : String) (first : ChunkRecord) where
  process_envelopes-Explained :
      (got : List Bytes × Session) (o : Option (List Envelope))
      → complete_envelopes env got.0 ≡ o
      → Explained env msg_id first
          (SignedBy env msg_id first got)
          got.1
          (process_envelopes env msg_id first o got.1)
  unfolding process_envelopes
  process_envelopes-Explained got none e =
      unchanged env msg_id first (SignedBy env msg_id first got) got.1 got.1 (λ id. refl)
  process_envelopes-Explained got (some envelopes) e =
      with_sender-Explained env msg_id first (SignedBy env msg_id first got) envelopes got.1
        (find_sender env first.sender_id got.1)
        (λ p sign_key plaintext found decoded made.
          let signed =
            assemble-IsSigned env.prim envelopes
              (private_key env msg_id first (find_sender env first.sender_id got.1).1) sign_key
              plaintext (inl made) in
          (envelopes, p, sign_key, plaintext, e, found, decoded, made, signed.0, signed.1))
        (find_sender-Same env first.sender_id got.1)

  -- Why a message is new after a run on these records.
  abbrev Signed : List ChunkRecord → Session → Type 0
  Signed records s = SignedBy env msg_id first (gathered env msg_id records s)

  collect_taken-Explained :
      (records : List ChunkRecord) (s0 s : Session)
      → s ≡ (try_process_msg msg_id s0).1
      → Explained env msg_id first (Signed records s0) s (collect_taken env msg_id first records s)
  unfolding collect_new
  collect_taken-Explained records s0 s taken =
      elim (Bool-cases (find_message_by_id msg_id (db s))) [
        | inl e ↦ rw e (λ id. inl (find_message-delete_failed id msg_id (db s)))
        | inr e ↦
            let s' = track_records env msg_id records s in
            let got = gather env [] records s' in
            let same =
              ap
                (λ x.
                  SignedBy env msg_id first
                    (gather env [] records (track_records env msg_id records x)))
                taken in
            rw e (
              after env msg_id first (Signed records s0) s got.1
                (process_gathered env msg_id first got)
                (trans (db s) (db s') (db got.1) (track-SameHistory env msg_id records s)
                  (gather-SameHistory env [] records s'))
                (subst
                  (λ Q. Explained env msg_id first Q got.1 (process_gathered env msg_id first got))
                  same (process_envelopes-Explained got (complete_envelopes env got.0) refl)))
      ]

  if_taken-Explained :
      (records : List ChunkRecord) (s : Session) (t : Bool × Session)
      → t ≡ try_process_msg msg_id s
      → Same s t.1
      → Explained env msg_id first (Signed records s) s (if_taken env msg_id first records t).1
  unfolding release_process_msg
  if_taken-Explained records s (false, s') same h =
      unchanged env msg_id first (Signed records s) s s' (same_messages (db s) (db s') h.0)
  if_taken-Explained records s (true, s') same h =
      after env msg_id first (Signed records s) s s' (collect_taken env msg_id first records s')
        (same_messages (db s) (db s') h.0)
        (collect_taken-Explained records s s' (ap (λ (t : Bool × Session). t.1) same))

-- A run of collectAndProcessMessage adds no message to the history but the one it is called for,
-- and that one only if the payloads that it gathers are envelopes, at least one, that decrypt and
-- are all signed with the key of the peer that it finds under the sender's key in the first record.
pub collect-SignedBy :
    (env : Env) (msg_id : String) (first : ChunkRecord) (rest : List ChunkRecord) (s : Session)
    (id : String)
    → find_message_by_id id (db s) ≡ false
    → find_message_by_id id (db (collect_and_process_message env msg_id (first ∷ rest) s).1) ≡ true
    → (id ≡ msg_id) × SignedBy env msg_id first (gathered env msg_id (first ∷ rest) s)
unfolding collect_and_process_message
collect-SignedBy env msg_id first rest s id absent there =
    elim (if_taken-Explained env msg_id first (first ∷ rest) s (try_process_msg msg_id s) refl
      (try_process_msg-Same msg_id s) id) [
        | inl e ↦ elim (false-not-true (sym absent ∙ sym e ∙ there)) [ ]
        | inr x ↦ x
      ]
