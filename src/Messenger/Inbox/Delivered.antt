-- ===== src/Messenger/Inbox/Delivered.antt =====
-- A message whose payloads are all in the store is delivered by one run of
-- collectAndProcessMessage.
use huginn_messenger.Prelude.{
  ◌≡◌, refl, sym, ap, subst, ◌∙◌, String, true, false, none, some, List, [], ◌∷◌, ◌++◌, All, arith,
  eq_refl, length,
}
use huginn_messenger.Prelude.Int.{ℤ, pos, leb_ℤ}
use huginn_messenger.Prelude.Result.{ok}
use huginn_messenger.Prelude.Strings.{strip_prefix}
use huginn_messenger.Crypto.{decode_key}
use huginn_messenger.Chunk.{Envelope, assemble_and_decrypt}
use huginn_messenger.Store.Sql.{lookup, insert}
use huginn_messenger.Store.Clock.{unix_micro}
use huginn_messenger.Store.Rows.{Bytes, Message, message_pk, Db}
use huginn_messenger.Store.Messages.{find_message_by_id, save_message}
use huginn_messenger.Store.Pending.Queue.{message_row}
use huginn_messenger.Store.Track.{is_chunk_failed, delete_failed_message}
use huginn_messenger.Store.Track.Retry.{is_failed-delete_message}
use huginn_messenger.Store.Sql.Laws.{lookup-append_one, has-eq-lookup}
use huginn_messenger.Messenger.Peers.{Peer, key}
use huginn_messenger.Messenger.Session.{
  Session, Env, db, ChunkRecord, MessagePayload, member, try_process_msg, release_process_msg,
}
use huginn_messenger.Messenger.Inbox.Collect.Deliver.{
  invite_prefix, check_invite_text, process_files, after_save, deliver, if_decrypted, if_file,
  with_key, with_sender, process_envelopes, message_of, chat_id, without_local_file_paths,
  private_key, or_text, is_ours,
}
use huginn_messenger.Messenger.Inbox.Collect.{
  track_records, process_gathered, collect_new, collect_and_process_message,
}
use huginn_messenger.Messenger.Inbox.Arrival.{
  Arrived, entries, envelopes_of, IsDistinct, IsThere, IsKnown, gather-there, track-IsThere,
  complete-there, peers_map-track, find_sender-known, find_message-same, find_message-track,
}
use huginn_messenger.Messenger.Inbox.Collect.Kept.{process_files-Same}

module _ (env : Env) where
  module _ (msg_id : String) (first : ChunkRecord) (p : Peer) (payload : MessagePayload) where
    -- The message as it is shown to the user.
    abbrev pub delivered_row : Message
    delivered_row =
        let m = message_of env msg_id first payload p (key p) payload.text in
        message_row msg_id (key p) p.login (key p) (env.marshal_message m)
          (pos (unix_micro m.timestamp)) env.now

    -- The message is in the history, and nothing of it waits for a retry.
    abbrev pub IsDelivered : Db → Type 0
    IsDelivered d =
        (lookup message_pk msg_id d.messages ≡ some delivered_row)
        × ((i : ℤ) → is_chunk_failed msg_id i d ≡ false)

    messages-delete_failed : (d : Db) → (delete_failed_message msg_id d).messages ≡ d.messages
    unfolding delete_failed_message
    messages-delete_failed d = refl

    appended : Db → Db
    appended d = record d { messages = d.messages ++ delivered_row ∷ [] }

    lookup-appended :
        (d : Db)
        → find_message_by_id msg_id d ≡ false
        → lookup message_pk msg_id (d.messages ++ delivered_row ∷ []) ≡ some delivered_row
    unfolding find_message_by_id
    lookup-appended d h = ground (
      arith,
      lookup-append_one message_pk msg_id delivered_row d.messages,
      has-eq-lookup message_pk msg_id d.messages,
      eq_refl msg_id,
    )

    appended-IsDelivered :
        (d : Db)
        → find_message_by_id msg_id d ≡ false
        → IsDelivered (delete_failed_message msg_id (appended d))
    unfolding appended
    appended-IsDelivered d h = (
      rw (messages-delete_failed (appended d)) (lookup-appended d h),
      λ i. ground (arith, is_failed-delete_message msg_id msg_id i (appended d), eq_refl msg_id),
    )

    save-appends :
        (d : Db)
        → find_message_by_id msg_id d ≡ false
        → (let m = message_of env msg_id first payload p (key p) payload.text in
            save_message msg_id
              (key p)
              p.login
              (key p)
              (env.marshal_message m)
              (pos (unix_micro m.timestamp))
              env.now
              d)
          ≡ ok (appended d)
    unfolding save_message insert find_message_by_id appended
    save-appends d h = rw h refl

    saved-IsDelivered :
        (s : Session)
        → find_message_by_id msg_id (db s) ≡ false
        → IsDelivered (
            db (
              let m = message_of env msg_id first payload p (key p) payload.text in
              after_save env msg_id first m s (
                save_message msg_id
                  (key p)
                  p.login
                  (key p)
                  (env.marshal_message m)
                  (pos (unix_micro m.timestamp))
                  env.now
                  (db s))))
    saved-IsDelivered s h =
        subst
          (λ r. IsDelivered (
            db (
              after_save env msg_id first
                (message_of env msg_id first payload p (key p) payload.text) s r)))
          (sym (save-appends (db s) h)) (appended-IsDelivered (db s) h)

    check_invite_text-plain :
        (s : Session)
        → strip_prefix invite_prefix payload.text ≡ none
        → check_invite_text env payload.text s ≡ (payload.text, s)
    unfolding check_invite_text
    check_invite_text-plain s h = rw h refl

    chat_id-ours :
        (s : Session) → is_ours env msg_id first ≡ true → chat_id env msg_id first p s ≡ key p
    unfolding chat_id
    chat_id-ours s h = rw h refl

    deliver-IsDelivered :
        (s : Session)
        → is_ours env msg_id first ≡ true
        → strip_prefix invite_prefix payload.text ≡ none
        → find_message_by_id msg_id (db s) ≡ false
        → IsDelivered (db (deliver env msg_id first p payload s))
    unfolding deliver
    deliver-IsDelivered s ours text new =
        let files = without_local_file_paths payload.files in
        let s' = process_files env files first.sender_id s in
        rw (check_invite_text-plain s text, chat_id-ours s ours)
          (saved-IsDelivered s' (
            find_message-same env msg_id (db s) (db s')
              (process_files-Same env files first.sender_id s).0
            ∙ new))

  module _ (msg_id : String) (first : ChunkRecord) (p : Peer) (payload : MessagePayload)
      (sign_key plaintext : Bytes) (envelopes : List Envelope) (message : first.persist ≡ false)
      (ours : is_ours env msg_id first ≡ true)
      (decoded : decode_key env.prim p.signature_key ≡ ok sign_key)
      (decrypted : assemble_and_decrypt env.prim envelopes env.enc_private sign_key ≡ ok plaintext)
      (read : env.unmarshal_payload plaintext ≡ some payload)
      (text : strip_prefix invite_prefix payload.text ≡ none) where
    private_key-ours : (s : Session) → private_key env msg_id first s ≡ env.enc_private
    unfolding private_key
    private_key-ours s = rw ours refl

    -- From the envelopes on.
    process_envelopes-IsDelivered :
        (s : Session)
        → IsKnown env first.sender_id p s.book.peers_map
        → find_message_by_id msg_id (db s) ≡ false
        → IsDelivered msg_id first p payload
            (db (process_envelopes env msg_id first (some envelopes) s))
    unfolding process_envelopes with_sender
    process_envelopes-IsDelivered s known new =
        let Goal = λ (s' : Session). IsDelivered msg_id first p payload (db s') in
        let delivered = deliver-IsDelivered msg_id first p payload s ours text new in
        subst (λ found. Goal (with_sender env msg_id first envelopes found))
          (sym (find_sender-known env first.sender_id p s known))
          (subst (λ k. Goal (with_key env msg_id first p envelopes s k)) (sym decoded)
            (subst (λ b. Goal (if_file env msg_id first b p envelopes sign_key s)) (sym message)
              (subst
                (λ private. Goal (
                  if_decrypted env msg_id first p s
                    (assemble_and_decrypt env.prim envelopes private sign_key)))
                (sym (private_key-ours s))
                (subst (λ r. Goal (if_decrypted env msg_id first p s r)) (sym decrypted)
                  (subst
                    (λ o.
                      Goal (deliver env msg_id first p (or_text env msg_id first plaintext o) s))
                    (sym read) delivered)))))

    module _ (a : Arrived) (as' : List Arrived) (first_of : a.entry ≡ first)
        (all : envelopes_of (a ∷ as') ≡ envelopes) where
      collect_new-IsDelivered :
          (s : Session)
          → IsKnown env first.sender_id p s.book.peers_map
          → find_message_by_id msg_id (db s) ≡ false
          → IsDistinct [] (a ∷ as')
          → All (IsThere env (db s)) (a ∷ as')
          → leb_ℤ a.envelope.total_chunks (pos (length (envelopes_of (a ∷ as')))) ≡ true
          → IsDelivered msg_id first p payload
              (db (collect_new env msg_id first (entries (a ∷ as')) s))
      unfolding collect_new
      collect_new-IsDelivered s known new distinct there enough =
          let Goal = λ (s' : Session). IsDelivered msg_id first p payload (db s') in
          let records = entries (a ∷ as') in
          let s' = track_records env msg_id records s in
          let there' = track-IsThere env msg_id records (a ∷ as') s there in
          subst (λ got. Goal (process_gathered env msg_id first got))
            (sym (gather-there env [] (a ∷ as') s' distinct there'))
            (subst (λ o. Goal (process_envelopes env msg_id first o s'))
              (sym (complete-there env a as' (db s') there' enough ∙ ap some all))
              (process_envelopes-IsDelivered s'
                (subst (λ entries. IsKnown env first.sender_id p entries)
                  (sym (peers_map-track env msg_id records s)) known)
                (find_message-track env msg_id msg_id records s ∙ new)))

-- A message for this device, which is not an invitation and not yet in the history, is delivered
-- by one run of collectAndProcessMessage whose records have distinct indices, payloads in the store
-- with the announced hashes, and enough envelopes, that assemble with the sender's key; the sender
-- is known. The history then has the message as it was sent, under the sender's name and chat, and
-- no retry row of it is left; the run reports that the message is tracked.
pub collect-IsDelivered :
    (env : Env) (msg_id : String) (p : Peer) (payload : MessagePayload) (sign_key plaintext : Bytes)
    (a : Arrived) (as' : List Arrived) (s : Session)
    → a.entry.persist ≡ false
    → is_ours env msg_id a.entry ≡ true
    → decode_key env.prim p.signature_key ≡ ok sign_key
    → assemble_and_decrypt env.prim (envelopes_of (a ∷ as')) env.enc_private sign_key ≡ ok plaintext
    → env.unmarshal_payload plaintext ≡ some payload
    → strip_prefix invite_prefix payload.text ≡ none
    → IsKnown env a.entry.sender_id p s.book.peers_map
    → find_message_by_id msg_id (db s) ≡ false
    → member msg_id s.processing ≡ false
    → IsDistinct [] (a ∷ as')
    → All (IsThere env (db s)) (a ∷ as')
    → leb_ℤ a.envelope.total_chunks (pos (length (envelopes_of (a ∷ as')))) ≡ true
    → ((collect_and_process_message env msg_id (entries (a ∷ as')) s).0 ≡ true)
      × IsDelivered env msg_id a.entry p payload
          (db (collect_and_process_message env msg_id (entries (a ∷ as')) s).1)
unfolding collect_and_process_message try_process_msg release_process_msg
collect-IsDelivered env msg_id p payload sign_key plaintext a as' s message ours decoded decrypted
      read text known new idle distinct there enough =
    let busy = record s { processing = msg_id ∷ s.processing } in
    rw (idle, new)
      (
        refl,
        collect_new-IsDelivered env msg_id a.entry p payload sign_key plaintext
            (envelopes_of (a ∷ as')) message ours decoded decrypted read text a as' refl refl busy
            known new distinct there enough,
      )
