-- ===== src/Messenger/Outgoing/Queued.antt =====
-- What prepareOutgoing queues is what the recipient can open.
use mathlib.Core.List.{Permᴰ}
use huginn_messenger.Prelude.{◌≡◌, ◌≢◌, refl, sym, ap, subst, ◌∙◌, String, some, List, [], All}
use huginn_messenger.Prelude.Int.{ℤ, pos}
use huginn_messenger.Prelude.Result.{
  Result, ok, err, IfOk, IfOk-at, IfOk-map, IfOk-bind_eq, ok_injective, >>=-eq-ok,
}
use huginn_messenger.Crypto.{IsLawful, IsKeyPair, decode_key}
use huginn_messenger.Chunk.{Envelope, wrap, split_and_encrypt, assemble_and_decrypt}
use huginn_messenger.Chunk.Assemble.{assemble-split}
use huginn_messenger.Chunk.Sound.{wrap-eq-ok}
use huginn_messenger.Store.Sql.{lookup}
use huginn_messenger.Store.Clock.{unix_micro}
use huginn_messenger.Store.Rows.{Bytes, message_pk, Db}
use huginn_messenger.Store.Pending.Queue.{IsQueued, message_row, queue_outgoing-IsQueued}
use huginn_messenger.Store.Track.{default_ttl}
use huginn_messenger.Messenger.Peers.{Peer, key}
use huginn_messenger.Messenger.Session.{Session, Env, db}
use huginn_messenger.Messenger.Outgoing.{
  SendError, Attachment, Fresh, OutgoingMessage, invalid_recipient_key, encrypt_failed,
  queue_failed, prepare_files, payload_of, prepare_for, published, prepare_found, find_recipient,
  prepare_outgoing, Sealed, seal_for, outgoing_of, queue_message,
}

module _ (env : Env) (text : String) (fresh : Fresh) where
  -- All chunks are stored and wait in the queue, and the message is in the history.
  abbrev pub IsWaiting : OutgoingMessage → Db → Type 0
  IsWaiting o d =
      All (IsQueued d) o.chunks
      × (lookup message_pk fresh.msg_id d.messages
          ≡ some (
              message_row fresh.msg_id (key o.peer) env.username o.message.chat_id
                (env.marshal_message o.message) (pos (unix_micro env.now)) env.now))

  prepare_for-IsWaiting :
      (attachments : List Attachment) (ttl : ℤ) (s : Session) (p : Peer)
      → IfOk
          (λ (r : OutgoingMessage × Db).
            IsWaiting r.0 r.1
            × ((sealed : Sealed) × (seal_for env text attachments ttl fresh s p ≡ ok sealed)
                × (r.0 ≡ outgoing_of env text ttl fresh p sealed)))
          (prepare_for env text attachments ttl fresh s p)
  unfolding prepare_for
  prepare_for-IsWaiting attachments ttl s p =
      let Q = λ (r : OutgoingMessage × Db).
        IsWaiting r.0 r.1
        × ((sealed : Sealed) × (seal_for env text attachments ttl fresh s p ≡ ok sealed)
            × (r.0 ≡ outgoing_of env text ttl fresh p sealed)) in
      IfOk-bind_eq Q (seal_for env text attachments ttl fresh s p) _ (λ sealed made.
        let o = outgoing_of env text ttl fresh p sealed in
        IfOk-bind_eq Q (wrap queue_failed (queue_message env fresh o s)) _ (λ d queued.
          let stored =
            queue_outgoing-IsQueued fresh.msg_id (key p) env.username o.message.chat_id
              (env.marshal_message o.message) (pos (unix_micro env.now)) o.chunks env.now (db s) d
              (wrap-eq-ok queue_failed (queue_message env fresh o s) queued) in
          ((stored.1, stored.0), (sealed, made, refl))))

  published-IsWaiting :
      (s : Session) (p : Peer) (ttl : ℤ) (sealed : Sealed)
      (r : Result SendError (OutgoingMessage × Db))
      → IfOk
          (λ (x : OutgoingMessage × Db).
            IsWaiting x.0 x.1 × (x.0 ≡ outgoing_of env text ttl fresh p sealed))
          r
      → IfOk
          (λ o.
            IsWaiting o (db (published env s r).1) × (o ≡ outgoing_of env text ttl fresh p sealed))
          (published env s r).0
  published-IsWaiting s p ttl sealed (err e) h = tt
  published-IsWaiting s p ttl sealed (ok (o, d)) h = h

  -- A message that is accepted for sending consists of what was sealed for its recipient; it is in
  -- the history as it was written, and all its chunks and those of its files are stored and wait
  -- in the queue.
  pub prepare_outgoing-IsWaiting :
      (to : String) (attachments : List Attachment) (ttl : ℤ) (s s' : Session) (p : Peer)
      (sealed : Sealed) (o : OutgoingMessage)
      → find_recipient env to s ≡ (some p, s')
      → seal_for env text attachments (default_ttl ttl) fresh s' p ≡ ok sealed
      → (prepare_outgoing env to text attachments ttl fresh s).0 ≡ ok o
      → (o ≡ outgoing_of env text (default_ttl ttl) fresh p sealed)
        × IsWaiting o (db (prepare_outgoing env to text attachments ttl fresh s).1)
  unfolding prepare_outgoing
  prepare_outgoing-IsWaiting to attachments ttl s s' p sealed o found made h =
      let ttl' = default_ttl ttl in
      let prepared = prepare_for env text attachments ttl' fresh s' p in
      let one : IfOk
          (λ (x : OutgoingMessage × Db).
            IsWaiting x.0 x.1 × (x.0 ≡ outgoing_of env text ttl' fresh p sealed))
          prepared =
        IfOk-map
          (λ (r : OutgoingMessage × Db).
            IsWaiting r.0 r.1
            × ((sealed' : Sealed) × (seal_for env text attachments ttl' fresh s' p ≡ ok sealed')
                × (r.0 ≡ outgoing_of env text ttl' fresh p sealed')))
          (λ (x : OutgoingMessage × Db).
            IsWaiting x.0 x.1 × (x.0 ≡ outgoing_of env text ttl' fresh p sealed))
          prepared
          (λ x k. (
            k.0,
            k.1.2
                ∙ ap (outgoing_of env text ttl' fresh p)
                    (ok_injective k.1.0 sealed (sym k.1.1 ∙ made)),
          ))
          (prepare_for-IsWaiting attachments ttl' s' p) in
      let P = λ (x : Result SendError OutgoingMessage × Session).
        x.0 ≡ ok o → (o ≡ outgoing_of env text ttl' fresh p sealed) × IsWaiting o (db x.1) in
      let here : P (published env s' prepared) = λ e.
        let both =
          IfOk-at
            (λ o.
              IsWaiting o (db (published env s' prepared).1)
              × (o ≡ outgoing_of env text ttl' fresh p sealed))
            (published env s' prepared).0 (published-IsWaiting s' p ttl' sealed prepared one) e in
        (both.1, both.0) in
      subst P (sym (ap (prepare_found env text attachments ttl fresh) found)) here h

-- The owner of the recipient's private key opens what was sealed for it, in whatever order the
-- envelopes arrive.
pub seal_for-opens :
    (env : Env) (law : IsLawful env.prim) (text : String) (attachments : List Attachment) (ttl : ℤ)
    (fresh : Fresh) (s : Session) (p : Peer) (sealed : Sealed) (arrived : List Envelope)
    (my_private my_public verify_key : Bytes)
    → seal_for env text attachments ttl fresh s p ≡ ok sealed
    → env.marshal_payload (payload_of env text sealed.files) ≢ []
    → decode_key env.prim p.encryption_key ≡ ok my_public
    → env.prim.x25519 my_private env.prim.basepoint ≡ some my_public
    → IsKeyPair env.prim env.sign_private verify_key
    → Permᴰ arrived sealed.envelopes
    → assemble_and_decrypt env.prim arrived my_private verify_key
      ≡ ok (env.marshal_payload (payload_of env text sealed.files))
unfolding seal_for
seal_for-opens env law text attachments ttl fresh s p sealed arrived my_private my_public verify_key
      h full mine pub_key pair order =
    let (recipient_key, decoded, h1) =
      >>=-eq-ok (wrap invalid_recipient_key (decode_key env.prim p.encryption_key)) _ h in
    let (files, prepared, h2) = >>=-eq-ok (prepare_files env attachments env.now ttl s) _ h1 in
    let (envelopes, cut, h3) =
      >>=-eq-ok
        (wrap encrypt_failed (
          split_and_encrypt env.prim fresh.msg_id env.own_id p.id
            (env.marshal_payload (payload_of env text files.0)) recipient_key env.sign_private
            fresh.ephemeral fresh.nonces))
        _ h2 in
    let whole =
      ok_injective (record { files = files.0; file_chunks = files.1; envelopes = envelopes }) sealed
        h3 in
    let same = ok_injective my_public recipient_key (
      sym mine ∙ wrap-eq-ok invalid_recipient_key (decode_key env.prim p.encryption_key) decoded) in
    let Goal = λ (x : Sealed).
      env.marshal_payload (payload_of env text x.files) ≢ []
      → Permᴰ arrived x.envelopes
      → assemble_and_decrypt env.prim arrived my_private verify_key
        ≡ ok (env.marshal_payload (payload_of env text x.files)) in
    let here : Goal (record { files = files.0; file_chunks = files.1; envelopes = envelopes }) =
      λ full order.
        assemble-split env.prim law fresh.msg_id env.own_id p.id
          (env.marshal_payload (payload_of env text files.0)) my_private recipient_key
          env.sign_private verify_key fresh.ephemeral fresh.nonces envelopes arrived pair
          (pub_key ∙ ap some same) full
          (wrap-eq-ok encrypt_failed
            (split_and_encrypt env.prim fresh.msg_id env.own_id p.id
              (env.marshal_payload (payload_of env text files.0)) recipient_key env.sign_private
              fresh.ephemeral fresh.nonces)
            cut)
          order in
    subst Goal whole here full order
