-- ===== src/Messenger/EndToEnd.antt =====
-- From prepareOutgoing on one device (internal/messenger/outgoing.go) to the history of another
-- (collectAndProcessMessage, internal/messenger/messages.go).
use mathlib.Core.List.{Permᴰ}
use huginn_messenger.Prelude.{
  ◌≡◌, ◌≢◌, sym, ap, subst, String, true, false, none, some, List, ◌∷◌, ◌++◌, [], All, length,
}
use huginn_messenger.Prelude.Int.{ℤ, pos, leb_ℤ}
use huginn_messenger.Prelude.Result.{ok}
use huginn_messenger.Prelude.Strings.{strip_prefix}
use huginn_messenger.Crypto.{IsLawful, IsKeyPair, decode_key}
use huginn_messenger.Chunk.{Envelope}
use huginn_messenger.Store.Rows.{Bytes}
use huginn_messenger.Store.Pending.Queue.{IsQueued}
use huginn_messenger.Store.Messages.{find_message_by_id}
use huginn_messenger.Store.Track.{default_ttl}
use huginn_messenger.Messenger.Peers.{Peer, key}
use huginn_messenger.Messenger.Session.{Session, Env, db, member}
use huginn_messenger.Messenger.Outgoing.{
  Attachment, Fresh, OutgoingMessage, pending_envelopes, payload_of, prepare_outgoing, Sealed,
  seal_for, find_recipient,
}
use huginn_messenger.Messenger.Outgoing.Queued.{prepare_outgoing-IsWaiting, seal_for-opens}
use huginn_messenger.Messenger.Inbox.Collect.{collect_and_process_message}
use huginn_messenger.Messenger.Inbox.Collect.Deliver.{invite_prefix, is_ours}
use huginn_messenger.Messenger.Inbox.Arrival.{
  Arrived, entries, envelopes_of, IsDistinct, IsThere, IsKnown,
}
use huginn_messenger.Messenger.Inbox.Delivered.{IsDelivered, collect-IsDelivered}

-- The receiver is ready for the records: they are of a message for it that it does not have, the
-- payloads of all envelopes are in its store, and the sender is known.
pub record IsReady (bob : Env) (msg_id : String) (p : Peer) (envelopes : List Envelope)
    (a : Arrived) (as' : List Arrived) (s : Session) : Type 0 where
  pub message : a.entry.persist ≡ false
  pub ours : is_ours bob msg_id a.entry ≡ true
  pub known : IsKnown bob a.entry.sender_id p s.book.peers_map
  pub new : find_message_by_id msg_id (db s) ≡ false
  pub idle : member msg_id s.processing ≡ false
  pub distinct : IsDistinct [] (a ∷ as')
  pub there : All (IsThere bob (db s)) (a ∷ as')
  pub complete : Permᴰ (envelopes_of (a ∷ as')) envelopes
  pub enough : leb_ℤ a.envelope.total_chunks (pos (length (envelopes_of (a ∷ as')))) ≡ true

-- A message that alice seals and accepts for sending is queued as the payloads of its envelopes, and
-- arrives: when bob, whose public key is that of the recipient, has the payloads of all its
-- envelopes in his store, in whatever order, one run of his delivers it, with alice's text and
-- files, and leaves nothing to retry. Both use the same libraries, bob's decoder of payloads undoes
-- alice's encoder, which does not give no bytes, and the text is not an invitation.
pub message_arrives :
    (alice other : Env) (law : IsLawful alice.prim) (to text : String)
    (attachments : List Attachment) (ttl : ℤ) (fresh : Fresh) (s s1 s2 : Session) (q : Peer)
    (sealed : Sealed) (o : OutgoingMessage) (p : Peer) (bob_public verify_key : Bytes) (a : Arrived)
    (as' : List Arrived)
    → find_recipient alice to s ≡ (some q, s1)
    → seal_for alice text attachments (default_ttl ttl) fresh s1 q ≡ ok sealed
    → (prepare_outgoing alice to text attachments ttl fresh s).0 ≡ ok o
    → alice.marshal_payload (payload_of alice text sealed.files) ≢ []
    → other.unmarshal_payload (alice.marshal_payload (payload_of alice text sealed.files))
      ≡ some (payload_of alice text sealed.files)
    → strip_prefix invite_prefix text ≡ none
    → decode_key alice.prim q.encryption_key ≡ ok bob_public
    → alice.prim.x25519 other.enc_private alice.prim.basepoint ≡ some bob_public
    → IsKeyPair alice.prim alice.sign_private verify_key
    → decode_key alice.prim p.signature_key ≡ ok verify_key
    → IsReady (record other { prim = alice.prim }) fresh.msg_id p sealed.envelopes a as' s2
    → (o.chunks
        ≡ sealed.file_chunks
          ++ pending_envelopes alice sealed.envelopes (key q) alice.now (default_ttl ttl) false)
      × All (IsQueued (db (prepare_outgoing alice to text attachments ttl fresh s).1)) o.chunks
      × IsDelivered
          (record other { prim = alice.prim })
          fresh.msg_id
          a.entry
          p
          (payload_of alice text o.message.files)
          (db
            (collect_and_process_message
              (record other { prim = alice.prim })
              fresh.msg_id
              (entries (a ∷ as'))
              s2).1)
message_arrives alice other law to text attachments ttl fresh s s1 s2 q sealed o p bob_public
      verify_key a as' found made h full decodes plain recipient mine pair signer ready =
    let bob = record other { prim = alice.prim } in
    let (shape, waiting) =
      prepare_outgoing-IsWaiting alice text fresh to attachments ttl s s1 q sealed o found made h in
    let payload = payload_of alice text sealed.files in
    let opened =
      seal_for-opens alice law text attachments (default_ttl ttl) fresh s1 q sealed
        (envelopes_of (a ∷ as')) other.enc_private bob_public verify_key made full recipient mine
        pair ready.complete in
    let delivered =
      collect-IsDelivered bob fresh.msg_id p payload verify_key (alice.marshal_payload payload) a
        as' s2 ready.message ready.ours signer opened decodes plain ready.known ready.new ready.idle
        ready.distinct ready.there ready.enough in
    (
      ap (λ (x : OutgoingMessage). x.chunks) shape,
      waiting.0,
      subst
          (λ (x : OutgoingMessage).
            IsDelivered bob fresh.msg_id a.entry p (payload_of alice text x.message.files)
              (db (collect_and_process_message bob fresh.msg_id (entries (a ∷ as')) s2).1))
          (sym shape) delivered.1,
    )
