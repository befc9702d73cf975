-- ===== src/Messenger/Inbox/Collect/Others.antt =====
-- A run of collectAndProcessMessage keeps the payloads of other messages, even for a file's records.
use huginn_messenger.Prelude.{
  ◌≡◌, String, Bool, true, false, Option, none, some, List, [], ◌∷◌, arith, str_eq, Bool-cases, inl,
  inr,
}
use huginn_messenger.Prelude.Int.{ℤ}
use huginn_messenger.Prelude.Result.{Result, ok, err}
use huginn_messenger.Crypto.{CryptoError, decode_key}
use huginn_messenger.Chunk.{Envelope, assemble_and_decrypt}
use huginn_messenger.Store.Rows.{Bytes, Db}
use huginn_messenger.Store.Messages.{find_message_by_id}
use huginn_messenger.Store.Track.{delete_failed_message}
use huginn_messenger.Store.Track.Retry.{is_failed-delete_message}
use huginn_messenger.Messenger.Peers.{Peer}
use huginn_messenger.Messenger.Session.{
  Session, Env, db, ChunkRecord, find_sender, try_process_msg, release_process_msg,
}
use huginn_messenger.Messenger.Session.Same.{Same, find_sender-Same, try_process_msg-Same}
use huginn_messenger.Messenger.Inbox.Collect.{
  track_records, gather, complete_envelopes, collect_new, collect_taken, if_taken,
  collect_and_process_message,
}
use huginn_messenger.Messenger.Inbox.Collect.Deliver.{
  if_file, with_key, with_sender, process_envelopes, private_key,
}
use huginn_messenger.Messenger.Inbox.Collect.Kept.{
  Kept, Same-Keeps, find_message-delete_failed, if_decrypted-Keeps,
}
use huginn_messenger.Messenger.Inbox.Collect.Tracked.{track-Keeps, gather-Keeps}

module _ (env : Env) (msg_id id : String) (i : ℤ) (other : str_eq msg_id id ≡ false) where
  delete_failed-Others : (d : Db) → Kept id i d → Kept id i (delete_failed_message msg_id d)
  unfolding Kept
  delete_failed-Others d k = ground (
    arith,
    find_message-delete_failed id msg_id d,
    is_failed-delete_message id msg_id i d,
    other,
    k,
  )

  module _ (first : ChunkRecord) where
    if_file-Others :
        (file : Bool) (p : Peer) (envelopes : List Envelope) (sign_key : Bytes) (s : Session)
        → Kept id i (db s)
        → Kept id i (db (if_file env msg_id first file p envelopes sign_key s))
    if_file-Others true p envelopes sign_key s k = delete_failed-Others (db s) k
    if_file-Others false p envelopes sign_key s k =
        (if_decrypted-Keeps env msg_id first p s
            (assemble_and_decrypt env.prim envelopes (private_key env msg_id first s) sign_key)).0
          id i k

    with_key-Others :
        (p : Peer) (envelopes : List Envelope) (s : Session) (r : Result CryptoError Bytes)
        → Kept id i (db s)
        → Kept id i (db (with_key env msg_id first p envelopes s r))
    with_key-Others p envelopes s (err e) k = k
    with_key-Others p envelopes s (ok sign_key) k =
        if_file-Others first.persist p envelopes sign_key s k

    with_sender-Others :
        (envelopes : List Envelope) (s : Session) (o : Option Peer × Session)
        → Same s o.1
        → Kept id i (db s)
        → Kept id i (db (with_sender env msg_id first envelopes o))
    unfolding with_sender
    with_sender-Others envelopes s (none, s') h k = (Same-Keeps s s' h).0 id i k
    with_sender-Others envelopes s (some p, s') h k =
        with_key-Others p envelopes s' (decode_key env.prim p.signature_key)
          ((Same-Keeps s s' h).0 id i k)

    process_envelopes-Others :
        (o : Option (List Envelope)) (s : Session)
        → Kept id i (db s)
        → Kept id i (db (process_envelopes env msg_id first o s))
    unfolding process_envelopes
    process_envelopes-Others none s k = k
    process_envelopes-Others (some envelopes) s k =
        with_sender-Others envelopes s (find_sender env first.sender_id s)
          (find_sender-Same env first.sender_id s) k

    collect_taken-Others :
        (records : List ChunkRecord) (s : Session)
        → Kept id i (db s)
        → Kept id i (db (collect_taken env msg_id first records s))
    unfolding collect_new
    collect_taken-Others records s k = elim (Bool-cases (find_message_by_id msg_id (db s))) [
      | inl e ↦ rw e (delete_failed-Others (db s) k)
      | inr e ↦
          let s' = track_records env msg_id records s in
          let got = gather env [] records s' in
          rw e (
            process_envelopes-Others (complete_envelopes env got.0) got.1 (
              (gather-Keeps env [] records s').0 id i
                ((track-Keeps env msg_id records s).0 id i k)))
    ]

    if_taken-Others :
        (records : List ChunkRecord) (s : Session) (t : Bool × Session)
        → Same s t.1
        → Kept id i (db s)
        → Kept id i (db (if_taken env msg_id first records t).1)
    unfolding release_process_msg
    if_taken-Others records s (false, s') h k = (Same-Keeps s s' h).0 id i k
    if_taken-Others records s (true, s') h k =
        collect_taken-Others records s' ((Same-Keeps s s' h).0 id i k)

  pub collect-Others :
      (records : List ChunkRecord) (s : Session)
      → Kept id i (db s)
      → Kept id i (db (collect_and_process_message env msg_id records s).1)
  unfolding collect_and_process_message
  collect-Others [] s k = k
  collect-Others (first ∷ rest) s k =
      if_taken-Others first (first ∷ rest) s (try_process_msg msg_id s)
        (try_process_msg-Same msg_id s) k
