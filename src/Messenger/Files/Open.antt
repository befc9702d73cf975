-- ===== src/Messenger/Files/Open.antt =====
-- The middle of processReceivedFileFromPeer (internal/messenger/messenger.go): the chunks of a file
-- that are all there become its contents.
pub mod Same
pub mod Sound
pub mod RoundTrip
use huginn_messenger.Prelude.{
  ℕ, zero, suc, String, Bool, not, Option, none, some, List, [], ◌∷◌, str_eq, if◌then◌else◌, find,
}
use huginn_messenger.Prelude.Int.{ℤ, pos, negsuc, ◌==ℤ◌}
use huginn_messenger.Prelude.Result.{Result, ok, err}
use huginn_messenger.Crypto.{CryptoError, decode_key}
use huginn_messenger.Chunk.{Envelope, ChunkError, assemble_and_decrypt_file, compute_hash}
use huginn_messenger.Store.Rows.{Bytes}
use huginn_messenger.Messenger.Peers.{Peer}
use huginn_messenger.Messenger.Session.{FileMeta, Session, Env, find_sender}

pub data Opened : Type 0 where
  panics : Opened
  rejected : Opened
  opened : Bytes → Opened

abbrev pub slot : ℤ → List (ℤ × Bytes) → Option (ℤ × Bytes)
slot i chunk_map = find (λ (c : ℤ × Bytes). c.0 ==ℤ i) chunk_map

module _ (env : Env) where
  abbrev pub unmarshal_slot : Option (ℤ × Bytes) → Option Envelope
  unmarshal_slot none = none
  unmarshal_slot (some c) = env.unmarshal_envelope c.1

  abbrev pub cons_both : Option Envelope → Option (List Envelope) → Option (List Envelope)
  cons_both (some e) (some es) = some (e ∷ es)
  cons_both _ _ = none

  -- The envelopes of the indices from i on.
  unfoldable pub read_envelopes : List (ℤ × Bytes) → ℕ → ℕ → Option (List Envelope)
  read_envelopes chunk_map zero i = some []
  read_envelopes chunk_map (suc left) i =
      cons_both (unmarshal_slot (slot (pos i) chunk_map)) (read_envelopes chunk_map left (suc i))

  abbrev pub of_key : Result CryptoError Bytes → Option Bytes
  of_key (err e) = none
  of_key (ok k) = some k

  abbrev pub sign_key_of : Option Peer × Session → Option Bytes × Session
  sign_key_of (none, s) = (none, s)
  sign_key_of (some p, s) = (of_key (decode_key env.prim p.signature_key), s)

  unfoldable pub file_sign_key : String → Session → Option Bytes × Session
  file_sign_key sender s =
      if str_eq sender env.own_key
      then (some env.sign_public, s)
      else sign_key_of (find_sender env sender s)

  -- The comparison with the hash of the message.
  abbrev pub checked : FileMeta → Result ChunkError Bytes → Opened
  checked f (err e) = rejected
  checked f (ok plaintext) =
      if str_eq (compute_hash env.prim plaintext) f.file_hash then opened plaintext else rejected

  abbrev pub decrypt_with : FileMeta → List Envelope → Bytes → Result CryptoError Bytes → Opened
  decrypt_with f envelopes sign_key (err e) = rejected
  decrypt_with f envelopes sign_key (ok aes_key) =
      checked f (assemble_and_decrypt_file env.prim envelopes aes_key sign_key)

  abbrev pub decrypt_file : FileMeta → List Envelope → Option Bytes × Session → Opened × Session
  decrypt_file f envelopes (none, s) = (rejected, s)
  decrypt_file f envelopes (some sign_key, s) =
      (decrypt_with f envelopes sign_key (decode_key env.prim f.decryption_key), s)

  abbrev pub with_envelopes :
      FileMeta → String → Session → Option (List Envelope) → Opened × Session
  with_envelopes f sender s none = (rejected, s)
  with_envelopes f sender s (some envelopes) = decrypt_file f envelopes (file_sign_key sender s)

  -- make([]chunk.Envelope, f.TotalChunks) and the assignment of its first element panic if the
  -- number is not positive.
  abbrev pub by_total : FileMeta → String → List (ℤ × Bytes) → Session → ℤ → Opened × Session
  by_total f sender chunk_map s (pos (suc n)) =
      with_envelopes f sender s (read_envelopes chunk_map (suc n) 0)
  by_total f sender chunk_map s _ = (panics, s)

  abbrev pub if_first :
      FileMeta → String → List (ℤ × Bytes) → Session → Option Envelope → Opened × Session
  if_first f sender chunk_map s none = (rejected, s)
  if_first f sender chunk_map s (some env0) = by_total f sender chunk_map s f.total_chunks

  unfoldable pub open_file : FileMeta → String → List (ℤ × Bytes) → Session → Opened × Session
  open_file f sender chunk_map s =
      if_first f sender chunk_map s (unmarshal_slot (slot (pos 0) chunk_map))
