-- ===== src/Messenger/Files/Open/Sound.antt =====
-- What the file that is opened is, and when the code panics.
use huginn_messenger.Prelude.{
  ℕ, suc, ◌≡◌, ◌≢◌, String, true, ◌∷◌, length, Option, none, some, List, [], All, ◌⊎◌,
}
use huginn_messenger.Prelude.Int.{ℤ, pos, le_zero}
use huginn_messenger.Prelude.Result.{Result, ok}
use huginn_messenger.Crypto.{decode_key}
use huginn_messenger.Chunk.{Envelope, assemble_and_decrypt_file, compute_hash}
use huginn_messenger.Chunk.Accepted.{IsSigned}
use huginn_messenger.Store.Rows.{Bytes}
use huginn_messenger.Messenger.Peers.{Peer}
use huginn_messenger.Messenger.Session.{FileMeta, Session, Env, find_sender}
use huginn_messenger.Messenger.Files.Open.{Opened, panics, rejected, opened, slot, unmarshal_slot}

-- The key is this device's for its own files, else that of the peer that is found under the
-- sender's key.
abbrev pub IsSenderKey : Env → String → Session → Bytes → Type 0
IsSenderKey env sender s sign_key =
    ((sender ≡ env.own_key) × (sign_key ≡ env.sign_public))
    ⊎ ((sender ≢ env.own_key)
        × ((p : Peer) × ((find_sender env sender s).0 ≡ some p)
            × (decode_key env.prim p.signature_key ≡ ok sign_key)))

-- The chunks of the indices from i on are these envelopes.
abbrev pub AreStored : Env → List (ℤ × Bytes) → ℕ → List Envelope → Type 0
AreStored env chunk_map i [] = Unit
AreStored env chunk_map i (e ∷ es) =
    (unmarshal_slot env (slot (pos i) chunk_map) ≡ some e) × AreStored env chunk_map (suc i) es

-- A file that is opened has the announced hash, and is what the announced number of stored chunks
-- from index 0 on, all signed by the sender, decrypt to with the announced key. A panic needs a
-- number of chunks that is not positive.
abbrev pub IsFair : Env → FileMeta → String → List (ℤ × Bytes) → Session → Opened → Type 0
IsFair env f sender chunk_map s panics = le_zero f.total_chunks ≡ true
IsFair env f sender chunk_map s rejected = Unit
IsFair env f sender chunk_map s (opened body) =
    (compute_hash env.prim body ≡ f.file_hash)
    × ((sign_key aes_key : Bytes) × (envelopes : List Envelope) × IsSenderKey env sender s sign_key
        × (pos (length envelopes) ≡ f.total_chunks)
        × AreStored env chunk_map 0 envelopes
        × (envelopes ≢ [])
        × All (IsSigned env.prim sign_key) envelopes
        × (decode_key env.prim f.decryption_key ≡ ok aes_key)
        × (assemble_and_decrypt_file env.prim envelopes aes_key sign_key ≡ ok body))

module _ (env : Env) (f : FileMeta) (sender : String) (chunk_map : List (ℤ × Bytes))
    (s : Session) where
  -- If there is a key, it is the sender's.
  abbrev KeyOf : Option Bytes → Type 0
  KeyOf none = Unit
  KeyOf (some sign_key) = IsSenderKey env sender s sign_key
