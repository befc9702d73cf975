-- ===== src/Messenger/Files/Open/RoundTrip.antt =====
-- A file that SplitAndEncryptFile has cut is opened again.
use mathlib.Core.List.{Permᴰ}
use huginn_messenger.Prelude.{
  ℕ, suc, ◌+◌, ◌<◌, ◌≡◌, ◌≢◌, refl, sym, ap, ◌∙◌, String, true, false, Option, some, List, [], ◌∷◌,
  inr, str_eq, length, get_elem?, arith, eq_iff,
}
use huginn_messenger.Prelude.Int.{ℤ, pos}
use huginn_messenger.Prelude.Result.{ok}
use huginn_messenger.Crypto.{Primitives, IsLawful, IsKeyPair, decode_key, encode_key}
use huginn_messenger.Chunk.{
  Envelope, split_and_encrypt_file, assemble_and_decrypt_file, compute_hash,
}
use huginn_messenger.Chunk.Accepted.{assemble-IsSigned}
use huginn_messenger.Chunk.Assemble.{assemble-split_file}
use huginn_messenger.Store.Rows.{Bytes}
use huginn_messenger.Messenger.Peers.{Peer}
use huginn_messenger.Messenger.Session.{FileMeta, Session, Env, find_sender}
use huginn_messenger.Messenger.Files.Open.{
  opened, slot, unmarshal_slot, read_envelopes, sign_key_of, file_sign_key, checked, decrypt_with,
  decrypt_file, with_envelopes, by_total, if_first, open_file,
}

perm_refl : (xs : List Envelope) → Permᴰ xs xs
perm_refl [] = Permᴰ.nil
perm_refl (x ∷ xs) = Permᴰ.cons refl (perm_refl xs)

decode-encode_key :
    (prim : Primitives)
    → IsLawful prim
    → (key : Bytes) → decode_key prim (encode_key prim key) ≡ ok key
unfolding decode_key encode_key
decode-encode_key prim law key = rw (law.decode-encode key) refl

module _ (env : Env) where
  -- The slots from i on hold the envelopes.
  abbrev pub Holds : List (ℤ × Bytes) → List Envelope → ℕ → Type 0
  Holds chunk_map envelopes i =
      (k : ℕ)
      → k < length envelopes
      → unmarshal_slot env (slot (pos (i + k)) chunk_map) ≡ get_elem? envelopes k

  slot_at :
      (chunk_map : List (ℤ × Bytes)) (i j : ℕ)
      → i ≡ j
      → unmarshal_slot env (slot (pos i) chunk_map) ≡ unmarshal_slot env (slot (pos j) chunk_map)
  slot_at chunk_map i j e = ap (λ n. unmarshal_slot env (slot (pos n) chunk_map)) e

  read_envelopes-Holds :
      (chunk_map : List (ℤ × Bytes)) (envelopes : List Envelope) (i : ℕ)
      → Holds chunk_map envelopes i
      → read_envelopes env chunk_map (length envelopes) i ≡ some envelopes
  unfolding read_envelopes
  read_envelopes-Holds chunk_map [] i h = refl
  read_envelopes-Holds chunk_map (e ∷ es) i h =
      rw
        (
          slot_at chunk_map i (i + 0) (omega arith) ∙ h 0 (omega arith),
          read_envelopes-Holds chunk_map es (suc i) (λ k less.
              slot_at chunk_map (suc i + k) (i + suc k) (omega arith)
              ∙ h (suc k) (omega (arith, less))),
        )
        refl

  file_sign_key-found :
      (sender : String) (p : Peer) (verify_key : Bytes) (s : Session)
      → str_eq sender env.own_key ≡ false
      → (find_sender env sender s).0 ≡ some p
      → decode_key env.prim p.signature_key ≡ ok verify_key
      → (file_sign_key env sender s).0 ≡ some verify_key
  unfolding file_sign_key
  file_sign_key-found sender p verify_key s other found decoded =
      rw other (by_found (find_sender env sender s) found)
    where
      by_found :
          (o : Option Peer × Session) → o.0 ≡ some p → (sign_key_of env o).0 ≡ some verify_key
      by_found (o, s') e = rw (e, decoded) refl

  decrypt_file-key :
      (f : FileMeta) (envelopes : List Envelope) (k : Option Bytes × Session) (verify_key : Bytes)
      → k.0 ≡ some verify_key
      → (decrypt_file env f envelopes k).0
        ≡ decrypt_with env f envelopes verify_key (decode_key env.prim f.decryption_key)
  decrypt_file-key f envelopes (o, s) verify_key h = rw h refl

  opened_by :
      (f : FileMeta) (sender : String) (chunk_map : List (ℤ × Bytes)) (s : Session)
      (plaintext aes_key verify_key : Bytes) (envelopes : List Envelope)
      → envelopes ≢ []
      → f.total_chunks ≡ pos (length envelopes)
      → Holds chunk_map envelopes 0
      → (file_sign_key env sender s).0 ≡ some verify_key
      → decode_key env.prim f.decryption_key ≡ ok aes_key
      → assemble_and_decrypt_file env.prim envelopes aes_key verify_key ≡ ok plaintext
      → compute_hash env.prim plaintext ≡ f.file_hash
      → (open_file env f sender chunk_map s).0 ≡ opened plaintext
  unfolding open_file
  opened_by f sender chunk_map s plaintext aes_key verify_key [] full total holds by keyed made
        hash =
      elim (full refl) [ ]
  opened_by f sender chunk_map s plaintext aes_key verify_key (e ∷ es) full total holds by keyed
        made hash =
      let first : unmarshal_slot env (slot (pos 0) chunk_map) ≡ some e = holds 0 (omega arith) in
      let read = read_envelopes-Holds chunk_map (e ∷ es) 0 holds in
      let test : str_eq (compute_hash env.prim plaintext) f.file_hash ≡ true =
        (eq_iff (compute_hash env.prim plaintext) f.file_hash).1 hash in
      ap (λ o. (if_first env f sender chunk_map s o).0) first
      ∙ ap (λ n. (by_total env f sender chunk_map s n).0) total
      ∙ ap (λ o. (with_envelopes env f sender s o).0) read
      ∙ decrypt_file-key f (e ∷ es) (file_sign_key env sender s) verify_key by
      ∙ ap (λ k. decrypt_with env f (e ∷ es) verify_key k) keyed
      ∙ ap (λ r. checked env f r) made
      ∙ rw test refl

-- A file of another peer is opened with its contents, if its chunks are stored: those that
-- SplitAndEncryptFile cut it into, each under its index. The announcement has their number, the
-- key and the hash; the peer that is found under the sender's key has the verifying key to the
-- signing key.
pub open_file-split :
    (env : Env) (law : IsLawful env.prim) (f : FileMeta) (sender sender_id : String)
    (chunk_map : List (ℤ × Bytes)) (s : Session) (p : Peer)
    (plaintext aes_key sign_key verify_key : Bytes) (nonces : ℕ → Option Bytes)
    (envelopes : List Envelope)
    → split_and_encrypt_file env.prim f.file_id sender_id plaintext aes_key sign_key nonces
      ≡ ok envelopes
    → f.total_chunks ≡ pos (length envelopes)
    → f.decryption_key ≡ encode_key env.prim aes_key
    → f.file_hash ≡ compute_hash env.prim plaintext
    → Holds env chunk_map envelopes 0
    → str_eq sender env.own_key ≡ false
    → (find_sender env sender s).0 ≡ some p
    → decode_key env.prim p.signature_key ≡ ok verify_key
    → IsKeyPair env.prim sign_key verify_key
    → (open_file env f sender chunk_map s).0 ≡ opened plaintext
open_file-split env law f sender sender_id chunk_map s p plaintext aes_key sign_key verify_key
      nonces envelopes cut total key hash holds other found decoded pair =
    let made =
      assemble-split_file env.prim law f.file_id sender_id plaintext aes_key sign_key verify_key
        nonces envelopes envelopes pair cut (perm_refl envelopes) in
    opened_by env f sender chunk_map s plaintext aes_key verify_key envelopes
      (assemble-IsSigned env.prim envelopes aes_key verify_key plaintext (inr made)).0 total holds
      (file_sign_key-found env sender p verify_key s other found decoded)
      (ap (λ k. decode_key env.prim k) key ∙ decode-encode_key env.prim law aes_key) made (sym hash)
