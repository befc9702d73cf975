-- ===== src/Chunk.antt =====
-- internal/chunk/chunk.go: a payload as signed and sealed envelopes, and back.
mod Data
pub mod Slices
pub mod Order
pub mod Sound
pub mod Assemble
pub mod Accepted
pub use Data.*
use huginn_messenger.Prelude.{
  ℕ, zero, suc, ◌+◌, ◌-◌, ◌*◌, ◌/◌, String, Bool, true, false, not, Option, none, some, List, [],
  ◌∷◌, ◌++◌, map, str_eq, if◌then◌else◌, length, take, drop, max, min,
}
use huginn_messenger.Prelude.Int.{ℤ, pos, leb_ℤ}
use huginn_messenger.Prelude.Sort.{sort_by}
use huginn_messenger.Prelude.Result.{Result, ok, err, ◌>>=◌, ◌>>◌, fail_if}
use huginn_messenger.Store.Rows.{Bytes}
use huginn_messenger.Crypto.{
  Primitives, CryptoError, generate_encryption_key, derive_shared_key, encrypt_aes, decrypt_aes,
  encode_key, decode_key,
}

module _ (prim : Primitives) where
  open prim use {
    encode_to_string, decode_string, sign, verify, sum256, marshal_map, format_int, format_hex,
  }

  abbrev pub optional_field : String → String → List (String × String)
  optional_field name value = if str_eq value "" then [] else (name, value) ∷ []

  -- The map that is signed, as the list of its entries.
  unfoldable pub envelope_bytes : Envelope → Bytes
  envelope_bytes env = marshal_map (
      ("message_id", env.message_id)
        ∷ ("sender_id", env.sender_id)
        ∷ ("total_chunks", format_int env.total_chunks)
        ∷ ("chunk_index", format_int env.chunk_index)
        ∷ ("ciphertext", env.ciphertext)
        ∷ ("nonce", env.nonce)
        ∷ optional_field "recipient_id" env.recipient_id
      ++ optional_field "ephemeral_key" env.ephemeral_key)

  -- What the two splitting functions share: the fields of their envelopes, the keys, the plaintext
  -- and the random nonces. A file has no recipient and no ephemeral key.
  pub record Job : Type 0 where
    pub message_id : String
    pub sender_id : String
    pub recipient_id : String
    pub ephemeral_key : String
    pub total : ℕ
    pub plaintext : Bytes
    pub aes_key : Bytes
    pub sign_key : Bytes
    pub nonces : ℕ → Option Bytes

  abbrev pub unsigned_envelope : Job → ℕ → Bytes × Bytes → Envelope
  unsigned_envelope job i (ciphertext, nonce) = record {
    message_id = job.message_id;
    sender_id = job.sender_id;
    recipient_id = job.recipient_id;
    total_chunks = pos job.total;
    chunk_index = pos i;
    ciphertext = encode_to_string ciphertext;
    nonce = encode_key prim nonce;
    ephemeral_key = job.ephemeral_key;
    signature = "";
  }

  abbrev pub sign_envelope : Bytes → Envelope → Envelope
  sign_envelope sign_key env = record env {
    signature = encode_key prim (sign sign_key (envelope_bytes env));
  }

  -- The body of the loop.
  unfoldable pub make_envelope : Job → ℕ → Result ChunkError Envelope
  make_envelope job i = do
    sealed ←
        wrap (encrypt_chunk i)
          (encrypt_aes prim (chunk_bytes job.plaintext i) job.aes_key (job.nonces i))
    ok (sign_envelope job.sign_key (unsigned_envelope job i sealed))

  -- The rounds from i on, with as many left as the first argument.
  unfoldable pub make_envelopes : Job → ℕ → ℕ → Result ChunkError (List Envelope)
  make_envelopes job zero i = ok []
  make_envelopes job (suc left) i = do
    env ← make_envelope job i
    envs ← make_envelopes job left (suc i)
    ok (env ∷ envs)

  abbrev pub message_job :
      String → String → String → Bytes → Bytes → Bytes → Bytes → (ℕ → Option Bytes) → Job
  message_job message_id sender_id recipient_id plaintext ephem_pub aes_key sign_key nonces =
      record {
        message_id = message_id;
        sender_id = sender_id;
        recipient_id = recipient_id;
        ephemeral_key = encode_key prim ephem_pub;
        total = chunk_count plaintext;
        plaintext = plaintext;
        aes_key = aes_key;
        sign_key = sign_key;
        nonces = nonces;
      }

  -- `random` is for the ephemeral key, `nonces i` for the nonce of chunk i.
  unfoldable pub split_and_encrypt :
      String
      → String
      → String
      → Bytes
      → Bytes
      → Bytes
      → Option Bytes
      → (ℕ → Option Bytes)
      → Result ChunkError (List Envelope)
  split_and_encrypt message_id sender_id recipient_id plaintext recipient_pub_key sign_key random
        nonces =
      do
        ephemeral ← wrap generate_ephemeral_key (generate_encryption_key prim random)
        aes_key ← wrap derive_key (derive_shared_key prim ephemeral.0 recipient_pub_key)
        make_envelopes
            (message_job message_id sender_id recipient_id plaintext ephemeral.1 aes_key sign_key
              nonces)
            (chunk_count plaintext) 0

  abbrev pub file_job : String → String → Bytes → Bytes → Bytes → (ℕ → Option Bytes) → Job
  file_job file_id sender_id plaintext aes_key sign_key nonces = record {
    message_id = file_id;
    sender_id = sender_id;
    recipient_id = "";
    ephemeral_key = "";
    total = max 1 (chunk_count plaintext);
    plaintext = plaintext;
    aes_key = aes_key;
    sign_key = sign_key;
    nonces = nonces;
  }

  unfoldable pub split_and_encrypt_file :
      String
      → String
      → Bytes
      → Bytes
      → Bytes
      → (ℕ → Option Bytes)
      → Result ChunkError (List Envelope)
  split_and_encrypt_file file_id sender_id plaintext aes_key sign_key nonces =
      make_envelopes (file_job file_id sender_id plaintext aes_key sign_key nonces)
        (max 1 (chunk_count plaintext)) 0

  -- One round of the first loop.
  unfoldable pub check_signature : Bytes → Envelope → Result ChunkError (Unit {0})
  check_signature verify_key env = do
    sig ← wrap decode_sig (decode_key prim env.signature)
    fail_if (not (verify verify_key (envelope_bytes env) sig)) invalid_signature

  unfoldable pub check_signatures : Bytes → List Envelope → Result ChunkError (Unit {0})
  check_signatures verify_key [] = ok tt
  check_signatures verify_key (env ∷ envs) =
      check_signature verify_key env >> check_signatures verify_key envs

  abbrev pub or_bad_ciphertext : Option Bytes → Result ChunkError Bytes
  or_bad_ciphertext none = err decode_ciphertext
  or_bad_ciphertext (some b) = ok b

  -- One round of the second loop.
  unfoldable pub open_envelope : Bytes → Envelope → Result ChunkError ChunkData
  open_envelope aes_key env = do
    nonce ← wrap decode_nonce (decode_key prim env.nonce)
    ciphertext ← or_bad_ciphertext (decode_string env.ciphertext)
    plaintext ← wrap (decrypt_chunk env.chunk_index) (decrypt_aes prim ciphertext nonce aes_key)
    ok (env.chunk_index, plaintext)

  unfoldable pub open_envelopes : Bytes → List Envelope → Result ChunkError (List ChunkData)
  open_envelopes aes_key [] = ok []
  open_envelopes aes_key (env ∷ envs) = do
    c ← open_envelope aes_key env
    cs ← open_envelopes aes_key envs
    ok (c ∷ cs)

  -- sort.Slice by index, and the buffer. (It promises no order for chunks of one index.)
  abbrev pub decrypt_all : Bytes → List Envelope → Result ChunkError Bytes
  decrypt_all aes_key envelopes = do
    chunks ← open_envelopes aes_key envelopes
    ok (join (sort_by index_leb chunks))

  unfoldable pub assemble_and_decrypt : List Envelope → Bytes → Bytes → Result ChunkError Bytes
  assemble_and_decrypt [] my_private_key verify_key = err no_envelopes
  assemble_and_decrypt (env ∷ envs) my_private_key verify_key = do
    check_signatures verify_key (env ∷ envs)
    ephem_pub ← wrap decode_ephemeral_key (decode_key prim env.ephemeral_key)
    aes_key ← wrap derive_key (derive_shared_key prim my_private_key ephem_pub)
    decrypt_all aes_key (env ∷ envs)

  unfoldable pub assemble_and_decrypt_file : List Envelope → Bytes → Bytes → Result ChunkError Bytes
  assemble_and_decrypt_file [] aes_key verify_key = err no_envelopes
  assemble_and_decrypt_file (env ∷ envs) aes_key verify_key = do
    check_signatures verify_key (env ∷ envs)
    decrypt_all aes_key (env ∷ envs)

  unfoldable pub compute_hash : Bytes → String
  compute_hash body = encode_to_string (sum256 body)

  unfoldable pub registered_hash : Bytes → String
  registered_hash body = format_hex (take 8 (sum256 body))
