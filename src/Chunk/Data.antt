-- ===== src/Chunk/Data.antt =====
-- The data of internal/chunk/chunk.go, and how a payload is cut.
use huginn_messenger.Prelude.{
  ℕ, ◌+◌, ◌-◌, ◌*◌, ◌/◌, String, Bool, List, [], ◌∷◌, ◌++◌, length, take, drop, min,
}
use huginn_messenger.Prelude.Int.{ℤ, leb_ℤ}
use huginn_messenger.Prelude.Result.{Result, ok, err}
use huginn_messenger.Store.Rows.{Bytes}
use huginn_messenger.Crypto.{CryptoError}

abbrev pub chunk_size : ℕ
chunk_size = 1024

pub record Envelope : Type 0 where
  pub message_id : String
  pub sender_id : String
  pub recipient_id : String
  pub total_chunks : ℤ
  pub chunk_index : ℤ
  pub ciphertext : String
  pub nonce : String
  pub ephemeral_key : String
  pub signature : String

pub data ChunkError : Type 0 where
  generate_ephemeral_key : CryptoError → ChunkError
  derive_key : CryptoError → ChunkError
  encrypt_chunk : ℕ → CryptoError → ChunkError
  no_envelopes : ChunkError
  decode_sig : CryptoError → ChunkError
  invalid_signature : ChunkError
  decode_ephemeral_key : CryptoError → ChunkError
  decode_nonce : CryptoError → ChunkError
  decode_ciphertext : ChunkError
  decrypt_chunk : ℤ → CryptoError → ChunkError

-- fmt.Errorf("…: %w", err)
abbrev pub wrap {ℓ} : {E F : Type 0} {A : Type ℓ} → (E → F) → Result E A → Result F A
wrap f (ok a) = ok a
wrap f (err e) = err (f e)

-- chunkData
abbrev pub ChunkData : Type 0
ChunkData = ℤ × Bytes

abbrev pub index_leb : ChunkData → ChunkData → Bool
index_leb a b = leb_ℤ a.0 b.0

-- buf.Write of each
abbrev pub join : List ChunkData → Bytes
join [] = []
join (c ∷ cs) = c.1 ++ join cs

-- plaintext[start:end] of chunk i
abbrev pub chunk_bytes : Bytes → ℕ → Bytes
chunk_bytes plaintext i =
    let start = i * chunk_size in
    let end = min (start + chunk_size) (length plaintext) in
    take (end - start) (drop start plaintext)

-- (len(plaintext) + ChunkSize - 1) / ChunkSize
abbrev pub chunk_count : Bytes → ℕ
chunk_count plaintext = (length plaintext + chunk_size - 1) / chunk_size
