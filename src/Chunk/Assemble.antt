-- ===== src/Chunk/Assemble.antt =====
-- Splitting and assembling: what is sent is what is read, and nothing unsigned is read.
use huginn_messenger.Prelude.{ℕ, ◌≡◌, ◌≢◌, refl, Option, some, List, [], ◌∷◌, arith, length, String}
use mathlib.Core.List.{Permᴰ}
use huginn_messenger.Prelude.Result.{ok, >>=-eq-ok}
use huginn_messenger.Store.Rows.{Bytes}
use huginn_messenger.Crypto.{
  Primitives, IsLawful, IsKeyPair, generate_encryption_key, derive_shared_key, decode_key,
}
use huginn_messenger.Chunk.{
  Envelope, generate_ephemeral_key, derive_key, message_job, file_job, wrap, split_and_encrypt,
  split_and_encrypt_file, assemble_and_decrypt, assemble_and_decrypt_file,
}
use huginn_messenger.Chunk.Slices.{chunk_count-covers}
use huginn_messenger.Chunk.Sound.{received, same_key, encoded_key, wrap-eq-ok, generated_pair}

empty_payload : (p : Bytes) → length p ≡ 0 → p ≡ []
empty_payload [] h = refl
empty_payload (b ∷ bs) h = ground arith

-- What SplitAndEncryptFile makes of a file, AssembleAndDecryptFile makes the file again, in whatever
-- order its envelopes arrive; an empty file has one envelope. The sender's signing key belongs to
-- the verifying key.
pub assemble-split_file :
    (prim : Primitives) (law : IsLawful prim) (file_id sender_id : String)
    (plaintext aes_key sign_key verify_key : Bytes) (nonces : ℕ → Option Bytes)
    (envs arrived : List Envelope)
    → IsKeyPair prim sign_key verify_key
    → split_and_encrypt_file prim file_id sender_id plaintext aes_key sign_key nonces ≡ ok envs
    → Permᴰ arrived envs
    → assemble_and_decrypt_file prim arrived aes_key verify_key ≡ ok plaintext
unfolding split_and_encrypt_file assemble_and_decrypt_file
assemble-split_file prim law file_id sender_id plaintext aes_key sign_key verify_key nonces envs
      arrived pair h arrangement =
    let job = file_job prim file_id sender_id plaintext aes_key sign_key nonces in
    let covers = chunk_count-covers plaintext in
    let (env, rest, shape, same, checked, decrypted) =
      received prim law job verify_key envs arrived pair h arrangement (omega arith) (omega arith)
        (λ e. omega arith) in
    rw (shape, checked) decrypted

-- What SplitAndEncrypt makes of a message that is not empty, AssembleAndDecrypt makes the message
-- again, in whatever order its envelopes arrive, with the private key to the public key that they
-- were encrypted for. The sender's signing key belongs to the verifying key.
pub assemble-split :
    (prim : Primitives) (law : IsLawful prim) (message_id sender_id recipient_id : String)
    (plaintext my_private my_public sign_key verify_key : Bytes) (random : Option Bytes)
    (nonces : ℕ → Option Bytes) (envs arrived : List Envelope)
    → IsKeyPair prim sign_key verify_key
    → prim.x25519 my_private prim.basepoint ≡ some my_public
    → plaintext ≢ []
    → split_and_encrypt prim message_id sender_id recipient_id plaintext my_public sign_key random
        nonces
      ≡ ok envs
    → Permᴰ arrived envs
    → assemble_and_decrypt prim arrived my_private verify_key ≡ ok plaintext
unfolding split_and_encrypt assemble_and_decrypt
assemble-split prim law message_id sender_id recipient_id plaintext my_private my_public sign_key
      verify_key random nonces envs arrived pair mine full h arrangement =
    let (ephemeral, generated, h1) =
      >>=-eq-ok (wrap generate_ephemeral_key (generate_encryption_key prim random)) _ h in
    let (aes_key, derived, made) =
      >>=-eq-ok (wrap derive_key (derive_shared_key prim ephemeral.0 my_public)) _ h1 in
    let theirs =
      generated_pair prim law random ephemeral.0 ephemeral.1
        (wrap-eq-ok generate_ephemeral_key (generate_encryption_key prim random) generated) in
    let key =
      same_key prim law my_private my_public ephemeral.0 ephemeral.1 aes_key mine theirs
        (wrap-eq-ok derive_key (derive_shared_key prim ephemeral.0 my_public) derived) in
    let job =
      message_job prim message_id sender_id recipient_id plaintext ephemeral.1 aes_key sign_key
        nonces in
    let covers = chunk_count-covers plaintext in
    let (env, rest, shape, same, checked, decrypted) =
      received prim law job verify_key envs arrived pair made arrangement covers.0 covers.1
        (λ e. full (empty_payload plaintext (omega arith))) in
    let encoded : decode_key prim env.ephemeral_key ≡ ok ephemeral.1 =
      encoded_key prim law env.ephemeral_key ephemeral.1 same in
    rw (shape, checked, encoded, key) decrypted
