-- ===== src/Chunk/Accepted.antt =====
-- What assembling rejects, and when splitting succeeds.
use huginn_messenger.Prelude.{
  ℕ, zero, suc, ◌+◌, ◌≡◌, ◌≢◌, ◌/◌, ◌⊎◌, inl, inr, refl, ap, ◌∙◌, Bool, true, false, not, Option,
  none, some, List, [], ◌∷◌, arith, length, max, All, String,
}
use huginn_messenger.Prelude.Int.{pos}
use huginn_messenger.Prelude.Result.{
  Result, ok, err, ◌>>=◌, fail_if, of_option, >>=-eq-ok, IfOk, IfOk-at,
}
use huginn_messenger.Store.Rows.{Bytes}
use huginn_messenger.Crypto.{Primitives, bad_encoding, encrypt_aes, decode_key}
use huginn_messenger.Chunk.{
  Envelope, ChunkError, file_job, no_envelopes, decode_sig, invalid_signature, wrap, Job,
  envelope_bytes, make_envelope, make_envelopes, split_and_encrypt_file, check_signature,
  check_signatures, assemble_and_decrypt, assemble_and_decrypt_file,
}

-- The envelope carries a signature of its fields by the owner of the key.
abbrev pub IsSigned : Primitives → Bytes → Envelope → Type 0
IsSigned prim verify_key env =
    (sig : Bytes) × (prim.decode_string env.signature ≡ some sig)
    × (prim.verify verify_key (envelope_bytes prim env) sig ≡ true)

module _ (prim : Primitives) where
  check_signature-IsSigned :
      (verify_key : Bytes) (env : Envelope)
      → IfOk (λ u. IsSigned prim verify_key env) (check_signature prim verify_key env)
  unfolding check_signature decode_key
  check_signature-IsSigned verify_key env = by_cases (prim.decode_string env.signature) refl
    where
      by_test :
          (sig : Bytes) (b : Bool)
          → prim.decode_string env.signature ≡ some sig
          → prim.verify verify_key (envelope_bytes prim env) sig ≡ b
          → IfOk
              (λ (u : Unit {0}). IsSigned prim verify_key env)
              (fail_if {E = ChunkError} (not b) invalid_signature)
      by_test sig true e v = (sig, e, v)
      by_test sig false e v = tt

      by_cases :
          (s : Option Bytes)
          → prim.decode_string env.signature ≡ s
          → IfOk
              (λ (u : Unit {0}). IsSigned prim verify_key env)
              (wrap decode_sig (of_option bad_encoding s) >>= λ sig.
                fail_if
                  (not (prim.verify verify_key (envelope_bytes prim env) sig))
                  invalid_signature)
      by_cases none e = tt
      by_cases (some sig) e =
          by_test sig (prim.verify verify_key (envelope_bytes prim env) sig) e refl

  check_signatures-IsSigned :
      (verify_key : Bytes) (envs : List Envelope)
      → check_signatures prim verify_key envs ≡ ok tt
      → All (IsSigned prim verify_key) envs
  unfolding check_signatures
  check_signatures-IsSigned verify_key [] h = tt
  check_signatures-IsSigned verify_key (env ∷ envs) h =
      let (u, first, rest) = >>=-eq-ok (check_signature prim verify_key env) _ h in
      (
        IfOk-at (λ u. IsSigned prim verify_key env) (check_signature prim verify_key env)
            (check_signature-IsSigned verify_key env) first,
        check_signatures-IsSigned verify_key envs rest,
      )

not_ok : (e : ChunkError) (b : Bytes) → ◌≡◌ {A = Result ChunkError Bytes} (err e) (ok b) → ⊥
not_ok e b h = cc

-- Both assembling functions give a plaintext only for envelopes that all carry a valid signature of
-- the expected sender, and for at least one.
pub assemble-IsSigned :
    (prim : Primitives) (envs : List Envelope) (key verify_key plaintext : Bytes)
    → (assemble_and_decrypt prim envs key verify_key ≡ ok plaintext)
      ⊎ (assemble_and_decrypt_file prim envs key verify_key ≡ ok plaintext)
    → (envs ≢ []) × All (IsSigned prim verify_key) envs
unfolding assemble_and_decrypt assemble_and_decrypt_file
assemble-IsSigned prim [] key verify_key plaintext (inl h) =
    elim (not_ok no_envelopes plaintext h) [ ]
assemble-IsSigned prim [] key verify_key plaintext (inr h) =
    elim (not_ok no_envelopes plaintext h) [ ]
assemble-IsSigned prim (env ∷ envs) key verify_key plaintext (inl h) =
    let (u, checked, rest) = >>=-eq-ok (check_signatures prim verify_key (env ∷ envs)) _ h in
    (λ e. cc, check_signatures-IsSigned prim verify_key (env ∷ envs) checked)
assemble-IsSigned prim (env ∷ envs) key verify_key plaintext (inr h) =
    let (u, checked, rest) = >>=-eq-ok (check_signatures prim verify_key (env ∷ envs)) _ h in
    (λ e. cc, check_signatures-IsSigned prim verify_key (env ∷ envs) checked)

module _ (prim : Primitives) (job : Job prim) (gcm : prim.Cipher)
    (keyed : prim.new_cipher job.aes_key ≡ some gcm)
    (random : (i : ℕ) → (nonce : Bytes) × (job.nonces i ≡ some nonce)) where
  make_envelope_succeeds :
      (i : ℕ)
      → (env : Envelope) × (make_envelope prim job i ≡ ok env) × (env.total_chunks ≡ pos job.total)
  unfolding make_envelope encrypt_aes
  make_envelope_succeeds i = let (nonce, e) = random i in rw (keyed, e) ((_, refl, refl))

  pub make_envelopes_succeed :
      (left i : ℕ)
      → (envs : List Envelope) × (make_envelopes prim job left i ≡ ok envs)
        × (length envs ≡ left)
        × All (λ env. env.total_chunks ≡ pos job.total) envs
  unfolding make_envelopes
  make_envelopes_succeed zero i = ([], refl, refl, tt)
  make_envelopes_succeed (suc left) i =
      let (env, made, total) = make_envelope_succeeds i in
      let (envs, rest, count, totals) = make_envelopes_succeed left (suc i) in
      (env ∷ envs, rw (made, rest) refl, ap suc count, (total, totals))

-- SplitAndEncryptFile succeeds on every plaintext if the key fits the cipher and the random source
-- does not fail: it gives one envelope for each started KiB, at least one, and each of them says
-- how many there are.
pub split_and_encrypt_file_succeeds :
    (prim : Primitives) (file_id sender_id : String) (plaintext aes_key sign_key : Bytes)
    (nonces : ℕ → Option Bytes) (gcm : prim.Cipher)
    → prim.new_cipher aes_key ≡ some gcm
    → ((i : ℕ) → (nonce : Bytes) × (nonces i ≡ some nonce))
    → (envs : List Envelope) × (split_and_encrypt_file prim file_id sender_id plaintext aes_key
          sign_key nonces
        ≡ ok envs)
      × (length envs ≡ max 1 ((length plaintext + 1023) / 1024))
      × All (λ env. env.total_chunks ≡ pos (length envs)) envs
unfolding split_and_encrypt_file
split_and_encrypt_file_succeeds prim file_id sender_id plaintext aes_key sign_key nonces gcm keyed
      random =
    let job = file_job prim file_id sender_id plaintext aes_key sign_key nonces in
    let (envs, made, count, totals) =
      make_envelopes_succeed prim job gcm keyed random job.total 0 in
    (envs, made, count ∙ ap (λ n. max 1 (n / 1024)) (omega arith), rw count totals)
