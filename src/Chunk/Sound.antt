-- ===== src/Chunk/Sound.antt =====
-- What the receiver can rely on of the envelopes that the sender makes.
use huginn_messenger.Prelude.{
  ℕ, zero, suc, ◌-◌, ◌*◌, ◌≤◌, ◌≡◌, ◌≢◌, refl, ap, ◌∙◌, sym, Option, none, some, List, [], ◌∷◌, map,
  arith, length, All, String,
}
use mathlib.Core.List.{Permᴰ}
use mathlib.Core.List
use huginn_messenger.Prelude.Int.{pos}
use huginn_messenger.Prelude.Permuted.{perm-All}
use huginn_messenger.Prelude.Result.{Result, ok, err, ◌>>=◌, of_option, IfOk, IfOk-at, IfOk-bind}
use huginn_messenger.Store.Rows.{Bytes}
use huginn_messenger.Crypto.{
  Primitives, bad_key, random_failed, IsLawful, IsKeyPair, generate_encryption_key,
  derive_shared_key, encrypt_aes, decrypt_aes, encode_key, decode_key,
}
use huginn_messenger.Chunk.{
  Envelope, encrypt_chunk, wrap, chunk_bytes, chunk_size, Job, envelope_bytes, unsigned_envelope,
  sign_envelope, make_envelope, make_envelopes, check_signature, check_signatures, open_envelope,
  open_envelopes, decrypt_all,
}
use huginn_messenger.Chunk.Slices.{range, join-indexed}
use huginn_messenger.Chunk.Order.{at_index, index, join_permuted}

pub wrap-eq-ok :
    {E F : Type 0} {A : Type 0} (f : E → F) (r : Result E A) {a : A} → wrap f r ≡ ok a → r ≡ ok a
wrap-eq-ok f (ok a) h = ground arith
wrap-eq-ok f (err e) h = cc

module _ (prim : Primitives) (law : IsLawful prim) where
  -- What the receiver needs to know of one envelope.
  record IsSound (job : Job prim) (verify_key : Bytes) (env : Envelope) : Type 0 where
    verified : check_signature prim verify_key env ≡ ok tt
    ephemeral : env.ephemeral_key ≡ job.ephemeral_key
    opened : open_envelope prim job.aes_key env ≡ ok (at_index job.plaintext env.chunk_index)

  -- The envelope of chunk i, sealed with this cipher and this nonce.
  abbrev sealed : Job prim → ℕ → prim.Cipher → Bytes → Envelope
  sealed job i gcm nonce =
      sign_envelope prim job.sign_key
        (unsigned_envelope prim job i (prim.seal gcm nonce (chunk_bytes job.plaintext i), nonce))

  sealed-IsSound :
      (job : Job prim) (verify_key : Bytes) (i : ℕ) (gcm : prim.Cipher) (nonce : Bytes)
      → prim.new_cipher job.aes_key ≡ some gcm
      → IsKeyPair prim job.sign_key verify_key
      → IsSound job verify_key (sealed job i gcm nonce)
  unfolding decrypt_aes encode_key decode_key envelope_bytes check_signature open_envelope
  sealed-IsSound job verify_key i gcm nonce e pair = record {
    verified = rw (law.decode-encode _, pair _) refl;
    ephemeral = refl;
    opened =
        rw
          (
            law.decode-encode nonce,
            law.decode-encode (prim.seal gcm nonce (chunk_bytes job.plaintext i)),
            e,
            law.open-seal gcm nonce (chunk_bytes job.plaintext i),
          )
          refl;
  }

  make_envelope-IsSound :
      (job : Job prim) (verify_key : Bytes) (i : ℕ)
      → IsKeyPair prim job.sign_key verify_key
      → IfOk
          (λ env. IsSound job verify_key env × (env.chunk_index ≡ pos i))
          (make_envelope prim job i)
  unfolding make_envelope encrypt_aes
  make_envelope-IsSound job verify_key i pair =
      by_cases (prim.new_cipher job.aes_key) (job.nonces i) refl
    where
      by_cases :
          (c : Option prim.Cipher) (n : Option Bytes)
          → prim.new_cipher job.aes_key ≡ c
          → IfOk
              (λ env. IsSound job verify_key env × (env.chunk_index ≡ pos i))
              (wrap (encrypt_chunk i) (
                  of_option bad_key c >>= λ gcm. of_option random_failed n >>= λ nonce.
                  ok (prim.seal gcm nonce (chunk_bytes job.plaintext i), nonce))
                >>= λ s. ok (sign_envelope prim job.sign_key (unsigned_envelope prim job i s)))
      by_cases none n e = tt
      by_cases (some gcm) none e = tt
      by_cases (some gcm) (some nonce) e = (sealed-IsSound job verify_key i gcm nonce e pair, refl)

  open_sound :
      (job : Job prim) (verify_key : Bytes) (envs : List Envelope)
      → All (IsSound job verify_key) envs
      → open_envelopes prim job.aes_key envs ≡ ok (map (at_index job.plaintext) (map index envs))
  unfolding open_envelopes
  open_sound job verify_key [] h = refl
  open_sound job verify_key (env ∷ envs) h =
      rw (h.0.opened, open_sound job verify_key envs h.1) refl

  check_sound :
      (job : Job prim) (verify_key : Bytes) (envs : List Envelope)
      → All (IsSound job verify_key) envs
      → check_signatures prim verify_key envs ≡ ok tt
  unfolding check_signatures
  check_sound job verify_key [] h = refl
  check_sound job verify_key (env ∷ envs) h = rw h.0.verified (check_sound job verify_key envs h.1)

  -- The loop makes sound envelopes with the indices of its range.
  abbrev IsMade : Job prim → Bytes → ℕ → ℕ → List Envelope → Type 0
  IsMade job verify_key left i envs =
      All (IsSound job verify_key) envs × (map index envs ≡ map pos (range left i))

  make_envelopes-IsMade :
      (job : Job prim) (verify_key : Bytes) (left i : ℕ)
      → IsKeyPair prim job.sign_key verify_key
      → IfOk (IsMade job verify_key left i) (make_envelopes prim job left i)
  unfolding make_envelopes
  make_envelopes-IsMade job verify_key zero i pair = (tt, refl)
  make_envelopes-IsMade job verify_key (suc left) i pair =
      IfOk-bind (λ env. IsSound job verify_key env × (env.chunk_index ≡ pos i))
        (IsMade job verify_key (suc left) i) (make_envelope prim job i) _
        (make_envelope-IsSound job verify_key i pair)
        (λ env s.
          IfOk-bind (IsMade job verify_key left (suc i)) (IsMade job verify_key (suc left) i)
            (make_envelopes prim job left (suc i)) _
            (make_envelopes-IsMade job verify_key left (suc i) pair)
            (λ envs t. ((s.0, t.0), rw (s.1, t.1) refl)))

  -- Any arrangement of them is decrypted to the plaintext, when their number fits it.
  decrypt_sound :
      (job : Job prim) (verify_key : Bytes) (envs arrived : List Envelope)
      → IsMade job verify_key job.total 0 envs
      → Permᴰ arrived envs
      → length job.plaintext ≤ job.total * chunk_size
      → (job.total - 1) * chunk_size ≤ length job.plaintext
      → decrypt_all prim job.aes_key arrived ≡ ok job.plaintext
  decrypt_sound job verify_key envs arrived made arrangement h k =
      let indices : Permᴰ (map index arrived) (map pos (range job.total 0)) =
        rw (← made.1) (List.Permᴰ.map index arrangement) in
      rw (open_sound job verify_key arrived (perm-All (IsSound job verify_key) arrangement made.0))
        (ap ok (
          join_permuted job.plaintext job.total (map index arrived) indices
          ∙ join-indexed job.plaintext job.total h k))

  empty_perm : {A : Type 0} {xs ys : List A} → Permᴰ xs ys → xs ≡ [] → ys ≡ []
  empty_perm Permᴰ.nil h = refl
  empty_perm (Permᴰ.cons e p) h = cc
  empty_perm (Permᴰ.swap e f) h = cc
  empty_perm (Permᴰ.trans p q) h = empty_perm q (empty_perm p h)

  empty_range : (n i : ℕ) → map pos (range n i) ≡ [] → n ≡ 0
  empty_range zero i h = refl
  empty_range (suc n) i h = cc

  -- What the receiver makes of a job's envelopes, if there is one.
  pub received :
      (job : Job prim) (verify_key : Bytes) (envs arrived : List Envelope)
      → IsKeyPair prim job.sign_key verify_key
      → make_envelopes prim job job.total 0 ≡ ok envs
      → Permᴰ arrived envs
      → length job.plaintext ≤ job.total * chunk_size
      → (job.total - 1) * chunk_size ≤ length job.plaintext
      → job.total ≢ 0
      → (env : Envelope) × (rest : List Envelope) × (arrived ≡ env ∷ rest)
        × (env.ephemeral_key ≡ job.ephemeral_key)
        × (check_signatures prim verify_key (env ∷ rest) ≡ ok tt)
        × (decrypt_all prim job.aes_key (env ∷ rest) ≡ ok job.plaintext)
  received job verify_key envs [] pair h arrangement covers fits some_chunk =
      let made =
        IfOk-at (IsMade job verify_key job.total 0) _
          (make_envelopes-IsMade job verify_key job.total 0 pair) h in
      let none_left : map index envs ≡ [] = ap (map index) (empty_perm arrangement refl) in
      elim (some_chunk (empty_range job.total 0 (sym made.1 ∙ none_left))) [ ]
  received job verify_key envs (env ∷ rest) pair h arrangement covers fits some_chunk =
      let made =
        IfOk-at (IsMade job verify_key job.total 0) _
          (make_envelopes-IsMade job verify_key job.total 0 pair) h in
      let sound = perm-All (IsSound job verify_key) arrangement made.0 in
      (
        env,
        rest,
        refl,
        sound.0.ephemeral,
        check_sound job verify_key (env ∷ rest) sound,
        decrypt_sound job verify_key envs (env ∷ rest) made arrangement covers fits,
      )

  -- Both ends derive one key.
  pub same_key :
      (my_private my_public ephem_private ephem_public key : Bytes)
      → prim.x25519 my_private prim.basepoint ≡ some my_public
      → prim.x25519 ephem_private prim.basepoint ≡ some ephem_public
      → derive_shared_key prim ephem_private my_public ≡ ok key
      → derive_shared_key prim my_private ephem_public ≡ ok key
  unfolding derive_shared_key
  same_key my_private my_public ephem_private ephem_public key mine theirs h =
      rw (← law.agree ephem_private my_private ephem_public my_public theirs mine) h

  pub encoded_key : (s : String) (b : Bytes) → s ≡ encode_key prim b → decode_key prim s ≡ ok b
  unfolding encode_key decode_key
  encoded_key s b e = rw (e, law.decode-encode b) refl

  pub generated_pair :
      (random : Option Bytes) (private_key public_key : Bytes)
      → generate_encryption_key prim random ≡ ok (private_key, public_key)
      → prim.x25519 private_key prim.basepoint ≡ some public_key
  unfolding generate_encryption_key
  generated_pair random private_key public_key h = ground arith
