-- ===== src/Examples/Envelopes.antt =====
-- Tests of the envelopes.
use huginn_messenger.Prelude.{
  ℕ, zero, suc, ◌≡◌, ◌≢◌, refl, String, Bool, true, false, some, List, [], ◌∷◌, All, arith, length,
  inr, max, ◌/◌, ◌+◌, ◌==◌, if◌then◌else◌, ap, ◌∙◌,
}
use mathlib.Core.List.{Permᴰ}
use Prim.Native.Char.{code}
use huginn_messenger.Prelude.Int.{pos}
use huginn_messenger.Prelude.Sort.{sort_by}
use huginn_messenger.Prelude.Result.{ok}
use huginn_messenger.Store.Rows.{Bytes}
use huginn_messenger.Crypto.{
  Primitives, IsLawful, IsKeyPair, generate_encryption_key, clamp, derive_shared_key, encrypt_aes,
  decrypt_aes, encode_key, decode_key,
}
use huginn_messenger.Chunk.{
  Envelope, split_and_encrypt, split_and_encrypt_file, make_envelopes, make_envelope,
  envelope_bytes, assemble_and_decrypt, assemble_and_decrypt_file, check_signatures,
  check_signature, open_envelopes, open_envelope,
}
use huginn_messenger.Chunk.Assemble.{assemble-split, assemble-split_file}
use huginn_messenger.Chunk.Accepted.{IsSigned, assemble-IsSigned, split_and_encrypt_file_succeeds}

-- Primitives that hide nothing, with bytes written in unary: enough to run the code.
abbrev encode_byte : ℕ → String → String
encode_byte zero rest = String.◌∷◌ "b" rest
encode_byte (suc n) rest = String.◌∷◌ "a" (encode_byte n rest)

abbrev encode : Bytes → String
encode [] = ""
encode (b ∷ bs) = encode_byte b (encode bs)

abbrev decode_from : ℕ → String → Bytes
decode_from n String.[] = []
decode_from n (String.◌∷◌ c s) =
    let more = decode_from (suc n) s in
    let next = decode_from 0 s in if code c == b'a' then more else n ∷ next

decode_byte : (n k : ℕ) (s : String) → decode_from k (encode_byte n s) ≡ (n + k) ∷ decode_from 0 s
decode_byte zero k s = ground arith
decode_byte (suc n) k s = decode_byte n (suc k) s ∙ ap (λ m. m ∷ decode_from 0 s) (omega arith)

decode_encode : (b : Bytes) → decode_from 0 (encode b) ≡ b
decode_encode [] = refl
decode_encode (b ∷ bs) =
    decode_byte b 0 (encode bs) ∙ rw (decode_encode bs) (ap (λ m. m ∷ bs) (omega arith))

abbrev bytes_eqb : Bytes → Bytes → Bool
bytes_eqb [] [] = true
bytes_eqb (a ∷ xs) (b ∷ ys) = let rest = bytes_eqb xs ys in if a == b then rest else false
bytes_eqb _ _ = false

abbrev pub plain : Primitives
plain = record {
  Cipher = Bytes;
  new_cipher = λ key. some key;
  seal = λ key nonce p. p;
  open_sealed = λ key nonce c. some c;
  x25519 = λ a b. some [];
  basepoint = [];
  sum256 = λ b. b;
  sign = λ key d. key;
  verify = λ key d sig. bytes_eqb key sig;
  encode_to_string = encode;
  decode_string = λ s. some (decode_from 0 s);
  marshal_map = λ entries. [];
  format_int = λ z. "";
  format_hex = λ b. "h";
}

pub plain-IsLawful : IsLawful plain
plain-IsLawful = record {
  open-seal = λ c nonce p. refl;
  decode-encode = λ b. ap some (decode_encode b);
  agree = λ a b pub_a pub_b g h. refl;
}

pub plain-IsKeyPair : IsKeyPair plain (7 ∷ []) (7 ∷ [])
plain-IsKeyPair d = refl

abbrev pub file_envelope : Envelope
file_envelope = record {
  message_id = "f";
  sender_id = "alice";
  recipient_id = "";
  total_chunks = pos 1;
  chunk_index = pos 0;
  ciphertext = "abaab";
  nonce = "ab";
  ephemeral_key = "";
  signature = "aaaaaaab";
}

pub file_split :
    split_and_encrypt_file plain "f" "alice" (1 ∷ 2 ∷ []) [] (7 ∷ []) (λ i. some (1 ∷ []))
    ≡ ok (file_envelope ∷ [])
unfolding split_and_encrypt_file make_envelopes make_envelope encrypt_aes encode_key envelope_bytes
file_split = refl

assemble-split_file_example :
    assemble_and_decrypt_file plain (file_envelope ∷ []) [] (7 ∷ []) ≡ ok (1 ∷ 2 ∷ [])
assemble-split_file_example =
    assemble-split_file plain plain-IsLawful "f" "alice" (1 ∷ 2 ∷ []) [] (7 ∷ []) (7 ∷ [])
      (λ i. some (1 ∷ [])) (file_envelope ∷ []) (file_envelope ∷ []) plain-IsKeyPair file_split
      (Permᴰ.cons refl Permᴰ.nil)

-- The scalar of 0s, clamped, has no byte to change; its public key is [].
abbrev pub message_envelope : Envelope
message_envelope = record file_envelope {
  message_id = "m";
  recipient_id = "bob";
  ephemeral_key = "";
}

message_split :
    split_and_encrypt plain "m" "alice" "bob"
      (1 ∷ 2 ∷ [])
      []
      (7 ∷ [])
      (some [])
      (λ i. some (1 ∷ []))
    ≡ ok (message_envelope ∷ [])
unfolding split_and_encrypt generate_encryption_key clamp derive_shared_key make_envelopes
    make_envelope encrypt_aes encode_key envelope_bytes
message_split = refl

assemble-split_example :
    assemble_and_decrypt plain (message_envelope ∷ []) [] (7 ∷ []) ≡ ok (1 ∷ 2 ∷ [])
assemble-split_example =
    assemble-split plain plain-IsLawful "m" "alice" "bob" (1 ∷ 2 ∷ []) [] [] (7 ∷ []) (7 ∷ [])
      (some []) (λ i. some (1 ∷ [])) (message_envelope ∷ []) (message_envelope ∷ []) plain-IsKeyPair
      refl (λ e. cc) message_split (Permᴰ.cons refl Permᴰ.nil)

file_assembled : assemble_and_decrypt_file plain (file_envelope ∷ []) [] (7 ∷ []) ≡ ok (1 ∷ 2 ∷ [])
unfolding assemble_and_decrypt_file check_signatures check_signature open_envelopes open_envelope
    decode_key decrypt_aes sort_by envelope_bytes
file_assembled = refl

assemble-IsSigned_example :
    (file_envelope ∷ [] ≢ []) × All (IsSigned plain (7 ∷ [])) (file_envelope ∷ [])
assemble-IsSigned_example =
    assemble-IsSigned plain (file_envelope ∷ []) [] (7 ∷ []) (1 ∷ 2 ∷ []) (inr file_assembled)

split_and_encrypt_file_succeeds_example :
    (envs : List Envelope) × (split_and_encrypt_file plain "f" "alice"
        (1 ∷ 2 ∷ [])
        []
        (7 ∷ [])
        (λ i. some (1 ∷ []))
      ≡ ok envs)
    × (length envs ≡ max 1 ((length {A = ℕ} (1 ∷ 2 ∷ []) + 1023) / 1024))
    × All (λ env. env.total_chunks ≡ pos (length envs)) envs
split_and_encrypt_file_succeeds_example =
    split_and_encrypt_file_succeeds plain "f" "alice" (1 ∷ 2 ∷ []) [] (7 ∷ []) (λ i. some (1 ∷ []))
      [] refl (λ i. (1 ∷ [], refl))
