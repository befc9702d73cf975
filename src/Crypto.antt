-- ===== src/Crypto.antt =====
-- internal/crypto/crypto.go, over the primitives of the Go libraries that it calls.
use huginn_messenger.Prelude.{
  ℕ, ◌≡◌, true, ◌+◌, ◌*◌, ◌/◌, ◌%◌, String, Bool, Option, none, some, List, get_elem?, set,
}
use huginn_messenger.Prelude.Int.{ℤ}
use huginn_messenger.Prelude.Result.{Result, ok, ◌>>=◌, of_option}
use huginn_messenger.Store.Rows.{Bytes}

-- What the code calls of aes, cipher, curve25519, ed25519, sha256, base64, json and fmt. `none` is
-- an error.
pub record Primitives : Type 1 where
  pub Cipher : Type 0  -- a GCM mode over an AES block
  pub new_cipher : Bytes → Option Cipher
  pub seal : Cipher → Bytes → Bytes → Bytes  -- nonce, plaintext
  pub open_sealed : Cipher → Bytes → Bytes → Option Bytes  -- nonce, ciphertext
  pub x25519 : Bytes → Bytes → Option Bytes
  pub basepoint : Bytes
  pub sum256 : Bytes → Bytes
  pub sign : Bytes → Bytes → Bytes  -- private key, data
  pub verify : Bytes → Bytes → Bytes → Bool  -- public key, data, signature
  pub encode_to_string : Bytes → String
  pub decode_string : String → Option Bytes
  pub marshal_map : List (String × String) → Bytes
  pub format_int : ℤ → String  -- %d
  pub format_hex : Bytes → String  -- %x

pub data CryptoError : Type 0 where
  random_failed : CryptoError
  bad_key : CryptoError
  open_failed : CryptoError
  bad_encoding : CryptoError

module _ (prim : Primitives) where
  open prim use {
    Cipher, new_cipher, seal, open_sealed, x25519, basepoint, sum256, sign, verify,
    encode_to_string, decode_string,
  }

  -- priv[0] &= 248; priv[31] &= 127; priv[31] |= 64
  abbrev pub low_bits : Option ℕ → ℕ
  low_bits none = 0
  low_bits (some b) = b / 8 * 8

  abbrev pub high_bits : Option ℕ → ℕ
  high_bits none = 0
  high_bits (some b) = b % 64 + 64

  unfoldable pub clamp : Bytes → Bytes
  clamp priv = set (set priv 0 (low_bits (get_elem? priv 0))) 31 (high_bits (get_elem? priv 31))

  -- `random` is what rand.Reader gives for the 32 bytes, or `none` if it fails.
  unfoldable pub generate_encryption_key : Option Bytes → Result CryptoError (Bytes × Bytes)
  generate_encryption_key random = do
    bytes ← of_option random_failed random
    public_key ← of_option bad_key (x25519 (clamp bytes) basepoint)
    ok (clamp bytes, public_key)

  unfoldable pub derive_shared_key : Bytes → Bytes → Result CryptoError Bytes
  derive_shared_key private_key public_key = do
    secret ← of_option bad_key (x25519 private_key public_key)
    ok (sum256 secret)

  -- `random` is what rand.Reader gives for the nonce.
  unfoldable pub encrypt_aes : Bytes → Bytes → Option Bytes → Result CryptoError (Bytes × Bytes)
  encrypt_aes plaintext aes_key random = do
    gcm ← of_option bad_key (new_cipher aes_key)
    nonce ← of_option random_failed random
    ok (seal gcm nonce plaintext, nonce)

  unfoldable pub decrypt_aes : Bytes → Bytes → Bytes → Result CryptoError Bytes
  decrypt_aes ciphertext nonce aes_key = do
    gcm ← of_option bad_key (new_cipher aes_key)
    of_option open_failed (open_sealed gcm nonce ciphertext)

  unfoldable pub encode_key : Bytes → String
  encode_key = encode_to_string

  unfoldable pub decode_key : String → Result CryptoError Bytes
  decode_key s = of_option bad_encoding (decode_string s)

-- What the libraries document of them.
pub record IsLawful (prim : Primitives) : Type 0 where
  -- Open undoes Seal with the same nonce.
  pub open-seal :
      (c : prim.Cipher) (nonce plaintext : Bytes)
      → prim.open_sealed c nonce (prim.seal c nonce plaintext) ≡ some plaintext
  pub decode-encode : (b : Bytes) → prim.decode_string (prim.encode_to_string b) ≡ some b
  -- Diffie and Hellman: both sides compute one secret.
  pub agree :
      (a b pub_a pub_b : Bytes)
      → prim.x25519 a prim.basepoint ≡ some pub_a
      → prim.x25519 b prim.basepoint ≡ some pub_b
      → prim.x25519 a pub_b ≡ prim.x25519 b pub_a

-- The two halves of a signing key.
abbrev pub IsKeyPair : Primitives → Bytes → Bytes → Type 0
IsKeyPair prim sign_key verify_key =
    (d : Bytes) → prim.verify verify_key d (prim.sign sign_key d) ≡ true
