-- ===== src/Software/Library.antt =====
-- What the software provider calls and is not part of the repository: Go's crypto packages, x/crypto,
-- circl, protovalidate, and the helpers of citius-core. A call that reads `rand.Reader` takes the
-- random source as an argument.
use citius_server.Prelude.{ℕ, ◌%◌, ◌^◌, ◌≤◌, ◌≡◌, Bool, Option, length, Text}
use citius_server.Errors.{Error}
use citius_server.Software.Outcome.{Outcome, ok, NoPanic}
use citius_server.Software.Types.{Bytes, HashAlgorithm, Request}

-- citius-core's `provider` helpers, and the validator of requests.
pub record Core : Type 1 where
  pub Output : Type 0
  pub no_output : Text → Output
  pub no_output_unencoded : Output
  pub aead_output : Bytes → ℕ → Text → Output
  pub block_cipher_output : Bytes → Text → Output
  -- `GetAeadOutput().GetNonce()` and `GetBlockCipherOutput().GetIv()`
  pub aead_nonce : Output → Bytes
  pub block_cipher_iv : Output → Bytes
  -- `errors.IsNotImplemented`
  pub is_not_implemented : Error → Bool
  -- `DigestLengthForHash`
  pub digest_length_for_hash : HashAlgorithm → Option ℕ
  -- `protovalidate.New()`, with whether `Validate` accepts a request.
  pub validator : Outcome (Request Output → Bool)

pub record IsCore (k : Core) : Type 0 where
  pub aead_nonce_of :
      (nonce : Bytes) (tag : ℕ) (t : Text) → k.aead_nonce (k.aead_output nonce tag t) ≡ nonce
  pub block_cipher_iv_of :
      (iv : Bytes) (t : Text) → k.block_cipher_iv (k.block_cipher_output iv t) ≡ iv
  pub validator_made : NoPanic k.validator

-- crypto/rand, crypto/aes, crypto/cipher and x/crypto/chacha20poly1305.
pub record Ciphers (Random : Type 0) : Type 1 where
  pub Block : Type 0
  pub Aead : Type 0
  pub read : ℕ → Random → Outcome Bytes
  pub new_cipher : Bytes → Outcome Block
  pub new_gcm : Block → Outcome Aead
  pub new_gcm_with_tag_size : Block → ℕ → Outcome Aead
  pub new_gcm_with_nonce_size : Block → ℕ → Outcome Aead
  pub new_chacha : Bytes → Outcome Aead
  pub new_xchacha : Bytes → Outcome Aead
  pub nonce_size : Aead → ℕ
  -- With the nonce, the text and the additional data.
  pub seal : Aead → Bytes → Bytes → Bytes → Outcome Bytes
  pub unseal : Aead → Bytes → Bytes → Bytes → Outcome Bytes
  -- `NewCBCEncrypter(block, iv).CryptBlocks` and the like, with the IV and the text.
  pub cbc_encrypt : Block → Bytes → Bytes → Outcome Bytes
  pub cbc_decrypt : Block → Bytes → Bytes → Outcome Bytes
  pub xor_key_stream : Block → Bytes → Bytes → Outcome Bytes

-- `aes.BlockSize`
abbrev pub block_size : ℕ
block_size = 16

-- Below what GCM and ChaCha20-Poly1305 take as a plaintext.
abbrev pub max_plaintext : ℕ
max_plaintext = 2 ^ 32

pub record IsCiphers {Random : Type 0} (x : Ciphers Random) : Type 0 where
  pub length-read : (n : ℕ) (ρ : Random) {b : Bytes} → x.read n ρ ≡ ok b → length b ≡ n
  pub unseal-seal :
      (a : x.Aead) (nonce p aad : Bytes) {c : Bytes}
      → x.seal a nonce p aad ≡ ok c
      → x.unseal a nonce c aad ≡ ok p
  pub cbc_decrypt-encrypt :
      (k : x.Block) (iv p : Bytes) {c : Bytes}
      → x.cbc_encrypt k iv p ≡ ok c
      → (length c ≡ length p) × (x.cbc_decrypt k iv c ≡ ok p)
  pub xor_key_stream_twice :
      (k : x.Block) (iv p : Bytes) {c : Bytes}
      → x.xor_key_stream k iv p ≡ ok c
      → x.xor_key_stream k iv c ≡ ok p
  pub read-NoPanic : (n : ℕ) (ρ : Random) → NoPanic (x.read n ρ)
  pub new_cipher-NoPanic : (b : Bytes) → NoPanic (x.new_cipher b)
  pub new_gcm-NoPanic : (k : x.Block) → NoPanic (x.new_gcm k)
  pub new_gcm_with_tag_size-NoPanic : (k : x.Block) (n : ℕ) → NoPanic (x.new_gcm_with_tag_size k n)
  pub new_gcm_with_nonce_size-NoPanic :
      (k : x.Block) (n : ℕ) → NoPanic (x.new_gcm_with_nonce_size k n)
  pub new_chacha-NoPanic : (b : Bytes) → NoPanic (x.new_chacha b)
  pub new_xchacha-NoPanic : (b : Bytes) → NoPanic (x.new_xchacha b)
  pub seal-NoPanic :
      (a : x.Aead) (nonce p aad : Bytes)
      → length nonce ≡ x.nonce_size a
      → length p ≤ max_plaintext
      → NoPanic (x.seal a nonce p aad)
  pub unseal-NoPanic :
      (a : x.Aead) (nonce c aad : Bytes)
      → length nonce ≡ x.nonce_size a
      → NoPanic (x.unseal a nonce c aad)
  pub cbc_encrypt-NoPanic :
      (k : x.Block) (iv p : Bytes)
      → length iv ≡ block_size
      → length p % block_size ≡ 0
      → NoPanic (x.cbc_encrypt k iv p)
  pub cbc_decrypt-NoPanic :
      (k : x.Block) (iv c : Bytes)
      → length iv ≡ block_size
      → length c % block_size ≡ 0
      → NoPanic (x.cbc_decrypt k iv c)
  -- The text that is decrypted is as long as the ciphertext.
  pub length-cbc_decrypt :
      (k : x.Block) (iv c : Bytes) {p : Bytes} → x.cbc_decrypt k iv c ≡ ok p → length p ≡ length c
  pub xor_key_stream-NoPanic :
      (k : x.Block) (iv p : Bytes) → length iv ≡ block_size → NoPanic (x.xor_key_stream k iv p)
