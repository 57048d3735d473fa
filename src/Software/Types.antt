-- ===== src/Software/Types.antt =====
-- The messages of the provider's interface, as the software provider reads and writes them. An enum
-- of protobuf is open: `other` is any number without a name here.
use citius_server.Prelude.{ℕ, Bool, true, false, List, ltb, eqb}
use citius_server.Prelude.Int.{ℤ, pos, negsuc}

abbrev pub Bytes : Type 0
Bytes = List ℕ

pub data EllipticCurve : Type 0 where
  p256 p384 p521 : EllipticCurve
  other : ℤ → EllipticCurve

pub data HashAlgorithm : Type 0 where
  unspecified sha256 sha384 sha512 : HashAlgorithm
  other : ℤ → HashAlgorithm

-- The number of the enum, by which hashes are compared.
abbrev pub number : HashAlgorithm → ℤ
number HashAlgorithm.unspecified = pos 0
number sha256 = pos 1
number sha384 = pos 2
number sha512 = pos 3
number (HashAlgorithm.other n) = n

abbrev pub int_eqb : ℤ → ℤ → Bool
int_eqb (pos m) (pos n) = eqb m n
int_eqb (pos m) (negsuc n) = false
int_eqb (negsuc m) (pos n) = false
int_eqb (negsuc m) (negsuc n) = eqb m n

abbrev pub int_ltb : ℤ → ℤ → Bool
int_ltb (pos m) (pos n) = ltb m n
int_ltb (pos m) (negsuc n) = false
int_ltb (negsuc m) (pos n) = true
int_ltb (negsuc m) (negsuc n) = ltb n m

pub data SignatureFormat : Type 0 where
  unspecified der ieee_p1363 : SignatureFormat
  other : ℤ → SignatureFormat

pub data PaddingScheme : Type 0 where
  pkcs7 : PaddingScheme
  other : ℤ → PaddingScheme

pub data MlDsaParameterSet : Type 0 where
  ml_dsa_44 ml_dsa_65 ml_dsa_87 : MlDsaParameterSet
  other : ℤ → MlDsaParameterSet

pub data MaskGenerationFunction : Type 0 where
  unspecified mgf1 : MaskGenerationFunction
  other : ℤ → MaskGenerationFunction

pub data SaltLengthMode : Type 0 where
  hash_length max_length explicit : SaltLengthMode
  other : ℤ → SaltLengthMode

pub data Ed25519Variant : Type 0 where
  unspecified pure ph : Ed25519Variant
  other : ℤ → Ed25519Variant

pub data PrivateKeyEncoding : Type 0 where
  unspecified pkcs8 sec1 raw pem : PrivateKeyEncoding
  other : ℤ → PrivateKeyEncoding

pub data PublicKeyEncoding : Type 0 where
  unspecified spki raw : PublicKeyEncoding
  other : ℤ → PublicKeyEncoding

pub record EcdsaParams : Type 0 where
  pub curve : EllipticCurve
  pub hash : HashAlgorithm
  pub signature_format : SignatureFormat

pub record MlDsaParams : Type 0 where
  pub parameter_set : MlDsaParameterSet
  pub deterministic : Bool

pub record RsaPssParams : Type 0 where
  pub key_size_bits : ℕ
  pub hash : HashAlgorithm
  pub mgf : MaskGenerationFunction
  pub mgf_hash : HashAlgorithm
  pub salt_length_mode : SaltLengthMode
  pub salt_length_bytes : ℕ

pub record RsaPkcs1V15Params : Type 0 where
  pub key_size_bits : ℕ
  pub hash : HashAlgorithm

pub record AesGcmParams : Type 0 where
  pub key_size_bits : ℕ
  pub iv_size_bits : ℕ
  pub tag_size_bits : ℕ

pub record AesCbcParams : Type 0 where
  pub key_size_bits : ℕ
  pub iv_size_bits : ℕ
  pub padding : PaddingScheme

pub record AesCtrParams : Type 0 where
  pub key_size_bits : ℕ
  pub nonce_size_bits : ℕ
  pub counter_bits : ℕ

pub record ChaCha20Poly1305Params : Type 0 where
  pub nonce_size_bits : ℕ
  pub block_counter_bits : ℕ
  pub extended_nonce : Bool

-- `types.AlgorithmDetails`; `unsupported` is an arm of its oneof that the provider has no case for,
-- or none that is set.
pub data Algorithm : Type 0 where
  ecdsa : EcdsaParams → Algorithm
  ml_dsa : MlDsaParams → Algorithm
  rsa_pss : RsaPssParams → Algorithm
  rsa_pkcs1_v15 : RsaPkcs1V15Params → Algorithm
  ed25519 : Ed25519Variant → Algorithm
  aes_gcm : AesGcmParams → Algorithm
  aes_cbc : AesCbcParams → Algorithm
  aes_ctr : AesCtrParams → Algorithm
  chacha20_poly1305 : ChaCha20Poly1305Params → Algorithm
  unsupported : ℕ → Algorithm

pub record SignRequest : Type 0 where
  pub key_material : Bytes
  pub input : Bytes
  pub algorithm : Algorithm
  pub key_material_encoding : PrivateKeyEncoding
  pub context : Bytes

pub record VerifyRequest : Type 0 where
  pub key_material : Bytes
  pub input : Bytes
  pub signature : Bytes
  pub algorithm : Algorithm
  pub key_material_encoding : PublicKeyEncoding
  pub context : Bytes

pub record SignDigestRequest : Type 0 where
  pub key_material : Bytes
  pub digest : Bytes
  pub hash_algorithm : HashAlgorithm
  pub algorithm : Algorithm
  pub key_material_encoding : PrivateKeyEncoding

pub record VerifyDigestRequest : Type 0 where
  pub key_material : Bytes
  pub digest : Bytes
  pub signature : Bytes
  pub hash_algorithm : HashAlgorithm
  pub algorithm : Algorithm
  pub key_material_encoding : PublicKeyEncoding

pub record EncryptRequest : Type 0 where
  pub key_material : Bytes
  pub plaintext : Bytes
  pub aad : Bytes
  pub algorithm : Algorithm

-- `Output` is the type of `ProviderOutput`.
pub record DecryptRequest (Output : Type 0) : Type 0 where
  pub key_material : Bytes
  pub ciphertext : Bytes
  pub aad : Bytes
  pub algorithm : Algorithm
  pub output : Output

pub record GenerateKeyResponse (Output : Type 0) : Type 0 where
  pub public_key_bytes : Bytes
  pub key_material : Bytes
  pub output : Output
  pub key_material_encoding : PrivateKeyEncoding
  pub public_key_encoding : PublicKeyEncoding

pub record SignResponse (Output : Type 0) : Type 0 where
  pub signature : Bytes
  pub output : Output

pub record VerifyResponse (Output : Type 0) : Type 0 where
  pub valid : Bool
  pub output : Output

pub record EncryptResponse (Output : Type 0) : Type 0 where
  pub ciphertext : Bytes
  pub output : Output

pub record DecryptResponse (Output : Type 0) : Type 0 where
  pub plaintext : Bytes
  pub output : Output

-- A request, as the validator is given it.
pub data Request (Output : Type 0) : Type 0 where
  generate_key_request : Algorithm → Request Output
  sign_request : SignRequest → Request Output
  verify_request : VerifyRequest → Request Output
  sign_digest_request : SignDigestRequest → Request Output
  verify_digest_request : VerifyDigestRequest → Request Output
  encrypt_request : EncryptRequest → Request Output
  decrypt_request : DecryptRequest Output → Request Output
