-- ===== src/Software/Rsa.antt =====
-- internal/provider/software/rsa.go.
use citius_server.Prelude.{ℕ, Bool, true, false, ◌||◌, eqb, if◌then◌else◌}
use citius_server.Errors.{new, invalid_argument, not_implemented}
use citius_server.Software.Outcome.{Outcome, ok, err, panic, ◌>>=◌, ◌>>◌, guard, wrapped}
use citius_server.Prelude.Int.{ℤ, pos, negsuc}
use citius_server.Software.Types.{
  Bytes, HashAlgorithm, number, int_eqb, MaskGenerationFunction, mgf1, SaltLengthMode, hash_length,
  max_length, explicit, PrivateKeyEncoding, pkcs8, PublicKeyEncoding, spki, RsaPssParams,
  RsaPkcs1V15Params,
}
use citius_server.Software.Signers.{Signers, Hash, AnyKey, rsa_key}

unfoldable pub rsa_hash : HashAlgorithm → Outcome Hash
rsa_hash HashAlgorithm.unspecified = ok Hash.sha256
rsa_hash HashAlgorithm.sha256 = ok Hash.sha256
rsa_hash HashAlgorithm.sha384 = ok Hash.sha384
rsa_hash HashAlgorithm.sha512 = ok Hash.sha512
rsa_hash (HashAlgorithm.other n) = err (new not_implemented)

abbrev pub is_mgf1 : MaskGenerationFunction → Bool
is_mgf1 MaskGenerationFunction.unspecified = true
is_mgf1 mgf1 = true
is_mgf1 (MaskGenerationFunction.other n) = false

unfoldable pub check_rsapss_mgf :
    MaskGenerationFunction → HashAlgorithm → HashAlgorithm → Outcome (Unit {0})
check_rsapss_mgf mgf hash mgf_hash = do
  guard (is_mgf1 mgf) not_implemented
  guard (int_eqb (number mgf_hash) (pos 0) || int_eqb (number mgf_hash) (number hash))
      not_implemented

-- `PSSSaltLengthEqualsHash` is -1 and `PSSSaltLengthAuto` is 0.
unfoldable pub rsapss_salt_length : SaltLengthMode → ℕ → Outcome ℤ
rsapss_salt_length hash_length explicit_bytes = ok (negsuc 0)
rsapss_salt_length max_length explicit_bytes = ok (pos 0)
rsapss_salt_length explicit explicit_bytes =
    if eqb explicit_bytes 0 then err (new invalid_argument) else ok (pos explicit_bytes)
rsapss_salt_length (SaltLengthMode.other n) explicit_bytes = err (new not_implemented)

-- An error of the verification is an invalid signature.
abbrev pub accepted : Outcome (Unit {0}) → Outcome Bool
accepted (ok u) = ok true
accepted (err e) = ok false
accepted panic = panic

module _ {Random : Type 0} (x : Signers Random) where
  unfoldable pub rsa_digest_bytes : HashAlgorithm → Bytes → Bytes
  rsa_digest_bytes HashAlgorithm.sha384 payload = x.sum384 payload
  rsa_digest_bytes HashAlgorithm.sha512 payload = x.sum512 payload
  rsa_digest_bytes _ payload = x.sum256 payload

  -- The public and the private key, encoded.
  unfoldable pub generate_rsa_key : ℕ → Random → Outcome (Bytes × Bytes)
  generate_rsa_key key_size_bits ρ = do
    key ← wrapped (x.rsa_generate ρ key_size_bits)
    priv_der ← wrapped (x.marshal_pkcs8 (rsa_key key))
    pub_der ← wrapped (x.marshal_pkix (rsa_key (x.rsa_public key)))
    ok (pub_der, priv_der)

  -- `key.(*rsa.PrivateKey)` and `key.(*rsa.PublicKey)`
  abbrev pub as_rsa : {E R D : Type 0} → AnyKey E R D → Outcome R
  as_rsa (rsa_key k) = ok k
  as_rsa _ = err (new invalid_argument)

  abbrev parse_rsa_pkcs8 : Bytes → Outcome x.RsaPrivate
  parse_rsa_pkcs8 der = do key ← wrapped (x.parse_pkcs8 der); as_rsa key

  unfoldable pub parse_rsa_private_key : Bytes → PrivateKeyEncoding → Outcome x.RsaPrivate
  parse_rsa_private_key der pkcs8 = parse_rsa_pkcs8 der
  parse_rsa_private_key der PrivateKeyEncoding.unspecified = parse_rsa_pkcs8 der
  parse_rsa_private_key der _ = err (new not_implemented)

  abbrev parse_rsa_spki : Bytes → Outcome x.RsaPublic
  parse_rsa_spki der = do key ← wrapped (x.parse_pkix der); as_rsa key

  unfoldable pub parse_rsa_public_key : Bytes → PublicKeyEncoding → Outcome x.RsaPublic
  parse_rsa_public_key der spki = parse_rsa_spki der
  parse_rsa_public_key der PublicKeyEncoding.unspecified = parse_rsa_spki der
  parse_rsa_public_key der _ = err (new not_implemented)

  unfoldable pub check_rsa_key_size : x.RsaPublic → ℕ → Outcome (Unit {0})
  check_rsa_key_size key declared_bits = guard (eqb (x.bit_len key) declared_bits) invalid_argument

  -- What both schemes check first.
  abbrev pub rsa_private : Bytes → PrivateKeyEncoding → ℕ → Outcome x.RsaPrivate
  rsa_private der encoding bits = do
    key ← parse_rsa_private_key der encoding
    check_rsa_key_size (x.rsa_public key) bits
    ok key

  abbrev pub rsa_public : Bytes → PublicKeyEncoding → ℕ → Outcome x.RsaPublic
  rsa_public der encoding bits = do
    key ← parse_rsa_public_key der encoding
    check_rsa_key_size key bits
    ok key

  -- The hash and the length of the salt.
  abbrev pub pss_options : HashAlgorithm → RsaPssParams → Outcome (Hash × ℤ)
  pss_options hash params = do
    check_rsapss_mgf params.mgf hash params.mgf_hash
    h ← rsa_hash hash
    salt ← rsapss_salt_length params.salt_length_mode params.salt_length_bytes
    ok (h, salt)

  unfoldable pub sign_rsapss_core :
      Random → Bytes → Bytes → PrivateKeyEncoding → HashAlgorithm → RsaPssParams → Outcome Bytes
  unfolding parse_rsa_private_key check_rsa_key_size check_rsapss_mgf rsa_hash rsapss_salt_length
  sign_rsapss_core ρ der digest encoding hash params = do
    key ← rsa_private der encoding params.key_size_bits
    options ← pss_options hash params
    wrapped (x.sign_pss ρ key options.0 digest options.1)

  unfoldable pub verify_rsapss_core :
      Bytes → Bytes → Bytes → PublicKeyEncoding → HashAlgorithm → RsaPssParams → Outcome Bool
  unfolding parse_rsa_public_key check_rsa_key_size check_rsapss_mgf rsa_hash rsapss_salt_length
  verify_rsapss_core der digest signature encoding hash params = do
    key ← rsa_public der encoding params.key_size_bits
    options ← pss_options hash params
    accepted (x.verify_pss key options.0 digest signature options.1)

  unfoldable pub sign_rsapss :
      Random → Bytes → Bytes → PrivateKeyEncoding → RsaPssParams → Outcome Bytes
  unfolding sign_rsapss_core rsa_digest_bytes
  sign_rsapss ρ der payload encoding params =
      sign_rsapss_core ρ der (rsa_digest_bytes params.hash payload) encoding params.hash params

  unfoldable pub verify_rsapss :
      Bytes → Bytes → Bytes → PublicKeyEncoding → RsaPssParams → Outcome Bool
  unfolding verify_rsapss_core rsa_digest_bytes
  verify_rsapss der payload signature encoding params =
      verify_rsapss_core der (rsa_digest_bytes params.hash payload) signature encoding params.hash
        params

  unfoldable pub sign_rsapss_digest :
      Random → Bytes → Bytes → PrivateKeyEncoding → HashAlgorithm → RsaPssParams → Outcome Bytes
  unfolding sign_rsapss_core
  sign_rsapss_digest ρ der digest encoding hash params =
      sign_rsapss_core ρ der digest encoding hash params

  unfoldable pub verify_rsapss_digest :
      Bytes → Bytes → Bytes → PublicKeyEncoding → HashAlgorithm → RsaPssParams → Outcome Bool
  unfolding verify_rsapss_core
  verify_rsapss_digest der digest signature encoding hash params =
      verify_rsapss_core der digest signature encoding hash params

  unfoldable pub sign_rsapkcs1_v15_core :
      Random
      → Bytes
      → Bytes
      → PrivateKeyEncoding
      → HashAlgorithm
      → RsaPkcs1V15Params
      → Outcome Bytes
  unfolding parse_rsa_private_key check_rsa_key_size rsa_hash
  sign_rsapkcs1_v15_core ρ der digest encoding hash params = do
    key ← rsa_private der encoding params.key_size_bits
    h ← rsa_hash hash
    wrapped (x.sign_pkcs1_v15 ρ key h digest)

  unfoldable pub verify_rsapkcs1_v15_core :
      Bytes → Bytes → Bytes → PublicKeyEncoding → HashAlgorithm → RsaPkcs1V15Params → Outcome Bool
  unfolding parse_rsa_public_key check_rsa_key_size rsa_hash
  verify_rsapkcs1_v15_core der digest signature encoding hash params = do
    key ← rsa_public der encoding params.key_size_bits
    h ← rsa_hash hash
    accepted (x.verify_pkcs1_v15 key h digest signature)

  unfoldable pub sign_rsapkcs1_v15 :
      Random → Bytes → Bytes → PrivateKeyEncoding → RsaPkcs1V15Params → Outcome Bytes
  unfolding sign_rsapkcs1_v15_core rsa_digest_bytes
  sign_rsapkcs1_v15 ρ der payload encoding params =
      sign_rsapkcs1_v15_core ρ der (rsa_digest_bytes params.hash payload) encoding params.hash
        params

  unfoldable pub verify_rsapkcs1_v15 :
      Bytes → Bytes → Bytes → PublicKeyEncoding → RsaPkcs1V15Params → Outcome Bool
  unfolding verify_rsapkcs1_v15_core rsa_digest_bytes
  verify_rsapkcs1_v15 der payload signature encoding params =
      verify_rsapkcs1_v15_core der (rsa_digest_bytes params.hash payload) signature encoding
        params.hash params

  unfoldable pub sign_rsapkcs1_v15_digest :
      Random
      → Bytes
      → Bytes
      → PrivateKeyEncoding
      → HashAlgorithm
      → RsaPkcs1V15Params
      → Outcome Bytes
  unfolding sign_rsapkcs1_v15_core
  sign_rsapkcs1_v15_digest ρ der digest encoding hash params =
      sign_rsapkcs1_v15_core ρ der digest encoding hash params

  unfoldable pub verify_rsapkcs1_v15_digest :
      Bytes → Bytes → Bytes → PublicKeyEncoding → HashAlgorithm → RsaPkcs1V15Params → Outcome Bool
  unfolding verify_rsapkcs1_v15_core
  verify_rsapkcs1_v15_digest der digest signature encoding hash params =
      verify_rsapkcs1_v15_core der digest signature encoding hash params
