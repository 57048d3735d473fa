-- ===== src/Software/Encoding.antt =====
-- internal/provider/software/encoding.go and reqvalidate.go, and the responses that provider.go makes
-- of the results of the schemes.
use citius_server.Prelude.{ℕ, Bool, true, false, Option, none, some, List, [], ◌∷◌, eqb, Text}
use citius_server.Errors.{new, invalid_argument, internal}
use citius_server.Software.Outcome.{Outcome, ok, err, ◌>>=◌, guard, wrapped}
use citius_server.Software.Types
use citius_server.Software.Types.{
  Bytes, HashAlgorithm, SignatureFormat, Ed25519Variant, ph, PrivateKeyEncoding, PublicKeyEncoding,
  spki, sec1, pkcs8, Algorithm, ecdsa, ml_dsa, rsa_pss, rsa_pkcs1_v15, ed25519, aes_gcm, aes_cbc,
  aes_ctr, chacha20_poly1305, SignRequest, VerifyRequest, SignDigestRequest, VerifyDigestRequest,
  EncryptRequest, DecryptRequest, GenerateKeyResponse, SignResponse, VerifyResponse,
  EncryptResponse, DecryptResponse, Request, generate_key_request, sign_request, verify_request,
  sign_digest_request, verify_digest_request, encrypt_request, decrypt_request,
}
use citius_server.Software.Library.{Core}

unfoldable pub private_key_encoding : Algorithm → PrivateKeyEncoding
private_key_encoding (ecdsa p) = sec1
private_key_encoding (ml_dsa p) = pkcs8
private_key_encoding (rsa_pss p) = pkcs8
private_key_encoding (rsa_pkcs1_v15 p) = pkcs8
private_key_encoding (ed25519 v) = pkcs8
private_key_encoding (aes_gcm p) = PrivateKeyEncoding.raw
private_key_encoding (aes_cbc p) = PrivateKeyEncoding.raw
private_key_encoding (aes_ctr p) = PrivateKeyEncoding.raw
private_key_encoding (chacha20_poly1305 p) = PrivateKeyEncoding.raw
private_key_encoding (Types.unsupported n) = PrivateKeyEncoding.unspecified

-- `provider.Transfer`, whose two directions are equal here: the encodings of a stored payload.
unfoldable pub transfer_capabilities : Algorithm → List PrivateKeyEncoding × List PrivateKeyEncoding
unfolding private_key_encoding
transfer_capabilities alg = elim (private_key_encoding alg) [
  | PrivateKeyEncoding.unspecified ↦ ([], [])
  | encoding ↦ (encoding ∷ [], encoding ∷ [])
]

-- The Ed25519 variants that sign a digest.
abbrev pub prehashed : Ed25519Variant → Bool
prehashed Ed25519Variant.unspecified = true
prehashed ph = true
prehashed _ = false

module _ (k : Core) where
  unfoldable pub validate_request : Request k.Output → Outcome (Unit {0})
  validate_request req = do accepts ← wrapped k.validator; guard (accepts req) invalid_argument

  unfoldable pub generated_key :
      Algorithm → Bytes → Bytes → PublicKeyEncoding → Outcome (GenerateKeyResponse k.Output)
  unfolding private_key_encoding
  generated_key alg pub_der priv_der pub_enc = elim (private_key_encoding alg) [
    | PrivateKeyEncoding.unspecified ↦ err (new internal)
    | priv_enc ↦ ok (record {
      public_key_bytes = pub_der;
      key_material = priv_der;
      output = k.no_output_unencoded;
      key_material_encoding = priv_enc;
      public_key_encoding = pub_enc;
    })
  ]

  abbrev digest_length_ok : Option ℕ → ℕ → Outcome (Unit {0})
  digest_length_ok none digest_len = ok tt
  digest_length_ok (some want_len) digest_len = guard (eqb digest_len want_len) invalid_argument

  unfoldable pub validate_digest_length : HashAlgorithm → ℕ → Outcome (Unit {0})
  validate_digest_length hash_alg digest_len =
      digest_length_ok (k.digest_length_for_hash hash_alg) digest_len

  abbrev pub signed : Text → Outcome Bytes → Outcome (SignResponse k.Output)
  signed encoding m = do
    sig ← wrapped m
    ok (record { signature = sig; output = k.no_output encoding })

  abbrev pub verified : Outcome Bool → Outcome (VerifyResponse k.Output)
  verified m = do valid ← wrapped m; ok (record { valid = valid; output = k.no_output_unencoded })

  abbrev pub encrypted :
      (Bytes → k.Output) → Outcome (Bytes × Bytes) → Outcome (EncryptResponse k.Output)
  encrypted output m = do
    parts ← wrapped m
    ok (record { ciphertext = parts.0; output = output parts.1 })

  abbrev pub decrypted : Outcome Bytes → Outcome (DecryptResponse k.Output)
  decrypted m = do
    plaintext ← wrapped m
    ok (record { plaintext = plaintext; output = k.no_output_unencoded })
