-- ===== src/Software/Provider.antt =====
-- internal/provider/software/provider.go: the operations, which dispatch on the algorithm of a request.
use citius_server.Prelude.{◌/◌, [], length, codes}
use citius_server.Errors.{new, invalid_argument, not_implemented}
use citius_server.Software.Outcome.{Outcome, err, ◌>>=◌, ◌>>◌, guard, wrapped}
use citius_server.Software.Types
use citius_server.Software.Types.{
  Bytes, HashAlgorithm, SignatureFormat, Ed25519Variant, ph, PrivateKeyEncoding, PublicKeyEncoding,
  spki, sec1, pkcs8, Algorithm, ecdsa, ml_dsa, rsa_pss, rsa_pkcs1_v15, ed25519, aes_gcm, aes_cbc,
  aes_ctr, chacha20_poly1305, SignRequest, VerifyRequest, SignDigestRequest, VerifyDigestRequest,
  EncryptRequest, DecryptRequest, GenerateKeyResponse, SignResponse, VerifyResponse,
  EncryptResponse, DecryptResponse, Request, generate_key_request, sign_request, verify_request,
  sign_digest_request, verify_digest_request, encrypt_request, decrypt_request,
}
use citius_server.Software.Library.{Core, Ciphers}
use citius_server.Software.Signers.{Signers}
use citius_server.Software.Symmetric.{generate_symmetric_key}
use citius_server.Software.AesGcm.{encrypt_aesgcm, decrypt_aesgcm}
use citius_server.Software.AesCbc.{encrypt_aescbc, decrypt_aescbc}
use citius_server.Software.AesCtr.{encrypt_aesctr, decrypt_aesctr}
use citius_server.Software.ChaCha.{
  encrypt_chacha20_poly1305, decrypt_chacha20_poly1305, chacha20_poly1305_tag_size_bytes,
}
use citius_server.Software.EcdsaFormat.{ecdsa_signature_encoding_label}
use citius_server.Software.Ecdsa.{
  generate_ecdsa_key, sign_ecdsa, verify_ecdsa, sign_ecdsa_digest, verify_ecdsa_digest,
}
use citius_server.Software.Rsa.{
  generate_rsa_key, sign_rsapss, verify_rsapss, sign_rsapss_digest, verify_rsapss_digest,
  sign_rsapkcs1_v15, verify_rsapkcs1_v15, sign_rsapkcs1_v15_digest, verify_rsapkcs1_v15_digest,
}
use citius_server.Software.Ed25519.{
  generate_ed25519_key, sign_ed25519, verify_ed25519, sign_ed25519_ph_digest,
  verify_ed25519_ph_digest,
}
use citius_server.Software.MlDsa.{generate_mldsa_key, sign_mldsa, verify_mldsa}
use citius_server.Software.Encoding.{
  prehashed, validate_request, generated_key, validate_digest_length, signed, verified, encrypted,
  decrypted,
}

module _ (k : Core) {Random : Type 0} (x : Ciphers Random) (y : Signers Random) where
  -- The public key, which a symmetric algorithm has none of, and the private one.
  abbrev pub asymmetric :
      Algorithm
      → PublicKeyEncoding
      → Outcome (Bytes × Bytes)
      → Outcome (GenerateKeyResponse k.Output)
  asymmetric alg pub_enc m = do pair ← wrapped m; generated_key k alg pair.0 pair.1 pub_enc

  abbrev pub symmetric : Algorithm → Outcome Bytes → Outcome (GenerateKeyResponse k.Output)
  symmetric alg m = do key ← wrapped m; generated_key k alg [] key PublicKeyEncoding.unspecified

  abbrev pub generate : Algorithm → Random → Outcome (GenerateKeyResponse k.Output)
  generate (ecdsa p) ρ = asymmetric (ecdsa p) spki (generate_ecdsa_key y p.curve ρ)
  generate (ml_dsa p) ρ =
      asymmetric (ml_dsa p) PublicKeyEncoding.raw (generate_mldsa_key y p.parameter_set ρ)
  generate (rsa_pss p) ρ = asymmetric (rsa_pss p) spki (generate_rsa_key y p.key_size_bits ρ)
  generate (rsa_pkcs1_v15 p) ρ =
      asymmetric (rsa_pkcs1_v15 p) spki (generate_rsa_key y p.key_size_bits ρ)
  generate (ed25519 v) ρ = asymmetric (ed25519 v) spki (generate_ed25519_key y ρ)
  generate (aes_gcm p) ρ = symmetric (aes_gcm p) (generate_symmetric_key x (aes_gcm p) ρ)
  generate (aes_cbc p) ρ = symmetric (aes_cbc p) (generate_symmetric_key x (aes_cbc p) ρ)
  generate (aes_ctr p) ρ = symmetric (aes_ctr p) (generate_symmetric_key x (aes_ctr p) ρ)
  generate (chacha20_poly1305 p) ρ =
      symmetric (chacha20_poly1305 p) (generate_symmetric_key x (chacha20_poly1305 p) ρ)
  generate (Types.unsupported n) ρ = err (new not_implemented)

  unfoldable pub generate_key : Algorithm → Random → Outcome (GenerateKeyResponse k.Output)
  unfolding validate_request generated_key
  generate_key alg ρ = do validate_request k (generate_key_request alg); generate alg ρ

  abbrev pub sign_by : Algorithm → SignRequest → Random → Outcome (SignResponse k.Output)
  sign_by (ecdsa p) req ρ = signed k (ecdsa_signature_encoding_label p.signature_format) (
      sign_ecdsa y ρ req.key_material req.input req.key_material_encoding p.curve p.hash
        p.signature_format)
  sign_by (ml_dsa p) req ρ = signed k (codes "raw") (
      sign_mldsa y ρ req.key_material req.input req.context req.key_material_encoding
        p.parameter_set p.deterministic)
  sign_by (rsa_pss p) req ρ =
      signed k (codes "raw")
        (sign_rsapss y ρ req.key_material req.input req.key_material_encoding p)
  sign_by (rsa_pkcs1_v15 p) req ρ =
      signed k (codes "raw")
        (sign_rsapkcs1_v15 y ρ req.key_material req.input req.key_material_encoding p)
  sign_by (ed25519 v) req ρ =
      signed k (codes "raw") (sign_ed25519 y req.key_material req.input req.key_material_encoding v)
  sign_by _ req ρ = err (new not_implemented)

  unfoldable pub sign : SignRequest → Random → Outcome (SignResponse k.Output)
  unfolding validate_request
  sign req ρ = do validate_request k (sign_request req); sign_by req.algorithm req ρ

  abbrev pub verify_by : Algorithm → VerifyRequest → Outcome (VerifyResponse k.Output)
  verify_by (ecdsa p) req = verified k (
      verify_ecdsa y k.is_not_implemented req.key_material req.input req.signature
        req.key_material_encoding p.curve p.hash p.signature_format)
  verify_by (ml_dsa p) req =
      verified k
        (verify_mldsa y req.key_material req.input req.signature req.context p.parameter_set)
  verify_by (rsa_pss p) req =
      verified k
        (verify_rsapss y req.key_material req.input req.signature req.key_material_encoding p)
  verify_by (rsa_pkcs1_v15 p) req =
      verified k
        (verify_rsapkcs1_v15 y req.key_material req.input req.signature req.key_material_encoding p)
  verify_by (ed25519 v) req =
      verified k
        (verify_ed25519 y req.key_material req.input req.signature req.key_material_encoding v)
  verify_by _ req = err (new not_implemented)

  unfoldable pub verify : VerifyRequest → Outcome (VerifyResponse k.Output)
  unfolding validate_request
  verify req = do validate_request k (verify_request req); verify_by req.algorithm req

  abbrev pub sign_digest_by :
      Algorithm → SignDigestRequest → Random → Outcome (SignResponse k.Output)
  sign_digest_by (ecdsa p) req ρ = signed k (ecdsa_signature_encoding_label p.signature_format) (
      sign_ecdsa_digest y ρ req.key_material req.digest req.key_material_encoding p.curve
        p.signature_format)
  sign_digest_by (ml_dsa p) req ρ = err (new invalid_argument)
  sign_digest_by (rsa_pss p) req ρ = signed k (codes "raw") (
      sign_rsapss_digest y ρ req.key_material req.digest req.key_material_encoding
        req.hash_algorithm p)
  sign_digest_by (rsa_pkcs1_v15 p) req ρ = signed k (codes "raw") (
      sign_rsapkcs1_v15_digest y ρ req.key_material req.digest req.key_material_encoding
        req.hash_algorithm p)
  sign_digest_by (ed25519 v) req ρ = do
    guard (prehashed v) invalid_argument
    signed k (codes "raw") (
        sign_ed25519_ph_digest y req.key_material req.digest req.key_material_encoding
          req.hash_algorithm)
  sign_digest_by _ req ρ = err (new not_implemented)

  unfoldable pub sign_digest : SignDigestRequest → Random → Outcome (SignResponse k.Output)
  unfolding validate_request validate_digest_length
  sign_digest req ρ = do
    validate_request k (sign_digest_request req)
    validate_digest_length k req.hash_algorithm (length req.digest)
    sign_digest_by req.algorithm req ρ

  abbrev pub verify_digest_by : Algorithm → VerifyDigestRequest → Outcome (VerifyResponse k.Output)
  verify_digest_by (ecdsa p) req = verified k (
      verify_ecdsa_digest y k.is_not_implemented req.key_material req.digest req.signature
        req.key_material_encoding p.curve p.signature_format)
  verify_digest_by (ml_dsa p) req = err (new invalid_argument)
  verify_digest_by (rsa_pss p) req = verified k (
      verify_rsapss_digest y req.key_material req.digest req.signature req.key_material_encoding
        req.hash_algorithm p)
  verify_digest_by (rsa_pkcs1_v15 p) req = verified k (
      verify_rsapkcs1_v15_digest y req.key_material req.digest req.signature
        req.key_material_encoding req.hash_algorithm p)
  verify_digest_by (ed25519 v) req = do
    guard (prehashed v) invalid_argument
    verified k (
        verify_ed25519_ph_digest y req.key_material req.digest req.signature
          req.key_material_encoding req.hash_algorithm)
  verify_digest_by _ req = err (new not_implemented)

  unfoldable pub verify_digest : VerifyDigestRequest → Outcome (VerifyResponse k.Output)
  unfolding validate_request validate_digest_length
  verify_digest req = do
    validate_request k (verify_digest_request req)
    validate_digest_length k req.hash_algorithm (length req.digest)
    verify_digest_by req.algorithm req

  abbrev pub encrypt_by : Algorithm → EncryptRequest → Random → Outcome (EncryptResponse k.Output)
  encrypt_by (aes_gcm p) req ρ =
      encrypted k (λ nonce. k.aead_output nonce (p.tag_size_bits / 8) (codes "raw"))
        (encrypt_aesgcm x req.key_material req.plaintext req.aad p ρ)
  encrypt_by (aes_cbc p) req ρ =
      encrypted k (λ iv. k.block_cipher_output iv (codes "raw"))
        (encrypt_aescbc x req.key_material req.plaintext p ρ)
  encrypt_by (aes_ctr p) req ρ =
      encrypted k (λ iv. k.block_cipher_output iv (codes "raw"))
        (encrypt_aesctr x req.key_material req.plaintext p ρ)
  encrypt_by (chacha20_poly1305 p) req ρ =
      encrypted k (λ nonce. k.aead_output nonce chacha20_poly1305_tag_size_bytes (codes "raw"))
        (encrypt_chacha20_poly1305 x req.key_material req.plaintext req.aad p ρ)
  encrypt_by _ req ρ = err (new not_implemented)

  unfoldable pub encrypt : EncryptRequest → Random → Outcome (EncryptResponse k.Output)
  unfolding validate_request
  encrypt req ρ = do validate_request k (encrypt_request req); encrypt_by req.algorithm req ρ

  abbrev pub decrypt_by : Algorithm → DecryptRequest k.Output → Outcome (DecryptResponse k.Output)
  decrypt_by (aes_gcm p) req =
      decrypted k
        (decrypt_aesgcm x req.key_material req.ciphertext (k.aead_nonce req.output) req.aad p)
  decrypt_by (aes_cbc p) req =
      decrypted k
        (decrypt_aescbc x req.key_material req.ciphertext (k.block_cipher_iv req.output) p)
  decrypt_by (aes_ctr p) req =
      decrypted k
        (decrypt_aesctr x req.key_material req.ciphertext (k.block_cipher_iv req.output) p)
  decrypt_by (chacha20_poly1305 p) req = decrypted k (
      decrypt_chacha20_poly1305 x req.key_material req.ciphertext (k.aead_nonce req.output) req.aad
        p)
  decrypt_by _ req = err (new not_implemented)

  unfoldable pub decrypt : DecryptRequest k.Output → Outcome (DecryptResponse k.Output)
  unfolding validate_request
  decrypt req = do validate_request k (decrypt_request req); decrypt_by req.algorithm req
