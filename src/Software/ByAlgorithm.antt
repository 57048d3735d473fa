-- ===== src/Software/ByAlgorithm.antt =====
-- No algorithm of the software provider panics in any operation: the branches that provider.go
-- dispatches to.
use citius_server.Prelude.{ℕ, ◌≤◌, inl, inr, Bool, Option-cases, length, Text}
use citius_server.Errors.{invalid_argument}
use citius_server.Software.Outcome.{
  Outcome, NoPanic, guard, wrapped, >>=-NoPanic, wrapped-NoPanic, guard-NoPanic,
}
use citius_server.Software.Types
use citius_server.Software.Types.{
  Bytes, Algorithm, HashAlgorithm, Ed25519Variant, ecdsa, ml_dsa, rsa_pss, rsa_pkcs1_v15, ed25519,
  aes_gcm, aes_cbc, aes_ctr, chacha20_poly1305, SignRequest, VerifyRequest, SignDigestRequest,
  VerifyDigestRequest, EncryptRequest, DecryptRequest, PublicKeyEncoding, Request,
  generate_key_request, sign_request, verify_request, sign_digest_request, verify_digest_request,
  encrypt_request, decrypt_request,
}
use citius_server.Software.Library.{Core, IsCore, Ciphers, IsCiphers, max_plaintext}
use citius_server.Software.Signers.{Signers, IsSigners, IsCalm}
use citius_server.Software.Symmetric.{check_aes_key_size, generate_aes_key, generate_symmetric_key}
use citius_server.Software.AesGcm.{encrypt_aesgcm-NoPanic, decrypt_aesgcm-NoPanic}
use citius_server.Software.AesCbc.{encrypt_aescbc-NoPanic, decrypt_aescbc-NoPanic}
use citius_server.Software.AesCtr.{encrypt_aesctr-NoPanic, decrypt_aesctr-NoPanic}
use citius_server.Software.ChaCha.{
  encrypt_chacha20_poly1305-NoPanic, decrypt_chacha20_poly1305-NoPanic,
}
use citius_server.Software.Rsa.{
  sign_rsapss, verify_rsapss, sign_rsapss_digest, verify_rsapss_digest, sign_rsapkcs1_v15,
  verify_rsapkcs1_v15, sign_rsapkcs1_v15_digest, verify_rsapkcs1_v15_digest,
}
use citius_server.Software.SchemeCalm.{
  generate_ecdsa_key-NoPanic, sign_ecdsa-NoPanic, sign_ecdsa_digest-NoPanic, verify_ecdsa-NoPanic,
  verify_ecdsa_digest-NoPanic, generate_rsa_key-NoPanic, sign_rsapss_core-NoPanic,
  verify_rsapss_core-NoPanic, sign_rsapkcs1_v15_core-NoPanic, verify_rsapkcs1_v15_core-NoPanic,
}
use citius_server.Software.OtherCalm.{
  generate_ed25519_key-NoPanic, sign_ed25519-NoPanic, verify_ed25519-NoPanic,
  sign_ed25519_ph_digest-NoPanic, verify_ed25519_ph_digest-NoPanic, generate_mldsa_key-NoPanic,
  sign_mldsa-NoPanic, verify_mldsa-NoPanic,
}
use citius_server.Software.Encoding.{
  prehashed, generated_key, validate_request, validate_digest_length, signed, verified, encrypted,
  decrypted,
}
use citius_server.Software.Provider.{
  asymmetric, symmetric, generate, sign_by, verify_by, sign_digest_by, verify_digest_by, encrypt_by,
  decrypt_by,
}

-- The parameters of the provider, with what it relies on.
module _ (k : Core) (core : IsCore k) {Random : Type 0} (x : Ciphers Random) (ciphers : IsCiphers x)
    (y : Signers Random) (signers : IsSigners y) (calm : IsCalm y) where
  generate_aes_key-NoPanic : (n : ℕ) (ρ : Random) → NoPanic (generate_aes_key x n ρ)
  unfolding generate_aes_key check_aes_key_size
  generate_aes_key-NoPanic n ρ =
      >>=-NoPanic (check_aes_key_size n) _ (guard-NoPanic _ _)
        λ u e. wrapped-NoPanic _ (ciphers.read-NoPanic _ ρ)

  generate_symmetric_key-NoPanic :
      (alg : Algorithm) (ρ : Random) → NoPanic (generate_symmetric_key x alg ρ)
  unfolding generate_symmetric_key
  generate_symmetric_key-NoPanic (aes_gcm p) ρ = generate_aes_key-NoPanic p.key_size_bits ρ
  generate_symmetric_key-NoPanic (aes_cbc p) ρ = generate_aes_key-NoPanic p.key_size_bits ρ
  generate_symmetric_key-NoPanic (aes_ctr p) ρ = generate_aes_key-NoPanic p.key_size_bits ρ
  generate_symmetric_key-NoPanic (chacha20_poly1305 p) ρ =
      wrapped-NoPanic _ (ciphers.read-NoPanic 32 ρ)
  generate_symmetric_key-NoPanic (ecdsa p) ρ = tt
  generate_symmetric_key-NoPanic (ml_dsa p) ρ = tt
  generate_symmetric_key-NoPanic (rsa_pss p) ρ = tt
  generate_symmetric_key-NoPanic (rsa_pkcs1_v15 p) ρ = tt
  generate_symmetric_key-NoPanic (ed25519 v) ρ = tt
  generate_symmetric_key-NoPanic (Types.unsupported n) ρ = tt

  pub validate_request-NoPanic : (r : Request k.Output) → NoPanic (validate_request k r)
  unfolding validate_request
  validate_request-NoPanic r =
      >>=-NoPanic (wrapped k.validator) _ (wrapped-NoPanic _ core.validator_made)
        λ a e. guard-NoPanic _ _

  pub validate_digest_length-NoPanic :
      (h : HashAlgorithm) (n : ℕ) → NoPanic (validate_digest_length k h n)
  unfolding validate_digest_length
  validate_digest_length-NoPanic h n = elim (Option-cases (k.digest_length_for_hash h)) [
    | inl e ↦ rw e tt
    | inr (want, e) ↦ rw e (guard-NoPanic _ _)
  ]

  generated_key-NoPanic :
      (alg : Algorithm) (p q : Bytes) (e : PublicKeyEncoding) → NoPanic (generated_key k alg p q e)
  unfolding generated_key
  generated_key-NoPanic (ecdsa p) a b e = tt
  generated_key-NoPanic (ml_dsa p) a b e = tt
  generated_key-NoPanic (rsa_pss p) a b e = tt
  generated_key-NoPanic (rsa_pkcs1_v15 p) a b e = tt
  generated_key-NoPanic (ed25519 p) a b e = tt
  generated_key-NoPanic (aes_gcm p) a b e = tt
  generated_key-NoPanic (aes_cbc p) a b e = tt
  generated_key-NoPanic (aes_ctr p) a b e = tt
  generated_key-NoPanic (chacha20_poly1305 p) a b e = tt
  generated_key-NoPanic (Types.unsupported n) a b e = tt

  asymmetric-NoPanic :
      (alg : Algorithm) (e : PublicKeyEncoding) (m : Outcome (Bytes × Bytes))
      → NoPanic m
      → NoPanic (asymmetric k x y alg e m)
  asymmetric-NoPanic alg e m h =
      >>=-NoPanic (wrapped m) _ (wrapped-NoPanic _ h) λ pair made. generated_key-NoPanic alg _ _ e

  symmetric-NoPanic :
      (alg : Algorithm) (m : Outcome Bytes) → NoPanic m → NoPanic (symmetric k x y alg m)
  symmetric-NoPanic alg m h =
      >>=-NoPanic (wrapped m) _ (wrapped-NoPanic _ h) λ key made. generated_key-NoPanic alg _ _ _

  signed-NoPanic : (t : Text) (m : Outcome Bytes) → NoPanic m → NoPanic (signed k t m)
  signed-NoPanic t m h = >>=-NoPanic (wrapped m) _ (wrapped-NoPanic _ h) λ s e. tt

  verified-NoPanic : (m : Outcome Bool) → NoPanic m → NoPanic (verified k m)
  verified-NoPanic m h = >>=-NoPanic (wrapped m) _ (wrapped-NoPanic _ h) λ s e. tt

  encrypted-NoPanic :
      (f : Bytes → k.Output) (m : Outcome (Bytes × Bytes)) → NoPanic m → NoPanic (encrypted k f m)
  encrypted-NoPanic f m h = >>=-NoPanic (wrapped m) _ (wrapped-NoPanic _ h) λ s e. tt

  decrypted-NoPanic : (m : Outcome Bytes) → NoPanic m → NoPanic (decrypted k m)
  decrypted-NoPanic m h = >>=-NoPanic (wrapped m) _ (wrapped-NoPanic _ h) λ s e. tt

  pub generate-NoPanic : (alg : Algorithm) (ρ : Random) → NoPanic (generate k x y alg ρ)
  generate-NoPanic (ecdsa p) ρ =
      asymmetric-NoPanic _ _ _ (generate_ecdsa_key-NoPanic y calm p.curve ρ)
  generate-NoPanic (ml_dsa p) ρ =
      asymmetric-NoPanic _ _ _ (generate_mldsa_key-NoPanic y calm p.parameter_set ρ)
  generate-NoPanic (rsa_pss p) ρ =
      asymmetric-NoPanic _ _ _ (generate_rsa_key-NoPanic y calm p.key_size_bits ρ)
  generate-NoPanic (rsa_pkcs1_v15 p) ρ =
      asymmetric-NoPanic _ _ _ (generate_rsa_key-NoPanic y calm p.key_size_bits ρ)
  generate-NoPanic (ed25519 v) ρ = asymmetric-NoPanic _ _ _ (generate_ed25519_key-NoPanic y calm ρ)
  generate-NoPanic (aes_gcm p) ρ =
      symmetric-NoPanic _ _ (generate_symmetric_key-NoPanic (aes_gcm p) ρ)
  generate-NoPanic (aes_cbc p) ρ =
      symmetric-NoPanic _ _ (generate_symmetric_key-NoPanic (aes_cbc p) ρ)
  generate-NoPanic (aes_ctr p) ρ =
      symmetric-NoPanic _ _ (generate_symmetric_key-NoPanic (aes_ctr p) ρ)
  generate-NoPanic (chacha20_poly1305 p) ρ =
      symmetric-NoPanic _ _ (generate_symmetric_key-NoPanic (chacha20_poly1305 p) ρ)
  generate-NoPanic (Types.unsupported n) ρ = tt

  pub sign_by-NoPanic :
      (alg : Algorithm) (r : SignRequest) (ρ : Random) → NoPanic (sign_by k x y alg r ρ)
  unfolding sign_rsapss sign_rsapkcs1_v15
  sign_by-NoPanic (ecdsa p) r ρ =
      signed-NoPanic _ _
        (sign_ecdsa-NoPanic y calm signers ρ _ _ _ p.curve p.hash p.signature_format)
  sign_by-NoPanic (ml_dsa p) r ρ =
      signed-NoPanic _ _ (sign_mldsa-NoPanic y calm ρ _ _ _ _ p.parameter_set p.deterministic)
  sign_by-NoPanic (rsa_pss p) r ρ =
      signed-NoPanic _ _ (sign_rsapss_core-NoPanic y calm ρ _ _ _ p.hash p)
  sign_by-NoPanic (rsa_pkcs1_v15 p) r ρ =
      signed-NoPanic _ _ (sign_rsapkcs1_v15_core-NoPanic y calm ρ _ _ _ p.hash p)
  sign_by-NoPanic (ed25519 v) r ρ = signed-NoPanic _ _ (sign_ed25519-NoPanic y calm _ _ _ v)
  sign_by-NoPanic (aes_gcm p) r ρ = tt
  sign_by-NoPanic (aes_cbc p) r ρ = tt
  sign_by-NoPanic (aes_ctr p) r ρ = tt
  sign_by-NoPanic (chacha20_poly1305 p) r ρ = tt
  sign_by-NoPanic (Types.unsupported n) r ρ = tt

  pub verify_by-NoPanic : (alg : Algorithm) (r : VerifyRequest) → NoPanic (verify_by k x y alg r)
  unfolding verify_rsapss verify_rsapkcs1_v15
  verify_by-NoPanic (ecdsa p) r =
      verified-NoPanic _
        (verify_ecdsa-NoPanic y calm signers _ _ _ _ _ p.curve p.hash p.signature_format)
  verify_by-NoPanic (ml_dsa p) r =
      verified-NoPanic _ (verify_mldsa-NoPanic y calm _ _ _ _ p.parameter_set)
  verify_by-NoPanic (rsa_pss p) r =
      verified-NoPanic _ (verify_rsapss_core-NoPanic y calm _ _ _ _ p.hash p)
  verify_by-NoPanic (rsa_pkcs1_v15 p) r =
      verified-NoPanic _ (verify_rsapkcs1_v15_core-NoPanic y calm _ _ _ _ p.hash p)
  verify_by-NoPanic (ed25519 v) r = verified-NoPanic _ (verify_ed25519-NoPanic y calm _ _ _ _ v)
  verify_by-NoPanic (aes_gcm p) r = tt
  verify_by-NoPanic (aes_cbc p) r = tt
  verify_by-NoPanic (aes_ctr p) r = tt
  verify_by-NoPanic (chacha20_poly1305 p) r = tt
  verify_by-NoPanic (Types.unsupported n) r = tt

  pub sign_digest_by-NoPanic :
      (alg : Algorithm) (r : SignDigestRequest) (ρ : Random)
      → NoPanic (sign_digest_by k x y alg r ρ)
  unfolding sign_rsapss_digest sign_rsapkcs1_v15_digest
  sign_digest_by-NoPanic (ecdsa p) r ρ =
      signed-NoPanic _ _
        (sign_ecdsa_digest-NoPanic y calm signers ρ _ _ _ p.curve p.signature_format)
  sign_digest_by-NoPanic (ml_dsa p) r ρ = tt
  sign_digest_by-NoPanic (rsa_pss p) r ρ =
      signed-NoPanic _ _ (sign_rsapss_core-NoPanic y calm ρ _ _ _ r.hash_algorithm p)
  sign_digest_by-NoPanic (rsa_pkcs1_v15 p) r ρ =
      signed-NoPanic _ _ (sign_rsapkcs1_v15_core-NoPanic y calm ρ _ _ _ r.hash_algorithm p)
  sign_digest_by-NoPanic (ed25519 v) r ρ =
      >>=-NoPanic (guard (prehashed v) invalid_argument) _ (guard-NoPanic _ _)
        λ u e. signed-NoPanic _ _ (sign_ed25519_ph_digest-NoPanic y calm _ _ _ r.hash_algorithm)
  sign_digest_by-NoPanic (aes_gcm p) r ρ = tt
  sign_digest_by-NoPanic (aes_cbc p) r ρ = tt
  sign_digest_by-NoPanic (aes_ctr p) r ρ = tt
  sign_digest_by-NoPanic (chacha20_poly1305 p) r ρ = tt
  sign_digest_by-NoPanic (Types.unsupported n) r ρ = tt

  pub verify_digest_by-NoPanic :
      (alg : Algorithm) (r : VerifyDigestRequest) → NoPanic (verify_digest_by k x y alg r)
  unfolding verify_rsapss_digest verify_rsapkcs1_v15_digest
  verify_digest_by-NoPanic (ecdsa p) r =
      verified-NoPanic _
        (verify_ecdsa_digest-NoPanic y calm signers _ _ _ _ _ p.curve p.signature_format)
  verify_digest_by-NoPanic (ml_dsa p) r = tt
  verify_digest_by-NoPanic (rsa_pss p) r =
      verified-NoPanic _ (verify_rsapss_core-NoPanic y calm _ _ _ _ r.hash_algorithm p)
  verify_digest_by-NoPanic (rsa_pkcs1_v15 p) r =
      verified-NoPanic _ (verify_rsapkcs1_v15_core-NoPanic y calm _ _ _ _ r.hash_algorithm p)
  verify_digest_by-NoPanic (ed25519 v) r =
      >>=-NoPanic (guard (prehashed v) invalid_argument) _ (guard-NoPanic _ _)
        λ u e. verified-NoPanic _ (verify_ed25519_ph_digest-NoPanic y calm _ _ _ _ r.hash_algorithm)
  verify_digest_by-NoPanic (aes_gcm p) r = tt
  verify_digest_by-NoPanic (aes_cbc p) r = tt
  verify_digest_by-NoPanic (aes_ctr p) r = tt
  verify_digest_by-NoPanic (chacha20_poly1305 p) r = tt
  verify_digest_by-NoPanic (Types.unsupported n) r = tt

  pub encrypt_by-NoPanic :
      (alg : Algorithm) (r : EncryptRequest) (ρ : Random)
      → length r.plaintext ≤ max_plaintext
      → NoPanic (encrypt_by k x y alg r ρ)
  encrypt_by-NoPanic (aes_gcm p) r ρ small =
      encrypted-NoPanic _ _ (encrypt_aesgcm-NoPanic x ciphers _ r.plaintext _ p ρ small)
  encrypt_by-NoPanic (aes_cbc p) r ρ small =
      encrypted-NoPanic _ _ (encrypt_aescbc-NoPanic x ciphers _ r.plaintext p ρ)
  encrypt_by-NoPanic (aes_ctr p) r ρ small =
      encrypted-NoPanic _ _ (encrypt_aesctr-NoPanic x ciphers _ r.plaintext p ρ)
  encrypt_by-NoPanic (chacha20_poly1305 p) r ρ small =
      encrypted-NoPanic _ _ (encrypt_chacha20_poly1305-NoPanic x ciphers _ r.plaintext _ p ρ small)
  encrypt_by-NoPanic (ecdsa p) r ρ small = tt
  encrypt_by-NoPanic (ml_dsa p) r ρ small = tt
  encrypt_by-NoPanic (rsa_pss p) r ρ small = tt
  encrypt_by-NoPanic (rsa_pkcs1_v15 p) r ρ small = tt
  encrypt_by-NoPanic (ed25519 v) r ρ small = tt
  encrypt_by-NoPanic (Types.unsupported n) r ρ small = tt

  pub decrypt_by-NoPanic :
      (alg : Algorithm) (r : DecryptRequest k.Output) → NoPanic (decrypt_by k x y alg r)
  decrypt_by-NoPanic (aes_gcm p) r =
      decrypted-NoPanic _ (decrypt_aesgcm-NoPanic x ciphers _ r.ciphertext _ _ p)
  decrypt_by-NoPanic (aes_cbc p) r =
      decrypted-NoPanic _ (decrypt_aescbc-NoPanic x ciphers _ r.ciphertext _ p)
  decrypt_by-NoPanic (aes_ctr p) r =
      decrypted-NoPanic _ (decrypt_aesctr-NoPanic x ciphers _ r.ciphertext _ p)
  decrypt_by-NoPanic (chacha20_poly1305 p) r =
      decrypted-NoPanic _ (decrypt_chacha20_poly1305-NoPanic x ciphers _ r.ciphertext _ _ p)
  decrypt_by-NoPanic (ecdsa p) r = tt
  decrypt_by-NoPanic (ml_dsa p) r = tt
  decrypt_by-NoPanic (rsa_pss p) r = tt
  decrypt_by-NoPanic (rsa_pkcs1_v15 p) r = tt
  decrypt_by-NoPanic (ed25519 v) r = tt
  decrypt_by-NoPanic (Types.unsupported n) r = tt
