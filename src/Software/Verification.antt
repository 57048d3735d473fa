-- ===== src/Software/Verification.antt =====
-- What a generated key signs is valid under its public half, for every algorithm that signs.
use citius_server.Prelude.{◌≡◌, refl, length}
use citius_server.Errors.{invalid_argument}
use citius_server.Software.Outcome.{ok, guard, from_ok, then_ok}
use citius_server.Software.Types
use citius_server.Software.Types.{
  Bytes, Algorithm, HashAlgorithm, ecdsa, ml_dsa, rsa_pss, rsa_pkcs1_v15, ed25519, aes_gcm, aes_cbc,
  aes_ctr, chacha20_poly1305, PrivateKeyEncoding, PublicKeyEncoding, spki, sec1, pkcs8, SignRequest,
  VerifyRequest, SignDigestRequest, VerifyDigestRequest, GenerateKeyResponse, SignResponse,
  VerifyResponse, generate_key_request, sign_request, verify_request, sign_digest_request,
  verify_digest_request,
}
use citius_server.Software.Library.{Core, Ciphers}
use citius_server.Software.Signers.{Signers, IsSigners}
use citius_server.Software.Ecdsa.{generate_ecdsa_key}
use citius_server.Software.Rsa.{
  generate_rsa_key, sign_rsapss, verify_rsapss, sign_rsapss_digest, verify_rsapss_digest,
  sign_rsapkcs1_v15, verify_rsapkcs1_v15, sign_rsapkcs1_v15_digest, verify_rsapkcs1_v15_digest,
  rsa_digest_bytes,
}
use citius_server.Software.Ed25519.{generate_ed25519_key}
use citius_server.Software.MlDsa.{generate_mldsa_key}
use citius_server.Software.EcdsaLaws.{
  generate_ecdsa_key-EcdsaPair, verify_ecdsa-sign_ecdsa, verify_ecdsa_digest-sign_ecdsa_digest,
}
use citius_server.Software.RsaLaws.{
  generate_rsa_key-RsaPair, verify_rsapss_core-sign_rsapss_core,
  verify_rsapkcs1_v15_core-sign_rsapkcs1_v15_core,
}
use citius_server.Software.Ed25519Laws.{
  generate_ed25519_key-Ed25519Pair, verify_ed25519-sign_ed25519,
  verify_ed25519_ph_digest-sign_ed25519_ph_digest,
}
use citius_server.Software.MlDsaLaws.{generate_mldsa_key-MlDsaPair, verify_mldsa-sign_mldsa}
use citius_server.Software.Encoding.{
  prehashed, generated_key, validate_request, validate_digest_length,
}
use citius_server.Software.Provider.{
  generate, generate_key, sign_by, sign, verify_by, verify, sign_digest_by, sign_digest,
  verify_digest_by, verify_digest,
}
use citius_server.Software.GeneratedKeys.{
  from_generated, signed-eq-ok, valid_response, verified-true, signing, verifying, signing_digest,
  verifying_digest,
}

module _ (k : Core) {Random : Type 0} (x : Ciphers Random) (y : Signers Random) where
  module _ (laws : IsSigners y) (ρ σ : Random) (m : Bytes) (s : SignResponse k.Output) where
    -- If the key signs a text under a context, the signature is valid for them.
    abbrev SignsValidly : Bytes → Algorithm → GenerateKeyResponse k.Output → Type 0
    SignsValidly ctx alg g =
        sign_by k x y alg (signing k alg g m ctx) σ ≡ ok s
        → verify_by k x y alg (verifying k alg g m ctx s) ≡ ok (valid_response k)

    verify_by-sign_by :
        (ctx : Bytes) (alg : Algorithm) {g : GenerateKeyResponse k.Output}
        → generate k x y alg ρ ≡ ok g
        → SignsValidly ctx alg g
    unfolding generated_key sign_rsapss verify_rsapss sign_rsapkcs1_v15 verify_rsapkcs1_v15
    verify_by-sign_by ctx (ecdsa p) made =
        from_generated k x y (SignsValidly ctx (ecdsa p)) (ecdsa p) sec1 spki
          (generate_ecdsa_key y p.curve ρ) (λ pair. refl) made
          λ pair keys h. verified-true k _ (
            verify_ecdsa-sign_ecdsa y laws (generate_ecdsa_key-EcdsaPair y laws p.curve ρ keys)
              k.is_not_implemented σ m p.curve p.hash p.signature_format (signed-eq-ok k _ _ h))
    verify_by-sign_by ctx (ml_dsa p) made =
        from_generated k x y (SignsValidly ctx (ml_dsa p)) (ml_dsa p) pkcs8 PublicKeyEncoding.raw
          (generate_mldsa_key y p.parameter_set ρ) (λ pair. refl) made
          λ pair keys h. verified-true k _ (
            verify_mldsa-sign_mldsa y laws
              (generate_mldsa_key-MlDsaPair y laws p.parameter_set ρ keys) σ m ctx p.parameter_set
              p.deterministic (signed-eq-ok k _ _ h))
    verify_by-sign_by ctx (rsa_pss p) made =
        from_generated k x y (SignsValidly ctx (rsa_pss p)) (rsa_pss p) pkcs8 spki
          (generate_rsa_key y p.key_size_bits ρ) (λ pair. refl) made
          λ pair keys h. verified-true k _ (
            verify_rsapss_core-sign_rsapss_core y laws
              (generate_rsa_key-RsaPair y laws p.key_size_bits ρ keys) σ
              (rsa_digest_bytes y p.hash m) p.hash p (signed-eq-ok k _ _ h))
    verify_by-sign_by ctx (rsa_pkcs1_v15 p) made =
        from_generated k x y (SignsValidly ctx (rsa_pkcs1_v15 p)) (rsa_pkcs1_v15 p) pkcs8 spki
          (generate_rsa_key y p.key_size_bits ρ) (λ pair. refl) made
          λ pair keys h. verified-true k _ (
            verify_rsapkcs1_v15_core-sign_rsapkcs1_v15_core y laws
              (generate_rsa_key-RsaPair y laws p.key_size_bits ρ keys) σ
              (rsa_digest_bytes y p.hash m) p.hash p (signed-eq-ok k _ _ h))
    verify_by-sign_by ctx (ed25519 v) made =
        from_generated k x y (SignsValidly ctx (ed25519 v)) (ed25519 v) pkcs8 spki
          (generate_ed25519_key y ρ) (λ pair. refl) made
          λ pair keys h. verified-true k _ (
            verify_ed25519-sign_ed25519 y laws (generate_ed25519_key-Ed25519Pair y laws ρ keys) m v
              (signed-eq-ok k _ _ h))
    verify_by-sign_by ctx (aes_gcm p) made = λ h. absurd (cc)
    verify_by-sign_by ctx (aes_cbc p) made = λ h. absurd (cc)
    verify_by-sign_by ctx (aes_ctr p) made = λ h. absurd (cc)
    verify_by-sign_by ctx (chacha20_poly1305 p) made = λ h. absurd (cc)
    verify_by-sign_by ctx (Types.unsupported n) made = λ h. absurd (cc)

    -- If the key signs a digest of some hash, the signature is valid for it.
    abbrev SignsDigestValidly : HashAlgorithm → Algorithm → GenerateKeyResponse k.Output → Type 0
    SignsDigestValidly hash alg g =
        sign_digest_by k x y alg (signing_digest k alg g m hash) σ ≡ ok s
        → verify_digest_by k x y alg (verifying_digest k alg g m hash s) ≡ ok (valid_response k)

    verify_digest_by-sign_digest_by :
        (hash : HashAlgorithm) (alg : Algorithm) {g : GenerateKeyResponse k.Output}
        → generate k x y alg ρ ≡ ok g
        → SignsDigestValidly hash alg g
    unfolding generated_key sign_rsapss_digest verify_rsapss_digest sign_rsapkcs1_v15_digest
        verify_rsapkcs1_v15_digest
    verify_digest_by-sign_digest_by hash (ecdsa p) made =
        from_generated k x y (SignsDigestValidly hash (ecdsa p)) (ecdsa p) sec1 spki
          (generate_ecdsa_key y p.curve ρ) (λ pair. refl) made
          λ pair keys h. verified-true k _ (
            verify_ecdsa_digest-sign_ecdsa_digest y laws
              (generate_ecdsa_key-EcdsaPair y laws p.curve ρ keys) k.is_not_implemented σ m p.curve
              p.signature_format (signed-eq-ok k _ _ h))
    verify_digest_by-sign_digest_by hash (ml_dsa p) made = λ h. absurd (cc)
    verify_digest_by-sign_digest_by hash (rsa_pss p) made =
        from_generated k x y (SignsDigestValidly hash (rsa_pss p)) (rsa_pss p) pkcs8 spki
          (generate_rsa_key y p.key_size_bits ρ) (λ pair. refl) made
          λ pair keys h. verified-true k _ (
            verify_rsapss_core-sign_rsapss_core y laws
              (generate_rsa_key-RsaPair y laws p.key_size_bits ρ keys) σ m hash p
              (signed-eq-ok k _ _ h))
    verify_digest_by-sign_digest_by hash (rsa_pkcs1_v15 p) made =
        from_generated k x y (SignsDigestValidly hash (rsa_pkcs1_v15 p)) (rsa_pkcs1_v15 p) pkcs8
          spki (generate_rsa_key y p.key_size_bits ρ) (λ pair. refl) made
          λ pair keys h. verified-true k _ (
            verify_rsapkcs1_v15_core-sign_rsapkcs1_v15_core y laws
              (generate_rsa_key-RsaPair y laws p.key_size_bits ρ keys) σ m hash p
              (signed-eq-ok k _ _ h))
    verify_digest_by-sign_digest_by hash (ed25519 v) made =
        from_generated k x y (SignsDigestValidly hash (ed25519 v)) (ed25519 v) pkcs8 spki
          (generate_ed25519_key y ρ) (λ pair. refl) made
          λ pair keys h. from_ok (guard (prehashed v) invalid_argument) h λ u is_ph h1.
            then_ok (guard (prehashed v) invalid_argument) _ is_ph (
              verified-true k _ (
                verify_ed25519_ph_digest-sign_ed25519_ph_digest y laws
                  (generate_ed25519_key-Ed25519Pair y laws ρ keys) m hash (signed-eq-ok k _ _ h1)))
    verify_digest_by-sign_digest_by hash (aes_gcm p) made = λ h. absurd (cc)
    verify_digest_by-sign_digest_by hash (aes_cbc p) made = λ h. absurd (cc)
    verify_digest_by-sign_digest_by hash (aes_ctr p) made = λ h. absurd (cc)
    verify_digest_by-sign_digest_by hash (chacha20_poly1305 p) made = λ h. absurd (cc)
    verify_digest_by-sign_digest_by hash (Types.unsupported n) made = λ h. absurd (cc)

    -- For every algorithm: what `Sign` returns for a key of `GenerateKey`, given the key material and
    -- its encoding, `Verify` finds valid for the same text and context, given the public key and its
    -- encoding, if the validator accepts the request.
    pub verify-sign-generate_key :
        (ctx : Bytes) (alg : Algorithm) {g : GenerateKeyResponse k.Output}
        → generate_key k x y alg ρ ≡ ok g
        → sign k x y (signing k alg g m ctx) σ ≡ ok s
        → validate_request k (verify_request (verifying k alg g m ctx s)) ≡ ok tt
        → verify k x y (verifying k alg g m ctx s) ≡ ok (valid_response k)
    unfolding generate_key sign verify
    verify-sign-generate_key ctx alg {g} made h accepted =
        from_ok (validate_request k (generate_key_request alg)) made λ u v made1.
          from_ok (validate_request k (sign_request (signing k alg g m ctx))) h λ u2 v2 h1.
            then_ok (validate_request k (verify_request (verifying k alg g m ctx s))) _ accepted
              (verify_by-sign_by ctx alg made1 h1)

    -- For every algorithm: what `SignDigest` returns for a key of `GenerateKey` and a digest of the
    -- declared hash, `VerifyDigest` finds valid for the same digest and hash, given the public key and
    -- its encoding, if the validator accepts the request.
    pub verify_digest-sign_digest :
        (hash : HashAlgorithm) (alg : Algorithm) {g : GenerateKeyResponse k.Output}
        → generate_key k x y alg ρ ≡ ok g
        → sign_digest k x y (signing_digest k alg g m hash) σ ≡ ok s
        → validate_request k (verify_digest_request (verifying_digest k alg g m hash s)) ≡ ok tt
        → verify_digest k x y (verifying_digest k alg g m hash s) ≡ ok (valid_response k)
    unfolding generate_key sign_digest verify_digest
    verify_digest-sign_digest hash alg {g} made h accepted =
        from_ok (validate_request k (generate_key_request alg)) made λ u v made1.
          from_ok (validate_request k (sign_digest_request (signing_digest k alg g m hash))) h
            λ u2 v2 h1. from_ok (validate_digest_length k hash (length m)) h1 λ u3 size h2.
              then_ok
                (validate_request k (verify_digest_request (verifying_digest k alg g m hash s))) _
                accepted
                (then_ok (validate_digest_length k hash (length m)) _ size
                  (verify_digest_by-sign_digest_by hash alg made1 h2))
