-- ===== src/Software/Judging.antt =====
-- A bad signature is never an error: what Verify and VerifyDigest fail with depends on the rest of a
-- request only.
use citius_server.Prelude.{◌≡◌, refl, sym, ◌∙◌, ◌⊎◌, inl, inr, length}
use citius_server.Errors.{Error, invalid_argument}
use citius_server.Software.Outcome.{Outcome, ok, err, guard, then_ok}
use citius_server.Software.Types
use citius_server.Software.Types.{
  Bytes, Algorithm, EllipticCurve, HashAlgorithm, SignatureFormat, der, ieee_p1363, Ed25519Variant,
  ecdsa, ml_dsa, rsa_pss, rsa_pkcs1_v15, ed25519, aes_gcm, aes_cbc, aes_ctr, chacha20_poly1305,
  PublicKeyEncoding, RsaPssParams, RsaPkcs1V15Params, VerifyRequest, VerifyDigestRequest,
  VerifyResponse, Request, verify_request, verify_digest_request,
}
use citius_server.Software.Library.{Core, Ciphers}
use citius_server.Software.Signers.{Signers}
use citius_server.Software.Rsa.{
  verify_rsapss, verify_rsapss_digest, verify_rsapkcs1_v15, verify_rsapkcs1_v15_digest,
}
use citius_server.Software.Encoding.{prehashed, validate_request, validate_digest_length}
use citius_server.Software.Provider.{verify_by, verify, verify_digest_by, verify_digest}
use citius_server.Software.SchemeErrors.{
  FailsAs, IsJudge, >>=-FailsAs, verified-FailsAs, verify_ecdsa-FailsAs,
  verify_ecdsa_digest-FailsAs, verify_rsapss_core-FailsAs, verify_rsapkcs1_v15_core-FailsAs,
  verify_ed25519-FailsAs, verify_ed25519_ph_digest-FailsAs, verify_mldsa-FailsAs,
}

module _ (k : Core) {Random : Type 0} (x : Ciphers Random) (y : Signers Random)
    (judge : IsJudge y k.is_not_implemented) where
  abbrev with_signature : VerifyRequest → Bytes → VerifyRequest
  with_signature r sig = record r { signature = sig }

  abbrev with_digest_signature : VerifyDigestRequest → Bytes → VerifyDigestRequest
  with_digest_signature r sig = record r { signature = sig }

  verify_by-FailsAs :
      (alg : Algorithm) (r : VerifyRequest) (sig : Bytes)
      → FailsAs (verify_by k x y alg r) (verify_by k x y alg (with_signature r sig))
  unfolding verify_rsapss verify_rsapkcs1_v15
  verify_by-FailsAs (ecdsa p) r sig =
      verified-FailsAs k y judge _ _
        (verify_ecdsa-FailsAs k y judge _ _ r.signature sig _ p.curve p.hash _)
  verify_by-FailsAs (ml_dsa p) r sig =
      verified-FailsAs k y judge _ _
        (verify_mldsa-FailsAs k y judge _ _ r.signature sig _ p.parameter_set)
  verify_by-FailsAs (rsa_pss p) r sig =
      verified-FailsAs k y judge _ _
        (verify_rsapss_core-FailsAs k y judge _ _ r.signature sig _ p.hash p)
  verify_by-FailsAs (rsa_pkcs1_v15 p) r sig =
      verified-FailsAs k y judge _ _
        (verify_rsapkcs1_v15_core-FailsAs k y judge _ _ r.signature sig _ p.hash p)
  verify_by-FailsAs (ed25519 v) r sig =
      verified-FailsAs k y judge _ _ (verify_ed25519-FailsAs k y judge _ _ r.signature sig _ v)
  verify_by-FailsAs (aes_gcm p) r sig = λ e q. q
  verify_by-FailsAs (aes_cbc p) r sig = λ e q. q
  verify_by-FailsAs (aes_ctr p) r sig = λ e q. q
  verify_by-FailsAs (chacha20_poly1305 p) r sig = λ e q. q
  verify_by-FailsAs (Types.unsupported n) r sig = λ e q. q

  verify_digest_by-FailsAs :
      (alg : Algorithm) (r : VerifyDigestRequest) (sig : Bytes)
      → FailsAs
          (verify_digest_by k x y alg r)
          (verify_digest_by k x y alg (with_digest_signature r sig))
  unfolding verify_rsapss_digest verify_rsapkcs1_v15_digest
  verify_digest_by-FailsAs (ecdsa p) r sig =
      verified-FailsAs k y judge _ _
        (verify_ecdsa_digest-FailsAs k y judge _ _ r.signature sig _ p.curve _)
  verify_digest_by-FailsAs (ml_dsa p) r sig = λ e q. q
  verify_digest_by-FailsAs (rsa_pss p) r sig =
      verified-FailsAs k y judge _ _
        (verify_rsapss_core-FailsAs k y judge _ _ r.signature sig _ r.hash_algorithm p)
  verify_digest_by-FailsAs (rsa_pkcs1_v15 p) r sig =
      verified-FailsAs k y judge _ _
        (verify_rsapkcs1_v15_core-FailsAs k y judge _ _ r.signature sig _ r.hash_algorithm p)
  verify_digest_by-FailsAs (ed25519 v) r sig =
      >>=-FailsAs (guard (prehashed v) invalid_argument) _ _ λ u e.
        verified-FailsAs k y judge _ _
          (verify_ed25519_ph_digest-FailsAs k y judge _ _ r.signature sig _ r.hash_algorithm)
  verify_digest_by-FailsAs (aes_gcm p) r sig = λ e q. q
  verify_digest_by-FailsAs (aes_cbc p) r sig = λ e q. q
  verify_digest_by-FailsAs (aes_ctr p) r sig = λ e q. q
  verify_digest_by-FailsAs (chacha20_poly1305 p) r sig = λ e q. q
  verify_digest_by-FailsAs (Types.unsupported n) r sig = λ e q. q

  -- A request to verify a signature of a text, or of a digest.
  abbrev pub Check : Type 0
  Check = VerifyRequest ⊎ VerifyDigestRequest

  abbrev pub as_request : Check → Request k.Output
  as_request (inl r) = verify_request r
  as_request (inr r) = verify_digest_request r

  -- The same request with another signature.
  abbrev pub resigned : Check → Bytes → Check
  resigned (inl r) sig = inl (with_signature r sig)
  resigned (inr r) sig = inr (with_digest_signature r sig)

  abbrev pub checked : Check → Outcome (VerifyResponse k.Output)
  checked (inl r) = verify k x y r
  checked (inr r) = verify_digest k x y r

  -- An error of `Verify` or `VerifyDigest` on a request that the validator accepts says nothing of the
  -- signature: on the same request with any other signature, if the validator accepts that too, it
  -- fails with the same error. So a signature that is malformed or wrong is never an error itself.
  pub checked-resigned :
      (c : Check) (sig : Bytes) (e : Error)
      → validate_request k (as_request c) ≡ ok tt
      → validate_request k (as_request (resigned c sig)) ≡ ok tt
      → checked c ≡ err e
      → checked (resigned c sig) ≡ err e
  unfolding verify verify_digest
  checked-resigned (inl r) sig e v w q =
      then_ok (validate_request k (verify_request (with_signature r sig))) _ w (
        verify_by-FailsAs r.algorithm r sig e
          (sym (then_ok (validate_request k (verify_request r)) _ v refl) ∙ q))
  checked-resigned (inr r) sig e v w q =
      then_ok (validate_request k (verify_digest_request (with_digest_signature r sig))) _ w (
        >>=-FailsAs (validate_digest_length k r.hash_algorithm (length r.digest)) _ _
          (λ u s. verify_digest_by-FailsAs r.algorithm r sig) e
          (sym (then_ok (validate_request k (verify_digest_request r)) _ v refl) ∙ q))
