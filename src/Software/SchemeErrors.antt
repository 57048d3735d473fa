-- ===== src/Software/SchemeErrors.antt =====
-- The errors of the schemes' verifications, which do not depend on the signature.
use citius_server.Prelude.{ℕ, ◌*◌, ◌≡◌, refl, subst, ◌≢◌, Bool, true, false, eqb, length}
use citius_server.Errors.{Error, new, wrap, invalid_argument}
use citius_server.Software.Outcome.{
  Outcome, ok, err, panic, ◌>>=◌, ◌>>◌, guard, wrapped, err-injective,
}
use citius_server.Prelude.Int.{ℤ}
use citius_server.Software.Types
use citius_server.Software.Types.{
  Bytes, Algorithm, EllipticCurve, HashAlgorithm, SignatureFormat, der, ieee_p1363, Ed25519Variant,
  ecdsa, ml_dsa, rsa_pss, rsa_pkcs1_v15, ed25519, aes_gcm, aes_cbc, aes_ctr, chacha20_poly1305,
  PublicKeyEncoding, RsaPssParams, RsaPkcs1V15Params, VerifyRequest, VerifyDigestRequest,
  VerifyResponse, Request, verify_request, verify_digest_request,
}
use citius_server.Software.Library.{Core}
use citius_server.Software.Signers.{Scheme, Signers, Curve}
use citius_server.Software.EcdsaFormat.{
  decode_der, decode_p1363, all_parsed, decode_ecdsa_signature, coordinate_size,
}
use citius_server.Software.Ecdsa.{
  ecdsa_digest, ecdsa_public, judged, verify_ecdsa, verify_ecdsa_digest,
}
use citius_server.Software.Rsa.{
  accepted, rsa_hash, rsa_public, pss_options, verify_rsapss_core, verify_rsapkcs1_v15_core,
}
use citius_server.Software.Ed25519.{
  check_ed25519_pure_variant, check_ed25519_ph_hash, parse_ed25519_public_key, verify_ed25519,
  verify_ed25519_ph_digest,
}
use citius_server.Software.MlDsa.{mldsa_scheme, check_mldsa_context_length, verify_mldsa}
use citius_server.Software.Encoding.{verified}

-- Whatever error the first one fails with, the second one fails with too.
abbrev pub FailsAs {ℓ} : {A : Type ℓ} → Outcome A → Outcome A → Type ℓ
FailsAs m n = (e : Error) → m ≡ err e → n ≡ err e

pub >>=-FailsAs {ℓ κ} :
    {A : Type ℓ} {B : Type κ} (m : Outcome A) (f g : A → Outcome B)
    → ((a : A) → m ≡ ok a → FailsAs (f a) (g a))
    → FailsAs (m >>= f) (m >>= g)
>>=-FailsAs (ok a) f g h e q = h a refl e q
>>=-FailsAs (err i) f g h e q = q
>>=-FailsAs panic f g h e q = absurd (cc)

accepted-FailsAs : (m : Outcome (Unit {0})) (n : Outcome Bool) → FailsAs (accepted m) n
accepted-FailsAs (ok u) n e q = absurd (cc)
accepted-FailsAs (err i) n e q = absurd (cc)
accepted-FailsAs panic n e q = absurd (cc)

-- What is relied on: the test for `not implemented` rejects the other errors of the code and those of
-- encoding/asn1, and the `Verify` of Ed25519 and of ML-DSA have no error.
pub record IsJudge {Random : Type 0} (y : Signers Random) (test : Error → Bool) : Type 0 where
  pub invalid_is_other : test (new invalid_argument) ≡ false
  pub asn1_is_other : (b : Bytes) {e : Error} → y.asn1_unmarshal b ≡ err e → test (wrap e) ≡ false
  pub mldsa_verify_plain :
      (s : Scheme) (k : y.MlDsaPublic) (m sig ctx : Bytes) {e : Error}
      → y.mldsa_verify s k m sig ctx ≢ err e
  pub ed25519_verify_plain :
      (k : y.Ed25519Public) (m sig : Bytes) {e : Error} → y.ed25519_verify k m sig ≢ err e

module _ (k : Core) {Random : Type 0} (y : Signers Random)
    (judge : IsJudge y k.is_not_implemented) where
  pub verified-FailsAs : (m n : Outcome Bool) → FailsAs m n → FailsAs (verified k m) (verified k n)
  verified-FailsAs (ok b) n h e q = absurd (cc)
  verified-FailsAs (err i) n h e q = rw (h i refl) q
  verified-FailsAs panic n h e q = absurd (cc)

  -- A format that is supported gives no error that counts.
  judged_quiet :
      (key : y.EcdsaPublic) (d : Bytes) (m : Outcome (ℤ × ℤ)) (n : Outcome Bool)
      → ((e : Error) → m ≡ err e → k.is_not_implemented e ≡ false)
      → FailsAs (judged y k.is_not_implemented key d m) n
  judged_quiet key d (ok rs) n h e q = absurd (cc)
  judged_quiet key d (err i) n h e q =
      let plain : ok false ≡ err e = rw (h i refl) at q in absurd (cc)
  judged_quiet key d panic n h e q = absurd (cc)

  guard_quiet :
      {A : Type 0} (b : Bool) (a : A) (e : Error)
      → (guard b invalid_argument >> ok a) ≡ err e
      → k.is_not_implemented e ≡ false
  guard_quiet true a e q = absurd (cc)
  guard_quiet false a e q =
      subst (λ i. k.is_not_implemented i ≡ false) (err-injective q) judge.invalid_is_other

  all_parsed_quiet :
      (m : Outcome ((ℤ × ℤ) × Bytes)) (e : Error)
      → ((i : Error) → m ≡ err i → k.is_not_implemented (wrap i) ≡ false)
      → all_parsed y m ≡ err e
      → k.is_not_implemented e ≡ false
  all_parsed_quiet (ok parsed) e h q = guard_quiet (eqb (length parsed.1) 0) parsed.0 e q
  all_parsed_quiet (err i) e h q =
      subst (λ j. k.is_not_implemented j ≡ false) (err-injective q) (h i refl)
  all_parsed_quiet panic e h q = absurd (cc)

  der_quiet : (sig : Bytes) (e : Error) → decode_der y sig ≡ err e → k.is_not_implemented e ≡ false
  der_quiet sig e q = all_parsed_quiet (y.asn1_unmarshal sig) e (λ i h. judge.asn1_is_other sig h) q

  p1363_quiet :
      (sig : Bytes) (size : ℕ) (e : Error)
      → decode_p1363 y sig size ≡ err e
      → k.is_not_implemented e ≡ false
  p1363_quiet sig size e q = guard_quiet (eqb (length sig) (2 * size)) _ e q

  decoded_FailsAs :
      (key : y.EcdsaPublic) (d sig sig' : Bytes) (c : Curve) (format : SignatureFormat)
      → FailsAs
          (judged y k.is_not_implemented key d (decode_ecdsa_signature y sig c format))
          (judged y k.is_not_implemented key d (decode_ecdsa_signature y sig' c format))
  unfolding decode_ecdsa_signature
  decoded_FailsAs key d sig sig' c SignatureFormat.unspecified =
      judged_quiet key d _ _ (der_quiet sig)
  decoded_FailsAs key d sig sig' c der = judged_quiet key d _ _ (der_quiet sig)
  decoded_FailsAs key d sig sig' c ieee_p1363 =
      judged_quiet key d _ _ (p1363_quiet sig (coordinate_size c))
  decoded_FailsAs key d sig sig' c (SignatureFormat.other n) = λ e q. q

  pub verify_ecdsa-FailsAs :
      (b m sig sig' : Bytes) (enc : PublicKeyEncoding) (c : EllipticCurve) (h : HashAlgorithm)
      (format : SignatureFormat)
      → FailsAs
          (verify_ecdsa y k.is_not_implemented b m sig enc c h format)
          (verify_ecdsa y k.is_not_implemented b m sig' enc c h format)
  unfolding verify_ecdsa
  verify_ecdsa-FailsAs b m sig sig' enc c h format =
      >>=-FailsAs (ecdsa_public y b enc c) _ _ λ key e.
        >>=-FailsAs (ecdsa_digest y c h m) _ _ λ d e2. decoded_FailsAs key d sig sig' _ format

  pub verify_ecdsa_digest-FailsAs :
      (b d sig sig' : Bytes) (enc : PublicKeyEncoding) (c : EllipticCurve)
      (format : SignatureFormat)
      → FailsAs
          (verify_ecdsa_digest y k.is_not_implemented b d sig enc c format)
          (verify_ecdsa_digest y k.is_not_implemented b d sig' enc c format)
  unfolding verify_ecdsa_digest
  verify_ecdsa_digest-FailsAs b d sig sig' enc c format =
      >>=-FailsAs (ecdsa_public y b enc c) _ _ λ key e. decoded_FailsAs key d sig sig' _ format

  pub verify_rsapss_core-FailsAs :
      (b d sig sig' : Bytes) (enc : PublicKeyEncoding) (h : HashAlgorithm) (p : RsaPssParams)
      → FailsAs (verify_rsapss_core y b d sig enc h p) (verify_rsapss_core y b d sig' enc h p)
  unfolding verify_rsapss_core
  verify_rsapss_core-FailsAs b d sig sig' enc h p =
      >>=-FailsAs (rsa_public y b enc p.key_size_bits) _ _
        λ key e. >>=-FailsAs (pss_options y h p) _ _ λ o e2. accepted-FailsAs _ _

  pub verify_rsapkcs1_v15_core-FailsAs :
      (b d sig sig' : Bytes) (enc : PublicKeyEncoding) (h : HashAlgorithm) (p : RsaPkcs1V15Params)
      → FailsAs
          (verify_rsapkcs1_v15_core y b d sig enc h p)
          (verify_rsapkcs1_v15_core y b d sig' enc h p)
  unfolding verify_rsapkcs1_v15_core
  verify_rsapkcs1_v15_core-FailsAs b d sig sig' enc h p =
      >>=-FailsAs (rsa_public y b enc p.key_size_bits) _ _
        λ key e. >>=-FailsAs (rsa_hash h) _ _ λ f e2. accepted-FailsAs _ _

  pub verify_ed25519-FailsAs :
      (b m sig sig' : Bytes) (enc : PublicKeyEncoding) (v : Ed25519Variant)
      → FailsAs (verify_ed25519 y b m sig enc v) (verify_ed25519 y b m sig' enc v)
  unfolding verify_ed25519
  verify_ed25519-FailsAs b m sig sig' enc v = >>=-FailsAs (check_ed25519_pure_variant v) _ _ λ u e.
      >>=-FailsAs (parse_ed25519_public_key y b enc) _ _
        λ key e2. λ i q. absurd (judge.ed25519_verify_plain key m sig q)

  pub verify_ed25519_ph_digest-FailsAs :
      (b d sig sig' : Bytes) (enc : PublicKeyEncoding) (h : HashAlgorithm)
      → FailsAs
          (verify_ed25519_ph_digest y b d sig enc h)
          (verify_ed25519_ph_digest y b d sig' enc h)
  unfolding verify_ed25519_ph_digest
  verify_ed25519_ph_digest-FailsAs b d sig sig' enc h =
      >>=-FailsAs (check_ed25519_ph_hash h) _ _
        λ u e. >>=-FailsAs (parse_ed25519_public_key y b enc) _ _ λ key e2. accepted-FailsAs _ _

  pub verify_mldsa-FailsAs :
      (b m sig sig' ctx : Bytes) (p : Types.MlDsaParameterSet)
      → FailsAs (verify_mldsa y b m sig ctx p) (verify_mldsa y b m sig' ctx p)
  unfolding verify_mldsa
  verify_mldsa-FailsAs b m sig sig' ctx p = >>=-FailsAs (check_mldsa_context_length ctx) _ _ λ u e.
      >>=-FailsAs (mldsa_scheme p) _ _ λ s e2.
        >>=-FailsAs (wrapped (y.mldsa_unmarshal_public s b)) _ _
          λ key e3. λ i q. absurd (judge.mldsa_verify_plain s key m sig ctx q)
