-- ===== src/Software/SchemeCalm.antt =====
-- No operation of a signature scheme panics.
use citius_server.Prelude.{ℕ, ◌≡◌, inl, inr, Bool, Bool-cases}
use citius_server.Errors.{Error, not_implemented}
use citius_server.Software.Outcome.{
  Outcome, ok, err, panic, NoPanic, guard, wrapped, >>=-NoPanic, wrapped-NoPanic, guard-NoPanic,
  wrapped-eq-ok,
}
use citius_server.Prelude.Int.{ℤ, pos}
use citius_server.Software.Types.{
  Bytes, EllipticCurve, HashAlgorithm, SignatureFormat, PrivateKeyEncoding, pkcs8, sec1, pem,
  PublicKeyEncoding, spki, RsaPssParams, RsaPkcs1V15Params,
}
use citius_server.Software.Signers.{Signers, IsSigners, IsCalm, ecdsa_key, rsa_key}
use citius_server.Software.EcdsaFormat.{
  encode_ecdsa_signature-NoPanic, decode_ecdsa_signature-NoPanic,
}
use citius_server.Software.Ecdsa.{
  curve_for_algorithm, ecdsa_digest, generate_ecdsa_key, ecdsa_private, ecdsa_public, ecdsa_signed,
  judged, sign_ecdsa, sign_ecdsa_digest, verify_ecdsa, verify_ecdsa_digest,
}
use citius_server.Software.Rsa.{
  is_mgf1, rsa_hash, check_rsapss_mgf, rsapss_salt_length, generate_rsa_key, parse_rsa_private_key,
  parse_rsa_public_key, check_rsa_key_size, rsa_private, rsa_public, pss_options, sign_rsapss_core,
  verify_rsapss_core, sign_rsapkcs1_v15_core, verify_rsapkcs1_v15_core, as_rsa,
}
use citius_server.Software.SignerCalm.{
  curve_for_algorithm-NoPanic, accepted-NoPanic, rsa_hash-NoPanic, rsapss_salt_length-NoPanic,
  ecdsa_digest-NoPanic, as_rsa-NoPanic, parsed_private-NoPanic, parsed_public-NoPanic,
  ecdsa_private-NoPanic, ecdsa_public-NoPanic,
}

module _ {Random : Type 0} (y : Signers Random) (calm : IsCalm y) where
  pub generate_ecdsa_key-NoPanic :
      (c : EllipticCurve) (ρ : Random) → NoPanic (generate_ecdsa_key y c ρ)
  unfolding generate_ecdsa_key
  generate_ecdsa_key-NoPanic c ρ =
      >>=-NoPanic (curve_for_algorithm c) _ (curve_for_algorithm-NoPanic c) λ curve e.
        >>=-NoPanic (wrapped (y.ecdsa_generate curve ρ)) _
          (wrapped-NoPanic _ (calm.ecdsa_generate_calm curve ρ))
          λ key e2.
            >>=-NoPanic (wrapped (y.marshal_pkix (ecdsa_key (y.ecdsa_public key)))) _
              (wrapped-NoPanic _ (calm.marshal_pkix_calm _))
              λ p e3.
                >>=-NoPanic (wrapped (y.marshal_ec key)) _
                  (wrapped-NoPanic _ (calm.marshal_ec_calm key)) λ q e4. tt

  ecdsa_signed-NoPanic :
      (laws : IsSigners y) (ρ : Random) (k : y.EcdsaPrivate) (d : Bytes) (format : SignatureFormat)
      → NoPanic (ecdsa_signed y ρ k d format)
  ecdsa_signed-NoPanic laws ρ k d format =
      >>=-NoPanic (wrapped (y.ecdsa_sign ρ k d)) _ (wrapped-NoPanic _ (calm.ecdsa_sign_calm ρ k d))
        λ rs e.
          let (m, n, r_is, s_is, r_small, s_small) =
            laws.ecdsa_sign_bounds ρ k d (wrapped-eq-ok _ e) in
          let same : rs ≡ (pos m, pos n) = cc (r_is, s_is) in
          rw same (encode_ecdsa_signature-NoPanic y laws calm _ format m n r_small s_small)

  pub sign_ecdsa-NoPanic :
      (laws : IsSigners y) (ρ : Random) (der m : Bytes) (enc : PrivateKeyEncoding)
      (c : EllipticCurve) (h : HashAlgorithm) (format : SignatureFormat)
      → NoPanic (sign_ecdsa y ρ der m enc c h format)
  unfolding sign_ecdsa
  sign_ecdsa-NoPanic laws ρ der m enc c h format =
      >>=-NoPanic (ecdsa_private y der enc c) _ (ecdsa_private-NoPanic y calm der enc c) λ k e.
        >>=-NoPanic (ecdsa_digest y c h m) _ (ecdsa_digest-NoPanic y calm c h m)
          λ d e2. ecdsa_signed-NoPanic laws ρ k d format

  pub sign_ecdsa_digest-NoPanic :
      (laws : IsSigners y) (ρ : Random) (der d : Bytes) (enc : PrivateKeyEncoding)
      (c : EllipticCurve) (format : SignatureFormat)
      → NoPanic (sign_ecdsa_digest y ρ der d enc c format)
  unfolding sign_ecdsa_digest
  sign_ecdsa_digest-NoPanic laws ρ der d enc c format =
      >>=-NoPanic (ecdsa_private y der enc c) _ (ecdsa_private-NoPanic y calm der enc c)
        λ k e. ecdsa_signed-NoPanic laws ρ k d format

  judged-NoPanic :
      (test : Error → Bool) (k : y.EcdsaPublic) (d : Bytes) (m : Outcome (ℤ × ℤ))
      → NoPanic m
      → NoPanic (judged y test k d m)
  judged-NoPanic test k d (ok rs) h = tt
  judged-NoPanic test k d (err e) h = elim (Bool-cases (test e)) [
    | inl t ↦ rw t tt
    | inr t ↦ rw t tt
  ]
  judged-NoPanic test k d panic h = h

  pub verify_ecdsa-NoPanic :
      (laws : IsSigners y) (test : Error → Bool) (der m sig : Bytes) (enc : PublicKeyEncoding)
      (c : EllipticCurve) (h : HashAlgorithm) (format : SignatureFormat)
      → NoPanic (verify_ecdsa y test der m sig enc c h format)
  unfolding verify_ecdsa
  verify_ecdsa-NoPanic laws test der m sig enc c h format =
      >>=-NoPanic (ecdsa_public y der enc c) _ (ecdsa_public-NoPanic y calm der enc c) λ k e.
        >>=-NoPanic (ecdsa_digest y c h m) _ (ecdsa_digest-NoPanic y calm c h m) λ d e2.
          judged-NoPanic test k d _ (decode_ecdsa_signature-NoPanic y laws calm sig _ format)

  pub verify_ecdsa_digest-NoPanic :
      (laws : IsSigners y) (test : Error → Bool) (der d sig : Bytes) (enc : PublicKeyEncoding)
      (c : EllipticCurve) (format : SignatureFormat)
      → NoPanic (verify_ecdsa_digest y test der d sig enc c format)
  unfolding verify_ecdsa_digest
  verify_ecdsa_digest-NoPanic laws test der d sig enc c format =
      >>=-NoPanic (ecdsa_public y der enc c) _ (ecdsa_public-NoPanic y calm der enc c)
        λ k e. judged-NoPanic test k d _ (decode_ecdsa_signature-NoPanic y laws calm sig _ format)

  pub generate_rsa_key-NoPanic : (bits : ℕ) (ρ : Random) → NoPanic (generate_rsa_key y bits ρ)
  unfolding generate_rsa_key
  generate_rsa_key-NoPanic bits ρ =
      >>=-NoPanic (wrapped (y.rsa_generate ρ bits)) _
        (wrapped-NoPanic _ (calm.rsa_generate_calm ρ bits))
        λ key e.
          >>=-NoPanic (wrapped (y.marshal_pkcs8 (rsa_key key))) _
            (wrapped-NoPanic _ (calm.marshal_pkcs8_calm _))
            λ q e2.
              >>=-NoPanic (wrapped (y.marshal_pkix (rsa_key (y.rsa_public key)))) _
                (wrapped-NoPanic _ (calm.marshal_pkix_calm _)) λ p e3. tt

  parse_rsa_private_key-NoPanic :
      (der : Bytes) (enc : PrivateKeyEncoding) → NoPanic (parse_rsa_private_key y der enc)
  unfolding parse_rsa_private_key
  parse_rsa_private_key-NoPanic der pkcs8 =
      parsed_private-NoPanic y calm (as_rsa y) der (as_rsa-NoPanic y calm)
  parse_rsa_private_key-NoPanic der PrivateKeyEncoding.unspecified =
      parsed_private-NoPanic y calm (as_rsa y) der (as_rsa-NoPanic y calm)
  parse_rsa_private_key-NoPanic der sec1 = tt
  parse_rsa_private_key-NoPanic der PrivateKeyEncoding.raw = tt
  parse_rsa_private_key-NoPanic der pem = tt
  parse_rsa_private_key-NoPanic der (PrivateKeyEncoding.other n) = tt

  parse_rsa_public_key-NoPanic :
      (der : Bytes) (enc : PublicKeyEncoding) → NoPanic (parse_rsa_public_key y der enc)
  unfolding parse_rsa_public_key
  parse_rsa_public_key-NoPanic der spki =
      parsed_public-NoPanic y calm (as_rsa y) der (as_rsa-NoPanic y calm)
  parse_rsa_public_key-NoPanic der PublicKeyEncoding.unspecified =
      parsed_public-NoPanic y calm (as_rsa y) der (as_rsa-NoPanic y calm)
  parse_rsa_public_key-NoPanic der PublicKeyEncoding.raw = tt
  parse_rsa_public_key-NoPanic der (PublicKeyEncoding.other n) = tt

  rsa_private-NoPanic :
      (der : Bytes) (enc : PrivateKeyEncoding) (bits : ℕ) → NoPanic (rsa_private y der enc bits)
  unfolding check_rsa_key_size
  rsa_private-NoPanic der enc bits =
      >>=-NoPanic (parse_rsa_private_key y der enc) _ (parse_rsa_private_key-NoPanic der enc) λ k e.
        >>=-NoPanic (check_rsa_key_size y (y.rsa_public k) bits) _ (guard-NoPanic _ _) λ u e2. tt

  rsa_public-NoPanic :
      (der : Bytes) (enc : PublicKeyEncoding) (bits : ℕ) → NoPanic (rsa_public y der enc bits)
  unfolding check_rsa_key_size
  rsa_public-NoPanic der enc bits =
      >>=-NoPanic (parse_rsa_public_key y der enc) _ (parse_rsa_public_key-NoPanic der enc)
        λ k e. >>=-NoPanic (check_rsa_key_size y k bits) _ (guard-NoPanic _ _) λ u e2. tt

  pss_options-NoPanic : (h : HashAlgorithm) (p : RsaPssParams) → NoPanic (pss_options y h p)
  unfolding check_rsapss_mgf
  pss_options-NoPanic h p =
      >>=-NoPanic (check_rsapss_mgf p.mgf h p.mgf_hash) _
        (>>=-NoPanic (guard (is_mgf1 p.mgf) not_implemented) _ (guard-NoPanic _ _)
          λ u e. guard-NoPanic _ _)
        λ u e. >>=-NoPanic (rsa_hash h) _ (rsa_hash-NoPanic h) λ f e2.
          >>=-NoPanic (rsapss_salt_length p.salt_length_mode p.salt_length_bytes) _
            (rsapss_salt_length-NoPanic _ _) λ salt e3. tt

  pub sign_rsapss_core-NoPanic :
      (ρ : Random) (der d : Bytes) (enc : PrivateKeyEncoding) (h : HashAlgorithm) (p : RsaPssParams)
      → NoPanic (sign_rsapss_core y ρ der d enc h p)
  unfolding sign_rsapss_core
  sign_rsapss_core-NoPanic ρ der d enc h p =
      >>=-NoPanic (rsa_private y der enc p.key_size_bits) _ (rsa_private-NoPanic der enc _) λ k e.
        >>=-NoPanic (pss_options y h p) _ (pss_options-NoPanic h p)
          λ o e2. wrapped-NoPanic _ (calm.sign_pss_calm ρ k o.0 d o.1)

  pub verify_rsapss_core-NoPanic :
      (der d sig : Bytes) (enc : PublicKeyEncoding) (h : HashAlgorithm) (p : RsaPssParams)
      → NoPanic (verify_rsapss_core y der d sig enc h p)
  unfolding verify_rsapss_core
  verify_rsapss_core-NoPanic der d sig enc h p =
      >>=-NoPanic (rsa_public y der enc p.key_size_bits) _ (rsa_public-NoPanic der enc _) λ k e.
        >>=-NoPanic (pss_options y h p) _ (pss_options-NoPanic h p)
          λ o e2. accepted-NoPanic _ (calm.verify_pss_calm k o.0 d sig o.1)

  pub sign_rsapkcs1_v15_core-NoPanic :
      (ρ : Random) (der d : Bytes) (enc : PrivateKeyEncoding) (h : HashAlgorithm)
      (p : RsaPkcs1V15Params)
      → NoPanic (sign_rsapkcs1_v15_core y ρ der d enc h p)
  unfolding sign_rsapkcs1_v15_core
  sign_rsapkcs1_v15_core-NoPanic ρ der d enc h p =
      >>=-NoPanic (rsa_private y der enc p.key_size_bits) _ (rsa_private-NoPanic der enc _) λ k e.
        >>=-NoPanic (rsa_hash h) _ (rsa_hash-NoPanic h)
          λ f e2. wrapped-NoPanic _ (calm.sign_pkcs1_v15_calm ρ k f d)

  pub verify_rsapkcs1_v15_core-NoPanic :
      (der d sig : Bytes) (enc : PublicKeyEncoding) (h : HashAlgorithm) (p : RsaPkcs1V15Params)
      → NoPanic (verify_rsapkcs1_v15_core y der d sig enc h p)
  unfolding verify_rsapkcs1_v15_core
  verify_rsapkcs1_v15_core-NoPanic der d sig enc h p =
      >>=-NoPanic (rsa_public y der enc p.key_size_bits) _ (rsa_public-NoPanic der enc _) λ k e.
        >>=-NoPanic (rsa_hash h) _ (rsa_hash-NoPanic h)
          λ f e2. accepted-NoPanic _ (calm.verify_pkcs1_v15_calm k f d sig)
