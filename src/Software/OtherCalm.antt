-- ===== src/Software/OtherCalm.antt =====
-- No operation of Ed25519 and ML-DSA panics: circl, which would panic on a context that is too long or
-- on a key of another scheme, is only given a context and a key that were checked.
use citius_server.Prelude.{
  ap, ◌∙◌, ◌⊎◌, inl, inr, ◌≤◌, ◌≡◌, sym, subst, Bool, true, false, arith, leb, if◌then◌else◌,
  length,
}
use citius_server.Errors.{invalid_argument, internal}
use citius_server.Software.Outcome.{
  Outcome, ok, err, panic, NoPanic, guard, wrapped, >>=-NoPanic, wrapped-NoPanic, guard-NoPanic,
  guard-eq-ok, from_ok, wrapped-eq-ok, ok-injective,
}
use citius_server.Software.Types.{
  Bytes, HashAlgorithm, Ed25519Variant, pure, ph, MlDsaParameterSet, ml_dsa_44, ml_dsa_65,
  ml_dsa_87, PrivateKeyEncoding, pkcs8, sec1, pem, PublicKeyEncoding, spki,
}
use citius_server.Software.Signers.{Signers, IsCalm, ed25519_key, Scheme}
use citius_server.Software.Ed25519.{
  check_ed25519_pure_variant, check_ed25519_ph_hash, generate_ed25519_key,
  parse_ed25519_private_key, parse_ed25519_public_key, sign_ed25519, verify_ed25519,
  sign_ed25519_ph_digest, verify_ed25519_ph_digest, as_ed25519,
}
use citius_server.Software.MlDsa.{
  mldsa_scheme, check_mldsa_context_length, generate_mldsa_key, parse_mldsa_private_key,
  parse_mldsa_pkcs8_private_key, sign_mldsa, sign_mldsa_randomized, sign_mldsa_randomized_with,
  verify_mldsa, scheme_eqb, pkcs8_or_raw,
}
use citius_server.Software.MlDsaLaws.{scheme_eqb_sound, sign_mldsa_randomized-with}
use citius_server.Software.SignerCalm.{
  accepted-NoPanic, as_ed25519-NoPanic, parsed_private-NoPanic, parsed_public-NoPanic,
}

check_ed25519_pure_variant-NoPanic : (v : Ed25519Variant) → NoPanic (check_ed25519_pure_variant v)
unfolding check_ed25519_pure_variant
check_ed25519_pure_variant-NoPanic Ed25519Variant.unspecified = tt
check_ed25519_pure_variant-NoPanic pure = tt
check_ed25519_pure_variant-NoPanic ph = tt
check_ed25519_pure_variant-NoPanic (Ed25519Variant.other n) = tt

check_ed25519_ph_hash-NoPanic : (h : HashAlgorithm) → NoPanic (check_ed25519_ph_hash h)
unfolding check_ed25519_ph_hash
check_ed25519_ph_hash-NoPanic HashAlgorithm.unspecified = tt
check_ed25519_ph_hash-NoPanic HashAlgorithm.sha256 = tt
check_ed25519_ph_hash-NoPanic HashAlgorithm.sha384 = tt
check_ed25519_ph_hash-NoPanic HashAlgorithm.sha512 = tt
check_ed25519_ph_hash-NoPanic (HashAlgorithm.other n) = tt

mldsa_scheme-NoPanic : (p : MlDsaParameterSet) → NoPanic (mldsa_scheme p)
unfolding mldsa_scheme
mldsa_scheme-NoPanic ml_dsa_44 = tt
mldsa_scheme-NoPanic ml_dsa_65 = tt
mldsa_scheme-NoPanic ml_dsa_87 = tt
mldsa_scheme-NoPanic (MlDsaParameterSet.other n) = tt

module _ {Random : Type 0} (y : Signers Random) (calm : IsCalm y) where
  pub generate_ed25519_key-NoPanic : (ρ : Random) → NoPanic (generate_ed25519_key y ρ)
  unfolding generate_ed25519_key
  generate_ed25519_key-NoPanic ρ =
      >>=-NoPanic (wrapped (y.ed25519_generate ρ)) _
        (wrapped-NoPanic _ (calm.ed25519_generate_calm ρ))
        λ keys e.
          >>=-NoPanic (wrapped (y.marshal_pkcs8 (ed25519_key keys.1))) _
            (wrapped-NoPanic _ (calm.marshal_pkcs8_calm _))
            λ q e2.
              >>=-NoPanic (wrapped (y.marshal_pkix (ed25519_key keys.0))) _
                (wrapped-NoPanic _ (calm.marshal_pkix_calm _)) λ p e3. tt

  parse_ed25519_private_key-NoPanic :
      (der : Bytes) (enc : PrivateKeyEncoding) → NoPanic (parse_ed25519_private_key y der enc)
  unfolding parse_ed25519_private_key
  parse_ed25519_private_key-NoPanic der pkcs8 =
      parsed_private-NoPanic y calm (as_ed25519 y) der (as_ed25519-NoPanic y calm)
  parse_ed25519_private_key-NoPanic der PrivateKeyEncoding.unspecified =
      parsed_private-NoPanic y calm (as_ed25519 y) der (as_ed25519-NoPanic y calm)
  parse_ed25519_private_key-NoPanic der sec1 = tt
  parse_ed25519_private_key-NoPanic der PrivateKeyEncoding.raw = tt
  parse_ed25519_private_key-NoPanic der pem = tt
  parse_ed25519_private_key-NoPanic der (PrivateKeyEncoding.other n) = tt

  parse_ed25519_public_key-NoPanic :
      (der : Bytes) (enc : PublicKeyEncoding) → NoPanic (parse_ed25519_public_key y der enc)
  unfolding parse_ed25519_public_key
  parse_ed25519_public_key-NoPanic der spki =
      parsed_public-NoPanic y calm (as_ed25519 y) der (as_ed25519-NoPanic y calm)
  parse_ed25519_public_key-NoPanic der PublicKeyEncoding.unspecified =
      parsed_public-NoPanic y calm (as_ed25519 y) der (as_ed25519-NoPanic y calm)
  parse_ed25519_public_key-NoPanic der PublicKeyEncoding.raw = tt
  parse_ed25519_public_key-NoPanic der (PublicKeyEncoding.other n) = tt

  pub sign_ed25519-NoPanic :
      (der m : Bytes) (enc : PrivateKeyEncoding) (v : Ed25519Variant)
      → NoPanic (sign_ed25519 y der m enc v)
  unfolding sign_ed25519
  sign_ed25519-NoPanic der m enc v =
      >>=-NoPanic (check_ed25519_pure_variant v) _ (check_ed25519_pure_variant-NoPanic v) λ u e.
        >>=-NoPanic (parse_ed25519_private_key y der enc) _
          (parse_ed25519_private_key-NoPanic der enc) λ k e2. calm.ed25519_sign_calm k m

  pub verify_ed25519-NoPanic :
      (der m sig : Bytes) (enc : PublicKeyEncoding) (v : Ed25519Variant)
      → NoPanic (verify_ed25519 y der m sig enc v)
  unfolding verify_ed25519
  verify_ed25519-NoPanic der m sig enc v =
      >>=-NoPanic (check_ed25519_pure_variant v) _ (check_ed25519_pure_variant-NoPanic v) λ u e.
        >>=-NoPanic (parse_ed25519_public_key y der enc) _
          (parse_ed25519_public_key-NoPanic der enc) λ k e2. calm.ed25519_verify_calm k m sig

  pub sign_ed25519_ph_digest-NoPanic :
      (der d : Bytes) (enc : PrivateKeyEncoding) (h : HashAlgorithm)
      → NoPanic (sign_ed25519_ph_digest y der d enc h)
  unfolding sign_ed25519_ph_digest
  sign_ed25519_ph_digest-NoPanic der d enc h =
      >>=-NoPanic (check_ed25519_ph_hash h) _ (check_ed25519_ph_hash-NoPanic h) λ u e.
        >>=-NoPanic (parse_ed25519_private_key y der enc) _
          (parse_ed25519_private_key-NoPanic der enc)
          λ k e2. wrapped-NoPanic _ (calm.ed25519_sign_ph_calm k d)

  pub verify_ed25519_ph_digest-NoPanic :
      (der d sig : Bytes) (enc : PublicKeyEncoding) (h : HashAlgorithm)
      → NoPanic (verify_ed25519_ph_digest y der d sig enc h)
  unfolding verify_ed25519_ph_digest
  verify_ed25519_ph_digest-NoPanic der d sig enc h =
      >>=-NoPanic (check_ed25519_ph_hash h) _ (check_ed25519_ph_hash-NoPanic h) λ u e.
        >>=-NoPanic (parse_ed25519_public_key y der enc) _
          (parse_ed25519_public_key-NoPanic der enc)
          λ k e2. accepted-NoPanic _ (calm.ed25519_verify_ph_calm k d sig)

  pub generate_mldsa_key-NoPanic :
      (p : MlDsaParameterSet) (ρ : Random) → NoPanic (generate_mldsa_key y p ρ)
  unfolding generate_mldsa_key
  generate_mldsa_key-NoPanic p ρ = >>=-NoPanic (mldsa_scheme p) _ (mldsa_scheme-NoPanic p) λ s e.
      >>=-NoPanic (wrapped (y.mldsa_generate s ρ)) _
        (wrapped-NoPanic _ (calm.mldsa_generate_calm s ρ))
        λ keys e2.
          >>=-NoPanic (wrapped (y.mldsa_marshal_public keys.0)) _
            (wrapped-NoPanic _ (calm.mldsa_marshal_public_calm _))
            λ a e3.
              >>=-NoPanic (wrapped (y.marshal_pkix_private keys.1)) _
                (wrapped-NoPanic _ (calm.marshal_pkix_private_calm _)) λ b e4. tt

  parse_mldsa_pkcs8_private_key-NoPanic :
      (b : Bytes) (s : Scheme) → NoPanic (parse_mldsa_pkcs8_private_key y b s)
  unfolding parse_mldsa_pkcs8_private_key
  parse_mldsa_pkcs8_private_key-NoPanic b s =
      >>=-NoPanic (wrapped (y.unmarshal_pkix_private b)) _
        (wrapped-NoPanic _ (calm.unmarshal_pkix_private_calm b))
        λ k e.
          >>=-NoPanic (guard (scheme_eqb (y.scheme_of k) s) invalid_argument) _ (guard-NoPanic _ _)
            λ u e2. tt

  pkcs8_or_raw-NoPanic :
      (m f : Outcome y.MlDsaPrivate) → NoPanic m → NoPanic f → NoPanic (pkcs8_or_raw y m f)
  pkcs8_or_raw-NoPanic (ok key) f h k = tt
  pkcs8_or_raw-NoPanic (err e) f h k = k
  pkcs8_or_raw-NoPanic panic f h k = h

  either-NoPanic :
      (b : Bytes) (s : Scheme)
      → NoPanic (
          pkcs8_or_raw y
            (parse_mldsa_pkcs8_private_key y b s)
            (wrapped (y.mldsa_unmarshal_private s b)))
  either-NoPanic b s =
      pkcs8_or_raw-NoPanic _ _ (parse_mldsa_pkcs8_private_key-NoPanic b s)
        (wrapped-NoPanic _ (calm.mldsa_unmarshal_private_calm s b))

  parse_mldsa_private_key-NoPanic :
      (b : Bytes) (enc : PrivateKeyEncoding) (s : Scheme)
      → NoPanic (parse_mldsa_private_key y b enc s)
  unfolding parse_mldsa_private_key
  parse_mldsa_private_key-NoPanic b pkcs8 s = parse_mldsa_pkcs8_private_key-NoPanic b s
  parse_mldsa_private_key-NoPanic b PrivateKeyEncoding.raw s =
      wrapped-NoPanic _ (calm.mldsa_unmarshal_private_calm s b)
  parse_mldsa_private_key-NoPanic b PrivateKeyEncoding.unspecified s = either-NoPanic b s
  parse_mldsa_private_key-NoPanic b sec1 s = either-NoPanic b s
  parse_mldsa_private_key-NoPanic b pem s = either-NoPanic b s
  parse_mldsa_private_key-NoPanic b (PrivateKeyEncoding.other n) s = either-NoPanic b s

  parse_mldsa_pkcs8_private_key-scheme :
      (b : Bytes) (s : Scheme) {k : y.MlDsaPrivate}
      → parse_mldsa_pkcs8_private_key y b s ≡ ok k
      → y.scheme_of k ≡ s
  unfolding parse_mldsa_pkcs8_private_key
  parse_mldsa_pkcs8_private_key-scheme b s {k} h =
      from_ok (wrapped (y.unmarshal_pkix_private b)) h λ k2 read h1.
        from_ok (guard (scheme_eqb (y.scheme_of k2) s) invalid_argument) h1 λ u right h2.
          ap y.scheme_of (sym (ok-injective h2))
          ∙ scheme_eqb_sound (y.scheme_of k2) s (guard-eq-ok _ _ right)

  either_parsed :
      (m f : Outcome y.MlDsaPrivate) {k : y.MlDsaPrivate}
      → pkcs8_or_raw y m f ≡ ok k
      → (m ≡ ok k) ⊎ (f ≡ ok k)
  either_parsed (ok key) f h = inl h
  either_parsed (err e) f h = inr h
  either_parsed panic f h = absurd (cc)

  fallback-scheme :
      (b : Bytes) (s : Scheme) {k : y.MlDsaPrivate}
      → pkcs8_or_raw y
          (parse_mldsa_pkcs8_private_key y b s)
          (wrapped (y.mldsa_unmarshal_private s b))
        ≡ ok k
      → y.scheme_of k ≡ s
  fallback-scheme b s h = elim (either_parsed (parse_mldsa_pkcs8_private_key y b s) _ h) [
    | inl e ↦ parse_mldsa_pkcs8_private_key-scheme b s e
    | inr e ↦ calm.mldsa_unmarshal_private_scheme s b (wrapped-eq-ok _ e)
  ]

  -- A key that is parsed for a scheme is of that scheme.
  parse_mldsa_private_key-scheme :
      (b : Bytes) (enc : PrivateKeyEncoding) (s : Scheme) {k : y.MlDsaPrivate}
      → parse_mldsa_private_key y b enc s ≡ ok k
      → y.scheme_of k ≡ s
  unfolding parse_mldsa_private_key
  parse_mldsa_private_key-scheme b pkcs8 s h = parse_mldsa_pkcs8_private_key-scheme b s h
  parse_mldsa_private_key-scheme b PrivateKeyEncoding.raw s h =
      calm.mldsa_unmarshal_private_scheme s b (wrapped-eq-ok _ h)
  parse_mldsa_private_key-scheme b PrivateKeyEncoding.unspecified s h = fallback-scheme b s h
  parse_mldsa_private_key-scheme b sec1 s h = fallback-scheme b s h
  parse_mldsa_private_key-scheme b pem s h = fallback-scheme b s h
  parse_mldsa_private_key-scheme b (PrivateKeyEncoding.other n) s h = fallback-scheme b s h

  signed-NoPanic :
      (ρ : Random) (set : MlDsaParameterSet) (s : Scheme) (k : y.MlDsaPrivate) (m ctx : Bytes)
      (deterministic : Bool)
      → y.scheme_of k ≡ s
      → length ctx ≤ 255
      → mldsa_scheme set ≡ ok s
      → NoPanic
          (if deterministic then y.mldsa_sign s k m ctx else sign_mldsa_randomized y ρ k m ctx set)
  unfolding sign_mldsa_randomized_with
  signed-NoPanic ρ set s k m ctx true same short known = calm.mldsa_sign_calm s k m ctx same short
  signed-NoPanic ρ set s k m ctx false same short known =
      subst NoPanic (sym (sign_mldsa_randomized-with y ρ set s k m ctx known)) (
        >>=-NoPanic (guard (scheme_eqb (y.scheme_of k) s) internal) _ (guard-NoPanic _ _)
          λ u e. wrapped-NoPanic _ (calm.mldsa_sign_to_calm s ρ k m ctx same))

  pub sign_mldsa-NoPanic :
      (ρ : Random) (b m ctx : Bytes) (enc : PrivateKeyEncoding) (p : MlDsaParameterSet) (d : Bool)
      → NoPanic (sign_mldsa y ρ b m ctx enc p d)
  unfolding sign_mldsa check_mldsa_context_length
  sign_mldsa-NoPanic ρ b m ctx enc p d =
      >>=-NoPanic (check_mldsa_context_length ctx) _ (guard-NoPanic _ _) λ u short.
        >>=-NoPanic (mldsa_scheme p) _ (mldsa_scheme-NoPanic p) λ s known.
          >>=-NoPanic (parse_mldsa_private_key y b enc s) _
            (parse_mldsa_private_key-NoPanic b enc s)
            λ k e.
              let test : leb (length ctx) 255 ≡ true = guard-eq-ok _ _ short in
              signed-NoPanic ρ p s k m ctx d (parse_mldsa_private_key-scheme b enc s e)
                (ground arith) known

  pub verify_mldsa-NoPanic :
      (b m sig ctx : Bytes) (p : MlDsaParameterSet) → NoPanic (verify_mldsa y b m sig ctx p)
  unfolding verify_mldsa check_mldsa_context_length
  verify_mldsa-NoPanic b m sig ctx p =
      >>=-NoPanic (check_mldsa_context_length ctx) _ (guard-NoPanic _ _) λ u short.
        >>=-NoPanic (mldsa_scheme p) _ (mldsa_scheme-NoPanic p) λ s known.
          >>=-NoPanic (wrapped (y.mldsa_unmarshal_public s b)) _
            (wrapped-NoPanic _ (calm.mldsa_unmarshal_public_calm s b))
            λ k e.
              calm.mldsa_verify_calm s k m sig ctx
                (calm.mldsa_unmarshal_public_scheme s b (wrapped-eq-ok _ e))
