-- ===== src/Software/EcdsaLaws.antt =====
-- Signatures of a generated ECDSA key are valid under its public half.
use citius_server.Prelude.{◌≡◌, refl, sym, ap, ◌∙◌, subst, Bool, true}
use citius_server.Errors.{Error}
use citius_server.Software.Outcome.{ok, wrapped, from_ok, wrapped-eq-ok, ok-injective, then_ok}
use citius_server.Prelude.Int.{pos}
use citius_server.Software.Types.{Bytes, EllipticCurve, HashAlgorithm, SignatureFormat, sec1, spki}
use citius_server.Software.Signers.{Signers, IsSigners, ecdsa_key}
use citius_server.Software.EcdsaFormat.{
  encode_ecdsa_signature, decode_ecdsa_signature, decode_ecdsa_signature-encode,
}
use citius_server.Software.Ecdsa.{
  curve_for_algorithm, check_curve_matches, ecdsa_digest, parse_ecdsa_private_key,
  parse_ecdsa_public_key, generate_ecdsa_key, ecdsa_private, ecdsa_public, ecdsa_signed, judged,
  sign_ecdsa, sign_ecdsa_digest, verify_ecdsa, verify_ecdsa_digest,
}

module _ {Random : Type 0} (y : Signers Random) (laws : IsSigners y) where
  -- The encoded halves of one key.
  pub record EcdsaPair (public private : Bytes) : Type 0 where
    pub key : y.EcdsaPrivate
    pub private_parsed : y.parse_ec private ≡ ok key
    pub public_parsed : y.parse_pkix public ≡ ok (ecdsa_key (y.ecdsa_public key))

  pub generate_ecdsa_key-EcdsaPair :
      (c : EllipticCurve) (ρ : Random) {pair : Bytes × Bytes}
      → generate_ecdsa_key y c ρ ≡ ok pair
      → EcdsaPair pair.0 pair.1
  unfolding generate_ecdsa_key
  generate_ecdsa_key-EcdsaPair c ρ {pair} h = from_ok (curve_for_algorithm c) h λ curve is_curve h1.
      from_ok (wrapped (y.ecdsa_generate curve ρ)) h1 λ key made h2.
        from_ok (wrapped (y.marshal_pkix (ecdsa_key (y.ecdsa_public key)))) h2 λ pub_der p h3.
          from_ok (wrapped (y.marshal_ec key)) h3 λ priv_der q h4.
            let same : (pub_der, priv_der) ≡ pair = ok-injective h4 in
            subst (λ (r : Bytes × Bytes). EcdsaPair r.0 r.1) same
              (record {
                key = key;
                private_parsed = laws.parse_ec-marshal key (wrapped-eq-ok _ q);
                public_parsed = laws.parse_pkix-marshal _ (wrapped-eq-ok _ p);
              })

  module _ {public private : Bytes} (pair : EcdsaPair public private) where
    -- The private key that is used, and that the public one matches the curve too.
    ecdsa_private-public :
        (curve : EllipticCurve) {k : y.EcdsaPrivate}
        → ecdsa_private y private sec1 curve ≡ ok k
        → ecdsa_public y public spki curve ≡ ok (y.ecdsa_public k)
    unfolding parse_ecdsa_private_key parse_ecdsa_public_key
    ecdsa_private-public curve {k} h =
        from_ok (parse_ecdsa_private_key y private sec1) h λ key parsed h1.
          from_ok (check_curve_matches (y.ecdsa_curve (y.ecdsa_public key)) curve) h1 λ u fits h2.
            let same : key ≡ k = ok-injective h2 in
            let there : pair.key ≡ key =
              ok-injective (sym pair.private_parsed ∙ wrapped-eq-ok _ parsed) in
            let is_k : pair.key ≡ k = there ∙ same in
            let public_parsed : parse_ecdsa_public_key y public spki ≡ ok (y.ecdsa_public k) =
              rw (pair.public_parsed) (ap (λ e. ok (y.ecdsa_public e)) is_k) in
            then_ok (parse_ecdsa_public_key y public spki) _ public_parsed (
              then_ok (check_curve_matches (y.ecdsa_curve (y.ecdsa_public k)) curve) _ {a = u}
                (subst (λ e. check_curve_matches (y.ecdsa_curve (y.ecdsa_public e)) curve ≡ ok u)
                  same fits)
                refl)

    judged-ecdsa_signed :
        (test : Error → Bool) (ρ : Random) (k : y.EcdsaPrivate) (d : Bytes)
        (format : SignatureFormat) {sig : Bytes}
        → ecdsa_signed y ρ k d format ≡ ok sig
        → judged y test
            (y.ecdsa_public k)
            d
            (decode_ecdsa_signature y sig (y.ecdsa_curve (y.ecdsa_public k)) format)
          ≡ ok true
    judged-ecdsa_signed test ρ k d format {sig} h =
        from_ok (wrapped (y.ecdsa_sign ρ k d)) h λ rs made h1.
          let signed : y.ecdsa_sign ρ k d ≡ ok rs = wrapped-eq-ok _ made in
          let (m, n, r_is, s_is, r_small, s_small) = laws.ecdsa_sign_bounds ρ k d signed in
          let valid : y.ecdsa_verify (y.ecdsa_public k) d (pos m) (pos n) ≡ true =
            cc (laws.ecdsa_sign_valid ρ k d signed) in
          let encoded : encode_ecdsa_signature y (pos m) (pos n) (y.ecdsa_curve (y.ecdsa_public k))
                format
              ≡ ok sig =
            cc in
          rw (decode_ecdsa_signature-encode y laws _ format m n r_small s_small encoded, valid)

    pub verify_ecdsa-sign_ecdsa :
        (test : Error → Bool) (ρ : Random) (m : Bytes) (curve : EllipticCurve)
        (hash : HashAlgorithm) (format : SignatureFormat) {sig : Bytes}
        → sign_ecdsa y ρ private m sec1 curve hash format ≡ ok sig
        → verify_ecdsa y test public m sig spki curve hash format ≡ ok true
    unfolding sign_ecdsa verify_ecdsa
    verify_ecdsa-sign_ecdsa test ρ m curve hash format h =
        from_ok (ecdsa_private y private sec1 curve) h λ k parsed h1.
          from_ok (ecdsa_digest y curve hash m) h1 λ d hashed h2.
            then_ok (ecdsa_public y public spki curve) _ (ecdsa_private-public curve parsed) (
              then_ok (ecdsa_digest y curve hash m) _ hashed
                (judged-ecdsa_signed test ρ k d format h2))

    pub verify_ecdsa_digest-sign_ecdsa_digest :
        (test : Error → Bool) (ρ : Random) (d : Bytes) (curve : EllipticCurve)
        (format : SignatureFormat) {sig : Bytes}
        → sign_ecdsa_digest y ρ private d sec1 curve format ≡ ok sig
        → verify_ecdsa_digest y test public d sig spki curve format ≡ ok true
    unfolding sign_ecdsa_digest verify_ecdsa_digest
    verify_ecdsa_digest-sign_ecdsa_digest test ρ d curve format h =
        from_ok (ecdsa_private y private sec1 curve) h λ k parsed h1.
          then_ok (ecdsa_public y public spki curve) _ (ecdsa_private-public curve parsed)
            (judged-ecdsa_signed test ρ k d format h1)
