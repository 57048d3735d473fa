-- ===== src/Software/RsaLaws.antt =====
-- Signatures of a generated RSA key, by either scheme, are valid under its public half.
use citius_server.Prelude.{ℕ, ◌≡◌, refl, sym, ap, ◌∙◌, subst, true}
use citius_server.Software.Outcome.{ok, wrapped, from_ok, wrapped-eq-ok, ok-injective, then_ok}
use citius_server.Software.Types.{
  Bytes, HashAlgorithm, pkcs8, spki, RsaPssParams, RsaPkcs1V15Params,
}
use citius_server.Software.Signers.{Signers, IsSigners, rsa_key}
use citius_server.Software.Rsa.{
  accepted, rsa_hash, generate_rsa_key, parse_rsa_private_key, parse_rsa_public_key,
  check_rsa_key_size, rsa_private, rsa_public, pss_options, sign_rsapss_core, verify_rsapss_core,
  sign_rsapkcs1_v15_core, verify_rsapkcs1_v15_core,
}

module _ {Random : Type 0} (y : Signers Random) (laws : IsSigners y) where
  -- The encoded halves of one key.
  pub record RsaPair (public private : Bytes) : Type 0 where
    pub key : y.RsaPrivate
    pub private_parsed : y.parse_pkcs8 private ≡ ok (rsa_key key)
    pub public_parsed : y.parse_pkix public ≡ ok (rsa_key (y.rsa_public key))

  pub generate_rsa_key-RsaPair :
      (bits : ℕ) (ρ : Random) {pair : Bytes × Bytes}
      → generate_rsa_key y bits ρ ≡ ok pair
      → RsaPair pair.0 pair.1
  unfolding generate_rsa_key
  generate_rsa_key-RsaPair bits ρ {pair} h =
      from_ok (wrapped (y.rsa_generate ρ bits)) h λ key made h1.
        from_ok (wrapped (y.marshal_pkcs8 (rsa_key key))) h1 λ priv_der q h2.
          from_ok (wrapped (y.marshal_pkix (rsa_key (y.rsa_public key)))) h2 λ pub_der p h3.
            let same : (pub_der, priv_der) ≡ pair = ok-injective h3 in
            subst (λ (r : Bytes × Bytes). RsaPair r.0 r.1) same
              (record {
                key = key;
                private_parsed = laws.parse_pkcs8-marshal _ (wrapped-eq-ok _ q);
                public_parsed = laws.parse_pkix-marshal _ (wrapped-eq-ok _ p);
              })

  module _ {public private : Bytes} (pair : RsaPair public private) where
    rsa_private-public :
        (bits : ℕ) {k : y.RsaPrivate}
        → rsa_private y private pkcs8 bits ≡ ok k
        → rsa_public y public spki bits ≡ ok (y.rsa_public k)
    unfolding parse_rsa_private_key parse_rsa_public_key
    rsa_private-public bits {k} h =
        from_ok (parse_rsa_private_key y private pkcs8) h λ key parsed h1.
          from_ok (check_rsa_key_size y (y.rsa_public key) bits) h1 λ u fits h2.
            let same : key ≡ k = ok-injective h2 in
            let there : parse_rsa_private_key y private pkcs8 ≡ ok pair.key =
              rw (pair.private_parsed) in
            let is_k : pair.key ≡ k = ok-injective (sym there ∙ parsed) ∙ same in
            let public_parsed : parse_rsa_public_key y public spki ≡ ok (y.rsa_public k) =
              rw (pair.public_parsed) (ap (λ e. ok (y.rsa_public e)) is_k) in
            then_ok (parse_rsa_public_key y public spki) _ public_parsed (
              then_ok (check_rsa_key_size y (y.rsa_public k) bits) _ {a = u}
                (subst (λ e. check_rsa_key_size y (y.rsa_public e) bits ≡ ok u) same fits) refl)

    pub verify_rsapss_core-sign_rsapss_core :
        (ρ : Random) (d : Bytes) (hash : HashAlgorithm) (params : RsaPssParams) {sig : Bytes}
        → sign_rsapss_core y ρ private d pkcs8 hash params ≡ ok sig
        → verify_rsapss_core y public d sig spki hash params ≡ ok true
    unfolding sign_rsapss_core verify_rsapss_core
    verify_rsapss_core-sign_rsapss_core ρ d hash params h =
        from_ok (rsa_private y private pkcs8 params.key_size_bits) h λ k parsed h1.
          from_ok (pss_options y hash params) h1 λ options chosen h2.
            then_ok (rsa_public y public spki params.key_size_bits) _
              (rsa_private-public params.key_size_bits parsed)
              (then_ok (pss_options y hash params) _ chosen
                (ap accepted (laws.sign_pss_valid ρ k options.0 d options.1 (wrapped-eq-ok _ h2))))

    pub verify_rsapkcs1_v15_core-sign_rsapkcs1_v15_core :
        (ρ : Random) (d : Bytes) (hash : HashAlgorithm) (params : RsaPkcs1V15Params) {sig : Bytes}
        → sign_rsapkcs1_v15_core y ρ private d pkcs8 hash params ≡ ok sig
        → verify_rsapkcs1_v15_core y public d sig spki hash params ≡ ok true
    unfolding sign_rsapkcs1_v15_core verify_rsapkcs1_v15_core
    verify_rsapkcs1_v15_core-sign_rsapkcs1_v15_core ρ d hash params h =
        from_ok (rsa_private y private pkcs8 params.key_size_bits) h λ k parsed h1.
          from_ok (rsa_hash hash) h1 λ f chosen h2.
            then_ok (rsa_public y public spki params.key_size_bits) _
              (rsa_private-public params.key_size_bits parsed)
              (then_ok (rsa_hash hash) _ chosen
                (ap accepted (laws.sign_pkcs1_v15_valid ρ k f d (wrapped-eq-ok _ h2))))
