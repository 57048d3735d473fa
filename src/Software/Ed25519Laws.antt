-- ===== src/Software/Ed25519Laws.antt =====
-- Signatures of a generated Ed25519 key, pure or prehashed, are valid under its public half.
use citius_server.Prelude.{◌≡◌, sym, ap, ◌∙◌, subst, true}
use citius_server.Software.Outcome.{ok, wrapped, from_ok, wrapped-eq-ok, ok-injective, then_ok}
use citius_server.Software.Types.{Bytes, HashAlgorithm, Ed25519Variant, pkcs8, spki}
use citius_server.Software.Signers.{Signers, IsSigners, ed25519_key}
use citius_server.Software.Rsa.{accepted}
use citius_server.Software.Ed25519.{
  check_ed25519_pure_variant, check_ed25519_ph_hash, generate_ed25519_key,
  parse_ed25519_private_key, parse_ed25519_public_key, sign_ed25519, verify_ed25519,
  sign_ed25519_ph_digest, verify_ed25519_ph_digest,
}

module _ {Random : Type 0} (y : Signers Random) (laws : IsSigners y) where
  -- The encoded halves of one key.
  pub record Ed25519Pair (public private : Bytes) : Type 0 where
    pub key : y.Ed25519Private
    pub private_parsed : y.parse_pkcs8 private ≡ ok (ed25519_key key)
    pub public_parsed : y.parse_pkix public ≡ ok (ed25519_key (y.ed25519_public key))

  pub generate_ed25519_key-Ed25519Pair :
      (ρ : Random) {pair : Bytes × Bytes}
      → generate_ed25519_key y ρ ≡ ok pair
      → Ed25519Pair pair.0 pair.1
  unfolding generate_ed25519_key
  generate_ed25519_key-Ed25519Pair ρ {pair} h =
      from_ok (wrapped (y.ed25519_generate ρ)) h λ keys made h1.
        from_ok (wrapped (y.marshal_pkcs8 (ed25519_key keys.1))) h1 λ priv_der q h2.
          from_ok (wrapped (y.marshal_pkix (ed25519_key keys.0))) h2 λ pub_der p h3.
            let same : (pub_der, priv_der) ≡ pair = ok-injective h3 in
            let halves : keys.0 ≡ y.ed25519_public keys.1 =
              laws.ed25519_generate_pair ρ (wrapped-eq-ok _ made) in
            subst (λ (r : Bytes × Bytes). Ed25519Pair r.0 r.1) same
              (record {
                key = keys.1;
                private_parsed = laws.parse_pkcs8-marshal _ (wrapped-eq-ok _ q);
                public_parsed =
                    laws.parse_pkix-marshal _ (wrapped-eq-ok _ p)
                    ∙ ap (λ e. ok (ed25519_key e)) halves;
              })

  module _ {public private : Bytes} (pair : Ed25519Pair public private) where
    parsed_public :
        {k : y.Ed25519Private}
        → parse_ed25519_private_key y private pkcs8 ≡ ok k
        → parse_ed25519_public_key y public spki ≡ ok (y.ed25519_public k)
    unfolding parse_ed25519_private_key parse_ed25519_public_key
    parsed_public {k} parsed =
        let there : parse_ed25519_private_key y private pkcs8 ≡ ok pair.key =
          rw (pair.private_parsed) in
        let is_k : pair.key ≡ k = ok-injective (sym there ∙ parsed) in
        rw (pair.public_parsed) (ap (λ e. ok (y.ed25519_public e)) is_k)

    pub verify_ed25519-sign_ed25519 :
        (m : Bytes) (variant : Ed25519Variant) {sig : Bytes}
        → sign_ed25519 y private m pkcs8 variant ≡ ok sig
        → verify_ed25519 y public m sig spki variant ≡ ok true
    unfolding sign_ed25519 verify_ed25519
    verify_ed25519-sign_ed25519 m variant h =
        from_ok (check_ed25519_pure_variant variant) h λ u is_pure h1.
          from_ok (parse_ed25519_private_key y private pkcs8) h1 λ k parsed h2.
            then_ok (check_ed25519_pure_variant variant) _ is_pure (
              then_ok (parse_ed25519_public_key y public spki) _ (parsed_public parsed)
                (laws.ed25519_sign_valid k m h2))

    pub verify_ed25519_ph_digest-sign_ed25519_ph_digest :
        (d : Bytes) (hash : HashAlgorithm) {sig : Bytes}
        → sign_ed25519_ph_digest y private d pkcs8 hash ≡ ok sig
        → verify_ed25519_ph_digest y public d sig spki hash ≡ ok true
    unfolding sign_ed25519_ph_digest verify_ed25519_ph_digest
    verify_ed25519_ph_digest-sign_ed25519_ph_digest d hash h =
        from_ok (check_ed25519_ph_hash hash) h λ u right h1.
          from_ok (parse_ed25519_private_key y private pkcs8) h1 λ k parsed h2.
            then_ok (check_ed25519_ph_hash hash) _ right (
              then_ok (parse_ed25519_public_key y public spki) _ (parsed_public parsed)
                (ap accepted (laws.ed25519_sign_ph_valid k d (wrapped-eq-ok _ h2))))
