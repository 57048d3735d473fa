-- ===== src/Software/MlDsaLaws.antt =====
-- Signatures of a generated ML-DSA key, deterministic or not, are valid under its public half and
-- under the same context.
use citius_server.Prelude.{
  ◌≡◌, refl, sym, ap, ◌∙◌, subst, Bool, true, false, if◌then◌else◌, eqb_iff,
}
use citius_server.Errors.{invalid_argument, internal}
use citius_server.Software.Outcome.{
  ok, guard, wrapped, from_ok, wrapped-eq-ok, guard-eq-ok, ok-injective, then_ok,
}
use citius_server.Software.Types.{Bytes, MlDsaParameterSet, ml_dsa_44, ml_dsa_65, ml_dsa_87, pkcs8}
use citius_server.Software.Signers.{Signers, IsSigners, Scheme, mldsa44, mldsa65, mldsa87}
use citius_server.Software.MlDsa.{
  scheme_eqb, mldsa_scheme, check_mldsa_context_length, generate_mldsa_key, parse_mldsa_private_key,
  parse_mldsa_pkcs8_private_key, sign_mldsa, sign_mldsa_randomized, sign_mldsa_randomized_with,
  verify_mldsa,
}

pub scheme_eqb_sound : (s t : Scheme) → scheme_eqb s t ≡ true → s ≡ t
scheme_eqb_sound mldsa44 mldsa44 h = refl
scheme_eqb_sound mldsa65 mldsa65 h = refl
scheme_eqb_sound mldsa87 mldsa87 h = refl
scheme_eqb_sound (Scheme.other m) (Scheme.other n) h = ap Scheme.other ((eqb_iff m n).0 h)
scheme_eqb_sound mldsa44 mldsa65 h = absurd (cc)
scheme_eqb_sound mldsa44 mldsa87 h = absurd (cc)
scheme_eqb_sound mldsa44 (Scheme.other n) h = absurd (cc)
scheme_eqb_sound mldsa65 mldsa44 h = absurd (cc)
scheme_eqb_sound mldsa65 mldsa87 h = absurd (cc)
scheme_eqb_sound mldsa65 (Scheme.other n) h = absurd (cc)
scheme_eqb_sound mldsa87 mldsa44 h = absurd (cc)
scheme_eqb_sound mldsa87 mldsa65 h = absurd (cc)
scheme_eqb_sound mldsa87 (Scheme.other n) h = absurd (cc)
scheme_eqb_sound (Scheme.other m) mldsa44 h = absurd (cc)
scheme_eqb_sound (Scheme.other m) mldsa65 h = absurd (cc)
scheme_eqb_sound (Scheme.other m) mldsa87 h = absurd (cc)

module _ {Random : Type 0} (y : Signers Random) where
  -- The randomized signature is made by the scheme of the parameter set.
  pub sign_mldsa_randomized-with :
      (ρ : Random) (set : MlDsaParameterSet) (s : Scheme) (k : y.MlDsaPrivate) (m ctx : Bytes)
      → mldsa_scheme set ≡ ok s
      → sign_mldsa_randomized y ρ k m ctx set ≡ sign_mldsa_randomized_with y ρ k m ctx s
  unfolding mldsa_scheme sign_mldsa_randomized
  sign_mldsa_randomized-with ρ ml_dsa_44 s k m ctx h =
      ap (sign_mldsa_randomized_with y ρ k m ctx) (ok-injective h)
  sign_mldsa_randomized-with ρ ml_dsa_65 s k m ctx h =
      ap (sign_mldsa_randomized_with y ρ k m ctx) (ok-injective h)
  sign_mldsa_randomized-with ρ ml_dsa_87 s k m ctx h =
      ap (sign_mldsa_randomized_with y ρ k m ctx) (ok-injective h)
  sign_mldsa_randomized-with ρ (MlDsaParameterSet.other n) s k m ctx h = absurd (cc)

module _ {Random : Type 0} (y : Signers Random) (laws : IsSigners y) where
  -- The encoded halves of one key.
  pub record MlDsaPair (public private : Bytes) : Type 0 where
    pub key : y.MlDsaPrivate
    pub private_parsed : y.unmarshal_pkix_private private ≡ ok key
    pub public_parsed : y.mldsa_unmarshal_public (y.scheme_of key) public ≡ ok (y.mldsa_public key)

  pub generate_mldsa_key-MlDsaPair :
      (set : MlDsaParameterSet) (ρ : Random) {pair : Bytes × Bytes}
      → generate_mldsa_key y set ρ ≡ ok pair
      → MlDsaPair pair.0 pair.1
  unfolding generate_mldsa_key
  generate_mldsa_key-MlDsaPair set ρ {pair} h = from_ok (mldsa_scheme set) h λ s known h0.
      from_ok (wrapped (y.mldsa_generate s ρ)) h0 λ keys made h1.
        from_ok (wrapped (y.mldsa_marshal_public keys.0)) h1 λ pub_bytes p h2.
          from_ok (wrapped (y.marshal_pkix_private keys.1)) h2 λ priv_bytes q h3.
            let same : (pub_bytes, priv_bytes) ≡ pair = ok-injective h3 in
            let halves : keys.0 ≡ y.mldsa_public keys.1 =
              (laws.mldsa_generate_pair s ρ (wrapped-eq-ok _ made)).0 in
            subst (λ (r : Bytes × Bytes). MlDsaPair r.0 r.1) same
              (record {
                key = keys.1;
                private_parsed = laws.unmarshal_pkix_private-marshal _ (wrapped-eq-ok _ q);
                public_parsed =
                    laws.mldsa_unmarshal_public-marshal keys.1
                      (ap y.mldsa_marshal_public (sym halves) ∙ wrapped-eq-ok _ p);
              })

  -- Whichever way a key signs, its signature is valid.
  signed_valid :
      (ρ : Random) (set : MlDsaParameterSet) (s : Scheme) (k : y.MlDsaPrivate) (m ctx : Bytes)
      (deterministic : Bool) {sig : Bytes}
      → mldsa_scheme set ≡ ok s
      → (if deterministic then y.mldsa_sign s k m ctx else sign_mldsa_randomized y ρ k m ctx set)
        ≡ ok sig
      → y.mldsa_verify s (y.mldsa_public k) m sig ctx ≡ ok true
  unfolding sign_mldsa_randomized_with
  signed_valid ρ set s k m ctx true {sig} known h = laws.mldsa_sign_valid s k m ctx h
  signed_valid ρ set s k m ctx false {sig} known h =
      let by : sign_mldsa_randomized_with y ρ k m ctx s ≡ ok sig =
        sym (sign_mldsa_randomized-with y ρ set s k m ctx known) ∙ h in
      from_ok (guard (scheme_eqb (y.scheme_of k) s) internal) by
        λ u same h1. laws.mldsa_sign_to_valid s ρ k m ctx (wrapped-eq-ok _ h1)

  module _ {public private : Bytes} (pair : MlDsaPair public private) where
    pub verify_mldsa-sign_mldsa :
        (ρ : Random) (m ctx : Bytes) (set : MlDsaParameterSet) (deterministic : Bool) {sig : Bytes}
        → sign_mldsa y ρ private m ctx pkcs8 set deterministic ≡ ok sig
        → verify_mldsa y public m sig ctx set ≡ ok true
    unfolding sign_mldsa verify_mldsa parse_mldsa_private_key parse_mldsa_pkcs8_private_key
    verify_mldsa-sign_mldsa ρ m ctx set deterministic h =
        from_ok (check_mldsa_context_length ctx) h λ u short h1.
          from_ok (mldsa_scheme set) h1 λ s known h2.
            from_ok (parse_mldsa_private_key y private pkcs8 s) h2 λ k parsed h3.
              from_ok (wrapped (y.unmarshal_pkix_private private)) parsed λ k2 read h4.
                from_ok (guard (scheme_eqb (y.scheme_of k2) s) invalid_argument) h4 λ u2 right h5.
                  let is_k : k2 ≡ k = ok-injective h5 in
                  let there : pair.key ≡ k2 =
                    ok-injective (sym pair.private_parsed ∙ wrapped-eq-ok _ read) in
                  let same_scheme : y.scheme_of pair.key ≡ s =
                    ap y.scheme_of there
                    ∙ scheme_eqb_sound (y.scheme_of k2) s (guard-eq-ok _ _ right) in
                  let public_read : y.mldsa_unmarshal_public s public ≡ ok (y.mldsa_public k) =
                    cc (pair.public_parsed) in
                  then_ok (check_mldsa_context_length ctx) _ short (
                    then_ok (mldsa_scheme set) _ known
                      (rw public_read (signed_valid ρ set s k m ctx deterministic known h3)))
