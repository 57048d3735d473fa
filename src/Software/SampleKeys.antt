-- ===== src/Software/SampleKeys.antt =====
-- Concrete signature schemes for the tests: a key is a number, and a signature shows the key and the
-- text.
use citius_server.Prelude.{
  ℕ, ◌%◌, ◌^◌, ◌<◌, ◌≡◌, refl, sym, ap, ◌∙◌, subst, Bool, true, ◌&&◌, Option, some, [], ◌∷◌, ◌++◌,
  arith, length, text_eq, text_eq_iff, none,
}
use citius_server.Software.Outcome.{Outcome, ok, ok-injective}
use citius_server.Prelude.Int.{ℤ, pos}
use citius_server.Software.Types.{Bytes, int_eqb}
use citius_server.Software.Signers.{
  Signers, IsSigners, IsCalm, Curve, p224, p256, p384, p521, Scheme, bit_size,
}
use citius_server.Software.SchemeErrors.{IsJudge}
use citius_server.Software.Sample.{
  or_error, or_error-NoPanic, or_error_plain, verdict, verdict-NoPanic, is_not_implemented_test,
}
use citius_server.Software.SampleEncodings.{
  key_bytes, bytes_key, bytes_key-key_bytes, ec_bytes, bytes_ec, bytes_ec-ec_bytes, int_bytes,
  bytes_ints, bytes_ints-int_bytes, scheme_byte, bytes_mldsa, bytes_mldsa_lem,
}

-- A key of the scheme that reads it.
abbrev in_scheme : Scheme → Option (Scheme × ℕ) → Option (Scheme × ℕ)
in_scheme s none = none
in_scheme s (some k) = some (s, k.1)

in_scheme_lem :
    (s : Scheme) (o : Option (Scheme × ℕ)) {k : Scheme × ℕ}
    → or_error (in_scheme s o) ≡ ok k
    → k.0 ≡ s
in_scheme_lem s none h = absurd (cc)
in_scheme_lem s (some k) h = ap (λ (p : Scheme × ℕ). p.0) (sym (ok-injective h))

abbrev pub signers : Signers ℕ
signers = record {
  EcdsaPrivate = Curve × ℕ;
  EcdsaPublic = Curve × ℕ;
  RsaPrivate = ℕ × ℕ;
  RsaPublic = ℕ × ℕ;
  Ed25519Private = ℕ;
  Ed25519Public = ℕ;
  MlDsaPrivate = Scheme × ℕ;
  MlDsaPublic = Scheme × ℕ;
  sum256 = λ s. 1 ∷ s;
  sum384 = λ s. 2 ∷ s;
  sum512 = λ s. 3 ∷ s;
  marshal_pkcs8 = λ k. ok (key_bytes k);
  parse_pkcs8 = λ b. or_error (bytes_key b);
  marshal_pkix = λ k. ok (key_bytes k);
  parse_pkix = λ b. or_error (bytes_key b);
  marshal_ec = λ k. ok (ec_bytes k);
  parse_ec = λ b. or_error (bytes_ec b);
  ecdsa_generate = λ c ρ. ok (c, ρ);
  ecdsa_public = λ k. k;
  ecdsa_curve = λ k. k.0;
  ecdsa_sign = λ ρ k d. ok (pos (k.1 % 256), pos (length d % 256));
  ecdsa_verify = λ k d r s. int_eqb r (pos (k.1 % 256)) && int_eqb s (pos (length d % 256));
  asn1_marshal = λ p. ok (int_bytes p.0 (int_bytes p.1 []));
  asn1_unmarshal = λ b. or_error (bytes_ints b);
  rsa_generate = λ ρ bits. ok (bits, ρ);
  rsa_public = λ k. k;
  bit_len = λ k. k.0;
  sign_pss = λ ρ k h d salt. ok (k.1 ∷ d);
  verify_pss = λ k h d sig salt. verdict (text_eq sig (k.1 ∷ d));
  sign_pkcs1_v15 = λ ρ k h d. ok (k.1 ∷ d);
  verify_pkcs1_v15 = λ k h d sig. verdict (text_eq sig (k.1 ∷ d));
  ed25519_generate = λ ρ. ok (ρ, ρ);
  ed25519_public = λ k. k;
  ed25519_sign = λ k m. ok (k ∷ m);
  ed25519_verify = λ k m sig. ok (text_eq sig (k ∷ m));
  ed25519_sign_ph = λ k d. ok (k ∷ d);
  ed25519_verify_ph = λ k d sig. verdict (text_eq sig (k ∷ d));
  scheme_of = λ k. k.0;
  public_scheme_of = λ k. k.0;
  mldsa_generate = λ s ρ. ok ((s, ρ), (s, ρ));
  mldsa_public = λ k. k;
  mldsa_marshal_public = λ k. ok (scheme_byte k.0 ∷ k.1 ∷ []);
  mldsa_unmarshal_public = λ s b. or_error (in_scheme s (bytes_mldsa b));
  marshal_pkix_private = λ k. ok (scheme_byte k.0 ∷ k.1 ∷ []);
  unmarshal_pkix_private = λ b. or_error (bytes_mldsa b);
  mldsa_unmarshal_private = λ s b. or_error (in_scheme s (bytes_mldsa b));
  mldsa_sign = λ s k m ctx. ok (k.1 ∷ ctx ++ m);
  mldsa_sign_to = λ s ρ k m ctx. ok (k.1 ∷ ctx ++ m);
  mldsa_verify = λ s k m sig ctx. ok (text_eq sig (k.1 ∷ ctx ++ m));
}

-- What is made of a key and a text is recognised.
recognised : (s sig : Bytes) → ok s ≡ ok sig → text_eq sig s ≡ true
recognised s sig h = (text_eq_iff sig s).1 (sym (ok-injective h))

verdict_of : (b : Bool) → b ≡ true → verdict b ≡ ok tt
verdict_of b h = rw h

read_back :
    {A : Type 0} (parse : Bytes → Option A) (b : Bytes) (k : A) {c : Bytes}
    → parse b ≡ some k
    → ok b ≡ ok c
    → or_error (parse c) ≡ ok k
read_back parse b k h e = subst (λ c. or_error (parse c) ≡ ok k) (ok-injective e) (rw h)

below : (c : Curve) (n : ℕ) → n % 256 < 2 ^ bit_size c
below p224 n = omega arith
below p256 n = omega arith
below p384 n = omega arith
below p521 n = omega arith

int_eqb_refl : (n : ℕ) → int_eqb (pos n) (pos n) ≡ true
int_eqb_refl n = ground arith

ecdsa_valid :
    (k : Curve × ℕ) (d : Bytes) (r s : ℤ)
    → ◌≡◌ {A = Outcome (ℤ × ℤ)} (ok (pos (k.1 % 256), pos (length d % 256))) (ok (r, s))
    → (int_eqb r (pos (k.1 % 256)) && int_eqb s (pos (length d % 256))) ≡ true
ecdsa_valid k d r s h =
    subst
      (λ (p : ℤ × ℤ). (int_eqb p.0 (pos (k.1 % 256)) && int_eqb p.1 (pos (length d % 256))) ≡ true)
      (ok-injective h) (rw (int_eqb_refl (k.1 % 256), int_eqb_refl (length d % 256)))

pub signers-IsSigners : IsSigners signers
signers-IsSigners = record {
  parse_pkcs8-marshal = λ k h. read_back bytes_key (key_bytes k) k (bytes_key-key_bytes k) h;
  parse_pkix-marshal = λ k h. read_back bytes_key (key_bytes k) k (bytes_key-key_bytes k) h;
  parse_ec-marshal = λ k h. read_back bytes_ec (ec_bytes k) k (bytes_ec-ec_bytes k) h;
  asn1_unmarshal-marshal = λ p h.
      read_back bytes_ints (int_bytes p.0 (int_bytes p.1 [])) (p, []) (bytes_ints-int_bytes p.0 p.1)
        h;
  ecdsa_generate_curve = λ c ρ h. ap (λ (k : Curve × ℕ). k.0) (sym (ok-injective h));
  ecdsa_sign_valid = λ ρ k d {r} {s} h. ecdsa_valid k d r s h;
  ecdsa_sign_bounds = λ ρ k d h. (
    k.1 % 256,
    length d % 256,
    ap (λ (p : ℤ × ℤ). p.0) (sym (ok-injective h)),
    ap (λ (p : ℤ × ℤ). p.1) (sym (ok-injective h)),
    below k.0 k.1,
    below k.0 (length d),
  );
  rsa_generate_size = λ ρ n h. ap (λ (k : ℕ × ℕ). k.0) (sym (ok-injective h));
  sign_pss_valid = λ ρ k h d salt e. verdict_of _ (recognised (k.1 ∷ d) _ e);
  sign_pkcs1_v15_valid = λ ρ k h d e. verdict_of _ (recognised (k.1 ∷ d) _ e);
  ed25519_generate_pair = λ ρ h.
      ap (λ (p : ℕ × ℕ). p.0) (sym (ok-injective h)) ∙ ap (λ (p : ℕ × ℕ). p.1) (ok-injective h);
  ed25519_sign_valid = λ k m h. ap ok (recognised (k ∷ m) _ h);
  ed25519_sign_ph_valid = λ k d h. verdict_of _ (recognised (k ∷ d) _ h);
  mldsa_generate_pair = λ s ρ h. (
    ap (λ (p : signers.MlDsaPublic × signers.MlDsaPrivate). p.0) (sym (ok-injective h))
        ∙ ap (λ (p : signers.MlDsaPublic × signers.MlDsaPrivate). p.1) (ok-injective h),
    ap (λ (p : signers.MlDsaPublic × signers.MlDsaPrivate). p.1.0) (sym (ok-injective h)),
  );
  mldsa_unmarshal_public-marshal = λ k h.
      read_back (λ b. in_scheme k.0 (bytes_mldsa b)) _ k (ap (in_scheme k.0) (bytes_mldsa_lem k)) h;
  unmarshal_pkix_private-marshal = λ k h. read_back bytes_mldsa _ k (bytes_mldsa_lem k) h;
  mldsa_sign_valid = λ s k m ctx h. ap ok (recognised (k.1 ∷ ctx ++ m) _ h);
  mldsa_sign_to_valid = λ s ρ k m ctx h. ap ok (recognised (k.1 ∷ ctx ++ m) _ h);
}

pub signers-IsCalm : IsCalm signers
signers-IsCalm = record {
  marshal_pkcs8_calm = λ k. tt;
  parse_pkcs8_calm = λ b. or_error-NoPanic (bytes_key b);
  marshal_pkix_calm = λ k. tt;
  parse_pkix_calm = λ b. or_error-NoPanic (bytes_key b);
  marshal_ec_calm = λ k. tt;
  parse_ec_calm = λ b. or_error-NoPanic (bytes_ec b);
  ecdsa_generate_calm = λ c ρ. tt;
  ecdsa_sign_calm = λ ρ k d. tt;
  asn1_marshal_calm = λ p. tt;
  asn1_unmarshal_calm = λ b. or_error-NoPanic (bytes_ints b);
  rsa_generate_calm = λ ρ n. tt;
  sign_pss_calm = λ ρ k h d salt. tt;
  verify_pss_calm = λ k h d sig salt. verdict-NoPanic _;
  sign_pkcs1_v15_calm = λ ρ k h d. tt;
  verify_pkcs1_v15_calm = λ k h d sig. verdict-NoPanic _;
  ed25519_generate_calm = λ ρ. tt;
  ed25519_sign_calm = λ k m. tt;
  ed25519_verify_calm = λ k m sig. tt;
  ed25519_sign_ph_calm = λ k d. tt;
  ed25519_verify_ph_calm = λ k d sig. verdict-NoPanic _;
  mldsa_generate_calm = λ s ρ. tt;
  mldsa_marshal_public_calm = λ k. tt;
  mldsa_unmarshal_public_calm = λ s b. or_error-NoPanic (in_scheme s (bytes_mldsa b));
  marshal_pkix_private_calm = λ k. tt;
  unmarshal_pkix_private_calm = λ b. or_error-NoPanic (bytes_mldsa b);
  mldsa_unmarshal_private_calm = λ s b. or_error-NoPanic (in_scheme s (bytes_mldsa b));
  mldsa_sign_calm = λ s k m ctx same short. tt;
  mldsa_sign_to_calm = λ s ρ k m ctx same. tt;
  mldsa_verify_calm = λ s k m sig ctx same. tt;
  mldsa_unmarshal_private_scheme = λ s b h. in_scheme_lem s (bytes_mldsa b) h;
  mldsa_unmarshal_public_scheme = λ s b h. in_scheme_lem s (bytes_mldsa b) h;
}

pub signers-IsJudge : IsJudge signers is_not_implemented_test
signers-IsJudge = record {
  invalid_is_other = refl;
  asn1_is_other = λ b h. rw (or_error_plain (bytes_ints b) h);
  mldsa_verify_plain = λ s k m sig ctx h. cc;
  ed25519_verify_plain = λ k m sig h. cc;
}
