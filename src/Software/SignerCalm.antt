-- ===== src/Software/SignerCalm.antt =====
-- No call of a signature scheme panics: where a library would, the code has checked its argument.
use citius_server.Prelude.{ℕ, inl, inr, eqb, Bool-cases}
use citius_server.Software.Outcome.{
  Outcome, ok, err, panic, NoPanic, ◌>>=◌, wrapped, >>=-NoPanic, wrapped-NoPanic, guard-NoPanic,
}
use citius_server.Prelude.Int.{pos}
use citius_server.Software.Types.{
  Bytes, EllipticCurve, HashAlgorithm, number, int_eqb, int_ltb, SaltLengthMode, hash_length,
  max_length, explicit, PrivateKeyEncoding, pkcs8, sec1, pem, PublicKeyEncoding, spki,
}
use citius_server.Software.Signers.{
  Signers, IsCalm, AnyKey, ecdsa_key, rsa_key, ed25519_key, other_key, Curve,
}
use citius_server.Software.Ecdsa.{
  curve_for_algorithm, check_curve_matches, curve_min_hash, ecdsa_digest, parse_ecdsa_private_key,
  parse_ecdsa_public_key, ecdsa_private, ecdsa_public, as_ecdsa, resolved, ecdsa_sum, pkcs8_or_sec1,
}
use citius_server.Software.Rsa.{accepted, rsa_hash, rsapss_salt_length, as_rsa}
use citius_server.Software.Ed25519.{as_ed25519}

pub curve_for_algorithm-NoPanic : (c : EllipticCurve) → NoPanic (curve_for_algorithm c)
unfolding curve_for_algorithm
curve_for_algorithm-NoPanic EllipticCurve.p256 = tt
curve_for_algorithm-NoPanic EllipticCurve.p384 = tt
curve_for_algorithm-NoPanic EllipticCurve.p521 = tt
curve_for_algorithm-NoPanic (EllipticCurve.other n) = tt

curve_min_hash-NoPanic : (c : EllipticCurve) → NoPanic (curve_min_hash c)
unfolding curve_min_hash
curve_min_hash-NoPanic EllipticCurve.p256 = tt
curve_min_hash-NoPanic EllipticCurve.p384 = tt
curve_min_hash-NoPanic EllipticCurve.p521 = tt
curve_min_hash-NoPanic (EllipticCurve.other n) = tt

resolved-NoPanic : (h least : HashAlgorithm) → NoPanic (resolved h least)
resolved-NoPanic h least = elim (Bool-cases (int_eqb (number h) (pos 0))) [
  | inl z ↦ rw z tt
  | inr z ↦ elim (Bool-cases (int_ltb (number h) (number least))) [
    | inl w ↦ rw (z, w) tt
    | inr w ↦ rw (z, w) tt
  ]
]

pub accepted-NoPanic : (m : Outcome (Unit {0})) → NoPanic m → NoPanic (accepted m)
accepted-NoPanic (ok u) h = tt
accepted-NoPanic (err e) h = tt
accepted-NoPanic panic h = h

pub rsa_hash-NoPanic : (h : HashAlgorithm) → NoPanic (rsa_hash h)
unfolding rsa_hash
rsa_hash-NoPanic HashAlgorithm.unspecified = tt
rsa_hash-NoPanic HashAlgorithm.sha256 = tt
rsa_hash-NoPanic HashAlgorithm.sha384 = tt
rsa_hash-NoPanic HashAlgorithm.sha512 = tt
rsa_hash-NoPanic (HashAlgorithm.other n) = tt

pub rsapss_salt_length-NoPanic :
    (mode : SaltLengthMode) (n : ℕ) → NoPanic (rsapss_salt_length mode n)
unfolding rsapss_salt_length
rsapss_salt_length-NoPanic hash_length n = tt
rsapss_salt_length-NoPanic max_length n = tt
rsapss_salt_length-NoPanic explicit n = elim (Bool-cases (eqb n 0)) [
  | inl z ↦ rw z tt
  | inr z ↦ rw z tt
]
rsapss_salt_length-NoPanic (SaltLengthMode.other i) n = tt

module _ {Random : Type 0} (y : Signers Random) (calm : IsCalm y) where
  ecdsa_sum-NoPanic : (h : HashAlgorithm) (m : Bytes) → NoPanic (ecdsa_sum y h m)
  ecdsa_sum-NoPanic HashAlgorithm.unspecified m = tt
  ecdsa_sum-NoPanic HashAlgorithm.sha256 m = tt
  ecdsa_sum-NoPanic HashAlgorithm.sha384 m = tt
  ecdsa_sum-NoPanic HashAlgorithm.sha512 m = tt
  ecdsa_sum-NoPanic (HashAlgorithm.other n) m = tt

  pub ecdsa_digest-NoPanic :
      (c : EllipticCurve) (h : HashAlgorithm) (m : Bytes) → NoPanic (ecdsa_digest y c h m)
  unfolding ecdsa_digest
  ecdsa_digest-NoPanic c h m =
      >>=-NoPanic (curve_min_hash c) _ (curve_min_hash-NoPanic c) λ least e.
        >>=-NoPanic (resolved h least) _ (resolved-NoPanic h least) λ r e2. ecdsa_sum-NoPanic r m

  as_ecdsa-NoPanic : {E R D : Type 0} (k : AnyKey E R D) → NoPanic (as_ecdsa y k)
  as_ecdsa-NoPanic (ecdsa_key k) = tt
  as_ecdsa-NoPanic (rsa_key k) = tt
  as_ecdsa-NoPanic (ed25519_key k) = tt
  as_ecdsa-NoPanic (other_key n) = tt

  pub as_rsa-NoPanic : {E R D : Type 0} (k : AnyKey E R D) → NoPanic (as_rsa y k)
  as_rsa-NoPanic (ecdsa_key k) = tt
  as_rsa-NoPanic (rsa_key k) = tt
  as_rsa-NoPanic (ed25519_key k) = tt
  as_rsa-NoPanic (other_key n) = tt

  pub as_ed25519-NoPanic : {E R D : Type 0} (k : AnyKey E R D) → NoPanic (as_ed25519 y k)
  as_ed25519-NoPanic (ecdsa_key k) = tt
  as_ed25519-NoPanic (rsa_key k) = tt
  as_ed25519-NoPanic (ed25519_key k) = tt
  as_ed25519-NoPanic (other_key n) = tt

  -- A parser of x509 and the test of the type of the key.
  pub parsed_private-NoPanic :
      {K : Type 0} (as_key : AnyKey y.EcdsaPrivate y.RsaPrivate y.Ed25519Private → Outcome K)
      (der : Bytes)
      → ((k : AnyKey y.EcdsaPrivate y.RsaPrivate y.Ed25519Private) → NoPanic (as_key k))
      → NoPanic (wrapped (y.parse_pkcs8 der) >>= as_key)
  parsed_private-NoPanic as_key der h =
      >>=-NoPanic (wrapped (y.parse_pkcs8 der)) _ (wrapped-NoPanic _ (calm.parse_pkcs8_calm der))
        λ k e. h k

  pub parsed_public-NoPanic :
      {K : Type 0} (as_key : AnyKey y.EcdsaPublic y.RsaPublic y.Ed25519Public → Outcome K)
      (der : Bytes)
      → ((k : AnyKey y.EcdsaPublic y.RsaPublic y.Ed25519Public) → NoPanic (as_key k))
      → NoPanic (wrapped (y.parse_pkix der) >>= as_key)
  parsed_public-NoPanic as_key der h =
      >>=-NoPanic (wrapped (y.parse_pkix der)) _ (wrapped-NoPanic _ (calm.parse_pkix_calm der))
        λ k e. h k

  pkcs8_or_sec1-NoPanic :
      (m : Outcome (AnyKey y.EcdsaPrivate y.RsaPrivate y.Ed25519Private))
      (f : Outcome y.EcdsaPrivate)
      → NoPanic m
      → NoPanic f
      → NoPanic (pkcs8_or_sec1 y m f)
  pkcs8_or_sec1-NoPanic (ok key) f h k = as_ecdsa-NoPanic key
  pkcs8_or_sec1-NoPanic (err e) f h k = k
  pkcs8_or_sec1-NoPanic panic f h k = h

  parse_ecdsa_private_key-NoPanic :
      (der : Bytes) (enc : PrivateKeyEncoding) → NoPanic (parse_ecdsa_private_key y der enc)
  unfolding parse_ecdsa_private_key
  parse_ecdsa_private_key-NoPanic der pkcs8 =
      parsed_private-NoPanic (as_ecdsa y) der as_ecdsa-NoPanic
  parse_ecdsa_private_key-NoPanic der sec1 = wrapped-NoPanic _ (calm.parse_ec_calm der)
  parse_ecdsa_private_key-NoPanic der PrivateKeyEncoding.raw = tt
  parse_ecdsa_private_key-NoPanic der pem = tt
  parse_ecdsa_private_key-NoPanic der PrivateKeyEncoding.unspecified =
      pkcs8_or_sec1-NoPanic _ _ (calm.parse_pkcs8_calm der)
        (wrapped-NoPanic _ (calm.parse_ec_calm der))
  parse_ecdsa_private_key-NoPanic der (PrivateKeyEncoding.other n) =
      pkcs8_or_sec1-NoPanic _ _ (calm.parse_pkcs8_calm der)
        (wrapped-NoPanic _ (calm.parse_ec_calm der))

  parse_ecdsa_public_key-NoPanic :
      (der : Bytes) (enc : PublicKeyEncoding) → NoPanic (parse_ecdsa_public_key y der enc)
  unfolding parse_ecdsa_public_key
  parse_ecdsa_public_key-NoPanic der PublicKeyEncoding.unspecified =
      parsed_public-NoPanic (as_ecdsa y) der as_ecdsa-NoPanic
  parse_ecdsa_public_key-NoPanic der spki = parsed_public-NoPanic (as_ecdsa y) der as_ecdsa-NoPanic
  parse_ecdsa_public_key-NoPanic der PublicKeyEncoding.raw = tt
  parse_ecdsa_public_key-NoPanic der (PublicKeyEncoding.other n) = tt

  check_curve_matches-NoPanic : (c : Curve) (d : EllipticCurve) → NoPanic (check_curve_matches c d)
  unfolding check_curve_matches
  check_curve_matches-NoPanic c d =
      >>=-NoPanic (curve_for_algorithm d) _ (curve_for_algorithm-NoPanic d) λ w e. guard-NoPanic _ _

  pub ecdsa_private-NoPanic :
      (der : Bytes) (enc : PrivateKeyEncoding) (c : EllipticCurve)
      → NoPanic (ecdsa_private y der enc c)
  ecdsa_private-NoPanic der enc c =
      >>=-NoPanic (parse_ecdsa_private_key y der enc) _ (parse_ecdsa_private_key-NoPanic der enc)
        λ k e.
          >>=-NoPanic (check_curve_matches (y.ecdsa_curve (y.ecdsa_public k)) c) _
            (check_curve_matches-NoPanic _ c) λ u e2. tt

  pub ecdsa_public-NoPanic :
      (der : Bytes) (enc : PublicKeyEncoding) (c : EllipticCurve)
      → NoPanic (ecdsa_public y der enc c)
  ecdsa_public-NoPanic der enc c =
      >>=-NoPanic (parse_ecdsa_public_key y der enc) _ (parse_ecdsa_public_key-NoPanic der enc)
        λ k e.
          >>=-NoPanic (check_curve_matches (y.ecdsa_curve k) c) _ (check_curve_matches-NoPanic _ c)
            λ u e2. tt
