-- ===== src/Software/Ecdsa.antt =====
-- internal/provider/software/ecdsa.go.
use citius_server.Prelude.{Bool, false, if◌then◌else◌, ◌==◌, Text, codes, text_Eq}
use citius_server.Errors.{Error, new, invalid_argument, not_implemented}
use citius_server.Software.Outcome.{Outcome, ok, err, panic, ◌>>=◌, ◌>>◌, guard, wrapped}
use citius_server.Prelude.Int.{ℤ, pos}
use citius_server.Software.Types.{
  Bytes, EllipticCurve, HashAlgorithm, number, int_eqb, int_ltb, SignatureFormat,
  PrivateKeyEncoding, pkcs8, sec1, pem, PublicKeyEncoding, spki,
}
use citius_server.Software.Signers.{Signers, Curve, p224, AnyKey, ecdsa_key}
use citius_server.Software.EcdsaFormat.{encode_ecdsa_signature, decode_ecdsa_signature}

unfoldable pub curve_for_algorithm : EllipticCurve → Outcome Curve
curve_for_algorithm EllipticCurve.p256 = ok Curve.p256
curve_for_algorithm EllipticCurve.p384 = ok Curve.p384
curve_for_algorithm EllipticCurve.p521 = ok Curve.p521
curve_for_algorithm (EllipticCurve.other n) = err (new not_implemented)

-- `Params().Name`
abbrev curve_name : Curve → Text
curve_name p224 = codes "P-224"
curve_name Curve.p256 = codes "P-256"
curve_name Curve.p384 = codes "P-384"
curve_name Curve.p521 = codes "P-521"

unfoldable pub check_curve_matches : Curve → EllipticCurve → Outcome (Unit {0})
unfolding curve_for_algorithm
check_curve_matches key_curve declared = do
  want_curve ← curve_for_algorithm declared
  guard (curve_name key_curve == curve_name want_curve) invalid_argument

unfoldable pub curve_min_hash : EllipticCurve → Outcome HashAlgorithm
curve_min_hash EllipticCurve.p256 = ok HashAlgorithm.sha256
curve_min_hash EllipticCurve.p384 = ok HashAlgorithm.sha384
curve_min_hash EllipticCurve.p521 = ok HashAlgorithm.sha512
curve_min_hash (EllipticCurve.other n) = err (new not_implemented)

-- The hash to use: the least one where none is declared.
abbrev pub resolved : HashAlgorithm → HashAlgorithm → Outcome HashAlgorithm
resolved hash min_hash =
    if int_eqb (number hash) (pos 0)
    then ok min_hash
    else if int_ltb (number hash) (number min_hash)
    then err (new invalid_argument)
    else ok hash

module _ {Random : Type 0} (x : Signers Random) where
  abbrev pub ecdsa_sum : HashAlgorithm → Bytes → Outcome Bytes
  ecdsa_sum HashAlgorithm.sha256 payload = ok (x.sum256 payload)
  ecdsa_sum HashAlgorithm.sha384 payload = ok (x.sum384 payload)
  ecdsa_sum HashAlgorithm.sha512 payload = ok (x.sum512 payload)
  ecdsa_sum _ payload = err (new not_implemented)

  unfoldable pub ecdsa_digest : EllipticCurve → HashAlgorithm → Bytes → Outcome Bytes
  unfolding curve_min_hash
  ecdsa_digest curve hash payload = do
    min_hash ← curve_min_hash curve
    resolved_hash ← resolved hash min_hash
    ecdsa_sum resolved_hash payload

  -- `key.(*ecdsa.PrivateKey)` and `key.(*ecdsa.PublicKey)`
  abbrev pub as_ecdsa : {E R D : Type 0} → AnyKey E R D → Outcome E
  as_ecdsa (ecdsa_key k) = ok k
  as_ecdsa _ = err (new invalid_argument)

  unfoldable pub parse_ecdsa_pkcs8 : Bytes → Outcome x.EcdsaPrivate
  parse_ecdsa_pkcs8 der = do key ← wrapped (x.parse_pkcs8 der); as_ecdsa key

  unfoldable pub parse_ecdsa_sec1 : Bytes → Outcome x.EcdsaPrivate
  parse_ecdsa_sec1 der = wrapped (x.parse_ec der)

  -- PKCS#8 decides if it can be parsed; else SEC1 is tried.
  abbrev pub pkcs8_or_sec1 :
      Outcome (AnyKey x.EcdsaPrivate x.RsaPrivate x.Ed25519Private)
      → Outcome x.EcdsaPrivate
      → Outcome x.EcdsaPrivate
  pkcs8_or_sec1 (ok key) fallback = as_ecdsa key
  pkcs8_or_sec1 (err e) fallback = fallback
  pkcs8_or_sec1 panic fallback = panic

  unfoldable pub parse_ecdsa_private_key : Bytes → PrivateKeyEncoding → Outcome x.EcdsaPrivate
  unfolding parse_ecdsa_pkcs8 parse_ecdsa_sec1
  parse_ecdsa_private_key der pkcs8 = parse_ecdsa_pkcs8 der
  parse_ecdsa_private_key der sec1 = parse_ecdsa_sec1 der
  parse_ecdsa_private_key der PrivateKeyEncoding.raw = err (new not_implemented)
  parse_ecdsa_private_key der pem = err (new not_implemented)
  parse_ecdsa_private_key der _ = pkcs8_or_sec1 (x.parse_pkcs8 der) (parse_ecdsa_sec1 der)

  abbrev parse_ecdsa_spki : Bytes → Outcome x.EcdsaPublic
  parse_ecdsa_spki der = do key ← wrapped (x.parse_pkix der); as_ecdsa key

  unfoldable pub parse_ecdsa_public_key : Bytes → PublicKeyEncoding → Outcome x.EcdsaPublic
  parse_ecdsa_public_key der PublicKeyEncoding.unspecified = parse_ecdsa_spki der
  parse_ecdsa_public_key der spki = parse_ecdsa_spki der
  parse_ecdsa_public_key der _ = err (new not_implemented)

  -- The public and the private key, encoded.
  unfoldable pub generate_ecdsa_key : EllipticCurve → Random → Outcome (Bytes × Bytes)
  unfolding curve_for_algorithm
  generate_ecdsa_key curve ρ = do
    c ← curve_for_algorithm curve
    key ← wrapped (x.ecdsa_generate c ρ)
    pub_der ← wrapped (x.marshal_pkix (ecdsa_key (x.ecdsa_public key)))
    priv_der ← wrapped (x.marshal_ec key)
    ok (pub_der, priv_der)

  -- A key that has been parsed and matches the declared curve.
  abbrev pub ecdsa_private : Bytes → PrivateKeyEncoding → EllipticCurve → Outcome x.EcdsaPrivate
  ecdsa_private der encoding curve = do
    key ← parse_ecdsa_private_key der encoding
    check_curve_matches (x.ecdsa_curve (x.ecdsa_public key)) curve
    ok key

  abbrev pub ecdsa_public : Bytes → PublicKeyEncoding → EllipticCurve → Outcome x.EcdsaPublic
  ecdsa_public der encoding curve = do
    key ← parse_ecdsa_public_key der encoding
    check_curve_matches (x.ecdsa_curve key) curve
    ok key

  abbrev pub ecdsa_signed : Random → x.EcdsaPrivate → Bytes → SignatureFormat → Outcome Bytes
  ecdsa_signed ρ key digest format = do
    rs ← wrapped (x.ecdsa_sign ρ key digest)
    encode_ecdsa_signature x rs.0 rs.1 (x.ecdsa_curve (x.ecdsa_public key)) format

  unfoldable pub sign_ecdsa :
      Random
      → Bytes
      → Bytes
      → PrivateKeyEncoding
      → EllipticCurve
      → HashAlgorithm
      → SignatureFormat
      → Outcome Bytes
  unfolding parse_ecdsa_private_key check_curve_matches ecdsa_digest encode_ecdsa_signature
  sign_ecdsa ρ der payload encoding curve hash format = do
    key ← ecdsa_private der encoding curve
    digest ← ecdsa_digest curve hash payload
    ecdsa_signed ρ key digest format

  unfoldable pub sign_ecdsa_digest :
      Random → Bytes → Bytes → PrivateKeyEncoding → EllipticCurve → SignatureFormat → Outcome Bytes
  unfolding parse_ecdsa_private_key check_curve_matches encode_ecdsa_signature
  sign_ecdsa_digest ρ der digest encoding curve format = do
    key ← ecdsa_private der encoding curve
    ecdsa_signed ρ key digest format

  -- Bytes that are no signature are an invalid one; a format that is not supported is an error.
  abbrev pub judged : (Error → Bool) → x.EcdsaPublic → Bytes → Outcome (ℤ × ℤ) → Outcome Bool
  judged is_not_implemented key digest (ok rs) = ok (x.ecdsa_verify key digest rs.0 rs.1)
  judged is_not_implemented key digest (err e) = if is_not_implemented e then err e else ok false
  judged is_not_implemented key digest panic = panic

  module _ (is_not_implemented : Error → Bool) where
    unfoldable pub verify_ecdsa :
        Bytes
        → Bytes
        → Bytes
        → PublicKeyEncoding
        → EllipticCurve
        → HashAlgorithm
        → SignatureFormat
        → Outcome Bool
    unfolding parse_ecdsa_public_key check_curve_matches ecdsa_digest decode_ecdsa_signature
    verify_ecdsa der payload signature encoding curve hash format = do
      key ← ecdsa_public der encoding curve
      digest ← ecdsa_digest curve hash payload
      judged is_not_implemented key digest
          (decode_ecdsa_signature x signature (x.ecdsa_curve key) format)

    unfoldable pub verify_ecdsa_digest :
        Bytes → Bytes → Bytes → PublicKeyEncoding → EllipticCurve → SignatureFormat → Outcome Bool
    unfolding parse_ecdsa_public_key check_curve_matches decode_ecdsa_signature
    verify_ecdsa_digest der digest signature encoding curve format = do
      key ← ecdsa_public der encoding curve
      judged is_not_implemented key digest
          (decode_ecdsa_signature x signature (x.ecdsa_curve key) format)
