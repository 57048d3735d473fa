-- ===== src/Software/Ed25519.antt =====
-- internal/provider/software/ed25519.go.
use citius_server.Prelude.{Bool}
use citius_server.Errors.{new, invalid_argument, not_implemented}
use citius_server.Software.Outcome.{Outcome, ok, err, ◌>>=◌, ◌>>◌, wrapped}
use citius_server.Software.Types.{
  Bytes, HashAlgorithm, Ed25519Variant, pure, PrivateKeyEncoding, pkcs8, PublicKeyEncoding, spki,
}
use citius_server.Software.Signers.{Signers, AnyKey, ed25519_key}
use citius_server.Software.Rsa.{accepted}

unfoldable pub check_ed25519_pure_variant : Ed25519Variant → Outcome (Unit {0})
check_ed25519_pure_variant Ed25519Variant.unspecified = ok tt
check_ed25519_pure_variant pure = ok tt
check_ed25519_pure_variant _ = err (new not_implemented)

unfoldable pub check_ed25519_ph_hash : HashAlgorithm → Outcome (Unit {0})
check_ed25519_ph_hash HashAlgorithm.unspecified = ok tt
check_ed25519_ph_hash HashAlgorithm.sha512 = ok tt
check_ed25519_ph_hash _ = err (new not_implemented)

module _ {Random : Type 0} (x : Signers Random) where
  -- The public and the private key, encoded.
  unfoldable pub generate_ed25519_key : Random → Outcome (Bytes × Bytes)
  generate_ed25519_key ρ = do
    pair ← wrapped (x.ed25519_generate ρ)
    priv_der ← wrapped (x.marshal_pkcs8 (ed25519_key pair.1))
    pub_der ← wrapped (x.marshal_pkix (ed25519_key pair.0))
    ok (pub_der, priv_der)

  -- `key.(ed25519.PrivateKey)` and `key.(ed25519.PublicKey)`
  abbrev pub as_ed25519 : {E R D : Type 0} → AnyKey E R D → Outcome D
  as_ed25519 (ed25519_key k) = ok k
  as_ed25519 _ = err (new invalid_argument)

  abbrev parse_ed25519_pkcs8 : Bytes → Outcome x.Ed25519Private
  parse_ed25519_pkcs8 der = do key ← wrapped (x.parse_pkcs8 der); as_ed25519 key

  unfoldable pub parse_ed25519_private_key : Bytes → PrivateKeyEncoding → Outcome x.Ed25519Private
  parse_ed25519_private_key der pkcs8 = parse_ed25519_pkcs8 der
  parse_ed25519_private_key der PrivateKeyEncoding.unspecified = parse_ed25519_pkcs8 der
  parse_ed25519_private_key der _ = err (new not_implemented)

  abbrev parse_ed25519_spki : Bytes → Outcome x.Ed25519Public
  parse_ed25519_spki der = do key ← wrapped (x.parse_pkix der); as_ed25519 key

  unfoldable pub parse_ed25519_public_key : Bytes → PublicKeyEncoding → Outcome x.Ed25519Public
  parse_ed25519_public_key der spki = parse_ed25519_spki der
  parse_ed25519_public_key der PublicKeyEncoding.unspecified = parse_ed25519_spki der
  parse_ed25519_public_key der _ = err (new not_implemented)

  unfoldable pub sign_ed25519 : Bytes → Bytes → PrivateKeyEncoding → Ed25519Variant → Outcome Bytes
  unfolding check_ed25519_pure_variant parse_ed25519_private_key
  sign_ed25519 der payload encoding variant = do
    check_ed25519_pure_variant variant
    key ← parse_ed25519_private_key der encoding
    x.ed25519_sign key payload

  unfoldable pub verify_ed25519 :
      Bytes → Bytes → Bytes → PublicKeyEncoding → Ed25519Variant → Outcome Bool
  unfolding check_ed25519_pure_variant parse_ed25519_public_key
  verify_ed25519 der payload signature encoding variant = do
    check_ed25519_pure_variant variant
    key ← parse_ed25519_public_key der encoding
    x.ed25519_verify key payload signature

  unfoldable pub sign_ed25519_ph_digest :
      Bytes → Bytes → PrivateKeyEncoding → HashAlgorithm → Outcome Bytes
  unfolding check_ed25519_ph_hash parse_ed25519_private_key
  sign_ed25519_ph_digest der digest encoding hash = do
    check_ed25519_ph_hash hash
    key ← parse_ed25519_private_key der encoding
    wrapped (x.ed25519_sign_ph key digest)

  unfoldable pub verify_ed25519_ph_digest :
      Bytes → Bytes → Bytes → PublicKeyEncoding → HashAlgorithm → Outcome Bool
  unfolding check_ed25519_ph_hash parse_ed25519_public_key
  verify_ed25519_ph_digest der digest signature encoding hash = do
    check_ed25519_ph_hash hash
    key ← parse_ed25519_public_key der encoding
    accepted (x.ed25519_verify_ph key digest signature)
