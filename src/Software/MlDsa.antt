-- ===== src/Software/MlDsa.antt =====
-- internal/provider/software/mldsa.go.
use citius_server.Prelude.{Bool, true, false, leb, eqb, if◌then◌else◌, length}
use citius_server.Errors.{new, invalid_argument, not_implemented, internal}
use citius_server.Software.Outcome.{Outcome, ok, err, panic, ◌>>=◌, ◌>>◌, guard, wrapped}
use citius_server.Software.Types.{
  Bytes, MlDsaParameterSet, ml_dsa_44, ml_dsa_65, ml_dsa_87, PrivateKeyEncoding, pkcs8,
}
use citius_server.Software.Signers.{Signers, Scheme, mldsa44, mldsa65, mldsa87}

unfoldable pub mldsa_scheme : MlDsaParameterSet → Outcome Scheme
mldsa_scheme ml_dsa_44 = ok mldsa44
mldsa_scheme ml_dsa_65 = ok mldsa65
mldsa_scheme ml_dsa_87 = ok mldsa87
mldsa_scheme (MlDsaParameterSet.other n) = err (new not_implemented)

unfoldable pub check_mldsa_context_length : Bytes → Outcome (Unit {0})
check_mldsa_context_length context = guard (leb (length context) 255) invalid_argument

abbrev pub scheme_eqb : Scheme → Scheme → Bool
scheme_eqb mldsa44 mldsa44 = true
scheme_eqb mldsa65 mldsa65 = true
scheme_eqb mldsa87 mldsa87 = true
scheme_eqb (Scheme.other m) (Scheme.other n) = eqb m n
scheme_eqb _ _ = false

module _ {Random : Type 0} (x : Signers Random) where
  -- The public and the private key, encoded.
  unfoldable pub generate_mldsa_key : MlDsaParameterSet → Random → Outcome (Bytes × Bytes)
  unfolding mldsa_scheme
  generate_mldsa_key parameter_set ρ = do
    scheme ← mldsa_scheme parameter_set
    pair ← wrapped (x.mldsa_generate scheme ρ)
    pub_bytes ← wrapped (x.mldsa_marshal_public pair.0)
    priv_bytes ← wrapped (x.marshal_pkix_private pair.1)
    ok (pub_bytes, priv_bytes)

  unfoldable pub parse_mldsa_pkcs8_private_key : Bytes → Scheme → Outcome x.MlDsaPrivate
  parse_mldsa_pkcs8_private_key bytes scheme = do
    key ← wrapped (x.unmarshal_pkix_private bytes)
    guard (scheme_eqb (x.scheme_of key) scheme) invalid_argument
    ok key

  -- A key that cannot be parsed as PKCS#8, or is of another scheme, is read as an expanded one.
  abbrev pub pkcs8_or_raw : Outcome x.MlDsaPrivate → Outcome x.MlDsaPrivate → Outcome x.MlDsaPrivate
  pkcs8_or_raw (ok key) fallback = ok key
  pkcs8_or_raw (err e) fallback = fallback
  pkcs8_or_raw panic fallback = panic

  unfoldable pub parse_mldsa_private_key :
      Bytes → PrivateKeyEncoding → Scheme → Outcome x.MlDsaPrivate
  unfolding parse_mldsa_pkcs8_private_key
  parse_mldsa_private_key bytes pkcs8 scheme = parse_mldsa_pkcs8_private_key bytes scheme
  parse_mldsa_private_key bytes PrivateKeyEncoding.raw scheme =
      wrapped (x.mldsa_unmarshal_private scheme bytes)
  parse_mldsa_private_key bytes _ scheme =
      pkcs8_or_raw (parse_mldsa_pkcs8_private_key bytes scheme)
        (wrapped (x.mldsa_unmarshal_private scheme bytes))

  -- A key has the type that `SignTo` of a scheme's package takes if it is of that scheme.
  unfoldable pub sign_mldsa_randomized_with :
      Random → x.MlDsaPrivate → Bytes → Bytes → Scheme → Outcome Bytes
  sign_mldsa_randomized_with ρ key payload context scheme = do
    guard (scheme_eqb (x.scheme_of key) scheme) internal
    wrapped (x.mldsa_sign_to scheme ρ key payload context)

  unfoldable pub sign_mldsa_randomized :
      Random → x.MlDsaPrivate → Bytes → Bytes → MlDsaParameterSet → Outcome Bytes
  unfolding sign_mldsa_randomized_with
  sign_mldsa_randomized ρ key payload context ml_dsa_44 =
      sign_mldsa_randomized_with ρ key payload context mldsa44
  sign_mldsa_randomized ρ key payload context ml_dsa_65 =
      sign_mldsa_randomized_with ρ key payload context mldsa65
  sign_mldsa_randomized ρ key payload context ml_dsa_87 =
      sign_mldsa_randomized_with ρ key payload context mldsa87
  sign_mldsa_randomized ρ key payload context (MlDsaParameterSet.other n) =
      err (new not_implemented)

  unfoldable pub sign_mldsa :
      Random → Bytes → Bytes → Bytes → PrivateKeyEncoding → MlDsaParameterSet → Bool → Outcome Bytes
  unfolding check_mldsa_context_length mldsa_scheme parse_mldsa_private_key sign_mldsa_randomized
  sign_mldsa ρ bytes payload context encoding parameter_set deterministic = do
    check_mldsa_context_length context
    scheme ← mldsa_scheme parameter_set
    key ← parse_mldsa_private_key bytes encoding scheme
    if deterministic
        then x.mldsa_sign scheme key payload context
        else sign_mldsa_randomized ρ key payload context parameter_set

  unfoldable pub verify_mldsa : Bytes → Bytes → Bytes → Bytes → MlDsaParameterSet → Outcome Bool
  unfolding check_mldsa_context_length mldsa_scheme
  verify_mldsa bytes payload signature context parameter_set = do
    check_mldsa_context_length context
    scheme ← mldsa_scheme parameter_set
    key ← wrapped (x.mldsa_unmarshal_public scheme bytes)
    x.mldsa_verify scheme key payload signature context
