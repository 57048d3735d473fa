-- ===== src/Software/Signers.antt =====
-- What the signature schemes call: crypto/ecdsa, crypto/rsa, crypto/ed25519, crypto/x509,
-- encoding/asn1, the hashes, and circl's ML-DSA with its pki package. The laws are what these
-- document of generated keys, of their encodings, of signatures, and of when they panic.
use citius_server.Prelude.{ℕ, ◌^◌, ◌≤◌, ◌<◌, ◌≡◌, Bool, true, [], length}
use citius_server.Prelude.Int.{ℤ, pos}
use citius_server.Software.Outcome.{Outcome, ok, NoPanic}
use citius_server.Software.Types.{Bytes}

-- The curves of crypto/elliptic.
pub data Curve : Type 0 where
  p224 p256 p384 p521 : Curve

abbrev pub bit_size : Curve → ℕ
bit_size p224 = 224
bit_size p256 = 256
bit_size p384 = 384
bit_size p521 = 521

-- `crypto.SHA256` and so on.
pub data Hash : Type 0 where
  sha256 sha384 sha512 : Hash

-- The schemes of circl's pki package.
pub data Scheme : Type 0 where
  mldsa44 mldsa65 mldsa87 : Scheme
  other : ℕ → Scheme

-- What x509 parses: a key of one of three kinds, or of another.
pub data AnyKey (E R D : Type 0) : Type 0 where
  ecdsa_key : E → AnyKey E R D
  rsa_key : R → AnyKey E R D
  ed25519_key : D → AnyKey E R D
  other_key : ℕ → AnyKey E R D

pub record Signers (Random : Type 0) : Type 1 where
  pub EcdsaPrivate : Type 0
  pub EcdsaPublic : Type 0
  pub RsaPrivate : Type 0
  pub RsaPublic : Type 0
  pub Ed25519Private : Type 0
  pub Ed25519Public : Type 0
  pub MlDsaPrivate : Type 0
  pub MlDsaPublic : Type 0
  pub sum256 : Bytes → Bytes
  pub sum384 : Bytes → Bytes
  pub sum512 : Bytes → Bytes
  pub marshal_pkcs8 : AnyKey EcdsaPrivate RsaPrivate Ed25519Private → Outcome Bytes
  pub parse_pkcs8 : Bytes → Outcome (AnyKey EcdsaPrivate RsaPrivate Ed25519Private)
  pub marshal_pkix : AnyKey EcdsaPublic RsaPublic Ed25519Public → Outcome Bytes
  pub parse_pkix : Bytes → Outcome (AnyKey EcdsaPublic RsaPublic Ed25519Public)
  pub marshal_ec : EcdsaPrivate → Outcome Bytes
  pub parse_ec : Bytes → Outcome EcdsaPrivate
  pub ecdsa_generate : Curve → Random → Outcome EcdsaPrivate
  pub ecdsa_public : EcdsaPrivate → EcdsaPublic
  pub ecdsa_curve : EcdsaPublic → Curve
  pub ecdsa_sign : Random → EcdsaPrivate → Bytes → Outcome (ℤ × ℤ)
  pub ecdsa_verify : EcdsaPublic → Bytes → ℤ → ℤ → Bool
  pub asn1_marshal : ℤ × ℤ → Outcome Bytes
  -- The two integers, and what follows them.
  pub asn1_unmarshal : Bytes → Outcome ((ℤ × ℤ) × Bytes)
  pub rsa_generate : Random → ℕ → Outcome RsaPrivate
  pub rsa_public : RsaPrivate → RsaPublic
  pub bit_len : RsaPublic → ℕ
  -- With the length of the salt, as `PSSOptions` has it.
  pub sign_pss : Random → RsaPrivate → Hash → Bytes → ℤ → Outcome Bytes
  pub verify_pss : RsaPublic → Hash → Bytes → Bytes → ℤ → Outcome (Unit {0})
  pub sign_pkcs1_v15 : Random → RsaPrivate → Hash → Bytes → Outcome Bytes
  pub verify_pkcs1_v15 : RsaPublic → Hash → Bytes → Bytes → Outcome (Unit {0})
  pub ed25519_generate : Random → Outcome (Ed25519Public × Ed25519Private)
  pub ed25519_public : Ed25519Private → Ed25519Public
  pub ed25519_sign : Ed25519Private → Bytes → Outcome Bytes
  pub ed25519_verify : Ed25519Public → Bytes → Bytes → Outcome Bool
  -- With the options of Ed25519ph.
  pub ed25519_sign_ph : Ed25519Private → Bytes → Outcome Bytes
  pub ed25519_verify_ph : Ed25519Public → Bytes → Bytes → Outcome (Unit {0})
  pub scheme_of : MlDsaPrivate → Scheme
  pub public_scheme_of : MlDsaPublic → Scheme
  pub mldsa_generate : Scheme → Random → Outcome (MlDsaPublic × MlDsaPrivate)
  pub mldsa_public : MlDsaPrivate → MlDsaPublic
  pub mldsa_marshal_public : MlDsaPublic → Outcome Bytes
  pub mldsa_unmarshal_public : Scheme → Bytes → Outcome MlDsaPublic
  pub marshal_pkix_private : MlDsaPrivate → Outcome Bytes
  pub unmarshal_pkix_private : Bytes → Outcome MlDsaPrivate
  pub mldsa_unmarshal_private : Scheme → Bytes → Outcome MlDsaPrivate
  -- `Scheme.Sign` and the `SignTo` of the scheme's package, with the text and the context.
  pub mldsa_sign : Scheme → MlDsaPrivate → Bytes → Bytes → Outcome Bytes
  pub mldsa_sign_to : Scheme → Random → MlDsaPrivate → Bytes → Bytes → Outcome Bytes
  pub mldsa_verify : Scheme → MlDsaPublic → Bytes → Bytes → Bytes → Outcome Bool

-- Keys of a given curve or size, encodings that are read back, and signatures that are valid.
pub record IsSigners {Random : Type 0} (x : Signers Random) : Type 0 where
  pub parse_pkcs8-marshal :
      (k : AnyKey x.EcdsaPrivate x.RsaPrivate x.Ed25519Private) {b : Bytes}
      → x.marshal_pkcs8 k ≡ ok b
      → x.parse_pkcs8 b ≡ ok k
  pub parse_pkix-marshal :
      (k : AnyKey x.EcdsaPublic x.RsaPublic x.Ed25519Public) {b : Bytes}
      → x.marshal_pkix k ≡ ok b
      → x.parse_pkix b ≡ ok k
  pub parse_ec-marshal :
      (k : x.EcdsaPrivate) {b : Bytes} → x.marshal_ec k ≡ ok b → x.parse_ec b ≡ ok k
  pub asn1_unmarshal-marshal :
      (p : ℤ × ℤ) {b : Bytes} → x.asn1_marshal p ≡ ok b → x.asn1_unmarshal b ≡ ok (p, [])
  pub ecdsa_generate_curve :
      (c : Curve) (ρ : Random) {k : x.EcdsaPrivate}
      → x.ecdsa_generate c ρ ≡ ok k
      → x.ecdsa_curve (x.ecdsa_public k) ≡ c
  pub ecdsa_sign_valid :
      (ρ : Random) (k : x.EcdsaPrivate) (d : Bytes) {r s : ℤ}
      → x.ecdsa_sign ρ k d ≡ ok (r, s)
      → x.ecdsa_verify (x.ecdsa_public k) d r s ≡ true
  -- Both numbers are below the order of the curve.
  pub ecdsa_sign_bounds :
      (ρ : Random) (k : x.EcdsaPrivate) (d : Bytes) {r s : ℤ}
      → x.ecdsa_sign ρ k d ≡ ok (r, s)
      → (m : ℕ) × (n : ℕ) × (r ≡ pos m)
        × (s ≡ pos n)
        × (m < 2 ^ bit_size (x.ecdsa_curve (x.ecdsa_public k)))
        × (n < 2 ^ bit_size (x.ecdsa_curve (x.ecdsa_public k)))
  pub rsa_generate_size :
      (ρ : Random) (n : ℕ) {k : x.RsaPrivate}
      → x.rsa_generate ρ n ≡ ok k
      → x.bit_len (x.rsa_public k) ≡ n
  pub sign_pss_valid :
      (ρ : Random) (k : x.RsaPrivate) (h : Hash) (d : Bytes) (salt : ℤ) {sig : Bytes}
      → x.sign_pss ρ k h d salt ≡ ok sig
      → x.verify_pss (x.rsa_public k) h d sig salt ≡ ok tt
  pub sign_pkcs1_v15_valid :
      (ρ : Random) (k : x.RsaPrivate) (h : Hash) (d : Bytes) {sig : Bytes}
      → x.sign_pkcs1_v15 ρ k h d ≡ ok sig
      → x.verify_pkcs1_v15 (x.rsa_public k) h d sig ≡ ok tt
  pub ed25519_generate_pair :
      (ρ : Random) {p : x.Ed25519Public} {k : x.Ed25519Private}
      → x.ed25519_generate ρ ≡ ok (p, k)
      → p ≡ x.ed25519_public k
  pub ed25519_sign_valid :
      (k : x.Ed25519Private) (m : Bytes) {sig : Bytes}
      → x.ed25519_sign k m ≡ ok sig
      → x.ed25519_verify (x.ed25519_public k) m sig ≡ ok true
  pub ed25519_sign_ph_valid :
      (k : x.Ed25519Private) (d : Bytes) {sig : Bytes}
      → x.ed25519_sign_ph k d ≡ ok sig
      → x.ed25519_verify_ph (x.ed25519_public k) d sig ≡ ok tt
  pub mldsa_generate_pair :
      (s : Scheme) (ρ : Random) {p : x.MlDsaPublic} {k : x.MlDsaPrivate}
      → x.mldsa_generate s ρ ≡ ok (p, k)
      → (p ≡ x.mldsa_public k) × (x.scheme_of k ≡ s)
  pub mldsa_unmarshal_public-marshal :
      (k : x.MlDsaPrivate) {b : Bytes}
      → x.mldsa_marshal_public (x.mldsa_public k) ≡ ok b
      → x.mldsa_unmarshal_public (x.scheme_of k) b ≡ ok (x.mldsa_public k)
  pub unmarshal_pkix_private-marshal :
      (k : x.MlDsaPrivate) {b : Bytes}
      → x.marshal_pkix_private k ≡ ok b
      → x.unmarshal_pkix_private b ≡ ok k
  pub mldsa_sign_valid :
      (s : Scheme) (k : x.MlDsaPrivate) (m ctx : Bytes) {sig : Bytes}
      → x.mldsa_sign s k m ctx ≡ ok sig
      → x.mldsa_verify s (x.mldsa_public k) m sig ctx ≡ ok true
  pub mldsa_sign_to_valid :
      (s : Scheme) (ρ : Random) (k : x.MlDsaPrivate) (m ctx : Bytes) {sig : Bytes}
      → x.mldsa_sign_to s ρ k m ctx ≡ ok sig
      → x.mldsa_verify s (x.mldsa_public k) m sig ctx ≡ ok true

-- A call panics only where circl documents it: `Sign` and `Verify` of a scheme on a key of another
-- scheme, and `Sign` on a context that is too long. `SignTo` takes only keys of its own scheme, and a
-- scheme unmarshals keys of itself.
pub record IsCalm {Random : Type 0} (x : Signers Random) : Type 0 where
  pub marshal_pkcs8_calm :
      (k : AnyKey x.EcdsaPrivate x.RsaPrivate x.Ed25519Private) → NoPanic (x.marshal_pkcs8 k)
  pub parse_pkcs8_calm : (b : Bytes) → NoPanic (x.parse_pkcs8 b)
  pub marshal_pkix_calm :
      (k : AnyKey x.EcdsaPublic x.RsaPublic x.Ed25519Public) → NoPanic (x.marshal_pkix k)
  pub parse_pkix_calm : (b : Bytes) → NoPanic (x.parse_pkix b)
  pub marshal_ec_calm : (k : x.EcdsaPrivate) → NoPanic (x.marshal_ec k)
  pub parse_ec_calm : (b : Bytes) → NoPanic (x.parse_ec b)
  pub ecdsa_generate_calm : (c : Curve) (ρ : Random) → NoPanic (x.ecdsa_generate c ρ)
  pub ecdsa_sign_calm : (ρ : Random) (k : x.EcdsaPrivate) (d : Bytes) → NoPanic (x.ecdsa_sign ρ k d)
  pub asn1_marshal_calm : (p : ℤ × ℤ) → NoPanic (x.asn1_marshal p)
  pub asn1_unmarshal_calm : (b : Bytes) → NoPanic (x.asn1_unmarshal b)
  pub rsa_generate_calm : (ρ : Random) (n : ℕ) → NoPanic (x.rsa_generate ρ n)
  pub sign_pss_calm :
      (ρ : Random) (k : x.RsaPrivate) (h : Hash) (d : Bytes) (salt : ℤ)
      → NoPanic (x.sign_pss ρ k h d salt)
  pub verify_pss_calm :
      (k : x.RsaPublic) (h : Hash) (d sig : Bytes) (salt : ℤ)
      → NoPanic (x.verify_pss k h d sig salt)
  pub sign_pkcs1_v15_calm :
      (ρ : Random) (k : x.RsaPrivate) (h : Hash) (d : Bytes) → NoPanic (x.sign_pkcs1_v15 ρ k h d)
  pub verify_pkcs1_v15_calm :
      (k : x.RsaPublic) (h : Hash) (d sig : Bytes) → NoPanic (x.verify_pkcs1_v15 k h d sig)
  pub ed25519_generate_calm : (ρ : Random) → NoPanic (x.ed25519_generate ρ)
  pub ed25519_sign_calm : (k : x.Ed25519Private) (m : Bytes) → NoPanic (x.ed25519_sign k m)
  pub ed25519_verify_calm :
      (k : x.Ed25519Public) (m sig : Bytes) → NoPanic (x.ed25519_verify k m sig)
  pub ed25519_sign_ph_calm : (k : x.Ed25519Private) (d : Bytes) → NoPanic (x.ed25519_sign_ph k d)
  pub ed25519_verify_ph_calm :
      (k : x.Ed25519Public) (d sig : Bytes) → NoPanic (x.ed25519_verify_ph k d sig)
  pub mldsa_generate_calm : (s : Scheme) (ρ : Random) → NoPanic (x.mldsa_generate s ρ)
  pub mldsa_marshal_public_calm : (k : x.MlDsaPublic) → NoPanic (x.mldsa_marshal_public k)
  pub mldsa_unmarshal_public_calm :
      (s : Scheme) (b : Bytes) → NoPanic (x.mldsa_unmarshal_public s b)
  pub marshal_pkix_private_calm : (k : x.MlDsaPrivate) → NoPanic (x.marshal_pkix_private k)
  pub unmarshal_pkix_private_calm : (b : Bytes) → NoPanic (x.unmarshal_pkix_private b)
  pub mldsa_unmarshal_private_calm :
      (s : Scheme) (b : Bytes) → NoPanic (x.mldsa_unmarshal_private s b)
  pub mldsa_sign_calm :
      (s : Scheme) (k : x.MlDsaPrivate) (m ctx : Bytes)
      → x.scheme_of k ≡ s
      → length ctx ≤ 255
      → NoPanic (x.mldsa_sign s k m ctx)
  pub mldsa_sign_to_calm :
      (s : Scheme) (ρ : Random) (k : x.MlDsaPrivate) (m ctx : Bytes)
      → x.scheme_of k ≡ s
      → NoPanic (x.mldsa_sign_to s ρ k m ctx)
  pub mldsa_verify_calm :
      (s : Scheme) (k : x.MlDsaPublic) (m sig ctx : Bytes)
      → x.public_scheme_of k ≡ s
      → NoPanic (x.mldsa_verify s k m sig ctx)
  pub mldsa_unmarshal_private_scheme :
      (s : Scheme) (b : Bytes) {k : x.MlDsaPrivate}
      → x.mldsa_unmarshal_private s b ≡ ok k
      → x.scheme_of k ≡ s
  pub mldsa_unmarshal_public_scheme :
      (s : Scheme) (b : Bytes) {k : x.MlDsaPublic}
      → x.mldsa_unmarshal_public s b ≡ ok k
      → x.public_scheme_of k ≡ s
