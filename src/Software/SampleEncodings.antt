-- ===== src/Software/SampleEncodings.antt =====
-- How the keys and signatures of the tests are encoded, and read back.
use citius_server.Prelude.{ℕ, zero, suc, ◌≡◌, refl, Option, none, some, [], ◌∷◌}
use citius_server.Prelude.Int.{ℤ, pos, negsuc}
use citius_server.Software.Types.{Bytes}
use citius_server.Software.Signers.{
  Curve, p224, p256, p384, p521, Scheme, mldsa44, mldsa65, mldsa87, AnyKey, ecdsa_key, rsa_key,
  ed25519_key, other_key,
}

abbrev curve_byte : Curve → ℕ
curve_byte p224 = 0
curve_byte p256 = 1
curve_byte p384 = 2
curve_byte p521 = 3

abbrev byte_curve : ℕ → Curve
byte_curve zero = p224
byte_curve (suc zero) = p256
byte_curve (suc (suc zero)) = p384
byte_curve (suc (suc (suc n))) = p521

abbrev Key : Type 0
Key = AnyKey (Curve × ℕ) (ℕ × ℕ) ℕ

abbrev pub key_bytes : Key → Bytes
key_bytes (ecdsa_key (c, n)) = 0 ∷ curve_byte c ∷ n ∷ []
key_bytes (rsa_key (bits, n)) = 1 ∷ bits ∷ n ∷ []
key_bytes (ed25519_key n) = 2 ∷ 0 ∷ n ∷ []
key_bytes (other_key n) = 3 ∷ 0 ∷ n ∷ []

abbrev key_of_kind : ℕ → ℕ → ℕ → Key
key_of_kind zero a n = ecdsa_key (byte_curve a, n)
key_of_kind (suc zero) a n = rsa_key (a, n)
key_of_kind (suc (suc zero)) a n = ed25519_key n
key_of_kind (suc (suc (suc k))) a n = other_key n

abbrev pub bytes_key : Bytes → Option Key
bytes_key (k ∷ a ∷ n ∷ []) = some (key_of_kind k a n)
bytes_key _ = none

pub bytes_key-key_bytes : (k : Key) → bytes_key (key_bytes k) ≡ some k
bytes_key-key_bytes (ecdsa_key (p224, n)) = refl
bytes_key-key_bytes (ecdsa_key (p256, n)) = refl
bytes_key-key_bytes (ecdsa_key (p384, n)) = refl
bytes_key-key_bytes (ecdsa_key (p521, n)) = refl
bytes_key-key_bytes (rsa_key (bits, n)) = refl
bytes_key-key_bytes (ed25519_key n) = refl
bytes_key-key_bytes (other_key n) = refl

abbrev pub ec_bytes : Curve × ℕ → Bytes
ec_bytes (c, n) = curve_byte c ∷ n ∷ []

abbrev pub bytes_ec : Bytes → Option (Curve × ℕ)
bytes_ec (c ∷ n ∷ []) = some (byte_curve c, n)
bytes_ec _ = none

pub bytes_ec-ec_bytes : (k : Curve × ℕ) → bytes_ec (ec_bytes k) ≡ some k
bytes_ec-ec_bytes (p224, n) = refl
bytes_ec-ec_bytes (p256, n) = refl
bytes_ec-ec_bytes (p384, n) = refl
bytes_ec-ec_bytes (p521, n) = refl

abbrev pub int_bytes : ℤ → Bytes → Bytes
int_bytes (pos n) s = 0 ∷ n ∷ s
int_bytes (negsuc n) s = 1 ∷ n ∷ s

abbrev int_of : ℕ → ℕ → ℤ
int_of zero n = pos n
int_of (suc k) n = negsuc n

abbrev pub bytes_ints : Bytes → Option ((ℤ × ℤ) × Bytes)
bytes_ints (a ∷ m ∷ b ∷ n ∷ s) = some ((int_of a m, int_of b n), s)
bytes_ints _ = none

pub bytes_ints-int_bytes : (r s : ℤ) → bytes_ints (int_bytes r (int_bytes s [])) ≡ some ((r, s), [])
bytes_ints-int_bytes (pos m) (pos n) = refl
bytes_ints-int_bytes (pos m) (negsuc n) = refl
bytes_ints-int_bytes (negsuc m) (pos n) = refl
bytes_ints-int_bytes (negsuc m) (negsuc n) = refl

abbrev pub scheme_byte : Scheme → ℕ
scheme_byte mldsa44 = 0
scheme_byte mldsa65 = 1
scheme_byte mldsa87 = 2
scheme_byte (Scheme.other n) = suc (suc (suc n))

abbrev byte_scheme : ℕ → Scheme
byte_scheme zero = mldsa44
byte_scheme (suc zero) = mldsa65
byte_scheme (suc (suc zero)) = mldsa87
byte_scheme (suc (suc (suc n))) = Scheme.other n

abbrev pub bytes_mldsa : Bytes → Option (Scheme × ℕ)
bytes_mldsa (s ∷ n ∷ []) = some (byte_scheme s, n)
bytes_mldsa _ = none

pub bytes_mldsa_lem : (k : Scheme × ℕ) → bytes_mldsa (scheme_byte k.0 ∷ k.1 ∷ []) ≡ some k
bytes_mldsa_lem (mldsa44, n) = refl
bytes_mldsa_lem (mldsa65, n) = refl
bytes_mldsa_lem (mldsa87, n) = refl
bytes_mldsa_lem (Scheme.other m, n) = refl
