-- ===== src/Software/EcdsaFormat.antt =====
-- internal/provider/software/ecdsa_signature_format.go.
use citius_server.Prelude.{
  ℕ, zero, suc, ◌+◌, ◌*◌, ◌/◌, ◌%◌, ◌^◌, ◌≤◌, ◌<◌, ◌≡◌, refl, sym, ap, ◌∙◌, subst, true, [], ◌∷◌,
  ◌++◌, arith, ltb, eqb, if◌then◌else◌, length, take, drop, Text, codes, length-append, take-append,
  drop-append,
}
use citius_server.Errors.{new, invalid_argument, not_implemented}
use citius_server.Software.Outcome.{
  Outcome, ok, err, panic, NoPanic, ◌>>=◌, ◌>>◌, guard, wrapped, >>=-NoPanic, wrapped-NoPanic,
  guard-NoPanic, ok-injective,
}
use native.Mathlib.Nat.{pow-suc}
use citius_server.Prelude.Int.{ℤ, pos, negsuc}
use citius_server.Software.Types.{Bytes, SignatureFormat, der, ieee_p1363}
use citius_server.Software.Signers.{
  Signers, IsSigners, IsCalm, Curve, bit_size, p224, p256, p384, p521,
}

-- The last `size` digits of a number in base 256, from the highest.
abbrev digits_of : ℕ → ℕ → Bytes
digits_of zero n = []
digits_of (suc size) n = digits_of size (n / 256) ++ n % 256 ∷ []

abbrev absolute : ℤ → ℕ
absolute (pos n) = n
absolute (negsuc n) = suc n

-- `FillBytes` of a buffer: the absolute value, with a panic where it does not fit.
unfoldable pub fill_bytes : ℤ → ℕ → Outcome Bytes
fill_bytes n size =
    if ltb (absolute n) (256 ^ size) then ok (digits_of size (absolute n)) else panic

abbrev number_of : ℕ → Bytes → ℕ
number_of acc [] = acc
number_of acc (b ∷ s) = number_of (acc * 256 + b) s

-- `SetBytes`
unfoldable pub set_bytes : Bytes → ℤ
set_bytes s = pos (number_of 0 s)

-- The bytes of a coordinate.
abbrev pub coordinate_size : Curve → ℕ
coordinate_size curve = (bit_size curve + 7) / 8

unfoldable pub ecdsa_signature_encoding_label : SignatureFormat → Text
ecdsa_signature_encoding_label ieee_p1363 = codes "p1363"
ecdsa_signature_encoding_label _ = codes "der"

module _ {Random : Type 0} (x : Signers Random) where
  abbrev encode_p1363 : ℤ → ℤ → ℕ → Outcome Bytes
  encode_p1363 r s size = do
    first ← fill_bytes r size
    second ← fill_bytes s size
    ok (first ++ second)

  unfoldable pub encode_ecdsa_signature : ℤ → ℤ → Curve → SignatureFormat → Outcome Bytes
  unfolding fill_bytes
  encode_ecdsa_signature r s curve SignatureFormat.unspecified = x.asn1_marshal (r, s)
  encode_ecdsa_signature r s curve der = x.asn1_marshal (r, s)
  encode_ecdsa_signature r s curve ieee_p1363 = encode_p1363 r s (coordinate_size curve)
  encode_ecdsa_signature r s curve (SignatureFormat.other n) = err (new not_implemented)

  -- The two numbers, if nothing follows them.
  abbrev pub all_parsed : Outcome ((ℤ × ℤ) × Bytes) → Outcome (ℤ × ℤ)
  all_parsed m = do
    parsed ← wrapped m
    guard (eqb (length parsed.1) 0) invalid_argument
    ok parsed.0

  abbrev pub decode_der : Bytes → Outcome (ℤ × ℤ)
  decode_der sig = all_parsed (x.asn1_unmarshal sig)

  abbrev pub decode_p1363 : Bytes → ℕ → Outcome (ℤ × ℤ)
  decode_p1363 sig size = do
    guard (eqb (length sig) (2 * size)) invalid_argument
    ok (set_bytes (take size sig), set_bytes (drop size sig))

  unfoldable pub decode_ecdsa_signature : Bytes → Curve → SignatureFormat → Outcome (ℤ × ℤ)
  unfolding set_bytes
  decode_ecdsa_signature sig curve SignatureFormat.unspecified = decode_der sig
  decode_ecdsa_signature sig curve der = decode_der sig
  decode_ecdsa_signature sig curve ieee_p1363 = decode_p1363 sig (coordinate_size curve)
  decode_ecdsa_signature sig curve (SignatureFormat.other n) = err (new not_implemented)

length-digits_of : (size n : ℕ) → length (digits_of size n) ≡ size
length-digits_of zero n = omega arith
length-digits_of (suc size) n =
    length-append (digits_of size (n / 256)) _ ∙ omega (arith, length-digits_of size (n / 256))

number_of-append : (acc : ℕ) (s t : Bytes) → number_of acc (s ++ t) ≡ number_of (number_of acc s) t
number_of-append acc [] t = refl
number_of-append acc (b ∷ s) t = number_of-append (acc * 256 + b) s t

number_of-digits_of : (size n : ℕ) → n < 256 ^ size → number_of 0 (digits_of size n) ≡ n
number_of-digits_of zero n h = omega arith
number_of-digits_of (suc size) n h =
    let below : n / 256 < 256 ^ size = omega (arith, pow-suc 256 size) in
    number_of-append 0 (digits_of size (n / 256)) (n % 256 ∷ [])
    ∙ ap (λ (k : ℕ). k * 256 + n % 256) (number_of-digits_of size (n / 256) below)
    ∙ omega arith

fits : (c : Curve) → 2 ^ bit_size c ≤ 256 ^ coordinate_size c
fits p224 = omega arith
fits p256 = omega arith
fits p384 = omega arith
fits p521 = omega arith

module _ {Random : Type 0} (x : Signers Random) (laws : IsSigners x) where
  -- `fill_bytes` of a number that is below 2 ^ BitSize.
  filled :
      (c : Curve) (m : ℕ)
      → m < 2 ^ bit_size c
      → fill_bytes (pos m) (coordinate_size c) ≡ ok (digits_of (coordinate_size c) m)
  unfolding fill_bytes
  filled c m h =
      let small : m < 256 ^ coordinate_size c = omega (arith, fits c) in
      let test : ltb m (256 ^ coordinate_size c) ≡ true = ground arith in rw test

  p1363_parts :
      (size : ℕ) (s t : Bytes)
      → length s ≡ size
      → length t ≡ size
      → decode_p1363 x (s ++ t) size ≡ ok (pos (number_of 0 s), pos (number_of 0 t))
  unfolding set_bytes
  p1363_parts size s t h k =
      subst (λ n. decode_p1363 x (s ++ t) n ≡ ok (pos (number_of 0 s), pos (number_of 0 t))) h
        (let whole : eqb (length (s ++ t)) (2 * length s) ≡ true =
            ground (arith, length-append s t) in
          rw (whole, take-append, drop-append))

  p1363_back :
      (c : Curve) (m n : ℕ)
      → m < 2 ^ bit_size c
      → n < 2 ^ bit_size c
      → decode_ecdsa_signature x
          (digits_of (coordinate_size c) m ++ digits_of (coordinate_size c) n)
          c
          ieee_p1363
        ≡ ok (pos m, pos n)
  unfolding decode_ecdsa_signature set_bytes
  p1363_back c m n h k =
      let long = length-digits_of (coordinate_size c) in
      let values : (
        pos (number_of 0 (digits_of (coordinate_size c) m)),
        pos (number_of 0 (digits_of (coordinate_size c) n)),
      )
          ≡ (pos m, pos n) =
        cc (
          number_of-digits_of (coordinate_size c) m (omega (arith, fits c)),
          number_of-digits_of (coordinate_size c) n (omega (arith, fits c)),
        ) in
      p1363_parts (coordinate_size c) _ _ (long m) (long n) ∙ ap ok values

  -- What is encoded for a signature of the key is decoded, in every format that is supported.
  pub decode_ecdsa_signature-encode :
      (c : Curve) (format : SignatureFormat) (m n : ℕ) {sig : Bytes}
      → m < 2 ^ bit_size c
      → n < 2 ^ bit_size c
      → encode_ecdsa_signature x (pos m) (pos n) c format ≡ ok sig
      → decode_ecdsa_signature x sig c format ≡ ok (pos m, pos n)
  unfolding decode_ecdsa_signature encode_ecdsa_signature
  decode_ecdsa_signature-encode c SignatureFormat.unspecified m n h k e =
      rw (laws.asn1_unmarshal-marshal _ e)
  decode_ecdsa_signature-encode c der m n h k e = rw (laws.asn1_unmarshal-marshal _ e)
  decode_ecdsa_signature-encode c ieee_p1363 m n h k e =
      let made : encode_p1363 x (pos m) (pos n) (coordinate_size c)
          ≡ ok (digits_of (coordinate_size c) m ++ digits_of (coordinate_size c) n) =
        rw (filled c m h, filled c n k) in
      subst (λ s. decode_ecdsa_signature x s c ieee_p1363 ≡ ok (pos m, pos n))
        (ok-injective (sym made ∙ e)) (p1363_back c m n h k)
  decode_ecdsa_signature-encode c (SignatureFormat.other i) m n h k e = absurd (cc)

  pub encode_ecdsa_signature-NoPanic :
      (calm : IsCalm x) (c : Curve) (format : SignatureFormat) (m n : ℕ)
      → m < 2 ^ bit_size c
      → n < 2 ^ bit_size c
      → NoPanic (encode_ecdsa_signature x (pos m) (pos n) c format)
  unfolding encode_ecdsa_signature
  encode_ecdsa_signature-NoPanic calm c SignatureFormat.unspecified m n h k =
      calm.asn1_marshal_calm (pos m, pos n)
  encode_ecdsa_signature-NoPanic calm c der m n h k = calm.asn1_marshal_calm (pos m, pos n)
  encode_ecdsa_signature-NoPanic calm c ieee_p1363 m n h k = rw (filled c m h, filled c n k) tt
  encode_ecdsa_signature-NoPanic calm c (SignatureFormat.other i) m n h k = tt

  der_calm : (calm : IsCalm x) (sig : Bytes) → NoPanic (decode_der x sig)
  der_calm calm sig =
      >>=-NoPanic (wrapped (x.asn1_unmarshal sig)) _
        (wrapped-NoPanic _ (calm.asn1_unmarshal_calm sig))
        λ parsed e.
          >>=-NoPanic (guard (eqb (length parsed.1) 0) invalid_argument) _ (guard-NoPanic _ _)
            λ u e2. tt

  pub decode_ecdsa_signature-NoPanic :
      (calm : IsCalm x) (sig : Bytes) (c : Curve) (format : SignatureFormat)
      → NoPanic (decode_ecdsa_signature x sig c format)
  unfolding decode_ecdsa_signature
  decode_ecdsa_signature-NoPanic calm sig c SignatureFormat.unspecified = der_calm calm sig
  decode_ecdsa_signature-NoPanic calm sig c der = der_calm calm sig
  decode_ecdsa_signature-NoPanic calm sig c ieee_p1363 =
      >>=-NoPanic (guard (eqb (length sig) (2 * coordinate_size c)) invalid_argument) _
        (guard-NoPanic _ _) λ u e. tt
  decode_ecdsa_signature-NoPanic calm sig c (SignatureFormat.other n) = tt
