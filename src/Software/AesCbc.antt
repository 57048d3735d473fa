-- ===== src/Software/AesCbc.antt =====
-- internal/provider/software/aescbc.go: the mode, with its padding in Padding.
use citius_server.Prelude.{
  ℕ, ◌%◌, ◌≡◌, refl, Bool, true, false, not, ◌||◌, arith, eqb, eqb_iff, length,
}
use citius_server.Errors.{invalid_argument, not_implemented}
use citius_server.Software.Outcome.{
  Outcome, ok, NoPanic, ◌>>=◌, ◌>>◌, guard, wrapped, from_ok, >>=-NoPanic, wrapped-NoPanic,
  guard-NoPanic, wrapped-eq-ok, guard-eq-ok, ok-injective, then_ok, then_guard,
}
use citius_server.Software.Types.{Bytes, AesCbcParams, PaddingScheme, pkcs7}
use citius_server.Software.Library.{Ciphers, IsCiphers, block_size}
use citius_server.Software.Symmetric.{check_aes_key_matches_declared_size}
use citius_server.Software.Padding.{
  pkcs7_pad, pkcs7_unpad, pkcs7_unpad-pad_iff, pkcs7_unpad-NoPanic, length-pkcs7_pad,
  length-pkcs7_pad_pos,
}

abbrev is_pkcs7 : PaddingScheme → Bool
is_pkcs7 pkcs7 = true
is_pkcs7 (PaddingScheme.other n) = false

unfoldable pub check_aescbc_params_valid : ℕ → PaddingScheme → Outcome (Unit {0})
check_aescbc_params_valid iv_size_bits padding = do
  guard (eqb iv_size_bits 128) not_implemented
  guard (is_pkcs7 padding) not_implemented

module _ {Random : Type 0} (x : Ciphers Random) where
  -- The checks, and the block cipher of the key.
  unfoldable pub new_aescbc_block : Bytes → AesCbcParams → Outcome x.Block
  unfolding check_aes_key_matches_declared_size check_aescbc_params_valid
  new_aescbc_block key_material params = do
    check_aes_key_matches_declared_size key_material params.key_size_bits
    check_aescbc_params_valid params.iv_size_bits params.padding
    wrapped (x.new_cipher key_material)

  -- The ciphertext and the IV.
  unfoldable pub encrypt_aescbc : Bytes → Bytes → AesCbcParams → Random → Outcome (Bytes × Bytes)
  unfolding new_aescbc_block pkcs7_pad
  encrypt_aescbc key_material plaintext params ρ = do
    block ← new_aescbc_block key_material params
    iv ← wrapped (x.read block_size ρ)
    ciphertext ← x.cbc_encrypt block iv (pkcs7_pad plaintext block_size)
    ok (ciphertext, iv)

  abbrev whole : Bytes → Bool
  whole ciphertext = not (eqb (length ciphertext) 0 || not (eqb (length ciphertext % block_size) 0))

  unfoldable pub decrypt_aescbc : Bytes → Bytes → Bytes → AesCbcParams → Outcome Bytes
  unfolding new_aescbc_block pkcs7_unpad
  decrypt_aescbc key_material ciphertext iv params = do
    block ← new_aescbc_block key_material params
    guard (eqb (length iv) block_size) invalid_argument
    guard (whole ciphertext) invalid_argument
    padded ← x.cbc_decrypt block iv ciphertext
    pkcs7_unpad padded block_size

  module _ (laws : IsCiphers x) where
    pub decrypt_aescbc-encrypt_aescbc :
        (key p : Bytes) (params : AesCbcParams) (ρ : Random) {c iv : Bytes}
        → encrypt_aescbc key p params ρ ≡ ok (c, iv)
        → decrypt_aescbc key c iv params ≡ ok p
    unfolding encrypt_aescbc decrypt_aescbc
    decrypt_aescbc-encrypt_aescbc key p params ρ {c} {iv} h =
        from_ok (new_aescbc_block key params) h λ block made h1.
          from_ok (wrapped (x.read block_size ρ)) h1 λ i drawn h2.
            from_ok (x.cbc_encrypt block i (pkcs7_pad p block_size)) h2 λ c2 done h3.
              let same : (c2, i) ≡ (c, iv) = ok-injective h3 in
              let done' : x.cbc_encrypt block iv (pkcs7_pad p block_size) ≡ ok c = cc in
              let drawn' : x.read block_size ρ ≡ ok iv = wrapped-eq-ok _ (cc) in
              let (long, back) = laws.cbc_decrypt-encrypt block iv (pkcs7_pad p block_size) done' in
              let blocks : whole c ≡ true = ground (
                arith,
                length-pkcs7_pad p block_size (omega arith),
                length-pkcs7_pad_pos p block_size (omega arith),
              ) in
              then_ok (new_aescbc_block key params) _ made (
                then_guard (eqb (length iv) block_size) _
                  ((eqb_iff _ _).1 (laws.length-read block_size ρ drawn'))
                  (then_guard (whole c) _ blocks (
                    then_ok (x.cbc_decrypt block iv c) _ back
                      ((pkcs7_unpad-pad_iff _ p block_size (omega arith) (omega arith)).1 refl))))

    new_aescbc_block-NoPanic :
        (key : Bytes) (params : AesCbcParams) → NoPanic (new_aescbc_block key params)
    unfolding new_aescbc_block
    new_aescbc_block-NoPanic key params =
        >>=-NoPanic (check_aes_key_matches_declared_size key params.key_size_bits) _
          (guard-NoPanic _ _)
          λ u e.
            >>=-NoPanic (check_aescbc_params_valid params.iv_size_bits params.padding) _
              (>>=-NoPanic (guard (eqb params.iv_size_bits 128) not_implemented) _
                (guard-NoPanic _ _) λ u2 e2. guard-NoPanic _ _)
              λ u3 e3. wrapped-NoPanic _ (laws.new_cipher-NoPanic key)

    pub encrypt_aescbc-NoPanic :
        (key p : Bytes) (params : AesCbcParams) (ρ : Random)
        → NoPanic (encrypt_aescbc key p params ρ)
    unfolding encrypt_aescbc
    encrypt_aescbc-NoPanic key p params ρ =
        >>=-NoPanic (new_aescbc_block key params) _ (new_aescbc_block-NoPanic key params)
          λ block made.
            >>=-NoPanic (wrapped (x.read block_size ρ)) _
              (wrapped-NoPanic _ (laws.read-NoPanic _ ρ))
              λ iv drawn.
                >>=-NoPanic (x.cbc_encrypt block iv (pkcs7_pad p block_size)) _
                  (laws.cbc_encrypt-NoPanic block iv (pkcs7_pad p block_size)
                    (laws.length-read block_size ρ (wrapped-eq-ok _ drawn))
                    (length-pkcs7_pad p block_size (omega arith)))
                  λ c done. tt

    pub decrypt_aescbc-NoPanic :
        (key c iv : Bytes) (params : AesCbcParams) → NoPanic (decrypt_aescbc key c iv params)
    unfolding decrypt_aescbc
    decrypt_aescbc-NoPanic key c iv params =
        >>=-NoPanic (new_aescbc_block key params) _ (new_aescbc_block-NoPanic key params)
          λ block made.
            >>=-NoPanic (guard (eqb (length iv) block_size) invalid_argument) _ (guard-NoPanic _ _)
              λ u size.
                >>=-NoPanic (guard (whole c) invalid_argument) _ (guard-NoPanic _ _) λ u2 blocks.
                  >>=-NoPanic (x.cbc_decrypt block iv c) _
                    (laws.cbc_decrypt-NoPanic block iv c ((eqb_iff _ _).0 (guard-eq-ok _ _ size))
                      (let e : whole c ≡ true = guard-eq-ok _ _ blocks in ground arith))
                    λ padded done. pkcs7_unpad-NoPanic padded block_size
