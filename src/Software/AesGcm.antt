-- ===== src/Software/AesGcm.antt =====
-- internal/provider/software/aesgcm.go.
use citius_server.Prelude.{
  ℕ, ◌/◌, ◌≤◌, ◌≡◌, inl, inr, ◌&&◌, ◌||◌, eqb, if◌then◌else◌, Bool-cases, length,
}
use citius_server.Errors.{new, not_implemented}
use citius_server.Software.Outcome.{
  Outcome, ok, err, NoPanic, ◌>>=◌, ◌>>◌, guard, wrapped, from_ok, >>=-NoPanic, wrapped-NoPanic,
  guard-NoPanic, then_ok,
}
use citius_server.Software.Types.{Bytes, AesGcmParams}
use citius_server.Software.Library.{Ciphers, IsCiphers, max_plaintext}
use citius_server.Software.Aead.{
  seal_fresh, unseal_checked, unseal_checked-seal_fresh, seal_fresh-NoPanic, unseal_checked-NoPanic,
}
use citius_server.Software.Symmetric.{check_aes_key_matches_declared_size}

unfoldable pub check_aesgcm_sizes_valid : ℕ → ℕ → Outcome (Unit {0})
check_aesgcm_sizes_valid iv_size_bits tag_size_bits = do
  guard (eqb iv_size_bits 64 || eqb iv_size_bits 96 || eqb iv_size_bits 128) not_implemented
  guard
      (eqb tag_size_bits 96
        || eqb tag_size_bits 104
        || eqb tag_size_bits 112
        || eqb tag_size_bits 120
        || eqb tag_size_bits 128)
      not_implemented

module _ {Random : Type 0} (x : Ciphers Random) where
  -- The AEAD with the declared sizes of the nonce and the tag, of which one at most may differ from
  -- GCM's own.
  unfoldable pub choose_gcm : x.Block → ℕ → ℕ → Outcome x.Aead
  choose_gcm block iv_size_bits tag_size_bits =
      if eqb iv_size_bits 96 && eqb tag_size_bits 128
      then wrapped (x.new_gcm block)
      else if eqb iv_size_bits 96
      then wrapped (x.new_gcm_with_tag_size block (tag_size_bits / 8))
      else if eqb tag_size_bits 128
      then wrapped (x.new_gcm_with_nonce_size block (iv_size_bits / 8))
      else err (new not_implemented)

  unfoldable pub new_aesgcm : Bytes → ℕ → ℕ → Outcome x.Aead
  unfolding check_aesgcm_sizes_valid choose_gcm
  new_aesgcm key iv_size_bits tag_size_bits = do
    check_aesgcm_sizes_valid iv_size_bits tag_size_bits
    block ← wrapped (x.new_cipher key)
    choose_gcm block iv_size_bits tag_size_bits

  -- The ciphertext and the nonce.
  unfoldable pub encrypt_aesgcm :
      Bytes → Bytes → Bytes → AesGcmParams → Random → Outcome (Bytes × Bytes)
  unfolding check_aes_key_matches_declared_size new_aesgcm
  encrypt_aesgcm key_material plaintext aad params ρ = do
    check_aes_key_matches_declared_size key_material params.key_size_bits
    aead ← new_aesgcm key_material params.iv_size_bits params.tag_size_bits
    seal_fresh x aead plaintext aad ρ

  unfoldable pub decrypt_aesgcm : Bytes → Bytes → Bytes → Bytes → AesGcmParams → Outcome Bytes
  unfolding check_aes_key_matches_declared_size new_aesgcm
  decrypt_aesgcm key_material ciphertext nonce aad params = do
    check_aes_key_matches_declared_size key_material params.key_size_bits
    aead ← new_aesgcm key_material params.iv_size_bits params.tag_size_bits
    unseal_checked x aead nonce ciphertext aad

  module _ (laws : IsCiphers x) where
    pub decrypt_aesgcm-encrypt_aesgcm :
        (key p aad : Bytes) (params : AesGcmParams) (ρ : Random) {c nonce : Bytes}
        → encrypt_aesgcm key p aad params ρ ≡ ok (c, nonce)
        → decrypt_aesgcm key c nonce aad params ≡ ok p
    unfolding encrypt_aesgcm decrypt_aesgcm
    decrypt_aesgcm-encrypt_aesgcm key p aad params ρ {c} {nonce} h =
        from_ok (check_aes_key_matches_declared_size key params.key_size_bits) h λ u size h1.
          from_ok (new_aesgcm key params.iv_size_bits params.tag_size_bits) h1 λ aead made h2.
            then_ok (check_aes_key_matches_declared_size key params.key_size_bits) _ size (
              then_ok (new_aesgcm key params.iv_size_bits params.tag_size_bits) _ made
                (unseal_checked-seal_fresh x laws aead p aad ρ h2))

    choose_gcm-NoPanic : (k : x.Block) (iv tag : ℕ) → NoPanic (choose_gcm k iv tag)
    unfolding choose_gcm
    choose_gcm-NoPanic k iv tag = elim (Bool-cases (eqb tag 128)) [
      | inl t ↦ elim (Bool-cases (eqb iv 96)) [
        | inl i ↦ rw (i, t) (wrapped-NoPanic _ (laws.new_gcm-NoPanic k))
        | inr i ↦ rw (i, t) (wrapped-NoPanic _ (laws.new_gcm_with_nonce_size-NoPanic k _))
      ]
      | inr t ↦ elim (Bool-cases (eqb iv 96)) [
        | inl i ↦ rw (i, t) (wrapped-NoPanic _ (laws.new_gcm_with_tag_size-NoPanic k _))
        | inr i ↦ rw (i, t) tt
      ]
    ]

    new_aesgcm-NoPanic : (key : Bytes) (iv tag : ℕ) → NoPanic (new_aesgcm key iv tag)
    unfolding new_aesgcm check_aesgcm_sizes_valid
    new_aesgcm-NoPanic key iv tag =
        >>=-NoPanic (check_aesgcm_sizes_valid iv tag) _
          (>>=-NoPanic (guard (eqb iv 64 || eqb iv 96 || eqb iv 128) not_implemented) _
            (guard-NoPanic _ _) λ u e. guard-NoPanic _ _)
          λ u e.
            >>=-NoPanic (wrapped (x.new_cipher key)) _
              (wrapped-NoPanic _ (laws.new_cipher-NoPanic key))
              λ k made. choose_gcm-NoPanic k iv tag

    pub encrypt_aesgcm-NoPanic :
        (key p aad : Bytes) (params : AesGcmParams) (ρ : Random)
        → length p ≤ max_plaintext
        → NoPanic (encrypt_aesgcm key p aad params ρ)
    unfolding encrypt_aesgcm check_aes_key_matches_declared_size
    encrypt_aesgcm-NoPanic key p aad params ρ small =
        >>=-NoPanic (check_aes_key_matches_declared_size key params.key_size_bits) _
          (guard-NoPanic _ _)
          λ u e.
            >>=-NoPanic (new_aesgcm key params.iv_size_bits params.tag_size_bits) _
              (new_aesgcm-NoPanic key params.iv_size_bits params.tag_size_bits)
              λ a made. seal_fresh-NoPanic x laws a p aad ρ small

    pub decrypt_aesgcm-NoPanic :
        (key c nonce aad : Bytes) (params : AesGcmParams)
        → NoPanic (decrypt_aesgcm key c nonce aad params)
    unfolding decrypt_aesgcm check_aes_key_matches_declared_size
    decrypt_aesgcm-NoPanic key c nonce aad params =
        >>=-NoPanic (check_aes_key_matches_declared_size key params.key_size_bits) _
          (guard-NoPanic _ _)
          λ u e.
            >>=-NoPanic (new_aesgcm key params.iv_size_bits params.tag_size_bits) _
              (new_aesgcm-NoPanic key params.iv_size_bits params.tag_size_bits)
              λ a made. unseal_checked-NoPanic x laws a nonce c aad
