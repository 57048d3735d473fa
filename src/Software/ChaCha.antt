-- ===== src/Software/ChaCha.antt =====
-- internal/provider/software/chacha20poly1305.go.
use citius_server.Prelude.{
  ℕ, ◌≤◌, ◌≡◌, inl, inr, Bool, not, ◌&&◌, eqb, if◌then◌else◌, Bool-cases, length,
}
use citius_server.Errors.{new, invalid_argument, not_implemented}
use citius_server.Software.Outcome.{
  Outcome, ok, err, NoPanic, ◌>>=◌, ◌>>◌, guard, wrapped, from_ok, >>=-NoPanic, wrapped-NoPanic,
  guard-NoPanic, then_ok,
}
use citius_server.Software.Types.{Bytes, ChaCha20Poly1305Params}
use citius_server.Software.Library.{Ciphers, IsCiphers, max_plaintext}
use citius_server.Software.Aead.{
  seal_fresh, unseal_checked, unseal_checked-seal_fresh, seal_fresh-NoPanic, unseal_checked-NoPanic,
}

-- `ChaCha20Poly1305TagSizeBytes`
abbrev pub chacha20_poly1305_tag_size_bytes : ℕ
chacha20_poly1305_tag_size_bytes = 16

unfoldable pub check_chacha20_key_size : Bytes → Outcome (Unit {0})
check_chacha20_key_size key_material = guard (eqb (length key_material) 32) invalid_argument

abbrev ietf : ChaCha20Poly1305Params → Bool
ietf params =
    eqb params.nonce_size_bits 96 && eqb params.block_counter_bits 32 && not params.extended_nonce

abbrev extended : ChaCha20Poly1305Params → Bool
extended params =
    eqb params.nonce_size_bits 192 && eqb params.block_counter_bits 32 && params.extended_nonce

module _ {Random : Type 0} (x : Ciphers Random) where
  unfoldable pub new_chacha20_poly1305 : Bytes → ChaCha20Poly1305Params → Outcome x.Aead
  new_chacha20_poly1305 key params =
      if ietf params
      then wrapped (x.new_chacha key)
      else if extended params
      then wrapped (x.new_xchacha key)
      else err (new not_implemented)

  unfoldable pub encrypt_chacha20_poly1305 :
      Bytes → Bytes → Bytes → ChaCha20Poly1305Params → Random → Outcome (Bytes × Bytes)
  unfolding check_chacha20_key_size new_chacha20_poly1305
  encrypt_chacha20_poly1305 key_material plaintext aad params ρ = do
    check_chacha20_key_size key_material
    aead ← new_chacha20_poly1305 key_material params
    seal_fresh x aead plaintext aad ρ

  unfoldable pub decrypt_chacha20_poly1305 :
      Bytes → Bytes → Bytes → Bytes → ChaCha20Poly1305Params → Outcome Bytes
  unfolding check_chacha20_key_size new_chacha20_poly1305
  decrypt_chacha20_poly1305 key_material ciphertext nonce aad params = do
    check_chacha20_key_size key_material
    aead ← new_chacha20_poly1305 key_material params
    unseal_checked x aead nonce ciphertext aad

  module _ (laws : IsCiphers x) where
    pub decrypt_chacha20_poly1305-encrypt_chacha20_poly1305 :
        (key p aad : Bytes) (params : ChaCha20Poly1305Params) (ρ : Random) {c nonce : Bytes}
        → encrypt_chacha20_poly1305 key p aad params ρ ≡ ok (c, nonce)
        → decrypt_chacha20_poly1305 key c nonce aad params ≡ ok p
    unfolding encrypt_chacha20_poly1305 decrypt_chacha20_poly1305
    decrypt_chacha20_poly1305-encrypt_chacha20_poly1305 key p aad params ρ h =
        from_ok (check_chacha20_key_size key) h λ u size h1.
          from_ok (new_chacha20_poly1305 key params) h1 λ aead made h2.
            then_ok (check_chacha20_key_size key) _ size (
              then_ok (new_chacha20_poly1305 key params) _ made
                (unseal_checked-seal_fresh x laws aead p aad ρ h2))

    new_chacha20_poly1305-NoPanic :
        (key : Bytes) (params : ChaCha20Poly1305Params) → NoPanic (new_chacha20_poly1305 key params)
    unfolding new_chacha20_poly1305
    new_chacha20_poly1305-NoPanic key params = elim (Bool-cases (ietf params)) [
      | inl i ↦ rw i (wrapped-NoPanic _ (laws.new_chacha-NoPanic key))
      | inr i ↦ elim (Bool-cases (extended params)) [
        | inl e ↦ rw (i, e) (wrapped-NoPanic _ (laws.new_xchacha-NoPanic key))
        | inr e ↦ rw (i, e) tt
      ]
    ]

    pub encrypt_chacha20_poly1305-NoPanic :
        (key p aad : Bytes) (params : ChaCha20Poly1305Params) (ρ : Random)
        → length p ≤ max_plaintext
        → NoPanic (encrypt_chacha20_poly1305 key p aad params ρ)
    unfolding encrypt_chacha20_poly1305 check_chacha20_key_size
    encrypt_chacha20_poly1305-NoPanic key p aad params ρ small =
        >>=-NoPanic (check_chacha20_key_size key) _ (guard-NoPanic _ _) λ u e.
          >>=-NoPanic (new_chacha20_poly1305 key params) _
            (new_chacha20_poly1305-NoPanic key params)
            λ a made. seal_fresh-NoPanic x laws a p aad ρ small

    pub decrypt_chacha20_poly1305-NoPanic :
        (key c nonce aad : Bytes) (params : ChaCha20Poly1305Params)
        → NoPanic (decrypt_chacha20_poly1305 key c nonce aad params)
    unfolding decrypt_chacha20_poly1305 check_chacha20_key_size
    decrypt_chacha20_poly1305-NoPanic key c nonce aad params =
        >>=-NoPanic (check_chacha20_key_size key) _ (guard-NoPanic _ _) λ u e.
          >>=-NoPanic (new_chacha20_poly1305 key params) _
            (new_chacha20_poly1305-NoPanic key params)
            λ a made. unseal_checked-NoPanic x laws a nonce c aad
