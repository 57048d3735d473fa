-- ===== src/Software/AesCtr.antt =====
-- internal/provider/software/aesctr.go.
use citius_server.Prelude.{
  ℕ, zero, suc, ◌+◌, ◌-◌, ◌/◌, ◌≤◌, ◌≡◌, sym, ap, ◌∙◌, true, ◌&&◌, [], ◌∷◌, ◌++◌, arith, ltb, eqb,
  if◌then◌else◌, eqb_iff, length, length-append,
}
use citius_server.Errors.{invalid_argument, not_implemented}
use citius_server.Software.Outcome.{
  Outcome, ok, panic, NoPanic, ◌>>=◌, ◌>>◌, guard, wrapped, from_ok, >>=-NoPanic, wrapped-NoPanic,
  guard-NoPanic, wrapped-eq-ok, guard-eq-ok, ok-injective, then_ok, then_guard,
}
use citius_server.Software.Types.{Bytes, AesCtrParams}
use citius_server.Software.Library.{Ciphers, IsCiphers, block_size}
use citius_server.Software.Symmetric.{check_aes_key_matches_declared_size}

unfoldable pub check_aesctr_params_valid : ℕ → ℕ → Outcome (Unit {0})
check_aesctr_params_valid nonce_size_bits counter_bits =
    guard (eqb nonce_size_bits 96 && eqb counter_bits 32) not_implemented

-- `make([]byte, n)`, which panics for a negative length.
abbrev zeros : ℕ → Bytes
zeros zero = []
zeros (suc n) = 0 ∷ zeros n

abbrev make_bytes : ℕ → ℕ → Outcome Bytes
make_bytes n m = if ltb n m then panic else ok (zeros (n - m))

module _ {Random : Type 0} (x : Ciphers Random) where
  unfoldable pub new_aesctr_block : Bytes → AesCtrParams → Outcome x.Block
  unfolding check_aes_key_matches_declared_size check_aesctr_params_valid
  new_aesctr_block key_material params = do
    check_aes_key_matches_declared_size key_material params.key_size_bits
    check_aesctr_params_valid params.nonce_size_bits params.counter_bits
    wrapped (x.new_cipher key_material)

  -- The ciphertext and the first counter block.
  unfoldable pub encrypt_aesctr : Bytes → Bytes → AesCtrParams → Random → Outcome (Bytes × Bytes)
  unfolding new_aesctr_block
  encrypt_aesctr key_material plaintext params ρ = do
    block ← new_aesctr_block key_material params
    nonce ← wrapped (x.read (params.nonce_size_bits / 8) ρ)
    counter ← make_bytes block_size (length nonce)
    ciphertext ← x.xor_key_stream block (nonce ++ counter) plaintext
    ok (ciphertext, nonce ++ counter)

  unfoldable pub decrypt_aesctr : Bytes → Bytes → Bytes → AesCtrParams → Outcome Bytes
  unfolding new_aesctr_block
  decrypt_aesctr key_material ciphertext iv params = do
    block ← new_aesctr_block key_material params
    guard (eqb (length iv) block_size) invalid_argument
    x.xor_key_stream block iv ciphertext

length-zeros : (n : ℕ) → length (zeros n) ≡ n
length-zeros zero = omega arith
length-zeros (suc n) = omega (arith, length-zeros n)

length-make_bytes : (n m : ℕ) {s : Bytes} → make_bytes n m ≡ ok s → m + length s ≡ n
length-make_bytes n m h = ground (arith, length-zeros (n - m))

module _ {Random : Type 0} (x : Ciphers Random) (laws : IsCiphers x) where
  pub decrypt_aesctr-encrypt_aesctr :
      (key p : Bytes) (params : AesCtrParams) (ρ : Random) {c iv : Bytes}
      → encrypt_aesctr x key p params ρ ≡ ok (c, iv)
      → decrypt_aesctr x key c iv params ≡ ok p
  unfolding encrypt_aesctr decrypt_aesctr
  decrypt_aesctr-encrypt_aesctr key p params ρ {c} {iv} h =
      from_ok (new_aesctr_block x key params) h λ block made h1.
        from_ok (wrapped (x.read (params.nonce_size_bits / 8) ρ)) h1 λ nonce drawn h2.
          from_ok (make_bytes block_size (length nonce)) h2 λ counter filled h3.
            from_ok (x.xor_key_stream block (nonce ++ counter) p) h3 λ c2 done h4.
              let same : (c2, nonce ++ counter) ≡ (c, iv) = ok-injective h4 in
              let done' : x.xor_key_stream block iv p ≡ ok c = cc in
              let size : length iv ≡ block_size =
                ap length (ap (λ (q : Bytes × Bytes). q.1) (sym same))
                ∙ length-append nonce counter
                ∙ length-make_bytes block_size (length nonce) filled in
              then_ok (new_aesctr_block x key params) _ made (
                then_guard (eqb (length iv) block_size) _ ((eqb_iff _ _).1 size)
                  (laws.xor_key_stream_twice block iv p done'))

  new_aesctr_block-NoPanic :
      (key : Bytes) (params : AesCtrParams) → NoPanic (new_aesctr_block x key params)
  unfolding new_aesctr_block check_aesctr_params_valid
  new_aesctr_block-NoPanic key params =
      >>=-NoPanic (check_aes_key_matches_declared_size key params.key_size_bits) _
        (guard-NoPanic _ _)
        λ u e.
          >>=-NoPanic (check_aesctr_params_valid params.nonce_size_bits params.counter_bits) _
            (guard-NoPanic _ _) λ u2 e2. wrapped-NoPanic _ (laws.new_cipher-NoPanic key)

  -- The nonce leaves room for the counter in a block.
  nonce_fits :
      (key : Bytes) (params : AesCtrParams) {block : x.Block}
      → new_aesctr_block x key params ≡ ok block
      → params.nonce_size_bits / 8 ≤ block_size
  unfolding new_aesctr_block check_aesctr_params_valid
  nonce_fits key params h =
      from_ok (check_aes_key_matches_declared_size key params.key_size_bits) h λ u e h1.
        from_ok (check_aesctr_params_valid params.nonce_size_bits params.counter_bits) h1
          λ u2 e2 h2.
            let valid : (eqb params.nonce_size_bits 96 && eqb params.counter_bits 32) ≡ true =
              guard-eq-ok _ _ e2 in
            ground arith

  pub encrypt_aesctr-NoPanic :
      (key p : Bytes) (params : AesCtrParams) (ρ : Random)
      → NoPanic (encrypt_aesctr x key p params ρ)
  unfolding encrypt_aesctr
  encrypt_aesctr-NoPanic key p params ρ =
      >>=-NoPanic (new_aesctr_block x key params) _ (new_aesctr_block-NoPanic key params)
        λ block made.
          >>=-NoPanic (wrapped (x.read (params.nonce_size_bits / 8) ρ)) _
            (wrapped-NoPanic _ (laws.read-NoPanic _ ρ))
            λ nonce drawn.
              >>=-NoPanic (make_bytes block_size (length nonce)) _
                (let size : length nonce ≡ params.nonce_size_bits / 8 =
                    laws.length-read _ ρ (wrapped-eq-ok _ drawn) in
                  ground (arith, nonce_fits key params made))
                λ counter filled.
                  >>=-NoPanic (x.xor_key_stream block (nonce ++ counter) p) _
                    (laws.xor_key_stream-NoPanic block (nonce ++ counter) p (
                      length-append nonce counter
                      ∙ length-make_bytes block_size (length nonce) filled))
                    λ c done. tt

  pub decrypt_aesctr-NoPanic :
      (key c iv : Bytes) (params : AesCtrParams) → NoPanic (decrypt_aesctr x key c iv params)
  unfolding decrypt_aesctr
  decrypt_aesctr-NoPanic key c iv params =
      >>=-NoPanic (new_aesctr_block x key params) _ (new_aesctr_block-NoPanic key params)
        λ block made.
          >>=-NoPanic (guard (eqb (length iv) block_size) invalid_argument) _ (guard-NoPanic _ _)
            λ u size.
              laws.xor_key_stream-NoPanic block iv c ((eqb_iff _ _).0 (guard-eq-ok _ _ size))
