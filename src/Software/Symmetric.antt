-- ===== src/Software/Symmetric.antt =====
-- internal/provider/software/symmetric.go, and the check of aesgcm.go that the AES modes share.
use citius_server.Prelude.{ℕ, ◌/◌, ◌||◌, eqb, length}
use citius_server.Errors.{new, invalid_argument, not_implemented}
use citius_server.Software.Outcome.{Outcome, err, ◌>>◌, guard, wrapped}
use citius_server.Software.Types.{Bytes, Algorithm, aes_gcm, aes_cbc, aes_ctr, chacha20_poly1305}
use citius_server.Software.Library.{Ciphers}

unfoldable pub check_aes_key_size : ℕ → Outcome (Unit {0})
check_aes_key_size key_size_bits =
    guard (eqb key_size_bits 128 || eqb key_size_bits 192 || eqb key_size_bits 256) not_implemented

unfoldable pub check_aes_key_matches_declared_size : Bytes → ℕ → Outcome (Unit {0})
check_aes_key_matches_declared_size key_material key_size_bits =
    guard (eqb (length key_material) (key_size_bits / 8)) invalid_argument

module _ {Random : Type 0} (x : Ciphers Random) where
  unfoldable pub generate_aes_key : ℕ → Random → Outcome Bytes
  unfolding check_aes_key_size
  generate_aes_key key_size_bits ρ = do
    check_aes_key_size key_size_bits
    wrapped (x.read (key_size_bits / 8) ρ)

  unfoldable pub generate_chacha20_key : Random → Outcome Bytes
  generate_chacha20_key ρ = wrapped (x.read 32 ρ)

  unfoldable pub generate_symmetric_key : Algorithm → Random → Outcome Bytes
  unfolding generate_aes_key generate_chacha20_key
  generate_symmetric_key (aes_gcm p) ρ = generate_aes_key p.key_size_bits ρ
  generate_symmetric_key (aes_cbc p) ρ = generate_aes_key p.key_size_bits ρ
  generate_symmetric_key (aes_ctr p) ρ = generate_aes_key p.key_size_bits ρ
  generate_symmetric_key (chacha20_poly1305 p) ρ = generate_chacha20_key ρ
  generate_symmetric_key _ ρ = err (new not_implemented)
