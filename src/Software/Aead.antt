-- ===== src/Software/Aead.antt =====
-- What encryptAESGCM and encryptChaCha20Poly1305, and the two decryptions, have in common:
-- internal/provider/software/aesgcm.go and chacha20poly1305.go.
use citius_server.Prelude.{◌≤◌, ◌≡◌, eqb, eqb_iff, length}
use citius_server.Errors.{new, invalid_argument}
use citius_server.Software.Outcome.{
  Outcome, ok, err, panic, NoPanic, ◌>>=◌, ◌>>◌, guard, wrapped, from_ok, >>=-NoPanic,
  wrapped-NoPanic, guard-NoPanic, wrapped-eq-ok, guard-eq-ok, ok-injective, then_guard,
}
use citius_server.Software.Types.{Bytes}
use citius_server.Software.Library.{Ciphers, IsCiphers, max_plaintext}

module _ {Random : Type 0} (x : Ciphers Random) where
  -- Under a fresh nonce: the ciphertext and the nonce.
  abbrev pub seal_fresh : x.Aead → Bytes → Bytes → Random → Outcome (Bytes × Bytes)
  seal_fresh aead plaintext aad ρ = do
    nonce ← wrapped (x.read (x.nonce_size aead) ρ)
    ciphertext ← x.seal aead nonce plaintext aad
    ok (ciphertext, nonce)

  -- The failures of `Open` come to one error.
  abbrev pub authenticated : Outcome Bytes → Outcome Bytes
  authenticated (ok p) = ok p
  authenticated (err e) = err (new invalid_argument)
  authenticated panic = panic

  abbrev pub unseal_checked : x.Aead → Bytes → Bytes → Bytes → Outcome Bytes
  unseal_checked aead nonce ciphertext aad = do
    guard (eqb (length nonce) (x.nonce_size aead)) invalid_argument
    authenticated (x.unseal aead nonce ciphertext aad)

  authenticated-NoPanic : (m : Outcome Bytes) → NoPanic m → NoPanic (authenticated m)
  authenticated-NoPanic (ok p) h = tt
  authenticated-NoPanic (err e) h = tt
  authenticated-NoPanic panic h = h

  module _ (laws : IsCiphers x) where
    pub unseal_checked-seal_fresh :
        (a : x.Aead) (p aad : Bytes) (ρ : Random) {c nonce : Bytes}
        → seal_fresh a p aad ρ ≡ ok (c, nonce)
        → unseal_checked a nonce c aad ≡ ok p
    unseal_checked-seal_fresh a p aad ρ {c} {nonce} h =
        from_ok (wrapped (x.read (x.nonce_size a) ρ)) h λ n drawn h1.
          from_ok (x.seal a n p aad) h1 λ c2 sealed h2.
            let same : (c2, n) ≡ (c, nonce) = ok-injective h2 in
            let sealed' : x.seal a nonce p aad ≡ ok c = cc in
            let drawn' : x.read (x.nonce_size a) ρ ≡ ok nonce = wrapped-eq-ok _ (cc) in
            then_guard (eqb (length nonce) (x.nonce_size a)) _
              ((eqb_iff _ _).1 (laws.length-read (x.nonce_size a) ρ drawn'))
              (rw (laws.unseal-seal a nonce p aad sealed'))

    pub seal_fresh-NoPanic :
        (a : x.Aead) (p aad : Bytes) (ρ : Random)
        → length p ≤ max_plaintext
        → NoPanic (seal_fresh a p aad ρ)
    seal_fresh-NoPanic a p aad ρ small =
        >>=-NoPanic (wrapped (x.read (x.nonce_size a) ρ)) _
          (wrapped-NoPanic _ (laws.read-NoPanic _ ρ))
          λ nonce drawn.
            >>=-NoPanic (x.seal a nonce p aad) _
              (laws.seal-NoPanic a nonce p aad
                (laws.length-read (x.nonce_size a) ρ (wrapped-eq-ok _ drawn)) small)
              λ c sealed. tt

    pub unseal_checked-NoPanic :
        (a : x.Aead) (nonce c aad : Bytes) → NoPanic (unseal_checked a nonce c aad)
    unseal_checked-NoPanic a nonce c aad =
        >>=-NoPanic (guard (eqb (length nonce) (x.nonce_size a)) invalid_argument) _
          (guard-NoPanic _ _)
          λ u same.
            authenticated-NoPanic _
              (laws.unseal-NoPanic a nonce c aad ((eqb_iff _ _).0 (guard-eq-ok _ _ same)))
