-- ===== src/Software/Decryption.antt =====
-- Decrypt undoes Encrypt, for the algorithms that encrypt.
use citius_server.Prelude.{◌≡◌, sym, ap, ◌∙◌}
use citius_server.Software.Outcome.{Outcome, ok, err, panic, from_ok, ok-injective, then_ok}
use citius_server.Software.Types
use citius_server.Software.Types.{
  Bytes, Algorithm, ecdsa, ml_dsa, rsa_pss, rsa_pkcs1_v15, ed25519, aes_gcm, aes_cbc, aes_ctr,
  chacha20_poly1305, EncryptRequest, DecryptRequest, EncryptResponse, decrypt_request,
  encrypt_request,
}
use citius_server.Software.Library.{Core, IsCore, Ciphers, IsCiphers}
use citius_server.Software.Signers.{Signers}
use citius_server.Software.AesGcm.{encrypt_aesgcm, decrypt_aesgcm, decrypt_aesgcm-encrypt_aesgcm}
use citius_server.Software.AesCbc.{encrypt_aescbc, decrypt_aescbc, decrypt_aescbc-encrypt_aescbc}
use citius_server.Software.AesCtr.{encrypt_aesctr, decrypt_aesctr, decrypt_aesctr-encrypt_aesctr}
use citius_server.Software.ChaCha.{
  encrypt_chacha20_poly1305, decrypt_chacha20_poly1305,
  decrypt_chacha20_poly1305-encrypt_chacha20_poly1305,
}
use citius_server.Software.Encoding.{encrypted, decrypted, validate_request}
use citius_server.Software.Provider.{encrypt, decrypt, encrypt_by, decrypt_by}

module _ (k : Core) where
  -- The request to decrypt what a response holds, with its output handed back.
  abbrev pub sent_back : EncryptRequest → EncryptResponse k.Output → DecryptRequest k.Output
  sent_back req resp = record {
    key_material = req.key_material;
    ciphertext = resp.ciphertext;
    aad = req.aad;
    algorithm = req.algorithm;
    output = resp.output;
  }

  encrypted-eq-ok :
      (output : Bytes → k.Output) (m : Outcome (Bytes × Bytes)) {resp : EncryptResponse k.Output}
      → encrypted k output m ≡ ok resp
      → (nonce : Bytes) × (m ≡ ok (resp.ciphertext, nonce)) × (resp.output ≡ output nonce)
  encrypted-eq-ok output (ok parts) {resp} h =
      let same : record { ciphertext = parts.0; output = output parts.1 } ≡ resp = ok-injective h in
      (
        parts.1,
        cc (ap (λ (r : EncryptResponse k.Output). r.ciphertext) same),
        sym (ap (λ (r : EncryptResponse k.Output). r.output) same),
      )
  encrypted-eq-ok output (err e) h = absurd (cc)
  encrypted-eq-ok output panic h = absurd (cc)

  -- A decryption that inverts an encryption does so through the output that carries its nonce.
  undone :
      (output : Bytes → k.Output) (carried : k.Output → Bytes) (m : Outcome (Bytes × Bytes))
      (dec : Bytes → Bytes → Outcome Bytes) (p : Bytes) {resp : EncryptResponse k.Output}
      → ((nonce : Bytes) → carried (output nonce) ≡ nonce)
      → ((c nonce : Bytes) → m ≡ ok (c, nonce) → dec c nonce ≡ ok p)
      → encrypted k output m ≡ ok resp
      → decrypted k (dec resp.ciphertext (carried resp.output))
        ≡ ok (record { plaintext = p; output = k.no_output_unencoded })
  undone output carried m dec p {resp} back inverse h =
      let (nonce, made, out) = encrypted-eq-ok output m h in
      let nonce_back : carried resp.output ≡ nonce = ap carried out ∙ back nonce in
      rw (nonce_back, inverse resp.ciphertext nonce made)

  module _ (core : IsCore k) {Random : Type 0} (x : Ciphers Random) (y : Signers Random)
      (laws : IsCiphers x) (req : EncryptRequest) (ρ : Random)
      {resp : EncryptResponse k.Output} where
    decrypt_by-encrypt_by :
        (alg : Algorithm)
        → encrypt_by k x y alg req ρ ≡ ok resp
        → decrypt_by k x y alg (sent_back req resp)
          ≡ ok (record { plaintext = req.plaintext; output = k.no_output_unencoded })
    decrypt_by-encrypt_by (aes_gcm p) h =
        undone _ k.aead_nonce (encrypt_aesgcm x req.key_material req.plaintext req.aad p ρ)
          (λ c nonce. decrypt_aesgcm x req.key_material c nonce req.aad p) req.plaintext
          (λ nonce. core.aead_nonce_of nonce _ _)
          (λ c nonce made.
            decrypt_aesgcm-encrypt_aesgcm x laws req.key_material req.plaintext req.aad p ρ made)
          h
    decrypt_by-encrypt_by (aes_cbc p) h =
        undone _ k.block_cipher_iv (encrypt_aescbc x req.key_material req.plaintext p ρ)
          (λ c iv. decrypt_aescbc x req.key_material c iv p) req.plaintext
          (λ iv. core.block_cipher_iv_of iv _)
          (λ c iv made.
            decrypt_aescbc-encrypt_aescbc x laws req.key_material req.plaintext p ρ made)
          h
    decrypt_by-encrypt_by (aes_ctr p) h =
        undone _ k.block_cipher_iv (encrypt_aesctr x req.key_material req.plaintext p ρ)
          (λ c iv. decrypt_aesctr x req.key_material c iv p) req.plaintext
          (λ iv. core.block_cipher_iv_of iv _)
          (λ c iv made.
            decrypt_aesctr-encrypt_aesctr x laws req.key_material req.plaintext p ρ made)
          h
    decrypt_by-encrypt_by (chacha20_poly1305 p) h =
        undone _ k.aead_nonce
          (encrypt_chacha20_poly1305 x req.key_material req.plaintext req.aad p ρ)
          (λ c nonce. decrypt_chacha20_poly1305 x req.key_material c nonce req.aad p) req.plaintext
          (λ nonce. core.aead_nonce_of nonce _ _)
          (λ c nonce made.
            decrypt_chacha20_poly1305-encrypt_chacha20_poly1305 x laws req.key_material
              req.plaintext req.aad p ρ made)
          h
    decrypt_by-encrypt_by (ecdsa p) h = absurd (cc)
    decrypt_by-encrypt_by (ml_dsa p) h = absurd (cc)
    decrypt_by-encrypt_by (rsa_pss p) h = absurd (cc)
    decrypt_by-encrypt_by (rsa_pkcs1_v15 p) h = absurd (cc)
    decrypt_by-encrypt_by (ed25519 v) h = absurd (cc)
    decrypt_by-encrypt_by (Types.unsupported n) h = absurd (cc)

    -- `Decrypt` of what a successful `Encrypt` of any request returned, with the same key, additional
    -- data and algorithm and with its output handed back, returns the plaintext, if the validator
    -- accepts the request.
    pub decrypt-encrypt_request :
        encrypt k x y req ρ ≡ ok resp
        → validate_request k (decrypt_request (sent_back req resp)) ≡ ok tt
        → decrypt k x y (sent_back req resp)
          ≡ ok (record { plaintext = req.plaintext; output = k.no_output_unencoded })
    unfolding encrypt decrypt
    decrypt-encrypt_request h accepted =
        from_ok (validate_request k (encrypt_request req)) h λ u valid h1.
          then_ok (validate_request k (decrypt_request (sent_back req resp))) _ accepted
            (decrypt_by-encrypt_by req.algorithm h1)
