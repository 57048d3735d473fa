-- ===== src/Software/Tests.antt =====
-- Runs of the software provider over concrete libraries.
use citius_server.Prelude.{◌≡◌, refl, ◌↔◌, inl, true, false, [], ◌∷◌, ◌++◌, arith}
use citius_server.Errors.{new, wrap, invalid_argument}
use citius_server.Software.Outcome.{ok, err}
use citius_server.Software.Types.{
  Bytes, Algorithm, EllipticCurve, HashAlgorithm, ieee_p1363, PaddingScheme, ecdsa, aes_cbc, sec1,
  spki, EncryptRequest, EncryptResponse, SignResponse, VerifyRequest, GenerateKeyResponse,
  encrypt_request,
}
use citius_server.Software.Ecdsa.{verify_ecdsa, sign_ecdsa, sign_ecdsa_digest, generate_ecdsa_key}
use citius_server.Software.AesCbc.{encrypt_aescbc}
use citius_server.Software.Padding.{pkcs7_pad, pkcs7_unpad, pkcs7_unpad-pad_iff}
use citius_server.Software.Encoding.{validate_request}
use citius_server.Software.Provider.{
  generate_key, sign, verify, sign_digest, verify_digest, encrypt, decrypt,
}
use citius_server.Software.Decryption.{sent_back, decrypt-encrypt_request}
use citius_server.Software.GeneratedKeys.{verifying, verifying_digest}
use citius_server.Software.Verification.{verify-sign-generate_key, verify_digest-sign_digest}
use citius_server.Software.Calm.{Returns, operations_return}
use citius_server.Software.Judging.{checked, resigned, checked-resigned}
use citius_server.Software.Sample.{fill, core, core-IsCore, ciphers, ciphers-IsCiphers}
use citius_server.Software.SampleKeys.{signers, signers-IsSigners, signers-IsCalm, signers-IsJudge}

padded_block : pkcs7_pad (1 ∷ 2 ∷ []) 4 ≡ 1 ∷ 2 ∷ 2 ∷ 2 ∷ []
unfolding pkcs7_pad
padded_block = refl

bad_padding : pkcs7_unpad (1 ∷ 2 ∷ 3 ∷ 2 ∷ []) 4 ≡ err (new invalid_argument)
unfolding pkcs7_unpad
bad_padding = refl

pkcs7_unpad-pad_iff_example :
    (pkcs7_unpad (1 ∷ 2 ∷ 2 ∷ 2 ∷ []) 4 ≡ ok (1 ∷ 2 ∷ []))
    ↔ (1 ∷ 2 ∷ 2 ∷ 2 ∷ [] ≡ pkcs7_pad (1 ∷ 2 ∷ []) 4)
pkcs7_unpad-pad_iff_example =
    pkcs7_unpad-pad_iff (1 ∷ 2 ∷ 2 ∷ 2 ∷ []) (1 ∷ 2 ∷ []) 4 (omega arith) (omega arith)

-- AES-128-CBC of two bytes.
abbrev cbc_request : EncryptRequest
cbc_request = record {
  key_material = fill 16 9;
  plaintext = 5 ∷ 6 ∷ [];
  aad = [];
  algorithm =
      aes_cbc (record { key_size_bits = 128; iv_size_bits = 128; padding = PaddingScheme.pkcs7 });
}

abbrev cbc_response : EncryptResponse Bytes
cbc_response = record { ciphertext = 5 ∷ 6 ∷ fill 14 14; output = fill 16 3 }

decrypt-encrypt_request_example :
    decrypt core ciphers signers (sent_back core cbc_request cbc_response)
    ≡ ok (record { plaintext = 5 ∷ 6 ∷ []; output = [] })
unfolding encrypt validate_request encrypt_aescbc
decrypt-encrypt_request_example =
    decrypt-encrypt_request core core-IsCore ciphers signers ciphers-IsCiphers cbc_request 3
      {resp = cbc_response} refl refl

-- An ECDSA key on P-256 whose signatures have the format of IEEE P1363.
abbrev p1363_p256 : Algorithm
p1363_p256 = ecdsa (record {
  curve = EllipticCurve.p256;
  hash = HashAlgorithm.unspecified;
  signature_format = ieee_p1363;
})

abbrev generated : GenerateKeyResponse Bytes
generated = record {
  public_key_bytes = 0 ∷ 1 ∷ 77 ∷ [];
  key_material = 1 ∷ 77 ∷ [];
  output = [];
  key_material_encoding = sec1;
  public_key_encoding = spki;
}

abbrev p1363_signature : SignResponse Bytes
p1363_signature = record { signature = fill 31 0 ++ 77 ∷ fill 31 0 ++ 4 ∷ []; output = [] }

verify-sign-generate_key_example :
    verify core ciphers signers
      (verifying core p1363_p256 generated (7 ∷ 8 ∷ 9 ∷ []) [] p1363_signature)
    ≡ ok (record { valid = true; output = [] })
unfolding generate_key sign validate_request generate_ecdsa_key sign_ecdsa
verify-sign-generate_key_example =
    verify-sign-generate_key core ciphers signers signers-IsSigners 77 5 (7 ∷ 8 ∷ 9 ∷ [])
      p1363_signature [] p1363_p256 {g = generated} refl refl refl

abbrev digest_signature : SignResponse Bytes
digest_signature = record { signature = fill 31 0 ++ 77 ∷ fill 31 0 ++ 32 ∷ []; output = [] }

verify_digest-sign_digest_example :
    verify_digest core ciphers signers
      (verifying_digest core p1363_p256 generated (fill 32 1) HashAlgorithm.sha256 digest_signature)
    ≡ ok (record { valid = true; output = [] })
unfolding generate_key sign_digest validate_request generate_ecdsa_key sign_ecdsa_digest
verify_digest-sign_digest_example =
    verify_digest-sign_digest core ciphers signers signers-IsSigners 77 5 (fill 32 1)
      digest_signature HashAlgorithm.sha256 p1363_p256 {g = generated} refl refl refl

operations_return_example :
    Returns core core-IsCore ciphers ciphers-IsCiphers signers signers-IsSigners signers-IsCalm
      (encrypt_request cbc_request)
      3
operations_return_example =
    operations_return core core-IsCore ciphers ciphers-IsCiphers signers signers-IsSigners
      signers-IsCalm (encrypt_request cbc_request) 3 (omega arith)

-- A request whose key has another curve than the algorithm declares.
abbrev wrong_curve : VerifyRequest
wrong_curve = record {
  key_material = 0 ∷ 2 ∷ 77 ∷ [];
  input = 7 ∷ [];
  signature = 1 ∷ [];
  algorithm = p1363_p256;
  key_material_encoding = spki;
  context = [];
}

checked-resigned_example :
    checked core ciphers signers signers-IsJudge
      (resigned core ciphers signers signers-IsJudge (inl wrong_curve) (2 ∷ []))
    ≡ err (wrap (new invalid_argument))
unfolding verify validate_request verify_ecdsa
checked-resigned_example =
    checked-resigned core ciphers signers signers-IsJudge (inl wrong_curve) (2 ∷ [])
      (wrap (new invalid_argument)) refl refl refl

-- A P1363 signature of the wrong length is invalid, and no error.
malformed_invalid :
    verify core ciphers signers
      (record wrong_curve { key_material = 0 ∷ 1 ∷ 77 ∷ []; signature = 1 ∷ 2 ∷ [] })
    ≡ ok (record { valid = false; output = [] })
unfolding verify verify_ecdsa
malformed_invalid = refl
