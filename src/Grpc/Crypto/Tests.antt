-- ===== src/Grpc/Crypto/Tests.antt =====
-- The data-plane RPCs with a concrete orchestrator, whose world counts its calls.
use citius_server.Prelude.{
  ℕ, suc, ◌≡◌, refl, sym, ap, ◌∙◌, Bool, true, ◌&&◌, some, [], ◌++◌, arith, eqb, if◌then◌else◌,
  length, drop, ◌==◌, Text, codes, text_eq_refl, text_Eq,
}
use citius_server.Prelude.{drop-append}
use citius_server.Errors.{ok, err, new, policy_violation, internal}
use citius_server.Grpc.Status.{Vocabulary, replied}
use citius_server.Grpc.Crypto.Messages.{
  EncryptRequest, SignRequest, DigestSignRequest, Response, Orchestrator, Outcome, EncryptionParams,
  SignatureParams,
}
use citius_server.Grpc.Crypto.Handler.{
  CryptoHandler, encrypt, sign, digest_sign, extract_encrypt_scope_params,
  extract_signing_scope_params, extract_digest_sign_scope_params,
}
use citius_server.Grpc.Crypto.Authorization.{AgreeOn, encrypting, serve, serve_confined}
use citius_server.Grpc.Crypto.RoundTrip.{
  IsInverting, Decrypted, Verified, DigestVerified, decrypt-encrypt, verify-sign,
  digest_verify-digest_sign,
}

abbrev vocabulary : Vocabulary
vocabulary = record { is_domain = λ e. true; grpc_code = λ e. 7; message = λ e. codes "no" }

abbrev outcome : {A : Type 0} → A → Outcome A
outcome a = record { value = a; key_version = 2; output = some (codes "iv"); digest_hash = 256 }

-- A cipher and signatures that put the key's name in front.
abbrev plain : Orchestrator ℕ
plain = record {
  encrypt = λ q w. (ok (outcome (q.key_name ++ q.plaintext)), suc w);
  decrypt = λ q w. (ok (outcome (drop (length q.key_name) q.ciphertext)), suc w);
  sign = λ q w. (ok (outcome (q.key_name ++ q.payload)), suc w);
  verify = λ q w. (ok (outcome (q.signature == q.key_name ++ q.payload)), suc w);
  digest_sign = λ q w. (ok (outcome (q.key_name ++ q.digest)), suc w);
  digest_verify = λ q w.
      (ok (outcome ((q.signature == q.key_name ++ q.digest) && eqb q.digest_hash 256)), suc w);
}

plain-IsInverting : IsInverting plain
plain-IsInverting = record {
  decrypts = λ q w {o} {w'} h.
      let made : outcome (q.key_name ++ q.plaintext) ≡ o = ground arith in
      (
        outcome (drop (length q.key_name) o.value),
        refl,
        ap (λ v. drop (length q.key_name) v) (sym (ap (λ r. r.value) made))
            ∙ drop-append q.key_name q.plaintext,
      );
  verifies = λ q w {o} {w'} h.
      let made : outcome (q.key_name ++ q.payload) ≡ o = ground arith in
      (
        outcome (o.value == q.key_name ++ q.payload),
        refl,
        rw (← made) (text_eq_refl (q.key_name ++ q.payload)),
      );
  verifies_digest = λ q w {o} {w'} h.
      let made : outcome (q.key_name ++ q.digest) ≡ o = ground arith in
      (
        outcome ((o.value == q.key_name ++ q.digest) && eqb o.digest_hash 256),
        refl,
        rw (← made, text_eq_refl (q.key_name ++ q.digest)) refl,
      );
}

abbrev handler : CryptoHandler ℕ
handler = record {
  crypto = λ w. (ok plain, w);
  authorize_key = λ name. if name == codes "root" then err (new policy_violation) else ok tt;
}

abbrev encrypt_request : Text → EncryptRequest
encrypt_request name = record {
  key_name = name;
  plaintext = codes "hello";
  scope_params = EncryptionParams.aead_params (codes "aad");
  user_context = [];
}

abbrev sign_request : SignRequest
sign_request = record {
  key_name = codes "k";
  input = codes "hello";
  scope_params = SignatureParams.domain_context (codes "d");
  user_context = [];
}

abbrev digest_sign_request : DigestSignRequest
digest_sign_request = record {
  key_name = codes "k";
  digest = codes "hello";
  hash_algorithm = 1;
  scope_params = SignatureParams.unset;
  user_context = [];
}

abbrev answer : Text → ℕ → Response Text
answer value hash = record {
  value = value;
  metadata = record {
    key_version = 2;
    provider_output = some (codes "iv");
    digest_hash = hash;
    user_context = [];
  };
}

-- An orchestrator that fails to encrypt under other keys.
abbrev tampered : Orchestrator ℕ
tampered = record plain {
  encrypt = λ q w. if q.key_name == codes "k" then plain.encrypt q w else (err (new internal), w);
}

plain-tampered-AgreeOn : AgreeOn (codes "k") plain tampered
plain-tampered-AgreeOn = record {
  encrypt = λ q w e. rw e refl;
  decrypt = λ q w e. refl;
  sign = λ q w e. refl;
  verify = λ q w e. refl;
  digest_sign = λ q w e. refl;
  digest_verify = λ q w e. refl;
}

serve_confined_example :
    serve vocabulary handler (encrypting (encrypt_request (codes "k"))) 5
    ≡ serve vocabulary
        (record handler { crypto = λ w. (ok tampered, w) })
        (encrypting (encrypt_request (codes "k")))
        5
serve_confined_example =
    serve_confined vocabulary handler.authorize_key (λ w. (ok plain, w)) (λ w. (ok tampered, w))
      (encrypting (encrypt_request (codes "k"))) 5 (λ may. (plain-tampered-AgreeOn, refl))

encrypted :
    encrypt vocabulary handler (encrypt_request (codes "k")) 5
    ≡ (replied (answer (codes "khello") 0), 6)
unfolding encrypt extract_encrypt_scope_params
encrypted = refl

decrypt-encrypt_example :
    (back : Response Text) × Decrypted vocabulary handler plain
      (λ w. refl)
      plain-IsInverting
      (encrypt_request (codes "k"))
      (answer (codes "khello") 0)
      6
      back
    × (back.value ≡ codes "hello")
decrypt-encrypt_example =
    decrypt-encrypt vocabulary handler plain (λ w. refl) plain-IsInverting
      (encrypt_request (codes "k")) 5 encrypted

signed : sign vocabulary handler sign_request 5 ≡ (replied (answer (codes "khello") 0), 6)
unfolding sign extract_signing_scope_params
signed = refl

verify-sign_example :
    (back : Response Bool) × Verified vocabulary handler plain
      (λ w. refl)
      plain-IsInverting
      sign_request
      (answer (codes "khello") 0)
      6
      back
    × (back.value ≡ true)
verify-sign_example =
    verify-sign vocabulary handler plain (λ w. refl) plain-IsInverting sign_request 5 signed

digest_signed :
    digest_sign vocabulary handler digest_sign_request 5
    ≡ (replied (answer (codes "khello") 256), 6)
unfolding digest_sign extract_digest_sign_scope_params
digest_signed = refl

digest_verify-digest_sign_example :
    (back : Response Bool) × DigestVerified vocabulary handler plain
      (λ w. refl)
      plain-IsInverting
      digest_sign_request
      (answer (codes "khello") 256)
      6
      back
    × (back.value ≡ true)
digest_verify-digest_sign_example =
    digest_verify-digest_sign vocabulary handler plain (λ w. refl) plain-IsInverting
      digest_sign_request 5 digest_signed
