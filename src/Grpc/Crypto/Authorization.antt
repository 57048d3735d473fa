-- ===== src/Grpc/Crypto/Authorization.antt =====
-- What an RPC does depends on the services behind it only for a key that the caller may use.
use citius_server.Prelude.{◌≡◌, refl, ap, ◌∙◌, Bool, Text}
use citius_server.Errors.{Result, ok, err}
use citius_server.Grpc.Status.{Vocabulary, Rpc, authorized, call}
use citius_server.Grpc.Crypto.Messages.{
  EncryptRequest, DecryptRequest, SignRequest, VerifyRequest, DigestSignRequest,
  DigestVerifyRequest, Response, EncryptOrder, DecryptOrder, SignOrder, VerifyOrder,
  DigestSignOrder, DigestVerifyOrder, Orchestrator, no_encryption_scope, no_signature_scope,
  metadata_of,
}
use citius_server.Grpc.Crypto.Handler.{
  extract_digest_sign_scope_params, extract_digest_verify_scope_params,
  extract_encrypt_scope_params, extract_verify_scope_params, extract_signing_scope_params,
  extract_decrypt_scope_params, CryptoHandler, encrypt, decrypt, sign, verify, digest_sign,
  digest_verify,
}

-- A request of one of the RPCs.
pub data Request : Type 0 where
  encrypting : EncryptRequest → Request
  decrypting : DecryptRequest → Request
  signing : SignRequest → Request
  verifying : VerifyRequest → Request
  digest_signing : DigestSignRequest → Request
  digest_verifying : DigestVerifyRequest → Request

abbrev pub key_name_of : Request → Text
key_name_of (encrypting r) = r.key_name
key_name_of (decrypting r) = r.key_name
key_name_of (signing r) = r.key_name
key_name_of (verifying r) = r.key_name
key_name_of (digest_signing r) = r.key_name
key_name_of (digest_verifying r) = r.key_name

abbrev pub Answer : Request → Type 0
Answer (encrypting r) = Text
Answer (decrypting r) = Text
Answer (signing r) = Text
Answer (verifying r) = Bool
Answer (digest_signing r) = Text
Answer (digest_verifying r) = Bool

-- Two orchestrators that do the same for one key.
pub record AgreeOn {W : Type 0} (name : Text) (a b : Orchestrator W) : Type 0 where
  pub encrypt : (q : EncryptOrder) (w : W) → q.key_name ≡ name → a.encrypt q w ≡ b.encrypt q w
  pub decrypt : (q : DecryptOrder) (w : W) → q.key_name ≡ name → a.decrypt q w ≡ b.decrypt q w
  pub sign : (q : SignOrder) (w : W) → q.key_name ≡ name → a.sign q w ≡ b.sign q w
  pub verify : (q : VerifyOrder) (w : W) → q.key_name ≡ name → a.verify q w ≡ b.verify q w
  pub digest_sign :
      (q : DigestSignOrder) (w : W) → q.key_name ≡ name → a.digest_sign q w ≡ b.digest_sign q w
  pub digest_verify :
      (q : DigestVerifyOrder) (w : W)
      → q.key_name ≡ name
      → a.digest_verify q w ≡ b.digest_verify q w

-- Two results of a factory that differ only in what their orchestrators do for other keys.
abbrev pub Alike :
    {W : Type 0} → Text → Result (Orchestrator W) × W → Result (Orchestrator W) × W → Type 0
Alike name (ok a, w) (ok b, w') = AgreeOn name a b × (w ≡ w')
Alike name (ok a, w) (err e, w') = ⊥
Alike name (err e, w) (ok b, w') = ⊥
Alike name (err e, w) (err e', w') = (e ≡ e') × (w ≡ w')

module _ {W : Type 0} (v : Vocabulary) where
  unfoldable pub serve : CryptoHandler W → (r : Request) → Rpc W (Response (Answer r))
  serve h (encrypting r) = encrypt v h r
  serve h (decrypting r) = decrypt v h r
  serve h (signing r) = sign v h r
  serve h (verifying r) = verify v h r
  serve h (digest_signing r) = digest_sign v h r
  serve h (digest_verifying r) = digest_verify v h r

  -- A call of the factory, followed by what uses the orchestrator for one key.
  call-Alike :
      {A : Type 0} (name : Text) (rpc : Orchestrator W → Rpc W A)
      (m n : Result (Orchestrator W) × W) (w : W)
      → Alike name m n
      → ((a b : Orchestrator W) (w : W) → AgreeOn name a b → rpc a w ≡ rpc b w)
      → call v (λ _. m) rpc w ≡ call v (λ _. n) rpc w
  call-Alike name rpc (ok a, w1) (ok b, w2) w alike same = same a b w1 alike.0 ∙ ap (rpc b) alike.1
  call-Alike name rpc (ok a, w1) (err e, w2) w alike same = absurd alike
  call-Alike name rpc (err e, w1) (ok b, w2) w alike same = absurd alike
  call-Alike name rpc (err e, w1) (err e', w2) w alike same = rw (alike.0, alike.1) refl

  authorized-same :
      {A : Type 0} (may : Result (Unit {0})) (rpc rpc' : Rpc W A) (w : W)
      → (may ≡ ok tt → rpc w ≡ rpc' w)
      → authorized v may rpc w ≡ authorized v may rpc' w
  authorized-same (ok u) rpc rpc' w same = same refl
  authorized-same (err e) rpc rpc' w same = refl

  module _ (authorize : Text → Result (Unit {0}))
      (crypto crypto' : W → Result (Orchestrator W) × W) where
    -- The handler with the one factory, and with the other.
    abbrev pub with_factory : (W → Result (Orchestrator W) × W) → CryptoHandler W
    with_factory factory = record { crypto = factory; authorize_key = authorize }

    -- Each of the six RPCs uses the services behind the handler only for the key that the request
    -- names, and only if the caller is authorized for it: two factories whose results, if the caller
    -- is authorized, differ in nothing but what their orchestrators do for other keys give the same
    -- response and leave the same world. In particular a request that is not authorized does not reach
    -- any factory.
    pub serve_confined :
        (r : Request) (w : W)
        → (authorize (key_name_of r) ≡ ok tt → Alike (key_name_of r) (crypto w) (crypto' w))
        → serve (with_factory crypto) r w ≡ serve (with_factory crypto') r w
    unfolding serve encrypt decrypt sign verify digest_sign digest_verify
        extract_digest_sign_scope_params extract_digest_verify_scope_params
        extract_encrypt_scope_params extract_verify_scope_params extract_signing_scope_params
        extract_decrypt_scope_params
    serve_confined (encrypting r) w alike =
        let order : EncryptOrder = extract_encrypt_scope_params r.scope_params (record {
          key_name = r.key_name;
          plaintext = r.plaintext;
          scope = no_encryption_scope;
        }) in
        authorized-same (authorize r.key_name) _ _ w λ may.
          call-Alike r.key_name _ (crypto w) (crypto' w) w (alike may)
            λ a b w1 agree. rw (agree.encrypt order w1 refl) refl
    serve_confined (decrypting r) w alike =
        let order : DecryptOrder = extract_decrypt_scope_params r.scope_params (record {
          key_name = r.key_name;
          key_version = (metadata_of r.metadata).key_version;
          ciphertext = r.ciphertext;
          output = (metadata_of r.metadata).provider_output;
          scope = no_encryption_scope;
        }) in
        authorized-same (authorize r.key_name) _ _ w λ may.
          call-Alike r.key_name _ (crypto w) (crypto' w) w (alike may)
            λ a b w1 agree. rw (agree.decrypt order w1 refl) refl
    serve_confined (signing r) w alike =
        let order : SignOrder =
          extract_signing_scope_params r.scope_params
            (record { key_name = r.key_name; payload = r.input; scope = no_signature_scope }) in
        authorized-same (authorize r.key_name) _ _ w λ may.
          call-Alike r.key_name _ (crypto w) (crypto' w) w (alike may)
            λ a b w1 agree. rw (agree.sign order w1 refl) refl
    serve_confined (verifying r) w alike =
        let order : VerifyOrder = extract_verify_scope_params r.scope_params (record {
          key_name = r.key_name;
          payload = r.input;
          signature = r.signature;
          key_version = (metadata_of r.metadata).key_version;
          output = (metadata_of r.metadata).provider_output;
          scope = no_signature_scope;
        }) in
        authorized-same (authorize r.key_name) _ _ w λ may.
          call-Alike r.key_name _ (crypto w) (crypto' w) w (alike may)
            λ a b w1 agree. rw (agree.verify order w1 refl) refl
    serve_confined (digest_signing r) w alike =
        let order : DigestSignOrder = extract_digest_sign_scope_params r.scope_params (record {
          key_name = r.key_name;
          digest = r.digest;
          hash_algorithm = r.hash_algorithm;
          scope = no_signature_scope;
        }) in
        authorized-same (authorize r.key_name) _ _ w λ may.
          call-Alike r.key_name _ (crypto w) (crypto' w) w (alike may)
            λ a b w1 agree. rw (agree.digest_sign order w1 refl) refl
    serve_confined (digest_verifying r) w alike =
        let order : DigestVerifyOrder = extract_digest_verify_scope_params r.scope_params (record {
          key_name = r.key_name;
          key_version = (metadata_of r.metadata).key_version;
          digest = r.digest;
          signature = r.signature;
          digest_hash = (metadata_of r.metadata).digest_hash;
          output = (metadata_of r.metadata).provider_output;
          scope = no_signature_scope;
        }) in
        authorized-same (authorize r.key_name) _ _ w λ may.
          call-Alike r.key_name _ (crypto w) (crypto' w) w (alike may)
            λ a b w1 agree. rw (agree.digest_verify order w1 refl) refl
