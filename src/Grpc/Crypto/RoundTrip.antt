-- ===== src/Grpc/Crypto/RoundTrip.antt =====
-- What a caller gets that hands back what it was given.
use citius_server.Prelude.{◌≡◌, refl, ap, subst, inl, inr, Bool, true, some, arith, Text}
use citius_server.Errors.{Result, ok, err, Result-cases}
use citius_server.Grpc.Status.{Vocabulary, replied, Rpc, authorized, call}
use citius_server.Grpc.Crypto.Messages.{
  EncryptRequest, SignRequest, DigestSignRequest, Response, Orchestrator, Outcome, EncryptOrder,
  SignOrder, DigestSignOrder,
}
use citius_server.Grpc.Crypto.Handler.{
  CryptoHandler, encrypt, decrypt, sign, verify, digest_sign, digest_verify,
  extract_encrypt_scope_params, extract_decrypt_scope_params, extract_signing_scope_params,
  extract_verify_scope_params, extract_digest_sign_scope_params, extract_digest_verify_scope_params,
}

-- An orchestrator that inverts its own operations, when it is given the key version and the output
-- that it returned, under the scope that it was given.
pub record IsInverting {W : Type 0} (ops : Orchestrator W) : Type 0 where
  pub decrypts :
      (q : EncryptOrder) (w : W) {o : Outcome Text} {w' : W}
      → ops.encrypt q w ≡ (ok o, w')
      → (p : Outcome Text) × ((ops.decrypt
            (record {
              key_name = q.key_name;
              key_version = o.key_version;
              ciphertext = o.value;
              output = o.output;
              scope = q.scope;
            })
            w').0
          ≡ ok p)
        × (p.value ≡ q.plaintext)
  pub verifies :
      (q : SignOrder) (w : W) {o : Outcome Text} {w' : W}
      → ops.sign q w ≡ (ok o, w')
      → (p : Outcome Bool) × ((ops.verify
            (record {
              key_name = q.key_name;
              payload = q.payload;
              signature = o.value;
              key_version = o.key_version;
              output = o.output;
              scope = q.scope;
            })
            w').0
          ≡ ok p)
        × (p.value ≡ true)
  pub verifies_digest :
      (q : DigestSignOrder) (w : W) {o : Outcome Text} {w' : W}
      → ops.digest_sign q w ≡ (ok o, w')
      → (p : Outcome Bool) × ((ops.digest_verify
            (record {
              key_name = q.key_name;
              key_version = o.key_version;
              digest = q.digest;
              signature = o.value;
              digest_hash = o.digest_hash;
              output = o.output;
              scope = q.scope;
            })
            w').0
          ≡ ok p)
        × (p.value ≡ true)

module _ {W : Type 0} (v : Vocabulary) (h : CryptoHandler W) (ops : Orchestrator W)
    (steady : (w : W) → h.crypto w ≡ (ok ops, w)) (inverting : IsInverting ops) where
  call_replied :
      {A B : Type 0} (m : W → Result B × W) (k : B → Rpc W A) (w : W) {a : A} {w' : W}
      → call v m k w ≡ (replied a, w')
      → (o : B) × (q : W) × (m w ≡ (ok o, q)) × (k o q ≡ (replied a, w'))
  call_replied m k w done = elim (Result-cases (m w).0) [
    | inl (o, good) ↦ (o, (m w).1, ap (λ r. (r, (m w).1)) good, rw good at done)
    | inr (e, bad) ↦ absurd (ground (arith, rw bad at done))
  ]

  -- An RPC that replied was authorized, and the orchestrator's call succeeded.
  ran :
      {A B : Type 0} (allow : Result (Unit {0})) (m : Orchestrator W → W → Result B × W)
      (k : B → Rpc W A) (w : W) {a : A} {w' : W}
      → authorized v allow (call v h.crypto λ o. call v (m o) k) w ≡ (replied a, w')
      → (allow ≡ ok tt) × ((o : B) × (q : W) × (m ops w ≡ (ok o, q)) × (k o q ≡ (replied a, w')))
  ran (err e) m k w done = absurd (ground arith)
  ran (ok u) m k w done = (refl, call_replied (m ops) k w (rw (steady w) at done))

  runs :
      {A B : Type 0} (allow : Result (Unit {0})) (m : Orchestrator W → W → Result B × W)
      (k : B → Rpc W A) (w : W) {o : B}
      → allow ≡ ok tt
      → (m ops w).0 ≡ ok o
      → authorized v allow (call v h.crypto λ o. call v (m o) k) w ≡ k o (m ops w).1
  runs allow m k w allowed done = rw (allowed, steady w, done) refl

  -- What `decrypt` returns for the response `resp` to `req`.
  abbrev pub Decrypted : EncryptRequest → Response Text → W → Response Text → Type 0
  Decrypted req resp w back =
      (decrypt v h
        (record {
          key_name = req.key_name;
          ciphertext = resp.value;
          metadata = some resp.metadata;
          scope_params = req.scope_params;
          user_context = req.user_context;
        })
        w).0
      ≡ replied back

  -- With a factory that always makes one orchestrator, which inverts its operations when it is
  -- given back the key version, the output and the scope: after a successful `Encrypt`, a
  -- `Decrypt` of the ciphertext under the same key and scope parameters, with the metadata of the
  -- response handed back unchanged, returns the plaintext.
  pub decrypt-encrypt :
      (req : EncryptRequest) (w : W) {resp : Response Text} {w' : W}
      → encrypt v h req w ≡ (replied resp, w')
      → (back : Response Text) × Decrypted req resp w' back × (back.value ≡ req.plaintext)
  unfolding encrypt decrypt extract_encrypt_scope_params extract_decrypt_scope_params
  decrypt-encrypt req w {resp} {w'} done =
      let (allowed, rest) = ran (h.authorize_key req.key_name) (λ ops. ops.encrypt _) _ w done in
      let (o, q, worked, answer) = rest in
      let (p, inverted, same) = inverting.decrypts _ w worked in
      let first : Response Text = record {
        value = o.value;
        metadata = record {
          key_version = o.key_version;
          provider_output = o.output;
          digest_hash = 0;
          user_context = req.user_context;
        };
      } in
      let there : q ≡ w' = ground (arith, answer) in
      let given : first ≡ resp = ground (arith, answer) in
      let back : Response Text = record {
        value = p.value;
        metadata = record {
          key_version = p.key_version;
          provider_output = p.output;
          digest_hash = 0;
          user_context = req.user_context;
        };
      } in
      let returned : Decrypted req first q back =
        ap (λ z. z.0)
          (runs (h.authorize_key req.key_name) (λ ops. ops.decrypt _) _ q allowed inverted) in
      (
        back,
        subst (λ r. Decrypted req r w' back) given
            (subst (λ z. Decrypted req first z back) there returned),
        same,
      )

  -- What `verify` returns for the response `resp` to `req`.
  abbrev pub Verified : SignRequest → Response Text → W → Response Bool → Type 0
  Verified req resp w back =
      (verify v h
        (record {
          key_name = req.key_name;
          input = req.input;
          signature = resp.value;
          metadata = some resp.metadata;
          scope_params = req.scope_params;
          user_context = req.user_context;
        })
        w).0
      ≡ replied back

  -- With a factory that always makes one orchestrator, which inverts its operations when it is
  -- given back the key version, the output and the scope: after a successful `Sign`, a `Verify` of
  -- the same input with the signature, under the same key and scope parameters and with the
  -- metadata of the response handed back, finds it valid.
  pub verify-sign :
      (req : SignRequest) (w : W) {resp : Response Text} {w' : W}
      → sign v h req w ≡ (replied resp, w')
      → (back : Response Bool) × Verified req resp w' back × (back.value ≡ true)
  unfolding sign verify extract_signing_scope_params extract_verify_scope_params
  verify-sign req w {resp} {w'} done =
      let (allowed, rest) = ran (h.authorize_key req.key_name) (λ ops. ops.sign _) _ w done in
      let (o, q, worked, answer) = rest in
      let (p, inverted, same) = inverting.verifies _ w worked in
      let first : Response Text = record {
        value = o.value;
        metadata = record {
          key_version = o.key_version;
          provider_output = o.output;
          digest_hash = 0;
          user_context = req.user_context;
        };
      } in
      let there : q ≡ w' = ground (arith, answer) in
      let given : first ≡ resp = ground (arith, answer) in
      let back : Response Bool = record {
        value = p.value;
        metadata = record {
          key_version = p.key_version;
          provider_output = p.output;
          digest_hash = 0;
          user_context = req.user_context;
        };
      } in
      let returned : Verified req first q back =
        ap (λ z. z.0)
          (runs (h.authorize_key req.key_name) (λ ops. ops.verify _) _ q allowed inverted) in
      (
        back,
        subst (λ r. Verified req r w' back) given
            (subst (λ z. Verified req first z back) there returned),
        same,
      )

  -- What `digest_verify` returns for the response `resp` to `req`.
  abbrev pub DigestVerified : DigestSignRequest → Response Text → W → Response Bool → Type 0
  DigestVerified req resp w back =
      (digest_verify v h
        (record {
          key_name = req.key_name;
          digest = req.digest;
          signature = resp.value;
          metadata = some resp.metadata;
          scope_params = req.scope_params;
          user_context = req.user_context;
        })
        w).0
      ≡ replied back

  -- With a factory that always makes one orchestrator, which inverts its operations when it is
  -- given back the key version, the output and the scope: after a successful `DigestSign`, a
  -- `DigestVerify` of the same digest with the signature, under the same key and scope parameters
  -- and with the metadata of the response handed back, its digest hash included, finds it valid.
  pub digest_verify-digest_sign :
      (req : DigestSignRequest) (w : W) {resp : Response Text} {w' : W}
      → digest_sign v h req w ≡ (replied resp, w')
      → (back : Response Bool) × DigestVerified req resp w' back × (back.value ≡ true)
  unfolding digest_sign digest_verify extract_digest_sign_scope_params
      extract_digest_verify_scope_params
  digest_verify-digest_sign req w {resp} {w'} done =
      let (allowed, rest) =
        ran (h.authorize_key req.key_name) (λ ops. ops.digest_sign _) _ w done in
      let (o, q, worked, answer) = rest in
      let (p, inverted, same) = inverting.verifies_digest _ w worked in
      let first : Response Text = record {
        value = o.value;
        metadata = record {
          key_version = o.key_version;
          provider_output = o.output;
          digest_hash = o.digest_hash;
          user_context = req.user_context;
        };
      } in
      let there : q ≡ w' = ground (arith, answer) in
      let given : first ≡ resp = ground (arith, answer) in
      let back : Response Bool = record {
        value = p.value;
        metadata = record {
          key_version = p.key_version;
          provider_output = p.output;
          digest_hash = p.digest_hash;
          user_context = req.user_context;
        };
      } in
      let returned : DigestVerified req first q back =
        ap (λ z. z.0)
          (runs (h.authorize_key req.key_name) (λ ops. ops.digest_verify _) _ q allowed inverted) in
      (
        back,
        subst (λ r. DigestVerified req r w' back) given
            (subst (λ z. DigestVerified req first z back) there returned),
        same,
      )
