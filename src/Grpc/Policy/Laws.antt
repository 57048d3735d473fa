-- ===== src/Grpc/Policy/Laws.antt =====
-- Which requests on policies are refused, and what is read after a policy was created.
use citius_server.Prelude.{
  ℕ, ◌≡◌, refl, ap, subst, ◌≢◌, ◌⊎◌, inl, inr, false, [], arith, Bool-cases, ◌==◌, Text,
  text_eq_iff, text_Eq,
}
use citius_server.Errors.{Error, ok, err, new, invalid_argument, Result-cases}
use citius_server.Grpc.Status.{
  Vocabulary, Status, replied, failed, Rpc, authorized, call, to_status_error,
}
use citius_server.Grpc.Policy.{
  Policy, Engine, CryptoPolicyHandler, WriteRequest, WriteResponse, ReadResponse,
  policy_format_json, new_policy, check_format, written, read, named, create_crypto_policy,
  read_crypto_policy, update_crypto_policy,
}

-- An engine that returns a created policy, with the document that it was given, for its name.
pub record IsKeeping {W : Type 0} (engine : Engine W) : Type 0 where
  pub kept :
      (p : Policy) (w : W) {c : Policy} {w' : W}
      → engine.create_policy p w ≡ (ok c, w')
      → (engine.get_policy p.name w').0 ≡ ok c
  pub same_document :
      (p : Policy) (w : W) {c : Policy} {w' : W}
      → engine.create_policy p w ≡ (ok c, w')
      → c.rules_json ≡ p.rules_json

module _ {W : Type 0} (v : Vocabulary) (h : CryptoPolicyHandler W) where
  -- A request without a name, of a caller that may not use the policy, or with a document format
  -- that is neither empty nor JSON.
  abbrev pub IsRefused : WriteRequest → Type 0
  IsRefused req =
      (req.name ≡ [])
      ⊎ ((e : Error) × (h.authorize_policy req.name ≡ err e))
      ⊎ ((req.format ≢ []) × (req.format ≢ policy_format_json))

  wrong_format :
      (format : Text)
      → (format ≢ []) × (format ≢ policy_format_json)
      → check_format format ≡ err (new invalid_argument)
  unfolding check_format
  wrong_format format (given, other) =
      ground (arith, text_eq_iff format [], text_eq_iff format policy_format_json)

  last_reason :
      (req : WriteRequest) (u : Unit {0})
      → IsRefused req
      → (req.name == []) ≡ false
      → h.authorize_policy req.name ≡ ok u
      → (req.format ≢ []) × (req.format ≢ policy_format_json)
  last_reason req u (inl empty) given may = absurd (ground (arith, text_eq_iff req.name []))
  last_reason req u (inr (inl (e, denied))) given may = absurd (ground arith)
  last_reason req u (inr (inr bad)) given may = bad

  refused :
      {A : Type 0} (req : WriteRequest) (rpc : Rpc W A) (w : W)
      → IsRefused req
      → (s : Status) × (named v h req.name
            (authorized v
              (h.authorize_policy req.name)
              (authorized v (check_format req.format) rpc))
            w
          ≡ (failed s, w))
  refused req rpc w why = elim (Bool-cases (req.name == [])) [
    | inl empty ↦ (to_status_error v (new invalid_argument), rw empty refl)
    | inr given ↦ elim (Result-cases (h.authorize_policy req.name)) [
      | inr (e, denied) ↦ (to_status_error v e, rw (given, denied) refl)
      | inl (u, may) ↦
          let bad : check_format req.format ≡ err (new invalid_argument) =
            wrong_format req.format (last_reason req u why given may) in
          (to_status_error v (new invalid_argument), rw (given, may, bad) refl)
    ]
  ]

  -- `CreateCryptoPolicy` and `UpdateCryptoPolicy` without a name, by a caller that may not use the
  -- policy, or with a format that is neither empty nor JSON fail and leave the world of the engine
  -- as it was.
  pub write-refused :
      (req : WriteRequest) (expected_version : ℕ) (w : W)
      → IsRefused req
      → ((s : Status) × (create_crypto_policy v h req w ≡ (failed s, w)))
        × ((s : Status) × (update_crypto_policy v h req expected_version w ≡ (failed s, w)))
  unfolding create_crypto_policy update_crypto_policy
  write-refused req expected_version w why = (refused req _ w why, refused req _ w why)

  module _ (engine : Engine W) (steady : (w : W) → h.policy w ≡ (ok engine, w))
      (keeping : IsKeeping engine) where
    created :
        (req : WriteRequest) (w : W) {resp : WriteResponse} {w' : W}
        → (req.name == []) ≡ false
        → {u : Unit {0}} → h.authorize_policy req.name ≡ ok u
        → call v (engine.create_policy (new_policy req)) written w ≡ (replied resp, w')
        → (back : ReadResponse) × ((read_crypto_policy v h req.name w').0 ≡ replied back)
          × (back.policy_document ≡ req.policy_document)
          × (back.format ≡ policy_format_json)
          × (back.version ≡ resp.version)
    unfolding read_crypto_policy written read
    created req w {resp} {w'} given {u} may done =
        elim (Result-cases (engine.create_policy (new_policy req) w).0) [
          | inr (e, bad) ↦ absurd (ground (arith, rw bad at done))
          | inl (c, good) ↦
              let after = (engine.create_policy (new_policy req) w).1 in
              let answer = rw good at done in
              let there : after ≡ w' = ground (arith, answer) in
              let stored = ap (λ r. (r, after)) good in
              let got : (engine.get_policy req.name w').0 ≡ ok c =
                subst (λ q. (engine.get_policy req.name q).0 ≡ ok c) there
                  (keeping.kept (new_policy req) w stored) in
              (
                record {
                  name = c.name;
                  policy_document = c.rules_json;
                  format = policy_format_json;
                  version = c.version;
                  created_at = c.create_time;
                  updated_at = c.update_time;
                },
                rw (given, may, steady w', got) refl,
                keeping.same_document (new_policy req) w stored,
                refl,
                ground (arith, answer),
              )
        ]

    -- With a factory that always makes one engine, which returns a created policy with its
    -- document for its name: after a successful `CreateCryptoPolicy`, `ReadCryptoPolicy` of the
    -- name returns the document that was sent, as JSON, and the version of the response.
    pub read-create :
        (req : WriteRequest) (w : W) {resp : WriteResponse} {w' : W}
        → create_crypto_policy v h req w ≡ (replied resp, w')
        → (back : ReadResponse) × ((read_crypto_policy v h req.name w').0 ≡ replied back)
          × (back.policy_document ≡ req.policy_document)
          × (back.format ≡ policy_format_json)
          × (back.version ≡ resp.version)
    unfolding create_crypto_policy read_crypto_policy
    read-create req w {resp} {w'} done = elim (Bool-cases (req.name == [])) [
      | inl empty ↦ absurd (ground (arith, rw empty at done))
      | inr given ↦ elim (Result-cases (h.authorize_policy req.name)) [
        | inr (e, denied) ↦ absurd (ground (arith, rw (given, denied) at done))
        | inl (u, may) ↦ elim (Result-cases (check_format req.format)) [
          | inr (e, bad) ↦ absurd (ground (arith, rw (given, may, bad) at done))
          | inl (f, fine) ↦ created req w given may (rw (given, may, fine, steady w) at done)
        ]
      ]
    ]
