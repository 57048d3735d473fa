-- ===== src/Grpc/Policy.antt =====
-- internal/grpc/policy/crypto_policy_handler.go: the RPCs on crypto policies.
pub mod Laws
pub mod Tests
use citius_server.Prelude.{
  ℕ, zero, suc, ◌+◌, ◌-◌, ◌*◌, ◌/◌, ◌%◌, ◌^◌, ◌≤◌, ◌<◌, min, max, ◌≡◌, refl, sym, ap, ◌∙◌, subst,
  ◌≢◌, ◌↔◌, ◌⊎◌, inl, inr, Bool, true, false, not, ◌&&◌, ◌||◌, Option, none, some, List, [], ◌∷◌,
  ◌++◌, map, append_assoc, append-nil, arith, ltb, leb, eqb, if◌then◌else◌, eqb_iff, Bool-cases,
  Option-cases, length, take, drop, slice, Eq, ◌==◌, beq_refl, Text, codes, text_eq, text_eq_iff,
  All, text_Eq,
}
use citius_server.Errors.{Error, Result, ok, err, new, invalid_argument, Result-cases}
use citius_server.Grpc.Status.{
  Vocabulary, Status, Reply, replied, failed, Rpc, authorized, call, to_status_error,
}

-- `policy.Policy`: its name, the rules as JSON, its version and its times.
pub record Policy : Type 0 where
  pub name : Text
  pub public_id : Text
  pub rules_json : Text
  pub version : ℕ
  pub create_time : ℕ
  pub update_time : ℕ

-- The policy engine of citius-core, in a world `W`.
pub record Engine (W : Type 0) : Type 0 where
  pub create_policy : Policy → W → Result Policy × W
  pub get_policy : Text → W → Result Policy × W
  pub update_policy : Policy → ℕ → W → Result Policy × W

pub record CryptoPolicyHandler (W : Type 0) : Type 0 where
  pub policy : W → Result (Engine W) × W
  pub authorize_policy : Text → Result (Unit {0})

pub record WriteRequest : Type 0 where
  pub name : Text
  pub policy_document : Text
  pub format : Text

-- A response to a write, which only varies in the version.
pub record WriteResponse : Type 0 where
  pub version : ℕ

pub record ReadResponse : Type 0 where
  pub name : Text
  pub policy_document : Text
  pub format : Text
  pub version : ℕ
  pub created_at : ℕ
  pub updated_at : ℕ

abbrev pub policy_format_json : Text
policy_format_json = codes "json"

-- `policy.NewPolicy(name, name, document)`: a policy that was not stored has no version yet.
abbrev pub new_policy : WriteRequest → Policy
new_policy req = record {
  name = req.name;
  public_id = req.name;
  rules_json = req.policy_document;
  version = 0;
  create_time = 0;
  update_time = 0;
}

unfoldable pub check_format : Text → Result (Unit {0})
check_format format =
    if format == [] || format == policy_format_json then ok tt else err (new invalid_argument)

unfoldable pub written : {W : Type 0} → Policy → Rpc W WriteResponse
written p w = (replied (record { version = p.version }), w)

unfoldable pub read : {W : Type 0} → Policy → Rpc W ReadResponse
read p w = (
  replied (record {
    name = p.name;
    policy_document = p.rules_json;
    format = policy_format_json;
    version = p.version;
    created_at = p.create_time;
    updated_at = p.update_time;
  }),
  w,
)

module _ {W : Type 0} (v : Vocabulary) (h : CryptoPolicyHandler W) where
  abbrev pub named : {A : Type 0} → Text → Rpc W A → Rpc W A
  named name rpc w =
      if name == [] then (failed (to_status_error v (new invalid_argument)), w) else rpc w

  unfoldable pub create_crypto_policy : WriteRequest → Rpc W WriteResponse
  unfolding check_format written
  create_crypto_policy req = named req.name (
      authorized v (h.authorize_policy req.name) (
        authorized v (check_format req.format)
          (call v h.policy λ engine. call v (engine.create_policy (new_policy req)) written)))

  unfoldable pub read_crypto_policy : Text → Rpc W ReadResponse
  unfolding read
  read_crypto_policy name = named name (
      authorized v (h.authorize_policy name)
        (call v h.policy λ engine. call v (engine.get_policy name) read))

  unfoldable pub update_crypto_policy : WriteRequest → ℕ → Rpc W WriteResponse
  unfolding check_format written
  update_crypto_policy req expected_version = named req.name (
      authorized v (h.authorize_policy req.name) (
        authorized v (check_format req.format) (
          call v h.policy
            λ engine. call v (engine.update_policy (new_policy req) expected_version) written)))
