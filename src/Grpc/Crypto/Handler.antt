-- ===== src/Grpc/Crypto/Handler.antt =====
-- `CryptoHandler` and its RPCs.
use citius_server.Prelude.{Bool, some, List, Text}
use citius_server.Errors.{Result}
use citius_server.Grpc.Status.{Vocabulary, replied, Rpc, authorized, call}
use citius_server.Grpc.Crypto.Messages.{
  EncryptionParams, SignatureParams, EncryptionScope, SignatureScope, no_encryption_scope,
  no_signature_scope, metadata_of, EncryptRequest, DecryptRequest, SignRequest, VerifyRequest,
  DigestSignRequest, DigestVerifyRequest, Response, EncryptOrder, DecryptOrder, SignOrder,
  VerifyOrder, DigestSignOrder, DigestVerifyOrder, Outcome, Orchestrator,
}

pub record CryptoHandler (W : Type 0) : Type 0 where
  pub crypto : W → Result (Orchestrator W) × W
  pub authorize_key : Text → Result (Unit {0})

-- `scope` with the field that the request sets.
encryption_scope : EncryptionParams → EncryptionScope → EncryptionScope
encryption_scope EncryptionParams.unset s = s
encryption_scope (EncryptionParams.no_params p) s = record s { no_params = some p }
encryption_scope (EncryptionParams.aead_params p) s = record s { aead_params = some p }
encryption_scope (EncryptionParams.xts_params p) s = record s { xts_params = some p }
encryption_scope (EncryptionParams.asymmetric_params p) s = record s { asymmetric_params = some p }
encryption_scope (EncryptionParams.vendor_params p) s = record s { vendor_params = some p }

signature_scope : SignatureParams → SignatureScope → SignatureScope
signature_scope SignatureParams.unset s = s
signature_scope (SignatureParams.no_context p) s = record s { no_context = some p }
signature_scope (SignatureParams.domain_context p) s = record s { domain_context = some p }
signature_scope (SignatureParams.vendor_context p) s = record s { vendor_context = some p }

unfoldable pub extract_encrypt_scope_params : EncryptionParams → EncryptOrder → EncryptOrder
unfolding encryption_scope
extract_encrypt_scope_params sp r = record r { scope = encryption_scope sp r.scope }

unfoldable pub extract_decrypt_scope_params : EncryptionParams → DecryptOrder → DecryptOrder
unfolding encryption_scope
extract_decrypt_scope_params sp r = record r { scope = encryption_scope sp r.scope }

unfoldable pub extract_signing_scope_params : SignatureParams → SignOrder → SignOrder
unfolding signature_scope
extract_signing_scope_params sp r = record r { scope = signature_scope sp r.scope }

unfoldable pub extract_verify_scope_params : SignatureParams → VerifyOrder → VerifyOrder
unfolding signature_scope
extract_verify_scope_params sp r = record r { scope = signature_scope sp r.scope }

unfoldable pub extract_digest_sign_scope_params :
    SignatureParams → DigestSignOrder → DigestSignOrder
unfolding signature_scope
extract_digest_sign_scope_params sp r = record r { scope = signature_scope sp r.scope }

unfoldable pub extract_digest_verify_scope_params :
    SignatureParams → DigestVerifyOrder → DigestVerifyOrder
unfolding signature_scope
extract_digest_verify_scope_params sp r = record r { scope = signature_scope sp r.scope }

-- The response to a result, with the caller's context; only the digest operations have a hash.
responded : {W A : Type 0} → List (Text × Text) → Outcome A → Rpc W (Response A)
responded context o w = (
  replied (record {
    value = o.value;
    metadata = record {
      key_version = o.key_version;
      provider_output = o.output;
      digest_hash = 0;
      user_context = context;
    };
  }),
  w,
)

responded_with_hash : {W A : Type 0} → List (Text × Text) → Outcome A → Rpc W (Response A)
responded_with_hash context o w = (
  replied (record {
    value = o.value;
    metadata = record {
      key_version = o.key_version;
      provider_output = o.output;
      digest_hash = o.digest_hash;
      user_context = context;
    };
  }),
  w,
)

module _ {W : Type 0} (v : Vocabulary) (h : CryptoHandler W) where
  unfoldable pub encrypt : EncryptRequest → Rpc W (Response Text)
  unfolding extract_encrypt_scope_params responded
  encrypt req = authorized v (h.authorize_key req.key_name) (
      call v h.crypto λ ops.
        call v
          (ops.encrypt (
            extract_encrypt_scope_params req.scope_params (record {
              key_name = req.key_name;
              plaintext = req.plaintext;
              scope = no_encryption_scope;
            })))
          (responded req.user_context))

  unfoldable pub decrypt : DecryptRequest → Rpc W (Response Text)
  unfolding extract_decrypt_scope_params responded
  decrypt req = authorized v (h.authorize_key req.key_name) (
      call v h.crypto λ ops.
        call v
          (ops.decrypt (
            extract_decrypt_scope_params req.scope_params (record {
              key_name = req.key_name;
              key_version = (metadata_of req.metadata).key_version;
              ciphertext = req.ciphertext;
              output = (metadata_of req.metadata).provider_output;
              scope = no_encryption_scope;
            })))
          (responded req.user_context))

  unfoldable pub sign : SignRequest → Rpc W (Response Text)
  unfolding extract_signing_scope_params responded
  sign req = authorized v (h.authorize_key req.key_name) (
      call v h.crypto λ ops.
        call v
          (ops.sign (
            extract_signing_scope_params req.scope_params (record {
              key_name = req.key_name;
              payload = req.input;
              scope = no_signature_scope;
            })))
          (responded req.user_context))

  unfoldable pub verify : VerifyRequest → Rpc W (Response Bool)
  unfolding extract_verify_scope_params responded
  verify req = authorized v (h.authorize_key req.key_name) (
      call v h.crypto λ ops.
        call v
          (ops.verify (
            extract_verify_scope_params req.scope_params (record {
              key_name = req.key_name;
              payload = req.input;
              signature = req.signature;
              key_version = (metadata_of req.metadata).key_version;
              output = (metadata_of req.metadata).provider_output;
              scope = no_signature_scope;
            })))
          (responded req.user_context))

  unfoldable pub digest_sign : DigestSignRequest → Rpc W (Response Text)
  unfolding extract_digest_sign_scope_params responded_with_hash
  digest_sign req = authorized v (h.authorize_key req.key_name) (
      call v h.crypto λ ops.
        call v
          (ops.digest_sign (
            extract_digest_sign_scope_params req.scope_params (record {
              key_name = req.key_name;
              digest = req.digest;
              hash_algorithm = req.hash_algorithm;
              scope = no_signature_scope;
            })))
          (responded_with_hash req.user_context))

  unfoldable pub digest_verify : DigestVerifyRequest → Rpc W (Response Bool)
  unfolding extract_digest_verify_scope_params responded_with_hash
  digest_verify req = authorized v (h.authorize_key req.key_name) (
      call v h.crypto λ ops.
        call v
          (ops.digest_verify (
            extract_digest_verify_scope_params req.scope_params (record {
              key_name = req.key_name;
              key_version = (metadata_of req.metadata).key_version;
              digest = req.digest;
              signature = req.signature;
              digest_hash = (metadata_of req.metadata).digest_hash;
              output = (metadata_of req.metadata).provider_output;
              scope = no_signature_scope;
            })))
          (responded_with_hash req.user_context))
