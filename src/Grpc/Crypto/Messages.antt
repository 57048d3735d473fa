-- ===== src/Grpc/Crypto/Messages.antt =====
-- The messages of the RPCs, the requests of the orchestrator (citius-core's `crypto` package), and
-- the scope parameters that one carries over to the other.
use citius_server.Prelude.{ℕ, Bool, Option, none, some, List, [], Text}
use citius_server.Errors.{Result}

-- The `scope_params` oneof of `EncryptRequest` and `DecryptRequest`, and of the four signing
-- requests; `unset` is nil or a variant that the handler does not know.
pub data EncryptionParams : Type 0 where
  unset : EncryptionParams
  no_params aead_params xts_params asymmetric_params vendor_params : Text → EncryptionParams

pub data SignatureParams : Type 0 where
  unset : SignatureParams
  no_context domain_context vendor_context : Text → SignatureParams

-- `crypto.EncryptionScopeFields` and `crypto.SignatureScopeFields`, with nil as `none`.
pub record EncryptionScope : Type 0 where
  pub no_params : Option Text
  pub aead_params : Option Text
  pub xts_params : Option Text
  pub asymmetric_params : Option Text
  pub vendor_params : Option Text

pub record SignatureScope : Type 0 where
  pub no_context : Option Text
  pub domain_context : Option Text
  pub vendor_context : Option Text

abbrev pub no_encryption_scope : EncryptionScope
no_encryption_scope = record {
  no_params = none;
  aead_params = none;
  xts_params = none;
  asymmetric_params = none;
  vendor_params = none;
}

abbrev pub no_signature_scope : SignatureScope
no_signature_scope = record { no_context = none; domain_context = none; vendor_context = none }

-- `messages.OperationMetadata`
pub record Metadata : Type 0 where
  pub key_version : ℕ
  pub provider_output : Option Text
  pub digest_hash : ℕ
  pub user_context : List (Text × Text)

-- The getters of a nil `OperationMetadata`.
abbrev pub metadata_of : Option Metadata → Metadata
metadata_of none = record {
  key_version = 0;
  provider_output = none;
  digest_hash = 0;
  user_context = [];
}
metadata_of (some m) = m

-- The RPCs' requests: what is read for encryption and its inverse, and for signatures. `input` is
-- the plaintext, the input of a signature, or the digest; `hash_algorithm` is only in
-- `DigestSignRequest`.
pub record EncryptRequest : Type 0 where
  pub key_name : Text
  pub plaintext : Text
  pub scope_params : EncryptionParams
  pub user_context : List (Text × Text)

pub record DecryptRequest : Type 0 where
  pub key_name : Text
  pub ciphertext : Text
  pub metadata : Option Metadata
  pub scope_params : EncryptionParams
  pub user_context : List (Text × Text)

pub record SignRequest : Type 0 where
  pub key_name : Text
  pub input : Text
  pub scope_params : SignatureParams
  pub user_context : List (Text × Text)

pub record VerifyRequest : Type 0 where
  pub key_name : Text
  pub input : Text
  pub signature : Text
  pub metadata : Option Metadata
  pub scope_params : SignatureParams
  pub user_context : List (Text × Text)

pub record DigestSignRequest : Type 0 where
  pub key_name : Text
  pub digest : Text
  pub hash_algorithm : ℕ
  pub scope_params : SignatureParams
  pub user_context : List (Text × Text)

pub record DigestVerifyRequest : Type 0 where
  pub key_name : Text
  pub digest : Text
  pub signature : Text
  pub metadata : Option Metadata
  pub scope_params : SignatureParams
  pub user_context : List (Text × Text)

-- A response: the bytes or the validity that it holds, and its metadata.
pub record Response (A : Type 0) : Type 0 where
  pub value : A
  pub metadata : Metadata

-- The orchestrator's requests.
pub record EncryptOrder : Type 0 where
  pub key_name : Text
  pub plaintext : Text
  pub scope : EncryptionScope

pub record DecryptOrder : Type 0 where
  pub key_name : Text
  pub key_version : ℕ
  pub ciphertext : Text
  pub output : Option Text
  pub scope : EncryptionScope

pub record SignOrder : Type 0 where
  pub key_name : Text
  pub payload : Text
  pub scope : SignatureScope

pub record VerifyOrder : Type 0 where
  pub key_name : Text
  pub payload : Text
  pub signature : Text
  pub key_version : ℕ
  pub output : Option Text
  pub scope : SignatureScope

pub record DigestSignOrder : Type 0 where
  pub key_name : Text
  pub digest : Text
  pub hash_algorithm : ℕ
  pub scope : SignatureScope

pub record DigestVerifyOrder : Type 0 where
  pub key_name : Text
  pub key_version : ℕ
  pub digest : Text
  pub signature : Text
  pub digest_hash : ℕ
  pub output : Option Text
  pub scope : SignatureScope

-- What the orchestrator returns; `digest_hash` is only in the results of the digest operations.
pub record Outcome (A : Type 0) : Type 0 where
  pub value : A
  pub key_version : ℕ
  pub output : Option Text
  pub digest_hash : ℕ

-- `service.CryptoOrchestrator`, in a world `W` of keys and providers.
pub record Orchestrator (W : Type 0) : Type 0 where
  pub encrypt : EncryptOrder → W → Result (Outcome Text) × W
  pub decrypt : DecryptOrder → W → Result (Outcome Text) × W
  pub sign : SignOrder → W → Result (Outcome Text) × W
  pub verify : VerifyOrder → W → Result (Outcome Bool) × W
  pub digest_sign : DigestSignOrder → W → Result (Outcome Text) × W
  pub digest_verify : DigestVerifyOrder → W → Result (Outcome Bool) × W
