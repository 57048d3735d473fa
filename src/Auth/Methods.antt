-- ===== src/Auth/Methods.antt =====
-- internal/auth/methods.go and internal/auth/permissions.go: the RPCs and the permissions.
use citius_server.Prelude.{◌∷◌, ◌++◌, Text, codes}

-- The RPCs, each under the constant's name without `Method`, by service.
pub data Method : Type 0 where
  create_key delete_key import_key rotate_key transform_key update_key_state migrate_key : Method
  update_key_policy read_key list_keys validate_key_operation export_key : Method
  create_crypto_policy read_crypto_policy delete_crypto_policy update_crypto_policy : Method
  list_crypto_policies evaluate_policy batch_evaluate_policy : Method
  encrypt decrypt sign verify digest xof digest_sign digest_verify generate_random seed_random :
      Method
  generate_mac verify_mac : Method
  encrypt_init encrypt_update encrypt_final encrypt_message encrypt_message_init : Method
  encrypt_message_begin encrypt_message_next encrypt_message_final decrypt_init decrypt_update :
      Method
  decrypt_final decrypt_message decrypt_message_init decrypt_message_begin decrypt_message_next :
      Method
  decrypt_message_final sign_init sign_update sign_final sign_message sign_message_init : Method
  sign_message_begin sign_message_next sign_message_final verify_init verify_update : Method
  verify_final verify_message verify_message_init verify_message_begin verify_message_next : Method
  verify_message_final digest_init digest_update digest_final digest_key generate_mac_init : Method
  generate_mac_update generate_mac_final verify_mac_init verify_mac_update verify_mac_final : Method
  xof_init xof_update xof_final digest_encrypt_update decrypt_digest_update sign_encrypt_update :
      Method
  decrypt_verify_update cancel_operation : Method
  wrap_key unwrap_key derive_key key_agreement encapsulate_key decapsulate_key : Method
  list_templates get_template list_scopes : Method
  list_providers get_provider match_providers list_provider_instances get_provider_instance : Method
  register_provider_instance update_provider_instance delete_provider_instance : Method

pub data Service : Type 0 where
  key_management_service crypto_policy_service crypto_service streaming_crypto_service : Service
  key_establishment_service algorithm_discovery_service provider_service : Service

abbrev pub service_name : Service → Text
service_name key_management_service = codes "KeyManagementService"
service_name crypto_policy_service = codes "CryptoPolicyService"
service_name crypto_service = codes "CryptoService"
service_name streaming_crypto_service = codes "StreamingCryptoService"
service_name key_establishment_service = codes "KeyEstablishmentService"
service_name algorithm_discovery_service = codes "AlgorithmDiscoveryService"
service_name provider_service = codes "ProviderService"

-- The service and the RPC that the constants name.
abbrev pub service_of : Method → Service
service_of create_key = key_management_service
service_of delete_key = key_management_service
service_of import_key = key_management_service
service_of rotate_key = key_management_service
service_of transform_key = key_management_service
service_of update_key_state = key_management_service
service_of migrate_key = key_management_service
service_of update_key_policy = key_management_service
service_of read_key = key_management_service
service_of list_keys = key_management_service
service_of validate_key_operation = key_management_service
service_of export_key = key_management_service
service_of create_crypto_policy = crypto_policy_service
service_of read_crypto_policy = crypto_policy_service
service_of delete_crypto_policy = crypto_policy_service
service_of update_crypto_policy = crypto_policy_service
service_of list_crypto_policies = crypto_policy_service
service_of evaluate_policy = crypto_policy_service
service_of batch_evaluate_policy = crypto_policy_service
service_of encrypt = crypto_service
service_of decrypt = crypto_service
service_of sign = crypto_service
service_of verify = crypto_service
service_of digest = crypto_service
service_of xof = crypto_service
service_of digest_sign = crypto_service
service_of digest_verify = crypto_service
service_of generate_random = crypto_service
service_of seed_random = crypto_service
service_of generate_mac = crypto_service
service_of verify_mac = crypto_service
service_of encrypt_init = streaming_crypto_service
service_of encrypt_update = streaming_crypto_service
service_of encrypt_final = streaming_crypto_service
service_of encrypt_message = streaming_crypto_service
service_of encrypt_message_init = streaming_crypto_service
service_of encrypt_message_begin = streaming_crypto_service
service_of encrypt_message_next = streaming_crypto_service
service_of encrypt_message_final = streaming_crypto_service
service_of decrypt_init = streaming_crypto_service
service_of decrypt_update = streaming_crypto_service
service_of decrypt_final = streaming_crypto_service
service_of decrypt_message = streaming_crypto_service
service_of decrypt_message_init = streaming_crypto_service
service_of decrypt_message_begin = streaming_crypto_service
service_of decrypt_message_next = streaming_crypto_service
service_of decrypt_message_final = streaming_crypto_service
service_of sign_init = streaming_crypto_service
service_of sign_update = streaming_crypto_service
service_of sign_final = streaming_crypto_service
service_of sign_message = streaming_crypto_service
service_of sign_message_init = streaming_crypto_service
service_of sign_message_begin = streaming_crypto_service
service_of sign_message_next = streaming_crypto_service
service_of sign_message_final = streaming_crypto_service
service_of verify_init = streaming_crypto_service
service_of verify_update = streaming_crypto_service
service_of verify_final = streaming_crypto_service
service_of verify_message = streaming_crypto_service
service_of verify_message_init = streaming_crypto_service
service_of verify_message_begin = streaming_crypto_service
service_of verify_message_next = streaming_crypto_service
service_of verify_message_final = streaming_crypto_service
service_of digest_init = streaming_crypto_service
service_of digest_update = streaming_crypto_service
service_of digest_final = streaming_crypto_service
service_of digest_key = streaming_crypto_service
service_of generate_mac_init = streaming_crypto_service
service_of generate_mac_update = streaming_crypto_service
service_of generate_mac_final = streaming_crypto_service
service_of verify_mac_init = streaming_crypto_service
service_of verify_mac_update = streaming_crypto_service
service_of verify_mac_final = streaming_crypto_service
service_of xof_init = streaming_crypto_service
service_of xof_update = streaming_crypto_service
service_of xof_final = streaming_crypto_service
service_of digest_encrypt_update = streaming_crypto_service
service_of decrypt_digest_update = streaming_crypto_service
service_of sign_encrypt_update = streaming_crypto_service
service_of decrypt_verify_update = streaming_crypto_service
service_of cancel_operation = streaming_crypto_service
service_of wrap_key = key_establishment_service
service_of unwrap_key = key_establishment_service
service_of derive_key = key_establishment_service
service_of key_agreement = key_establishment_service
service_of encapsulate_key = key_establishment_service
service_of decapsulate_key = key_establishment_service
service_of list_templates = algorithm_discovery_service
service_of get_template = algorithm_discovery_service
service_of list_scopes = algorithm_discovery_service
service_of list_providers = provider_service
service_of get_provider = provider_service
service_of match_providers = provider_service
service_of list_provider_instances = provider_service
service_of get_provider_instance = provider_service
service_of register_provider_instance = provider_service
service_of update_provider_instance = provider_service
service_of delete_provider_instance = provider_service

abbrev pub rpc_name : Method → Text
rpc_name create_key = codes "CreateKey"
rpc_name delete_key = codes "DeleteKey"
rpc_name import_key = codes "ImportKey"
rpc_name rotate_key = codes "RotateKey"
rpc_name transform_key = codes "TransformKey"
rpc_name update_key_state = codes "UpdateKeyState"
rpc_name migrate_key = codes "MigrateKey"
rpc_name update_key_policy = codes "UpdateKeyPolicy"
rpc_name read_key = codes "ReadKey"
rpc_name list_keys = codes "ListKeys"
rpc_name validate_key_operation = codes "ValidateKeyOperation"
rpc_name export_key = codes "ExportKey"
rpc_name create_crypto_policy = codes "CreateCryptoPolicy"
rpc_name read_crypto_policy = codes "ReadCryptoPolicy"
rpc_name delete_crypto_policy = codes "DeleteCryptoPolicy"
rpc_name update_crypto_policy = codes "UpdateCryptoPolicy"
rpc_name list_crypto_policies = codes "ListCryptoPolicies"
rpc_name evaluate_policy = codes "EvaluatePolicy"
rpc_name batch_evaluate_policy = codes "BatchEvaluatePolicy"
rpc_name encrypt = codes "Encrypt"
rpc_name decrypt = codes "Decrypt"
rpc_name sign = codes "Sign"
rpc_name verify = codes "Verify"
rpc_name digest = codes "Digest"
rpc_name xof = codes "Xof"
rpc_name digest_sign = codes "DigestSign"
rpc_name digest_verify = codes "DigestVerify"
rpc_name generate_random = codes "GenerateRandom"
rpc_name seed_random = codes "SeedRandom"
rpc_name generate_mac = codes "GenerateMAC"
rpc_name verify_mac = codes "VerifyMAC"
rpc_name encrypt_init = codes "EncryptInit"
rpc_name encrypt_update = codes "EncryptUpdate"
rpc_name encrypt_final = codes "EncryptFinal"
rpc_name encrypt_message = codes "EncryptMessage"
rpc_name encrypt_message_init = codes "EncryptMessageInit"
rpc_name encrypt_message_begin = codes "EncryptMessageBegin"
rpc_name encrypt_message_next = codes "EncryptMessageNext"
rpc_name encrypt_message_final = codes "EncryptMessageFinal"
rpc_name decrypt_init = codes "DecryptInit"
rpc_name decrypt_update = codes "DecryptUpdate"
rpc_name decrypt_final = codes "DecryptFinal"
rpc_name decrypt_message = codes "DecryptMessage"
rpc_name decrypt_message_init = codes "DecryptMessageInit"
rpc_name decrypt_message_begin = codes "DecryptMessageBegin"
rpc_name decrypt_message_next = codes "DecryptMessageNext"
rpc_name decrypt_message_final = codes "DecryptMessageFinal"
rpc_name sign_init = codes "SignInit"
rpc_name sign_update = codes "SignUpdate"
rpc_name sign_final = codes "SignFinal"
rpc_name sign_message = codes "SignMessage"
rpc_name sign_message_init = codes "SignMessageInit"
rpc_name sign_message_begin = codes "SignMessageBegin"
rpc_name sign_message_next = codes "SignMessageNext"
rpc_name sign_message_final = codes "SignMessageFinal"
rpc_name verify_init = codes "VerifyInit"
rpc_name verify_update = codes "VerifyUpdate"
rpc_name verify_final = codes "VerifyFinal"
rpc_name verify_message = codes "VerifyMessage"
rpc_name verify_message_init = codes "VerifyMessageInit"
rpc_name verify_message_begin = codes "VerifyMessageBegin"
rpc_name verify_message_next = codes "VerifyMessageNext"
rpc_name verify_message_final = codes "VerifyMessageFinal"
rpc_name digest_init = codes "DigestInit"
rpc_name digest_update = codes "DigestUpdate"
rpc_name digest_final = codes "DigestFinal"
rpc_name digest_key = codes "DigestKey"
rpc_name generate_mac_init = codes "GenerateMACInit"
rpc_name generate_mac_update = codes "GenerateMACUpdate"
rpc_name generate_mac_final = codes "GenerateMACFinal"
rpc_name verify_mac_init = codes "VerifyMACInit"
rpc_name verify_mac_update = codes "VerifyMACUpdate"
rpc_name verify_mac_final = codes "VerifyMACFinal"
rpc_name xof_init = codes "XofInit"
rpc_name xof_update = codes "XofUpdate"
rpc_name xof_final = codes "XofFinal"
rpc_name digest_encrypt_update = codes "DigestEncryptUpdate"
rpc_name decrypt_digest_update = codes "DecryptDigestUpdate"
rpc_name sign_encrypt_update = codes "SignEncryptUpdate"
rpc_name decrypt_verify_update = codes "DecryptVerifyUpdate"
rpc_name cancel_operation = codes "CancelOperation"
rpc_name wrap_key = codes "WrapKey"
rpc_name unwrap_key = codes "UnwrapKey"
rpc_name derive_key = codes "DeriveKey"
rpc_name key_agreement = codes "KeyAgreement"
rpc_name encapsulate_key = codes "EncapsulateKey"
rpc_name decapsulate_key = codes "DecapsulateKey"
rpc_name list_templates = codes "ListTemplates"
rpc_name get_template = codes "GetTemplate"
rpc_name list_scopes = codes "ListScopes"
rpc_name list_providers = codes "ListProviders"
rpc_name get_provider = codes "GetProvider"
rpc_name match_providers = codes "MatchProviders"
rpc_name list_provider_instances = codes "ListProviderInstances"
rpc_name get_provider_instance = codes "GetProviderInstance"
rpc_name register_provider_instance = codes "RegisterProviderInstance"
rpc_name update_provider_instance = codes "UpdateProviderInstance"
rpc_name delete_provider_instance = codes "DeleteProviderInstance"

abbrev pub method_prefix : Text
method_prefix = codes "/caas.crypto.v1."

-- The fully-qualified name of an RPC.
unfoldable pub method_name : Method → Text
method_name m = method_prefix ++ service_name (service_of m) ++ b'/' ∷ rpc_name m
