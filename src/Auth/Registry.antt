-- ===== src/Auth/Registry.antt =====
-- internal/auth/policies.go: which permission each RPC asks for.
use citius_server.Prelude.{
  Bool, true, false, Option, none, some, List, [], ◌∷◌, if◌then◌else◌, ◌==◌, Text, codes, text_Eq,
}
use citius_server.Auth.Methods

-- internal/auth/permissions.go
pub data Permission : Type 0 where
  keys_create keys_rotate keys_update_policy keys_read crypto_encrypt crypto_decrypt : Permission
  crypto_sign crypto_verify crypto_misc policy_read policy_write discovery_read provider_read :
      Permission
  provider_write : Permission

abbrev pub claim : Permission → Text
claim keys_create = codes "citius:keys:create"
claim keys_rotate = codes "citius:keys:rotate"
claim keys_update_policy = codes "citius:keys:update-policy"
claim keys_read = codes "citius:keys:read"
claim crypto_encrypt = codes "citius:crypto:encrypt"
claim crypto_decrypt = codes "citius:crypto:decrypt"
claim crypto_sign = codes "citius:crypto:sign"
claim crypto_verify = codes "citius:crypto:verify"
claim crypto_misc = codes "citius:crypto:misc"
claim policy_read = codes "citius:policy:read"
claim policy_write = codes "citius:policy:write"
claim discovery_read = codes "citius:discovery:read"
claim provider_read = codes "citius:provider:read"
claim provider_write = codes "citius:provider:write"

-- `AllPermissions`
abbrev pub all_permissions : List Permission
all_permissions =
    keys_create ∷ keys_rotate ∷ keys_update_policy ∷ keys_read ∷ crypto_encrypt ∷ crypto_decrypt
    ∷ crypto_sign ∷ crypto_verify ∷ crypto_misc ∷ policy_read ∷ policy_write ∷ discovery_read
    ∷ provider_read ∷ provider_write ∷ []

-- The permission in the `requirePerm` of each entry of `policyRegistry`.
abbrev pub policy_registry : Methods.Method → Permission
policy_registry Methods.create_key = keys_create
policy_registry Methods.delete_key = keys_create
policy_registry Methods.import_key = keys_create
policy_registry Methods.rotate_key = keys_rotate
policy_registry Methods.transform_key = keys_rotate
policy_registry Methods.update_key_state = keys_rotate
policy_registry Methods.migrate_key = keys_rotate
policy_registry Methods.update_key_policy = keys_update_policy
policy_registry Methods.read_key = keys_read
policy_registry Methods.list_keys = keys_read
policy_registry Methods.validate_key_operation = keys_read
policy_registry Methods.export_key = keys_read
policy_registry Methods.create_crypto_policy = policy_write
policy_registry Methods.read_crypto_policy = policy_read
policy_registry Methods.delete_crypto_policy = policy_write
policy_registry Methods.update_crypto_policy = policy_write
policy_registry Methods.list_crypto_policies = policy_read
policy_registry Methods.evaluate_policy = policy_read
policy_registry Methods.batch_evaluate_policy = policy_read
policy_registry Methods.encrypt = crypto_encrypt
policy_registry Methods.decrypt = crypto_decrypt
policy_registry Methods.sign = crypto_sign
policy_registry Methods.verify = crypto_verify
policy_registry Methods.digest = crypto_misc
policy_registry Methods.xof = crypto_misc
policy_registry Methods.digest_sign = crypto_sign
policy_registry Methods.digest_verify = crypto_verify
policy_registry Methods.generate_random = crypto_misc
policy_registry Methods.seed_random = crypto_misc
policy_registry Methods.generate_mac = crypto_misc
policy_registry Methods.verify_mac = crypto_misc
policy_registry Methods.encrypt_init = crypto_encrypt
policy_registry Methods.encrypt_update = crypto_encrypt
policy_registry Methods.encrypt_final = crypto_encrypt
policy_registry Methods.encrypt_message = crypto_encrypt
policy_registry Methods.encrypt_message_init = crypto_encrypt
policy_registry Methods.encrypt_message_begin = crypto_encrypt
policy_registry Methods.encrypt_message_next = crypto_encrypt
policy_registry Methods.encrypt_message_final = crypto_encrypt
policy_registry Methods.decrypt_init = crypto_decrypt
policy_registry Methods.decrypt_update = crypto_decrypt
policy_registry Methods.decrypt_final = crypto_decrypt
policy_registry Methods.decrypt_message = crypto_decrypt
policy_registry Methods.decrypt_message_init = crypto_decrypt
policy_registry Methods.decrypt_message_begin = crypto_decrypt
policy_registry Methods.decrypt_message_next = crypto_decrypt
policy_registry Methods.decrypt_message_final = crypto_decrypt
policy_registry Methods.sign_init = crypto_sign
policy_registry Methods.sign_update = crypto_sign
policy_registry Methods.sign_final = crypto_sign
policy_registry Methods.sign_message = crypto_sign
policy_registry Methods.sign_message_init = crypto_sign
policy_registry Methods.sign_message_begin = crypto_sign
policy_registry Methods.sign_message_next = crypto_sign
policy_registry Methods.sign_message_final = crypto_sign
policy_registry Methods.verify_init = crypto_verify
policy_registry Methods.verify_update = crypto_verify
policy_registry Methods.verify_final = crypto_verify
policy_registry Methods.verify_message = crypto_verify
policy_registry Methods.verify_message_init = crypto_verify
policy_registry Methods.verify_message_begin = crypto_verify
policy_registry Methods.verify_message_next = crypto_verify
policy_registry Methods.verify_message_final = crypto_verify
policy_registry Methods.digest_init = crypto_misc
policy_registry Methods.digest_update = crypto_misc
policy_registry Methods.digest_final = crypto_misc
policy_registry Methods.digest_key = crypto_misc
policy_registry Methods.generate_mac_init = crypto_misc
policy_registry Methods.generate_mac_update = crypto_misc
policy_registry Methods.generate_mac_final = crypto_misc
policy_registry Methods.verify_mac_init = crypto_misc
policy_registry Methods.verify_mac_update = crypto_misc
policy_registry Methods.verify_mac_final = crypto_misc
policy_registry Methods.xof_init = crypto_misc
policy_registry Methods.xof_update = crypto_misc
policy_registry Methods.xof_final = crypto_misc
policy_registry Methods.digest_encrypt_update = crypto_misc
policy_registry Methods.decrypt_digest_update = crypto_misc
policy_registry Methods.sign_encrypt_update = crypto_misc
policy_registry Methods.decrypt_verify_update = crypto_misc
policy_registry Methods.cancel_operation = crypto_misc
policy_registry Methods.wrap_key = crypto_misc
policy_registry Methods.unwrap_key = crypto_misc
policy_registry Methods.derive_key = crypto_misc
policy_registry Methods.key_agreement = crypto_misc
policy_registry Methods.encapsulate_key = crypto_misc
policy_registry Methods.decapsulate_key = crypto_misc
policy_registry Methods.list_templates = discovery_read
policy_registry Methods.get_template = discovery_read
policy_registry Methods.list_scopes = discovery_read
policy_registry Methods.list_providers = provider_read
policy_registry Methods.get_provider = provider_read
policy_registry Methods.match_providers = provider_read
policy_registry Methods.list_provider_instances = provider_read
policy_registry Methods.get_provider_instance = provider_read
policy_registry Methods.register_provider_instance = provider_write
policy_registry Methods.update_provider_instance = provider_write
policy_registry Methods.delete_provider_instance = provider_write

-- `HasStringInSlice`
abbrev pub has : List Text → Text → Bool
has [] p = false
has (q ∷ qs) p = let rest = has qs p in if q == p then true else rest

-- `requirePerm` of a permission, for the permissions in the caller's claims; a nil claim is `none`.
abbrev pub require_perm : Permission → Option (List Text) → Bool
require_perm p none = false
require_perm p (some granted) = has granted (claim p)
