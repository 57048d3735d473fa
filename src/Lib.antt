-- ===== src/Lib.antt =====
-- A verification library of citius-server, a gRPC server for cryptographic operations whose keys,
-- policies and templates are kept in Vault's storage. Paths are from the root of the repository.
--
-- The program. The handlers of internal/grpc check a request, ask for authorization, and call an
-- orchestrator or a policy engine of citius-core, which a factory makes for the request. The
-- orchestrators keep keys, policies, provider instances and templates in the repositories of
-- vault-storage, each over a `logical.Storage` view of Vault. Listings are cut into pages by
-- internal/grpc/paging. internal/auth reads the configuration and says which permission each RPC
-- asks for. internal/provider/software is a provider of the cryptographic operations that the
-- orchestrators call: it generates keys, signs, verifies, encrypts and decrypts with Go's crypto
-- packages and circl. bootstrap/zitadel/setup-auth sets up the users that a file lists.
--
-- The library.
--   Prelude, Decimal, Errors: lists, texts and tests on native numbers; Go's strconv; the domain
--     errors of citius-core, without their messages.
--   Cache: vault-storage/key/cache.go. Elements are the list's elements with their addresses, Lru is
--     `lruCache` with get, put and remove; Recency is the list of entries by recency, which the
--     methods are shown to implement (Refines, History); Cached is what a cache holds for a key.
--   Vault.Storage: the storage as a parameter. A failing call leaves a view as it was; each call of
--     the model returns the view after it. Vault.Memory is a concrete one that refuses to write at
--     given keys, for the tests.
--   Vault.Key: vault-storage/key/vault_repository.go. Act is a method that changes the repository and
--     may fail, with what it wrote before failing kept; Names is storeKeyNameToID, deleteKeyNameToID
--     and resolveKeyNameToID; Entries is get, put, getKey, getKeyVersion and the version keys; Writes
--     is putKey, updateKey, deleteKey and putKeyVersion; Calls is the exported methods; Runs is
--     sequences of them. The proofs are in Create and CreateLaws, DeleteLaws and Removal, AddLaws, ReadLaws,
--     Coherence, Reach, Lookup, Links, Linked and Agreement.
--   Vault.Collection, Policy, Provider, Template: vault-storage/policy, vault-storage/provider and
--     vault-storage/template.
--   Paging: internal/grpc/paging/paging.go, and a client that follows the tokens.
--   Grpc.Status: internal/grpc/status and internal/grpc/authz. Grpc.Crypto:
--     internal/grpc/crypto/crypto_handler.go. Grpc.Policy:
--     internal/grpc/policy/crypto_policy_handler.go. Grpc.Keys:
--     internal/grpc/keymanagement/list_keys.go, with Grpc.Sorting for its order.
--   Auth: internal/auth/config.go, methods.go, permissions.go and policies.go.
--   Bootstrap: bootstrap/zitadel/setup-auth/acl.go. Checked is a result with the first problem found;
--     Types is the access file, the result and the parsers that are called; Web is the checks of the
--     web application and of URIs, Users those of the users, and loadACL. Acceptable says which files
--     are acceptable and what they provide; the proofs are in Fresh, UserLaws, LoadLaws, Accepted and
--     Load.
--   Software: internal/provider/software. Outcome is what a call comes to, a value, an error or a
--     panic; Types is the messages of requests; Library and Signers are the crypto packages as
--     parameters, with their laws. Symmetric, Padding, AesGcm, AesCbc, AesCtr, ChaCha, EcdsaFormat,
--     Ecdsa, Rsa, Ed25519 and MlDsa are the source files of these names (Padding is pkcs7Pad and
--     pkcs7Unpad of aescbc.go, Aead what AES-GCM and ChaCha20-Poly1305 share), Encoding is encoding.go
--     and reqvalidate.go, and Provider is provider.go. The proofs of the schemes are in EcdsaLaws,
--     RsaLaws, Ed25519Laws and MlDsaLaws, those of the operations in GeneratedKeys, Verification,
--     Decryption, SchemeErrors and Judging, and those about panics in SignerCalm, SchemeCalm,
--     OtherCalm, ByAlgorithm and Calm. Sample, SampleEncodings and SampleKeys are concrete libraries
--     for the tests.
--
-- The model. A Go error is a value that records how it was built from `errors.New`, `errors.Wrap` and
-- the errors of libraries; operation names and messages are left out. uint32 versions wrap around
-- (`% 2 ^ 32`), an int is a number of ℤ that strconv bounds by 2 ^ 63, a duration is kept modulo
-- 2 ^ 64. A Go map is a function, and one that serves as a set is the list of its keys. Times are
-- arguments of the methods that read the clock. Loops are structural recursion, but for `itoa`, whose
-- fuel is one more than the number and more than its digits, and for the clients that follow page
-- tokens, whose calls are one more than the items.
--
-- Parameters: Vault's storage, protobuf's encoding, the checks, the error vocabulary, the scope
-- matching, the orchestrators, the policy engine and the provider helpers of citius-core, the
-- validator of requests, the authorization of a name, and the ciphers, signatures and encodings of
-- Go's crypto packages and circl, whose random source is an argument of what reads it, and for the
-- access file the YAML decoder, net/url, net/mail and net.ParseIP.
-- Each is a record of operations, with a record of the laws that a proof relies on: a storage is a
-- map (`IsStorage`), of which in some proofs reads and deletions succeed while writes may still
-- fail (`IsSteady`) and a listing of a prefix is complete (`IsListing`), and an encoding is read back
-- (`IsLibraries`, `IsCodec`). A cipher undoes itself and panics only on the arguments its package
-- names (`IsCiphers`), keys are read back from their encodings and verify what they sign
-- (`IsSigners`), the signature packages panic only where they document it, circl on a long context or
-- a key of another scheme, and a scheme reads keys of its own (`IsCalm`), an output gives back the
-- nonce it was made with (`IsCore`), and errors of encoding/asn1 are not `not implemented`
-- (`IsJudge`).
--
-- Not modelled: the read-write locks (each method is one step), contexts, logging, the messages of
-- errors, the white space that `strings.TrimSpace` trims and the letters that `strings.ToLower`
-- maps outside ASCII, the OpenSSL provider, which calls C, the loopback provider, the handlers of
-- discovery and providers, the key management RPCs other than ListKeys, the wiring in internal/cmd
-- and internal/app, and the rest of bootstrap.
pub mod Prelude
pub mod Decimal
pub mod Paging
pub mod Cache
pub mod Errors
pub mod Vault
pub mod Grpc
pub mod Auth
pub mod Bootstrap
pub mod Software
