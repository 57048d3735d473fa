-- ===== src/Software.antt =====
-- internal/provider/software: the provider that calls Go's crypto packages.
pub mod Outcome
pub mod Types
pub mod Library
pub mod Padding
pub mod Symmetric
pub mod Aead
pub mod AesGcm
pub mod AesCbc
pub mod AesCtr
pub mod ChaCha
pub mod Signers
pub mod EcdsaFormat
pub mod Ecdsa
pub mod Rsa
pub mod Ed25519
pub mod MlDsa
pub mod EcdsaLaws
pub mod RsaLaws
pub mod Ed25519Laws
pub mod MlDsaLaws
pub mod Encoding
pub mod Provider
pub mod Decryption
pub mod GeneratedKeys
pub mod Verification
pub mod SignerCalm
pub mod SchemeCalm
pub mod OtherCalm
pub mod ByAlgorithm
pub mod Calm
pub mod SchemeErrors
pub mod Judging
mod Sample
mod SampleEncodings
mod SampleKeys
mod Tests
