-- ===== src/Vault.antt =====
-- vault-storage: the repositories over a `logical.Storage` of Vault.
pub mod Storage
pub mod Key
pub mod Memory
pub mod Collection
pub mod Policy
pub mod Provider
pub mod Template
pub mod RepositoryTests
