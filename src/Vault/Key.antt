-- ===== src/Vault/Key.antt =====
-- vault-storage/key/vault_repository.go: the key repository.
pub mod Types
pub mod Names
pub mod Act
pub mod Entries
pub mod Writes
pub mod Calls
pub mod Spec
pub mod NameLaws
pub mod EntryLaws
pub mod Create
pub mod CreateLaws
pub mod DeleteLaws
pub mod AddLaws
pub mod ReadLaws
pub mod Coherence
pub mod Keeps
pub mod Removal
pub mod Runs
pub mod Reach
pub mod Lookup
pub mod Links
pub mod Mapped
pub mod Linked
pub mod Agreement
pub mod Codec
pub mod Tests
pub mod RunTests
