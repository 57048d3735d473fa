-- ===== src/Auth.antt =====
-- internal/auth: who may call what.
pub mod Config
pub mod ConfigLaws
pub mod Lists
pub mod Methods
pub mod Registry
pub mod Areas
pub mod Tests
