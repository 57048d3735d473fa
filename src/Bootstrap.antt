-- ===== src/Bootstrap.antt =====
-- bootstrap/zitadel/setup-auth: the access file from which Zitadel's users are set up.
pub mod Checked
pub mod Types
pub mod Web
pub mod Users
pub mod Acceptable
pub mod Fresh
pub mod UserLaws
pub mod LoadLaws
pub mod Accepted
pub mod Load
mod Tests
