-- ===== src/Grpc.antt =====
-- internal/grpc: the handlers of the RPCs.
pub mod Status
pub mod Sorting
pub mod Crypto
pub mod Policy
pub mod Keys
