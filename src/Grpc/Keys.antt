-- ===== src/Grpc/Keys.antt =====
-- internal/grpc/keymanagement: the key management RPCs.
pub mod Listing
pub mod Laws
pub mod Paged
pub mod Tests
