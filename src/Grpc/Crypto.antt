-- ===== src/Grpc/Crypto.antt =====
-- internal/grpc/crypto/crypto_handler.go: the data-plane RPCs.
pub mod Messages
pub mod Handler
pub mod Authorization
pub mod RoundTrip
pub mod Tests
