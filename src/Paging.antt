-- ===== src/Paging.antt =====
-- internal/grpc/paging/paging.go: the page tokens that the list RPCs share.
mod Window
mod Walk
mod Tests
unfoldable pub use Window.{window}
pub use Window.{Page}
unfoldable pub use Walk.{collect, collect_next}
pub use Walk.{collect_all}
