-- ===== src/Cache.antt =====
-- vault-storage/key/cache.go: the LRU cache of the key repository.
mod Elements
mod Lru
mod Places
mod Recency
mod Valid
mod Refines
mod History
mod Cached
mod Tests
pub use Lru.{LruCache}
unfoldable pub use Elements.{find, without, move_to_front}
unfoldable pub use Lru.{new_lru_cache, get, put, remove}
pub use Valid.{IsValid, new_lru_cache-IsValid}
pub use Cached.{cached, cached-new_lru_cache, cached-get, cached-put, cached-remove}
pub use Refines.{get-recent_get, put-recent_put, remove-forget}
