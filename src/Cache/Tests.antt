-- ===== src/Cache/Tests.antt =====
-- The cache on concrete calls.
use citius_server.Prelude.{
  ℕ, ◌≤◌, ◌≡◌, refl, none, some, List, [], ◌∷◌, length, Text, codes, text_Eq,
}
use citius_server.Prelude.Int.{pos}
use citius_server.Cache.History.{Call, get, put, remove, run, run_recent, run-run_recent}
use citius_server.Cache.Elements.{find, move_to_front, back}
use citius_server.Cache.Lru
use citius_server.Cache.Lru.{LruCache, new_lru_cache}
use citius_server.Cache.Valid.{limit}
use citius_server.Cache.Recency.{entries}

abbrev calls : List (Call Text ℕ)
calls =
    put (codes "a") 1
    ∷ put (codes "b") 2
    ∷ get (codes "a")
    ∷ put (codes "c") 3
    ∷ get (codes "b")
    ∷ remove (codes "a")
    ∷ []

run-run_recent_example :
    ((run calls (new_lru_cache (pos 2))).0 ≡ (run_recent (pos 2) calls []).0)
    × (entries (run calls (new_lru_cache (pos 2))).1.order ≡ (run_recent (pos 2) calls []).1)
    × (length (run_recent (pos 2) calls []).1 ≤ limit (pos 2))
run-run_recent_example = run-run_recent (pos 2) calls

run_lem : (run calls (new_lru_cache (pos 2))).0 ≡ none ∷ none ∷ some 1 ∷ none ∷ none ∷ none ∷ []
unfolding run new_lru_cache Lru.get Lru.put Lru.remove find move_to_front back
run_lem = refl
