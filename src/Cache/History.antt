-- ===== src/Cache/History.antt =====
-- Any sequence of calls, from a new cache.
use citius_server.Prelude.{◌≤◌, ◌≡◌, refl, ap, ◌∙◌, Option, none, List, [], ◌∷◌, arith, length, Eq}
use citius_server.Prelude.Int.{ℤ}
use mathlib.Core.Path.{ap₂}
use citius_server.Cache.Lru
use citius_server.Cache.Lru.{LruCache, new_lru_cache}
use citius_server.Cache.Recency.{recent_get, recent_put, forget, entries, length-entries}
use citius_server.Cache.Valid.{limit, IsValid, new_lru_cache-IsValid}
use citius_server.Cache.Refines.{get-recent_get, put-recent_put, remove-forget}

pub data Call {ℓ} (K V : Type ℓ) : Type ℓ where
  get : K → Call K V
  put : K → V → Call K V
  remove : K → Call K V

module _ {ℓ} {K V : Type ℓ} ⦃e : Eq K⦄ where
  -- What the calls return, `none` for a call that returns nothing, and the cache after them.
  unfoldable pub run : List (Call K V) → LruCache K V → List (Option V) × LruCache K V
  run [] c = ([], c)
  run (get k ∷ calls) c = let (v, c') = Lru.get k c in let (vs, d) = run calls c' in (v ∷ vs, d)
  run (put k v ∷ calls) c = let (vs, d) = run calls (Lru.put k v c) in (none ∷ vs, d)
  run (remove k ∷ calls) c = let (vs, d) = run calls (Lru.remove k c) in (none ∷ vs, d)

  -- The same on the list of entries by recency.
  unfoldable pub run_recent : ℤ → List (Call K V) → List (K × V) → List (Option V) × List (K × V)
  run_recent capacity [] l = ([], l)
  run_recent capacity (get k ∷ calls) l =
      let (v, m) = recent_get k l in let (vs, n) = run_recent capacity calls m in (v ∷ vs, n)
  run_recent capacity (put k v ∷ calls) l =
      let (vs, n) = run_recent capacity calls (recent_put capacity k v l) in (none ∷ vs, n)
  run_recent capacity (remove k ∷ calls) l =
      let (vs, n) = run_recent capacity calls (forget k l) in (none ∷ vs, n)

  -- `c` stands for the list `l` under a capacity.
  pub record Stands (capacity : ℤ) (l : List (K × V)) (c : LruCache K V) : Type ℓ where
    pub valid : IsValid c
    pub holds : entries c.order ≡ l
    pub same : c.capacity ≡ capacity

  run_from :
      (capacity : ℤ) (calls : List (Call K V)) (l : List (K × V)) (c : LruCache K V)
      → Stands capacity l c
      → ((run calls c).0 ≡ (run_recent capacity calls l).0)
        × Stands capacity (run_recent capacity calls l).1 (run calls c).1
  unfolding run run_recent
  run_from capacity [] l c s = (refl, s)
  run_from capacity (get k ∷ calls) l c s =
      let (value, holds, valid, same) = get-recent_get k c s.valid in
      let (vs, t) =
        run_from capacity calls (recent_get k l).1 (Lru.get k c).1
          (record { valid = valid; holds = rw (← s.holds) holds; same = same ∙ s.same }) in
      (ap₂ ◌∷◌ (rw (← s.holds) value) vs, t)
  run_from capacity (put k v ∷ calls) l c s =
      let (holds, valid, same) = put-recent_put k v c s.valid in
      let (vs, t) =
        run_from capacity calls (recent_put capacity k v l) (Lru.put k v c) (record {
          valid = valid;
          holds = rw (← s.holds, ← s.same) holds;
          same = same ∙ s.same;
        }) in
      (ap (◌∷◌ none) vs, t)
  run_from capacity (remove k ∷ calls) l c s =
      let (holds, valid, same) = remove-forget k c s.valid in
      let (vs, t) =
        run_from capacity calls (forget k l) (Lru.remove k c)
          (record { valid = valid; holds = rw (← s.holds) holds; same = same ∙ s.same }) in
      (ap (◌∷◌ none) vs, t)

  -- Whatever is called on a new cache of any capacity, negative ones included, each `get` returns
  -- what the list of entries by recency returns, that list is what the cache holds in the end, and
  -- it holds no more entries than the capacity, or one if the capacity is smaller.
  pub run-run_recent :
      (capacity : ℤ) (calls : List (Call K V))
      → ((run calls (new_lru_cache capacity)).0 ≡ (run_recent capacity calls []).0)
        × (entries (run calls (new_lru_cache capacity)).1.order ≡ (run_recent capacity calls []).1)
        × (length (run_recent capacity calls []).1 ≤ limit capacity)
  run-run_recent capacity calls =
      let (vs, t) = run_from capacity calls [] (new_lru_cache capacity) (record {
        valid = new_lru_cache-IsValid capacity;
        holds = unfold new_lru_cache in refl;
        same = unfold new_lru_cache in refl;
      }) in
      (
        vs,
        t.holds,
        omega (
          arith,
          ap length t.holds,
          ap limit t.same,
          t.valid.bounded,
          length-entries (run calls (new_lru_cache capacity)).1.order,
        ),
      )
