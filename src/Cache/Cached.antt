-- ===== src/Cache/Cached.antt =====
-- What a cache holds for a key, which is all that its user depends on.
use citius_server.Prelude.{
  ◌≡◌, refl, sym, ap, ◌∙◌, ◌⊎◌, inl, inr, false, Option, none, some, List, [], ◌∷◌, arith,
  if◌then◌else◌, Bool-cases, Option-cases, Eq, ◌==◌,
}
use citius_server.Prelude.{lookup}
use citius_server.Prelude.Int.{ℤ}
use citius_server.Cache.Elements.{Element}
use citius_server.Cache.Lru.{LruCache, new_lru_cache, get, put, remove}
use citius_server.Cache.Places.{Separate, without_key, find_key-without_key_self}
use citius_server.Cache.Recency.{
  drop_last, forget, recent_get, recent_put, entries, lookup-entries-none, forget-entries,
}
use citius_server.Cache.Valid.{IsValid}
use citius_server.Cache.Refines.{get-recent_get, put-recent_put, remove-forget}

module _ {ℓ} {K V : Type ℓ} ⦃e : Eq K⦄ where
  pub cached : K → LruCache K V → Option V
  cached k c = lookup k (entries c.order)

  pub cached-new_lru_cache :
      (capacity : ℤ) (k : K) → cached k (new_lru_cache {V = V} capacity) ≡ none
  unfolding cached new_lru_cache lookup
  cached-new_lru_cache capacity k = refl

  lookup-drop_last :
      (k : K) (l : List (K × V)) {v : V} → lookup k (drop_last l) ≡ some v → lookup k l ≡ some v
  unfolding lookup drop_last
  lookup-drop_last k [] h = h
  lookup-drop_last k (x ∷ []) h = absurd (ground arith)
  lookup-drop_last k ((j, u) ∷ y ∷ l) {v} h =
      ground (arith, λ (g : lookup k (drop_last (y ∷ l)) ≡ some v). lookup-drop_last k (y ∷ l) g)

  lookup-forget_ne :
      (k j : K) (l : List (K × V)) → (k == j) ≡ false → lookup j (forget k l) ≡ lookup j l
  unfolding lookup forget
  lookup-forget_ne k j [] h = refl
  lookup-forget_ne k j ((i, u) ∷ l) h =
      ground (arith, e.beq_iff i k, e.beq_iff i j, e.beq_iff k j, lookup-forget_ne k j l h)

  result-recent_get : (k : K) (l : List (K × V)) → (recent_get k l).0 ≡ lookup k l
  unfolding recent_get
  result-recent_get k l = ground arith

  lookup-recent_get : (k j : K) (l : List (K × V)) → lookup j (recent_get k l).1 ≡ lookup j l
  unfolding recent_get
  lookup-recent_get k j l = elim (Option-cases (lookup k l)) [
    | inl miss ↦ rw (miss, recent_get) refl
    | inr (v, hit) ↦
        rw (hit, recent_get)
          (elim (Bool-cases (k == j)) [
            | inl same ↦
                unfold lookup in rw same (sym hit ∙ ap (λ i. lookup i l) ((e.beq_iff k j).0 same))
            | inr other ↦ unfold lookup in rw other (lookup-forget_ne k j l other)
          ])
  ]

  lookup-recent_put :
      (capacity : ℤ) (k : K) (v : V) (j : K) (l : List (K × V)) {w : V}
      → lookup j (recent_put capacity k v l) ≡ some w
      → ((k ≡ j) × (w ≡ v)) ⊎ (lookup j l ≡ some w)
  unfolding recent_put lookup
  lookup-recent_put capacity k v j l {w} h = ground (
    arith,
    e.beq_iff k j,
    λ (n : (k == j) ≡ false). lookup-forget_ne k j l n,
    λ (g : lookup j (drop_last l) ≡ some w). lookup-drop_last j l g,
  )

  lookup-forget-entries :
      (k j : K) (l : List (Element K V))
      → Separate l
      → lookup j (forget k (entries l)) ≡ (if k == j then none else lookup j (entries l))
  lookup-forget-entries k j l s = elim (Bool-cases (k == j)) [
    | inr other ↦ rw other (lookup-forget_ne k j (entries l) other)
    | inl same ↦
        rw (same, ← (e.beq_iff k j).0 same, forget-entries)
          (lookup-entries-none k (without_key k l) (find_key-without_key_self k l s))
  ]

  -- `get` returns what is cached for its key, and changes what is cached for none.
  pub cached-get :
      (k : K) (c : LruCache K V)
      → IsValid c
      → ((get k c).0 ≡ cached k c)
        × ((j : K) → cached j (get k c).1 ≡ cached j c)
        × IsValid (get k c).1
  unfolding cached
  cached-get k c v =
      let (value, holds, valid, _) = get-recent_get k c v in
      (
        value ∙ result-recent_get k (entries c.order),
        λ j. ap (lookup j) holds ∙ lookup-recent_get k j (entries c.order),
        valid,
      )

  pub cached-put :
      (k : K) (value : V) (c : LruCache K V)
      → IsValid c
      → (j : K) {w : V} → cached j (put k value c) ≡ some w
      → ((k ≡ j) × (w ≡ value)) ⊎ (cached j c ≡ some w)
  unfolding cached
  cached-put k value c v j h =
      let (holds, _, _) = put-recent_put k value c v in
      lookup-recent_put c.capacity k value j (entries c.order) (sym (ap (lookup j) holds) ∙ h)

  pub cached-remove :
      (k : K) (c : LruCache K V)
      → IsValid c
      → (j : K) → cached j (remove k c) ≡ (if k == j then none else cached j c)
  unfolding cached
  cached-remove k c v j =
      let (holds, _, _) = remove-forget k c v in
      ap (lookup j) holds ∙ lookup-forget-entries k j c.order v.separate
