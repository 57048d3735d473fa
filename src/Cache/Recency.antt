-- ===== src/Cache/Recency.antt =====
-- What the cache promises: a list of entries, the most recently used first, with each key once.
use citius_server.Prelude.{
  ◌≡◌, refl, ap, Option, none, some, List, [], ◌∷◌, arith, if◌then◌else◌, length, Eq, ◌==◌,
}
use citius_server.Prelude.Int.{ℤ}
use citius_server.Prelude.{lookup}
use citius_server.Cache.Elements.{Element}
use citius_server.Cache.Lru.{reaches}
use citius_server.Cache.Places.{find_key, without_key, drop_back}

module _ {ℓ} {K V : Type ℓ} where
  unfoldable pub drop_last : List (K × V) → List (K × V)
  drop_last [] = []
  drop_last (x ∷ []) = []
  drop_last (x ∷ y ∷ l) = x ∷ drop_last (y ∷ l)

module _ {ℓ} {K V : Type ℓ} ⦃e : Eq K⦄ where
  unfoldable pub forget : K → List (K × V) → List (K × V)
  forget k [] = []
  forget k ((j, v) ∷ l) = if j == k then l else (j, v) ∷ forget k l

  -- A use moves the entry to the front.
  unfoldable pub recent_get : K → List (K × V) → Option V × List (K × V)
  recent_get k l = elim (lookup k l) [ none ↦ (none, l) | some v ↦ (some v, (k, v) ∷ forget k l) ]

  -- A store of a new key into a full cache drops the least recently used entry.
  unfoldable pub recent_put : ℤ → K → V → List (K × V) → List (K × V)
  recent_put capacity k v l = elim (lookup k l) [
    | none ↦ (k, v) ∷ (if reaches (length l) capacity then drop_last l else l)
    | some _ ↦ (k, v) ∷ forget k l
  ]

-- The entries that the elements of the linked list hold.
abbrev pub entries {ℓ} : {K V : Type ℓ} → List (Element K V) → List (K × V)
entries [] = []
entries (x ∷ l) = (x.key, x.value) ∷ entries l

module _ {ℓ} {K V : Type ℓ} where
  pub length-entries : (l : List (Element K V)) → length (entries l) ≡ length l
  length-entries [] = refl
  length-entries (x ∷ l) = omega (arith, length-entries l)

  pub drop_last-entries : (l : List (Element K V)) → drop_last (entries l) ≡ entries (drop_back l)
  unfolding drop_last drop_back
  drop_last-entries [] = refl
  drop_last-entries (x ∷ []) = refl
  drop_last-entries (x ∷ y ∷ l) = ap (◌∷◌ (x.key, x.value)) (drop_last-entries (y ∷ l))

module _ {ℓ} {K V : Type ℓ} ⦃e : Eq K⦄ where
  pub lookup-entries-some :
      (k : K) (l : List (Element K V)) {x : Element K V}
      → find_key k l ≡ some x
      → lookup k (entries l) ≡ some x.value
  unfolding lookup find_key
  lookup-entries-some k [] f = absurd (ground arith)
  lookup-entries-some k (y ∷ l) {x} f =
      ground (arith, λ (g : find_key k l ≡ some x). lookup-entries-some k l g)

  pub lookup-entries-none :
      (k : K) (l : List (Element K V)) → find_key k l ≡ none → lookup k (entries l) ≡ none
  unfolding lookup find_key
  lookup-entries-none k [] f = refl
  lookup-entries-none k (y ∷ l) f = ground (arith, lookup-entries-none k l)

  pub forget-entries :
      (k : K) (l : List (Element K V)) → forget k (entries l) ≡ entries (without_key k l)
  unfolding forget without_key
  forget-entries k [] = refl
  forget-entries k (y ∷ l) = ground (arith, forget-entries k l)
