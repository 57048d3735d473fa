-- ===== src/Cache/Valid.antt =====
-- The invariant of the cache, and what its methods do to the element of a key that is there.
use citius_server.Prelude.{
  ℕ, ◌≤◌, ◌<◌, max, ◌≡◌, refl, sym, ◌∙◌, Option, none, some, List, [], ◌∷◌, arith, length, Eq,
  text_Eq, All,
}
use citius_server.Prelude.Int.{ℤ, pos, negsuc}
use citius_server.Cache.Elements.{Element, move_to_front}
use citius_server.Cache.Lru.{LruCache, new_lru_cache, assign, get, put, remove}
use citius_server.Cache.Places.{
  Apart, Separate, find_key, without_key, All-find_key, All-without_key, key_of_find_key,
  find-find_key, without-find_key, Apart-without_key, Separate-without_key, find_key-without_key_ne,
  find_key-without_key_self, length-without_key, find-set_entry, without-set_entry,
}
use citius_server.Cache.Recency.{forget, entries, forget-entries}

-- The number of entries that a cache of a capacity may hold: one at least, since `put` evicts first
-- and then stores whatever the capacity is.
abbrev pub limit : ℤ → ℕ
limit (pos n) = max 1 n
limit (negsuc n) = 1

abbrev id_of {ℓ} : {K V : Type ℓ} → Option (Element K V) → Option ℕ
id_of none = none
id_of (some x) = some x.id

module _ {ℓ} {K V : Type ℓ} ⦃e : Eq K⦄ where
  -- The map and the list agree, no key and no address occurs twice, and the size is bounded.
  pub record IsValid (c : LruCache K V) : Type ℓ where
    pub linked : (k : K) → c.items k ≡ id_of (find_key k c.order)
    pub separate : Separate c.order
    pub below : All (λ x. x.id < c.fresh) c.order
    pub bounded : length c.order ≤ limit c.capacity

  pub new_lru_cache-IsValid : (capacity : ℤ) → IsValid (new_lru_cache {K = K} {V = V} capacity)
  unfolding new_lru_cache find_key
  new_lru_cache-IsValid (pos n) = record {
    linked = λ k. refl;
    separate = tt;
    below = tt;
    bounded = omega arith;
  }
  new_lru_cache-IsValid (negsuc n) = record {
    linked = λ k. refl;
    separate = tt;
    below = tt;
    bounded = omega arith;
  }

  Apart-alike :
      (x y : Element K V) (l : List (Element K V))
      → y.id ≡ x.id
      → y.key ≡ x.key
      → All (Apart x) l
      → All (Apart y) l
  Apart-alike x y [] p q h = tt
  Apart-alike x y (z ∷ l) p q h =
      ((λ r. h.0.0 (sym p ∙ r), λ r. h.0.1 (sym q ∙ r)), Apart-alike x y l p q h.1)

  module _ (c : LruCache K V) (k : K) {x : Element K V} (v : IsValid c)
      (f : find_key k c.order ≡ some x) where
    -- The element of a key, with its value or a new one, moved to the front.
    pub touch-IsValid :
        (y : Element K V)
        → y.id ≡ x.id
        → y.key ≡ k
        → IsValid (record c { order = y ∷ without_key k c.order })
    unfolding find_key
    touch-IsValid y p q = record {
      linked = λ j. ground (
        arith,
        v.linked j,
        v.linked k,
        e.beq_iff y.key j,
        e.beq_iff k j,
        find_key-without_key_ne k j c.order,
      );
      separate = (
        Apart-alike x y _ p (q ∙ sym (key_of_find_key k c.order f))
            (Apart-without_key k c.order v.separate f),
        Separate-without_key k c.order v.separate,
      );
      below = (
        rw p (All-find_key (λ z. z.id < c.fresh) k c.order v.below f),
        All-without_key (λ z. z.id < c.fresh) k c.order v.below,
      );
      bounded = omega (arith, length-without_key k c.order f, v.bounded);
    }

    pub forget-IsValid :
        IsValid (record c { order = without_key k c.order; items = assign k none c.items })
    forget-IsValid = record {
      linked = λ j. ground (
        arith,
        v.linked j,
        e.beq_iff k j,
        find_key-without_key_ne k j c.order,
        find_key-without_key_self k c.order v.separate,
      );
      separate = Separate-without_key k c.order v.separate;
      below = All-without_key (λ z. z.id < c.fresh) k c.order v.below;
      bounded = omega (arith, length-without_key k c.order f, v.bounded);
    }

    pub get_hit : get k c ≡ (some x.value, record c { order = x ∷ without_key k c.order })
    unfolding get move_to_front
    get_hit = ground (
      arith,
      v.linked k,
      find-find_key k c.order v.separate f,
      without-find_key k c.order v.separate f,
    )

    pub put_hit :
        (value : V)
        → put k value c ≡ record c {
          order = record { id = x.id; key = k; value = value } ∷ without_key k c.order;
        }
    unfolding put move_to_front
    put_hit value =
        let found = find-set_entry x.id k value c.order (find-find_key k c.order v.separate f) in
        ground (
          arith,
          v.linked k,
          found,
          without-set_entry x.id k value c.order,
          without-find_key k c.order v.separate f,
        )

    pub remove_hit :
        remove k c ≡ record c { order = without_key k c.order; items = assign k none c.items }
    unfolding remove
    remove_hit = ground (arith, v.linked k, without-find_key k c.order v.separate f)

    pub entries_hit :
        (value : V) (i : ℕ)
        → entries (record { id = i; key = k; value = value } ∷ without_key k c.order)
          ≡ (k, value) ∷ forget k (entries c.order)
    entries_hit value i = rw forget-entries
