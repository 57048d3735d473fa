-- ===== src/Cache/Lru.antt =====
-- `lruCache` and its methods. The map is a function; an element removed from the list is removed
-- from the map in the same call, so the map holds elements of the list only (`Refines`).
use citius_server.Prelude.{
  ℕ, suc, Bool, true, Option, none, some, List, [], ◌∷◌, leb, if◌then◌else◌, length, Eq, ◌==◌,
  text_Eq,
}
use citius_server.Prelude.Int.{ℤ, pos, negsuc}
use citius_server.Cache.Elements.{Element, find, without, move_to_front, set_entry, back}

pub record LruCache {ℓ} (K V : Type ℓ) : Type ℓ where
  pub capacity : ℤ
  pub items : K → Option ℕ
  pub order : List (Element K V)
  -- The address of the next element that `PushFront` allocates.
  pub fresh : ℕ

-- `n >= capacity`, where the capacity is an `int`.
abbrev pub reaches : ℕ → ℤ → Bool
reaches n (pos c) = leb c n
reaches n (negsuc c) = true

unfoldable pub new_lru_cache {ℓ} : {K V : Type ℓ} → ℤ → LruCache K V
new_lru_cache capacity = record { capacity = capacity; items = λ _. none; order = []; fresh = 0 }

-- `items[key] = el`, and `delete(items, key)` with `none`.
abbrev pub assign {ℓ} : {K : Type ℓ} ⦃e : Eq K⦄ → K → Option ℕ → (K → Option ℕ) → K → Option ℕ
assign k el items = λ j. if k == j then el else items j

module _ {ℓ} {K V : Type ℓ} ⦃e : Eq K⦄ where
  value_of : Option (Element K V) → Option V
  value_of none = none
  value_of (some el) = some el.value

  get_element : LruCache K V → Option ℕ → Option V × LruCache K V
  unfolding value_of
  get_element c none = (none, c)
  get_element c (some el) =
      (value_of (find el c.order), record c { order = move_to_front el c.order })

  unfoldable pub get : K → LruCache K V → Option V × LruCache K V
  unfolding get_element
  get key c = get_element c (c.items key)

  drop_oldest : LruCache K V → Option (Element K V) → LruCache K V
  drop_oldest c none = c
  drop_oldest c (some oldest) = record c {
    order = without oldest.id c.order;
    items = assign oldest.key none c.items;
  }

  unfoldable pub make_room : LruCache K V → LruCache K V
  unfolding drop_oldest
  make_room c = if reaches (length c.order) c.capacity then drop_oldest c (back c.order) else c

  unfoldable pub push_front : K → V → LruCache K V → LruCache K V
  push_front key value c = record c {
    order = record { id = c.fresh; key = key; value = value } ∷ c.order;
    items = assign key (some c.fresh) c.items;
    fresh = suc c.fresh;
  }

  put_element : K → V → LruCache K V → Option ℕ → LruCache K V
  unfolding make_room push_front
  put_element key value c (some el) = record c {
    order = move_to_front el (set_entry el key value c.order);
  }
  put_element key value c none = push_front key value (make_room c)

  unfoldable pub put : K → V → LruCache K V → LruCache K V
  unfolding put_element
  put key value c = put_element key value c (c.items key)

  remove_element : K → LruCache K V → Option ℕ → LruCache K V
  remove_element key c none = c
  remove_element key c (some el) = record c {
    order = without el c.order;
    items = assign key none c.items;
  }

  unfoldable pub remove : K → LruCache K V → LruCache K V
  unfolding remove_element
  remove key c = remove_element key c (c.items key)
