-- ===== src/Cache/Refines.antt =====
-- The map, the linked list and the addresses of the cache together are a list of entries by
-- recency, and each method is the operation on that list.
use citius_server.Prelude.{
  ℕ, suc, ◌≤◌, ◌<◌, ◌≡◌, refl, ap, ◌≢◌, inl, inr, true, false, none, some, List, [], ◌∷◌, arith,
  if◌then◌else◌, Bool-cases, Option-cases, length, Eq, All,
}
use citius_server.Prelude.{lookup}
use citius_server.Prelude.Int.{ℤ, pos, negsuc}
use citius_server.Cache.Elements.{Element, back}
use citius_server.Cache.Lru.{LruCache, reaches, get, put, remove, make_room, push_front}
use citius_server.Cache.Places.{
  Apart, find_key, none-find_key, without-find_key, find_key-without_key_ne, back-eq-none,
  find_key-back, without_key-back, key_of_find_key, length-without_key,
}
use citius_server.Cache.Recency.{
  drop_last, forget, recent_get, recent_put, entries, length-entries, drop_last-entries,
  lookup-entries-some, lookup-entries-none, forget-entries,
}
use citius_server.Cache.Valid.{
  limit, IsValid, touch-IsValid, forget-IsValid, get_hit, put_hit, remove_hit, entries_hit,
}

limit_pos : (z : ℤ) → 1 ≤ limit z
limit_pos (pos n) = omega arith
limit_pos (negsuc n) = omega arith

room_of_spare : (n : ℕ) (z : ℤ) → reaches n z ≡ false → suc n ≤ limit z
room_of_spare n (pos c) h = ground arith
room_of_spare n (negsuc c) h = absurd (ground arith)

module _ {ℓ} {K V : Type ℓ} ⦃e : Eq K⦄ where
  -- A cache into which `make_room` has made room for the key `k`.
  record HasRoom (k : K) (c d : LruCache K V) : Type ℓ where
    valid : IsValid d
    fits : suc (length d.order) ≤ limit d.capacity
    absent : find_key k d.order ≡ none
    capacity : d.capacity ≡ c.capacity
    holds : entries d.order ≡ (
        if reaches (length (entries c.order)) c.capacity
        then drop_last (entries c.order)
        else entries c.order)

  full_room :
      (k : K) (c : LruCache K V) (o : Element K V)
      → IsValid c
      → find_key k c.order ≡ none
      → reaches (length c.order) c.capacity ≡ true
      → back c.order ≡ some o
      → HasRoom k c (make_room c)
  unfolding make_room
  full_room k c o v f full b =
      let found = find_key-back c.order v.separate b in
      rw (full, b, make_room, without-find_key o.key c.order v.separate found)
        (record {
          valid = forget-IsValid c o.key v found;
          fits = omega (arith, length-without_key o.key c.order found, v.bounded);
          absent =
              ground (arith, f, found, e.beq_iff o.key k, find_key-without_key_ne o.key k c.order);
          capacity = refl;
          holds =
              rw (length-entries c.order, full, drop_last-entries c.order)
                (ap entries (without_key-back c.order v.separate b));
        })

  empty_room :
      (k : K) (c : LruCache K V)
      → IsValid c
      → find_key k c.order ≡ none
      → reaches (length c.order) c.capacity ≡ true
      → back c.order ≡ none
      → HasRoom k c (make_room c)
  unfolding make_room
  empty_room k c v f full b =
      let empty = back-eq-none c.order b in
      rw (full, b, make_room)
        (record {
          valid = v;
          fits = omega (arith, ap length empty, limit_pos c.capacity);
          absent = f;
          capacity = refl;
          holds = rw (length-entries c.order, full) (rw empty (unfold drop_last in refl));
        })

  spare_room :
      (k : K) (c : LruCache K V)
      → IsValid c
      → find_key k c.order ≡ none
      → reaches (length c.order) c.capacity ≡ false
      → HasRoom k c (make_room c)
  unfolding make_room
  spare_room k c v f spare = rw spare (record {
    valid = v;
    fits = room_of_spare (length c.order) c.capacity spare;
    absent = f;
    capacity = refl;
    holds = rw (length-entries c.order, spare);
  })

  push-IsValid :
      (k : K) (value : V) (c d : LruCache K V) → HasRoom k c d → IsValid (push_front k value d)
  unfolding push_front find_key
  push-IsValid k value c d r = record {
    linked = λ j. ground (arith, r.valid.linked j, e.beq_iff k j);
    separate =
        (new_apart d.order r.valid.below (none-find_key k d.order r.absent), r.valid.separate);
    below = (omega arith, raise d.order r.valid.below);
    bounded = r.fits;
  }
    where
      new_apart :
          (l : List (Element K V))
          → All (λ x. x.id < d.fresh) l
          → All (λ x. k ≢ x.key) l
          → All (Apart (record { id = d.fresh; key = k; value = value })) l
      new_apart [] b n = tt
      new_apart (x ∷ l) b n = ((λ p. absurd (omega (arith, p, b.0)), n.0), new_apart l b.1 n.1)

      raise :
          (l : List (Element K V)) → All (λ x. x.id < d.fresh) l → All (λ x. x.id < suc d.fresh) l
      raise [] b = tt
      raise (x ∷ l) b = (omega (arith, b.0), raise l b.1)

  room :
      (k : K) (c : LruCache K V) → IsValid c → find_key k c.order ≡ none → HasRoom k c (make_room c)
  room k c v f = elim (Bool-cases (reaches (length c.order) c.capacity)) [
    | inr spare ↦ spare_room k c v f spare
    | inl full ↦ elim (Option-cases (back c.order)) [
      | inl b ↦ empty_room k c v f full b
      | inr (o, b) ↦ full_room k c o v f full b
    ]
  ]

  get_miss :
      (k : K) (c : LruCache K V) → IsValid c → find_key k c.order ≡ none → get k c ≡ (none, c)
  unfolding get
  get_miss k c v f = ground (arith, v.linked k)

  put_miss :
      (k : K) (value : V) (c : LruCache K V)
      → IsValid c
      → find_key k c.order ≡ none
      → put k value c ≡ push_front k value (make_room c)
  unfolding put
  put_miss k value c v f = rw (v.linked k, f) refl

  remove_miss : (k : K) (c : LruCache K V) → IsValid c → find_key k c.order ≡ none → remove k c ≡ c
  unfolding remove
  remove_miss k c v f = ground (arith, v.linked k)

  forget_absent : (k : K) (l : List (K × V)) → lookup k l ≡ none → forget k l ≡ l
  unfolding lookup forget
  forget_absent k [] f = refl
  forget_absent k ((j, v) ∷ l) f = ground (arith, forget_absent k l)

  key_first :
      {k : K} {l : List (K × V)} (x : Element K V)
      → x.key ≡ k
      → (x.key, x.value) ∷ l ≡ (k, x.value) ∷ l
  key_first x p = rw p

  -- On a valid cache `get` returns what the recency list holds for the key, moves it to the front
  -- and keeps the cache valid.
  pub get-recent_get :
      (k : K) (c : LruCache K V)
      → IsValid c
      → ((get k c).0 ≡ (recent_get k (entries c.order)).0)
        × (entries (get k c).1.order ≡ (recent_get k (entries c.order)).1)
        × IsValid (get k c).1
        × ((get k c).1.capacity ≡ c.capacity)
  unfolding recent_get
  get-recent_get k c v = elim (Option-cases (find_key k c.order)) [
    | inl miss ↦
        let absent = lookup-entries-none k c.order miss in
        rw (get_miss k c v miss, absent, recent_get) (refl, refl, v, refl)
    | inr (x, hit) ↦
        let present = lookup-entries-some k c.order hit in
        rw (get_hit c k v hit, present, recent_get)
          (
            refl,
            rw forget-entries (key_first x (key_of_find_key k c.order hit)),
            touch-IsValid c k v hit x refl (key_of_find_key k c.order hit),
            refl,
          )
  ]

  -- On a valid cache `put` stores at the front; a new key in a full cache takes the place of the
  -- least recently used entry. The cache stays valid, and with that within its limit.
  pub put-recent_put :
      (k : K) (value : V) (c : LruCache K V)
      → IsValid c
      → (entries (put k value c).order ≡ recent_put c.capacity k value (entries c.order))
        × IsValid (put k value c)
        × ((put k value c).capacity ≡ c.capacity)
  unfolding recent_put
  put-recent_put k value c v = elim (Option-cases (find_key k c.order)) [
    | inl miss ↦
        let r = room k c v miss in
        rw (put_miss k value c v miss, lookup-entries-none k c.order miss, recent_put)
          (
            unfold push_front in ap (◌∷◌ (k, value)) r.holds,
            push-IsValid k value c (make_room c) r,
            unfold push_front in r.capacity,
          )
    | inr (x, hit) ↦
        rw (put_hit c k v hit value, lookup-entries-some k c.order hit, recent_put)
          (
            entries_hit c k v hit value x.id,
            touch-IsValid c k v hit (record { id = x.id; key = k; value = value }) refl refl,
            refl,
          )
  ]

  -- On a valid cache `remove` forgets the key, keeps every other entry in its place and keeps the
  -- cache valid.
  pub remove-forget :
      (k : K) (c : LruCache K V)
      → IsValid c
      → (entries (remove k c).order ≡ forget k (entries c.order))
        × IsValid (remove k c)
        × ((remove k c).capacity ≡ c.capacity)
  remove-forget k c v = elim (Option-cases (find_key k c.order)) [
    | inl miss ↦
        rw
          (
            remove_miss k c v miss,
            forget_absent k (entries c.order) (lookup-entries-none k c.order miss),
          )
          (refl, v, refl)
    | inr (x, hit) ↦
        rw (remove_hit c k v hit, forget-entries) (refl, forget-IsValid c k v hit, refl)
  ]
