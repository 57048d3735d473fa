-- ===== src/Cache/Elements.antt =====
-- Go's `container/list` as the cache uses it. An element stands for the pointer to it: `id` is its
-- address, and the front of the list comes first.
use citius_server.Prelude.{ℕ, Option, none, some, List, [], ◌∷◌, eqb, if◌then◌else◌}

pub record Element {ℓ} (K V : Type ℓ) : Type ℓ where
  pub id : ℕ
  pub key : K
  pub value : V

module _ {ℓ} {K V : Type ℓ} where
  -- The element that a pointer refers to.
  unfoldable pub find : ℕ → List (Element K V) → Option (Element K V)
  find i [] = none
  find i (e ∷ l) = if eqb e.id i then some e else find i l

  -- `l.Remove(el)`
  unfoldable pub without : ℕ → List (Element K V) → List (Element K V)
  without i [] = []
  without i (e ∷ l) = if eqb e.id i then l else e ∷ without i l

  to_front : List (Element K V) → ℕ → Option (Element K V) → List (Element K V)
  unfolding without
  to_front l i none = l
  to_front l i (some e) = e ∷ without i l

  -- `l.MoveToFront(el)`, which does nothing for an element of another list.
  unfoldable pub move_to_front : ℕ → List (Element K V) → List (Element K V)
  unfolding find to_front
  move_to_front i l = to_front l i (find i l)

  -- `el.Value = &cacheEntry{key, value}`
  unfoldable pub set_entry : ℕ → K → V → List (Element K V) → List (Element K V)
  set_entry i k v [] = []
  set_entry i k v (e ∷ l) =
      if eqb e.id i then record { id = e.id; key = k; value = v } ∷ l else e ∷ set_entry i k v l

  -- `l.Back()`
  unfoldable pub back : List (Element K V) → Option (Element K V)
  back [] = none
  back (e ∷ []) = some e
  back (e ∷ f ∷ l) = back (f ∷ l)
