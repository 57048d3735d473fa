-- ===== src/Cache/Places.antt =====
-- Elements found by key, and lists whose elements differ pairwise in address and in key.
use citius_server.Prelude.{
  ℕ, suc, ◌≡◌, refl, sym, ◌∙◌, subst, ◌≢◌, inl, inr, false, Option, none, some, List, [], ◌∷◌,
  arith, if◌then◌else◌, Bool-cases, length, Eq, ◌==◌, All,
}
use citius_server.Cache.Elements.{Element, find, without, set_entry, back}

module _ {ℓ} {K V : Type ℓ} ⦃e : Eq K⦄ where
  unfoldable pub find_key : K → List (Element K V) → Option (Element K V)
  find_key k [] = none
  find_key k (x ∷ l) = if x.key == k then some x else find_key k l

  unfoldable pub without_key : K → List (Element K V) → List (Element K V)
  without_key k [] = []
  without_key k (x ∷ l) = if x.key == k then l else x ∷ without_key k l

module _ {ℓ} {K V : Type ℓ} where
  abbrev pub Apart : Element K V → Element K V → Type ℓ
  Apart x y = (x.id ≢ y.id) × (x.key ≢ y.key)

  abbrev pub Separate : List (Element K V) → Type ℓ
  Separate [] = Unit
  Separate (x ∷ l) = All (Apart x) l × Separate l

  unfoldable pub drop_back : List (Element K V) → List (Element K V)
  drop_back [] = []
  drop_back (x ∷ []) = []
  drop_back (x ∷ y ∷ l) = x ∷ drop_back (y ∷ l)

module _ {ℓ κ} {K V : Type ℓ} ⦃e : Eq K⦄ (P : Element K V → Type κ) where
  pub All-find_key :
      (k : K) (l : List (Element K V)) {x : Element K V} → All P l → find_key k l ≡ some x → P x
  unfolding find_key
  All-find_key k [] h f = absurd (ground arith)
  All-find_key k (y ∷ l) {x} h f = elim (Bool-cases (y.key == k)) [
    | inl here ↦ let same : y ≡ x = ground arith in subst P same h.0
    | inr there ↦ All-find_key k l h.1 (rw there at f)
  ]

  pub All-without_key : (k : K) (l : List (Element K V)) → All P l → All P (without_key k l)
  unfolding without_key
  All-without_key k [] h = h
  All-without_key k (y ∷ l) h = elim (Bool-cases (y.key == k)) [
    | inl here ↦ rw here h.1
    | inr there ↦ rw there (h.0, All-without_key k l h.1)
  ]

module _ {ℓ} {K V : Type ℓ} ⦃e : Eq K⦄ where
  pub key_of_find_key :
      (k : K) (l : List (Element K V)) {x : Element K V} → find_key k l ≡ some x → x.key ≡ k
  unfolding find_key
  key_of_find_key k [] f = absurd (ground arith)
  key_of_find_key k (y ∷ l) {x} f =
      ground (arith, e.beq_iff y.key k, λ (g : find_key k l ≡ some x). key_of_find_key k l g)

  pub find-find_key :
      (k : K) (l : List (Element K V)) {x : Element K V}
      → Separate l
      → find_key k l ≡ some x
      → find x.id l ≡ some x
  unfolding find find_key
  find-find_key k [] s f = absurd (ground arith)
  find-find_key k (y ∷ l) {x} s f = elim (Bool-cases (y.key == k)) [
    | inl here ↦ ground arith
    | inr there ↦
        let f' : find_key k l ≡ some x = rw there at f in
        let other : Apart y x = All-find_key (Apart y) k l s.0 f' in
        ground (arith, other.0, find-find_key k l s.1 f')
  ]

  -- To unlink the element of a key by its address is to unlink it by the key.
  pub without-find_key :
      (k : K) (l : List (Element K V)) {x : Element K V}
      → Separate l
      → find_key k l ≡ some x
      → without x.id l ≡ without_key k l
  unfolding without find_key without_key
  without-find_key k [] s f = refl
  without-find_key k (y ∷ l) {x} s f = elim (Bool-cases (y.key == k)) [
    | inl here ↦ ground arith
    | inr there ↦
        let f' : find_key k l ≡ some x = rw there at f in
        let other : Apart y x = All-find_key (Apart y) k l s.0 f' in
        ground (arith, other.0, without-find_key k l s.1 f')
  ]

  pub Apart-without_key :
      (k : K) (l : List (Element K V)) {x : Element K V}
      → Separate l
      → find_key k l ≡ some x
      → All (Apart x) (without_key k l)
  unfolding find_key without_key
  Apart-without_key k [] s f = tt
  Apart-without_key k (y ∷ l) {x} s f = elim (Bool-cases (y.key == k)) [
    | inl here ↦ let same : y ≡ x = ground arith in rw here (subst (λ z. All (Apart z) l) same s.0)
    | inr there ↦
        let f' : find_key k l ≡ some x = rw there at f in
        let other : Apart y x = All-find_key (Apart y) k l s.0 f' in
        rw there ((λ p. other.0 (sym p), λ p. other.1 (sym p)), Apart-without_key k l s.1 f')
  ]

  pub Separate-without_key :
      (k : K) (l : List (Element K V)) → Separate l → Separate (without_key k l)
  unfolding without_key
  Separate-without_key k [] s = s
  Separate-without_key k (y ∷ l) s = elim (Bool-cases (y.key == k)) [
    | inl here ↦ rw here s.1
    | inr there ↦ rw there (All-without_key (Apart y) k l s.0, Separate-without_key k l s.1)
  ]

  pub find_key-without_key_ne :
      (k j : K) (l : List (Element K V))
      → (k == j) ≡ false
      → find_key j (without_key k l) ≡ find_key j l
  unfolding find_key without_key
  find_key-without_key_ne k j [] h = refl
  find_key-without_key_ne k j (y ∷ l) h =
      ground (
        arith,
        e.beq_iff y.key k,
        e.beq_iff y.key j,
        e.beq_iff k j,
        find_key-without_key_ne k j l h,
      )

  find_key-none : (k : K) (l : List (Element K V)) → All (λ y. y.key ≢ k) l → find_key k l ≡ none
  unfolding find_key
  find_key-none k [] h = refl
  find_key-none k (y ∷ l) h = ground (arith, e.beq_iff y.key k, h.0, find_key-none k l h.1)

  pub none-find_key :
      (k : K) (l : List (Element K V)) → find_key k l ≡ none → All (λ y. k ≢ y.key) l
  unfolding find_key
  none-find_key k [] f = tt
  none-find_key k (y ∷ l) f = elim (Bool-cases (y.key == k)) [
    | inl here ↦ absurd (ground arith)
    | inr there ↦ (λ p. ground (arith, e.beq_iff y.key k), none-find_key k l (rw there at f))
  ]

  pub find_key-without_key_self :
      (k : K) (l : List (Element K V)) → Separate l → find_key k (without_key k l) ≡ none
  unfolding find_key without_key
  find_key-without_key_self k [] s = refl
  find_key-without_key_self k (y ∷ l) s = elim (Bool-cases (y.key == k)) [
    | inl here ↦ rw here (find_key-none k l (other_keys l s.0 ((e.beq_iff y.key k).0 here)))
    | inr there ↦ rw (there, find_key) (rw there (find_key-without_key_self k l s.1))
  ]
    where
      other_keys : (m : List (Element K V)) → All (Apart y) m → y.key ≡ k → All (λ z. z.key ≢ k) m
      other_keys [] h q = tt
      other_keys (z ∷ m) h q = (λ p. h.0.1 (q ∙ sym p), other_keys m h.1 q)

  pub length-without_key :
      (k : K) (l : List (Element K V)) {x : Element K V}
      → find_key k l ≡ some x
      → suc (length (without_key k l)) ≡ length l
  unfolding find_key without_key
  length-without_key k [] f = absurd (ground arith)
  length-without_key k (y ∷ l) {x} f =
      ground (arith, λ (g : find_key k l ≡ some x). length-without_key k l g)

module _ {ℓ} {K V : Type ℓ} where
  pub find-set_entry :
      (i : ℕ) (k : K) (v : V) (l : List (Element K V)) {x : Element K V}
      → find i l ≡ some x
      → find i (set_entry i k v l) ≡ some (record { id = i; key = k; value = v })
  unfolding find set_entry
  find-set_entry i k v [] f = absurd (ground arith)
  find-set_entry i k v (y ∷ l) {x} f =
      ground (arith, λ (g : find i l ≡ some x). find-set_entry i k v l g)

  pub without-set_entry :
      (i : ℕ) (k : K) (v : V) (l : List (Element K V)) → without i (set_entry i k v l) ≡ without i l
  unfolding without set_entry
  without-set_entry i k v [] = refl
  without-set_entry i k v (y ∷ l) = ground (arith, without-set_entry i k v l)

  pub back-eq-none : (l : List (Element K V)) → back l ≡ none → l ≡ []
  unfolding back
  back-eq-none [] h = refl
  back-eq-none (x ∷ []) h = absurd (ground arith)
  back-eq-none (x ∷ y ∷ l) h = absurd (ground (arith, back-eq-none (y ∷ l) h))

module _ {ℓ} {K V : Type ℓ} where
  All-back :
      (P : Element K V → Type ℓ) (l : List (Element K V)) {o : Element K V}
      → All P l
      → back l ≡ some o
      → P o
  unfolding back
  All-back P [] h b = absurd (ground arith)
  All-back P (x ∷ []) {o} h b = let same : x ≡ o = ground arith in subst P same h.0
  All-back P (x ∷ y ∷ l) h b = All-back P (y ∷ l) h.1 b

module _ {ℓ} {K V : Type ℓ} ⦃e : Eq K⦄ where
  -- The last element is the one of its key, and unlinking it leaves all but the last.
  pub find_key-back :
      (l : List (Element K V)) {o : Element K V}
      → Separate l
      → back l ≡ some o
      → find_key o.key l ≡ some o
  unfolding find_key back
  find_key-back [] s b = absurd (ground arith)
  find_key-back (x ∷ []) {o} s b = ground (arith, e.beq_iff x.key o.key)
  find_key-back (x ∷ y ∷ l) {o} s b =
      let other : Apart x o = All-back (Apart x) (y ∷ l) s.0 b in
      let h = find_key-back (y ∷ l) s.1 b in ground (arith, e.beq_iff x.key o.key, other.1, h)

  pub without_key-back :
      (l : List (Element K V)) {o : Element K V}
      → Separate l
      → back l ≡ some o
      → without_key o.key l ≡ drop_back l
  unfolding without_key back drop_back
  without_key-back [] s b = absurd (ground arith)
  without_key-back (x ∷ []) {o} s b = ground (arith, e.beq_iff x.key o.key)
  without_key-back (x ∷ y ∷ l) {o} s b =
      let other : Apart x o = All-back (Apart x) (y ∷ l) s.0 b in
      let h = without_key-back (y ∷ l) s.1 b in ground (arith, e.beq_iff x.key o.key, other.1, h)
