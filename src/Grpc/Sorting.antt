-- ===== src/Grpc/Sorting.antt =====
-- `slices.SortFunc` with `strings.Compare` of names, which the listings of keys, templates and
-- providers use.
use citius_server.Prelude.{
  ◌≡◌, refl, inl, inr, Bool, true, false, ◌&&◌, List, [], ◌∷◌, arith, ltb, eqb, if◌then◌else◌,
  Bool-cases, Text,
}
use mathlib.Core.List.{Permᴰ}
use mathlib.Core.List.Permᴰ

-- `strings.Compare(s, t) <= 0`
abbrev pub text_leb : Text → Text → Bool
text_leb [] t = true
text_leb (c ∷ s) [] = false
text_leb (c ∷ s) (d ∷ t) = let rest = text_leb s t in if ltb c d then true else eqb c d && rest

text_leb_total : (s t : Text) → text_leb s t ≡ false → text_leb t s ≡ true
text_leb_total [] t h = absurd (ground arith)
text_leb_total (c ∷ s) [] h = refl
text_leb_total (c ∷ s) (d ∷ t) h = ground (arith, text_leb_total s t)

module _ {A : Type 0} (name : A → Text) where
  insert : A → List A → List A
  insert x [] = x ∷ []
  insert x (y ∷ ys) =
      let rest = insert x ys in if text_leb (name x) (name y) then x ∷ y ∷ ys else y ∷ rest

  unfoldable pub sort : List A → List A
  unfolding insert
  sort [] = []
  sort (x ∷ xs) = insert x (sort xs)

  -- In ascending order of the names.
  abbrev pub IsSorted : List A → Type 0
  IsSorted [] = Unit {0}
  IsSorted (x ∷ []) = Unit {0}
  IsSorted (x ∷ y ∷ l) = (text_leb (name x) (name y) ≡ true) × IsSorted (y ∷ l)

  insert_behind-IsSorted :
      (x y : A) (ys : List A)
      → text_leb (name y) (name x) ≡ true
      → IsSorted (y ∷ ys)
      → IsSorted (insert x ys)
      → IsSorted (y ∷ insert x ys)
  unfolding insert
  insert_behind-IsSorted x y [] h s t = (h, tt)
  insert_behind-IsSorted x y (z ∷ zs) h s t = elim (Bool-cases (text_leb (name x) (name z))) [
    | inl before ↦ rw before (h, (before, s.1))
    | inr after ↦ rw after (s.0, rw after at t)
  ]

  insert-IsSorted : (x : A) (ys : List A) → IsSorted ys → IsSorted (insert x ys)
  unfolding insert
  insert-IsSorted x [] s = tt
  insert-IsSorted x (y ∷ ys) s = elim (Bool-cases (text_leb (name x) (name y))) [
    | inl before ↦ rw before (before, s)
    | inr after ↦ rw after (
        insert_behind-IsSorted x y ys (text_leb_total (name x) (name y) after) s
          (insert-IsSorted x ys (tail y ys s)))
  ]
    where
      tail : (y : A) (ys : List A) → IsSorted (y ∷ ys) → IsSorted ys
      tail y [] s = tt
      tail y (z ∷ zs) s = s.1

  pub sort-IsSorted : (xs : List A) → IsSorted (sort xs)
  unfolding sort
  sort-IsSorted [] = tt
  sort-IsSorted (x ∷ xs) = insert-IsSorted x (sort xs) (sort-IsSorted xs)

  insert-Permᴰ : (x : A) (ys : List A) → Permᴰ (x ∷ ys) (insert x ys)
  unfolding insert
  insert-Permᴰ x [] = Permᴰ.refl (x ∷ [])
  insert-Permᴰ x (y ∷ ys) = elim (Bool-cases (text_leb (name x) (name y))) [
    | inl before ↦ rw before (Permᴰ.refl (x ∷ y ∷ ys))
    | inr after ↦
        rw after (Permᴰ.trans (Permᴰ.swap refl refl) (Permᴰ.cons refl (insert-Permᴰ x ys)))
  ]

  pub sort-Permᴰ : (xs : List A) → Permᴰ xs (sort xs)
  unfolding sort
  sort-Permᴰ [] = Permᴰ.nil
  sort-Permᴰ (x ∷ xs) = Permᴰ.trans (Permᴰ.cons refl (sort-Permᴰ xs)) (insert-Permᴰ x (sort xs))
