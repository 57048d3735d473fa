-- ===== src/Auth/Lists.antt =====
-- The entries of a comma-separated list.
use citius_server.Prelude.{
  ℕ, ◌≤◌, ◌≡◌, refl, sym, ap, ◌∙◌, ◌≢◌, inl, inr, true, false, List, [], ◌∷◌, ◌++◌, arith, eqb,
  Bool-cases, length, Text, text_eq_iff, All,
}
use citius_server.Auth.Config.{
  split, is_space, trim_left, trim_right, trim_space, trimmed, split_csv,
}

-- An entry that is its own trimmed form, is not empty and holds no comma.
pub record IsEntry (e : Text) : Type 0 where
  pub trim : trim_space e ≡ e
  pub given : e ≢ []
  pub no_comma : All (λ c. eqb c b',' ≡ false) e

abbrev pub join : List Text → Text
join [] = []
join (e ∷ []) = e
join (e ∷ f ∷ es) = e ++ b',' ∷ join (f ∷ es)

split-join_one :
    (e s : Text) → All (λ c. eqb c b',' ≡ false) e → split (e ++ b',' ∷ s) ≡ e ∷ split s
unfolding split
split-join_one [] s h = refl
split-join_one (c ∷ e) s h = rw (h.0, split-join_one e s h.1) refl

split_one : (e : Text) → All (λ c. eqb c b',' ≡ false) e → split e ≡ e ∷ []
unfolding split
split_one [] h = refl
split_one (c ∷ e) h = rw (h.0, split_one e h.1) refl

split-join :
    (e : Text) (es : List Text)
    → All (λ c. eqb c b',' ≡ false) e
    → All (All (λ c. eqb c b',' ≡ false)) es
    → split (join (e ∷ es)) ≡ e ∷ es
split-join e [] h hs = split_one e h
split-join e (f ∷ es) h hs =
    split-join_one e (join (f ∷ es)) h ∙ ap (◌∷◌ e) (split-join f es hs.0 hs.1)

abbrev AreSpaces : Text → Type 0
AreSpaces = All (λ c. is_space c ≡ true)

-- A place in the list: blank, or an entry with white space on either side.
pub data Place : Type 0 where
  blank : Text → Place
  entry : Text → Text → Text → Place

abbrev pub IsPlace : Place → Type 0
IsPlace (blank l) = AreSpaces l
IsPlace (entry l e r) = AreSpaces l × (IsEntry e × AreSpaces r)

-- The places as they are written.
abbrev pub written : List Place → List Text
written [] = []
written (blank l ∷ ps) = l ∷ written ps
written (entry l e r ∷ ps) = (l ++ (e ++ r)) ∷ written ps

abbrev pub entries : List Place → List Text
entries [] = []
entries (blank l ∷ ps) = entries ps
entries (entry l e r ∷ ps) = e ∷ entries ps

space-ne-comma : (l : Text) → AreSpaces l → All (λ c. eqb c b',' ≡ false) l
unfolding is_space
space-ne-comma [] h = tt
space-ne-comma (c ∷ l) h = (ground arith, space-ne-comma l h.1)

All-append : (P : ℕ → Type 0) (s t : Text) → All P s → All P t → All P (s ++ t)
All-append P [] t h k = k
All-append P (c ∷ s) t h k = (h.0, All-append P s t h.1 k)

trim_left-append : (l s : Text) → AreSpaces l → trim_left (l ++ s) ≡ trim_left s
unfolding trim_left
trim_left-append [] s h = refl
trim_left-append (c ∷ l) s h = rw (h.0) (trim_left-append l s h.1)

trim_right_spaces : (r : Text) → AreSpaces r → trim_right r ≡ []
unfolding trim_right
trim_right_spaces [] h = refl
trim_right_spaces (c ∷ r) h = rw (trim_right_spaces r h.1, h.0) refl

trim_right-append : (s r : Text) → AreSpaces r → trim_right (s ++ r) ≡ trim_right s
unfolding trim_right
trim_right-append [] r h = trim_right_spaces r h
trim_right-append (c ∷ s) r h = rw (trim_right-append s r h) refl

length-trim_left : (s : Text) → length (trim_left s) ≤ length s
unfolding trim_left
length-trim_left [] = omega arith
length-trim_left (c ∷ s) = ground (arith, length-trim_left s)

length-trim_right : (s : Text) → length (trim_right s) ≤ length s
unfolding trim_right
length-trim_right [] = omega arith
length-trim_right (c ∷ s) = ground (arith, length-trim_right s)

-- An entry starts with no white space, since trimming would make it shorter.
entry_start : (c : ℕ) (s : Text) → trim_space (c ∷ s) ≡ c ∷ s → is_space c ≡ false
unfolding trim_space trim_left
entry_start c s h = elim (Bool-cases (is_space c)) [
  | inr e ↦ e
  | inl e ↦
      let shorter : trim_right (trim_left s) ≡ c ∷ s = rw e at h in
      absurd (omega (arith, ap length shorter, length-trim_right (trim_left s), length-trim_left s))
]

trim_space_spaces : (l : Text) → AreSpaces l → trim_space l ≡ []
unfolding trim_space trim_left trim_right
trim_space_spaces [] h = refl
trim_space_spaces (c ∷ l) h = rw (h.0) (trim_space_spaces l h.1)

trim_space_padded :
    (l e r : Text) → AreSpaces l → IsEntry e → AreSpaces r → trim_space (l ++ (e ++ r)) ≡ e
unfolding trim_space
trim_space_padded l [] r h i k = absurd (i.given refl)
trim_space_padded l (c ∷ e) r h i k =
    let start : is_space c ≡ false = entry_start c e i.trim in
    let kept : trim_left (c ∷ e ++ r) ≡ c ∷ e ++ r = unfold trim_left in rw start refl in
    let same : trim_left (c ∷ e) ≡ c ∷ e = unfold trim_left in rw start refl in
    ap trim_right (trim_left-append l (c ∷ e ++ r) h ∙ kept)
    ∙ trim_right-append (c ∷ e) r k
    ∙ (ap trim_right (sym same) ∙ i.trim)

trimmed_places : (ps : List Place) → All IsPlace ps → trimmed (written ps) ≡ entries ps
unfolding trimmed
trimmed_places [] h = refl
trimmed_places (blank l ∷ ps) h = rw (trim_space_spaces l h.0) (trimmed_places ps h.1)
trimmed_places (entry l e r ∷ ps) h =
    rw (trim_space_padded l e r h.0.0 h.0.1.0 h.0.1.1)
      (ground (arith, text_eq_iff e [], h.0.1.0.given, trimmed_places ps h.1))

written_no_comma :
    (ps : List Place) → All IsPlace ps → All (All (λ c. eqb c b',' ≡ false)) (written ps)
written_no_comma [] h = tt
written_no_comma (blank l ∷ ps) h = (space-ne-comma l h.0, written_no_comma ps h.1)
written_no_comma (entry l e r ∷ ps) h = (
  All-append _ l (e ++ r) (space-ne-comma l h.0.0)
      (All-append _ e r (h.0.1.0.no_comma) (space-ne-comma r h.0.1.1)),
  written_no_comma ps h.1,
)

-- A list of places joined by commas, each of them white space only or an entry (a text that is not
-- empty, holds no comma, and neither starts nor ends with white space) with white space around it, is
-- split into the entries, in order: the white space around them and the blank places are dropped.
pub split_csv-join :
    (p : Place) (ps : List Place)
    → IsPlace p
    → All IsPlace ps
    → split_csv (join (written (p ∷ ps))) ≡ entries (p ∷ ps)
unfolding split_csv
split_csv-join (blank l) ps h hs =
    rw (split-join l (written ps) (space-ne-comma l h) (written_no_comma ps hs))
      (trimmed_places (blank l ∷ ps) (h, hs))
split_csv-join (entry l e r) ps h hs =
    rw
      (split-join (l ++ (e ++ r)) (written ps) (written_no_comma (entry l e r ∷ []) (h, tt)).0
        (written_no_comma ps hs))
      (trimmed_places (entry l e r ∷ ps) (h, hs))
