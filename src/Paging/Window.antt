-- ===== src/Paging/Window.antt =====
-- `Window`, and the bounds of the page that it returns.
use citius_server.Prelude.{
  ℕ, ◌+◌, ◌-◌, ◌≤◌, ◌<◌, ◌≡◌, refl, ◌⊎◌, inl, inr, ◌&&◌, Option, none, some, [], ◌∷◌, arith, ltb,
  if◌then◌else◌, Text, ◌≢◌, ◌↔◌, min, eqb,
}
use citius_server.Prelude.Int.{ℤ, pos, negsuc}
use citius_server.Decimal.{max_int, atoi, itoa, atoi-itoa, itoa-ne-nil}

-- The half-open range [start, stop) of one page, and the token of the next.
pub record Page : Type 0 where
  pub start : ℕ
  pub stop : ℕ
  pub next : Text

-- The `start` that a token stands for; `none` is `ErrInvalid`.
start_of : ℕ → Option ℤ → Option ℕ
start_of total none = none
start_of total (some (negsuc n)) = none
start_of total (some (pos n)) = if ltb total n then none else some n

unfoldable pub start_at : ℕ → Text → Option ℕ
unfolding start_of
start_at total [] = some 0
start_at total (c ∷ s) = start_of total (atoi (c ∷ s))

unfoldable pub stop_at : ℕ → ℕ → ℕ → ℕ
stop_at total size start = if ltb 0 size && ltb size (total - start) then start + size else total

unfoldable pub next_of : ℕ → ℕ → Text
next_of total stop = if ltb stop total then itoa stop else []

page_at : ℕ → ℕ → Option ℕ → Option Page
unfolding stop_at next_of
page_at total size none = none
page_at total size (some start) =
    let stop = stop_at total size start in
    some (record { start = start; stop = stop; next = next_of total stop })

-- `total` is the length of the listing, and `size` an int32; `none` is `ErrInvalid`.
unfoldable pub window : ℕ → ℤ → Text → Option Page
unfolding start_at page_at
window total (negsuc n) token = none
window total (pos size) token = page_at total size (start_at total token)

pub start_at-itoa : (total n : ℕ) → n ≤ total → total ≤ max_int → start_at total (itoa n) ≡ some n
unfolding start_at
start_at-itoa total n h fits = ground (arith, atoi-itoa n, itoa-ne-nil n)

-- The page behind a token that names the offset `start`.
pub window_at :
    (total size start : ℕ) (token : Text)
    → start_at total token ≡ some start
    → window total (pos size) token
      ≡ some (record {
        start = start;
        stop = stop_at total size start;
        next = next_of total (stop_at total size start);
      })
unfolding window
window_at total size start token h = rw (h, page_at) refl

pub stop_at_lem :
    (total size start : ℕ)
    → start ≤ total
    → 0 < size
    → (stop_at total size start ≡ total)
      ⊎ ((start < stop_at total size start) × (stop_at total size start < total))
unfolding stop_at
stop_at_lem total size start h k = ground arith

pub next_of_end : (total : ℕ) → next_of total total ≡ []
unfolding next_of
next_of_end total = ground arith

pub next_of_earlier : (total stop : ℕ) → stop < total → next_of total stop ≡ itoa stop
unfolding next_of
next_of_earlier total stop h = ground arith

pub start_at-le :
    (total : ℕ) (token : Text) {start : ℕ} → start_at total token ≡ some start → start ≤ total
unfolding start_at
start_at-le total [] h = ground arith
start_at-le total (c ∷ s) h = ground arith

-- A page that `window` returns starts where its token says and ends at or after that, within the
-- listing; with a page size it holds at most that many items, and all that remain if fewer do,
-- and with the size 0 it holds every remaining item; its next token is empty exactly when the
-- page ends the listing, and is the decimal offset of its end otherwise.
pub window_bounds :
    (total size : ℕ) (token : Text) {p : Page}
    → window total (pos size) token ≡ some p
    → (start_at total token ≡ some p.start)
      × (p.start ≤ p.stop)
      × (p.stop ≤ total)
      × (size ≡ 0 → p.stop ≡ total)
      × (0 < size → p.stop ≡ min (p.start + size) total)
      × (p.next ≡ (if eqb p.stop total then [] else itoa p.stop))
      × ((p.next ≡ []) ↔ (p.stop ≡ total))
unfolding window start_at stop_at next_of
window_bounds total size [] {p} h = ground (arith, itoa-ne-nil p.stop)
window_bounds total size (c ∷ s) {p} h = ground (arith, itoa-ne-nil p.stop)

-- A token that names no offset of the listing.
abbrev pub BadToken : ℕ → Text → Type 0
BadToken total token = (token ≢ []) × ((n : ℕ) → atoi token ≡ some (pos n) → total < n)

abbrev pub IsNegative : ℤ → Type 0
IsNegative (pos n) = ⊥
IsNegative (negsuc n) = Unit

page_at-eq-none_iff :
    (total size : ℕ) (o : Option ℤ)
    → (page_at total size (start_of total o) ≡ none) ↔ ((n : ℕ) → o ≡ some (pos n) → total < n)
unfolding page_at start_of
page_at-eq-none_iff total size none = (λ _ n e. cc, λ _. refl)
page_at-eq-none_iff total size (some (negsuc k)) = (λ _ n e. cc, λ _. refl)
page_at-eq-none_iff total size (some (pos k)) = (λ h n e. ground arith, λ h. ground (arith, h k))

-- `ErrInvalid` is returned for exactly a negative page size, and a token that is neither empty
-- nor, as `strconv.Atoi` reads it, an offset between 0 and the length of the listing.
pub window-eq-none_iff :
    (total : ℕ) (size : ℤ) (token : Text)
    → (window total size token ≡ none) ↔ (IsNegative size ⊎ BadToken total token)
unfolding window start_at
window-eq-none_iff total (negsuc n) token = (λ _. inl tt, λ _. refl)
window-eq-none_iff total (pos n) [] =
    (λ h. cc, elim [ inl h ↦ absurd h | inr h ↦ absurd (h.0 refl) ])
window-eq-none_iff total (pos n) (c ∷ s) =
    let (to, from) = page_at-eq-none_iff total n (atoi (c ∷ s)) in
    (λ h. inr (λ e. cc, to h), elim [ inl h ↦ absurd h | inr h ↦ from h.1 ])
