-- ===== src/Paging/Walk.antt =====
-- A client of a list RPC: it follows the tokens from the empty one until a page has none.
use mathlib.Core.Option
use citius_server.Prelude.{
  ℕ, zero, suc, List, Text, Option, ◌<◌, some, none, ◌≢◌, length, ◌∷◌, slice, [], ◌≤◌, ◌++◌, ◌≡◌,
  ◌+◌, arith, drop, inl, inr, ap, ◌∙◌, sym, slice-append-drop, append-nil, drop_all, refl,
}
use citius_server.Prelude.Int.{ℤ, pos}
use citius_server.Decimal.{max_int, itoa, itoa-ne-nil}
use citius_server.Paging.Window.{
  Page, window, start_at, start_at-itoa, stop_at, next_of, window_at, start_at-le, stop_at_lem,
  next_of_end, next_of_earlier,
}

module _ {ℓ} {A : Type ℓ} where
  unfoldable pub collect_next : (Text → Option (List A)) → List A → Text → Option (List A)
  collect_next more items [] = some items
  collect_next more items (c ∷ s) = Option.map (λ rest. items ++ rest) (more (c ∷ s))

  collect_page : (Text → Option (List A)) → List A → Option Page → Option (List A)
  unfolding collect_next
  collect_page more xs none = none
  collect_page more xs (some p) = collect_next more (slice xs p.start p.stop) p.next

  -- All that the pages hold, in order; `none` if a page fails or the calls run out.
  unfoldable pub collect : ℕ → List A → ℤ → Text → Option (List A)
  unfolding collect_page
  collect zero xs size token = none
  collect (suc calls) xs size token =
      collect_page (collect calls xs size) xs (window (length xs) size token)

  collect_next-some :
      (more : Text → Option (List A)) (items rest : List A) (t : Text)
      → t ≢ []
      → more t ≡ some rest
      → collect_next more items t ≡ some (items ++ rest)
  unfolding collect_next
  collect_next-some more items rest [] ne h = absurd (ne refl)
  collect_next-some more items rest (c ∷ s) ne h = rw h

  last_page :
      (more : Text → Option (List A)) (xs : List A) (start : ℕ)
      → start ≤ length xs
      → collect_next more (slice xs start (length xs)) (next_of (length xs) (length xs))
        ≡ some (drop start xs)
  last_page more xs start h = rw next_of_end (
      unfold collect_next in
      ap some (
        sym (append-nil _)
        ∙ ap (◌++◌ (slice xs start (length xs))) (sym (drop_all xs))
        ∙ slice-append-drop start (length xs) xs h))

  earlier_page :
      (more : Text → Option (List A)) (xs : List A) (start stop : ℕ)
      → start ≤ stop
      → stop < length xs
      → more (itoa stop) ≡ some (drop stop xs)
      → collect_next more (slice xs start stop) (next_of (length xs) stop) ≡ some (drop start xs)
  earlier_page more xs start stop h before rest = rw (next_of_earlier (length xs) stop before) (
      collect_next-some more (slice xs start stop) (drop stop xs) (itoa stop) (itoa-ne-nil stop)
        rest
      ∙ ap some (slice-append-drop start stop xs h))

  collect_from :
      (calls : ℕ) (xs : List A) (size start : ℕ) (token : Text)
      → 0 < size
      → length xs ≤ max_int
      → start_at (length xs) token ≡ some start
      → length xs < calls + start
      → collect calls xs (pos size) token ≡ some (drop start xs)
  unfolding collect
  collect_from zero xs size start token pos_size fits at enough =
      absurd (omega (arith, start_at-le (length xs) token at))
  collect_from (suc calls) xs size start token pos_size fits at enough =
      let stop = stop_at (length xs) size start in
      rw (window_at (length xs) size start token at, collect_page)
        (elim (stop_at_lem (length xs) size start (start_at-le (length xs) token at) pos_size) [
          | inl last ↦
              rw last (
                last_page (collect calls xs (pos size)) xs start (start_at-le (length xs) token at))
          | inr (more, before) ↦
              earlier_page (collect calls xs (pos size)) xs start stop (omega arith) before (
                collect_from calls xs size stop (itoa stop) pos_size fits
                  (start_at-itoa (length xs) stop (omega arith) fits) (omega arith))
        ])

-- From the empty token, following the next tokens with any positive page size returns every item
-- of a listing, whose length is an int, exactly once and in order; as many calls as items, and one
-- more, are enough.
pub collect_all {ℓ} :
    {A : Type ℓ} (xs : List A) (size : ℕ)
    → 0 < size
    → length xs ≤ max_int
    → collect (suc (length xs)) xs (pos size) [] ≡ some xs
unfolding start_at
collect_all xs size h fits = collect_from (suc (length xs)) xs size 0 [] h fits refl (omega arith)
