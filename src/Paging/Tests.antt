-- ===== src/Paging/Tests.antt =====
-- Paging on concrete inputs.
use citius_server.Prelude.{
  ◌+◌, ◌≤◌, ◌<◌, min, ◌≡◌, refl, ◌↔◌, ◌⊎◌, none, some, [], ◌∷◌, arith, eqb, if◌then◌else◌, codes, ℕ,
  List,
}
use citius_server.Prelude.Int.{pos}
use citius_server.Decimal.{itoa, atoi}
use citius_server.Paging.Window.{
  Page, window, start_at, stop_at, next_of, window_bounds, window-eq-none_iff, IsNegative, BadToken,
}
use citius_server.Paging.Walk.{collect, collect_all}

abbrev second_page : Page
second_page = record { start = 2; stop = 4; next = codes "4" }

second_page_lem : window 5 (pos 2) (codes "2") ≡ some second_page
unfolding window start_at stop_at next_of itoa atoi
second_page_lem = refl

window_bounds_example :
    (start_at 5 (codes "2") ≡ some second_page.start)
    × (second_page.start ≤ second_page.stop)
    × (second_page.stop ≤ 5)
    × (◌≡◌ {A = ℕ} 2 0 → second_page.stop ≡ 5)
    × (0 < 2 → second_page.stop ≡ min (second_page.start + 2) 5)
    × (second_page.next ≡ (if eqb second_page.stop 5 then [] else itoa second_page.stop))
    × ((second_page.next ≡ []) ↔ (second_page.stop ≡ 5))
window_bounds_example = window_bounds 5 2 (codes "2") second_page_lem

window-eq-none_iff_example :
    (window 5 (pos 2) (codes "9") ≡ none) ↔ (IsNegative (pos 2) ⊎ BadToken 5 (codes "9"))
window-eq-none_iff_example = window-eq-none_iff 5 (pos 2) (codes "9")

abbrev items : List ℕ
items = 7 ∷ 8 ∷ 9 ∷ []

collect_all_example : collect 4 items (pos 2) [] ≡ some items
collect_all_example = collect_all items 2 (omega arith) (omega arith)
