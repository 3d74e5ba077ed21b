-- ===== src/Tables/Tests.antt =====
-- Tables at concrete inputs.
use operations_api.Common.{
  length, ℕ, zero, suc, ◌≡◌, ◌+◌, ◌-◌, ◌≤◌, ◌<◌, ◌↔◌, refl, arith, true, false, List, [], ◌∷◌, ltb,
  text,
}
use operations_api.Tables.{nil, Page, paginate, pagination_bar, compare_by, Sign}
use operations_api.Tables.Pages.{
  first_pages, first_pages-all, paginate_bounds, pagination_bar_bounds,
}
use operations_api.Tables.Sort.{IsConsistent}
use operations_api.Common.{◌≢◌}
use operations_api.Tables.Cells.{Cell, str, null, text_lt, cell_lt, null_column-inconsistent}
use operations_api.Samples.{whole_numbers}

paginate_bounds_example :
    let p = paginate 45 9 20 in
    (1 ≤ p.cur)
    × (p.cur ≤ p.pages)
    × (p.stop ≤ 45)
    × (p.stop ≤ p.start + 20)
    × (0 < 45 → p.start < p.stop)
paginate_bounds_example = paginate_bounds 45 9 20 (omega arith)

abbrev third : Page
third = record { pages = 9; cur = 3; start = 40; stop = 60 }

pagination_bar_bounds_example :
    let b = pagination_bar third in
    (1 ≤ b.first)
    × (b.first ≤ 3)
    × (3 ≤ b.last)
    × (b.last ≤ 9)
    × (b.last < b.first + 5)
    × ((b.prev_disabled ≡ false) ↔ (1 ≤ 3 - 1))
    × ((b.next_disabled ≡ false) ↔ (3 + 1 ≤ 9))
pagination_bar_bounds_example = pagination_bar_bounds third (omega arith) (omega arith)

abbrev rows : List (ℕ × ℕ)
rows = (2, 10) ∷ (1, 20) ∷ (2, 30) ∷ []

abbrev by_first : ℕ × ℕ → ℕ × ℕ → Sign
by_first = compare_by (λ (a b : ℕ × ℕ). ltb a.0 b.0) true

-- The FQDNs of three servers, of which the middle one has none.
abbrev fqdn_cell : ℕ → Cell whole_numbers
fqdn_cell zero = str (text "a.local")
fqdn_cell (suc zero) = null
fqdn_cell (suc (suc n)) = str (text "b.local")

null_column-inconsistent_example :
    let cmp = compare_by (λ (a b : ℕ). cell_lt whole_numbers (fqdn_cell a) (fqdn_cell b)) true in
    (cmp 0 1 ≡ nil) × (cmp 1 2 ≡ nil) × (cmp 0 2 ≢ nil) × ¬ IsConsistent cmp
unfolding text_lt
null_column-inconsistent_example =
    null_column-inconsistent whole_numbers fqdn_cell 0 1 2 (text "a.local") (text "b.local") true
      refl refl refl refl refl refl

first_pages-all_example : first_pages rows 2 (paginate (length rows) 1 2).pages ≡ rows
first_pages-all_example = first_pages-all rows 2 (omega arith)
