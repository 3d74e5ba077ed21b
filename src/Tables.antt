-- ===== src/Tables.antt =====
-- frontend/js/op-pages.js: what every table of the console shares, that is its pages, the bar that
-- turns them, and the order of its rows.
pub mod Pages
pub mod Sort
pub mod Cells
pub mod Tests
use operations_api.Common.{
  ℕ, zero, suc, ◌+◌, ◌-◌, ◌*◌, ◌/◌, ◌≤◌, ◌<◌, min, max, Bool, true, false, List, [], ◌∷◌, ◌++◌,
  length, take, drop, ltb, leb, ◌==◌, if◌then◌else◌,
}

pub record Page : Type 0 where
  pub pages : ℕ
  pub cur : ℕ
  pub start : ℕ
  pub stop : ℕ

-- `Math.ceil(total / per)` for a `per` that is not 0.
unfoldable pub ceil_div : ℕ → ℕ → ℕ
ceil_div total per = (total + (per - 1)) / per

unfoldable pub paginate : ℕ → ℕ → ℕ → Page
paginate total page per =
    let pages = max 1 (ceil_div total per) in
    let cur = min (max 1 page) pages in
    record { pages = pages; cur = cur; start = (cur - 1) * per; stop = min total (cur * per) }

module _ {ℓ} {A : Type ℓ} where
  -- `rows.slice(start, end)`
  abbrev pub slice : List A → ℕ → ℕ → List A
  slice rows start stop = take (stop - start) (drop start rows)

  -- `rows.slice(pag.start, pag.end)`: the rows that a table shows.
  unfoldable pub shown : List A → ℕ → ℕ → List A
  unfolding paginate
  shown rows page per = let p = paginate (length rows) page per in slice rows p.start p.stop

-- The page numbers of `paginationBar`, and which of its two arrows are disabled.
pub record Bar : Type 0 where
  pub first : ℕ
  pub last : ℕ
  pub prev_disabled : Bool
  pub next_disabled : Bool

unfoldable pub pagination_bar : Page → Bar
pagination_bar p = record {
  first = max 1 (p.cur - 2);
  last = min p.pages (max 1 (p.cur - 2) + 4);
  prev_disabled = p.cur == 1;
  next_disabled = p.cur == p.pages;
}

-- The sign of a comparator's result.
pub data Sign : Type 0 where
  neg nil pos : Sign

-- `if (av < bv) return -1 * dir; if (av > bv) return 1 * dir; return 0;`
module _ {A : Type 0} (lt : A → A → Bool) where
  unfoldable pub compare_by : Bool → A → A → Sign
  compare_by true a b = if lt a b then neg else if lt b a then pos else nil
  compare_by false a b = if lt a b then pos else if lt b a then neg else nil

-- `rows.sort(compare)`: the language promises a stable sort for a consistent comparator, and that
-- result is unique; insertion computes it.
module _ {A : Type 0} (cmp : A → A → Sign) where
  goes_first : A → A → Bool
  goes_first a b = elim (cmp a b) [ pos ↦ false | _ ↦ true ]

  insert : A → List A → List A
  unfolding goes_first
  insert a [] = a ∷ []
  insert a (b ∷ bs) = let rest = insert a bs in if goes_first a b then a ∷ b ∷ bs else b ∷ rest

  unfoldable pub sort : List A → List A
  unfolding insert
  sort [] = []
  sort (a ∷ as') = insert a (sort as')
