-- ===== src/Tables/Pages.antt =====
-- Pages partition the rows.
use operations_api.Common.{
  ℕ, zero, suc, ◌+◌, ◌-◌, ◌*◌, ◌≤◌, ◌<◌, min, max, ◌≡◌, sym, ◌∙◌, subst, ◌↔◌, false, List, [], ◌++◌,
  arith, length, take, drop, length-drop, take-add, take-min-length, take-all,
}
use native.Mathlib.Nat.{div-add-mod', mod-lt, mul-le-mul_right}
use operations_api.Tables.{Page, ceil_div, paginate, shown, pagination_bar}

ceil_div_bounds :
    (total per : ℕ)
    → 0 < per
    → (total ≤ ceil_div total per * per) × (ceil_div total per * per < total + per)
unfolding ceil_div
ceil_div_bounds total per h =
    omega (arith, div-add-mod' (total + (per - 1)) per, mod-lt (total + (per - 1)) h)

-- The page count of `paginate`.
abbrev page_count : ℕ → ℕ → ℕ
page_count total per = max 1 (ceil_div total per)

pos_of_cover : (c per total : ℕ) → total ≤ c * per → 0 < total → 0 < c
pos_of_cover zero per total h pos = omega arith
pos_of_cover (suc c) per total h pos = omega arith

suc_mul : (a b : ℕ) → suc a * b ≡ a * b + b
suc_mul a b = grind arith

-- Page `k + 1` starts before the end of a table that has rows.
start-lt-total :
    (total per k : ℕ) → 0 < per → 0 < total → k < page_count total per → k * per < total
start-lt-total total per k h pos lt =
    let (low, high) = ceil_div_bounds total per h in
    let some_page = pos_of_cover (ceil_div total per) per total low pos in
    let fits : suc k ≤ ceil_div total per = omega arith in
    let below : suc k * per ≤ ceil_div total per * per = mul-le-mul_right per fits in
    omega (arith, suc_mul k per)

-- The last page reaches the end.
total-le-pages : (total per : ℕ) → 0 < per → total ≤ page_count total per * per
total-le-pages total per h =
    let (low, high) = ceil_div_bounds total per h in
    let more : ceil_div total per ≤ page_count total per = omega arith in
    let above : ceil_div total per * per ≤ page_count total per * per = mul-le-mul_right per more in
    omega arith

-- With at least one row to a page: the page shown exists; its rows stand inside the table, are at most `per` many, and at least one
-- if there are rows at all. Whatever page was asked for.
pub paginate_bounds :
    (total page per : ℕ)
    → 0 < per
    → let p = paginate total page per in
      (1 ≤ p.cur)
      × (p.cur ≤ p.pages)
      × (p.stop ≤ total)
      × (p.stop ≤ p.start + per)
      × (0 < total → p.start < p.stop)
unfolding paginate
paginate_bounds total page per h =
    let cur = min (max 1 page) (page_count total per) in
    let same : cur * per ≡ (cur - 1) * per + per =
      let one : suc (cur - 1) ≡ cur = omega arith in
      subst (λ (c : ℕ). c * per ≡ (cur - 1) * per + per) one (suc_mul (cur - 1) per) in
    (
      omega arith,
      omega arith,
      omega arith,
      omega arith,
      λ pos. omega (arith, start-lt-total total per (cur - 1) h pos (omega arith)),
    )

module _ {ℓ} {A : Type ℓ} (rows : List A) (per : ℕ) where
  -- Page `k + 1`, where there is one, holds the next `per` rows behind `k` pages.
  shown-suc :
      (k : ℕ)
      → k < page_count (length rows) per
      → shown rows (suc k) per ≡ take per (drop (k * per) rows)
  unfolding shown
  shown-suc k lt = rw (from, size) (take-min-length per (drop (k * per) rows))
    where
      cur : min (max 1 (suc k)) (page_count (length rows) per) ≡ suc k
      cur = omega arith

      from : (min (max 1 (suc k)) (page_count (length rows) per) - 1) * per ≡ k * per
      from = rw cur (let e : suc k - 1 ≡ k = omega arith in rw e)

      size :
          min (length rows) (min (max 1 (suc k)) (page_count (length rows) per) * per) - k * per
          ≡ min (length (drop (k * per) rows)) per
      size = rw cur (omega (arith, suc_mul k per, length-drop (k * per) rows))

  -- The rows of the first `k` pages, in order.
  abbrev pub first_pages : ℕ → List A
  first_pages zero = []
  first_pages (suc k) = first_pages k ++ shown rows (suc k) per

  first_pages-take :
      (k : ℕ) → k ≤ page_count (length rows) per → first_pages k ≡ take (k * per) rows
  first_pages-take zero le = let e : 0 * per ≡ 0 = omega arith in rw e
  first_pages-take (suc k) le =
      rw (first_pages-take k (omega arith), shown-suc k le, suc_mul k per)
        (sym (take-add (k * per) per rows))

  -- With at least one row to a page, the pages, one after the other, are the rows: none is lost and none is shown twice.
  pub first_pages-all : 0 < per → first_pages (paginate (length rows) 1 per).pages ≡ rows
  unfolding paginate
  first_pages-all h =
      first_pages-take (page_count (length rows) per) (omega arith)
      ∙ take-all (page_count (length rows) per * per) rows (total-le-pages (length rows) per h)

-- The bar's numbers are at most five pages that exist, the current one among them; an arrow is
-- disabled exactly at that end.
pub pagination_bar_bounds :
    (p : Page)
    → 1 ≤ p.cur
    → p.cur ≤ p.pages
    → let b = pagination_bar p in
      (1 ≤ b.first)
      × (b.first ≤ p.cur)
      × (p.cur ≤ b.last)
      × (b.last ≤ p.pages)
      × (b.last < b.first + 5)
      × ((b.prev_disabled ≡ false) ↔ (1 ≤ p.cur - 1))
      × ((b.next_disabled ≡ false) ↔ (p.cur + 1 ≤ p.pages))
unfolding pagination_bar
pagination_bar_bounds p h k = ground arith
