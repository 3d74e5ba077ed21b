-- ===== src/Exclusions/Calendar.antt =====
-- frontend/js/op-pages.js, renderCalendarPicker and renderMonthGrid: the days on offer.
pub mod Range
use operations_api.Common.{
  map, filter, ◌++◌, ℕ, zero, suc, ◌+◌, ◌-◌, ◌*◌, ◌%◌, Bool, not, ◌||◌, List, [], ◌∷◌, ltb,
}
use operations_api.Dates.{Date, ordinal, new_date, get_day, full_year, of_months}

-- `calOffset`, a whole number of months from next month: `ahead n` or, for n + 1 months back,
-- `back n`.
pub data Offset : Type 0 where
  ahead back : ℕ → Offset

abbrev pub start : Offset
start = ahead 0

-- `(stateObj.calOffset||0) - 1` and `+ 1`
unfoldable pub earlier : Offset → Offset
earlier (ahead zero) = back 0
earlier (ahead (suc n)) = ahead n
earlier (back n) = back (suc n)

unfoldable pub later : Offset → Offset
later (ahead n) = ahead (suc n)
later (back zero) = ahead 0
later (back (suc n)) = back n

-- A month `n` counted from `m`; months before the year 0 are outside the model.
abbrev shift : ℕ → Offset → ℕ
shift m (ahead n) = m + n
shift m (back n) = m - suc n

-- `new Date(today.getFullYear(), today.getMonth()+1+calOffset, 1)` and the month after it
unfoldable pub months : Date → Offset → List Date
months today offset =
    let base = of_months (shift (full_year today.year * 12 + today.month + 1) offset) 1 in
    new_date base.year base.month 1 ∷ new_date base.year (base.month + 1) 1 ∷ []

-- A day's cell: its date, and whether it can be picked.
pub record Cell : Type 0 where
  pub date : Date
  pub enabled : Bool

cells_from : ℕ → ℕ → ℕ → ℕ → Date → Date → List Cell
cells_from zero day y m first last = []
cells_from (suc k) day y m first last =
    let d = new_date y m day in
    let is_past = ltb (ordinal d) (ordinal first) in
    let is_beyond = ltb (ordinal last) (ordinal d) in
    record { date = d; enabled = not (is_past || is_beyond) }
    ∷ cells_from k (suc day) y m first last

-- A month's grid: the blank cells before its first day, and the cells of its days.
pub record Grid : Type 0 where
  pub blanks : ℕ
  pub cells : List Cell

unfoldable pub month_grid : Date → Date → Date → Grid
unfolding cells_from
month_grid month first last =
    let start_dow = (get_day (new_date month.year month.month 1) + 6) % 7 in
    let days_in_month = (new_date month.year (month.month + 1) 0).day in
    record {
      blanks = start_dow;
      cells = cells_from days_in_month 1 month.year month.month first last;
    }

unfoldable grid_cells : Date → Date → List Date → List Cell
unfolding month_grid
grid_cells first last [] = []
grid_cells first last (m ∷ ms) = (month_grid m first last).cells ++ grid_cells first last ms

-- The days that the picker's two months offer: from today to a year from today.
unfoldable pub offered : Date → Offset → List Date
unfolding grid_cells
offered today offset =
    let first = new_date today.year today.month today.day in
    let last = new_date (today.year + 1) today.month today.day in
    let cells = grid_cells first last (months today offset) in
    map (λ (c : Cell). c.date) (filter (λ (c : Cell). c.enabled) cells)
