-- ===== src/DateKit/Shapes.antt =====
-- The texts that dates are written as.
use operations_api.Common.{◌<◌, ℕ, ◌+◌, ◌-◌, ◌*◌, ◌/◌, ◌%◌, ◌≤◌, ◌≡◌, refl, arith}
use operations_api.Dates.{
  Date, ordinal, days_before_year, february, month_start, new_date, new_date_from_one, of_months,
  full_year,
}
use operations_api.Dates.Ordinals.{IsDate, of_ordinal-ordinal, ordinal-of_ordinal}
use operations_api.DateKit.{add_days}

-- A date of the calendar is itself when made from its year, month and day.
pub of_months-IsDate : (d : Date) → IsDate d → of_months (d.year * 12 + d.month) d.day ≡ d
unfolding of_months ordinal
of_months-IsDate d v =
    let year : (d.year * 12 + d.month) / 12 ≡ d.year = omega (arith, v.in_year) in
    let month : (d.year * 12 + d.month) % 12 ≡ d.month = omega (arith, v.in_year) in
    let same : days_before_year d.year + month_start (february d.year) d.month + d.day - 1
        ≡ ordinal d =
      omega (arith, v.from_first) in
    rw (year, month, same) (of_ordinal-ordinal d v)

pub full_year-of_ge : (y : ℕ) → 100 ≤ y → full_year y ≡ y
unfolding full_year
full_year-of_ge y h = ground arith

pub new_date_from_one-IsDate :
    (d : Date) → IsDate d → 100 ≤ d.year → new_date_from_one d.year (d.month + 1) d.day ≡ d
unfolding new_date_from_one
new_date_from_one-IsDate d v h =
    let months : full_year d.year * 12 + (d.month + 1) - 1 ≡ d.year * 12 + d.month =
      omega (arith, full_year-of_ge d.year h) in
    rw months (of_months-IsDate d v)

ordinal_lem :
    (d : Date)
    → days_before_year d.year + month_start (february d.year) d.month + (d.day - 1) ≡ ordinal d
unfolding ordinal
ordinal_lem d = refl

-- Adding days to a date of the calendar with a year of at least 100 moves its number by as many.
pub ordinal-add_days :
    (d : Date) (n : ℕ) → IsDate d → 100 ≤ d.year → ordinal (add_days d n) ≡ ordinal d + n
unfolding add_days new_date of_months
ordinal-add_days d n v h =
    let year : (full_year d.year * 12 + d.month) / 12 ≡ d.year =
      omega (arith, full_year-of_ge d.year h, v.in_year) in
    let month : (full_year d.year * 12 + d.month) % 12 ≡ d.month =
      omega (arith, full_year-of_ge d.year h, v.in_year) in
    let same : days_before_year d.year + month_start (february d.year) d.month + (d.day + n) - 1
        ≡ days_before_year d.year + month_start (february d.year) d.month + (d.day - 1) + n =
      omega (arith, v.from_first) in
    let numbered = ordinal_lem d in rw (year, month, same, numbered) (ordinal-of_ordinal _)

pub ordinal-new_date :
    (y m d : ℕ)
    → 100 ≤ y
    → m < 12
    → ordinal (new_date y m d) ≡ days_before_year y + month_start (february y) m + d - 1
unfolding new_date of_months
ordinal-new_date y m d h k =
    let year : (full_year y * 12 + m) / 12 ≡ y = omega (arith, full_year-of_ge y h) in
    let month : (full_year y * 12 + m) % 12 ≡ m = omega (arith, full_year-of_ge y h) in
    rw (year, month) (ordinal-of_ordinal _)
