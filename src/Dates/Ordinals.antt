-- ===== src/Dates/Ordinals.antt =====
-- Days and dates correspond.
use operations_api.Common.{ℕ, suc, ◌+◌, ◌-◌, ◌≤◌, ◌<◌, ◌≡◌, refl, arith}
use operations_api.Dates.{
  Date, days_before_year, february, month_start, month_length, month_from, year_of, ordinal,
  of_ordinal,
}
use operations_api.Dates.Years.{
  days_before_year-suc, twelve_months, february_bounds, year_of_bounds, year_of_lem,
  month_from_bounds, month_from_lem,
}

-- A date of the calendar.
pub record IsDate (d : Date) : Type 0 where
  pub in_year : d.month < 12
  pub from_first : 1 ≤ d.day
  pub in_month : d.day ≤ month_length (february d.year) d.month

month_length_lem : (feb m : ℕ) → month_length feb m ≡ month_start feb (suc m) - month_start feb m
unfolding month_length
month_length_lem feb m = refl

month_start-le :
    (feb m : ℕ)
    → 28 ≤ feb
    → m < 12
    → (month_start feb m ≤ month_start feb (suc m)) × (month_start feb (suc m) ≤ month_start feb 12)
unfolding month_start
month_start-le feb m h k = ground arith

pub ordinal_bounds :
    (d : Date)
    → IsDate d
    → (days_before_year d.year ≤ ordinal d) × (ordinal d < days_before_year (suc d.year))
unfolding ordinal month_length
ordinal_bounds d v = omega (
  arith,
  days_before_year-suc d.year,
  twelve_months d.year,
  (february_bounds d.year).0,
  month_start-le (february d.year) d.month (february_bounds d.year).0 v.in_year,
  v.in_year,
  v.from_first,
  v.in_month,
)

-- The date of a day has that day for its number.
pub ordinal-of_ordinal : (n : ℕ) → ordinal (of_ordinal n) ≡ n
unfolding of_ordinal ordinal
ordinal-of_ordinal n =
    let y = year_of n in
    let rest = n - days_before_year y in
    let in_range : rest < month_start (february y) 12 =
      omega (arith, year_of_bounds n, days_before_year-suc y, twelve_months y) in
    omega (
      arith,
      year_of_bounds n,
      month_from_bounds (february y) rest (february_bounds y).0 (february_bounds y).1 in_range,
    )

-- It is a date of the calendar.
pub of_ordinal-IsDate : (n : ℕ) → IsDate (of_ordinal n)
unfolding of_ordinal month_length
of_ordinal-IsDate n =
    let y = year_of n in
    let rest = n - days_before_year y in
    let in_range : rest < month_start (february y) 12 =
      omega (arith, year_of_bounds n, days_before_year-suc y, twelve_months y) in
    let (low, mid, high) =
      month_from_bounds (february y) rest (february_bounds y).0 (february_bounds y).1 in_range in
    record { in_year = low; from_first = omega arith; in_month = omega arith }

of_parts :
    (n y m d : ℕ)
    → year_of n ≡ y
    → month_from (february y) 11 (n - days_before_year y) ≡ m
    → n - days_before_year y - month_start (february y) m + 1 ≡ d
    → of_ordinal n ≡ record { year = y; month = m; day = d }
unfolding of_ordinal
of_parts n y m d ey em ed = rw (ey, em, ed)

-- A date of the calendar is the date of its number.
pub of_ordinal-ordinal : (d : Date) → IsDate d → of_ordinal (ordinal d) ≡ d
unfolding ordinal
of_ordinal-ordinal d v =
    of_parts (ordinal d) d.year d.month d.day (year_of_lem d.year (ordinal d) within.0 within.1)
      (month_from_lem (february d.year) d.month (ordinal d - days_before_year d.year)
        (february_bounds d.year).0 v.in_year (omega arith) month_end)
      (omega (arith, v.from_first))
  where
    within : (days_before_year d.year ≤ ordinal d) × (ordinal d < days_before_year (suc d.year))
    within = ordinal_bounds d v

    month_end : ordinal d - days_before_year d.year < month_start (february d.year) (suc d.month)
    month_end =
        omega (arith, within, v.in_month, v.from_first, month_length_lem (february d.year) d.month)
