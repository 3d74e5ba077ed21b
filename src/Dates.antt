-- ===== src/Dates.antt =====
-- The part of the language's `Date` that the console relies on: a date at local midnight, by its
-- local year, month (from 0) and day. Days are counted from 1 January of the year 0. Dates before
-- that are outside the model.
pub mod Years
pub mod Ordinals
use operations_api.Common.{
  refl, ◌≡◌, refl, ◌≡◌, ℕ, zero, suc, ◌+◌, ◌-◌, ◌*◌, ◌/◌, ◌%◌, ◌≤◌, ◌<◌, Bool, true, false, not,
  ◌&&◌, ◌||◌, ltb, leb, ◌==◌, if◌then◌else◌,
}

pub record Date : Type 0 where
  pub year : ℕ
  pub month : ℕ
  pub day : ℕ

unfoldable pub is_leap : ℕ → Bool
is_leap y = (y % 4 == 0 && not (y % 100 == 0)) || y % 400 == 0

unfoldable pub days_before_year : ℕ → ℕ
days_before_year y = 365 * y + (y + 3) / 4 + (y + 399) / 400 - (y + 99) / 100

unfoldable pub february : ℕ → ℕ
unfolding is_leap
february y = if is_leap y then 29 else 28

unfoldable pub year_length : ℕ → ℕ
unfolding is_leap
year_length y = if is_leap y then 366 else 365

-- The days before a month, given the length of February; 12 is the end of the year.
unfoldable pub month_start : ℕ → ℕ → ℕ
month_start feb m =
    if m == 0
    then 0
    else if m == 1
    then 31
    else if m == 2
    then 31 + feb
    else if m == 3
    then 62 + feb
    else if m == 4
    then 92 + feb
    else if m == 5
    then 123 + feb
    else if m == 6
    then 153 + feb
    else if m == 7
    then 184 + feb
    else if m == 8
    then 215 + feb
    else if m == 9
    then 245 + feb
    else if m == 10
    then 276 + feb
    else if m == 11
    then 306 + feb
    else 337 + feb

unfoldable pub month_length : ℕ → ℕ → ℕ
month_length feb m = month_start feb (suc m) - month_start feb m

unfoldable pub ordinal : Date → ℕ
ordinal d = days_before_year d.year + month_start (february d.year) d.month + (d.day - 1)

-- The last year, from `k` down, that starts on or before day `n`.
year_from : ℕ → ℕ → ℕ
year_from zero n = zero
year_from (suc k) n =
    let earlier = year_from k n in if leb (days_before_year (suc k)) n then suc k else earlier

pub month_from : ℕ → ℕ → ℕ → ℕ
month_from feb zero n = zero
month_from feb (suc k) n =
    let earlier = month_from feb k n in if leb (month_start feb (suc k)) n then suc k else earlier

unfoldable pub year_of : ℕ → ℕ
unfolding year_from
year_of n = year_from (n / 365) n

unfoldable pub of_ordinal : ℕ → Date
of_ordinal n =
    let y = year_of n in
    let rest = n - days_before_year y in
    let m = month_from (february y) 11 rest in
    record { year = y; month = m; day = rest - month_start (february y) m + 1 }

-- `new Date(y, m, d)`: months and days run over, and a year below 100 is one of the 1900s.
unfoldable pub full_year : ℕ → ℕ
full_year y = if ltb y 100 then 1900 + y else y

-- Months are counted from the start of the year 0.
unfoldable pub of_months : ℕ → ℕ → Date
of_months m d =
    of_ordinal (days_before_year (m / 12) + month_start (february (m / 12)) (m % 12) + d - 1)

unfoldable pub new_date : ℕ → ℕ → ℕ → Date
new_date y m d = of_months (full_year y * 12 + m) d

-- `new Date(y, m - 1, d)`, where `m` may be 0.
unfoldable pub new_date_from_one : ℕ → ℕ → ℕ → Date
new_date_from_one y m d = of_months (full_year y * 12 + m - 1) d

-- `getDay()`, Sunday as 0: the first day of the year 0 was a Saturday.
unfoldable pub get_day : Date → ℕ
get_day d = (ordinal d + 6) % 7

-- For tests: all that a date computes with.
unfoldable pub calendar : Unit {0}
unfolding new_date new_date_from_one full_year get_day of_months of_ordinal ordinal year_of
    month_from month_length month_start february days_before_year
calendar = tt

day_tests :
    (new_date 2026 10 26 ≡ record { year = 2026; month = 10; day = 26 })
    × (get_day (record { year = 2026; month = 10; day = 26 }) ≡ 4)
    × (new_date 2024 1 30 ≡ record { year = 2024; month = 2; day = 1 })
    × (new_date 2026 12 31 ≡ record { year = 2027; month = 0; day = 31 })
    × (new_date_from_one 2026 0 31 ≡ record { year = 2025; month = 11; day = 31 })
    × (new_date 26 3 0 ≡ record { year = 1926; month = 2; day = 31 })
unfolding calendar
day_tests = (refl, refl, refl, refl, refl, refl)
