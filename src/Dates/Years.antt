-- ===== src/Dates/Years.antt =====
-- The year and the month that a day falls in.
use native.Mathlib.Nat.{le_refl}
use operations_api.Common.{
  ℕ, zero, suc, ◌+◌, ◌*◌, ◌/◌, ◌≤◌, ◌<◌, ◌≡◌, refl, inl, inr, arith, leb, Bool-cases,
}
use operations_api.Dates.{
  is_leap, days_before_year, year_length, february, month_start, year_from, month_from, year_of,
}

-- The closed formula agrees with the leap rule.
pub days_before_year-suc : (y : ℕ) → days_before_year (suc y) ≡ days_before_year y + year_length y
unfolding days_before_year year_length is_leap
days_before_year-suc y = ground arith

pub year_length_bounds : (y : ℕ) → (365 ≤ year_length y) × (year_length y ≤ 366)
unfolding year_length
year_length_bounds y = ground arith

pub twelve_months : (y : ℕ) → month_start (february y) 12 ≡ year_length y
unfolding february year_length month_start
twelve_months y = ground arith

pub february_bounds : (y : ℕ) → (28 ≤ february y) × (february y ≤ 29)
unfolding february
february_bounds y = ground arith

days_before_year_mono : (y z : ℕ) → y ≤ z → days_before_year y ≤ days_before_year z
days_before_year_mono y zero h = let e : y ≡ 0 = omega arith in rw e (le_refl _)
days_before_year_mono y (suc z) h = elim (Bool-cases (leb y z)) [
  | inl le ↦ omega (arith, days_before_year_mono y z (ground arith), days_before_year-suc z)
  | inr gt ↦ let e : y ≡ suc z = ground arith in rw e (le_refl _)
]

year_from_lem :
    (k y n : ℕ) → y ≤ k → days_before_year y ≤ n → n < days_before_year (suc y) → year_from k n ≡ y
unfolding year_from
year_from_lem zero y n le h lt = omega arith
year_from_lem (suc k) y n le h lt = elim (Bool-cases (leb (days_before_year (suc k)) n)) [
  | inl starts ↦ rw starts (ground (arith, days_before_year_mono (suc y) (suc k)))
  | inr later ↦
      let same = days_before_year_mono (suc k) y in
      rw later (year_from_lem k y n (ground (arith, same)) h lt)
]

zero_days : days_before_year 0 ≡ 0
unfolding days_before_year
zero_days = refl

-- Every year has at least 365 days.
days_before_year-ge : (y : ℕ) → 365 * y ≤ days_before_year y
unfolding days_before_year
days_before_year-ge y = omega arith

year_from_bounds :
    (k n : ℕ)
    → n < days_before_year (suc k)
    → (days_before_year (year_from k n) ≤ n) × (n < days_before_year (suc (year_from k n)))
unfolding year_from
year_from_bounds zero n h = (let e : days_before_year 0 ≡ 0 = zero_days in rw e (omega arith), h)
year_from_bounds (suc k) n h = ground (arith, year_from_bounds k n)

-- A day falls in its year.
pub year_of_bounds :
    (n : ℕ) → (days_before_year (year_of n) ≤ n) × (n < days_before_year (suc (year_of n)))
unfolding year_of
year_of_bounds n = year_from_bounds (n / 365) n (omega (arith, days_before_year-ge (suc (n / 365))))

pub year_of_lem : (y n : ℕ) → days_before_year y ≤ n → n < days_before_year (suc y) → year_of n ≡ y
unfolding year_of
year_of_lem y n h lt = year_from_lem (n / 365) y n (omega (arith, days_before_year-ge y)) h lt

pub month_from_bounds :
    (feb n : ℕ)
    → 28 ≤ feb
    → feb ≤ 29
    → n < month_start feb 12
    → let m = month_from feb 11 n in
      (m < 12) × (month_start feb m ≤ n) × (n < month_start feb (suc m))
unfolding month_from month_start
month_from_bounds feb n h k lt = ground arith

pub month_from_lem :
    (feb m n : ℕ)
    → 28 ≤ feb
    → m < 12
    → month_start feb m ≤ n
    → n < month_start feb (suc m)
    → month_from feb 11 n ≡ m
unfolding month_from month_start
month_from_lem feb m n h lt low high = ground arith
