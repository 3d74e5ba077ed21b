-- ===== src/Common/Decimals.antt =====
-- `String(n)` of a natural number, and `+s` of a run of digits.
use operations_api.Common.Tests.{ltb, leb, if◌then◌else◌}
use operations_api.Common.Lists.{all}
use operations_api.Common.Texts.{Text}
use Prim.Native.Nat.{ℕ, zero, suc, ◌+◌, ◌-◌, ◌*◌, ◌/◌, ◌%◌, ◌<◌, ◌≤◌}
use mathlib.Core.Path.{◌≡◌, refl}
use mathlib.Core.Bool.{Bool, true, ◌&&◌}
use mathlib.Core.List.{[], ◌∷◌, ◌++◌}
use native.Mathlib.Omega.{arith}

decimal_fuel : ℕ → ℕ → Text
decimal_fuel zero n = []
decimal_fuel (suc f) n =
    let rest = decimal_fuel f (n / 10) in
    if ltb n 10 then (48 + n) ∷ [] else rest ++ (48 + n % 10) ∷ []

-- `String(n)`; a number has fewer digits than its successor counts.
unfoldable pub decimal : ℕ → Text
unfolding decimal_fuel
decimal n = decimal_fuel (suc n) n

-- `padStart(2, '0')` of it.
unfoldable pub pad_two : ℕ → Text
unfolding decimal
pad_two n = if ltb n 10 then 48 ∷ decimal n else decimal n

abbrev pub is_digit : ℕ → Bool
is_digit c = leb 48 c && leb c 57

number_from : ℕ → Text → ℕ
number_from acc [] = acc
number_from acc (c ∷ s) = number_from (acc * 10 + (c - 48)) s

-- `+s` for a run of digits.
unfoldable pub number : Text → ℕ
unfolding number_from
number s = number_from 0 s

pub number_of_digit : (a : ℕ) → number ((48 + a) ∷ []) ≡ a
unfolding number number_from
number_of_digit a = omega arith

pub number_of_digits : (a b : ℕ) → number ((48 + a) ∷ (48 + b) ∷ []) ≡ a * 10 + b
unfolding number number_from
number_of_digits a b = omega arith

number_from-append :
    (acc : ℕ) (s : Text) (c : ℕ) → number_from acc (s ++ c ∷ []) ≡ number_from acc s * 10 + (c - 48)
unfolding number_from
number_from-append acc [] c = refl
number_from-append acc (d ∷ s) c = number_from-append (acc * 10 + (d - 48)) s c

number_from-decimal_fuel : (f n : ℕ) → n < f → number_from 0 (decimal_fuel f n) ≡ n
unfolding decimal_fuel number_from
number_from-decimal_fuel zero n h = elim h [ ]
number_from-decimal_fuel (suc f) n h = ground (
  arith,
  number_from-decimal_fuel f (n / 10),
  number_from-append 0 (decimal_fuel f (n / 10)) (48 + n % 10),
)

-- Printing a number and reading it again.
pub number-decimal : (n : ℕ) → number (decimal n) ≡ n
unfolding number decimal
number-decimal n = number_from-decimal_fuel (suc n) n (omega arith)

all-is_digit-append :
    (s : Text) (c : ℕ)
    → all is_digit s ≡ true
    → is_digit c ≡ true
    → all is_digit (s ++ c ∷ []) ≡ true
all-is_digit-append [] c h k = ground arith
all-is_digit-append (d ∷ s) c h k = ground (arith, all-is_digit-append s c)

all-is_digit-decimal_fuel : (f n : ℕ) → all is_digit (decimal_fuel f n) ≡ true
unfolding decimal_fuel
all-is_digit-decimal_fuel zero n = refl
all-is_digit-decimal_fuel (suc f) n = ground (
  arith,
  all-is_digit-decimal_fuel f (n / 10),
  all-is_digit-append (decimal_fuel f (n / 10)) (48 + n % 10),
)

pub all-is_digit-decimal : (n : ℕ) → all is_digit (decimal n) ≡ true
unfolding decimal
all-is_digit-decimal n = all-is_digit-decimal_fuel (suc n) n

decimal_fuel_digit : (f n : ℕ) → 0 < f → n < 10 → decimal_fuel f n ≡ (48 + n) ∷ []
unfolding decimal_fuel
decimal_fuel_digit zero n h k = elim h [ ]
decimal_fuel_digit (suc f) n h k = ground arith

-- Below a hundred, two digits.
pub pad_two-eq : (n : ℕ) → n < 100 → pad_two n ≡ (48 + n / 10) ∷ (48 + n % 10) ∷ []
unfolding pad_two decimal_fuel
pad_two-eq n h = ground (arith, decimal_fuel_digit n (n / 10), decimal_fuel_digit (suc n) n)

decimal_fuel-suc :
    (f n : ℕ) → 10 ≤ n → decimal_fuel (suc f) n ≡ decimal_fuel f (n / 10) ++ (48 + n % 10) ∷ []
unfolding decimal_fuel
decimal_fuel-suc f n h = ground arith

-- The digits of a year of four digits.
abbrev pub year_digits : ℕ → Text
year_digits y = (48 + y / 1000) ∷ (48 + y / 100 % 10) ∷ (48 + y / 10 % 10) ∷ (48 + y % 10) ∷ []

decimal_fuel_year : (f y : ℕ) → 3 < f → 1000 ≤ y → y < 10_000 → decimal_fuel f y ≡ year_digits y
decimal_fuel_year (suc (suc (suc (suc f)))) y h low high =
    let thousands : y / 10 / 10 / 10 ≡ y / 1000 = omega arith in
    let hundreds : y / 10 / 10 ≡ y / 100 = omega arith in
    rw
      (
        decimal_fuel-suc (suc (suc (suc f))) y (omega arith),
        decimal_fuel-suc (suc (suc f)) (y / 10) (omega arith),
        decimal_fuel-suc (suc f) (y / 10 / 10) (omega arith),
        decimal_fuel_digit (suc f) (y / 10 / 10 / 10) (omega arith) (omega arith),
        thousands,
        hundreds,
      )
      refl
decimal_fuel_year zero y h low high = elim h [ ]
decimal_fuel_year (suc zero) y h low high = ground arith
decimal_fuel_year (suc (suc zero)) y h low high = ground arith
decimal_fuel_year (suc (suc (suc zero))) y h low high = ground arith

pub decimal_year : (y : ℕ) → 1000 ≤ y → y < 10_000 → decimal y ≡ year_digits y
unfolding decimal
decimal_year y low high = decimal_fuel_year (suc y) y (omega arith) low high
