-- ===== src/DateKit/RoundTrip.antt =====
-- frontend/js/op-datekit.js: a date written as ISO text and read again.
use operations_api.Common.{
  ℕ, ◌+◌, ◌/◌, ◌%◌, ◌≤◌, ◌<◌, ◌≡◌, refl, true, false, some, [], ◌∷◌, arith, Text, is_digit,
  decimal_year, pad_two-eq, number, is_space, trim,
}
use operations_api.Common.{trim-tight, is_empty}
use operations_api.Dates.{Date, ordinal, days_before_year, february, month_start, month_length}
use operations_api.Dates.Ordinals.{IsDate, ordinal_bounds}
use operations_api.Dates.Years.{february_bounds}
use operations_api.DateKit.{
  iso_local, iso_parts, mk, last_day, parse_loose, parse_trimmed, to_iso_date, Engine,
}
use operations_api.DateKit.Shapes.{new_date_from_one-IsDate}

-- A date with a year of four digits.
pub record IsWritable (d : Date) : Type 0 where
  pub is_date : IsDate d
  pub from_1000 : 1000 ≤ d.year
  pub to_9999 : d.year < 10_000

month_length-le : (feb m : ℕ) → feb ≤ 29 → month_length feb m ≤ 31
unfolding month_length month_start
month_length-le feb m h = ground arith

day_bound : (d : Date) → IsDate d → d.day ≤ 31
day_bound d v =
    omega (arith, v.in_month, month_length-le (february d.year) d.month (february_bounds d.year).1)

iso_text : ℕ → ℕ → ℕ → Text
iso_text y m d =
    (48 + y / 1000)
    ∷ (48 + y / 100 % 10)
    ∷ (48 + y / 10 % 10)
    ∷ (48 + y % 10)
    ∷ b'-'
    ∷ (48 + m / 10)
    ∷ (48 + m % 10)
    ∷ b'-'
    ∷ (48 + d / 10)
    ∷ (48 + d % 10)
    ∷ []

iso_local-eq : (d : Date) → IsWritable d → iso_local d ≡ iso_text d.year (d.month + 1) d.day
unfolding iso_local iso_text
iso_local-eq d w =
    let day = day_bound d w.is_date in
    let month = w.is_date.in_year in
    rw
      (
        decimal_year d.year w.from_1000 w.to_9999,
        pad_two-eq (d.month + 1) (omega (arith, month)),
        pad_two-eq d.day (omega (arith, day)),
      )
      refl

digit_lem : (n : ℕ) → n < 10 → is_digit (48 + n) ≡ true
digit_lem n h = ground arith

digit-not_space : (n : ℕ) → n < 10 → is_space (48 + n) ≡ false
unfolding is_space
digit-not_space n h = ground arith

iso_parts-iso_text :
    (y m d : ℕ) → y < 10_000 → m < 100 → d < 100 → iso_parts (iso_text y m d) ≡ some (y, m, d)
unfolding iso_parts iso_text number
iso_parts-iso_text y m d h k l =
    rw
      (
        digit_lem (y / 1000) (omega arith),
        digit_lem (y / 100 % 10) (omega arith),
        digit_lem (y / 10 % 10) (omega arith),
        digit_lem (y % 10) (omega arith),
        digit_lem (m / 10) (omega arith),
        digit_lem (m % 10) (omega arith),
        digit_lem (d / 10) (omega arith),
        digit_lem (d % 10) (omega arith),
      )
      (ground arith)

trim-iso_text : (y m d : ℕ) → y < 10_000 → d < 100 → trim (iso_text y m d) ≡ iso_text y m d
unfolding iso_text
trim-iso_text y m d h l =
    let middle : Text =
      (48 + y / 100 % 10)
      ∷ (48 + y / 10 % 10)
      ∷ (48 + y % 10)
      ∷ b'-'
      ∷ (48 + m / 10)
      ∷ (48 + m % 10)
      ∷ b'-'
      ∷ (48 + d / 10)
      ∷ [] in
    trim-tight (48 + y / 1000) middle (48 + d % 10) (digit-not_space (y / 1000) (omega arith))
      (digit-not_space (d % 10) (omega arith))

iso_text-filled : (y m d : ℕ) → is_empty (iso_text y m d) ≡ false
unfolding iso_text
iso_text-filled y m d = refl

ordinal-below : (d : Date) → IsWritable d → ordinal d ≤ last_day
unfolding days_before_year
ordinal-below d w = omega (arith, ordinal_bounds d w.is_date, w.to_9999)

mk_lem : (d : Date) → IsWritable d → mk d.year (d.month + 1) d.day ≡ some d
unfolding mk
mk_lem d w =
    rw (new_date_from_one-IsDate d w.is_date (omega (arith, w.from_1000)))
      (ground (arith, ordinal-below d w))

parse_trimmed-iso :
    (E : Engine) (s : Text) {y m d : ℕ}
    → iso_parts s ≡ some (y, m, d)
    → parse_trimmed E s ≡ mk y m d
unfolding parse_trimmed
parse_trimmed-iso E s h = rw (parse_trimmed, h) refl

-- A date of the calendar with a year of four digits, written as ISO text, has its three numbers
-- read back, and is what the text is parsed to; the text itself is its own ISO form.
pub iso_round_trip :
    (E : Engine) (d : Date)
    → IsWritable d
    → (iso_parts (iso_local d) ≡ some (d.year, d.month + 1, d.day))
      × (parse_loose E (iso_local d) ≡ some d)
      × (to_iso_date E (iso_local d) ≡ some (iso_local d))
unfolding parse_loose to_iso_date
iso_round_trip E d w =
    let written = iso_local-eq d w in
    let day : d.day < 100 = omega (arith, day_bound d w.is_date) in
    let month : d.month + 1 < 100 = omega (arith, w.is_date.in_year) in
    let parts = iso_parts-iso_text d.year (d.month + 1) d.day w.to_9999 month day in
    let trimmed = trim-iso_text d.year (d.month + 1) d.day w.to_9999 day in
    let made = mk_lem d w in
    let filled = iso_text-filled d.year (d.month + 1) d.day in
    let parsed = parse_trimmed-iso E (iso_text d.year (d.month + 1) d.day) parts in
    (
      rw written parts,
      rw (written, trimmed, filled, parsed) made,
      rw (written, filled, trimmed, parts, written, trimmed) refl,
    )
