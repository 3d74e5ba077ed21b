-- ===== src/Exclusions/Calendar/Range.antt =====
-- The days that the picker offers.
use operations_api.Common.{
  ℕ, zero, suc, ◌+◌, ◌≤◌, ◌<◌, ◌≡◌, arith, true, List, [], ◌∷◌, All, All-append, In, inl, inr, map,
  filter, if◌then◌else◌, Bool-cases, ap, subst,
}
use operations_api.Dates.{
  days_before_year, Date, ordinal, new_date, february, month_start, year_length,
}
use operations_api.Dates.Years.{days_before_year-suc}
use operations_api.Dates.Ordinals.{IsDate}
use operations_api.DateKit.Shapes.{of_months-IsDate, full_year-of_ge, ordinal-new_date}
use operations_api.Exclusions.Calendar.{
  Cell, Offset, months, cells_from, grid_cells, month_grid, offered,
}

-- A cell that can be picked lies between two days.
abbrev IsWithin : Date → Date → Cell → Type 0
IsWithin first last c =
    c.enabled ≡ true → (ordinal first ≤ ordinal c.date) × (ordinal c.date ≤ ordinal last)

cells_from-IsWithin :
    (k day y m : ℕ) (first last : Date)
    → All (IsWithin first last) (cells_from k day y m first last)
unfolding cells_from
cells_from-IsWithin zero day y m first last = tt
cells_from-IsWithin (suc k) day y m first last =
    (λ h. (ground arith, ground arith), cells_from-IsWithin k (suc day) y m first last)

grids-IsWithin :
    (ms : List Date) (first last : Date) → All (IsWithin first last) (grid_cells first last ms)
unfolding grid_cells month_grid
grids-IsWithin [] first last = tt
grids-IsWithin (m ∷ ms) first last =
    All-append (IsWithin first last) _ _ (cells_from-IsWithin _ _ _ _ first last)
      (grids-IsWithin ms first last)

abbrev dates : List Cell → List Date
dates cs = map (λ (c : Cell). c.date) cs

abbrev picked : List Cell → List Cell
picked cs = filter (λ (c : Cell). c.enabled) cs

In-picked :
    (first last : Date) (cs : List Cell) (d : Date)
    → All (IsWithin first last) cs
    → In d (map (λ (c : Cell). c.date) (filter (λ (c : Cell). c.enabled) cs))
    → (ordinal first ≤ ordinal d) × (ordinal d ≤ ordinal last)
In-picked first last [] d v i = elim i [ ]
In-picked first last (c ∷ cs) d (v, vs) i = elim (Bool-cases c.enabled) [
  | inl on ↦ elim (subst (λ b. In d (dates (if b then c ∷ picked cs else picked cs))) on i) [
    | inl e ↦ rw e (v on)
    | inr j ↦ In-picked first last cs d vs j
  ]
  | inr off ↦
      In-picked first last cs d vs
        (subst (λ b. In d (dates (if b then c ∷ picked cs else picked cs))) off i)
]

offered_days :
    (today d : Date) (o : Offset)
    → In d (offered today o)
    → (ordinal (new_date today.year today.month today.day) ≤ ordinal d)
      × (ordinal d ≤ ordinal (new_date (today.year + 1) today.month today.day))
unfolding offered
offered_days today d o i = In-picked _ _ _ d (grids-IsWithin (months today o) _ _) i

new_date-IsDate : (d : Date) → IsDate d → 100 ≤ d.year → new_date d.year d.month d.day ≡ d
unfolding new_date
new_date-IsDate d v h = rw (full_year-of_ge d.year h) (of_months-IsDate d v)

february_step : (y : ℕ) → (february y ≤ 29) × (28 ≤ february y) × (year_length y ≡ 337 + february y)
unfolding february year_length
february_step y = ground arith

month_start-step :
    (f g m : ℕ)
    → f ≤ 29
    → 28 ≤ f
    → g ≤ 29
    → 28 ≤ g
    → m < 12
    → 337 + f + month_start g m ≤ month_start f m + 366
unfolding month_start
month_start-step f g m h k i j l = ground arith

ordinal-year_on :
    (d : Date)
    → IsDate d
    → 100 ≤ d.year
    → ordinal (new_date (d.year + 1) d.month d.day) ≤ ordinal d + 366
unfolding ordinal days_before_year
ordinal-year_on d v h =
    let a = february_step d.year in
    let b = february_step (d.year + 1) in
    let step = month_start-step (february d.year) (february (d.year + 1)) d.month in
    omega (
      arith,
      ordinal-new_date (d.year + 1) d.month d.day (omega arith) v.in_year,
      step (omega arith) (omega arith) (omega arith) (omega arith) v.in_year,
      days_before_year-suc d.year,
      v.from_first,
    )

-- From a day of the calendar with a year of at least 100, whatever months the picker shows, it
-- offers only days from that day on, up to 366 days later.
pub offered_bounds :
    (today d : Date) (o : Offset)
    → IsDate today
    → 100 ≤ today.year
    → In d (offered today o)
    → (ordinal today ≤ ordinal d) × (ordinal d ≤ ordinal today + 366)
offered_bounds today d o v h i =
    let first = new_date-IsDate today v h in
    omega (arith, offered_days today d o i, ap ordinal first, ordinal-year_on today v h)
