-- ===== src/DateKit/Holds.antt =====
-- frontend/js/op-datekit.js, deriveState: a hold that ends a number of days from today.
use operations_api.Common.{ℕ, suc, ◌≤◌, ◌≡◌, refl, arith, if◌then◌else◌, ltb}
use operations_api.Dates.{Date}
use operations_api.Dates.Ordinals.{IsDate}
use operations_api.DateKit.{
  Engine, date, written, overdue, expiring_soon, active, add_days, iso_local, derive_state,
}
use operations_api.DateKit.Shapes.{ordinal-add_days}
use operations_api.DateKit.RoundTrip.{IsWritable, iso_round_trip}

-- From a date with a year of at least 100, a hold that ends 0 to 6 days later expires soon, one that
-- ends 7 or more days later is active, and a hold that ended one or more days before is overdue.
pub derive_state-add_days :
    (E : Engine) (d : Date) (n : ℕ)
    → IsDate d
    → 100 ≤ d.year
    → (derive_state E (date (add_days d n)) (date d) ≡ (if ltb n 7 then expiring_soon else active))
      × (derive_state E (date d) (date (add_days d (suc n))) ≡ overdue)
unfolding derive_state
derive_state-add_days E d n v h =
    let later = ordinal-add_days d n v h in
    let past = ordinal-add_days d (suc n) v h in (ground arith, ground arith)

-- A hold's end with a year of four digits that is kept as ISO text gives the state of the date, on
-- any day.
pub derive_state-iso_local :
    (E : Engine) (d t : Date)
    → IsWritable d
    → derive_state E (written (iso_local d)) (date t) ≡ derive_state E (date d) (date t)
unfolding derive_state
derive_state-iso_local E d t w = rw ((iso_round_trip E d w).1) refl
