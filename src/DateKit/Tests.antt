-- ===== src/DateKit/Tests.antt =====
-- Dates at concrete inputs.
use operations_api.Common.{
  ◌≡◌, refl, arith, some, if◌then◌else◌, ltb, text, trim, number, none, text_eq,
}
use operations_api.Dates.{ordinal, of_ordinal, calendar}
use operations_api.Dates.Ordinals.{IsDate, of_ordinal-ordinal, ordinal-of_ordinal}
use operations_api.DateKit.{
  iso_local, iso_parts, parse_loose, to_iso_date, add_days, derive_state, date, overdue,
  expiring_soon, active, parse_display, split_spaces, drop_marks, month_index, mk, to_number,
}
use operations_api.DateKit.RoundTrip.{IsWritable, iso_round_trip}
use operations_api.DateKit.Holds.{derive_state-add_days}
use operations_api.Samples.{plain_engine, thursday}

thursday-IsDate : IsDate thursday
unfolding calendar
thursday-IsDate = record { in_year = omega arith; from_first = omega arith; in_month = omega arith }

thursday-IsWritable : IsWritable thursday
thursday-IsWritable = record {
  is_date = thursday-IsDate;
  from_1000 = omega arith;
  to_9999 = omega arith;
}

of_ordinal-ordinal_example : of_ordinal (ordinal thursday) ≡ thursday
of_ordinal-ordinal_example = of_ordinal-ordinal thursday thursday-IsDate

ordinal-of_ordinal_example : ordinal (of_ordinal 740_000) ≡ 740_000
ordinal-of_ordinal_example = ordinal-of_ordinal 740_000

iso_round_trip_example :
    (iso_parts (iso_local thursday) ≡ some (2026, 11, 26))
    × (parse_loose plain_engine (iso_local thursday) ≡ some thursday)
    × (to_iso_date plain_engine (iso_local thursday) ≡ some (iso_local thursday))
iso_round_trip_example = iso_round_trip plain_engine thursday thursday-IsWritable

derive_state-add_days_example :
    (derive_state plain_engine (date (add_days thursday 6)) (date thursday)
      ≡ (if ltb 6 7 then expiring_soon else active))
    × (derive_state plain_engine (date thursday) (date (add_days thursday 7)) ≡ overdue)
derive_state-add_days_example =
    derive_state-add_days plain_engine thursday 6 thursday-IsDate (omega arith)

display_tests :
    (parse_loose plain_engine (text "1 Sept 2026")
      ≡ some (record { year = 2026; month = 8; day = 1 }))
    × (parse_loose plain_engine (text " Apr 22, 2026 ")
        ≡ some (record { year = 2026; month = 3; day = 22 }))
    × (parse_loose plain_engine (text "32 Apr 2026") ≡ none)
unfolding parse_loose parse_display split_spaces drop_marks month_index mk to_number number trim
    text_eq iso_parts calendar
display_tests = (refl, refl, refl)
