-- ===== src/Mappers/Tests.antt =====
-- The mappers at concrete inputs.
use mathlib.Core.List.{Perm}
use operations_api.Common.{true, none, some, [], ◌∷◌, text}
use operations_api.Tables.{compare_by}
use operations_api.Tables.Sort.{IsOrdered, compare_by-IsConsistent}
use operations_api.Tables.Cells.{text_lt, text_lt-IsStrict}
use operations_api.Mappers.Patching.{
  Locale, Cycle, map_patch_groups, unsorted_groups, cycle_group, when_of,
}
use operations_api.Mappers.Order.{map_patch_groups-IsOrdered, Precedes}

-- One time for every text, names by their code units.
abbrev code_units : Locale
code_units = record { time_of = λ t. some 20; compare_names = compare_by text_lt true }

abbrev cycle : Cycle
cycle = record {
  cycle_id = 3;
  cycle_date = some (text "2026-12-03");
  display_status = none;
  status = some (text "queued");
  server_count = some 40;
  completed_count = none;
  failed_count = none;
}

map_patch_groups-IsOrdered_example :
    let groups = map_patch_groups code_units (cycle ∷ []) none in
    IsOrdered (Precedes code_units) groups
    × Perm groups (unsorted_groups code_units (cycle ∷ []) none)
unfolding unsorted_groups cycle_group when_of
map_patch_groups-IsOrdered_example =
    map_patch_groups-IsOrdered code_units (cycle ∷ []) none
      (compare_by-IsConsistent text_lt true text_lt-IsStrict) (λ h. cc, tt)
