-- ===== src/Filters/Tests.antt =====
-- The filters at concrete inputs.
use operations_api.Common.{ℕ, arith, true, false, some, none, List, [], ◌∷◌, text, ltb}
use mathlib.Core.List.{Perm}
use operations_api.Tables.Sort.{IsOrdered, IsStrict}
use operations_api.Mappers.Health.{DiskRow, DiskItem, map_disks}
use operations_api.Filters.{DiskView, disk_filters, apply_disk_filters}
use operations_api.Filters.Disks.{IsAbove, apply_disk_filters-IsOrdered}

abbrev item : DiskItem ℕ
item = record {
  server_name = some (text "WEB01");
  fqdn = none;
  is_nonprod = false;
  disk_label = some (text "C:");
  service = none;
  environment = none;
  technical_owner = none;
  business_owner = none;
  business_unit = none;
  tier = none;
  volume_size_gb = some 100;
  used_gb = some 95;
  free_gb = some 5;
  percent_used = some 95;
  alert_status = some 3;
  threshold_warn_pct = none;
  threshold_crit_pct = none;
  days_until_critical = none;
}

abbrev rows : List (DiskRow ℕ)
rows = map_disks 0 (item ∷ item ∷ [])

abbrev view : DiskView ℕ ℕ
view = record {
  status = text "__all";
  owner = text "__all";
  envs = [];
  service = text "__all";
  include_nonprod = false;
  column = λ (d : DiskRow ℕ). d.days_until_critical;
  ascending = true;
}

ltb-IsStrict : IsStrict ltb
ltb-IsStrict = record { asym = λ a b h. ground arith; negtrans = λ a b c h k. ground arith }

apply_disk_filters-IsOrdered_example :
    IsOrdered (IsAbove ltb view) (apply_disk_filters ltb view rows)
    × Perm (apply_disk_filters ltb view rows) (disk_filters view rows)
apply_disk_filters-IsOrdered_example = apply_disk_filters-IsOrdered ltb view rows ltb-IsStrict
