-- ===== src/Mappers/Health.antt =====
-- frontend/js/op-boot.js, mapSyncs, sourceFromId, mapAlerts and mapDisks.
use operations_api.Common.{
  ℕ, suc, ◌+◌, Bool, false, ◌||◌, Option, none, some, List, [], ◌∷◌, Text, text, text_eq,
  if◌then◌else◌, map, starts_with, ltb, ◌==◌, get_or,
}
use operations_api.Console.{Alert}
use operations_api.Mappers.{text_or, or_null, count}

pub record SyncItem : Type 0 where
  pub sync_name : Text
  pub status : Option Text
  pub freshness_status : Option Text
  pub consecutive_failures : Option ℕ
  pub last_success_at : Option Text
  pub records_processed : Option ℕ
  pub last_error_message : Option Text
  pub expected_schedule : Option Text

pub data SyncTone : Type 0 where
  crit warn healthy : SyncTone

-- The last success is kept as the text that `new Date` is made from.
pub record SyncRow : Type 0 where
  pub name : Text
  pub status : SyncTone
  pub last : Option Text
  pub records : ℕ
  pub failures : ℕ
  pub err : Text
  pub schedule : Text

abbrev pub is_text : Option Text → Text → Bool
is_text none t = false
is_text (some s) t = text_eq s t

unfoldable pub sync_tone : SyncItem → SyncTone
sync_tone s =
    if is_text s.status (text "error") || is_text s.freshness_status (text "error")
    then crit
    else if is_text s.status (text "warning")
        || (is_text s.freshness_status (text "stale") || ltb 0 (count s.consecutive_failures))
    then warn
    else healthy

unfoldable pub map_syncs : List SyncItem → List SyncRow
map_syncs items =
    map
      (λ (s : SyncItem). record {
        name = s.sync_name;
        status = sync_tone s;
        last = or_null s.last_success_at;
        records = count s.records_processed;
        failures = count s.consecutive_failures;
        err = text_or s.last_error_message (text "—");
        schedule = text_or s.expected_schedule [];
      })
      items

-- `sourceFromId`, where no source is the empty text
unfoldable pub source_from_id : Text → Text
source_from_id s =
    if starts_with s (text "disk:")
    then text "Disks"
    else if starts_with s (text "cert:")
    then text "Certs"
    else if starts_with s (text "sync:")
    then text "Sync"
    else if starts_with s (text "server:")
    then text "Servers"
    else if starts_with s (text "exclusion:")
    then text "Patching"
    else []

pub record AlertItem : Type 0 where
  pub id : Text
  pub sub : Text
  pub detail : Text
  pub tone : Option Text

-- The date of an alert is left out, as the console does not read it.
unfoldable pub map_alerts : List AlertItem → List Alert
map_alerts items =
    map
      (λ (a : AlertItem). record {
        id = a.id;
        sub = a.sub;
        detail = a.detail;
        tone = text_or a.tone (text "info");
        source = source_from_id a.id;
      })
      items

-- `Number(x) || d` of a whole number that may be missing.
abbrev or_number : Option ℕ → ℕ → ℕ
or_number n d = elim n [ none ↦ d | some m ↦ if m == 0 then d else m ]

-- A disk as the API answers, its sizes of the type `F`; a missing or zero size is `zero`.
module _ (F : Type 0) where
  pub record DiskItem : Type 0 where
    pub server_name : Option Text
    pub fqdn : Option Text
    pub is_nonprod : Bool
    pub disk_label : Option Text
    pub service : Option Text
    pub environment : Option Text
    pub technical_owner : Option Text
    pub business_owner : Option Text
    pub business_unit : Option Text
    pub tier : Option Text
    pub volume_size_gb : Option F
    pub used_gb : Option F
    pub free_gb : Option F
    pub percent_used : Option F
    pub alert_status : Option ℕ
    pub threshold_warn_pct : Option ℕ
    pub threshold_crit_pct : Option ℕ
    pub days_until_critical : Option F

  pub record DiskRow : Type 0 where
    pub id : ℕ
    pub server_name : Text
    pub fqdn : Option Text
    pub is_nonprod : Bool
    pub disk_label : Text
    pub service : Text
    pub environment : Text
    pub technical_owner : Text
    pub business_owner : Text
    pub business_unit : Text
    pub tier : Text
    pub volume_size_gb : F
    pub used_gb : F
    pub free_gb : F
    pub percent_used : F
    pub alert_status : ℕ
    pub threshold_warn_pct : ℕ
    pub threshold_crit_pct : ℕ
    pub days_until_critical : Option F

module _ {F : Type 0} (zero_size : F) where
  disk_row : ℕ → DiskItem F → DiskRow F
  disk_row i d = record {
    id = i + 1;
    server_name = text_or d.server_name [];
    fqdn = or_null d.fqdn;
    is_nonprod = d.is_nonprod;
    disk_label = text_or d.disk_label [];
    service = text_or d.service [];
    environment = text_or d.environment [];
    technical_owner = text_or d.technical_owner [];
    business_owner = text_or d.business_owner [];
    business_unit = text_or d.business_unit (text "Unknown");
    tier = text_or d.tier [];
    volume_size_gb = get_or d.volume_size_gb zero_size;
    used_gb = get_or d.used_gb zero_size;
    free_gb = get_or d.free_gb zero_size;
    percent_used = get_or d.percent_used zero_size;
    alert_status = or_number d.alert_status 1;
    threshold_warn_pct = or_number d.threshold_warn_pct 80;
    threshold_crit_pct = or_number d.threshold_crit_pct 90;
    days_until_critical = d.days_until_critical;
  }

  disk_rows_from : ℕ → List (DiskItem F) → List (DiskRow F)
  disk_rows_from i [] = []
  disk_rows_from i (d ∷ ds) = disk_row i d ∷ disk_rows_from (suc i) ds

  unfoldable pub map_disks : List (DiskItem F) → List (DiskRow F)
  unfolding disk_rows_from disk_row
  map_disks items = disk_rows_from 0 items
