-- ===== src/Boot/World.antt =====
-- The globals of the pages that the boot fills, and the answers that it fills them from.
use operations_api.Common.{
  ℕ, suc, Bool, false, Option, List, [], ◌∷◌, Text, text_eq, ltb, if◌then◌else◌, max,
}
use operations_api.Router.{Browser}
use operations_api.Tables.{compare_by, sort}
use operations_api.Api.{Store}
use operations_api.Console.{Alert}
use operations_api.Mappers.{
  ServerItem, ServerRow, Share, Portion, UnreachableItem, UnreachableRow, UnmatchedItem,
  UnmatchedRow, CertItem, CertRow, CertSummary, CertCounts, EolItem, EolRow,
}
use operations_api.Mappers.Patching.{
  Locale, Cycle, NextSummary, Group, CycleRow, IssueItem, IssueRow,
}
use operations_api.Mappers.Health.{SyncItem, SyncRow, AlertItem, DiskItem, DiskRow}
use operations_api.Mappers.Summaries.{
  CertFacets, CertBreakdown, EolSummary, EolTotals, DiskSummaryItem, DiskSummary,
  ExclusionSummaryItem, ExclusionSummary,
}
use operations_api.Exclusions.Rows.{Item, Row}
use operations_api.Licensing.{LicenceItem, LicensingData}
use operations_api.Auditing.{AppItem, CampaignItem, AuditingData}
use operations_api.Boot.Servers.{Inventory}

-- What the browser and its locale do to the texts.
pub record Forms : Type 0 where
  pub browser : Browser
  pub locale : Locale
  pub upper : Text → Text
  pub show_time : Text → Text
  pub show_date : Text → Text
  pub month_label : Text → Text
  pub window_label : Text → Text

-- `/servers/summary`
pub record ServersSummary : Type 0 where
  pub environment_counts : List Share
  pub business_unit_counts : List Share
  pub total_count : ℕ

-- `/certificates/summary`, as the two mappers read it.
pub record CertsSummary : Type 0 where
  pub counts : CertSummary
  pub facets : CertFacets

-- `/patching/next`, as mapPatchGroups reads it, and with its cycle.
pub record NextItem : Type 0 where
  pub summary : NextSummary
  pub cycle_id : Option ℕ
  pub cycle_date : Option Text
  pub days_until : Option ℕ
  pub is_stale : Bool
  pub days_overdue : Option ℕ

-- `window.PATCH_NEXT_CYCLE`
pub record NextCycle : Type 0 where
  pub cycle_id : Option ℕ
  pub cycle_date : Option Text
  pub days_until : Option ℕ
  pub is_stale : Bool
  pub days_overdue : ℕ

-- `/disks`
pub record DisksAnswer (F : Type 0) : Type 0 where
  pub items : List (DiskItem F)
  pub total_count : Option ℕ

-- `window.DISKS_DATA`
pub record DisksData (F : Type 0) : Type 0 where
  pub items : List (DiskRow F)
  pub total_count : ℕ
  pub current_envs : List Text
  pub current_bu : Text
  pub current_status : Option Text

-- `window.SERVERS_DATA`
pub record ServersData : Type 0 where
  pub servers : List ServerRow
  pub srv_total : Option ℕ
  pub srv_env : List Portion
  pub srv_env_max : ℕ
  pub srv_bu : List Portion
  pub env_breakdown : List Portion
  pub unreachable : List UnreachableRow
  pub unmatched : List UnmatchedRow

-- `U` is the type of what is kept as it came: the unmatched products and the current user.
pub record World (F U : Type 0) : Type 0 where
  pub store : Store
  pub servers_data : ServersData
  pub certs : List CertRow
  pub cert_counts : CertCounts
  pub cert_breakdown : CertBreakdown
  pub eol_products : List EolRow
  pub eol_totals : EolTotals
  pub eol_unmatched : List U
  pub patch_groups : List Group
  pub patch_next_cycle : Option NextCycle
  pub patch_cycles : List CycleRow
  pub patch_issues : List IssueRow
  pub syncs : List SyncRow
  pub recent_alerts : List Alert
  pub exclusions : List Row
  pub excl_breakdown : Option ExclusionSummary
  pub licensing : LicensingData
  pub auditing : AuditingData
  pub current_user : Option U
  pub disks_data : DisksData F
  pub disk_summary : Option DiskSummary
  pub disk_summary_prod : Option DiskSummary

-- An answer as its handler gets it: `none` where the handler turns it down, as null or as no array.
-- The inventory and the audit data are the results of fetchAllServers and of fetchAuditing's fetches.
pub data Landing (F U : Type 0) : Type 0 where
  inventory : Option (Inventory ServerItem) → Landing F U
  servers_summary : Option ServersSummary → Landing F U
  unreachable : Option (List UnreachableItem) → Landing F U
  unmatched : Option (List UnmatchedItem) → Landing F U
  certificates : Option (List CertItem) → Landing F U
  certs_summary : Option CertsSummary → Landing F U
  eol : Option (List EolItem) → Landing F U
  eol_summary : Option EolSummary → Landing F U
  eol_unmatched : Option (List U) → Landing F U
  patching : Option (List Cycle) → Option NextItem → Landing F U
  all_cycles : Option (List Cycle) → Landing F U
  issues : Option (List IssueItem) → Landing F U
  syncs : Option (List SyncItem) → Landing F U
  alerts : Option (List AlertItem) → Landing F U
  exclusions : Option (List Item) → Landing F U
  exclusions_summary : Option ExclusionSummaryItem → Landing F U
  licences : Option (List LicenceItem) → Landing F U
  audits : Option (List (Option AppItem) × List (Option CampaignItem)) → Landing F U
  me : Option U → Landing F U
  disks : Option (DisksAnswer F) → Landing F U
  disks_summary : Option DiskSummaryItem → Landing F U
  disks_summary_prod : Option DiskSummaryItem → Landing F U

-- `envCounts[s.env] = (envCounts[s.env] || 0) + 1`; no environment's name is a number.
count_env : Text → List Portion → List Portion
count_env env [] = record { name = env; count = 1 } ∷ []
count_env env (p ∷ ps) =
    let rest = count_env env ps in
    if text_eq p.name env then record p { count = suc p.count } ∷ ps else p ∷ rest

count_envs : List ServerRow → List Portion → List Portion
unfolding count_env
count_envs [] ps = ps
count_envs (s ∷ ss) ps = count_envs ss (count_env s.env ps)

-- The environments of the rows, by falling count.
unfoldable pub env_counts : List ServerRow → List Portion
unfolding count_envs
env_counts ss = sort (compare_by (λ (a b : Portion). ltb a.count b.count) false) (count_envs ss [])

unfoldable pub max_count : List Portion → ℕ
max_count [] = 0
max_count (p ∷ ps) = max p.count (max_count ps)
