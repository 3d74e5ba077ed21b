-- ===== src/Boot/Refresh.antt =====
-- frontend/js/op-boot.js, OC_API: the refreshes of single pages under the filters of the page. Each asks
-- for a list and a summary, and takes over what comes.
use operations_api.Common.{
  Bool, Option, none, some, List, [], ◌∷◌, ◌++◌, map, Text, text, text_eq, get_or, length, join,
  if◌then◌else◌,
}
use operations_api.Api.{Store, mark_demo, clear_demo, Reply, api}
use operations_api.Mappers.{
  ServerItem, CertItem, map_servers, map_breakdown, map_certs, map_cert_counts,
}
use operations_api.Mappers.Health.{map_disks}
use operations_api.Mappers.Summaries.{
  DiskSummaryItem, ExclusionSummaryItem, map_cert_breakdown, map_disk_summary,
  map_exclusion_summary,
}
use operations_api.Exclusions.Rows.{Item, map_exclusions}
use operations_api.Boot.World.{Forms, World, DisksAnswer, CertsSummary, ServersSummary, max_count}
use operations_api.Boot.Wave.{is_selected}

-- `['a', 'b']` to `?a&b`, or nothing.
unfoldable pub query : List Text → Text
query [] = []
query (p ∷ ps) = text "?" ++ join (text "&") (p ∷ ps)

-- `if (v && v !== '__all') params.push(name + encodeURIComponent(v))`
unfoldable pub param : (Text → Text) → Text → Text → List Text
param encode name v = if is_selected v then (name ++ encode v) ∷ [] else []

-- The filters of the disk page.
pub record DiskScope : Type 0 where
  pub envs : List Text
  pub bu : Text
  pub status : Text
  pub include_nonprod : Bool

-- `envs`, or the one `env`.
unfoldable pub env_list : Option (List Text) → Text → List Text
env_list (some es) env = es
env_list none env = if is_selected env then env ∷ [] else []

unfoldable pub disk_params : (Text → Text) → DiskScope → List Text
unfolding param
disk_params encode c =
    map (λ e. text "environment=" ++ encode e) c.envs
    ++ (param encode (text "businessUnit=") c.bu
        ++ (param encode (text "alertStatus=") c.status
            ++ (if c.include_nonprod then text "includeNonprod=true" ∷ [] else [])))

unfoldable pub disk_paths : (Text → Text) → DiskScope → Text × Text
unfolding query disk_params
disk_paths encode c = (
  text "/disks" ++ query (text "limit=5000" ∷ disk_params encode c),
  text "/disks/summary" ++ query (disk_params encode c),
)

unfoldable pub exclusion_paths : (Text → Text) → Text → Text → Text × Text
unfolding query param
exclusion_paths encode state bu =
    let ps = param encode (text "state=") state ++ param encode (text "businessUnit=") bu in
    (
      text "/patching/exclusions" ++ query (text "limit=500" ∷ ps),
      text "/patching/exclusions/summary" ++ query ps,
    )

-- `alertLevelFor[level] || level`
unfoldable pub alert_level : Text → Text
alert_level level =
    if text_eq level (text "crit")
    then text "critical"
    else if text_eq level (text "warn")
    then text "warning"
    else level

unfoldable pub cert_paths : (Text → Text) → Text → Text → Text × Text
unfolding query param alert_level
cert_paths encode bu level =
    let scope = param encode (text "businessUnit=") bu in
    (
      text "/certificates"
          ++ query (
              text "limit=1000"
              ∷ (scope
                  ++ (if is_selected level
                      then (text "alertLevel=" ++ encode (alert_level level)) ∷ []
                      else []))),
      text "/certificates/summary" ++ query (scope ++ param encode (text "level=") level),
    )

-- The summary is not scoped to the business unit.
unfoldable pub server_paths : (Text → Text) → Text → Text → Text × Text
unfolding query param
server_paths encode env bu =
    let in_env = param encode (text "environment=") env in
    (
      text "/servers"
          ++ query (text "limit=2500" ∷ (in_env ++ param encode (text "businessUnit=") bu)),
      text "/servers/summary" ++ query in_env,
    )

-- `none` where an answer is turned down, as null or as no array.
module _ {F U : Type 0} (K : Forms) (zero_size : F) where
  open K use {upper, show_date}

  take_disks : DiskScope → Option (DisksAnswer F) → World F U → World F U
  take_disks c none w = w
  take_disks c (some r) w = record w {
    disks_data = record {
      items = map_disks zero_size r.items;
      total_count = get_or r.total_count (length r.items);
      current_envs = c.envs;
      current_bu = if is_selected c.bu then c.bu else text "__all";
      current_status = some (if is_selected c.status then c.status else text "__all");
    };
  }

  take_disk_summary : Option DiskSummaryItem → World F U → World F U
  take_disk_summary none w = w
  take_disk_summary (some s) w = record w { disk_summary = map_disk_summary (some s) }

  unfoldable pub fetch_disks :
      DiskScope → Option (DisksAnswer F) → Option DiskSummaryItem → World F U → World F U
  unfolding take_disks take_disk_summary
  fetch_disks c list summary w = take_disk_summary summary (take_disks c list w)

  take_exclusions : Option (List Item) → World F U → World F U
  take_exclusions none w = w
  take_exclusions (some v) w = record w { exclusions = map_exclusions show_date v }

  take_exclusion_summary : Option ExclusionSummaryItem → World F U → World F U
  take_exclusion_summary none w = w
  take_exclusion_summary (some s) w = record w { excl_breakdown = map_exclusion_summary (some s) }

  unfoldable pub fetch_exclusions :
      Option (List Item) → Option ExclusionSummaryItem → World F U → World F U
  unfolding take_exclusions take_exclusion_summary
  fetch_exclusions list summary w = take_exclusion_summary summary (take_exclusions list w)

  -- After a write: the list alone, of all business units, and its mark.
  unfoldable pub refetch_exclusions : Reply (List Item) → World F U → World F U
  unfolding take_exclusions
  refetch_exclusions reply w =
      let (s, v) = api (text "/patching/exclusions?limit=500") reply w.store in
      let marked : Store = elim v [
        | none ↦ mark_demo (text "exclusions") s
        | some items ↦ clear_demo (text "exclusions") s
      ] in
      take_exclusions v (record w { store = marked })

  take_certs : Option (List CertItem) → World F U → World F U
  take_certs none w = w
  take_certs (some v) w = record w { certs = map_certs upper show_date v }

  take_cert_summary : Option CertsSummary → World F U → World F U
  take_cert_summary none w = w
  take_cert_summary (some s) w = record w {
    cert_counts = map_cert_counts (some s.counts);
    cert_breakdown = map_cert_breakdown (some s.facets);
  }

  unfoldable pub fetch_certs : Option (List CertItem) → Option CertsSummary → World F U → World F U
  unfolding take_certs take_cert_summary
  fetch_certs list summary w = take_cert_summary summary (take_certs list w)

  take_servers : Option (List ServerItem) → World F U → World F U
  take_servers none w = w
  take_servers (some v) w = record w {
    servers_data = record w.servers_data { servers = map_servers v };
  }

  take_servers_summary : Option ServersSummary → World F U → World F U
  take_servers_summary none w = w
  take_servers_summary (some s) w =
      let envs = map_breakdown s.environment_counts in
      record w {
        servers_data = record w.servers_data {
          env_breakdown = envs;
          srv_env = envs;
          srv_bu = map_breakdown s.business_unit_counts;
          srv_env_max = max_count envs;
          srv_total = some s.total_count;
        };
      }

  unfoldable pub fetch_servers :
      Option (List ServerItem) → Option ServersSummary → World F U → World F U
  unfolding take_servers take_servers_summary
  fetch_servers list summary w = take_servers_summary summary (take_servers list w)
