-- ===== src/Boot/Wave.antt =====
-- frontend/js/op-boot.js, runFetches: what each answer of the first wave does when it lands.
pub mod Flags
pub mod Race
use operations_api.Common.{
  ℕ, Bool, true, false, not, ◌&&◌, Option, none, some, List, [], ◌∷◌, Text, text, text_eq,
  if◌then◌else◌, is_empty, get_or, length,
}
use operations_api.Api.{mark_demo, clear_demo, clear_all_demo}
use operations_api.Mappers.{
  map_servers, map_breakdown, map_unreachable, map_unmatched, map_certs, map_cert_counts,
  map_eol_products, count,
}
use operations_api.Mappers.Patching.{map_patch_groups, map_patch_cycles, map_patch_issues}
use operations_api.Mappers.Health.{map_syncs, map_alerts, map_disks}
use operations_api.Mappers.Summaries.{
  map_cert_breakdown, map_eol_totals, map_disk_summary, map_exclusion_summary,
}
use operations_api.Exclusions.Rows.{map_exclusions}
use operations_api.Licensing.{apply_licensing}
use operations_api.Auditing.Apply.{apply_auditing}
use operations_api.Boot.World.{
  Forms, NextCycle, NextItem, ServersData, World, Landing, inventory, servers_summary, unreachable,
  unmatched, certificates, certs_summary, eol, eol_summary, eol_unmatched, patching, all_cycles,
  issues, syncs, alerts, exclusions, exclusions_summary, licences, audits, me, disks, disks_summary,
  disks_summary_prod, env_counts, max_count,
}

-- `bu && bu !== '__all'`
abbrev pub is_selected : Text → Bool
is_selected bu = not (is_empty bu) && not (text_eq bu (text "__all"))

unfoldable pub next_cycle : Option NextItem → Option NextCycle
next_cycle none = none
next_cycle (some n) = some (record {
  cycle_id = n.cycle_id;
  cycle_date = n.cycle_date;
  days_until = n.days_until;
  is_stale = n.is_stale;
  days_overdue = count n.days_overdue;
})

module _ {F U : Type 0} where
  unfoldable pub flagged : Text → World F U → World F U
  flagged widget w = record w { store = mark_demo widget w.store }

module _ {F U : Type 0} (K : Forms) (zero_size : F) (bu : Text) where
  open K use {browser, locale, upper, show_time, show_date, month_label, window_label}

  -- The handler of an answer; drawing the page again changes none of this.
  unfoldable pub land : Landing F U → World F U → World F U
  unfolding flagged
  land (inventory none) w = flagged (text "servers") w
  land (inventory (some r)) w =
      let rows = map_servers r.items in
      record w {
        servers_data = record w.servers_data {
          servers = rows;
          srv_total = r.total;
          srv_env = env_counts rows;
          srv_env_max = max_count (env_counts rows);
        };
      }
  land (servers_summary none) w = flagged (text "servers") w
  land (servers_summary (some s)) w =
      let envs = map_breakdown s.environment_counts in
      let scoped = record w.servers_data { srv_bu = map_breakdown s.business_unit_counts } in
      record w {
        servers_data = if is_selected bu then scoped else record scoped {
          env_breakdown = envs;
          srv_env = envs;
          srv_env_max = max_count envs;
          srv_total = some s.total_count;
        };
      }
  land (unreachable none) w = flagged (text "servers") w
  land (unreachable (some v)) w = record w {
    servers_data = record w.servers_data { unreachable = map_unreachable show_time v };
  }
  land (unmatched none) w = flagged (text "servers") w
  land (unmatched (some v)) w = record w {
    servers_data = record w.servers_data { unmatched = map_unmatched show_date v };
  }
  land (certificates none) w = flagged (text "certs") w
  land (certificates (some v)) w = record w { certs = map_certs upper show_date v }
  land (certs_summary none) w = flagged (text "certs") w
  land (certs_summary (some s)) w = record w {
    cert_counts = map_cert_counts (some s.counts);
    cert_breakdown = map_cert_breakdown (some s.facets);
  }
  land (eol none) w = flagged (text "eol") w
  land (eol (some v)) w = record w { eol_products = map_eol_products browser show_date v }
  land (eol_summary none) w = flagged (text "eol") w
  land (eol_summary (some s)) w = record w { eol_totals = map_eol_totals (some s) }
  land (eol_unmatched none) w = w
  land (eol_unmatched (some v)) w = record w { eol_unmatched = v }
  land (patching none none) w = flagged (text "patching") w
  land (patching cycles n) w = record w {
    patch_groups =
        map_patch_groups locale (get_or cycles [])
          (elim n [ none ↦ none | some x ↦ some x.summary ]);
    patch_next_cycle = next_cycle n;
  }
  land (all_cycles none) w = flagged (text "patching") w
  land (all_cycles (some v)) w = record w {
    patch_cycles = map_patch_cycles browser month_label window_label v;
  }
  land (issues none) w = flagged (text "patching") w
  land (issues (some v)) w = record w { patch_issues = map_patch_issues browser v }
  land (syncs none) w = flagged (text "health") w
  land (syncs (some v)) w = record w { syncs = map_syncs v }
  land (alerts none) w = flagged (text "health") w
  land (alerts (some v)) w = record w { recent_alerts = map_alerts v }
  land (exclusions none) w = flagged (text "exclusions") w
  land (exclusions (some v)) w = record w { exclusions = map_exclusions show_date v }
  land (exclusions_summary none) w = w
  land (exclusions_summary (some s)) w = record w {
    excl_breakdown = map_exclusion_summary (some s);
  }
  land (licences none) w = flagged (text "licensing") w
  land (licences (some v)) w = record w { licensing = apply_licensing v w.licensing }
  land (audits none) w = flagged (text "auditing") w
  land (audits (some (apps, camps))) w = record w {
    store = clear_demo (text "auditing") w.store;
    auditing = apply_auditing apps camps w.auditing;
  }
  land (me none) w = w
  land (me (some u)) w = record w { current_user = some u }
  land (disks none) w = flagged (text "disks") w
  land (disks (some r)) w = record w {
    disks_data = record w.disks_data {
      items = map_disks zero_size r.items;
      total_count = get_or r.total_count (length r.items);
      current_envs = text "Production" ∷ text "Live Support" ∷ text "Shared Services" ∷ [];
      current_bu = if is_empty bu then text "__all" else bu;
    };
  }
  land (disks_summary none) w = flagged (text "disks") w
  land (disks_summary (some s)) w = record w { disk_summary = map_disk_summary (some s) }
  land (disks_summary_prod none) w = w
  land (disks_summary_prod (some s)) w = record w { disk_summary_prod = map_disk_summary (some s) }

  -- The answers in the order in which they land.
  unfoldable pub land_all : List (Landing F U) → World F U → World F U
  land_all [] w = w
  land_all (l ∷ ls) w = land_all ls (land l w)

  unfoldable pub run_fetches : List (Landing F U) → World F U → World F U
  run_fetches ls w = land_all ls (record w { store = clear_all_demo w.store })
