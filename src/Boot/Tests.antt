-- ===== src/Boot/Tests.antt =====
-- Runs and instances for the boot.
use operations_api.Common.{
  ◌≡◌, refl, true, false, none, some, List, [], ◌∷◌, text, text_eq, ℕ, any, ◌++◌,
}
use operations_api.Api.{has_demo}
use operations_api.Tables.{nil}
use operations_api.Mappers.{ServerItem, map_servers, map_cert_counts}
use operations_api.Mappers.Summaries.{map_cert_breakdown, map_eol_totals}
use operations_api.Samples.{empty_store, ascii_browser}
use operations_api.Boot.Servers.{Inventory}
use operations_api.Boot.World.{
  Forms, World, Landing, inventory, servers_summary, certificates, audits, disks, env_counts,
  max_count, ServersSummary,
}
use operations_api.Boot.Wave.{run_fetches}
use operations_api.Boot.Wave.Flags.{flags, run_fetches-flags}
use operations_api.Boot.Wave.Race.{shown_totals, run_fetches-inventory}

abbrev rows : List ℕ
rows = 3 ∷ 1 ∷ 2 ∷ []

abbrev plain_forms : Forms
plain_forms = record {
  browser = ascii_browser;
  locale = record { time_of = λ t. none; compare_names = λ a b. nil };
  upper = λ t. t;
  show_time = λ t. t;
  show_date = λ t. t;
  month_label = λ t. t;
  window_label = λ t. t;
}

-- The pages before anything has landed.
abbrev blank : World ℕ ℕ
blank = record {
  store = empty_store;
  servers_data = record {
    servers = [];
    srv_total = none;
    srv_env = [];
    srv_env_max = 0;
    srv_bu = [];
    env_breakdown = [];
    unreachable = [];
    unmatched = [];
  };
  certs = [];
  cert_counts = map_cert_counts none;
  cert_breakdown = map_cert_breakdown none;
  eol_products = [];
  eol_totals = map_eol_totals none;
  eol_unmatched = [];
  patch_groups = [];
  patch_next_cycle = none;
  patch_cycles = [];
  patch_issues = [];
  syncs = [];
  recent_alerts = [];
  exclusions = [];
  excl_breakdown = none;
  licensing = record { licences = []; renewals = [] };
  auditing = record {
    users = [];
    groups = [];
    group_memberships = [];
    group_owners = [];
    applications = [];
    campaigns = [];
    packets = [];
    decisions = [];
    email_log = [];
  };
  current_user = none;
  disks_data = record {
    items = [];
    total_count = 0;
    current_envs = [];
    current_bu = [];
    current_status = none;
  };
  disk_summary = none;
  disk_summary_prod = none;
}

abbrev web_item : ServerItem
web_item = record {
  server_id = 7;
  server_name = text "WEB01";
  fqdn = none;
  ip_address = none;
  environment = some (text "Production");
  application_name = none;
  service = none;
  func = none;
  patch_group = none;
  business_unit = some (text "Retail");
  is_active = true;
  last_seen = none;
}

abbrev retail : Inventory ServerItem
retail = record { items = web_item ∷ []; total = some 1 }

-- The summary of all servers, of every business unit.
abbrev estate : ServersSummary
estate = record { environment_counts = []; business_unit_counts = []; total_count = 900 }

-- The certificates and the audit data fail, the rest comes.
abbrev partial_wave : List (Landing ℕ ℕ)
partial_wave =
    certificates none ∷ inventory (some retail) ∷ audits none ∷ servers_summary (some estate) ∷ []

run_fetches-flags_example :
    has_demo (text "certs") (run_fetches plain_forms 0 (text "Retail") partial_wave blank).store
    ≡ any (flags (text "certs")) partial_wave
run_fetches-flags_example =
    run_fetches-flags plain_forms 0 (text "Retail") false (text "certs") partial_wave blank
      (tt, (tt, (refl, (tt, tt))))

run_fetches-inventory_example :
    shown_totals (
      run_fetches plain_forms 0
        (text "Retail")
        ((disks none ∷ []) ++ inventory (some retail) ∷ servers_summary (some estate) ∷ [])
        blank)
    ≡ (
      some 1,
      env_counts (map_servers (web_item ∷ [])),
      max_count (env_counts (map_servers (web_item ∷ []))),
    )
unfolding text_eq
run_fetches-inventory_example =
    run_fetches-inventory plain_forms 0 (text "Retail") refl (disks none ∷ [])
      (servers_summary (some estate) ∷ []) retail blank (refl, tt)
