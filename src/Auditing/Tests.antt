-- ===== src/Auditing/Tests.antt =====
-- Runs and instances for the audit data.
use operations_api.Common.{◌≡◌, refl, true, none, some, List, [], ◌∷◌, text, Text, map}
use operations_api.Tables.{nil}
use operations_api.Common.{ℕ, starts_with, has, text_eq}
use operations_api.Auditing.{
  shape_audit_app, User, Campaign, Packet, AppItem, BindingItem, MemberItem, OwnerItem, Membership,
  AuditingData,
}
use operations_api.Auditing.Apply.{Load, all_details, app_detail, run_loads}
use operations_api.Auditing.Roster.View.{view, IsIndexed}
use operations_api.Auditing.Roster.Resolved.{IsResolved}
use operations_api.Auditing.Routing.{get_app, get_app_roster, get_subjects_by_manager}
use operations_api.Auditing.Routing.Fallback.{owner_of}
use operations_api.Auditing.Routing.Whole.{Routes, get_subjects_by_manager-Routes}
use operations_api.Auditing.Status.{Almanac}
use operations_api.Auditing.Health.{get_auditing_crit_counts}
use operations_api.Auditing.Health.Exact.{IsExact, get_auditing_crit_counts-IsExact}
use operations_api.Auditing.Health.Pill.{Says, audit_app_of, rail_flag-get_auditing_crit_counts}
use operations_api.Console.Rail.{Signals, rail_flag}
use operations_api.Router.{auditing}
use operations_api.Auditing.Runs.{replay, run_loads_refines, run_loads-IsResolved}

abbrev pub no_data : AuditingData
no_data = record {
  users = [];
  groups = [];
  group_memberships = [];
  group_owners = [];
  applications = [];
  campaigns = [];
  packets = [];
  decisions = [];
  email_log = [];
}

abbrev editors : BindingItem
editors = record {
  binding_id = 3;
  group_dn = text "CN=Editors";
  group_sam = none;
  group_type = none;
  members =
      record {
        sam_account = text "alice";
        display_name = none;
        email = none;
        enabled = none;
        manager_sam = some (text "paul");
      }
      ∷ [];
  owners =
      record {
        owner_sam = text "tom";
        owner_display_name = some (text "Tom");
        owner_email = none;
        source = none;
      }
      ∷ [];
}

abbrev pub tableau : AppItem
tableau = record {
  application_id = 1;
  name = text "Tableau";
  business_owner = none;
  business_owner_display = none;
  technical_owner = none;
  technical_owner_display = none;
  support_email = none;
  bindings = editors ∷ [];
  audit_frequency_months = some 6;
  auto_launch = true;
  audit_routing_mode = none;
  audit_due_period_days = none;
  audit_status = none;
  rosters_synced_at = none;
  nominees = [];
}

abbrev jira : AppItem
jira = record tableau { application_id = 2; name = text "Jira" }

abbrev loads : List Load
loads = all_details (some tableau ∷ none ∷ some jira ∷ []) [] ∷ app_detail tableau ∷ []

pub no_data-IsIndexed : IsIndexed no_data
no_data-IsIndexed = record { users = tt; groups = tt }

pub no_data-IsResolved : IsResolved (view no_data)
unfolding view
no_data-IsResolved = record {
  members = λ dn m i. elim i [ ];
  owners = λ dn o i. elim i [ ];
  managers = λ sam boss u e f. absurd (cc);
}

-- A group that two applications bind is listed twice over after a full load, and once after a
-- refresh of either.
shared_group_full :
    (run_loads (all_details (some tableau ∷ some jira ∷ []) [] ∷ []) no_data).group_memberships
    ≡ record { group_dn = text "CN=Editors"; sam_account = text "alice" }
      ∷ record { group_dn = text "CN=Editors"; sam_account = text "alice" }
      ∷ []
unfolding run_loads operations_api.Auditing.Apply.run_load
    operations_api.Auditing.Roster.apply_ad_reference_data operations_api.Common.flat_map
    operations_api.Auditing.Apply.present operations_api.Auditing.Roster.membership_of
shared_group_full = refl

run_loads_refines_example : view (run_loads loads no_data) ≡ replay loads (view no_data)
run_loads_refines_example = run_loads_refines loads no_data no_data-IsIndexed

run_loads-IsResolved_example : IsResolved (view (run_loads loads no_data))
run_loads-IsResolved_example =
    run_loads-IsResolved loads no_data no_data-IsIndexed no_data-IsResolved

abbrev alice : User
alice = record {
  sam = text "alice";
  display = text "Alice";
  email = none;
  enabled = true;
  manager_sam = some (text "paul");
}

-- Nobody's subject: he goes to the business owner, who is unknown here.
abbrev paul : User
paul = record alice { sam = text "paul"; display = text "Paul"; manager_sam = none }

abbrev review : Campaign
review = record {
  campaign_id = 101;
  application_id = 1;
  application_name = text "Tableau";
  name = text "2026 review";
  status = text "active";
  due_at = some (text "2026-06-15");
  created_by = text "tom";
  created_at = none;
  closed_at = none;
  closed_by_packet_id = none;
  launch_kind = text "manual";
  routing_mode = text "line_manager";
  closure_mode = text "all_packets";
  cc_audit_mailbox = [];
}

abbrev packet : Packet
packet = record {
  packet_id = text "p1";
  campaign_id = 101;
  recipient_sam = text "paul";
  recipient_display = text "Paul";
  recipient_email = [];
  recipient_kind = text "line_manager";
  role_note = [];
  subjects = text "alice" ∷ [];
  submitted_at = none;
  submitted_by_sam = none;
  submitted_by_display = none;
  reminder_sent_at = none;
}

abbrev one_review : AuditingData
one_review = record no_data {
  users = alice ∷ paul ∷ [];
  group_memberships =
      record { group_dn = text "CN=Editors"; sam_account = text "alice" }
      ∷ record { group_dn = text "CN=Editors"; sam_account = text "paul" }
      ∷ [];
  applications = shape_audit_app tableau ∷ shape_audit_app jira ∷ [];
  campaigns = review ∷ record review { campaign_id = 102; application_id = 2 } ∷ [];
  packets = packet ∷ [];
}

abbrev almanac : Almanac
almanac = record {
  compare = λ a b. nil;
  advance = λ date n. none;
  day_end = λ date. some 2000;
  now = 1000;
}

get_subjects_by_manager-Routes_example :
    Routes one_review
      (owner_of one_review (get_app one_review 1))
      (get_app_roster one_review 1)
      (get_subjects_by_manager one_review 1)
unfolding starts_with text_eq has
get_subjects_by_manager-Routes_example =
    get_subjects_by_manager-Routes one_review 1 ((refl, refl), ((refl, refl), tt))

get_auditing_crit_counts-IsExact_example :
    IsExact almanac one_review (get_auditing_crit_counts almanac one_review)
unfolding text_eq
get_auditing_crit_counts-IsExact_example =
    get_auditing_crit_counts-IsExact almanac one_review (refl, (refl, tt))

abbrev signals : Signals
signals = record {
  disk_statuses = [];
  cert_expired = 0;
  cert_crit = 0;
  cert_warn = 0;
  eol_ended = 0;
  eol_extended = 0;
  exclusion_states = [];
  licences = none;
  audit_apps = some (map (audit_app_of almanac one_review) one_review.applications);
}

rail_flag-get_auditing_crit_counts_example :
    let c = get_auditing_crit_counts almanac one_review in
    Says c.overdue c.action_required (rail_flag auditing signals)
rail_flag-get_auditing_crit_counts_example =
    rail_flag-get_auditing_crit_counts almanac one_review signals refl
