-- ===== src/Auditing/Apply.antt =====
-- frontend/js/op-boot.js, applyAuditing and applyAuditingApp: the arrays of the audit data, replaced
-- by what the API answers. The page's data is there.
use operations_api.Common.{
  true, false, Option, none, some, List, [], ◌∷◌, map, flat_map, ◌==◌, if◌then◌else◌,
}
use operations_api.Auditing.{
  AppItem, Application, CampaignItem, AuditingData, shape_audit_app, shape_campaign, shape_packet,
  shape_decision,
}
use operations_api.Auditing.Roster.{apply_ad_reference_data}

-- `details.filter(Boolean)`: what was fetched.
unfoldable pub present {ℓ} : {A : Type ℓ} → List (Option A) → List A
present [] = []
present (none ∷ xs) = present xs
present (some x ∷ xs) = x ∷ present xs

-- The application at its id is replaced, or a new one is added at the end.
unfoldable pub place : Application → List Application → List Application
place a [] = a ∷ []
place a (x ∷ xs) =
    let rest = place a xs in if x.application_id == a.application_id then a ∷ xs else x ∷ rest

unfoldable pub apply_auditing_app : AppItem → AuditingData → AuditingData
apply_auditing_app detail d =
    apply_ad_reference_data (detail ∷ []) true
      (record d { applications = place (shape_audit_app detail) d.applications })

unfoldable pub apply_auditing :
    List (Option AppItem) → List (Option CampaignItem) → AuditingData → AuditingData
apply_auditing app_details camp_details d =
    let cs = present camp_details in
    apply_ad_reference_data (present app_details) false (record d {
      applications = map shape_audit_app (present app_details);
      campaigns = map shape_campaign cs;
      packets = flat_map (λ (c : CampaignItem). map (shape_packet c.campaign_id) c.packets) cs;
      decisions = flat_map (λ (c : CampaignItem). map shape_decision c.decisions) cs;
      email_log = flat_map (λ (c : CampaignItem). c.email_log) cs;
    })

-- What changes the audit data: a full load, or one application after a write.
pub data Load : Type 0 where
  all_details : List (Option AppItem) → List (Option CampaignItem) → Load
  app_detail : AppItem → Load

unfoldable pub run_load : Load → AuditingData → AuditingData
unfolding apply_auditing apply_auditing_app
run_load (all_details apps camps) d = apply_auditing apps camps d
run_load (app_detail a) d = apply_auditing_app a d

unfoldable pub run_loads : List Load → AuditingData → AuditingData
run_loads [] d = d
run_loads (l ∷ ls) d = run_loads ls (run_load l d)
