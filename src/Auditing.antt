-- ===== src/Auditing.antt =====
-- The audit data of the console: frontend/js/op-boot.js, _shapeAuditApp to applyAuditing, and the
-- helper functions of frontend/js/auditing-demo-data.js.
mod Answers
mod Data
pub mod Roster
pub mod Apply
pub mod Routing
pub mod Fetch
pub mod Actions
pub mod Status
pub mod Health
pub mod Runs
pub mod Tests
pub use Answers.*
pub use Data.*
use operations_api.Common.{
  ℕ, zero, suc, Bool, true, false, Option, none, some, List, [], ◌∷◌, ◌++◌, map, flat_map, Text,
  text, take, get_or, map_of,
}
use operations_api.Mappers.{text_or, or_null}

-- `n || d` of a number.
or_positive : Option ℕ → ℕ → ℕ
or_positive none d = d
or_positive (some n) d = elim n [ zero ↦ d | suc k ↦ suc k ]

unfoldable pub shape_audit_app : AppItem → Application
unfolding or_positive
shape_audit_app a = record {
  application_id = a.application_id;
  name = a.name;
  business_owner = text_or a.business_owner [];
  business_owner_display = or_null a.business_owner_display;
  technical_owner = text_or a.technical_owner [];
  technical_owner_display = or_null a.technical_owner_display;
  support_email = text_or a.support_email [];
  bindings = map (λ (b : BindingItem). b.group_dn) a.bindings;
  audit_frequency_months = a.audit_frequency_months;
  auto_launch = a.auto_launch;
  audit_routing_mode = text_or a.audit_routing_mode (text "line_manager");
  audit_due_period_days = or_positive a.audit_due_period_days 21;
  audit_status = text_or a.audit_status (text "active");
  rosters_synced_at = or_null a.rosters_synced_at;
  nominees =
      map
        (λ (n : NomineeItem). record {
          nominee_sam = n.nominee_sam;
          nominee_display_name = or_null n.nominee_display_name;
          nominee_email = or_null n.nominee_email;
          role_note = text_or n.role_note [];
          enabled = some (get_or n.enabled true);
        })
        a.nominees;
  binding_ids =
      map_of (λ (p : Text × ℕ). p.0)
        (map (λ (b : BindingItem). (b.group_dn, b.binding_id)) a.bindings);
  nominee_ids =
      map_of (λ (p : Text × ℕ). p.0)
        (map (λ (n : NomineeItem). (n.nominee_sam, n.nominee_id)) a.nominees);
}

unfoldable pub shape_campaign : CampaignItem → Campaign
shape_campaign c = record {
  campaign_id = c.campaign_id;
  application_id = c.application_id;
  application_name = text_or c.application_name [];
  name = c.name;
  status = c.status;
  due_at = elim (or_null c.due_at) [ none ↦ none | some t ↦ some (take 10 t) ];
  created_by = text_or c.created_by [];
  created_at = c.created_at;
  closed_at = or_null c.closed_at;
  closed_by_packet_id = or_null c.closed_by_packet_id;
  launch_kind = text_or c.launch_kind (text "manual");
  routing_mode = c.routing_mode;
  closure_mode = c.closure_mode;
  cc_audit_mailbox = text_or c.cc_audit_mailbox [];
}

unfoldable pub shape_packet : ℕ → PacketItem → Packet
shape_packet campaign_id p = record {
  packet_id = p.packet_id;
  campaign_id = campaign_id;
  recipient_sam = p.recipient_sam;
  recipient_display = text_or p.recipient_display p.recipient_sam;
  recipient_email = text_or p.recipient_email [];
  recipient_kind = p.recipient_kind;
  role_note = text_or p.role_note [];
  subjects = map (λ (s : SubjectItem). s.subject_sam) p.subjects;
  submitted_at = or_null p.submitted_at;
  submitted_by_sam = or_null p.submitted_by_sam;
  submitted_by_display = or_null p.submitted_by_display;
  reminder_sent_at = or_null p.reminder_sent_at;
}

unfoldable pub shape_decision : DecisionItem → Decision
shape_decision d = record {
  packet_id = d.packet_id;
  subject_sam = d.subject_sam;
  decision = d.decision;
  comment = text_or d.comment [];
}
