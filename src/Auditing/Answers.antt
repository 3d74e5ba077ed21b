-- ===== src/Auditing/Answers.antt =====
-- The answers of /api/auditing/*, in the fields that frontend/js/op-boot.js reads. A field that is
-- missing or null is `none`, and a list that is missing is empty.
use operations_api.Common.{ℕ, Bool, Option, List, Text}

pub record MemberItem : Type 0 where
  pub sam_account : Text
  pub display_name : Option Text
  pub email : Option Text
  pub enabled : Option Bool
  pub manager_sam : Option Text

pub record OwnerItem : Type 0 where
  pub owner_sam : Text
  pub owner_display_name : Option Text
  pub owner_email : Option Text
  pub source : Option Text

pub record BindingItem : Type 0 where
  pub binding_id : ℕ
  pub group_dn : Text
  pub group_sam : Option Text
  pub group_type : Option Text
  pub members : List MemberItem
  pub owners : List OwnerItem

pub record NomineeItem : Type 0 where
  pub nominee_id : ℕ
  pub nominee_sam : Text
  pub nominee_display_name : Option Text
  pub nominee_email : Option Text
  pub role_note : Option Text
  pub enabled : Option Bool

pub record AppItem : Type 0 where
  pub application_id : ℕ
  pub name : Text
  pub business_owner : Option Text
  pub business_owner_display : Option Text
  pub technical_owner : Option Text
  pub technical_owner_display : Option Text
  pub support_email : Option Text
  pub bindings : List BindingItem
  pub audit_frequency_months : Option ℕ
  pub auto_launch : Bool
  pub audit_routing_mode : Option Text
  pub audit_due_period_days : Option ℕ
  pub audit_status : Option Text
  pub rosters_synced_at : Option Text
  pub nominees : List NomineeItem

pub record SubjectItem : Type 0 where
  pub subject_sam : Text

pub record PacketItem : Type 0 where
  pub packet_id : Text
  pub recipient_sam : Text
  pub recipient_display : Option Text
  pub recipient_email : Option Text
  pub recipient_kind : Text
  pub role_note : Option Text
  pub subjects : List SubjectItem
  pub submitted_at : Option Text
  pub submitted_by_sam : Option Text
  pub submitted_by_display : Option Text
  pub reminder_sent_at : Option Text

pub record DecisionItem : Type 0 where
  pub packet_id : Text
  pub subject_sam : Text
  pub decision : Text
  pub comment : Option Text

pub record EmailItem : Type 0 where
  pub log_id : ℕ
  pub packet_id : Option Text
  pub campaign_id : ℕ
  pub to_addr : Text
  pub cc_addr : Option Text
  pub subject : Text
  pub kind : Text
  pub sent_at : Option Text
  pub success : Bool

pub record CampaignItem : Type 0 where
  pub campaign_id : ℕ
  pub application_id : ℕ
  pub application_name : Option Text
  pub name : Text
  pub status : Text
  pub due_at : Option Text
  pub created_by : Option Text
  pub created_at : Option Text
  pub closed_at : Option Text
  pub closed_by_packet_id : Option Text
  pub launch_kind : Option Text
  pub routing_mode : Text
  pub closure_mode : Text
  pub cc_audit_mailbox : Option Text
  pub packets : List PacketItem
  pub decisions : List DecisionItem
  pub email_log : List EmailItem
