-- ===== src/Auditing/Data.antt =====
-- `window.AUDITING_DATA`: the arrays that the auditing pages read.
use operations_api.Common.{ℕ, Bool, Option, List, Text}
use operations_api.Auditing.Answers.{EmailItem}

pub record Nominee : Type 0 where
  pub nominee_sam : Text
  pub nominee_display_name : Option Text
  pub nominee_email : Option Text
  pub role_note : Text
  pub enabled : Option Bool

pub record Application : Type 0 where
  pub application_id : ℕ
  pub name : Text
  pub business_owner : Text
  pub business_owner_display : Option Text
  pub technical_owner : Text
  pub technical_owner_display : Option Text
  pub support_email : Text
  pub bindings : List Text
  pub audit_frequency_months : Option ℕ
  pub auto_launch : Bool
  pub audit_routing_mode : Text
  pub audit_due_period_days : ℕ
  pub audit_status : Text
  pub rosters_synced_at : Option Text
  pub nominees : List Nominee
  pub binding_ids : List (Text × ℕ)
  pub nominee_ids : List (Text × ℕ)

pub record User : Type 0 where
  pub sam : Text
  pub display : Text
  pub email : Option Text
  pub enabled : Bool
  pub manager_sam : Option Text

pub record Group : Type 0 where
  pub dn : Text
  pub sam : Text
  pub type : Text

pub record Membership : Type 0 where
  pub group_dn : Text
  pub sam_account : Text

pub record Ownership : Type 0 where
  pub group_dn : Text
  pub owner_sam : Text
  pub owner_display_name : Option Text
  pub owner_email : Option Text
  pub source : Option Text

pub record Campaign : Type 0 where
  pub campaign_id : ℕ
  pub application_id : ℕ
  pub application_name : Text
  pub name : Text
  pub status : Text
  pub due_at : Option Text
  pub created_by : Text
  pub created_at : Option Text
  pub closed_at : Option Text
  pub closed_by_packet_id : Option Text
  pub launch_kind : Text
  pub routing_mode : Text
  pub closure_mode : Text
  pub cc_audit_mailbox : Text

pub record Packet : Type 0 where
  pub packet_id : Text
  pub campaign_id : ℕ
  pub recipient_sam : Text
  pub recipient_display : Text
  pub recipient_email : Text
  pub recipient_kind : Text
  pub role_note : Text
  pub subjects : List Text
  pub submitted_at : Option Text
  pub submitted_by_sam : Option Text
  pub submitted_by_display : Option Text
  pub reminder_sent_at : Option Text

pub record Decision : Type 0 where
  pub packet_id : Text
  pub subject_sam : Text
  pub decision : Text
  pub comment : Text

pub record AuditingData : Type 0 where
  pub users : List User
  pub groups : List Group
  pub group_memberships : List Membership
  pub group_owners : List Ownership
  pub applications : List Application
  pub campaigns : List Campaign
  pub packets : List Packet
  pub decisions : List Decision
  pub email_log : List EmailItem
