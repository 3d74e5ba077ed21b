-- ===== src/Auditing/Health.antt =====
-- frontend/js/auditing-demo-data.js, getAuditingCritCounts: the counts above the auditing page.
pub mod Exact
pub mod Pill
use operations_api.Common.{
  ℕ, ◌+◌, ◌*◌, ◌-◌, ◌==◌, Bool, true, false, not, ◌&&◌, Option, none, some, List, [], ◌∷◌, Text,
  text, text_eq, filter, length, get_or, if◌then◌else◌, leb, ltb, is_empty,
}
use operations_api.Mappers.{or_null}
use operations_api.Auditing.{Application, Campaign, Packet, AuditingData}
use operations_api.Auditing.Status.{
  Almanac, NomineeView, get_nominees_of_app, is_set, is_submitted, Status, overdue, on_time,
  in_flight, never, due_soon, get_audit_status,
}
use operations_api.Licensing.Buckets.{day_ms}

unfoldable pub live_apps : AuditingData → List Application
live_apps d =
    filter (λ (a : Application). not (text_eq a.audit_status (text "archived"))) d.applications

abbrev pub is_overdue : Status → Bool
is_overdue overdue = true
is_overdue _ = false

abbrev pub is_on_time : Status → Bool
is_on_time on_time = true
is_on_time _ = false

-- In nominees mode without an enabled nominee.
unfoldable pub not_ready : AuditingData → Application → Bool
not_ready d a =
    text_eq a.audit_routing_mode (text "nominees")
    && is_empty (filter (λ (n : NomineeView). n.enabled) (get_nominees_of_app d a.application_id))

unfoldable pub status_of : Almanac → AuditingData → Application → Status
status_of K d a = (get_audit_status K d a.application_id).0

-- `msToDue > 0 && msToDue <= SEVEN_DAYS_MS`
unfoldable pub due_this_week : Almanac → Campaign → Bool
due_this_week K c = elim (K.day_end (get_or c.due_at [])) [
  | none ↦ false
  | some due ↦ ltb K.now due && leb (due - K.now) (7 * day_ms)
]

-- The packets of a campaign that nobody has submitted.
unfoldable pub open_packets : AuditingData → Campaign → List Packet
open_packets d c =
    filter (λ (p : Packet). p.campaign_id == c.campaign_id && not (is_submitted p)) d.packets

pub record Tally : Type 0 where
  pub reminders_due : ℕ
  pub pending_packets : ℕ

-- The loop over the active campaigns.
unfoldable pub tally_campaigns : Almanac → AuditingData → List Campaign → Tally → Tally
tally_campaigns K d [] t = t
tally_campaigns K d (c ∷ cs) t =
    let packets = open_packets d c in
    tally_campaigns K d cs (record {
      reminders_due =
          if due_this_week K c
          then t.reminders_due
            + length (filter (λ (p : Packet). not (is_set p.reminder_sent_at)) packets)
          else t.reminders_due;
      pending_packets = t.pending_packets + length packets;
    })

pub record CritCounts : Type 0 where
  pub action_required : ℕ
  pub overdue : ℕ
  pub reminders_due : ℕ
  pub active_campaigns : ℕ
  pub pending_packets : ℕ
  pub healthy : ℕ
  pub total : ℕ

abbrev pub is_active : Campaign → Bool
is_active c = text_eq c.status (text "active")

unfoldable pub get_auditing_crit_counts : Almanac → AuditingData → CritCounts
get_auditing_crit_counts K d =
    let live = live_apps d in
    let late = length (filter (λ a. is_overdue (status_of K d a)) live) in
    let active = filter is_active d.campaigns in
    let t = tally_campaigns K d active (record { reminders_due = 0; pending_packets = 0 }) in
    record {
      action_required = late + length (filter (not_ready d) live);
      overdue = late;
      reminders_due = t.reminders_due;
      active_campaigns = length active;
      pending_packets = t.pending_packets;
      healthy = length (filter (λ a. is_on_time (status_of K d a) && not (not_ready d a)) live);
      total = length live;
    }
