-- ===== src/Auditing/Status.antt =====
-- frontend/js/auditing-demo-data.js, getPacketsOfCampaign to getAuditStatus: the nominees, the progress
-- and the decisions of the campaigns, and when the next audit of an application is due.
use operations_api.Common.{
  ℕ, zero, suc, ◌+◌, ◌==◌, Bool, true, false, ◌&&◌, Option, none, some, List, [], ◌∷◌, map, Text,
  text, text_eq, find, filter, any, length, get_or, if◌then◌else◌, leb,
}
use operations_api.Common.Integers.{ℤ}
use operations_api.Mappers.{or_null}
use operations_api.Tables.{Sign, sort}
use operations_api.Auditing.{Nominee, Campaign, Packet, Decision, AuditingData}
use operations_api.Auditing.Routing.{get_user, get_app}
use operations_api.Licensing.Buckets.{ceil_days}

-- What the engine does: the order of localeCompare, a date moved by months as a text and in
-- milliseconds, `none` where it is no date, the end of a day, and now.
pub record Almanac : Type 0 where
  pub compare : Text → Text → Sign
  pub advance : Text → ℕ → Option ℕ
  pub day_end : Text → Option ℕ
  pub now : ℕ

-- A nominee as the pages show it.
pub record NomineeView : Type 0 where
  pub nominee : Nominee
  pub sam : Text
  pub display : Text
  pub email : Option Text
  pub enabled : Bool

-- `(u && f(u)) || rest`
abbrev pub prefer : Option Text → Option Text → Option Text
prefer none rest = rest
prefer (some t) rest = some t

unfoldable pub nominee_view : AuditingData → Nominee → NomineeView
nominee_view d n =
    let u = get_user d n.nominee_sam in
    record {
      nominee = n;
      sam = n.nominee_sam;
      display =
          get_or
            (prefer (elim u [ none ↦ none | some v ↦ or_null (some v.display) ])
              (or_null n.nominee_display_name))
            n.nominee_sam;
      email = prefer (elim u [ none ↦ none | some v ↦ or_null v.email ]) (or_null n.nominee_email);
      enabled = get_or n.enabled (elim u [ none ↦ true | some v ↦ v.enabled ]);
    }

unfoldable pub get_nominees_of_app : AuditingData → ℕ → List NomineeView
get_nominees_of_app d id = elim (get_app d id) [
  | none ↦ []
  | some a ↦ map (nominee_view d) a.nominees
]

abbrev pub get_campaign : AuditingData → ℕ → Option Campaign
get_campaign d id = find (λ (c : Campaign). c.campaign_id == id) d.campaigns

unfoldable pub get_packets_of_campaign : AuditingData → ℕ → List Packet
get_packets_of_campaign d id = filter (λ (p : Packet). p.campaign_id == id) d.packets

abbrev pub is_set : Option Text → Bool
is_set t = elim (or_null t) [ none ↦ false | some s ↦ true ]

abbrev pub is_submitted : Packet → Bool
is_submitted p = is_set p.submitted_at

unfoldable pub get_closing_packet : AuditingData → ℕ → Option Packet
get_closing_packet d id = elim (get_campaign d id) [
  | none ↦ none
  | some c ↦
      if text_eq c.status (text "closed") && text_eq c.closure_mode (text "any_packet")
      then find is_submitted (get_packets_of_campaign d id)
      else none
]

pub record Progress : Type 0 where
  pub submitted : ℕ
  pub total : ℕ

unfoldable pub get_campaign_progress : AuditingData → ℕ → Progress
get_campaign_progress d id =
    let ps = get_packets_of_campaign d id in
    record { submitted = length (filter is_submitted ps); total = length ps }

-- The subject that goes with each decision is not counted.
unfoldable pub get_decisions_by_packet : AuditingData → Text → List Decision
get_decisions_by_packet d id = filter (λ (x : Decision). text_eq x.packet_id id) d.decisions

pub record Verdicts : Type 0 where
  pub keep : ℕ
  pub revoke : ℕ

unfoldable pub summarize_decisions : AuditingData → Text → Verdicts
summarize_decisions d id =
    let ds = get_decisions_by_packet d id in
    record {
      keep = length (filter (λ (x : Decision). text_eq x.decision (text "keep")) ds);
      revoke = length (filter (λ (x : Decision). text_eq x.decision (text "revoke")) ds);
    }

unfoldable pub add_up : AuditingData → List Packet → Verdicts → Verdicts
add_up d [] v = v
add_up d (p ∷ ps) v =
    let s = summarize_decisions d p.packet_id in
    add_up d ps (record { keep = v.keep + s.keep; revoke = v.revoke + s.revoke })

unfoldable pub summarize_campaign_decisions : AuditingData → ℕ → Verdicts × ℕ
summarize_campaign_decisions d id =
    let v = add_up d (get_packets_of_campaign d id) (record { keep = 0; revoke = 0 }) in
    (v, v.keep + v.revoke)

-- `a.closed_at || a.created_at || ''`
abbrev pub history_key : Campaign → Text
history_key c = get_or (prefer (or_null c.closed_at) (or_null c.created_at)) []

unfoldable pub get_audit_history : Almanac → AuditingData → ℕ → List Campaign
get_audit_history K d id =
    sort (λ (a b : Campaign). K.compare (history_key b) (history_key a))
      (filter (λ (c : Campaign). c.application_id == id) d.campaigns)

abbrev pub is_closed_of : ℕ → Campaign → Bool
is_closed_of id c =
    c.application_id == id && (text_eq c.status (text "closed") && is_set c.closed_at)

abbrev pub closed_text : Campaign → Text
closed_text c = get_or c.closed_at []

unfoldable pub get_last_audit_date : Almanac → AuditingData → ℕ → Option Text
get_last_audit_date K d id =
    elim (sort (λ (a b : Campaign). K.compare (closed_text b) (closed_text a))
      (filter (is_closed_of id) d.campaigns)) [ [] ↦ none | c ∷ cs ↦ c.closed_at ]

-- In milliseconds; an audit every 0 months is none.
unfoldable pub next_due : Almanac → Option ℕ → Option Text → Option ℕ
next_due K none last = none
next_due K (some zero) last = none
next_due K (some (suc n)) none = none
next_due K (some (suc n)) (some date) = K.advance date (suc n)

unfoldable pub get_next_audit_due : Almanac → AuditingData → ℕ → Option ℕ
get_next_audit_due K d id = elim (get_app d id) [
  | none ↦ none
  | some a ↦ next_due K a.audit_frequency_months (get_last_audit_date K d id)
]

pub data Status : Type 0 where
  in_flight never overdue due_soon on_time : Status

abbrev pub is_in_flight : ℕ → Campaign → Bool
is_in_flight id c = c.application_id == id && text_eq c.status (text "active")

unfoldable pub status_of_days : ℤ → Status
status_of_days (ℤ.negsuc n) = overdue
status_of_days (ℤ.pos n) = if leb n 30 then due_soon else on_time

-- With the days until the audit is due.
unfoldable pub due_status : ℕ → Option ℕ → Status × Option ℤ
due_status now none = (on_time, none)
due_status now (some next) = let days = ceil_days next now in (status_of_days days, some days)

unfoldable pub get_audit_status : Almanac → AuditingData → ℕ → Status × Option ℤ
get_audit_status K d id =
    if any (is_in_flight id) d.campaigns
    then (in_flight, none)
    else elim (get_last_audit_date K d id) [
      | none ↦ (never, none)
      | some last ↦ due_status K.now (get_next_audit_due K d id)
    ]
