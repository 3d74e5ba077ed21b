-- ===== src/Console/Rail.antt =====
-- frontend/js/op-app.js, railFlagFor: the pill beside a page in the rail.
use operations_api.Common.{
  ℕ, zero, suc, ◌+◌, Bool, not, ◌&&◌, Option, none, some, List, ◌++◌, Text, text, filter, length,
  text_eq, decimal, ◌==◌,
}
use operations_api.Router.{Route, patchmgmt, certs, eol, disks, licensing, auditing}

-- An application of the auditing data, with the status that `getAuditStatus` gives for it and, of
-- its nominees, which are enabled.
pub record AuditApp : Type 0 where
  pub audit_status : Text
  pub due_status : Text
  pub audit_routing_mode : Text
  pub nominees_enabled : List Bool

-- The counts that `getCounts` of the licensing data gives.
pub record LicenceCounts : Type 0 where
  pub expired : ℕ
  pub under30 : ℕ
  pub under3mo : ℕ
  pub under6mo : ℕ

-- What the flags read of `window`; a missing count is 0, as `|| 0` makes it.
pub record Signals : Type 0 where
  pub disk_statuses : List ℕ
  pub cert_expired : ℕ
  pub cert_crit : ℕ
  pub cert_warn : ℕ
  pub eol_ended : ℕ
  pub eol_extended : ℕ
  pub exclusion_states : List Text
  pub licences : Option LicenceCounts
  pub audit_apps : Option (List AuditApp)

pub record Flag : Type 0 where
  pub tone : Text
  pub caption : Text

abbrev crit : Text
crit = text "crit"

abbrev warn : Text
warn = text "warn"

-- `if (c) return …crit…; if (w) return …warn…; return null;`
unfoldable pub flag : ℕ → Text → ℕ → Text → Option Flag
flag (suc c) c_unit w w_unit =
    some (record { tone = text "crit"; caption = decimal (suc c) ++ c_unit })
flag zero c_unit (suc w) w_unit =
    some (record { tone = text "warn"; caption = decimal (suc w) ++ w_unit })
flag zero c_unit zero w_unit = none

unfoldable pub count_text : Text → List Text → ℕ
count_text x xs = length (filter (λ y. text_eq y x) xs)

count_status : ℕ → List ℕ → ℕ
count_status x xs = length (filter (λ y. y == x) xs)

unfoldable pub is_live : AuditApp → Bool
is_live a = not (text_eq a.audit_status (text "archived"))

unfoldable pub is_overdue : AuditApp → Bool
is_overdue a = text_eq a.due_status (text "overdue")

-- A nominees-mode application with no enabled nominee cannot run a campaign.
unfoldable pub is_not_ready : AuditApp → Bool
is_not_ready a =
    text_eq a.audit_routing_mode (text "nominees")
    && length (filter (λ b. b) a.nominees_enabled) == 0

licence_flag : Option LicenceCounts → Option Flag
unfolding flag
licence_flag none = none
licence_flag (some c) =
    flag (c.expired + c.under30) (text " due") (c.under3mo + c.under6mo) (text " soon")

unfoldable pub audit_flag : Option (List AuditApp) → Option Flag
unfolding flag is_live is_overdue is_not_ready
audit_flag none = none
audit_flag (some apps) =
    let live = filter is_live apps in
    flag (length (filter is_overdue live)) (text " overdue") (length (filter is_not_ready live))
      (text " not ready")

unfoldable pub rail_flag : Route → Signals → Option Flag
unfolding flag count_status count_text licence_flag audit_flag
rail_flag disks s =
    flag (count_status 3 s.disk_statuses) (text " crit") (count_status 2 s.disk_statuses)
      (text " warn")
rail_flag certs s = flag (s.cert_crit + s.cert_expired) (text " crit") s.cert_warn (text " warn")
rail_flag eol s = flag s.eol_ended (text " EOL") s.eol_extended (text " ext")
rail_flag patchmgmt s =
    flag (count_text (text "overdue") s.exclusion_states) (text " due")
      (count_text (text "expiring") s.exclusion_states) (text " soon")
rail_flag licensing s = licence_flag s.licences
rail_flag auditing s = audit_flag s.audit_apps
rail_flag _ s = none
