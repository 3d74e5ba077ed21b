-- ===== src/Auditing/Health/Pill.antt =====
-- The pill that railFlagFor of frontend/js/op-app.js puts beside the auditing page, and the counts
-- that getAuditingCritCounts of frontend/js/auditing-demo-data.js puts above it.
use operations_api.Common.{
  ℕ, zero, suc, ◌+◌, ap, sym, ◌≡◌, ◌≢◌, ◌↔◌, refl, arith, Bool, true, false, Option, none, some,
  List, [], ◌∷◌, ◌++◌, Text, text, text_eq, filter, length, map, sym, decimal, not, is_empty, ◌==◌,
}
use operations_api.Router.{auditing}
use operations_api.Console.Rail.{
  AuditApp, Signals, Flag, flag, is_live, is_overdue, is_not_ready, audit_flag, rail_flag,
}
use operations_api.Auditing.{Application, AuditingData}
use operations_api.Auditing.Status.{
  Almanac, NomineeView, get_nominees_of_app, Status, in_flight, never, overdue, due_soon, on_time,
}
use operations_api.Auditing.Health
use operations_api.Auditing.Health.{live_apps, not_ready, status_of, get_auditing_crit_counts}

-- The texts of the states.
unfoldable pub status_text : Status → Text
status_text in_flight = text "active"
status_text never = text "never"
status_text overdue = text "overdue"
status_text due_soon = text "due_soon"
status_text on_time = text "ok"

-- What the rail reads of an application.
unfoldable pub audit_app_of : Almanac → AuditingData → Application → AuditApp
audit_app_of K d a = record {
  audit_status = a.audit_status;
  due_status = status_text (status_of K d a);
  audit_routing_mode = a.audit_routing_mode;
  nominees_enabled = map (λ (n : NomineeView). n.enabled) (get_nominees_of_app d a.application_id);
}

overdue-status_text : (s : Status) → text_eq (status_text s) (text "overdue") ≡ Health.is_overdue s
unfolding status_text text_eq
overdue-status_text in_flight = refl
overdue-status_text never = refl
overdue-status_text overdue = refl
overdue-status_text due_soon = refl
overdue-status_text on_time = refl

none_enabled :
    (ns : List NomineeView)
    → (length (filter (λ (b : Bool). b) (map (λ (n : NomineeView). n.enabled) ns)) == 0)
      ≡ is_empty (filter (λ (n : NomineeView). n.enabled) ns)
none_enabled [] = refl
none_enabled (n ∷ ns) = ground (arith, none_enabled ns)

module _ (K : Almanac) (d : AuditingData) where
  late_same :
      (apps : List Application)
      → length (filter is_overdue (filter is_live (map (audit_app_of K d) apps)))
        ≡ length (
            filter
              (λ a. Health.is_overdue (status_of K d a))
              (filter (λ (a : Application). not (text_eq a.audit_status (text "archived"))) apps))
  unfolding is_overdue is_live audit_app_of
  late_same [] = refl
  late_same (a ∷ apps) = ground (arith, late_same apps, overdue-status_text (status_of K d a))

  unready_same :
      (apps : List Application)
      → length (filter is_not_ready (filter is_live (map (audit_app_of K d) apps)))
        ≡ length (
            filter
              (not_ready d)
              (filter (λ (a : Application). not (text_eq a.audit_status (text "archived"))) apps))
  unfolding is_not_ready is_live audit_app_of not_ready
  unready_same [] = refl
  unready_same (a ∷ apps) =
      ground (arith, unready_same apps, none_enabled (get_nominees_of_app d a.application_id))

abbrev pub said : Text → Text → Option Flag
said t c = some (record { tone = t; caption = c })

-- A pill that says what the counts say: how many applications are overdue, in the tone of a fault; if
-- none is, how many call for action, in that of a warning; and no pill if none does.
pub record Says (late action : ℕ) (pill : Option Flag) : Type 0 where
  pub silent : (pill ≡ none) ↔ (action ≡ 0)
  pub faulty : (pill ≡ said (text "crit") (decimal late ++ text " overdue")) ↔ (late ≢ 0)
  pub warned :
      (pill ≡ said (text "warn") (decimal action ++ text " not ready"))
      ↔ ((late ≡ 0) × (action ≢ 0))

is_fault : Option Flag → Bool
is_fault none = false
is_fault (some f) = text_eq f.tone (text "crit")

tones-differ : (c w : Text) → said (text "crit") c ≢ said (text "warn") w
unfolding is_fault text_eq
tones-differ c w h = let e : true ≡ false = ap is_fault h in cc

flag-Says : (n w : ℕ) → Says n (n + w) (flag n (text " overdue") w (text " not ready"))
unfolding flag
flag-Says zero zero = record {
  silent = (λ h. refl, λ h. refl);
  faulty = (λ h. absurd (cc), λ h. absurd (h refl));
  warned = (λ h. absurd (cc), λ h. absurd (h.1 refl));
}
flag-Says zero (suc w) = record {
  silent = (λ h. absurd (cc), λ h. absurd (omega arith));
  faulty = (λ h. absurd (tones-differ _ _ (sym h)), λ h. absurd (h refl));
  warned = (
    λ h. (refl, omega arith),
    λ h. ap (λ (k : ℕ). said (text "warn") (decimal k ++ text " not ready")) (omega arith),
  );
}
flag-Says (suc n) w = record {
  silent = (λ h. absurd (cc), λ h. absurd (omega arith));
  faulty = (λ h. omega arith, λ h. refl);
  warned = (λ h. absurd (tones-differ _ _ h), λ h. absurd (omega arith));
}

-- The pill beside the auditing page says what the counts above the page say, made of the same data:
-- there is none exactly if no live application calls for action; it names the overdue ones, in the tone
-- of a fault, exactly if there are some; and those that call for action, in that of a warning, exactly
-- if there are some and none is overdue.
pub rail_flag-get_auditing_crit_counts :
    (K : Almanac) (d : AuditingData) (s : Signals)
    → s.audit_apps ≡ some (map (audit_app_of K d) d.applications)
    → let c = get_auditing_crit_counts K d in
      Says c.overdue c.action_required (rail_flag auditing s)
unfolding rail_flag audit_flag get_auditing_crit_counts live_apps
rail_flag-get_auditing_crit_counts K d s h =
    rw (h, late_same K d d.applications, unready_same K d d.applications) (flag-Says _ _)
