-- ===== src/Console.antt =====
-- frontend/js/op-app.js: the state of the console that the shell renders, and the rail's flags.
-- A text that is missing (`null`, `undefined`) is the empty text, which the code treats alike.
pub mod Status
pub mod Rail
pub mod Tests
use operations_api.Common.{
  ℕ, zero, suc, ◌+◌, Bool, true, false, not, ◌&&◌, ◌||◌, Option, none, some, List, [], ◌∷◌, ◌++◌,
  map, Text, text, ltb, leb, ◌==◌, if◌then◌else◌, any, filter, length, take, is_empty, starts_with,
  text_eq, decimal, has, join, or_text,
}

-- The numbers of a disk that are not whole: a type with the operations that the code applies.
pub record Floats : Type 1 where
  pub Float : Type 0
  pub at_most : Float → ℕ → Bool
  pub round : Float → Text
  pub fixed_one : Float → Text

-- An entry of `window.RECENT_ALERTS_BASE`, less its time, which is not read here.
pub record Alert : Type 0 where
  pub id : Text
  pub sub : Text
  pub detail : Text
  pub tone : Text
  pub source : Text

module _ (F : Floats) where
  open F use {Float, at_most, round, fixed_one}

  pub record Disk : Type 0 where
    pub server_name : Text
    pub disk_label : Text
    pub alert_status : ℕ
    pub percent_used : Float
    pub used_gb : Float
    pub volume_size_gb : Float
    pub days_until_critical : Option Float

  -- `days != null && days <= n`
  pub within_days : Option Float → ℕ → Bool
  within_days none n = false
  within_days (some days) n = at_most days n

  abbrev pub disk_id : Disk → Text
  disk_id d = text "disk:" ++ (d.server_name ++ (text ":" ++ d.disk_label))

  days_note : Option Float → Text
  days_note none = []
  days_note (some days) =
      if at_most days 30 then text " — ~" ++ (round days ++ text " days to crit") else []

  disk_detail : Disk → Text
  unfolding days_note
  disk_detail d =
      fixed_one d.percent_used
      ++ (text "% used ("
          ++ (round d.used_gb
              ++ (text "/"
                  ++ (round d.volume_size_gb ++ (text " GB)" ++ days_note d.days_until_critical)))))

  pub needs_alert : Disk → Bool
  unfolding within_days
  needs_alert d = leb 2 d.alert_status || within_days d.days_until_critical 7

  disk_alert : Disk → Alert
  unfolding within_days disk_detail
  disk_alert d = record {
    id = disk_id d;
    sub = d.server_name ++ (text " " ++ (d.disk_label ++ text " over threshold"));
    detail = disk_detail d;
    tone =
        if d.alert_status == 3 || within_days d.days_until_critical 7
        then text "crit"
        else text "warn";
    source = text "Disks";
  }

  unfoldable pub derive_disk_alerts : List Disk → List Alert
  unfolding needs_alert disk_alert
  derive_disk_alerts items = map disk_alert (filter needs_alert items)

pub data ApiState : Type 0 where
  ok off warn : ApiState

-- `/^(Authentication|Network|Request)/.test(e)`
unfoldable pub is_blanket : Text → Bool
is_blanket e =
    starts_with e (text "Authentication")
    || starts_with e (text "Network")
    || starts_with e (text "Request")

unfoldable pub has_blanket : List Text → Bool
unfolding is_blanket
has_blanket errs = any is_blanket errs

unfoldable pub api_state : List Text → ApiState
unfolding has_blanket
api_state errs =
    if length errs == 0
    then ApiState.ok
    else if has_blanket errs
    then ApiState.off
    else ApiState.warn

-- `/^(Authentication|Network|Request|Rate|Server)/.test(e)`
is_wide : Text → Bool
unfolding is_blanket
is_wide e = is_blanket e || starts_with e (text "Rate") || starts_with e (text "Server")

-- `recentBase.concat(derived.filter(d => !seenIds.has(d.id)))`
unfoldable pub merge_alerts : List Alert → List Alert → List Alert
merge_alerts base derived =
    base ++ filter (λ (d : Alert). not (has d.id (map (λ (a : Alert). a.id) base))) derived

-- An alert as the pages render it.
pub record Row : Type 0 where
  pub sev : Text
  pub title : Text
  pub detail : Text
  pub source : Text
  pub blast : Text

alert_row : Alert → Row
alert_row a = record {
  sev = or_text a.tone (text "info");
  title = or_text a.sub (or_text a.id (text "Alert"));
  detail = a.detail;
  source = a.source;
  blast = a.id;
}

unfoldable pub count_tone : Text → List Alert → ℕ
count_tone tone alerts = length (filter (λ (a : Alert). text_eq a.tone tone) alerts)

pub record Banner : Type 0 where
  pub tone : Text
  pub lead : Text
  pub msg : Text
  pub sub : Text

off_banner : List Text → Bool → Banner
off_banner errs using_demo = record {
  tone = text "crit";
  lead = text "API unreachable";
  msg =
      text "<b>Operator Console cannot reach the Operations API.</b> "
      ++ (if using_demo
          then text "Figures below are <b>demo data</b>, not live."
          else text "Figures below may be missing or stale.");
  sub = join (text " · ") (take 4 errs);
}

plural : ℕ → Text → Text → Text
plural n one more = if n == 1 then one else more

warn_banner : List Text → Bool → Banner
unfolding plural is_wide
warn_banner errs using_demo = record {
  tone = text "warn";
  lead = text "API degraded";
  msg =
      text "<b>"
      ++ (decimal (length errs)
          ++ (text " endpoint"
              ++ (plural (length errs) (text "") (text "s")
                  ++ (text " returning errors.</b> "
                      ++ (if using_demo
                          then text "Affected sections are showing <b>demo data</b>."
                          else text "Affected sections may be stale.")))));
  sub = join (text " · ") (take 4 (filter (λ e. not (is_wide e)) errs));
}

raw_banner : ApiState → List Text → Bool → Option Banner
unfolding off_banner warn_banner
raw_banner ApiState.ok errs using_demo = none
raw_banner ApiState.off errs using_demo = some (off_banner errs using_demo)
raw_banner ApiState.warn errs using_demo = some (warn_banner errs using_demo)

-- `window.API_ERRORS.join('|')`, which the banner's Dismiss button stores.
unfoldable pub signature : List Text → Text
signature errs = join (text "|") errs

is_dismissed : Option Text → Text → Bool
is_dismissed none sig = false
is_dismissed (some old) sig = text_eq old sig

unfoldable pub banner : List Text → Bool → Option Text → Option Banner
unfolding raw_banner is_dismissed signature api_state
banner errs using_demo dismissed =
    if is_dismissed dismissed (signature errs)
    then none
    else raw_banner (api_state errs) errs using_demo

abbrev healthy_label : Text
healthy_label = text "All healthy"

label_of : ApiState → ℕ → ℕ → Text
label_of ApiState.off crits warns = text "API unreachable"
label_of ApiState.warn crits warns = text "API degraded"
label_of ApiState.ok (suc crits) warns = text "Needs attention"
label_of ApiState.ok zero (suc warns) = text "With caveats"
label_of ApiState.ok zero zero = healthy_label

tagline_of : ApiState → Bool → ℕ → ℕ → ℕ → Text
unfolding plural
tagline_of ApiState.off using_demo crits warns infos =
    text "<b>API unreachable</b> — "
    ++ (if using_demo then text "showing demo data." else text "figures below may be stale.")
tagline_of ApiState.warn using_demo crits warns infos =
    text "<b>Degraded</b> — "
    ++ (if using_demo
        then text "some widgets showing demo data."
        else text "some endpoints failing.")
tagline_of ApiState.ok using_demo (suc crits) warns infos =
    text "<b>"
    ++ (decimal (suc crits)
        ++ (text " critical</b> alert"
            ++ (plural (suc crits) (text "") (text "s") ++ text " open.")))
tagline_of ApiState.ok using_demo zero (suc warns) infos =
    text "<b>"
    ++ (decimal (suc warns)
        ++ (text " warning</b>"
            ++ (plural (suc warns) (text "") (text "s") ++ text " — review when possible.")))
tagline_of ApiState.ok using_demo zero zero zero = text "All systems operational."
tagline_of ApiState.ok using_demo zero zero (suc infos) =
    text "All systems operational."
    ++ (text " <b>"
        ++ (decimal (suc infos)
            ++ (text " informational</b> advisor"
                ++ (plural (suc infos) (text "y") (text "ies") ++ text "."))))

-- What `window` holds when the shell renders.
pub record Window (F : Floats) : Type 0 where
  pub api_errors : List Text
  pub recent_alerts_base : List Alert
  pub disks : List (Disk F)
  pub using_demo : Bool
  pub banner_dismissed_sig : Option Text

pub record ConsoleState : Type 0 where
  pub label : Text
  pub tagline : Text
  pub banner : Option Banner
  pub api_state : ApiState
  pub crit : ℕ
  pub warn : ℕ
  pub info : ℕ
  pub alerts : List Row

module _ {F : Floats} where
  abbrev pub recent : Window F → List Alert
  recent w = merge_alerts w.recent_alerts_base (derive_disk_alerts F w.disks)

  unfoldable pub console_state : Window F → ConsoleState
  unfolding label_of tagline_of alert_row
  console_state w =
      let alerts = recent w in
      let crits = count_tone (text "crit") alerts in
      let warns = count_tone (text "warn") alerts in
      let infos = count_tone (text "info") alerts in
      record {
        label = label_of (api_state w.api_errors) crits warns;
        tagline = tagline_of (api_state w.api_errors) w.using_demo crits warns infos;
        banner = banner w.api_errors w.using_demo w.banner_dismissed_sig;
        api_state = api_state w.api_errors;
        crit = crits;
        warn = warns;
        info = infos;
        alerts = map alert_row alerts;
      }
