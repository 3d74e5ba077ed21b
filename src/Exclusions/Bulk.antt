-- ===== src/Exclusions/Bulk.antt =====
-- frontend/js/op-pages.js, renderBulkExclude: the bulk form. What the button does is decided by
-- values that the last drawing of the page computed, so the page is the live form with the form as
-- it was drawn.
pub mod Submission
use operations_api.Common.{
  ℕ, ◌≡◌, Bool, true, false, not, ◌&&◌, ◌||◌, Option, none, some, List, [], ◌∷◌, Text, text,
  text_eq, if◌then◌else◌, is_empty, trim, In, find,
}
use operations_api.Dates.{Date}
use operations_api.DateKit.{Engine, iso_local, fmt_gb}
use operations_api.DateKit.Slugs.{exclusion_reasons, slugify_reason}
use operations_api.Exclusions.{Scope, group, env, BulkPayload}
use operations_api.Exclusions.Calendar.{Offset, start, earlier, later, offered}
use operations_api.Exclusions.Wizard.{reason_ok, effective_reason}

-- `pmState.bulk`
pub record Form : Type 0 where
  pub scope : Scope
  pub group_id : Text
  pub env_name : Text
  pub reason : Text
  pub other_reason : Text
  pub until : Text
  pub until_iso : Text
  pub cal_offset : Offset
  pub error : Option Text

abbrev pub initial_form : Form
initial_form = record {
  scope = group;
  group_id = text "GROUP0";
  env_name = text "Production";
  reason = [];
  other_reason = [];
  until = [];
  until_iso = [];
  cal_offset = start;
  error = none;
}

-- A patch group or an environment, and how many servers it has.
pub record Target : Type 0 where
  pub name : Text
  pub count : ℕ

abbrev count_of : Text → List Target → ℕ
count_of n ts = elim (find (λ (t : Target). text_eq t.name n) ts) [ none ↦ 0 | some t ↦ t.count ]

-- `affectedCount`
unfoldable pub affected : List Target → List Target → Form → ℕ
affected groups envs f = elim f.scope [
  | group ↦ count_of f.group_id groups
  | env ↦ count_of f.env_name envs
]

-- `bulkReady`
unfoldable pub bulk_ready : Form → Bool
unfolding reason_ok
bulk_ready f = reason_ok f.reason f.other_reason && not (is_empty f.until)

pub record Page : Type 0 where
  pub live : Form
  pub drawn : Form
  pub affected_count : ℕ
  pub enabled : Bool

unfoldable pub draw : List Target → List Target → Form → Page
draw groups envs f = record {
  live = f;
  drawn = f;
  affected_count = affected groups envs f;
  enabled = bulk_ready f;
}

-- The `input` handler of the text for "Other": it sets the button, and does not draw the page.
unfoldable pub type_other : Text → Page → Page
type_other t p = record p {
  live = record p.live { other_reason = t };
  enabled = not (is_empty (trim t)) && not (is_empty p.live.until);
}

unfoldable pub target_of : Form → Text
target_of f = elim f.scope [ group ↦ f.group_id | env ↦ f.env_name ]

-- `kind`, `target`, the date and its text are read on the click; the rest was computed on drawing.
unfoldable pub bulk_payload : Page → BulkPayload
bulk_payload p = record {
  kind = p.live.scope;
  target = target_of p.live;
  reason = effective_reason p.drawn.reason p.drawn.other_reason;
  reason_slug = slugify_reason p.drawn.reason (text_eq p.drawn.reason (text "Other"));
  until = p.live.until;
  until_iso = p.live.until_iso;
  affected_count = p.affected_count;
}

-- The click: the payload that is sent, if any.
unfoldable pub sent : Page → Option BulkPayload
sent p = if bulk_ready p.drawn then some (bulk_payload p) else none

-- A click on the button, which the browser only passes on while it is enabled, clears the error.
unfoldable pub press : Page → Page
press p = if bulk_ready p.drawn then record p { live = record p.live { error = none } } else p

-- What changes the form and draws the page again.
pub data Change (E : Engine) (today : Date) : Form → Form → Type 0 where
  scoped : {f : Form} (s : Scope) → Change E today f (record f { scope = s })
  grouped : {f : Form} (g : Text) → f.scope ≡ group → Change E today f (record f { group_id = g })
  placed : {f : Form} (e : Text) → f.scope ≡ env → Change E today f (record f { env_name = e })
  reasoned :
      {f : Form} (r : Text)
      → In r ([] ∷ exclusion_reasons)
      → Change E today f (record f { reason = r })
  dated :
      {f : Form} (d : Date)
      → In d (offered today f.cal_offset)
      → Change E today f (record f { until = fmt_gb E d; until_iso = iso_local d })
  turned_back : {f : Form} → Change E today f (record f { cal_offset = earlier f.cal_offset })
  turned_on : {f : Form} → Change E today f (record f { cal_offset = later f.cal_offset })
  failed : {f : Form} (m : Text) → Change E today f (record f { error = some m })
  dismissed : {f : Form} → Change E today f (record f { error = none })
  succeeded : {f : Form} → Change E today f initial_form
  unchanged : {f : Form} → Change E today f f

-- The pages that a run reaches.
pub data Reached (E : Engine) : Page → Type 0 where
  opened : (groups envs : List Target) → Reached E (draw groups envs initial_form)
  changed :
      {p : Page} {f : Form} (groups envs : List Target) (today : Date)
      → Reached E p
      → Change E today p.live f
      → Reached E (draw groups envs f)
  typed :
      {p : Page} (t : Text)
      → Reached E p
      → p.drawn.reason ≡ text "Other"
      → Reached E (type_other t p)
  pressed : {p : Page} → Reached E p → p.enabled ≡ true → Reached E (press p)
