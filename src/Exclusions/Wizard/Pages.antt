-- ===== src/Exclusions/Wizard/Pages.antt =====
-- frontend/js/op-pages.js, renderAddExclusion: the wizard as a page. A drawing captures what its
-- controls use later; one that throws leaves the old controls on the page while the form has changed. A
-- step of the relation is a control of the page as drawn that the user works, or an answer of the
-- action that was started.
use operations_api.Common.{
  ℕ, ◌≡◌, ◌≤◌, ◌<◌, Bool, false, Option, none, some, List, [], ◌++◌, Text, text, ◌==◌,
  if◌then◌else◌, is_empty, In,
}
use operations_api.Dates.{Date}
use operations_api.DateKit.{Engine}
use operations_api.DateKit.Slugs.{exclusion_reasons}
use operations_api.Router.{Browser}
use operations_api.Exclusions.{Server}
use operations_api.Exclusions.Calendar.{earlier, later, offered}
use operations_api.Exclusions.Wizard.{
  Add, initial, toggle, visible_selected, select_visible, hits, reason_ok, NextCycle, presets,
  choose,
}

-- What a drawing reads besides the form.
pub record Backdrop : Type 0 where
  pub servers : List Server
  pub today : Date
  pub cycle : Option NextCycle

-- What the controls of a drawn page hold: the form of the drawing with the steps and selections that it
-- showed, the hits, `allVisibleSelected`, and the days on offer.
pub record View : Type 0 where
  pub form : Add
  pub hits : List Server
  pub all_selected : Bool
  pub today : Date
  pub cycle : Option NextCycle

-- `pmState.add`, and the wizard's controls on the page, `none` while another page or tab is shown.
pub record Page : Type 0 where
  pub live : Add
  pub view : Option View

abbrev pub fresh_page : Page
fresh_page = record { live = initial; view = none }

-- The four buttons to the next step, `none` where a click does nothing. The first tests `canNext` as it
-- was drawn; the others look at the form again.
unfoldable pub next : View → Add → Option Add
next v a =
    if v.form.step == 1
    then (if is_empty v.form.selected_servers then none else some (record a { step = 2 }))
    else if v.form.step == 2
    then (if reason_ok a.reason a.other_reason then some (record a { step = 3 }) else none)
    else if v.form.step == 3
    then (if is_empty a.until then none else some (record a { step = 4 }))
    else none

-- The controls of a drawing, where its search gives the hits.
unfoldable pub view_of : Backdrop → Add → Option (List Server) → Option View
view_of w a none = none
view_of w a (some hs) = some (record {
  form = a;
  hits = hs;
  all_selected = visible_selected hs a.selected_servers;
  today = w.today;
  cycle = w.cycle;
})

-- The page after a drawing of the form `a`.
unfoldable pub put_view : Add → Option View → Page → Page
put_view a none p = record p { live = a }
put_view a (some v) p = record { live = a; view = some v }

module _ (B : Browser) where
  -- Only the first step searches; `none` where the search throws.
  unfoldable pub step_hits : Backdrop → Add → Option (List Server)
  step_hits w a = if a.step == 1 then hits B a.server_query w.servers else some []

  -- `RERENDER_PAGE` after the form became `a`.
  unfoldable pub redraw : Backdrop → Add → Page → Page
  redraw w a p = put_view a (view_of w a (step_hits w a)) p

  -- The same by an answer, which finds the wizard's page or another.
  unfoldable pub redraw_shown : Backdrop → Add → Page → Page
  redraw_shown w a p =
      let again = redraw w a p in elim p.view [ none ↦ record p { live = a } | some v ↦ again ]

-- What the user can do with the page, and what the action answers; `w` is what the drawing that
-- follows reads.
pub data Move (B : Browser) (E : Engine) (w : Backdrop) : Page → Page → Type 0 where
  opened : {p : Page} → p.view ≡ none → Move B E w p (redraw B w p.live p)
  refreshed : {p : Page} → Move B E w p (redraw_shown B w p.live p)
  left : {p : Page} → Move B E w p (record p { view = none })
  queried :
      {p : Page} {v : View} (q : Text)
      → p.view ≡ some v
      → v.form.step ≡ 1
      → Move B E w p (redraw B w (record p.live { server_query = q }) p)
  toggled :
      {p : Page} {v : View} (s : Server)
      → p.view ≡ some v
      → v.form.step ≡ 1
      → In s (v.hits ++ v.form.selected_servers)
      → Move B E w p
          (redraw B w (record p.live { selected_servers = toggle s p.live.selected_servers }) p)
  all_visible :
      {p : Page} {v : View}
      → p.view ≡ some v
      → v.form.step ≡ 1
      → is_empty v.hits ≡ false
      → Move B E w p (
          redraw B w
            (record p.live {
              selected_servers = select_visible v.all_selected v.hits p.live.selected_servers;
            })
            p)
  cleared :
      {p : Page} {v : View}
      → p.view ≡ some v
      → v.form.step ≡ 1
      → is_empty v.form.selected_servers ≡ false
      → Move B E w p (redraw B w (record p.live { selected_servers = [] }) p)
  next_pressed :
      {p : Page} {v : View} {a : Add}
      → p.view ≡ some v
      → next v p.live ≡ some a
      → Move B E w p (redraw B w a p)
  back_to :
      {p : Page} {v : View} (n : ℕ)
      → p.view ≡ some v
      → 1 ≤ n
      → n < v.form.step
      → Move B E w p (redraw B w (record p.live { step = n }) p)
  reason_picked :
      {p : Page} {v : View} (r : Text)
      → p.view ≡ some v
      → v.form.step ≡ 2
      → In r exclusion_reasons
      → Move B E w p (redraw B w (record p.live { reason = r }) p)
  -- Typing the reason draws nothing.
  other_typed :
      {p : Page} {v : View} (t : Text)
      → p.view ≡ some v
      → v.form.step ≡ 2
      → v.form.reason ≡ text "Other"
      → Move B E w p (record p { live = record p.live { other_reason = t } })
  preset_picked :
      {p : Page} {v : View} (d : Date)
      → p.view ≡ some v
      → v.form.step ≡ 3
      → In d (presets E v.today v.cycle)
      → Move B E w p (redraw B w (choose E d p.live) p)
  day_picked :
      {p : Page} {v : View} (d : Date)
      → p.view ≡ some v
      → v.form.step ≡ 3
      → In d (offered v.today v.form.cal_offset)
      → Move B E w p (redraw B w (choose E d p.live) p)
  turned_back :
      {p : Page} {v : View}
      → p.view ≡ some v
      → v.form.step ≡ 3
      → Move B E w p (redraw B w (record p.live { cal_offset = earlier p.live.cal_offset }) p)
  turned_on :
      {p : Page} {v : View}
      → p.view ≡ some v
      → v.form.step ≡ 3
      → Move B E w p (redraw B w (record p.live { cal_offset = later p.live.cal_offset }) p)
  noted :
      {p : Page} {v : View} (t : Text)
      → p.view ≡ some v
      → v.form.step ≡ 4
      → Move B E w p (record p { live = record p.live { notes = t } })
  submitted :
      {p : Page} {v : View}
      → p.view ≡ some v
      → v.form.step ≡ 4
      → Move B E w p (record p { live = record p.live { error = none } })
  dismissed :
      {p : Page} {v : View}
      → p.view ≡ some v
      → v.form.step ≡ 4
      → Move B E w p (redraw B w (record p.live { error = none }) p)
  failed :
      {p : Page} (m : Text) → Move B E w p (redraw_shown B w (record p.live { error = some m }) p)
  succeeded : {p : Page} → Move B E w p fresh_page

-- The pages that a run from the first one reaches; the inventories that it draws satisfy `I`.
pub data Reachable (B : Browser) (E : Engine) (I : List Server → Type 0) : Page → Type 0 where
  fresh : Reachable B E I fresh_page
  moved :
      {p q : Page} (w : Backdrop)
      → I w.servers
      → Reachable B E I p
      → Move B E w p q
      → Reachable B E I q
