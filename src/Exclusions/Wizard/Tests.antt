-- ===== src/Exclusions/Wizard/Tests.antt =====
-- The add-exclusion wizard at concrete inputs.
use operations_api.Common.{
  ◌≡◌, ◌↔◌, refl, arith, inl, inr, In, true, false, Bool, none, some, List, [], ◌∷◌, map, text,
  text_eq, trim, has, includes, starts_with, decimal,
}
use operations_api.Dates.{Date, calendar}
use operations_api.DateKit.{add_days, fmt_gb}
use operations_api.Router.{ascii_lower}
use operations_api.Samples.{bare, ascii_browser, plain_engine, thursday, web}
use operations_api.Exclusions.{Server}
use operations_api.Exclusions.Wizard.{
  reason_ok, Add, initial, hits, search, is_hit, toggle, without_first, choose, presets,
  visible_selected,
}
use operations_api.Exclusions.Wizard.Filled.{IsFilled}
use operations_api.Exclusions.Wizard.Drawn.{HasFqdns}
use operations_api.Exclusions.Wizard.Invariant.{Reachable-IsFilled}
use operations_api.Exclusions.Wizard.Posts.{Submits, submission}
use operations_api.Exclusions.Wizard.Selection.{search-none_iff}
use operations_api.Exclusions.Wizard.Pages.{
  Backdrop, View, Page, next, redraw, put_view, view_of, step_hits, Reachable, fresh, moved, opened,
  queried, toggled, next_pressed, reason_picked, preset_picked,
}

abbrev pub next_thursday : Date
next_thursday = record { year = 2026; month = 11; day = 3 }

week_later : next_thursday ≡ add_days thursday 7
unfolding calendar add_days
week_later = refl

abbrev backdrop : Backdrop
backdrop = record { servers = web ∷ []; today = thursday; cycle = none }

backdrop-HasFqdns : HasFqdns backdrop.servers
backdrop-HasFqdns = (λ e. absurd (ground arith), tt)

-- The page drawn from a form, with its hits.
abbrev drawn : Add → List Server → Bool → View
drawn a hs every = record {
  form = a;
  hits = hs;
  all_selected = every;
  today = thursday;
  cycle = none;
}

abbrev seen : Add → List Server → Bool → Page
seen a hs every = record { live = a; view = some (drawn a hs every) }

abbrev searching : Add
searching = record initial { server_query = text "web" }

abbrev selecting : Add
selecting = record searching { selected_servers = web ∷ [] }

abbrev reasoning : Add
reasoning = record selecting { step = 2; reason = text "Regulatory window" }

abbrev dating : Add
dating = choose plain_engine next_thursday (record reasoning { step = 3 })

abbrev confirming : Add
confirming = record dating { step = 4 }

abbrev confirming_page : Page
confirming_page = seen confirming [] true

confirming-Reachable : Reachable ascii_browser plain_engine HasFqdns confirming_page
unfolding next redraw put_view view_of step_hits hits search is_hit includes trim starts_with toggle
    without_first presets text_eq visible_selected choose has reason_ok fmt_gb decimal
confirming-Reachable =
    let I = backdrop-HasFqdns in
    let s0 : Reachable ascii_browser plain_engine HasFqdns (seen initial [] true) =
      moved backdrop I fresh (opened refl) in
    let s1 : Reachable ascii_browser plain_engine HasFqdns (seen searching (web ∷ []) false) =
      moved backdrop I s0 (queried (text "web") refl refl) in
    let s2 : Reachable ascii_browser plain_engine HasFqdns (seen selecting (web ∷ []) true) =
      moved backdrop I s1 (toggled web refl refl (inl refl)) in
    let s3 : Reachable ascii_browser plain_engine HasFqdns
        (seen (record selecting { step = 2 }) [] true) =
      moved backdrop I s2 (next_pressed refl refl) in
    let s4 : Reachable ascii_browser plain_engine HasFqdns (seen reasoning [] true) =
      moved backdrop I s3
        (reason_picked (text "Regulatory window") refl refl (inr (inr (inr (inl refl))))) in
    let s5 : Reachable ascii_browser plain_engine HasFqdns
        (seen (record reasoning { step = 3 }) [] true) =
      moved backdrop I s4 (next_pressed refl refl) in
    let s6 : Reachable ascii_browser plain_engine HasFqdns (seen dating [] true) =
      moved backdrop I s5 (preset_picked next_thursday refl refl (inl week_later)) in
    moved backdrop I s6 (next_pressed refl refl)

Reachable-IsFilled_example : IsFilled plain_engine confirming
Reachable-IsFilled_example =
    Reachable-IsFilled ascii_browser plain_engine confirming_page confirming-Reachable

submission_example : Submits ascii_browser plain_engine (drawn confirming [] true) confirming
unfolding text_eq fmt_gb decimal choose
submission_example =
    submission ascii_browser plain_engine confirming_page (drawn confirming [] true)
      confirming-Reachable refl refl (refl, tt)

-- A search for another server throws where `bare` has no FQDN, and the page keeps its controls.
abbrev stale : Page
stale = record { live = searching; view = some (drawn selecting [] true) }

-- Next, as it was drawn with a selection, leads on although the selection has been cleared.
stale_next : next (drawn selecting [] true) searching ≡ some (record searching { step = 2 })
unfolding next
stale_next = refl

stale_drawing :
    redraw ascii_browser (record backdrop { servers = web ∷ bare ∷ [] }) searching stale ≡ stale
unfolding redraw put_view view_of step_hits hits search is_hit includes trim starts_with
stale_drawing = refl

search-none_iff_example :
    (search ascii_browser (text "web") (web ∷ bare ∷ []) ≡ none)
    ↔ (s : Server) × (In s (web ∷ bare ∷ []))
      × ((s.fqdn ≡ none) × (includes (map ascii_lower s.name) (text "web") ≡ false))
search-none_iff_example = search-none_iff ascii_browser (text "web") (web ∷ bare ∷ [])

-- The wizard's search for a server cannot be drawn where another has no FQDN.
search_test : hits ascii_browser (text "web") (web ∷ bare ∷ []) ≡ none
unfolding hits search is_hit includes trim starts_with
search_test = refl
