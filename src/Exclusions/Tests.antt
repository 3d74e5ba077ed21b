-- ===== src/Exclusions/Tests.antt =====
-- The exclusion pages at concrete inputs.
use operations_api.Common.{text_eq, In, trim}
use operations_api.DateKit.{fmt_gb, iso_local}
use operations_api.Dates.{calendar}
use operations_api.Common.{refl, none, [], ◌∷◌, text, inl, inr, trim}
use operations_api.Exclusions.Bulk.{
  Form, Page, initial_form, draw, Reached, opened, changed, reasoned, turned_back, dated, sent,
  bulk_payload, bulk_ready, type_other,
}
use operations_api.Exclusions.Bulk.Submission.{bulk_submission, BulkSubmits, typed_reason}
use operations_api.Exclusions.Calendar.{offered, months, start, earlier}
use operations_api.Exclusions.{BulkPayload}
use operations_api.Exclusions.Calendar.Range.{offered_bounds}
use operations_api.Dates.{ordinal}
use operations_api.Dates.Ordinals.{IsDate}
use operations_api.Common.{◌≡◌, ◌≤◌, ◌+◌, arith, true, some, ◌↔◌}
use operations_api.Common.{decimal}
use operations_api.Exclusions.Rows.{
  Item, Row, View, map_exclusion, map_exclusions, by_until, filtered_exclusions, renewals,
}
use operations_api.Exclusions.Rows.Filtering.{
  lower_query, IsFoundIn, searched_texts, In-filtered_exclusions, expiring-never_shown,
}
use mathlib.Core.List.{Perm}
use operations_api.Tables.Sort.{IsOrdered}
use operations_api.Exclusions.Rows.{searched, in_state}
use operations_api.Exclusions.Rows.Order.{IsAbove, filtered_exclusions-IsOrdered}
use operations_api.Common.{List, ◌⊎◌}
use operations_api.Samples.{ascii_browser, plain_engine, thursday}
use operations_api.Exclusions.Wizard.Tests.{next_thursday}

abbrev frozen : Form
frozen = record initial_form { reason = text "Regulatory window" }

abbrev dated_form : Form
dated_form = record frozen {
  until = fmt_gb plain_engine next_thursday;
  until_iso = iso_local next_thursday;
  cal_offset = earlier start;
}

abbrev ready_page : Page
ready_page = draw [] [] dated_form

next_thursday-offered : In next_thursday (offered thursday (earlier start))
unfolding offered months earlier calendar
next_thursday-offered = inr (inr (inr (inr (inr (inr (inr (inl refl)))))))

ready_page-Reached : Reached plain_engine ready_page
unfolding draw
ready_page-Reached =
    changed [] [] thursday
      (changed [] [] thursday
        (changed [] [] thursday (opened [] [])
          (reasoned (text "Regulatory window") (inr (inr (inr (inr (inl refl)))))))
        turned_back)
      (dated next_thursday next_thursday-offered)

bulk_submission_example :
    BulkSubmits ascii_browser plain_engine ready_page (bulk_payload ready_page)
unfolding sent bulk_ready text_eq draw fmt_gb decimal
bulk_submission_example =
    bulk_submission ascii_browser plain_engine ready_page (bulk_payload ready_page)
      ready_page-Reached refl

abbrev other_form : Form
other_form = record dated_form { reason = text "Other" }

typed_reason_example :
    let p = type_other (text "audit") (draw [] [] other_form) in
    (p.enabled ≡ true)
    × (sent p ≡ none)
    × ((q : BulkPayload) × (sent (draw [] [] p.live) ≡ some q) × (q.reason ≡ trim (text "audit")))
unfolding trim fmt_gb decimal
typed_reason_example = typed_reason [] [] other_form (text "audit") refl refl refl refl

thursday-IsDate : IsDate thursday
unfolding calendar
thursday-IsDate = record { in_year = omega arith; from_first = omega arith; in_month = omega arith }

offered_bounds_example :
    (ordinal thursday ≤ ordinal next_thursday) × (ordinal next_thursday ≤ ordinal thursday + 366)
offered_bounds_example =
    offered_bounds thursday next_thursday (earlier start) thursday-IsDate (omega arith)
      next_thursday-offered

-- A row as the server sends it.
abbrev item : Item
item = record {
  exclusion_id = some 12;
  id = none;
  server_name = text "WEB01";
  patch_group = none;
  service = none;
  application = none;
  environment = none;
  business_unit = none;
  reason = some (text "Regulatory window");
  ticket = none;
  notes = none;
  held_until = some (text "2026-12-03");
  excluded_by = none;
  excluded_at = none;
  status = some (text "expiring");
}

abbrev rows : List Row
rows = map_exclusions (λ t. t) (item ∷ [])

abbrev view : View
view = record {
  q = text " web";
  state_filter = text "expiring-soon";
  sort = by_until;
  ascending = true;
}

In-filtered_exclusions_example :
    In (map_exclusion (λ t. t) item) (filtered_exclusions ascii_browser view rows) ↔ (
      In (map_exclusion (λ t. t) item) rows
      × ((view.state_filter ≡ text "__all")
          ⊎ ((map_exclusion (λ t. t) item).state ≡ view.state_filter))
      × ((lower_query ascii_browser view ≡ [])
          ⊎ IsFoundIn ascii_browser
              (lower_query ascii_browser view)
              (searched_texts (map_exclusion (λ t. t) item))))
In-filtered_exclusions_example =
    In-filtered_exclusions ascii_browser view rows (map_exclusion (λ t. t) item)

filtered_exclusions-IsOrdered_example :
    IsOrdered (IsAbove by_until true) (filtered_exclusions ascii_browser view rows)
    × Perm (filtered_exclusions ascii_browser view rows) (
        searched ascii_browser
          (ascii_browser.lower (trim view.q))
          (in_state view.state_filter rows))
filtered_exclusions-IsOrdered_example = filtered_exclusions-IsOrdered ascii_browser view rows

expiring-never_shown_example :
    ((renewals rows).1 ≡ []) × (filtered_exclusions ascii_browser view rows ≡ [])
expiring-never_shown_example =
    expiring-never_shown ascii_browser (λ t. t) view (item ∷ []) (inr (inl refl), tt) refl
