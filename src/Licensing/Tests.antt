-- ===== src/Licensing/Tests.antt =====
-- Runs and instances for the licences, on the data that stand in for the API.
use operations_api.Common.{◌≡◌, ◌↔◌, refl, none, some, [], ◌∷◌, text, length, arith}
use operations_api.Api.{broken, responded, json, other_error}
use operations_api.Samples.{ascii_browser, empty_store}
use operations_api.Licensing.{Licence}
use operations_api.Licensing.Buckets.{
  Clock, under6mo, healthy, get_alert_threshold, get_bucket, get_counts, count_at,
  filtered_licences,
}
use operations_api.Licensing.Counts.{only_bucket, get_counts-filtered_licences}
use operations_api.Licensing.Seed.{demo_data, demo_licences}
use operations_api.Licensing.Fallback.{LicencePayload, find_licence}
use operations_api.Licensing.Ids.{HasIds}
use operations_api.Licensing.Actions.{Desk, Answers, add, delete, run_action, run_actions}
use operations_api.Licensing.Actions.Ids.{ListsIds, run_actions-HasIds}
use operations_api.Licensing.Actions.Refused.{IsRefused, run_action-IsRefused}
use operations_api.Licensing.Actions.Offline.{offline_at, run_action_offline}

-- Every date is a hundred days from now.
abbrev clock : Clock
clock = record { midnight = λ t. some 8_640_000_000; now = 0 }

abbrev page : Desk
page = record { store = empty_store; page = demo_data }

abbrev payload : LicencePayload
payload = record {
  application_name = none;
  vendor = text "Contoso";
  product = text "Suite";
  licence_type = text "Annual";
  quantity_held = 5;
  audit_frequency = text "Annual";
  audit_owner_sam = none;
  expires_at = text "2027-01-01";
  notice_period_days = 30;
  status_flag = text "engaged";
  notes = none;
}

abbrev offline : Answers
offline = record { written = broken other_error; listed = broken other_error }

demo_data-HasIds : HasIds demo_data
demo_data-HasIds = record { licences = ground arith; renewals = ground arith }

offline-ListsIds : ListsIds offline.listed
unfolding operations_api.Api.api
offline-ListsIds = λ s items d h. absurd (cc)

run_actions-HasIds_example :
    HasIds
      (run_actions
        (λ t. none)
        (text "2026-11-26")
        ((add payload, offline) ∷ (delete 2, offline) ∷ [])
        page).page
run_actions-HasIds_example =
    run_actions-HasIds (λ t. none) (text "2026-11-26")
      ((add payload, offline) ∷ (delete 2, offline) ∷ []) page
      (offline-ListsIds, (offline-ListsIds, tt)) demo_data-HasIds

run_action-IsRefused_example : IsRefused page (
    run_action
      (λ t. none)
      (text "2026-11-26")
      (delete 2)
      (record { written = responded 409 (json none) (text "in use"); listed = broken other_error })
      page)
run_action-IsRefused_example =
    run_action-IsRefused (λ t. none) (text "2026-11-26") (delete 2) 409 (json none) (text "in use")
      (broken other_error) page refl (λ e. omega (arith, e))

run_action_offline_example :
    find_licence 9
      (run_action
        (λ t. none)
        (text "2026-11-26")
        (add payload)
        (record { written = broken other_error; listed = broken other_error })
        page).0.page.licences
    ≡ offline_at (add payload) demo_data 9
run_action_offline_example =
    run_action_offline (λ t. none) (text "2026-11-26") (add payload) other_error
      (broken other_error) page 9 demo_data-HasIds refl

get_counts-filtered_licences_example :
    (length (filtered_licences clock ascii_browser (only_bucket under6mo) demo_licences)
      ≡ count_at under6mo (get_counts clock demo_licences))
    × ((l : Licence) → (get_alert_threshold clock l ≡ none) ↔ (get_bucket clock l ≡ healthy))
get_counts-filtered_licences_example =
    get_counts-filtered_licences clock ascii_browser under6mo demo_licences
