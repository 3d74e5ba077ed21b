-- ===== src/Licensing/Actions.antt =====
-- frontend/js/op-boot.js, OC_ACTIONS: the licensing write actions, from the request to what they
-- tell the user. The data of the page is there, and drawing again changes no state.
pub mod Refused
pub mod Offline
pub mod Ids
use operations_api.Common.{
  ℕ, Bool, true, false, ◌&&◌, ◌||◌, Option, none, some, List, [], ◌∷◌, ◌++◌, Text, text, ◌==◌,
  if◌then◌else◌, is_empty, decimal, or_text,
}
use operations_api.Api.{Store, Reply, WriteResult, api, api_write, mark_demo, clear_demo}
use operations_api.Licensing.{LicenceItem, Licence, LicensingData, apply_licensing}
use operations_api.Licensing.Fallback.{
  LicencePayload, LicenceFields, fallback_add, fallback_patch, fallback_renew, fallback_delete,
}

-- The stores of the API wrapper with the licensing data.
pub record Desk : Type 0 where
  pub store : Store
  pub page : LicensingData

-- What the user is told: `onDone()`, a message by `onError` or `alert`, or nothing.
pub data Told : Type 0 where
  done : Told
  message : Text → Told
  quiet : Told

abbrev pub licences_path : Text
licences_path = text "/licensing/licences"

abbrev pub licensing : Text
licensing = text "licensing"

-- `refetchLicences`; an answer that is no array is `some none`.
unfoldable pub refetch_licences : Reply (Option (List LicenceItem)) → Desk → Desk
refetch_licences reply d =
    let (s, v) = api licences_path reply d.store in
    elim v [
      | none ↦ record d { store = mark_demo licensing s }
      | some none ↦ record d { store = mark_demo licensing s }
      | some (some items) ↦ record {
        store = clear_demo licensing s;
        page = apply_licensing items d.page;
      }
    ]

-- Where the data in memory changed, the page is on demo data.
unfoldable pub fall_back : Option LicensingData → Desk → Desk
fall_back none d = d
fall_back (some page) d = record { store = mark_demo licensing d.store; page = page }

unfoldable pub failure : Text → {V : Type 0} → WriteResult V → Text
failure what r =
    what
    ++ (text " (" ++ (decimal r.status ++ (text "): " ++ or_text r.error (text "unknown error"))))

-- What the write and the list after it were answered.
pub record Answers : Type 0 where
  pub written : Reply Unit
  pub listed : Reply (Option (List LicenceItem))

-- The common end of the actions: the list is fetched again, the data in memory stand in for an API
-- that does not answer, or the user is told what the API refused.
unfoldable pub settle :
    (Text → Option Text)
    → Text
    → Text
    → Told
    → (LicensingData → Option LicensingData)
    → Answers
    → Desk
    → Desk × Told
unfolding failure fall_back refetch_licences
settle error_field path what finished offline a d =
    let (s, r) = api_write error_field path a.written d.store in
    let d' = record d { store = s } in
    if r.ok
    then (refetch_licences a.listed d', finished)
    else if r.status == 0
    then (fall_back (offline d.page) d', finished)
    else (d', message (failure what r))

pub data LicenceAction : Type 0 where
  add : LicencePayload → LicenceAction
  set_status : ℕ → Text → LicenceAction
  patch : ℕ → LicenceFields → LicenceAction
  renew : ℕ → Text → Text → LicenceAction
  delete : ℕ → LicenceAction

abbrev pub licence_path : ℕ → Text
licence_path id = text "/licensing/licences/" ++ decimal id

abbrev pub no_fields : LicenceFields
no_fields = record {
  application_name = none;
  licence_type = none;
  quantity_held = none;
  audit_frequency = none;
  audit_owner_sam = none;
  expires_at = none;
  notice_period_days = none;
  status_flag = none;
  notes = none;
}

module _ (error_field : Text → Option Text) (today : Text) where
  unfoldable pub add_licence : LicencePayload → Answers → Desk → Desk × Told
  add_licence p a d =
      if is_empty p.vendor || is_empty p.product || is_empty p.expires_at
      then (d, message (text "Vendor, product and expiry date are required."))
      else settle error_field licences_path (text "Could not add licence") done
          (λ page. some (fallback_add p page)) a d

  unfoldable pub update_licence_status : ℕ → Text → Answers → Desk → Desk × Told
  update_licence_status id flag a d =
      settle error_field (licence_path id) (text "Could not update status") quiet
        (fallback_patch id (record no_fields { status_flag = some flag })) a d

  unfoldable pub patch_licence : ℕ → LicenceFields → Answers → Desk → Desk × Told
  patch_licence id fields a d =
      settle error_field (licence_path id) (text "Could not update licence") done
        (fallback_patch id fields) a d

  unfoldable pub renew_licence : ℕ → Text → Text → Answers → Desk → Desk × Told
  renew_licence id new_expires notes a d =
      settle error_field (licence_path id ++ text "/renew") (text "Could not renew licence") quiet
        (fallback_renew today id new_expires notes) a d

  unfoldable pub delete_licence : ℕ → Answers → Desk → Desk × Told
  delete_licence id a d =
      settle error_field (licence_path id) (text "Could not delete licence") quiet
        (fallback_delete id) a d

  unfoldable pub run_action : LicenceAction → Answers → Desk → Desk × Told
  run_action (add p) = add_licence p
  run_action (set_status id flag) = update_licence_status id flag
  run_action (patch id fields) = patch_licence id fields
  run_action (renew id new_expires notes) = renew_licence id new_expires notes
  run_action (delete id) = delete_licence id

  unfoldable pub run_actions : List (LicenceAction × Answers) → Desk → Desk
  run_actions [] d = d
  run_actions ((x, a) ∷ xs) d = run_actions xs (run_action x a d).0
