-- ===== src/Licensing/Actions/Refused.antt =====
-- What a licensing action does when the API refuses it.
use operations_api.Common.{
  if_intro, ℕ, ◌≡◌, ◌≢◌, refl, false, ◌||◌, Option, List, Text, arith, ◌==◌, is_empty,
}
use operations_api.Api.{Store, Reply, Body, responded, is_success, api_write}
use operations_api.Licensing.{LicenceItem, LicensingData}
use operations_api.Licensing.Actions.{
  Desk, Told, message, LicenceAction, add, set_status, patch, renew, delete, settle, run_action,
  add_licence, update_licence_status, patch_licence, renew_licence, delete_licence,
}

-- The data of the page as they were, and a message.
abbrev pub IsRefused : Desk → Desk × Told → Type 0
IsRefused d r = (r.0.page ≡ d.page) × ((m : Text) × (r.1 ≡ message m))

write-refused :
    (ef : Text → Option Text) (path : Text) (status : ℕ) (body : Body Unit) (error : Text)
    (s : Store)
    → is_success status ≡ false
    → ((api_write ef path (responded status body error) s).1.ok ≡ false)
      × ((api_write ef path (responded status body error) s).1.status ≡ status)
unfolding api_write
write-refused ef path status body error s h = rw h (refl, refl)

settle-IsRefused :
    (ef : Text → Option Text) (path what : Text) (t : Told)
    (offline : LicensingData → Option LicensingData) (status : ℕ) (body : Body Unit) (error : Text)
    (listed : Reply (Option (List LicenceItem))) (d : Desk)
    → is_success status ≡ false
    → status ≢ 0
    → IsRefused d (
        settle ef path what t offline
          (record { written = responded status body error; listed = listed })
          d)
unfolding settle
settle-IsRefused ef path what t offline status body error listed d h z =
    let (not_ok, same) = write-refused ef path status body error d.store h in
    let unsent : (status == 0) ≡ false = ground arith in
    rw (settle, not_ok, same, unsent) (refl, (_, refl))

module _ (ef : Text → Option Text) (today : Text) where
  -- An action that the API answers with a status that is no success and not 0 leaves the data of the
  -- page as they were and tells the user so.
  pub run_action-IsRefused :
      (x : LicenceAction) (status : ℕ) (body : Body Unit) (error : Text)
      (listed : Reply (Option (List LicenceItem))) (d : Desk)
      → is_success status ≡ false
      → status ≢ 0
      → IsRefused d (
          run_action ef today x
            (record { written = responded status body error; listed = listed })
            d)
  unfolding run_action add_licence update_licence_status patch_licence renew_licence delete_licence
  run_action-IsRefused (add p) status body error listed d h z =
      if_intro (IsRefused d) (is_empty p.vendor || is_empty p.product || is_empty p.expires_at)
        (refl, (_, refl)) (settle-IsRefused ef _ _ _ _ status body error listed d h z)
  run_action-IsRefused (set_status id flag) status body error listed d h z =
      settle-IsRefused ef _ _ _ _ status body error listed d h z
  run_action-IsRefused (patch id fields) status body error listed d h z =
      settle-IsRefused ef _ _ _ _ status body error listed d h z
  run_action-IsRefused (renew id expiry notes) status body error listed d h z =
      settle-IsRefused ef _ _ _ _ status body error listed d h z
  run_action-IsRefused (delete id) status body error listed d h z =
      settle-IsRefused ef _ _ _ _ status body error listed d h z
