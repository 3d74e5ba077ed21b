-- ===== src/Licensing/Actions/Ids.antt =====
-- No two licences and no two renewals share an id, whatever the actions and their answers.
use operations_api.Common.{
  ◌≡◌, Option, none, some, List, [], ◌∷◌, Text, Option-cases, inl, inr, All, ◌==◌, if_intro,
  is_empty, ◌||◌,
}
use operations_api.Api.{Store, Reply, api, api_write}
use operations_api.Licensing.{LicenceItem, LicensingData, apply_licensing}
use operations_api.Licensing.Ids.{
  HasIds, AllIds, fallback_add-HasIds, fallback_patch-HasIds, fallback_renew-HasIds,
  fallback_delete-HasIds,
}
use operations_api.Licensing.Actions.{
  Desk, Told, Answers, LicenceAction, add, set_status, patch, renew, delete, settle, fall_back,
  refetch_licences, licences_path, run_action, run_actions, add_licence, update_licence_status,
  patch_licence, renew_licence, delete_licence,
}

-- A list that the API gives has an id for each licence and each renewal.
abbrev pub ListsIds : Reply (Option (List LicenceItem)) → Type 0
ListsIds reply =
    (s : Store) (items : List LicenceItem) (d : LicensingData)
    → (api licences_path reply s).1 ≡ some (some items)
    → HasIds (apply_licensing items d)

fall_back-HasIds :
    (o : Option LicensingData) (d : Desk) → AllIds o → HasIds d.page → HasIds (fall_back o d).page
unfolding fall_back AllIds
fall_back-HasIds none d h v = v
fall_back-HasIds (some p) d h v = h

refetch_licences-HasIds :
    (reply : Reply (Option (List LicenceItem))) (d : Desk)
    → ListsIds reply
    → HasIds d.page
    → HasIds (refetch_licences reply d).page
unfolding refetch_licences
refetch_licences-HasIds reply d h v = elim (Option-cases ((api licences_path reply d.store).1)) [
  | inl e ↦ rw (refetch_licences, e) v
  | inr (none, e) ↦ rw (refetch_licences, e) v
  | inr (some items, e) ↦ rw (refetch_licences, e) (h d.store items d.page e)
]

settle-HasIds :
    (ef : Text → Option Text) (path what : Text) (t : Told)
    (offline : LicensingData → Option LicensingData) (a : Answers) (d : Desk)
    → ListsIds a.listed
    → HasIds d.page
    → AllIds (offline d.page)
    → HasIds (settle ef path what t offline a d).0.page
unfolding settle
settle-HasIds ef path what t offline a d h v o =
    let (s, r) = api_write ef path a.written d.store in
    if_intro (λ (x : Desk × Told). HasIds x.0.page) r.ok
      (refetch_licences-HasIds a.listed (record d { store = s }) h v)
      (if_intro (λ (x : Desk × Told). HasIds x.0.page) (r.status == 0)
        (fall_back-HasIds (offline d.page) (record d { store = s }) o v) v)

module _ (ef : Text → Option Text) (today : Text) where
  run_action-HasIds :
      (x : LicenceAction) (a : Answers) (d : Desk)
      → ListsIds a.listed
      → HasIds d.page
      → HasIds (run_action ef today x a d).0.page
  unfolding run_action add_licence update_licence_status patch_licence renew_licence delete_licence
      AllIds
  run_action-HasIds (add p) a d h v =
      if_intro (λ (x : Desk × Told). HasIds x.0.page)
        (is_empty p.vendor || is_empty p.product || is_empty p.expires_at) v
        (settle-HasIds ef _ _ _ _ a d h v (fallback_add-HasIds p d.page v))
  run_action-HasIds (set_status id flag) a d h v =
      settle-HasIds ef _ _ _ _ a d h v (fallback_patch-HasIds id _ d.page v)
  run_action-HasIds (patch id fields) a d h v =
      settle-HasIds ef _ _ _ _ a d h v (fallback_patch-HasIds id fields d.page v)
  run_action-HasIds (renew id expiry notes) a d h v =
      settle-HasIds ef _ _ _ _ a d h v (fallback_renew-HasIds today id expiry notes d.page v)
  run_action-HasIds (delete id) a d h v =
      settle-HasIds ef _ _ _ _ a d h v (fallback_delete-HasIds id d.page v)

  -- Where the lists that the API gives have an id for each licence and each renewal, and the data on
  -- the page do, they do after any sequence of actions, whatever is answered.
  pub run_actions-HasIds :
      (xs : List (LicenceAction × Answers)) (d : Desk)
      → All (λ (x : LicenceAction × Answers). ListsIds x.1.listed) xs
      → HasIds d.page
      → HasIds (run_actions ef today xs d).page
  unfolding run_actions
  run_actions-HasIds [] d h v = v
  run_actions-HasIds ((x, a) ∷ xs) d (h, hs) v =
      run_actions-HasIds xs (run_action ef today x a d).0 hs (run_action-HasIds x a d h v)
