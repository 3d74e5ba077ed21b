-- ===== src/Licensing/Actions/Offline.antt =====
-- What a licensing action does to the licences in memory when the API does not answer.
use operations_api.Common.{
  not, ==_iff, ℕ, ◌≡◌, refl, ◌∙◌, sym, ap, subst, Bool, true, false, ◌||◌, Option, none, some, List,
  map, Text, text, arith, Bool-cases, Option-cases, inl, inr, if◌then◌else◌, ◌==◌, is_empty,
}
use operations_api.Api.{Store, Reply, Fault, broken, record_transport_error, api_write}
use operations_api.Licensing.{LicenceItem, Licence, LicensingData}
use operations_api.Licensing.Fallback.{
  LicencePayload, LicenceFields, id_of, next_id, change_at, remove_at, find_licence,
  patched_licence, added_licence, mark_renewed, if_found, fallback_add, fallback_patch,
  fallback_renew, fallback_delete,
}
use operations_api.Licensing.Finds.{changed, find-change_at, find-remove_at, find-snoc, find-id}
use operations_api.Licensing.Ids.{HasIds, AreDistinct, next_id-bound}
use operations_api.Licensing.Actions.{
  Desk, Told, LicenceAction, add, set_status, patch, renew, delete, settle, fall_back, no_fields,
  run_action, add_licence, update_licence_status, patch_licence, renew_licence, delete_licence,
}

-- The add form's check.
abbrev pub is_complete : LicenceAction → Bool
is_complete (add p) = not (is_empty p.vendor || is_empty p.product || is_empty p.expires_at)
is_complete _ = true

abbrev pub new_cycle : Text → Licence → Licence
new_cycle expiry l = record l { expires_at = expiry; status_flag = text "tracked" }

-- The licence at an id after the action, on the licences as a function of the id.
abbrev pub offline_at : LicenceAction → LicensingData → ℕ → Option Licence
offline_at (add p) d j =
    let id = next_id (map id_of d.licences) in
    if id == j then some (added_licence id p) else find_licence j d.licences
offline_at (set_status id flag) d j =
    if id == j
    then changed (λ l. record l { status_flag = flag }) (find_licence j d.licences)
    else find_licence j d.licences
offline_at (patch id fields) d j =
    if id == j
    then changed (patched_licence fields) (find_licence j d.licences)
    else find_licence j d.licences
offline_at (renew id expiry notes) d j =
    if id == j
    then changed (new_cycle expiry) (find_licence j d.licences)
    else find_licence j d.licences
offline_at (delete id) d j = if id == j then none else find_licence j d.licences

module _ (d : Desk) (id j : ℕ) (at_id : Option Licence → Option Licence)
    (nothing : at_id none ≡ none) where
  -- A change of the licence that is found.
  fall_back-found :
      (g : Licence → LicensingData) (s : Store)
      → ((l : Licence)
          → find_licence id d.page.licences ≡ some l
          → find_licence j (g l).licences ≡ (
              if id == j
              then at_id (find_licence j d.page.licences)
              else find_licence j d.page.licences))
      → find_licence j
          (fall_back
            (if_found g (find_licence id d.page.licences))
            (record d { store = s })).page.licences
        ≡ (if id == j
            then at_id (find_licence j d.page.licences)
            else find_licence j d.page.licences)
  unfolding fall_back if_found
  fall_back-found g s h = elim (Option-cases (find_licence id d.page.licences)) [
    | inl e ↦
        rw (fall_back, if_found, e)
          (elim (Bool-cases (id == j)) [
            | inl t ↦
                let gone : find_licence j d.page.licences ≡ none =
                  subst (λ (k : ℕ). find_licence k d.page.licences ≡ none) ((==_iff id j).0 t) e in
                rw (t, gone) (sym nothing)
            | inr f ↦ rw f refl
          ])
    | inr (l, e) ↦ rw (fall_back, if_found, e) (h l e)
  ]

settle-offline :
    (ef : Text → Option Text) (path what : Text) (t : Told)
    (offline : LicensingData → Option LicensingData) (fault : Fault)
    (listed : Reply (Option (List LicenceItem))) (d : Desk)
    → settle ef path what t offline (record { written = broken fault; listed = listed }) d ≡ (
      fall_back (offline d.page) (record d { store = (record_transport_error fault d.store).0 }),
      t,
    )
unfolding settle api_write
settle-offline ef path what t offline fault listed d = refl

module _ (d : Desk) (s : Store) (id j : ℕ) where
  patched :
      (f : LicenceFields)
      → find_licence j
          (fall_back (fallback_patch id f d.page) (record d { store = s })).page.licences
        ≡ (if id == j
            then changed (patched_licence f) (find_licence j d.page.licences)
            else find_licence j d.page.licences)
  unfolding fallback_patch patched_licence
  patched f =
      fall_back-found d id j (changed (patched_licence f)) refl
        (λ l. record d.page { licences = change_at id (patched_licence f) d.page.licences }) s
        (λ l e. find-change_at id j (patched_licence f) d.page.licences (λ x. refl))

  renewed :
      (today expiry notes : Text)
      → find_licence j
          (fall_back
            (fallback_renew today id expiry notes d.page)
            (record d { store = s })).page.licences
        ≡ (if id == j
            then changed (new_cycle expiry) (find_licence j d.page.licences)
            else find_licence j d.page.licences)
  unfolding fallback_renew mark_renewed
  renewed today expiry notes =
      fall_back-found d id j (changed (new_cycle expiry)) refl
        (λ l. mark_renewed today l expiry notes d.page) s
        λ l e.
          subst
            (λ (k : ℕ). find_licence j (change_at k (new_cycle expiry) d.page.licences) ≡ (
              if id == j
              then changed (new_cycle expiry) (find_licence j d.page.licences)
              else find_licence j d.page.licences))
            (sym (find-id id d.page.licences l e))
            (find-change_at id j (new_cycle expiry) d.page.licences (λ x. refl))

  deleted :
      AreDistinct (map id_of d.page.licences)
      → find_licence j
          (fall_back (fallback_delete id d.page) (record d { store = s })).page.licences
        ≡ (if id == j then none else find_licence j d.page.licences)
  unfolding fallback_delete
  deleted v =
      fall_back-found d id j (λ l. none) refl
        (λ l. record d.page { licences = remove_at id d.page.licences }) s
        (λ l e. find-remove_at id j d.page.licences v)

added :
    (p : LicencePayload) (d : LicensingData) (j : ℕ)
    → find_licence j (fallback_add p d).licences ≡ offline_at (add p) d j
unfolding fallback_add added_licence
added p d j = find-snoc j (added_licence (next_id (map id_of d.licences)) p) d.licences (λ i.
    absurd (
      let lt = next_id-bound (next_id (map id_of d.licences)) (map id_of d.licences) i in
      omega arith))

seen :
    (d : Desk) (j : ℕ) {r t : Desk × Told}
    → r ≡ t
    → find_licence j r.0.page.licences ≡ find_licence j t.0.page.licences
seen d j e = ap (λ (r : Desk × Told). find_licence j r.0.page.licences) e

module _ (ef : Text → Option Text) (today : Text) where
  -- Without an answer of the API, an action whose form is filled does to the licences, as a function
  -- of the id, what it says: it adds under a new id, changes the one licence, or removes it.
  pub run_action_offline :
      (x : LicenceAction) (fault : Fault) (listed : Reply (Option (List LicenceItem))) (d : Desk)
      (j : ℕ)
      → HasIds d.page
      → is_complete x ≡ true
      → find_licence j
          (run_action ef today x
            (record { written = broken fault; listed = listed })
            d).0.page.licences
        ≡ offline_at x d.page j
  unfolding run_action add_licence update_licence_status patch_licence renew_licence delete_licence
      fall_back patched_licence
  run_action_offline (add p) fault listed d j v c =
      let filled : (is_empty p.vendor || is_empty p.product || is_empty p.expires_at) ≡ false =
        ground arith in
      rw (add_licence, filled)
        (seen d j (settle-offline ef _ _ _ _ fault listed d) ∙ added p d.page j)
  run_action_offline (set_status id flag) fault listed d j v c =
      seen d j (settle-offline ef _ _ _ _ fault listed d)
      ∙ patched d _ id j (record no_fields { status_flag = some flag })
  run_action_offline (patch id fields) fault listed d j v c =
      seen d j (settle-offline ef _ _ _ _ fault listed d) ∙ patched d _ id j fields
  run_action_offline (renew id expiry notes) fault listed d j v c =
      seen d j (settle-offline ef _ _ _ _ fault listed d) ∙ renewed d _ id j today expiry notes
  run_action_offline (delete id) fault listed d j v c =
      seen d j (settle-offline ef _ _ _ _ fault listed d) ∙ deleted d _ id j v.licences
