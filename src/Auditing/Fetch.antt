-- ===== src/Auditing/Fetch.antt =====
-- frontend/js/op-boot.js, fetchAuditing, refetchAuditing and refetchAuditingApp: the loads of the audit
-- data. The look-up of the owners' names, which runs on afterwards, is left out.
use operations_api.Common.{
  ℕ, Bool, true, false, Option, none, some, List, [], ◌∷◌, ◌++◌, Text, text, if◌then◌else◌, decimal,
}
use operations_api.Api.{Store, Reply, api, mark_demo, clear_demo}
use operations_api.Auditing.{AppItem, CampaignItem, AuditingData}
use operations_api.Auditing.Apply.{apply_auditing, apply_auditing_app}

-- The stores of the API wrapper with the audit data.
pub record Desk : Type 0 where
  pub store : Store
  pub page : AuditingData

-- What the service answers to the reads: the ids of the lists, `some none` where the answer is no
-- array, and the details.
pub record Served : Type 0 where
  pub app_list : Reply (Option (List ℕ))
  pub camp_list : Reply (Option (List ℕ))
  pub app : ℕ → Reply AppItem
  pub camp : ℕ → Reply CampaignItem

abbrev pub auditing : Text
auditing = text "auditing"

abbrev pub app_path : ℕ → Text
app_path id = text "/auditing/applications/" ++ decimal id

abbrev pub camp_path : ℕ → Text
camp_path id = text "/auditing/campaigns/" ++ decimal id

-- The details of a list; they are asked for at once, and here they answer in the order of the list.
unfoldable pub fetch_each :
    {A : Type 0} → (ℕ → Text) → (ℕ → Reply A) → List ℕ → Store → Store × List (Option A)
fetch_each path answer [] s = (s, [])
fetch_each path answer (id ∷ ids) s =
    let (s', v) = api (path id) (answer id) s in
    let (s'', vs) = fetch_each path answer ids s' in (s'', v ∷ vs)

-- Two lists that are arrays.
abbrev pub both_arrays :
    Option (Option (List ℕ)) → Option (Option (List ℕ)) → Option (List ℕ × List ℕ)
both_arrays (some (some xs)) (some (some ys)) = some (xs, ys)
both_arrays _ _ = none

-- The second half of fetchAuditing, where both lists came.
unfoldable pub fetch_details : Served → Option (List ℕ × List ℕ) → Desk → Desk × Bool
fetch_details v none d = (d, false)
fetch_details v (some (app_ids, camp_ids)) d =
    let (s, app_details) = fetch_each app_path v.app app_ids d.store in
    let (s', camp_details) = fetch_each camp_path v.camp camp_ids s in
    (record { store = s'; page = apply_auditing app_details camp_details d.page }, true)

unfoldable pub fetch_auditing : Served → Desk → Desk × Bool
unfolding fetch_details
fetch_auditing v d =
    let (s, apps) = api (text "/auditing/applications") v.app_list d.store in
    let (s', camps) = api (text "/auditing/campaigns") v.camp_list s in
    fetch_details v (both_arrays apps camps) (record d { store = s' })

unfoldable pub refetch_auditing : Served → Desk → Desk
refetch_auditing v d =
    let (d', ok) = fetch_auditing v d in
    record d' { store = if ok then clear_demo auditing d'.store else mark_demo auditing d'.store }

unfoldable pub apply_detail : Option AppItem → Desk → Desk
apply_detail none d = d
apply_detail (some a) d = record {
  store = clear_demo auditing d.store;
  page = apply_auditing_app a d.page;
}

unfoldable pub refetch_auditing_app : Served → ℕ → Desk → Desk
unfolding apply_detail
refetch_auditing_app v id d =
    let (s, detail) = api (app_path id) (v.app id) d.store in
    apply_detail detail (record d { store = s })
