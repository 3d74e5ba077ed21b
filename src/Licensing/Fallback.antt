-- ===== src/Licensing/Fallback.antt =====
-- frontend/js/op-boot.js, _licenceFallbackAdd to _licenceFallbackDelete, and
-- frontend/js/licensing-demo-data.js, markRenewed and the lists of the page: the licences in memory.
use operations_api.Common.{
  ℕ, suc, max, true, Option, none, some, List, [], ◌∷◌, ◌++◌, map, Text, text, text_eq, filter,
  ◌==◌, if◌then◌else◌, get_or, has, is_empty,
}
use operations_api.Tables.{Sign, compare_by, sort}
use operations_api.Tables.Cells.{text_lt}
use operations_api.Licensing.{Licence, Renewal, LicensingData}

-- What the add form sends.
pub record LicencePayload : Type 0 where
  pub application_name : Option Text
  pub vendor : Text
  pub product : Text
  pub licence_type : Text
  pub quantity_held : ℕ
  pub audit_frequency : Text
  pub audit_owner_sam : Option Text
  pub expires_at : Text
  pub notice_period_days : ℕ
  pub status_flag : Text
  pub notes : Option Text

-- Any part of the fields that can be patched; `some none` is a null.
pub record LicenceFields : Type 0 where
  pub application_name : Option (Option Text)
  pub licence_type : Option Text
  pub quantity_held : Option ℕ
  pub audit_frequency : Option Text
  pub audit_owner_sam : Option (Option Text)
  pub expires_at : Option Text
  pub notice_period_days : Option ℕ
  pub status_flag : Option Text
  pub notes : Option (Option Text)

-- `(xs.reduce((m, x) => Math.max(m, x.id), 0) || 0) + 1`
unfoldable pub next_id : List ℕ → ℕ
next_id [] = 1
next_id (n ∷ ns) = max (suc n) (next_id ns)

-- `Object.assign({ licence_id, status_flag: 'tracked' }, payload)`
unfoldable pub added_licence : ℕ → LicencePayload → Licence
added_licence id p = record {
  licence_id = id;
  application_id = none;
  application_name = p.application_name;
  vendor = p.vendor;
  product = p.product;
  licence_type = p.licence_type;
  quantity_held = some p.quantity_held;
  audit_frequency = p.audit_frequency;
  audit_owner_sam = p.audit_owner_sam;
  expires_at = p.expires_at;
  notice_period_days = p.notice_period_days;
  status_flag = p.status_flag;
  notes = p.notes;
}

-- `Object.assign(l, fields)`
unfoldable pub patched_licence : LicenceFields → Licence → Licence
patched_licence f l = record l {
  application_name = get_or f.application_name l.application_name;
  licence_type = get_or f.licence_type l.licence_type;
  quantity_held = elim f.quantity_held [ none ↦ l.quantity_held | some n ↦ some n ];
  audit_frequency = get_or f.audit_frequency l.audit_frequency;
  audit_owner_sam = get_or f.audit_owner_sam l.audit_owner_sam;
  expires_at = get_or f.expires_at l.expires_at;
  notice_period_days = get_or f.notice_period_days l.notice_period_days;
  status_flag = get_or f.status_flag l.status_flag;
  notes = get_or f.notes l.notes;
}

abbrev pub id_of : Licence → ℕ
id_of l = l.licence_id

abbrev pub renewal_id_of : Renewal → ℕ
renewal_id_of r = r.renewal_id

-- The first licence with the id, changed where it stands, and whether there is one.
unfoldable pub change_at : ℕ → (Licence → Licence) → List Licence → List Licence
change_at id f [] = []
change_at id f (l ∷ ls) =
    let rest = change_at id f ls in if id_of l == id then f l ∷ ls else l ∷ rest

unfoldable pub remove_at : ℕ → List Licence → List Licence
remove_at id [] = []
remove_at id (l ∷ ls) = let rest = remove_at id ls in if id_of l == id then ls else l ∷ rest

unfoldable pub find_licence : ℕ → List Licence → Option Licence
find_licence id [] = none
find_licence id (l ∷ ls) = let rest = find_licence id ls in if id_of l == id then some l else rest

-- `markRenewed(licence, newExpiry, notes)`; `today` is the day in UTC, as ISO text.
unfoldable pub mark_renewed : Text → Licence → Text → Text → LicensingData → LicensingData
mark_renewed today l new_expiry notes d = record {
  licences =
      change_at l.licence_id
        (λ (x : Licence). record x { expires_at = new_expiry; status_flag = text "tracked" })
        d.licences;
  renewals =
      d.renewals
      ++ record {
        renewal_id = next_id (map renewal_id_of d.renewals);
        licence_id = l.licence_id;
        cycle_ended = l.expires_at;
        renewed_on = today;
        new_expires = new_expiry;
        renewed_by = text "damian.penny";
        notes = notes;
      }
        ∷ [];
}

-- Each tells whether it did anything, on which the demo flag depends.
unfoldable pub fallback_add : LicencePayload → LicensingData → LicensingData
fallback_add p d = record d {
  licences = d.licences ++ added_licence (next_id (map id_of d.licences)) p ∷ [];
}

unfoldable pub if_found : (Licence → LicensingData) → Option Licence → Option LicensingData
if_found f none = none
if_found f (some l) = some (f l)

unfoldable pub fallback_patch : ℕ → LicenceFields → LicensingData → Option LicensingData
fallback_patch id f d =
    if_found (λ l. record d { licences = change_at id (patched_licence f) d.licences })
      (find_licence id d.licences)

unfoldable pub fallback_renew : Text → ℕ → Text → Text → LicensingData → Option LicensingData
fallback_renew today id new_expires notes d =
    if_found (λ l. mark_renewed today l new_expires notes d) (find_licence id d.licences)

unfoldable pub fallback_delete : ℕ → LicensingData → Option LicensingData
fallback_delete id d =
    if_found (λ l. record d { licences = remove_at id d.licences }) (find_licence id d.licences)

-- `getVendors`: a set, sorted by code units.
unfoldable pub vendors_from : List Text → List Licence → List Text
vendors_from seen [] = seen
vendors_from seen (l ∷ ls) =
    vendors_from (if has l.vendor seen then seen else seen ++ l.vendor ∷ []) ls

unfoldable pub get_vendors : List Licence → List Text
get_vendors ls = sort (compare_by text_lt true) (vendors_from [] ls)

-- `getRenewalsForLicence`, newest first; `compare` is `localeCompare`.
unfoldable pub get_renewals_for_licence : (Text → Text → Sign) → ℕ → List Renewal → List Renewal
get_renewals_for_licence compare id rs =
    sort (λ (a b : Renewal). compare b.renewed_on a.renewed_on)
      (filter (λ (r : Renewal). r.licence_id == id) rs)

unfoldable pub fmt_licence_type : Text → Text
fmt_licence_type t =
    if is_empty t
    then text "—"
    else if text_eq t (text "saas")
    then text "SaaS"
    else if text_eq t (text "onprem_subscription")
    then text "On-prem subscription"
    else if text_eq t (text "perpetual_maintenance")
    then text "Perpetual + maintenance"
    else t

unfoldable pub fmt_status_flag : Text → Text
fmt_status_flag s =
    if text_eq s (text "tracked")
    then text "Tracked"
    else if text_eq s (text "engaged")
    then text "Engaged"
    else s
