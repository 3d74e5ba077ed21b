-- ===== src/Licensing.antt =====
-- The licences of the console: frontend/js/op-boot.js, applyLicensing and the licensing actions, and
-- the helper functions of frontend/js/licensing-demo-data.js. A field of an answer that is missing or
-- null is `none`, as is a null that a form leaves in a licence.
pub mod Buckets
pub mod Counts
pub mod Seed
pub mod Fallback
pub mod Ids
pub mod Finds
pub mod Actions
pub mod Tests
use operations_api.Common.{ℕ, Option, none, some, List, [], ◌∷◌, ◌++◌, map, Text, text, get_or}
use operations_api.Mappers.{text_or}

pub record RenewalItem : Type 0 where
  pub renewal_id : ℕ
  pub licence_id : ℕ
  pub cycle_ended : Text
  pub renewed_on : Text
  pub new_expires : Text
  pub renewed_by : Option Text
  pub notes : Option Text

pub record LicenceItem : Type 0 where
  pub licence_id : ℕ
  pub application_id : Option ℕ
  pub application_name : Option Text
  pub vendor : Option Text
  pub product : Option Text
  pub licence_type : Option Text
  pub quantity_held : Option ℕ
  pub audit_frequency : Option Text
  pub audit_owner_sam : Option Text
  pub expires_at : Text
  pub notice_period_days : Option ℕ
  pub status_flag : Option Text
  pub notes : Option Text
  pub renewals : List RenewalItem

pub record Licence : Type 0 where
  pub licence_id : ℕ
  pub application_id : Option ℕ
  pub application_name : Option Text
  pub vendor : Text
  pub product : Text
  pub licence_type : Text
  pub quantity_held : Option ℕ
  pub audit_frequency : Text
  pub audit_owner_sam : Option Text
  pub expires_at : Text
  pub notice_period_days : ℕ
  pub status_flag : Text
  pub notes : Option Text

pub record Renewal : Type 0 where
  pub renewal_id : ℕ
  pub licence_id : ℕ
  pub cycle_ended : Text
  pub renewed_on : Text
  pub new_expires : Text
  pub renewed_by : Text
  pub notes : Text

-- The two arrays of `window.LICENSING_DATA`.
pub record LicensingData : Type 0 where
  pub licences : List Licence
  pub renewals : List Renewal

licence : LicenceItem → Licence
licence l = record {
  licence_id = l.licence_id;
  application_id = l.application_id;
  application_name = some (text_or l.application_name []);
  vendor = text_or l.vendor [];
  product = text_or l.product [];
  licence_type = text_or l.licence_type [];
  quantity_held = l.quantity_held;
  audit_frequency = text_or l.audit_frequency [];
  audit_owner_sam = some (text_or l.audit_owner_sam []);
  expires_at = l.expires_at;
  notice_period_days = get_or l.notice_period_days 0;
  status_flag = text_or l.status_flag (text "tracked");
  notes = some (text_or l.notes []);
}

renewal : RenewalItem → Renewal
renewal r = record {
  renewal_id = r.renewal_id;
  licence_id = r.licence_id;
  cycle_ended = r.cycle_ended;
  renewed_on = r.renewed_on;
  new_expires = r.new_expires;
  renewed_by = text_or r.renewed_by [];
  notes = text_or r.notes [];
}

all_renewals : List LicenceItem → List Renewal
all_renewals [] = []
all_renewals (l ∷ ls) = map renewal l.renewals ++ all_renewals ls

-- `applyLicensing`, where the data of the page is there: both arrays are replaced.
unfoldable pub apply_licensing : List LicenceItem → LicensingData → LicensingData
unfolding all_renewals renewal licence
apply_licensing items d = record { licences = map licence items; renewals = all_renewals items }
