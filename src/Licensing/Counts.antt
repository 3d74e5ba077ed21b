-- ===== src/Licensing/Counts.antt =====
-- The counts of the licensing page against its rows, and the bucket of a licence against its alert.
use operations_api.Common.{
  ℕ, ◌+◌, ◌≡◌, ◌↔◌, refl, ◌∙◌, ap, false, Option, none, some, List, [], ◌∷◌, arith, Text, text,
  text_eq, text_eq_refl, trim, length, filter, if◌then◌else◌,
}
use operations_api.Router.{Browser}
use operations_api.Tables.Sort.{length-sort}
use operations_api.Filters.{unless_all}
use operations_api.Licensing.{Licence}
use operations_api.Common.Integers.{ℤ, pos, negsuc}
use operations_api.Licensing.Buckets.{
  Clock, Bucket, BucketCounts, LicenceView, expired, under30, under3mo, under6mo, healthy,
  days_until_expiry, bucket_text, bucket_of, get_bucket, threshold_of, get_alert_threshold,
  count_up, count_at, count_from, get_counts, licence_searched, filtered_licences,
}

-- 1 where the buckets are the same.
hits : Bucket → Bucket → ℕ
hits b a = if text_eq (bucket_text a) (bucket_text b) then 1 else 0

count_at-count_up :
    (b a : Bucket) (c : BucketCounts) → count_at b (count_up a c) ≡ count_at b c + hits b a
unfolding count_at count_up hits bucket_text text_eq
count_at-count_up b a c = ground arith

count_from-filter :
    (K : Clock) (b : Bucket) (ls : List Licence) (c : BucketCounts)
    → count_at b (count_from K ls c)
      ≡ count_at b c
        + length
            (filter (λ (l : Licence). text_eq (bucket_text (get_bucket K l)) (bucket_text b)) ls)
unfolding count_from hits
count_from-filter K b [] c = omega arith
count_from-filter K b (l ∷ ls) c = ground (
  arith,
  count_from-filter K b ls (count_up (get_bucket K l) c),
  count_at-count_up b (get_bucket K l) c,
)

-- The view that a click on a count of the strip leaves, with no other filter set.
abbrev pub only_bucket : Bucket → LicenceView
only_bucket b = record {
  bucket = bucket_text b;
  vendor = text "__all";
  status = text "__all";
  q = [];
}

-- No bucket's text is the text of all.
bucket_text-all : (b : Bucket) → text_eq (bucket_text b) (text "__all") ≡ false
unfolding bucket_text text_eq
bucket_text-all expired = refl
bucket_text-all under30 = refl
bucket_text-all under3mo = refl
bucket_text-all under6mo = refl
bucket_text-all healthy = refl

only_bucket-rows :
    (K : Clock) (lower : Text → Text) (b : Bucket) (ls : List Licence)
    → licence_searched lower [] (
        unless_all
          (λ (l : Licence). l.status_flag)
          (text "__all")
          (unless_all
            (λ (l : Licence). l.vendor)
            (text "__all")
            (unless_all (λ (l : Licence). bucket_text (get_bucket K l)) (bucket_text b) ls)))
      ≡ filter (λ (l : Licence). text_eq (bucket_text (get_bucket K l)) (bucket_text b)) ls
unfolding licence_searched trim
only_bucket-rows K lower b ls = rw (text_eq_refl (text "__all"), bucket_text-all b) refl

from_zero :
    (K : Clock) (b : Bucket) (ls : List Licence)
    → length (filter (λ (l : Licence). text_eq (bucket_text (get_bucket K l)) (bucket_text b)) ls)
      ≡ count_at b (get_counts K ls)
unfolding get_counts count_at
from_zero K b ls =
    let h =
      count_from-filter K b ls
        (record { expired = 0; under30 = 0; under3mo = 0; under6mo = 0; healthy = 0 }) in
    ground arith

alert_iff : (d : Option ℤ) → (threshold_of d ≡ none) ↔ (bucket_of d ≡ healthy)
unfolding threshold_of bucket_of
alert_iff none = (λ h. refl, λ h. refl)
alert_iff (some (negsuc n)) = (λ h. absurd (cc), λ h. absurd (cc))
alert_iff (some (pos n)) = ground arith

-- The count of each bucket is the number of rows that its filter leaves, and a licence raises no
-- alert exactly if it is in the healthy bucket.
pub get_counts-filtered_licences :
    (K : Clock) (B : Browser) (b : Bucket) (ls : List Licence)
    → (length (filtered_licences K B (only_bucket b) ls) ≡ count_at b (get_counts K ls))
      × ((l : Licence) → (get_alert_threshold K l ≡ none) ↔ (get_bucket K l ≡ healthy))
unfolding filtered_licences get_alert_threshold get_bucket
get_counts-filtered_licences K B b ls = (
  length-sort _ _ ∙ (ap length (only_bucket-rows K B.lower b ls) ∙ from_zero K b ls),
  λ l. alert_iff (days_until_expiry K l),
)
