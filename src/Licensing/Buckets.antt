-- ===== src/Licensing/Buckets.antt =====
-- frontend/js/licensing-demo-data.js: the days until a licence expires and the buckets they fall in,
-- and frontend/js/op-pages.js, _filteredLicences.
use operations_api.Common.{
  ℕ, suc, ◌+◌, ◌-◌, ◌/◌, Bool, true, false, ◌||◌, Option, none, some, List, [], ◌∷◌, Text, text,
  ltb, leb, ◌==◌, if◌then◌else◌, filter, get_or, includes, trim, is_empty,
}
use operations_api.Common.Integers.{ℤ, pos, negsuc}
use operations_api.Router.{Browser}
use operations_api.Tables.{Sign, sort}
use operations_api.Filters.{unless_all}
use operations_api.Licensing.{Licence}

-- The clock of the engine, in milliseconds from a moment before all dates: the local midnight that
-- `new Date(text + 'T00:00:00')` gives, `none` for an invalid date, and now.
pub record Clock : Type 0 where
  pub midnight : Text → Option ℕ
  pub now : ℕ

abbrev pub day_ms : ℕ
day_ms = 86_400_000

-- `Math.ceil((target - now) / 86400000)`
unfoldable pub ceil_days : ℕ → ℕ → ℤ
ceil_days target now =
    if leb now target
    then pos ((target - now + (day_ms - 1)) / day_ms)
    else let late = (now - target) / day_ms in if late == 0 then pos 0 else negsuc (late - 1)

-- `new Date('…')` of no date makes every comparison false.
unfoldable pub days_until_expiry : Clock → Licence → Option ℤ
unfolding ceil_days
days_until_expiry K l = elim (K.midnight l.expires_at) [
  | none ↦ none
  | some target ↦ some (ceil_days target K.now)
]

pub data Bucket : Type 0 where
  expired under30 under3mo under6mo healthy : Bucket

unfoldable pub bucket_text : Bucket → Text
bucket_text expired = text "expired"
bucket_text under30 = text "under30"
bucket_text under3mo = text "under3mo"
bucket_text under6mo = text "under6mo"
bucket_text healthy = text "healthy"

unfoldable pub bucket_of : Option ℤ → Bucket
bucket_of none = healthy
bucket_of (some (negsuc n)) = expired
bucket_of (some (pos n)) =
    if leb n 30
    then under30
    else if leb n 90
    then under3mo
    else if leb n 183
    then under6mo
    else healthy

unfoldable pub get_bucket : Clock → Licence → Bucket
get_bucket K l = bucket_of (days_until_expiry K l)

unfoldable pub threshold_of : Option ℤ → Option Text
threshold_of none = none
threshold_of (some (negsuc n)) = some (text "expired")
threshold_of (some (pos n)) =
    if leb n 30
    then some (text "thirty_d")
    else if leb n 90
    then some (text "three_mo")
    else if leb n 183
    then some (text "six_mo")
    else none

unfoldable pub get_alert_threshold : Clock → Licence → Option Text
unfolding threshold_of
get_alert_threshold K l = threshold_of (days_until_expiry K l)

pub record BucketCounts : Type 0 where
  pub expired : ℕ
  pub under30 : ℕ
  pub under3mo : ℕ
  pub under6mo : ℕ
  pub healthy : ℕ

-- `c[bucket]++` and `c[bucket]`
unfoldable pub count_up : Bucket → BucketCounts → BucketCounts
count_up expired c = record c { expired = suc c.expired }
count_up under30 c = record c { under30 = suc c.under30 }
count_up under3mo c = record c { under3mo = suc c.under3mo }
count_up under6mo c = record c { under6mo = suc c.under6mo }
count_up healthy c = record c { healthy = suc c.healthy }

unfoldable pub count_at : Bucket → BucketCounts → ℕ
count_at expired c = c.expired
count_at under30 c = c.under30
count_at under3mo c = c.under3mo
count_at under6mo c = c.under6mo
count_at healthy c = c.healthy

unfoldable pub count_from : Clock → List Licence → BucketCounts → BucketCounts
unfolding count_up
count_from K [] c = c
count_from K (l ∷ ls) c = count_from K ls (count_up (get_bucket K l) c)

unfoldable pub get_counts : Clock → List Licence → BucketCounts
get_counts K ls =
    count_from K ls (record { expired = 0; under30 = 0; under3mo = 0; under6mo = 0; healthy = 0 })

-- `licState`, as far as it selects rows.
pub record LicenceView : Type 0 where
  pub bucket : Text
  pub vendor : Text
  pub status : Text
  pub q : Text

less_ℤ : ℤ → ℤ → Bool
less_ℤ (pos m) (pos n) = ltb m n
less_ℤ (pos m) (negsuc n) = false
less_ℤ (negsuc m) (pos n) = true
less_ℤ (negsuc m) (negsuc n) = ltb n m

-- `daysUntilExpiry(a) - daysUntilExpiry(b)`; a difference that is no number counts as 0.
unfoldable pub compare_days : Option ℤ → Option ℤ → Sign
unfolding less_ℤ
compare_days none d = Sign.nil
compare_days (some d) none = Sign.nil
compare_days (some d) (some e) =
    if less_ℤ d e then Sign.neg else if less_ℤ e d then Sign.pos else Sign.nil

unfoldable pub licence_mentions : (Text → Text) → Text → Licence → Bool
licence_mentions lower q l =
    includes (lower (get_or l.application_name [])) q
    || includes (lower l.vendor) q
    || includes (lower l.product) q
    || includes (lower (get_or l.notes [])) q

unfoldable pub licence_searched : (Text → Text) → Text → List Licence → List Licence
licence_searched lower q rows =
    if is_empty (trim q) then rows else filter (licence_mentions lower (lower (trim q))) rows

unfoldable pub filtered_licences : Clock → Browser → LicenceView → List Licence → List Licence
filtered_licences K B v rows =
    sort (λ (a b : Licence). compare_days (days_until_expiry K a) (days_until_expiry K b))
      (licence_searched B.lower v.q (
        unless_all (λ (l : Licence). l.status_flag) v.status
          (unless_all (λ (l : Licence). l.vendor) v.vendor
            (unless_all (λ (l : Licence). bucket_text (get_bucket K l)) v.bucket rows))))
