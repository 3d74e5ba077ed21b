-- ===== src/DateKit/Slugs.antt =====
-- frontend/js/op-datekit.js, slugifyReason, and the reasons that the wizards offer.
use operations_api.Common.{Bool, List, [], ◌∷◌, Text, text, text_eq, if◌then◌else◌}

-- `\u2014`
abbrev vendor_advisory : Text
vendor_advisory = text "Vendor advisory — pending hotfix"

-- `EXCLUSION_REASONS`
abbrev pub exclusion_reasons : List Text
exclusion_reasons =
    vendor_advisory
    ∷ text "Application change-freeze"
    ∷ text "Hardware refresh in progress"
    ∷ text "Regulatory window"
    ∷ text "Database migration in-flight"
    ∷ text "Customer-facing release period"
    ∷ text "Other"
    ∷ []

abbrev pub custom : Text
custom = text "custom"

-- `REASON_SLUGS`; the entries for `custom` are the same as no entry.
abbrev reason_slug : Text → Text
reason_slug reason =
    if text_eq reason vendor_advisory
    then text "pending-vendor-fix"
    else if text_eq reason (text "Application change-freeze")
    then text "business-freeze"
    else custom

unfoldable pub slugify_reason : Text → Bool → Text
slugify_reason reason is_other = if is_other then custom else reason_slug reason
