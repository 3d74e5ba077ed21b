-- ===== src/Mappers/Tones.antt =====
-- What the mapped rows say of a sync.
use operations_api.Common.{
  ◌≡◌, ◌≢◌, ◌↔◌, arith, true, Option, none, some, Text, text, text_eq_iff, ap,
}
use operations_api.Mappers.{count}
use operations_api.Mappers.Health.{SyncItem, healthy, is_text, sync_tone}

is_text_iff : (s : Option Text) (t : Text) → (is_text s t ≡ true) ↔ (s ≡ some t)
is_text_iff none t = (λ h. cc, λ h. cc)
is_text_iff (some s) t =
    (λ h. ap some ((text_eq_iff s t).0 h), λ h. (text_eq_iff s t).1 (some_injective h))
  where
    some_injective : {a b : Text} → some a ≡ some b → a ≡ b
    some_injective h = cc

-- A sync is shown as healthy exactly if neither status is an error, the run has no warning, the
-- data are not stale, and no failure is counted.
pub sync_tone-healthy_iff :
    (s : SyncItem)
    → (sync_tone s ≡ healthy) ↔ (
        (s.status ≢ some (text "error"))
        × (s.freshness_status ≢ some (text "error"))
        × (s.status ≢ some (text "warning"))
        × (s.freshness_status ≢ some (text "stale"))
        × (count s.consecutive_failures ≡ 0))
unfolding sync_tone
sync_tone-healthy_iff s = ground (
  arith,
  is_text_iff s.status (text "error"),
  is_text_iff s.freshness_status (text "error"),
  is_text_iff s.status (text "warning"),
  is_text_iff s.freshness_status (text "stale"),
)
