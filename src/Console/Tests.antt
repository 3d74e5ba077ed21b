-- ===== src/Console/Tests.antt =====
-- The console's state at concrete inputs.
use operations_api.Common.{
  ◌≡◌, ◌≢◌, ◌↔◌, ◌⊎◌, refl, arith, false, none, some, [], ◌∷◌, ◌++◌, text, In, map,
}
use operations_api.Api.{record_http_error}
use operations_api.Console.{Alert, Window, merge_alerts, banner, signature, has_blanket}
use operations_api.Console.Status.{record_http_error-has_blanket, banner_dismissal, In-merge_alerts}
use operations_api.Samples.{whole_floats, empty_store, servers_path}

abbrev alert : Alert
alert = record { id = text "DSK-1"; sub = text "C:"; detail = []; tone = text "warn"; source = [] }

abbrev window : Window whole_floats
window = record {
  api_errors = [];
  recent_alerts_base = alert ∷ [];
  disks = [];
  using_demo = false;
  banner_dismissed_sig = none;
}

record_http_error-has_blanket_example :
    has_blanket (record_http_error servers_path 503 empty_store).api_errors ≡ has_blanket []
record_http_error-has_blanket_example =
    record_http_error-has_blanket servers_path 503 empty_store
      (b's', text "ervers?limit=500", refl, omega arith, omega arith) (λ h. omega arith)

banner_dismissal_example :
    (banner (text "servers (404)" ∷ []) false none ≢ none)
    × (banner (text "servers (404)" ∷ []) false (some (signature (text "servers (404)" ∷ [])))
        ≡ none)
    × (banner
          ((text "servers (404)" ∷ []) ++ text "Rate" ∷ [])
          false
          (some (signature (text "servers (404)" ∷ [])))
        ≢ none)
banner_dismissal_example = banner_dismissal (text "servers (404)") (text "Rate") [] false

In-merge_alerts_example :
    In alert (merge_alerts [] (alert ∷ []))
    ↔ (In alert [] ⊎ (In alert (alert ∷ []) × ¬ In alert.id (map (λ (a : Alert). a.id) [])))
In-merge_alerts_example = In-merge_alerts alert [] (alert ∷ [])
