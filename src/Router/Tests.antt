-- ===== src/Router/Tests.antt =====
-- The router at concrete inputs.
use operations_api.Common.{◌≡◌, refl, some, [], ◌++◌, text}
use operations_api.Router.{servers, route_id, current_route, current_route_param, goto}
use operations_api.Router.Navigation.{suffix, current_route-goto}
use operations_api.Samples.{ascii_browser}

current_route-goto_example :
    (current_route ascii_browser
        (goto ascii_browser (route_id servers ++ suffix (some (text "42"))) []).0
      ≡ servers)
    × (current_route_param (goto ascii_browser (route_id servers ++ suffix (some (text "42"))) []).0
        ≡ some (text "42"))
current_route-goto_example =
    current_route-goto ascii_browser servers (some (text "42")) [] (refl, (refl, (refl, tt)))
