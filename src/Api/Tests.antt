-- ===== src/Api/Tests.antt =====
-- The API wrapper at concrete inputs.
use operations_api.Samples.{empty_store, servers_path}
use operations_api.Common.{
  ℕ, ◌≡◌, ◌↔◌, ◌⊎◌, refl, arith, true, false, none, some, [], ◌∷◌, text, is_empty, List,
}
use operations_api.Api.{
  Reply, responded, broken, unreadable, abort_error, other_error, api, api_write,
}
use operations_api.Api.Errors.{
  IsTidy, IsApiPath, Request, reads, writes, run_requests, run_requests-IsTidy,
}
use operations_api.Api.Writes.{HasError, IsNull, IsBroken, IsAccepted, api_result, api_write_result}

servers_path-IsApiPath : IsApiPath servers_path
servers_path-IsApiPath = (b's', text "ervers?limit=500", refl, omega arith, omega arith)

abbrev requests : List (Request ℕ)
requests =
    reads servers_path (responded 503 (unreadable other_error) (text "down"))
    ∷ reads servers_path (broken abort_error)
    ∷ writes servers_path (responded 500 (unreadable other_error) [])
    ∷ []

run_requests-IsTidy_example : IsTidy (run_requests (λ t. none) requests empty_store)
run_requests-IsTidy_example =
    run_requests-IsTidy (λ t. none) requests empty_store
      (servers_path-IsApiPath, (servers_path-IsApiPath, (servers_path-IsApiPath, tt)))
      (omega arith, (omega arith, (omega arith, (omega arith, (omega arith, (omega arith, tt))))))

abbrev silent : Reply ℕ
silent = broken abort_error

abbrev refusal : Reply ℕ
refusal = responded 409 (unreadable other_error) (text "held")

api_result_example :
    ((v : ℕ)
      → (api servers_path silent empty_store).1 ≡ some v
      → (api servers_path silent empty_store).0 ≡ empty_store)
    × ((api servers_path silent empty_store).1 ≡ none
        → IsNull silent ⊎ HasError (api servers_path silent empty_store).0)
api_result_example = api_result servers_path silent empty_store

api_write_result_example :
    let (s', r) = api_write {V = ℕ} (λ t. none) servers_path refusal empty_store in
    ((r.ok ≡ true) ↔ IsAccepted refusal)
    × (r.ok ≡ true → s' ≡ empty_store)
    × (r.ok ≡ false → (is_empty r.error ≡ false) × HasError s')
    × ((r.status ≡ 0) ↔ IsBroken refusal)
api_write_result_example =
    api_write_result (λ t. none) servers_path refusal empty_store (λ h. omega arith)
