-- ===== src/Auditing/Actions/Tests.antt =====
-- Instances for the audit actions.
use operations_api.Common.{none, some, [], ◌∷◌, text}
use operations_api.Samples.{empty_store}
use operations_api.Api.{responded, broken, json, other_error}
use operations_api.Auditing.Roster.View.{view}
use operations_api.Auditing.Roster.Resolved.{IsResolved}
use operations_api.Auditing.Fetch.{Desk, Served}
use operations_api.Auditing.Actions.{
  AuditAction, add_app, remind, remove_binding, run_audit_action, run_audit_actions,
}
use operations_api.Auditing.Actions.Refused.{IsTold, run_audit_action-IsTold}
use operations_api.Auditing.Actions.Loads.{run_audit_actions-IsResolved}
use operations_api.Auditing.Tests.{no_data, no_data-IsIndexed, no_data-IsResolved, tableau}

abbrev page : Desk
page = record { store = empty_store; page = no_data }

-- One application, no campaign.
abbrev served : Served
served = record {
  app_list = responded 200 (json (some (some (1 ∷ [])))) [];
  camp_list = responded 200 (json (some (some []))) [];
  app = λ id. responded 200 (json (some tableau)) [];
  camp = λ id. broken other_error;
}

abbrev adding : AuditAction
adding =
    add_app (text "Tableau") (responded 201 (json none) [])
      ((record { group_dn = text "CN=Editors"; group_sam = [] }, responded 409 (json none) []) ∷ [])

run_audit_action-IsTold_example :
    IsTold page (run_audit_action (λ t. none) served served (remind 101 (broken other_error)) page)
run_audit_action-IsTold_example =
    run_audit_action-IsTold (λ t. none) served served (remind 101 (broken other_error)) page tt

run_audit_actions-IsResolved_example : IsResolved (
    view
      (run_audit_actions
        (λ t. none)
        ((served, served, adding) ∷ (served, served, remove_binding 1 0 (broken other_error)) ∷ [])
        page).page)
run_audit_actions-IsResolved_example =
    run_audit_actions-IsResolved (λ t. none)
      ((served, served, adding) ∷ (served, served, remove_binding 1 0 (broken other_error)) ∷ [])
      page no_data-IsIndexed no_data-IsResolved
