-- ===== src/Auditing/Actions.antt =====
-- frontend/js/op-boot.js, the audit write actions of OC_ACTIONS. What an action posts is the form's;
-- here it is what is answered that counts.
pub mod Refused
pub mod Loads
pub mod Tests
use operations_api.Common.{
  ℕ, zero, suc, ◌+◌, Bool, true, false, ◌&&◌, Option, none, some, List, [], ◌∷◌, ◌++◌, Text, text,
  text_eq, find, if◌then◌else◌, is_empty, decimal, or_text, get_or,
}
use operations_api.Mappers.{text_or}
use operations_api.Api.{Store, Reply, WriteResult, api, api_write, mark_demo, clear_demo}
use operations_api.Auditing.{AppItem, CampaignItem, Application, AuditingData}
use operations_api.Auditing.Apply.{apply_auditing, apply_auditing_app}
use operations_api.Auditing.Fetch.{
  Desk, Served, app_path, camp_path, refetch_auditing, refetch_auditing_app,
}

-- What the user is told: a call of `onDone`, with the id of what was created, or a message by
-- `onError` or `alert`.
pub data Note : Type 0 where
  finished : Note
  created : Option ℕ → Note
  alerted : Text → Note

-- A group to bind, as the form has it.
pub record Binding : Type 0 where
  pub group_dn : Text
  pub group_sam : Text

-- The writes, with what the service answers to them (the links that a launch gives go to the form); the answer to the reminders is how many were
-- sent, if it says.
pub data AuditAction : Type 0 where
  add_app : Text → Reply Unit → List (Binding × Reply Unit) → AuditAction
  patch_app : ℕ → Reply Unit → AuditAction
  delete_app : ℕ → Reply Unit → AuditAction
  archive_app : ℕ → Reply Unit → AuditAction
  restore_app : ℕ → Reply Unit → AuditAction
  add_binding : ℕ → Reply Unit → AuditAction
  remove_binding : ℕ → ℕ → Reply Unit → AuditAction
  add_nominee : ℕ → Reply Unit → AuditAction
  remove_nominee : ℕ → ℕ → Reply Unit → AuditAction
  launch : Reply Unit → AuditAction
  close : ℕ → Reply Unit → AuditAction
  remind : ℕ → Reply (Option ℕ) → AuditAction
  remind_packet : ℕ → Text → Reply Unit → AuditAction

unfoldable pub failure : {V : Type 0} → Text → WriteResult V → Text
failure what r =
    what
    ++ (text " (" ++ (decimal r.status ++ (text "): " ++ or_text r.error (text "unknown error"))))

module _ (error_field : Text → Option Text) where
  -- A write, and what is done when it succeeds.
  unfoldable pub settle :
      {V : Type 0}
      → Text
      → Text
      → Reply V
      → (Option V → Desk → Desk × List Note)
      → Desk
      → Desk × List Note
  unfolding failure
  settle path what reply next d =
      let (s, r) = api_write error_field path reply d.store in
      let d' = record d { store = s } in
      if r.ok then next r.result d' else (d', alerted (failure what r) ∷ [])

  -- The bindings of a new application, up to the first that is refused.
  unfoldable pub bind_all : ℕ → List (Binding × Reply Unit) → Desk → Desk × List Note
  bind_all id [] d = (d, [])
  bind_all id ((b, reply) ∷ bs) d =
      let (s, r) = api_write error_field (app_path id ++ text "/bindings") reply d.store in
      let d' = record d { store = s } in
      let rest = bind_all id bs d' in
      if r.ok then rest else (
        d',
        alerted (
              text "Application created, but binding "
              ++ (or_text b.group_sam b.group_dn
                  ++ (text " failed (" ++ (decimal r.status ++ text ")."))))
            ∷ [],
      )

  -- What follows the creation of an application, which is looked for by its name.
  unfoldable pub bind_created :
      Served → Option Application → List (Binding × Reply Unit) → Desk → Desk × List Note
  bind_created v none bs d = (d, created none ∷ [])
  bind_created v (some a) [] d = (d, created (some a.application_id) ∷ [])
  bind_created v (some a) (b ∷ bs) d =
      let (d', notes) = bind_all a.application_id (b ∷ bs) d in
      (refetch_auditing v d', notes ++ created (some a.application_id) ∷ [])

  unfoldable pub bind_new :
      Served → Served → Text → List (Binding × Reply Unit) → Desk → Desk × List Note
  bind_new v v' name bs d =
      let d' = refetch_auditing v d in
      bind_created v' (find (λ (a : Application). text_eq a.name name) d'.page.applications) bs d'

  unfoldable pub add_audit_app :
      Served → Served → Text → Reply Unit → List (Binding × Reply Unit) → Desk → Desk × List Note
  add_audit_app v v' name reply bs =
      settle (text "/auditing/applications") (text "Could not create application") reply
        (λ _ d. bind_new v v' name bs d)

  -- After the write everything is loaded again, or the application alone.
  unfoldable pub reloading : Served → Text → Text → Reply Unit → Desk → Desk × List Note
  reloading v path what reply =
      settle path what reply (λ _ d. (refetch_auditing v d, finished ∷ []))

  unfoldable pub reloading_app : Served → ℕ → Text → Text → Reply Unit → Desk → Desk × List Note
  reloading_app v id path what reply =
      settle path what reply (λ _ d. (refetch_auditing_app v id d, finished ∷ []))

  -- `v` answers the first load of an action, `v'` the second.
  unfoldable pub run_audit_action : Served → Served → AuditAction → Desk → Desk × List Note
  unfolding reloading reloading_app add_audit_app
  run_audit_action v v' (add_app name reply bs) d = add_audit_app v v' name reply bs d
  run_audit_action v v' (patch_app id reply) d =
      reloading_app v id (app_path id) (text "Could not update application") reply d
  run_audit_action v v' (delete_app id reply) d =
      reloading v (app_path id) (text "Could not delete application") reply d
  run_audit_action v v' (archive_app id reply) d =
      reloading v (app_path id ++ text "/archive") (text "Could not archive application") reply d
  run_audit_action v v' (restore_app id reply) d =
      reloading v (app_path id ++ text "/restore") (text "Could not restore application") reply d
  run_audit_action v v' (add_binding id reply) d =
      reloading_app v id (app_path id ++ text "/bindings") (text "Could not bind group") reply d
  run_audit_action v v' (remove_binding id zero reply) d =
      (d, alerted (text "Cannot remove binding: no id (demo mode?).") ∷ [])
  run_audit_action v v' (remove_binding id (suc n) reply) d =
      reloading_app v id (app_path id ++ (text "/bindings/" ++ decimal (suc n)))
        (text "Could not remove binding") reply d
  run_audit_action v v' (add_nominee id reply) d =
      reloading_app v id (app_path id ++ text "/nominees") (text "Could not add nominee") reply d
  run_audit_action v v' (remove_nominee id zero reply) d =
      (d, alerted (text "Cannot remove nominee: no id (demo mode?).") ∷ [])
  run_audit_action v v' (remove_nominee id (suc n) reply) d =
      reloading_app v id (app_path id ++ (text "/nominees/" ++ decimal (suc n)))
        (text "Could not remove nominee") reply d
  run_audit_action v v' (launch reply) d =
      reloading v (text "/auditing/campaigns/launch") (text "Could not launch campaign") reply d
  run_audit_action v v' (close id reply) d =
      reloading v (camp_path id ++ text "/close") (text "Could not close campaign") reply d
  run_audit_action v v' (remind id reply) d =
      settle (camp_path id ++ text "/remind") (text "Could not send reminders") reply
        (λ sent d. (
          refetch_auditing v d,
          alerted (
                (elim sent [ some (some n) ↦ decimal n | _ ↦ text "?" ])
                ++ text " reminder(s) sent.")
              ∷ finished
              ∷ [],
        ))
        d
  run_audit_action v v' (remind_packet id packet reply) d =
      reloading v (camp_path id ++ (text "/packets/" ++ (packet ++ text "/remind")))
        (text "Could not resend") reply d

  unfoldable pub run_audit_actions : List (Served × Served × AuditAction) → Desk → Desk
  run_audit_actions [] d = d
  run_audit_actions ((v, v', x) ∷ xs) d = run_audit_actions xs (run_audit_action v v' x d).0
