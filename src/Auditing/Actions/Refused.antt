-- ===== src/Auditing/Actions/Refused.antt =====
-- What an audit action does when it is refused or not answered at all.
use operations_api.Common.{zero, suc, ◌≡◌, refl, false, Option, List, [], ◌∷◌, Text}
use operations_api.Api.{Store, Reply, responded, broken, is_success, api_write}
use operations_api.Auditing.Fetch.{Desk, Served}
use operations_api.Auditing.Actions.{
  Note, alerted, AuditAction, add_app, patch_app, delete_app, archive_app, restore_app, add_binding,
  remove_binding, add_nominee, remove_nominee, launch, close, remind, remind_packet, settle,
  add_audit_app, reloading, reloading_app, run_audit_action,
}

-- No answer, or one whose status is no success.
abbrev pub IsFailed : {V : Type 0} → Reply V → Type 0
IsFailed (responded status body error) = is_success status ≡ false
IsFailed (broken fault) = Unit

-- The write of an action failed, or there was no id to send it for.
abbrev pub HasFailed : AuditAction → Type 0
HasFailed (add_app name r bs) = IsFailed r
HasFailed (patch_app id r) = IsFailed r
HasFailed (delete_app id r) = IsFailed r
HasFailed (archive_app id r) = IsFailed r
HasFailed (restore_app id r) = IsFailed r
HasFailed (add_binding id r) = IsFailed r
HasFailed (remove_binding id zero r) = Unit
HasFailed (remove_binding id (suc n) r) = IsFailed r
HasFailed (add_nominee id r) = IsFailed r
HasFailed (remove_nominee id zero r) = Unit
HasFailed (remove_nominee id (suc n) r) = IsFailed r
HasFailed (launch r) = IsFailed r
HasFailed (close id r) = IsFailed r
HasFailed (remind id r) = IsFailed r
HasFailed (remind_packet id packet r) = IsFailed r

-- The audit data as they were, and one message.
abbrev pub IsTold : Desk → Desk × List Note → Type 0
IsTold d r = (r.0.page ≡ d.page) × ((m : Text) × (r.1 ≡ alerted m ∷ []))

module _ (ef : Text → Option Text) where
  write-failed :
      {V : Type 0} (path : Text) (reply : Reply V) (s : Store)
      → IsFailed reply
      → (api_write ef path reply s).1.ok ≡ false
  unfolding api_write
  write-failed path (responded status body error) s h = rw h refl
  write-failed path (broken fault) s h = refl

  settle-IsTold :
      {V : Type 0} (path what : Text) (reply : Reply V) (next : Option V → Desk → Desk × List Note)
      (d : Desk)
      → IsFailed reply
      → IsTold d (settle ef path what reply next d)
  unfolding settle
  settle-IsTold path what reply next d h = rw (write-failed path reply d.store h) (refl, (_, refl))

  -- An audit action whose write gets no answer, or one whose status is no success, or that has no id
  -- to be sent for, leaves the audit data as they were and gives the user one message; nothing is
  -- done offline, and nothing is reported as finished.
  pub run_audit_action-IsTold :
      (v v' : Served) (x : AuditAction) (d : Desk)
      → HasFailed x
      → IsTold d (run_audit_action ef v v' x d)
  unfolding run_audit_action reloading reloading_app add_audit_app
  run_audit_action-IsTold v v' (add_app name r bs) d h = settle-IsTold _ _ r _ d h
  run_audit_action-IsTold v v' (patch_app id r) d h = settle-IsTold _ _ r _ d h
  run_audit_action-IsTold v v' (delete_app id r) d h = settle-IsTold _ _ r _ d h
  run_audit_action-IsTold v v' (archive_app id r) d h = settle-IsTold _ _ r _ d h
  run_audit_action-IsTold v v' (restore_app id r) d h = settle-IsTold _ _ r _ d h
  run_audit_action-IsTold v v' (add_binding id r) d h = settle-IsTold _ _ r _ d h
  run_audit_action-IsTold v v' (remove_binding id zero r) d h = (refl, (_, refl))
  run_audit_action-IsTold v v' (remove_binding id (suc n) r) d h = settle-IsTold _ _ r _ d h
  run_audit_action-IsTold v v' (add_nominee id r) d h = settle-IsTold _ _ r _ d h
  run_audit_action-IsTold v v' (remove_nominee id zero r) d h = (refl, (_, refl))
  run_audit_action-IsTold v v' (remove_nominee id (suc n) r) d h = settle-IsTold _ _ r _ d h
  run_audit_action-IsTold v v' (launch r) d h = settle-IsTold _ _ r _ d h
  run_audit_action-IsTold v v' (close id r) d h = settle-IsTold _ _ r _ d h
  run_audit_action-IsTold v v' (remind id r) d h = settle-IsTold _ _ r _ d h
  run_audit_action-IsTold v v' (remind_packet id packet r) d h = settle-IsTold _ _ r _ d h
