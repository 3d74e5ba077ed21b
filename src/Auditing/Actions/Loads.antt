-- ===== src/Auditing/Actions/Loads.antt =====
-- The audit actions change the audit data by loads of what the service serves, and by nothing else.
use operations_api.Common.{
  ℕ, zero, suc, ◌≡◌, refl, sym, ◌∙◌, ap, subst, Option, none, some, List, [], ◌∷◌, ◌++◌, Text, text,
  text_eq, find, if_intro,
}
use operations_api.Api.{Reply, api_write}
use operations_api.Auditing.{AppItem, Application, AuditingData}
use operations_api.Auditing.Apply.{Load, all_details, app_detail, run_load, run_loads}
use operations_api.Auditing.Roster.View.{view, IsIndexed}
use operations_api.Auditing.Roster.Resolved.{IsResolved}
use operations_api.Auditing.Runs.{run_loads-IsResolved}
use operations_api.Auditing.Fetch.{
  Desk, Served, fetch_details, fetch_auditing, refetch_auditing, apply_detail, refetch_auditing_app,
  fetch_each, app_path, camp_path,
}
use operations_api.Auditing.Actions.{
  Note, Binding, AuditAction, add_app, patch_app, delete_app, archive_app, restore_app, add_binding,
  remove_binding, add_nominee, remove_nominee, launch, close, remind, remind_packet, settle,
  add_audit_app, reloading, reloading_app, run_audit_action, run_audit_actions, bind_all,
  bind_created, bind_new,
}

-- The audit data of the second desk are those of the first after some loads.
abbrev IsLoaded : Desk → Desk → Type 0
IsLoaded d e = (ls : List Load) × (e.page ≡ run_loads ls d.page)

run_loads-append :
    (ks ls : List Load) (d : AuditingData) → run_loads (ks ++ ls) d ≡ run_loads ls (run_loads ks d)
unfolding run_loads
run_loads-append [] ls d = refl
run_loads-append (k ∷ ks) ls d = run_loads-append ks ls (run_load k d)

IsLoaded-refl : (d : Desk) → IsLoaded d d
unfolding run_loads
IsLoaded-refl d = ([], refl)

IsLoaded-trans : (d e f : Desk) → IsLoaded d e → IsLoaded e f → IsLoaded d f
IsLoaded-trans d e f (ks, h) (ls, k) =
    (ks ++ ls, k ∙ (ap (run_loads ls) h ∙ sym (run_loads-append ks ls d.page)))

fetch_details-IsLoaded :
    (v : Served) (o : Option (List ℕ × List ℕ)) (d : Desk) → IsLoaded d (fetch_details v o d).0
unfolding fetch_details run_loads run_load
fetch_details-IsLoaded v none d = ([], refl)
fetch_details-IsLoaded v (some (xs, ys)) d =
    let apps = fetch_each app_path v.app xs d.store in
    let camps = fetch_each camp_path v.camp ys apps.0 in (all_details apps.1 camps.1 ∷ [], refl)

refetch_auditing-IsLoaded : (v : Served) (d : Desk) → IsLoaded d (refetch_auditing v d)
unfolding refetch_auditing fetch_auditing
refetch_auditing-IsLoaded v d = fetch_details-IsLoaded v _ (record d { store = _ })

apply_detail-IsLoaded : (o : Option AppItem) (d : Desk) → IsLoaded d (apply_detail o d)
unfolding apply_detail run_loads run_load
apply_detail-IsLoaded none d = ([], refl)
apply_detail-IsLoaded (some a) d = (app_detail a ∷ [], refl)

refetch_auditing_app-IsLoaded :
    (v : Served) (id : ℕ) (d : Desk) → IsLoaded d (refetch_auditing_app v id d)
unfolding refetch_auditing_app
refetch_auditing_app-IsLoaded v id d = apply_detail-IsLoaded _ (record d { store = _ })

module _ (ef : Text → Option Text) where
  settle-IsLoaded :
      {V : Type 0} (path what : Text) (reply : Reply V) (next : Option V → Desk → Desk × List Note)
      (d : Desk)
      → ((o : Option V) (e : Desk) → IsLoaded e (next o e).0)
      → IsLoaded d (settle ef path what reply next d).0
  unfolding settle
  settle-IsLoaded path what reply next d h =
      let w = api_write ef path reply d.store in
      if_intro (λ (r : Desk × List Note). IsLoaded d r.0) w.1.ok
        (h w.1.result (record d { store = w.0 })) (IsLoaded-refl d)

  bind_all-IsLoaded :
      (id : ℕ) (bs : List (Binding × Reply Unit)) (d : Desk) → IsLoaded d (bind_all ef id bs d).0
  unfolding bind_all
  bind_all-IsLoaded id [] d = IsLoaded-refl d
  bind_all-IsLoaded id ((b, reply) ∷ bs) d =
      let w = api_write ef (app_path id ++ text "/bindings") reply d.store in
      let d' : Desk = record d { store = w.0 } in
      if_intro (λ (r : Desk × List Note). IsLoaded d r.0) w.1.ok (bind_all-IsLoaded id bs d')
        (IsLoaded-refl d)

  bind_created-IsLoaded :
      (v : Served) (o : Option Application) (bs : List (Binding × Reply Unit)) (d : Desk)
      → IsLoaded d (bind_created ef v o bs d).0
  unfolding bind_created
  bind_created-IsLoaded v none bs d = IsLoaded-refl d
  bind_created-IsLoaded v (some a) [] d = IsLoaded-refl d
  bind_created-IsLoaded v (some a) (b ∷ bs) d =
      let bound = bind_all ef a.application_id (b ∷ bs) d in
      IsLoaded-trans d bound.0 (refetch_auditing v bound.0)
        (bind_all-IsLoaded a.application_id (b ∷ bs) d) (refetch_auditing-IsLoaded v bound.0)

  bind_new-IsLoaded :
      (v v' : Served) (name : Text) (bs : List (Binding × Reply Unit)) (d : Desk)
      → IsLoaded d (bind_new ef v v' name bs d).0
  unfolding bind_new
  bind_new-IsLoaded v v' name bs d =
      let e = refetch_auditing v d in
      let found = find (λ (a : Application). text_eq a.name name) e.page.applications in
      IsLoaded-trans d e (bind_created ef v' found bs e).0 (refetch_auditing-IsLoaded v d)
        (bind_created-IsLoaded v' found bs e)

  reloading-IsLoaded :
      (v : Served) (path what : Text) (reply : Reply Unit) (d : Desk)
      → IsLoaded d (reloading ef v path what reply d).0
  unfolding reloading
  reloading-IsLoaded v path what reply d =
      settle-IsLoaded path what reply _ d (λ o e. refetch_auditing-IsLoaded v e)

  reloading_app-IsLoaded :
      (v : Served) (id : ℕ) (path what : Text) (reply : Reply Unit) (d : Desk)
      → IsLoaded d (reloading_app ef v id path what reply d).0
  unfolding reloading_app
  reloading_app-IsLoaded v id path what reply d =
      settle-IsLoaded path what reply _ d (λ o e. refetch_auditing_app-IsLoaded v id e)

  run_audit_action-IsLoaded :
      (v v' : Served) (x : AuditAction) (d : Desk) → IsLoaded d (run_audit_action ef v v' x d).0
  unfolding run_audit_action add_audit_app
  run_audit_action-IsLoaded v v' (add_app name r bs) d =
      settle-IsLoaded _ _ r _ d (λ o e. bind_new-IsLoaded v v' name bs e)
  run_audit_action-IsLoaded v v' (patch_app id r) d = reloading_app-IsLoaded v id _ _ r d
  run_audit_action-IsLoaded v v' (delete_app id r) d = reloading-IsLoaded v _ _ r d
  run_audit_action-IsLoaded v v' (archive_app id r) d = reloading-IsLoaded v _ _ r d
  run_audit_action-IsLoaded v v' (restore_app id r) d = reloading-IsLoaded v _ _ r d
  run_audit_action-IsLoaded v v' (add_binding id r) d = reloading_app-IsLoaded v id _ _ r d
  run_audit_action-IsLoaded v v' (remove_binding id zero r) d = IsLoaded-refl d
  run_audit_action-IsLoaded v v' (remove_binding id (suc n) r) d =
      reloading_app-IsLoaded v id _ _ r d
  run_audit_action-IsLoaded v v' (add_nominee id r) d = reloading_app-IsLoaded v id _ _ r d
  run_audit_action-IsLoaded v v' (remove_nominee id zero r) d = IsLoaded-refl d
  run_audit_action-IsLoaded v v' (remove_nominee id (suc n) r) d =
      reloading_app-IsLoaded v id _ _ r d
  run_audit_action-IsLoaded v v' (launch r) d = reloading-IsLoaded v _ _ r d
  run_audit_action-IsLoaded v v' (close id r) d = reloading-IsLoaded v _ _ r d
  run_audit_action-IsLoaded v v' (remind id r) d =
      settle-IsLoaded _ _ r _ d (λ o e. refetch_auditing-IsLoaded v e)
  run_audit_action-IsLoaded v v' (remind_packet id packet r) d = reloading-IsLoaded v _ _ r d

  run_audit_actions-IsLoaded :
      (xs : List (Served × Served × AuditAction)) (d : Desk)
      → IsLoaded d (run_audit_actions ef xs d)
  unfolding run_audit_actions
  run_audit_actions-IsLoaded [] d = IsLoaded-refl d
  run_audit_actions-IsLoaded ((v, v', x) ∷ xs) d =
      let e = (run_audit_action ef v v' x d).0 in
      IsLoaded-trans d e (run_audit_actions ef xs e) (run_audit_action-IsLoaded v v' x d)
        (run_audit_actions-IsLoaded xs e)

  -- Where every member, owner and manager that the look-ups mention has a user record and no user and
  -- no group stands twice, every mention has a record after any sequence of audit actions, whatever the
  -- service answers to their writes and loads.
  pub run_audit_actions-IsResolved :
      (xs : List (Served × Served × AuditAction)) (d : Desk)
      → IsIndexed d.page
      → IsResolved (view d.page)
      → IsResolved (view (run_audit_actions ef xs d).page)
  run_audit_actions-IsResolved xs d v h =
      let (ls, e) = run_audit_actions-IsLoaded xs d in
      subst (λ p. IsResolved (view p)) (sym e) (run_loads-IsResolved ls d.page v h)
