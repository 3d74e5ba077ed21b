-- ===== src/Auditing/Runs.antt =====
-- Any sequence of loads of the audit data, as the look-ups of the pages see it.
use operations_api.Common.{◌≡◌, refl, ◌∙◌, sym, subst, ap, true, false, List, [], ◌∷◌}
use operations_api.Auditing.{AuditingData}
use operations_api.Auditing.Apply.{Load, all_details, app_detail, present, run_load, run_loads}
use operations_api.Auditing.Roster.{bindings_of}
use operations_api.Auditing.Roster.View.{Directory, view, refresh, IsIndexed}
use operations_api.Auditing.Roster.Refines.{empty_directory, apply_ad_reference_data-refines}
use operations_api.Auditing.Roster.Indexed.{apply_ad_reference_data-IsIndexed}
use operations_api.Auditing.Roster.Resolved.{IsResolved, refresh-IsResolved}

-- A load as it is seen from outside.
abbrev pub replay_load : Load → Directory → Directory
replay_load (all_details apps camps) D = refresh (bindings_of (present apps)) empty_directory
replay_load (app_detail a) D = refresh (bindings_of (a ∷ [])) D

abbrev pub replay : List Load → Directory → Directory
replay [] D = D
replay (l ∷ ls) D = replay ls (replay_load l D)

run_load-IsIndexed : (l : Load) (d : AuditingData) → IsIndexed (run_load l d)
unfolding run_load
run_load-IsIndexed (all_details apps camps) d =
    apply_ad_reference_data-IsIndexed (present apps) false _
run_load-IsIndexed (app_detail a) d = apply_ad_reference_data-IsIndexed (a ∷ []) true _

run_load_refines :
    (l : Load) (d : AuditingData) → IsIndexed d → view (run_load l d) ≡ replay_load l (view d)
unfolding run_load view
run_load_refines (all_details apps camps) d v =
    apply_ad_reference_data-refines (present apps) false _
      (record { users = v.users; groups = v.groups })
run_load_refines (app_detail a) d v =
    apply_ad_reference_data-refines (a ∷ []) true _ (record { users = v.users; groups = v.groups })

-- From data in which no user and no group stands twice, any sequence of full loads and of refreshes
-- of single applications leaves the look-ups that the same sequence of `refresh` gives: a refresh
-- replaces the groups that it binds and keeps all others.
pub run_loads_refines :
    (ls : List Load) (d : AuditingData) → IsIndexed d → view (run_loads ls d) ≡ replay ls (view d)
unfolding run_loads
run_loads_refines [] d v = refl
run_loads_refines (l ∷ ls) d v =
    run_loads_refines ls (run_load l d) (run_load-IsIndexed l d)
    ∙ ap (replay ls) (run_load_refines l d v)

empty_directory-IsResolved : IsResolved empty_directory
empty_directory-IsResolved = record {
  members = λ dn m i. elim i [ ];
  owners = λ dn o i. elim i [ ];
  managers = λ sam boss u e f. absurd (cc);
}

replay_load-IsResolved : (l : Load) (D : Directory) → IsResolved D → IsResolved (replay_load l D)
replay_load-IsResolved (all_details apps camps) D h =
    refresh-IsResolved (bindings_of (present apps)) empty_directory empty_directory-IsResolved
replay_load-IsResolved (app_detail a) D h = refresh-IsResolved (bindings_of (a ∷ [])) D h

replay-IsResolved : (ls : List Load) (D : Directory) → IsResolved D → IsResolved (replay ls D)
replay-IsResolved [] D h = h
replay-IsResolved (l ∷ ls) D h =
    replay-IsResolved ls (replay_load l D) (replay_load-IsResolved l D h)

-- Where every member, owner and manager that the look-ups mention has a user record and no user and
-- no group stands twice, that is so after any sequence of loads.
pub run_loads-IsResolved :
    (ls : List Load) (d : AuditingData)
    → IsIndexed d
    → IsResolved (view d)
    → IsResolved (view (run_loads ls d))
run_loads-IsResolved ls d v h =
    subst IsResolved (sym (run_loads_refines ls d v)) (replay-IsResolved ls (view d) h)
