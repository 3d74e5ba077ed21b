-- ===== src/Auditing/Roster/Indexed.antt =====
-- After _applyAdReferenceData no user and no group stands twice.
use operations_api.Common.{
  Bool, Option, none, some, List, [], ◌∷◌, map, Text, if_intro, map_of, IsUnique, put-IsUnique,
  put_all-IsUnique, map_of-IsUnique, has_key,
}
use operations_api.Mappers.{or_null}
use operations_api.Auditing.{AppItem, BindingItem, User, AuditingData}
use operations_api.Auditing.Roster.{
  bindings_of, group_of, user_of, add_stub, stub_for, manager_stub, owner_stub, each, rostered,
  apply_ad_reference_data,
}
use operations_api.Auditing.Roster.View.{sam_of, dn_of, IsIndexed, members_in, owners_in}

each_keeps {ℓ} :
    {A S : Type ℓ} (P : S → Type 0) (f : A → S → S)
    → ((x : A) (s : S) → P s → P (f x s))
    → (xs : List A) (s : S) → P s
    → P (each f xs s)
unfolding each
each_keeps P f keep [] s h = h
each_keeps P f keep (x ∷ xs) s h = each_keeps P f keep xs (f x s) (keep x s h)

add_stub-IsUnique :
    (u : User) (users : List User) → IsUnique sam_of users → IsUnique sam_of (add_stub u users)
unfolding add_stub
add_stub-IsUnique u users h =
    if_intro (IsUnique sam_of) (has_key sam_of u.sam users) h (put-IsUnique sam_of u users h)

stub_for-IsUnique :
    (manager : Option Text) (users : List User)
    → IsUnique sam_of users
    → IsUnique sam_of (stub_for manager users)
unfolding stub_for
stub_for-IsUnique none users h = h
stub_for-IsUnique (some s) users h = add_stub-IsUnique _ users h

rostered-IsIndexed : (bs : List BindingItem) (d : AuditingData) → IsIndexed (rostered bs d)
unfolding rostered manager_stub owner_stub
rostered-IsIndexed bs d = record {
  users =
      each_keeps (IsUnique sam_of) owner_stub (λ o users h. add_stub-IsUnique _ users h)
        (owners_in bs) _
        (each_keeps (IsUnique sam_of) manager_stub
          (λ m users h. stub_for-IsUnique (or_null m.manager_sam) users h) (members_in bs) _
          (put_all-IsUnique sam_of (map user_of (members_in bs)) (map_of sam_of d.users)
            (map_of-IsUnique sam_of d.users)));
  groups =
      put_all-IsUnique dn_of (map group_of bs) (map_of dn_of d.groups)
        (map_of-IsUnique dn_of d.groups);
}

pub apply_ad_reference_data-IsIndexed :
    (details : List AppItem) (merge : Bool) (d : AuditingData)
    → IsIndexed (apply_ad_reference_data details merge d)
unfolding apply_ad_reference_data
apply_ad_reference_data-IsIndexed details merge d = rostered-IsIndexed (bindings_of details) _
