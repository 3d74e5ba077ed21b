-- ===== src/Auditing/Roster/Refines.antt =====
-- _applyAdReferenceData does to the look-ups what `refresh` says.
use operations_api.Common.{
  ◌≡◌, refl, Bool, ◌∙◌, ap, Bool, true, false, Option, none, List, [], ◌∷◌, map, Text, text_eq,
  if◌then◌else◌, put_all, map_of, get_at, last_at, get_at-put_all, IsUnique, filter-IsUnique,
  get_at-map_of, arith, Bool-cases, inl, inr,
}
use operations_api.Auditing.{AppItem, BindingItem, User, Group, Membership, Ownership, AuditingData}
use operations_api.Auditing.Roster.{
  bindings_of, group_of, user_of, manager_stub, owner_stub, each, membership_of, ownership_of,
  cleared, rostered, apply_ad_reference_data,
}
use operations_api.Auditing.Roster.View.{
  Directory, sam_of, dn_of, view, is_bound, members_in, owners_in, or_else, manager_record,
  owner_record, refresh, IsIndexed,
}
use operations_api.Auditing.Roster.Rows.{
  merged, afresh, get_at-kept, has-is_bound, membership_rows, ownership_rows,
}
use operations_api.Auditing.Roster.Stubs.{or_else_assoc, owner_stubs, manager_stubs}

abbrev pub empty_directory : Directory
empty_directory = record {
  user = λ sam. none;
  group = λ dn. none;
  members = λ dn. [];
  owners = λ dn. [];
}

Directory-ext :
    (D E : Directory)
    → ((k : Text) → D.user k ≡ E.user k)
    → ((k : Text) → D.group k ≡ E.group k)
    → ((k : Text) → D.members k ≡ E.members k)
    → ((k : Text) → D.owners k ≡ E.owners k)
    → D ≡ E
Directory-ext D E e f g h =
    λ i. record { user = λ k. e k i; group = λ k. f k i; members = λ k. g k i; owners = λ k. h k i }

user_after :
    (sam : Text) (bs : List BindingItem) (users : List User)
    → IsUnique sam_of users
    → get_at sam_of sam (
        each owner_stub (owners_in bs) (
          each manager_stub
            (members_in bs)
            (put_all sam_of (map user_of (members_in bs)) (map_of sam_of users))))
      ≡ or_else
          (last_at sam_of sam (map user_of (members_in bs)) (get_at sam_of sam users))
          (or_else (manager_record sam (members_in bs)) (owner_record sam (owners_in bs)))
user_after sam bs users h =
    owner_stubs sam (owners_in bs) _
    ∙ rw
        (
          manager_stubs sam (members_in bs)
              (put_all sam_of (map user_of (members_in bs)) (map_of sam_of users)),
          get_at-put_all sam_of sam (map user_of (members_in bs)) (map_of sam_of users),
          get_at-map_of sam_of sam users h,
        )
        (or_else_assoc (last_at sam_of sam (map user_of (members_in bs)) (get_at sam_of sam users))
          (manager_record sam (members_in bs)) (owner_record sam (owners_in bs)))

group_after :
    (dn : Text) (bs : List BindingItem) (groups : List Group)
    → IsUnique dn_of groups
    → get_at dn_of dn (put_all dn_of (map group_of bs) (map_of dn_of groups))
      ≡ last_at dn_of dn (map group_of bs) (get_at dn_of dn groups)
group_after dn bs groups h =
    get_at-put_all dn_of dn (map group_of bs) (map_of dn_of groups)
    ∙ rw (get_at-map_of dn_of dn groups h) refl

-- The group's old record does not matter where the group is bound.
last_at-bound :
    (dn : Text) (bs : List BindingItem) (o : Option Group)
    → last_at dn_of dn (map group_of bs) (if is_bound dn bs then none else o)
      ≡ last_at dn_of dn (map group_of bs) o
unfolding last_at group_of
last_at-bound dn [] o = refl
last_at-bound dn (b ∷ bs) o = elim (Bool-cases (text_eq b.group_dn dn)) [
  | inl e ↦ ap (last_at dn_of dn (map group_of bs)) (ground arith)
  | inr e ↦
      ap (last_at dn_of dn (map group_of bs)) (ground arith)
      ∙ (last_at-bound dn bs o ∙ ap (last_at dn_of dn (map group_of bs)) (ground arith))
]

-- A refresh changes the look-ups as `refresh` says; the boot does the same to an empty directory.
pub apply_ad_reference_data-refines :
    (details : List AppItem) (merge : Bool) (d : AuditingData)
    → IsIndexed d
    → view (apply_ad_reference_data details merge d)
      ≡ refresh (bindings_of details) (if merge then view d else empty_directory)
unfolding apply_ad_reference_data cleared rostered view refresh
apply_ad_reference_data-refines details true d v =
    let bs = bindings_of details in
    Directory-ext _ _ (λ sam. user_after sam bs d.users v.users)
      (λ dn.
        group_after dn bs _ (filter-IsUnique dn_of _ d.groups v.groups)
        ∙ (ap (last_at dn_of dn (map group_of bs)) (
              get_at-kept dn_of dn (map (λ (b : BindingItem). b.group_dn) bs) d.groups
              ∙ ap (λ (t : Bool). if t then none else get_at dn_of dn d.groups)
                  (has-is_bound dn bs))
            ∙ last_at-bound dn bs (get_at dn_of dn d.groups)))
      (λ dn.
        merged (λ (m : Membership). m.group_dn) dn membership_of (membership_rows dn) bs
          d.group_memberships)
      (λ dn.
        merged (λ (o : Ownership). o.group_dn) dn ownership_of (ownership_rows dn) bs
          d.group_owners)
apply_ad_reference_data-refines details false d v =
    let bs = bindings_of details in
    Directory-ext _ _ (λ sam. user_after sam bs [] tt) (λ dn. group_after dn bs [] tt)
      (λ dn. afresh (λ (m : Membership). m.group_dn) dn membership_of (membership_rows dn) bs)
      (λ dn. afresh (λ (o : Ownership). o.group_dn) dn ownership_of (ownership_rows dn) bs)
