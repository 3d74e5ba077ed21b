-- ===== src/Auditing/Roster/View.antt =====
-- The roster as the helper functions of frontend/js/auditing-demo-data.js look it up, and what a
-- refresh of some bindings means for it, said without the passes of _applyAdReferenceData.
use operations_api.Common.{
  Bool, false, Option, none, some, List, map, flat_map, Text, filter, find, any, text_eq,
  if◌then◌else◌, get_at, last_at, IsUnique,
}
use operations_api.Mappers.{text_or, or_null}
use operations_api.Auditing.{
  BindingItem, MemberItem, OwnerItem, User, Group, Membership, Ownership, AuditingData,
}
use operations_api.Auditing.Roster.{group_of, user_of, stub, membership_of, ownership_of}

-- `getUser`, `getGroup`, and the rows of a group.
pub record Directory : Type 0 where
  pub user : Text → Option User
  pub group : Text → Option Group
  pub members : Text → List Membership
  pub owners : Text → List Ownership

abbrev pub sam_of : User → Text
sam_of u = u.sam

abbrev pub dn_of : Group → Text
dn_of g = g.dn

unfoldable pub view : AuditingData → Directory
view d = record {
  user = λ sam. get_at sam_of sam d.users;
  group = λ dn. get_at dn_of dn d.groups;
  members = λ dn. filter (λ (m : Membership). text_eq m.group_dn dn) d.group_memberships;
  owners = λ dn. filter (λ (o : Ownership). text_eq o.group_dn dn) d.group_owners;
}

-- The bindings of a group.
abbrev pub bound_to : Text → List BindingItem → List BindingItem
bound_to dn bs = filter (λ (b : BindingItem). text_eq b.group_dn dn) bs

abbrev pub is_bound : Text → List BindingItem → Bool
is_bound dn bs = any (λ (b : BindingItem). text_eq b.group_dn dn) bs

abbrev pub members_in : List BindingItem → List MemberItem
members_in bs = flat_map (λ (b : BindingItem). b.members) bs

abbrev pub owners_in : List BindingItem → List OwnerItem
owners_in bs = flat_map (λ (b : BindingItem). b.owners) bs

abbrev pub is_sam : Text → Option Text → Bool
is_sam sam none = false
is_sam sam (some s) = text_eq s sam

abbrev pub managed_by : Text → MemberItem → Bool
managed_by sam m = is_sam sam (or_null m.manager_sam)

-- The first that is there.
abbrev pub or_else {ℓ} : {A : Type ℓ} → Option A → Option A → Option A
or_else none o = o
or_else (some a) o = some a

abbrev pub manager_record : Text → List MemberItem → Option User
manager_record sam ms = if any (managed_by sam) ms then some (stub sam sam none) else none

abbrev pub owner_user : Option OwnerItem → Option User
owner_user none = none
owner_user (some o) =
    some (stub o.owner_sam (text_or o.owner_display_name o.owner_sam) (or_null o.owner_email))

abbrev pub owner_record : Text → List OwnerItem → Option User
owner_record sam os = owner_user (find (λ (o : OwnerItem). text_eq o.owner_sam sam) os)

-- A group that is bound has the last binding's data and the bindings' members and owners; all
-- others keep theirs. A user is the last member of the name, else whoever was there, else a manager
-- of a member, else an owner.
unfoldable pub refresh : List BindingItem → Directory → Directory
refresh bs D = record {
  user = λ sam.
      or_else (last_at sam_of sam (map user_of (members_in bs)) (D.user sam))
        (or_else (manager_record sam (members_in bs)) (owner_record sam (owners_in bs)));
  group = λ dn. last_at dn_of dn (map group_of bs) (D.group dn);
  members = λ dn. if is_bound dn bs then flat_map membership_of (bound_to dn bs) else D.members dn;
  owners = λ dn. if is_bound dn bs then flat_map ownership_of (bound_to dn bs) else D.owners dn;
}

-- The arrays behind the two maps hold each key once.
pub record IsIndexed (d : AuditingData) : Type 0 where
  pub users : IsUnique sam_of d.users
  pub groups : IsUnique dn_of d.groups
