-- ===== src/Auditing/Roster.antt =====
-- frontend/js/op-boot.js, _applyAdReferenceData: the users, groups, memberships and owners, rebuilt
-- from what the API embeds in the bindings of applications.
pub mod View
pub mod Stubs
pub mod Rows
pub mod Refines
pub mod Indexed
pub mod Found
pub mod Sources
pub mod Resolved
use operations_api.Common.{
  Bool, true, false, not, Option, none, some, List, [], ◌∷◌, ◌++◌, map, flat_map, Text, text,
  filter, get_or, has, if◌then◌else◌, put, map_of, put_all, has_key,
}
use operations_api.Mappers.{text_or, or_null}
use operations_api.Auditing.{
  AppItem, BindingItem, MemberItem, OwnerItem, User, Group, Membership, Ownership, AuditingData,
}

-- `_spliceWhere(arr, pred)`
unfoldable pub splice_where {ℓ} : {A : Type ℓ} → (A → Bool) → List A → List A
splice_where pred xs = filter (λ x. not (pred x)) xs

-- The bindings of all details, in the order of the nested loops.
unfoldable pub bindings_of : List AppItem → List BindingItem
bindings_of details = flat_map (λ (a : AppItem). a.bindings) details

unfoldable pub group_of : BindingItem → Group
group_of b = record {
  dn = b.group_dn;
  sam = text_or b.group_sam b.group_dn;
  type = text_or b.group_type (text "Security");
}

unfoldable pub user_of : MemberItem → User
user_of m = record {
  sam = m.sam_account;
  display = text_or m.display_name m.sam_account;
  email = or_null m.email;
  enabled = get_or m.enabled true;
  manager_sam = or_null m.manager_sam;
}

unfoldable pub stub : Text → Text → Option Text → User
stub sam display email = record {
  sam = sam;
  display = display;
  email = email;
  enabled = true;
  manager_sam = none;
}

-- A stub is added only for a user that is not there.
unfoldable pub add_stub : User → List User → List User
add_stub u users =
    if has_key (λ (x : User). x.sam) u.sam users then users else put (λ (x : User). x.sam) u users

unfoldable pub stub_for : Option Text → List User → List User
unfolding stub add_stub
stub_for none users = users
stub_for (some sam) users = add_stub (stub sam sam none) users

-- Pass 2, for one member.
unfoldable pub manager_stub : MemberItem → List User → List User
unfolding stub_for
manager_stub m users = stub_for (or_null m.manager_sam) users

-- Pass 3, for one owner.
unfoldable pub owner_stub : OwnerItem → List User → List User
unfolding stub add_stub
owner_stub o users =
    add_stub (stub o.owner_sam (text_or o.owner_display_name o.owner_sam) (or_null o.owner_email))
      users

unfoldable pub each {ℓ} : {A S : Type ℓ} → (A → S → S) → List A → S → S
each f [] s = s
each f (x ∷ xs) s = each f xs (f x s)

unfoldable pub membership_of : BindingItem → List Membership
membership_of b =
    map (λ (m : MemberItem). record { group_dn = b.group_dn; sam_account = m.sam_account })
      b.members

unfoldable pub ownership_of : BindingItem → List Ownership
ownership_of b =
    map
      (λ (o : OwnerItem). record {
        group_dn = b.group_dn;
        owner_sam = o.owner_sam;
        owner_display_name = or_null o.owner_display_name;
        owner_email = or_null o.owner_email;
        source = or_null o.source;
      })
      b.owners

-- What the passes start from: all but the groups of the details, or nothing.
unfoldable pub cleared : Bool → List BindingItem → AuditingData → AuditingData
unfolding splice_where
cleared true bs d =
    let dns = map (λ (b : BindingItem). b.group_dn) bs in
    record d {
      groups = splice_where (λ (g : Group). has g.dn dns) d.groups;
      group_memberships = splice_where (λ (m : Membership). has m.group_dn dns) d.group_memberships;
      group_owners = splice_where (λ (o : Ownership). has o.group_dn dns) d.group_owners;
    }
cleared false bs d = record d { groups = []; group_memberships = []; group_owners = []; users = [] }

unfoldable pub rostered : List BindingItem → AuditingData → AuditingData
rostered bs d =
    let members = flat_map (λ (b : BindingItem). b.members) bs in
    let owners = flat_map (λ (b : BindingItem). b.owners) bs in
    record d {
      groups =
          put_all (λ (g : Group). g.dn) (map group_of bs) (map_of (λ (g : Group). g.dn) d.groups);
      group_memberships = d.group_memberships ++ flat_map membership_of bs;
      group_owners = d.group_owners ++ flat_map ownership_of bs;
      users = each owner_stub owners (
          each manager_stub members (
            put_all (λ (u : User). u.sam) (map user_of members)
              (map_of (λ (u : User). u.sam) d.users)));
    }

-- `_applyAdReferenceData(details, merge)`
unfoldable pub apply_ad_reference_data : List AppItem → Bool → AuditingData → AuditingData
unfolding cleared rostered bindings_of
apply_ad_reference_data details merge d =
    rostered (bindings_of details) (cleared merge (bindings_of details) d)
