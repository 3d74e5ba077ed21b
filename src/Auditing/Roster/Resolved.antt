-- ===== src/Auditing/Roster/Resolved.antt =====
-- Whom the look-ups mention, they know: a refresh keeps every member, owner and manager resolvable.
use operations_api.Common.{
  ◌≡◌, ◌≢◌, refl, ◌∙◌, sym, ap, subst, true, Option, none, some, List, map, flat_map, Text, In, any,
  text_eq, text_eq_refl, last_at, Option-cases, inl, inr,
}
use operations_api.Mappers.{or_null}
use operations_api.Auditing.{BindingItem, MemberItem, OwnerItem, User, Membership, Ownership}
use operations_api.Auditing.Roster.{user_of, membership_of, ownership_of}
use operations_api.Auditing.Roster.View.{
  Directory, sam_of, or_else, managed_by, manager_record, owner_record, members_in, owners_in,
  bound_to, is_bound, refresh,
}
use operations_api.Auditing.Roster.Found.{
  or_else-some, or_else-right, last_at-some, last_at-member, last_at-cases, any-of-In, find-of-In,
  manager_record-unmanaged, owner_user-unmanaged, owner_user-some, In-either,
}
use operations_api.Auditing.Roster.Sources.{Source, In-rows}

abbrev pub Knows : Directory → Text → Type 0
Knows D sam = D.user sam ≢ none

pub record IsResolved (D : Directory) : Type 0 where
  pub members : (dn : Text) (m : Membership) → In m (D.members dn) → Knows D m.sam_account
  pub owners : (dn : Text) (o : Ownership) → In o (D.owners dn) → Knows D o.owner_sam
  pub managers :
      (sam boss : Text) (u : User) → D.user sam ≡ some u → u.manager_sam ≡ some boss → Knows D boss

module _ (bs : List BindingItem) (D : Directory) where
  abbrev from_members : Text → Option User
  from_members sam = last_at sam_of sam (map user_of (members_in bs)) (D.user sam)

  abbrev from_stubs : Text → Option User
  from_stubs sam = or_else (manager_record sam (members_in bs)) (owner_record sam (owners_in bs))

  Knows-refresh : (sam : Text) → Knows D sam → Knows (refresh bs D) sam
  unfolding refresh
  Knows-refresh sam h =
      or_else-some (from_members sam) (from_stubs sam)
        (last_at-some sam (map user_of (members_in bs)) (D.user sam) h)

  Knows-member : (m : MemberItem) → In m (members_in bs) → Knows (refresh bs D) m.sam_account
  unfolding refresh
  Knows-member m i =
      or_else-some (from_members m.sam_account) (from_stubs m.sam_account)
        (last_at-member m (members_in bs) (D.user m.sam_account) i)

  Knows-manager :
      (m : MemberItem) (boss : Text)
      → In m (members_in bs)
      → or_null m.manager_sam ≡ some boss
      → Knows (refresh bs D) boss
  unfolding refresh
  Knows-manager m boss i e =
      let managed : managed_by boss m ≡ true = rw e (text_eq_refl boss) in
      let found : any (managed_by boss) (members_in bs) ≡ true =
        any-of-In (managed_by boss) m (members_in bs) i managed in
      or_else-right (from_members boss) (from_stubs boss) (
        or_else-some (manager_record boss (members_in bs)) (owner_record boss (owners_in bs))
          (rw found (λ e. cc)))

  Knows-owner : (o : OwnerItem) → In o (owners_in bs) → Knows (refresh bs D) o.owner_sam
  unfolding refresh
  Knows-owner o i = or_else-right (from_members o.owner_sam) (from_stubs o.owner_sam) (
      or_else-right (manager_record o.owner_sam (members_in bs))
        (owner_record o.owner_sam (owners_in bs))
        (owner_user-some _ (
          find-of-In (λ (p : OwnerItem). text_eq p.owner_sam o.owner_sam) o (owners_in bs) i
            (text_eq_refl o.owner_sam))))

  -- A record without a manager is not asked for one.
  from_stubs-unmanaged : (sam : Text) (u : User) → from_stubs sam ≡ some u → u.manager_sam ≡ none
  from_stubs-unmanaged sam u h = elim (Option-cases (manager_record sam (members_in bs))) [
    | inl e ↦
        owner_user-unmanaged _ u
          (subst (λ r. or_else r (owner_record sam (owners_in bs)) ≡ some u) e h)
    | inr (v, e) ↦
        manager_record-unmanaged sam (members_in bs) u
          (e ∙ subst (λ r. or_else r (owner_record sam (owners_in bs)) ≡ some u) e h)
  ]

  members-known :
      IsResolved D
      → (dn : Text) (m : Membership) → In m ((refresh bs D).members dn)
      → Knows (refresh bs D) m.sam_account
  unfolding refresh membership_of Source
  members-known v dn m i =
      elim (In-either m (is_bound dn bs) (flat_map membership_of (bound_to dn bs)) (D.members dn)
        i) [
          | inl j ↦
              let (x, k, e) =
                In-rows (λ (x : MemberItem). x.sam_account) (λ (r : Membership). r.sam_account)
                  (λ b (x : MemberItem). record {
                    group_dn = b.group_dn;
                    sam_account = x.sam_account;
                  })
                  (λ (b : BindingItem). b.members) (λ b x. refl) dn m bs j in
              subst (Knows (refresh bs D)) (sym e) (Knows-member x k)
          | inr j ↦ Knows-refresh m.sam_account (v.members dn m j)
        ]

  owners-known :
      IsResolved D
      → (dn : Text) (o : Ownership) → In o ((refresh bs D).owners dn)
      → Knows (refresh bs D) o.owner_sam
  unfolding refresh ownership_of Source
  owners-known v dn o i =
      elim (In-either o (is_bound dn bs) (flat_map ownership_of (bound_to dn bs)) (D.owners dn) i) [
        | inl j ↦
            let (x, k, e) =
              In-rows (λ (x : OwnerItem). x.owner_sam) (λ (r : Ownership). r.owner_sam)
                (λ b (o : OwnerItem). record {
                  group_dn = b.group_dn;
                  owner_sam = o.owner_sam;
                  owner_display_name = or_null o.owner_display_name;
                  owner_email = or_null o.owner_email;
                  source = or_null o.source;
                })
                (λ (b : BindingItem). b.owners) (λ b x. refl) dn o bs j in
            subst (Knows (refresh bs D)) (sym e) (Knows-owner x k)
        | inr j ↦ Knows-refresh o.owner_sam (v.owners dn o j)
      ]

  managers-known :
      IsResolved D
      → (sam boss : Text) (u : User) → (refresh bs D).user sam ≡ some u
      → u.manager_sam ≡ some boss
      → Knows (refresh bs D) boss
  unfolding refresh user_of
  managers-known v sam boss u e f = elim (Option-cases (from_members sam)) [
    | inl h ↦
        let g : u.manager_sam ≡ none =
          from_stubs-unmanaged sam u (subst (λ r. or_else r (from_stubs sam) ≡ some u) h e) in
        absurd (cc)
    | inr (w, h) ↦
        let from : from_members sam ≡ some u =
          h ∙ subst (λ r. or_else r (from_stubs sam) ≡ some u) h e in
        elim (last_at-cases sam (members_in bs) (D.user sam) u from) [
          | inl old ↦ Knows-refresh boss (v.managers sam boss u old f)
          | inr (m, i, g) ↦ Knows-manager m boss i (ap (λ (x : User). x.manager_sam) g ∙ f)
        ]
  ]

  -- A refresh with any bindings keeps every mentioned user known.
  pub refresh-IsResolved : IsResolved D → IsResolved (refresh bs D)
  refresh-IsResolved v = record {
    members = members-known v;
    owners = owners-known v;
    managers = managers-known v;
  }
