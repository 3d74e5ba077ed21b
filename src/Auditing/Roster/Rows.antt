-- ===== src/Auditing/Roster/Rows.antt =====
-- The rows of one group before and after _applyAdReferenceData.
use operations_api.Common.{
  ◌≡◌, refl, ◌∙◌, ap, true, false, none, List, [], ◌∷◌, ◌++◌, map, flat_map, Text, filter, has,
  text_eq, text_eq_iff, if◌then◌else◌, get_at, arith, append-nil, Bool-cases, append-nil, inl, inr,
  filter-append,
}
use operations_api.Auditing.{BindingItem, Membership, Ownership}
use operations_api.Auditing.Roster.{splice_where, membership_of, ownership_of}
use operations_api.Auditing.Roster.View.{bound_to, is_bound}

has-eq : (a b : Text) (dns : List Text) → text_eq a b ≡ true → has a dns ≡ has b dns
has-eq a b dns e = ap (λ (k : Text). has k dns) ((text_eq_iff a b).0 e)

-- What `cleared true` leaves of a group.
module _ {A : Type 0} (key : A → Text) (dn : Text) (dns : List Text) where
  kept :
      (xs : List A)
      → filter (λ x. text_eq (key x) dn) (splice_where (λ x. has (key x) dns) xs)
        ≡ (if has dn dns then [] else filter (λ x. text_eq (key x) dn) xs)
  unfolding splice_where
  kept [] = ground arith
  kept (x ∷ xs) = ground (arith, kept xs, has-eq (key x) dn dns)

  pub get_at-kept :
      (xs : List A)
      → get_at key dn (splice_where (λ x. has (key x) dns) xs)
        ≡ (if has dn dns then none else get_at key dn xs)
  unfolding splice_where
  get_at-kept [] = ground arith
  get_at-kept (x ∷ xs) = ground (arith, get_at-kept xs, has-eq (key x) dn dns)

pub has-is_bound :
    (dn : Text) (bs : List BindingItem)
    → has dn (map (λ (b : BindingItem). b.group_dn) bs) ≡ is_bound dn bs
unfolding has
has-is_bound dn [] = refl
has-is_bound dn (b ∷ bs) = ground (arith, has-is_bound dn bs)

-- Rows that all bear one group.
module _ {A B : Type 0} (key : A → Text) (dn : Text) (own : Text) (row : B → A)
    (same : (m : B) → key (row m) ≡ own) where
  of_group :
      (ms : List B)
      → filter (λ x. text_eq (key x) dn) (map row ms) ≡ (if text_eq own dn then map row ms else [])
  of_group [] = ground arith
  of_group (m ∷ ms) = ground (arith, of_group ms, same m)

module _ {A : Type 0} (key : A → Text) (dn : Text) (rows : BindingItem → List A)
    (only : (b : BindingItem)
      → filter (λ x. text_eq (key x) dn) (rows b)
        ≡ (if text_eq b.group_dn dn then rows b else [])) where
  added :
      (bs : List BindingItem)
      → filter (λ x. text_eq (key x) dn) (flat_map rows bs) ≡ flat_map rows (bound_to dn bs)
  unfolding flat_map
  added [] = refl
  added (b ∷ bs) =
      filter-append (λ x. text_eq (key x) dn) (rows b) (flat_map rows bs)
      ∙ rw (only b, added bs) (ground arith)

  unbound : (bs : List BindingItem) → is_bound dn bs ≡ false → flat_map rows (bound_to dn bs) ≡ []
  unfolding flat_map
  unbound [] h = refl
  unbound (b ∷ bs) h = ground (arith, unbound bs)

  -- The rows of a group after a merge, given what was kept of the old ones.
  pub merged :
      (bs : List BindingItem) (old : List A)
      → filter
          (λ x. text_eq (key x) dn)
          (splice_where (λ x. has (key x) (map (λ (b : BindingItem). b.group_dn) bs)) old
            ++ flat_map rows bs)
        ≡ (if is_bound dn bs
            then flat_map rows (bound_to dn bs)
            else filter (λ x. text_eq (key x) dn) old)
  merged bs old =
      let dns = map (λ (b : BindingItem). b.group_dn) bs in
      filter-append (λ x. text_eq (key x) dn) (splice_where (λ x. has (key x) dns) old)
        (flat_map rows bs)
      ∙ rw (kept key dn dns old, added bs, has-is_bound dn bs)
          (elim (Bool-cases (is_bound dn bs)) [
            | inl e ↦ rw e refl
            | inr e ↦ rw (e, unbound bs e) (append-nil _)
          ])

  pub afresh :
      (bs : List BindingItem)
      → filter (λ x. text_eq (key x) dn) (flat_map rows bs)
        ≡ (if is_bound dn bs then flat_map rows (bound_to dn bs) else [])
  afresh bs =
      added bs
      ∙ elim (Bool-cases (is_bound dn bs)) [ inl e ↦ rw e refl | inr e ↦ rw (e, unbound bs e) refl ]

pub membership_rows :
    (dn : Text) (b : BindingItem)
    → filter (λ (m : Membership). text_eq m.group_dn dn) (membership_of b)
      ≡ (if text_eq b.group_dn dn then membership_of b else [])
unfolding membership_of
membership_rows dn b =
    of_group (λ (m : Membership). m.group_dn) dn b.group_dn _ (λ m. refl) b.members

pub ownership_rows :
    (dn : Text) (b : BindingItem)
    → filter (λ (o : Ownership). text_eq o.group_dn dn) (ownership_of b)
      ≡ (if text_eq b.group_dn dn then ownership_of b else [])
unfolding ownership_of
ownership_rows dn b = of_group (λ (o : Ownership). o.group_dn) dn b.group_dn _ (λ o. refl) b.owners
