-- ===== src/Auditing/Roster/Stubs.antt =====
-- The stubs of _applyAdReferenceData, as seen by a look-up of a user.
use operations_api.Common.{
  ◌≡◌, refl, ◌∙◌, sym, ap, Option, none, some, List, [], ◌∷◌, Text, text_eq, text_eq_iff,
  if◌then◌else◌, has_key, get_at, get_at-put, has_key-get_at, arith, Bool-cases, inl, inr,
}
use operations_api.Mappers.{text_or, or_null}
use operations_api.Auditing.{MemberItem, OwnerItem, User}
use operations_api.Auditing.Roster.{stub, add_stub, stub_for, manager_stub, owner_stub, each}
use operations_api.Auditing.Roster.View.{sam_of, is_sam, or_else, manager_record, owner_record}

or_else-none {ℓ} : {A : Type ℓ} (o : Option A) → or_else o none ≡ o
or_else-none none = refl
or_else-none (some a) = refl

pub or_else_assoc {ℓ} :
    {A : Type ℓ} (a b c : Option A) → or_else (or_else a b) c ≡ or_else a (or_else b c)
or_else_assoc none b c = refl
or_else_assoc (some x) b c = refl

add_stub-get_at :
    (sam : Text) (u : User) (users : List User)
    → get_at sam_of sam (add_stub u users)
      ≡ or_else (get_at sam_of sam users) (if text_eq u.sam sam then some u else none)
unfolding add_stub
add_stub-get_at sam u users = elim (Bool-cases (text_eq u.sam sam)) [
  | inl e ↦
      let same : u.sam ≡ sam = (text_eq_iff u.sam sam).0 e in
      let known : has_key sam_of u.sam users ≡ has_key sam_of sam users =
        ap (λ (k : Text). has_key sam_of k users) same in
      rw e (ground (arith, get_at-put sam_of sam u users, has_key-get_at sam_of sam users))
  | inr e ↦
      rw (e, or_else-none (get_at sam_of sam users)) (ground (arith, get_at-put sam_of sam u users))
]

pub owner_stubs :
    (sam : Text) (os : List OwnerItem) (users : List User)
    → get_at sam_of sam (each owner_stub os users)
      ≡ or_else (get_at sam_of sam users) (owner_record sam os)
unfolding each owner_stub stub
owner_stubs sam [] users = sym (or_else-none (get_at sam_of sam users))
owner_stubs sam (o ∷ os) users =
    let added =
      add_stub-get_at sam
        (stub o.owner_sam (text_or o.owner_display_name o.owner_sam) (or_null o.owner_email))
        users in
    owner_stubs sam os (owner_stub o users)
    ∙ rw (added, or_else_assoc (get_at sam_of sam users) _ (owner_record sam os)) (ground arith)

stub_for-get_at :
    (sam : Text) (manager : Option Text) (users : List User)
    → get_at sam_of sam (stub_for manager users)
      ≡ or_else
          (get_at sam_of sam users)
          (if is_sam sam manager then some (stub sam sam none) else none)
unfolding stub_for
stub_for-get_at sam none users = sym (or_else-none (get_at sam_of sam users))
stub_for-get_at sam (some s) users =
    add_stub-get_at sam (stub s s none) users ∙ ap (or_else (get_at sam_of sam users)) same
  where
    same :
        (if text_eq s sam then some (stub s s none) else none)
        ≡ (if text_eq s sam then some (stub sam sam none) else none)
    same = elim (Bool-cases (text_eq s sam)) [
      | inl e ↦
          ap (λ (k : Text). if text_eq s sam then some (stub k k none) else none)
            ((text_eq_iff s sam).0 e)
      | inr e ↦ rw e refl
    ]

pub manager_stubs :
    (sam : Text) (ms : List MemberItem) (users : List User)
    → get_at sam_of sam (each manager_stub ms users)
      ≡ or_else (get_at sam_of sam users) (manager_record sam ms)
unfolding each manager_stub
manager_stubs sam [] users = sym (or_else-none (get_at sam_of sam users))
manager_stubs sam (m ∷ ms) users =
    manager_stubs sam ms (manager_stub m users)
    ∙ rw
        (
          stub_for-get_at sam (or_null m.manager_sam) users,
          or_else_assoc (get_at sam_of sam users) _ (manager_record sam ms),
        )
        (ap (or_else (get_at sam_of sam users)) (ground arith))
