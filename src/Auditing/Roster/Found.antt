-- ===== src/Auditing/Roster/Found.antt =====
-- Which record a look-up of the directory finds.
use operations_api.Common.{
  ◌≡◌, ◌≢◌, ◌⊎◌, refl, sym, ap, subst, Bool, true, false, Option, none, some, List, [], ◌∷◌, map,
  Text, In, any, text_eq, text_eq_iff, last_at, arith, Bool-cases, inl, inr, if◌then◌else◌, find,
}
use operations_api.Auditing.{MemberItem, OwnerItem, User}
use operations_api.Auditing.Roster.{user_of, stub}
use operations_api.Auditing.Roster.View.{sam_of, or_else, manager_record, owner_user}

pub or_else-some {ℓ} : {A : Type ℓ} (a b : Option A) → a ≢ none → or_else a b ≢ none
or_else-some none b h = absurd (h refl)
or_else-some (some x) b h = h

pub or_else-right {ℓ} : {A : Type ℓ} (a b : Option A) → b ≢ none → or_else a b ≢ none
or_else-right none b h = h
or_else-right (some x) b h = λ e. cc

pub last_at-some :
    (sam : Text) (us : List User) (o : Option User) → o ≢ none → last_at sam_of sam us o ≢ none
unfolding last_at
last_at-some sam [] o h = h
last_at-some sam (u ∷ us) o h = last_at-some sam us _ (ground arith)

-- A member of the refreshed bindings has a record.
pub last_at-member :
    (m : MemberItem) (ms : List MemberItem) (o : Option User)
    → In m ms
    → last_at sam_of m.sam_account (map user_of ms) o ≢ none
unfolding last_at user_of
last_at-member m [] o i = elim i [ ]
last_at-member m (n ∷ ms) o (inl e) =
    let same : text_eq n.sam_account m.sam_account ≡ true =
      (text_eq_iff n.sam_account m.sam_account).1
        (ap (λ (x : MemberItem). x.sam_account) (sym e)) in
    last_at-some m.sam_account (map user_of ms) _ (rw same (λ e. cc))
last_at-member m (n ∷ ms) o (inr i) = last_at-member m ms _ i

-- The record that a look-up finds is a member's or was there.
pub last_at-cases :
    (sam : Text) (ms : List MemberItem) (o : Option User) (u : User)
    → last_at sam_of sam (map user_of ms) o ≡ some u
    → (o ≡ some u) ⊎ ((m : MemberItem) × In m ms × (user_of m ≡ u))
unfolding last_at user_of
last_at-cases sam [] o u h = inl h
last_at-cases sam (m ∷ ms) o u h =
    elim (last_at-cases sam ms (if text_eq m.sam_account sam then some (user_of m) else o) u h) [
      | inl e ↦ elim (Bool-cases (text_eq m.sam_account sam)) [
        | inl t ↦ inr (m, inl refl, ground arith)
        | inr f ↦ inl (ground arith)
      ]
      | inr (n, i, e) ↦ inr (n, inr i, e)
    ]

pub any-of-In :
    {A : Type 0} (p : A → Bool) (x : A) (xs : List A) → In x xs → p x ≡ true → any p xs ≡ true
any-of-In p x [] i h = elim i [ ]
any-of-In p x (y ∷ ys) (inl e) h = let e' : p y ≡ true = subst (λ z. p z ≡ true) e h in rw e' refl
any-of-In p x (y ∷ ys) (inr i) h = let e : any p ys ≡ true = any-of-In p x ys i h in ground arith

pub find-of-In :
    {A : Type 0} (p : A → Bool) (x : A) (xs : List A) → In x xs → p x ≡ true → find p xs ≢ none
find-of-In p x [] i h = elim i [ ]
find-of-In p x (y ∷ ys) (inl e) h =
    let e' : p y ≡ true = subst (λ z. p z ≡ true) e h in rw e' (λ e. cc)
find-of-In p x (y ∷ ys) (inr i) h = let r = find-of-In p x ys i h in ground arith

pub manager_record-unmanaged :
    (sam : Text) (ms : List MemberItem) (u : User)
    → manager_record sam ms ≡ some u
    → u.manager_sam ≡ none
unfolding stub
manager_record-unmanaged sam ms u h = ground arith

pub owner_user-unmanaged :
    (o : Option OwnerItem) (u : User) → owner_user o ≡ some u → u.manager_sam ≡ none
unfolding stub
owner_user-unmanaged none u h = cc
owner_user-unmanaged (some o) u h = ground arith

pub owner_user-some : (o : Option OwnerItem) → o ≢ none → owner_user o ≢ none
owner_user-some none h = absurd (h refl)
owner_user-some (some o) h = λ e. cc

pub In-either :
    {A : Type 0} (a : A) (t : Bool) (xs ys : List A)
    → In a (if t then xs else ys)
    → In a xs ⊎ In a ys
In-either a true xs ys i = inl i
In-either a false xs ys i = inr i
