-- ===== src/Auditing/Routing/Keys.antt =====
-- The keys of the groups are different, and none of them makes the loop throw.
use operations_api.Common.{
  ◌≡◌, refl, sym, subst, arith, false, ◌||◌, Option, none, some, List, [], ◌∷◌, Text, text_eq,
  text_eq_iff, text_eq_sym, has, has_key, get_at, IsUnique, Bool-cases, inl, inr,
}
use operations_api.Auditing.{User, AuditingData}
use operations_api.Auditing.Roster.View.{sam_of}
use operations_api.Auditing.Routing.{
  get_manager_of_user, inherited, Bucket, key_of, put_subject, Routed, place, route_from,
}
use operations_api.Auditing.Routing.Covered.{placed, routed_from, get_user-manager}
use operations_api.Auditing.Routing.Fallback.{HasPlainNames}

has_key-put_subject :
    (k : Text) (boss s : User) (gs : List Bucket)
    → has_key key_of k (put_subject boss s gs) ≡ (text_eq boss.sam k || has_key key_of k gs)
unfolding put_subject
has_key-put_subject k boss s [] = ground arith
has_key-put_subject k boss s (g ∷ gs) = elim (Bool-cases (text_eq g.key boss.sam)) [
  | inl e ↦
      let same : g.key ≡ boss.sam = (text_eq_iff g.key boss.sam).0 e in
      let alike : text_eq g.key k ≡ text_eq boss.sam k =
        subst (λ t. text_eq t k ≡ text_eq boss.sam k) (sym same) refl in
      rw e (ground (arith, alike))
  | inr e ↦ rw e (ground (arith, has_key-put_subject k boss s gs))
]

put_subject-IsUnique :
    (boss s : User) (gs : List Bucket)
    → IsUnique key_of gs
    → IsUnique key_of (put_subject boss s gs)
unfolding put_subject
put_subject-IsUnique boss s [] h = (refl, tt)
put_subject-IsUnique boss s (g ∷ gs) (h, hs) = elim (Bool-cases (text_eq g.key boss.sam)) [
  | inl e ↦ rw e (h, hs)
  | inr e ↦ rw e (
    ground (arith, has_key-put_subject g.key boss s gs, text_eq_sym boss.sam g.key),
    put_subject-IsUnique boss s gs hs,
  )
]

placed-IsUnique :
    (o : Option User) (s : User) (r : Routed)
    → IsUnique key_of r.groups
    → IsUnique key_of (placed o s r).groups
placed-IsUnique none s r h = h
placed-IsUnique (some boss) s r h = put_subject-IsUnique boss s r.groups h

pub routed_from-IsUnique :
    (d : AuditingData) (ss : List User) (r : Routed)
    → IsUnique key_of r.groups
    → IsUnique key_of (routed_from d ss r).groups
routed_from-IsUnique d [] r h = h
routed_from-IsUnique d (s ∷ ss) r h =
    let boss = get_manager_of_user d s.sam in
    routed_from-IsUnique d ss (placed boss s r) (placed-IsUnique boss s r h)

-- Whoever is found has a plain name.
found-plain :
    (k : Text) (us : List User) (u : User)
    → HasPlainNames us
    → get_at sam_of k us ≡ some u
    → has k inherited ≡ false
found-plain k [] u h e = absurd (ground arith)
found-plain k (v ∷ us) u ((_, plain), hs) e = elim (Bool-cases (text_eq v.sam k)) [
  | inl same ↦ subst (λ t. has t inherited ≡ false) ((text_eq_iff v.sam k).0 same) plain
  | inr other ↦ found-plain k us u hs (ground arith)
]

place-placed :
    (d : AuditingData) (o : Option User) (s : User) (r : Routed)
    → HasPlainNames d.users
    → get_manager_of_user d s.sam ≡ o
    → place o s r ≡ some (placed o s r)
unfolding place
place-placed d none s r h e = refl
place-placed d (some boss) s r h e =
    let plain : has boss.sam inherited ≡ false =
      found-plain boss.sam d.users boss h (get_user-manager d s.sam boss e) in
    rw plain refl

-- Among plain names the loop does not throw.
pub route_from-routed_from :
    (d : AuditingData) (ss : List User) (r : Routed)
    → HasPlainNames d.users
    → route_from d ss r ≡ some (routed_from d ss r)
unfolding route_from
route_from-routed_from d [] r h = refl
route_from-routed_from d (s ∷ ss) r h =
    let boss = get_manager_of_user d s.sam in
    rw (route_from, place-placed d boss s r h refl)
      (route_from-routed_from d ss (placed boss s r) h)
