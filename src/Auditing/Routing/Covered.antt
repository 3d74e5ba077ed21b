-- ===== src/Auditing/Routing/Covered.antt =====
-- Every user of an application's roster is routed to one person, the right one.
use operations_api.Common.{
  ℕ, suc, ◌+◌, arith, Bool, false, Option, none, some, List, [], ◌∷◌, ◌++◌, Text, ◌≡◌, refl, ◌≢◌,
  any-append, text_eq_sym, ◌∙◌, ◌||◌, All, All-append, IsUnique, has_key, get_at, text_eq,
  text_eq_iff, Bool-cases, inl, inr, if◌then◌else◌, subst, sym, ap,
}
use operations_api.Auditing.{User, AuditingData}
use operations_api.Auditing.Roster.View.{sam_of}
use operations_api.Auditing.Routing.{
  get_user, boss_name, user_named, get_manager_of_user, get_members_of_group, add_unseen,
  roster_from, Bucket, put_subject, Routed,
}

-- How many users pass a test.
abbrev pub tally : (User → Bool) → List User → ℕ
tally p [] = 0
tally p (u ∷ us) = let n = tally p us in if p u then suc n else n

-- The same over all subjects of the groups.
abbrev pub tally_all : (User → Bool) → List Bucket → ℕ
tally_all p [] = 0
tally_all p (g ∷ gs) = tally p g.subjects + tally_all p gs

tally-append : (p : User → Bool) (us vs : List User) → tally p (us ++ vs) ≡ tally p us + tally p vs
tally-append p [] vs = omega arith
tally-append p (u ∷ us) vs = ground (arith, tally-append p us vs)

tally_all-put_subject :
    (p : User → Bool) (boss s : User) (gs : List Bucket)
    → tally_all p (put_subject boss s gs) ≡ tally_all p gs + tally p (s ∷ [])
unfolding put_subject
tally_all-put_subject p boss s [] = ground arith
tally_all-put_subject p boss s (g ∷ gs) =
    ground (arith, tally_all-put_subject p boss s gs, tally-append p g.subjects (s ∷ []))

-- All that have been routed or left over.
abbrev pub tally_routed : (User → Bool) → Routed → ℕ
tally_routed p r = tally_all p r.groups + tally p r.unrouted

-- The loop where it does not throw.
abbrev pub placed : Option User → User → Routed → Routed
placed none s r = record r { unrouted = r.unrouted ++ s ∷ [] }
placed (some boss) s r = record r { groups = put_subject boss s r.groups }

abbrev pub routed_from : AuditingData → List User → Routed → Routed
routed_from d [] r = r
routed_from d (s ∷ ss) r = routed_from d ss (placed (get_manager_of_user d s.sam) s r)

tally_routed-placed :
    (p : User → Bool) (o : Option User) (s : User) (r : Routed)
    → tally_routed p (placed o s r) ≡ tally_routed p r + tally p (s ∷ [])
tally_routed-placed p none s r = omega (arith, tally-append p r.unrouted (s ∷ []))
tally_routed-placed p (some boss) s r = omega (arith, tally_all-put_subject p boss s r.groups)

pub tally_routed-routed_from :
    (p : User → Bool) (d : AuditingData) (ss : List User) (r : Routed)
    → tally_routed p (routed_from d ss r) ≡ tally_routed p r + tally p ss
tally_routed-routed_from p d [] r = omega arith
tally_routed-routed_from p d (s ∷ ss) r =
    let boss = get_manager_of_user d s.sam in
    ground
      (arith, tally_routed-routed_from p d ss (placed boss s r), tally_routed-placed p boss s r)

-- A group whose subjects have its manager.
pub record IsLed (d : AuditingData) (g : Bucket) : Type 0 where
  pub regular : g.is_fallback ≡ false
  pub lookup : get_user d g.key ≡ g.manager
  pub named : g.manager ≢ none
  pub led : All (λ (u : User). get_manager_of_user d u.sam ≡ g.manager) g.subjects

abbrev name_of : Option User → Text
name_of none = []
name_of (some u) = u.sam

-- Whoever is found has the name that was looked for.
pub sam-get_user :
    (sam : Text) (us : List User) (u : User) → get_at sam_of sam us ≡ some u → u.sam ≡ sam
sam-get_user sam [] u e = absurd (ground arith)
sam-get_user sam (v ∷ us) u e = ground (
  arith,
  sam-get_user sam us u,
  text_eq_iff v.sam sam,
  λ (same : some v ≡ some u). ap name_of same,
)

-- A manager is found under its own name.
get_user-named :
    (d : AuditingData) (o : Option Text) (boss : User)
    → user_named d o ≡ some boss
    → get_user d boss.sam ≡ some boss
unfolding user_named
get_user-named d none boss e = absurd (ground arith)
get_user-named d (some name) boss e =
    subst (λ n. get_user d n ≡ some boss) (sym (sam-get_user name d.users boss e)) e

pub get_user-manager :
    (d : AuditingData) (sam : Text) (boss : User)
    → get_manager_of_user d sam ≡ some boss
    → get_user d boss.sam ≡ some boss
unfolding get_manager_of_user
get_user-manager d sam boss e = get_user-named d (boss_name (get_user d sam)) boss e

put_subject-IsLed :
    (d : AuditingData) (boss s : User) (gs : List Bucket)
    → get_manager_of_user d s.sam ≡ some boss
    → All (IsLed d) gs
    → All (IsLed d) (put_subject boss s gs)
unfolding put_subject
put_subject-IsLed d boss s [] e h = (
  record {
    regular = refl;
    lookup = get_user-manager d s.sam boss e;
    named = λ n. absurd (ground arith);
    led = (e, tt);
  },
  tt,
)
put_subject-IsLed d boss s (g ∷ gs) e (l, ls) = elim (Bool-cases (text_eq g.key boss.sam)) [
  | inl k ↦
      let same : g.key ≡ boss.sam = (text_eq_iff g.key boss.sam).0 k in
      let here : get_user d g.key ≡ some boss =
        subst (λ n. get_user d n ≡ some boss) (sym same) (get_user-manager d s.sam boss e) in
      let own : get_manager_of_user d s.sam ≡ g.manager = e ∙ sym here ∙ l.lookup in
      rw k (
        record {
          regular = l.regular;
          lookup = l.lookup;
          named = l.named;
          led =
              All-append (λ (u : User). get_manager_of_user d u.sam ≡ g.manager) g.subjects (s ∷ [])
                l.led (own, tt);
        },
        ls,
      )
  | inr k ↦ rw k (l, put_subject-IsLed d boss s gs e ls)
]

-- Groups that have their managers, and subjects left over that have none.
pub record IsPlaced (d : AuditingData) (r : Routed) : Type 0 where
  pub led : All (IsLed d) r.groups
  pub alone : All (λ (u : User). get_manager_of_user d u.sam ≡ none) r.unrouted

placed-IsPlaced :
    (d : AuditingData) (o : Option User) (s : User) (r : Routed)
    → get_manager_of_user d s.sam ≡ o
    → IsPlaced d r
    → IsPlaced d (placed o s r)
placed-IsPlaced d none s r e h = record {
  led = h.led;
  alone =
      All-append (λ (u : User). get_manager_of_user d u.sam ≡ none) r.unrouted (s ∷ []) h.alone
        (e, tt);
}
placed-IsPlaced d (some boss) s r e h = record {
  led = put_subject-IsLed d boss s r.groups e h.led;
  alone = h.alone;
}

pub routed_from-IsPlaced :
    (d : AuditingData) (ss : List User) (r : Routed)
    → IsPlaced d r
    → IsPlaced d (routed_from d ss r)
routed_from-IsPlaced d [] r h = h
routed_from-IsPlaced d (s ∷ ss) r h =
    let boss = get_manager_of_user d s.sam in
    routed_from-IsPlaced d ss (placed boss s r) (placed-IsPlaced d boss s r refl h)

has_key-snoc :
    (k : Text) (us : List User) (u : User)
    → has_key sam_of k (us ++ u ∷ []) ≡ (has_key sam_of k us || text_eq u.sam k)
has_key-snoc k us u = any-append (λ (v : User). text_eq v.sam k) us (u ∷ []) ∙ ground arith

append-IsUnique :
    (us : List User) (u : User)
    → has_key sam_of u.sam us ≡ false
    → IsUnique sam_of us
    → IsUnique sam_of (us ++ u ∷ [])
append-IsUnique [] u n h = (refl, tt)
append-IsUnique (v ∷ us) u n (h, hs) = (
  ground (arith, has_key-snoc v.sam us u, text_eq_sym u.sam v.sam),
  append-IsUnique us u (ground arith) hs,
)

add_unseen-IsUnique :
    (us roster : List User) → IsUnique sam_of roster → IsUnique sam_of (add_unseen us roster)
unfolding add_unseen
add_unseen-IsUnique [] roster h = h
add_unseen-IsUnique (u ∷ us) roster h =
    add_unseen-IsUnique us (if has_key sam_of u.sam roster then roster else roster ++ u ∷ [])
      (elim (Bool-cases (has_key sam_of u.sam roster)) [
        | inl e ↦ rw e h
        | inr e ↦ rw e (append-IsUnique roster u e h)
      ])

pub roster_from-IsUnique :
    (d : AuditingData) (dns : List Text) (roster : List User)
    → IsUnique sam_of roster
    → IsUnique sam_of (roster_from d dns roster)
unfolding roster_from
roster_from-IsUnique d [] roster h = h
roster_from-IsUnique d (dn ∷ dns) roster h =
    roster_from-IsUnique d dns (add_unseen (get_members_of_group d dn) roster)
      (add_unseen-IsUnique (get_members_of_group d dn) roster h)
