-- ===== src/Auditing/Routing/Whole.antt =====
-- The routing of an application as a whole.
use operations_api.Common.{
  ap, put-IsUnique, ℕ, arith, Option, none, some, List, [], ◌∷◌, ◌≡◌, refl, Bool, true, All,
  IsUnique, ◌∙◌,
}
use operations_api.Auditing.{User, AuditingData, Application}
use operations_api.Auditing.Roster.View.{sam_of}
use operations_api.Auditing.Routing.{
  key_of, get_user, get_app, get_app_roster, roster_of, subjects_of, roster_from, Bucket, Routed,
  grouped, fallback_key, with_fallback, get_subjects_by_manager,
}
use operations_api.Auditing.Routing.Covered.{
  tally, tally_all, tally_routed, routed_from, tally_routed-routed_from, IsPlaced,
  routed_from-IsPlaced, roster_from-IsUnique,
}
use operations_api.Auditing.Routing.Keys.{route_from-routed_from, routed_from-IsUnique}
use operations_api.Auditing.Routing.Fallback.{
  HasPlainNames, get_user-prefixed, fallback_key-prefixed, unkeyed, tally_all-put, All-put, IsRight,
  led-IsRight, owner_of,
}

-- Each user of the roster stands in it once and in the groups as often, under the right person.
pub record IsRouted (d : AuditingData) (owner : Option User) (roster : List User)
    (groups : List Bucket) : Type 0 where
  pub once : IsUnique sam_of roster
  pub everyone : (p : User → Bool) → tally_all p groups ≡ tally p roster
  pub apart : IsUnique key_of groups
  pub right : All (IsRight d owner) groups

abbrev unplaced : Routed
unplaced = record { groups = []; unrouted = [] }

with_fallback-IsRouted :
    (d : AuditingData) (owner : Option User) (roster : List User) (groups : List Bucket)
    (left : List User)
    → HasPlainNames d.users
    → IsUnique sam_of roster
    → ((p : User → Bool)
        → tally_routed p (record { groups = groups; unrouted = left }) ≡ tally p roster)
    → IsPlaced d (record { groups = groups; unrouted = left })
    → IsUnique key_of groups
    → IsRouted d owner roster (with_fallback owner groups left)
unfolding with_fallback
with_fallback-IsRouted d owner roster groups [] h u t c a = record {
  once = u;
  everyone = λ p. omega (arith, t p);
  apart = a;
  right = led-IsRight d owner groups c.led;
}
with_fallback-IsRouted d owner roster groups (s ∷ ss) h u t c a =
    let key = fallback_key owner in
    let free : get_user d key ≡ none =
      get_user-prefixed key d.users h (fallback_key-prefixed owner) in
    let b : Bucket = record { key = key; manager = owner; subjects = s ∷ ss; is_fallback = true } in
    record {
      once = u;
      everyone = λ p. tally_all-put p b groups (unkeyed d key groups free c.led) ∙ t p;
      apart = put-IsUnique key_of b groups a;
      right =
          All-put (IsRight d owner) b groups (refl, refl, c.alone)
            (led-IsRight d owner groups c.led);
    }

-- The groups come, and they are right.
abbrev pub Routes : AuditingData → Option User → List User → Option (List Bucket) → Type 0
Routes d owner roster o =
    (groups : List Bucket) × (o ≡ some groups) × IsRouted d owner roster groups

subjects_of-Routes :
    (d : AuditingData) (o : Option Application)
    → HasPlainNames d.users
    → Routes d (owner_of d o) (roster_of d o) (subjects_of d o (roster_of d o))
unfolding roster_of subjects_of grouped
subjects_of-Routes d none h =
    ([], refl, record { once = tt; everyone = λ p. refl; apart = tt; right = tt })
subjects_of-Routes d (some a) h =
    let roster = roster_from d a.bindings [] in
    let owner = get_user d a.business_owner in
    let r = routed_from d roster unplaced in
    (
      with_fallback owner r.groups r.unrouted,
      ap (grouped owner) (route_from-routed_from d roster unplaced h),
      with_fallback-IsRouted d owner roster r.groups r.unrouted h
          (roster_from-IsUnique d a.bindings [] tt)
          (λ p. omega (arith, tally_routed-routed_from p d roster unplaced))
          (routed_from-IsPlaced d roster unplaced (record { led = tt; alone = tt }))
          (routed_from-IsUnique d roster unplaced tt),
    )

-- Where no account's name begins with the fallback's prefix or is a property of every object,
-- getSubjectsByManager does not throw; the users of an application's roster are all different, and the
-- groups hold each of them exactly once: under its manager if that is known, and otherwise in the
-- business owner's group; no two groups have one key, which is the manager's name or the fallback's.
pub get_subjects_by_manager-Routes :
    (d : AuditingData) (id : ℕ)
    → HasPlainNames d.users
    → Routes d (owner_of d (get_app d id)) (get_app_roster d id) (get_subjects_by_manager d id)
unfolding get_subjects_by_manager get_app_roster
get_subjects_by_manager-Routes d id h = subjects_of-Routes d (get_app d id) h
