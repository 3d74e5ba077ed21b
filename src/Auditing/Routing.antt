-- ===== src/Auditing/Routing.antt =====
-- frontend/js/auditing-demo-data.js, getUser to getSubjectsByManager: who attests whom when a campaign
-- is routed to the line managers.
pub mod Covered
pub mod Fallback
pub mod Keys
pub mod Whole
use operations_api.Common.{
  ◌==◌, ℕ, Bool, true, false, Option, none, some, List, [], ◌∷◌, ◌++◌, Text, text, text_eq, find,
  filter, if◌then◌else◌, get_at, has_key, put, has,
}
use operations_api.Mappers.{or_null}
use operations_api.Auditing.{User, Membership, Application, AuditingData}
use operations_api.Auditing.Roster.View.{sam_of}

abbrev pub get_user : AuditingData → Text → Option User
get_user d sam = get_at sam_of sam d.users

abbrev pub get_app : AuditingData → ℕ → Option Application
get_app d id = find (λ (a : Application). a.application_id == id) d.applications

-- `.map(m => getUser(m.sam_account)).filter(Boolean)`
unfoldable pub known_users : AuditingData → List Membership → List User
known_users d [] = []
known_users d (m ∷ ms) =
    let rest = known_users d ms in
    elim (get_user d m.sam_account) [ none ↦ rest | some u ↦ u ∷ rest ]

unfoldable pub get_members_of_group : AuditingData → Text → List User
get_members_of_group d dn =
    known_users d (filter (λ (m : Membership). text_eq m.group_dn dn) d.group_memberships)

-- `u.manager_sam`, where there are a user and a name.
unfoldable pub boss_name : Option User → Option Text
boss_name none = none
boss_name (some u) = or_null u.manager_sam

unfoldable pub user_named : AuditingData → Option Text → Option User
user_named d none = none
user_named d (some sam) = get_user d sam

unfoldable pub get_manager_of_user : AuditingData → Text → Option User
get_manager_of_user d sam = user_named d (boss_name (get_user d sam))

-- The inner loop of getAppRoster; `seen` holds the names of the roster.
unfoldable pub add_unseen : List User → List User → List User
add_unseen [] roster = roster
add_unseen (u ∷ us) roster =
    add_unseen us (if has_key sam_of u.sam roster then roster else roster ++ u ∷ [])

unfoldable pub roster_from : AuditingData → List Text → List User → List User
roster_from d [] roster = roster
roster_from d (dn ∷ dns) roster = roster_from d dns (add_unseen (get_members_of_group d dn) roster)

unfoldable pub roster_of : AuditingData → Option Application → List User
roster_of d none = []
roster_of d (some a) = roster_from d a.bindings []

unfoldable pub get_app_roster : AuditingData → ℕ → List User
unfolding roster_of
get_app_roster d id = roster_of d (get_app d id)

-- An entry of the object that getSubjectsByManager builds.
pub record Bucket : Type 0 where
  pub key : Text
  pub manager : Option User
  pub subjects : List User
  pub is_fallback : Bool

abbrev pub key_of : Bucket → Text
key_of g = g.key

unfoldable pub put_subject : User → User → List Bucket → List Bucket
put_subject boss subject [] =
    record { key = boss.sam; manager = some boss; subjects = subject ∷ []; is_fallback = false }
    ∷ []
put_subject boss subject (g ∷ gs) =
    let rest = put_subject boss subject gs in
    if text_eq g.key boss.sam
    then record g { subjects = g.subjects ++ subject ∷ [] } ∷ gs
    else g ∷ rest

-- The groups, and the subjects without a manager.
pub record Routed : Type 0 where
  pub groups : List Bucket
  pub unrouted : List User

-- The properties that every object has: `groups[mgr.sam]` finds one under such a name, which has no
-- `subjects` to push to.
abbrev pub inherited : List Text
inherited =
    text "constructor"
    ∷ text "hasOwnProperty"
    ∷ text "isPrototypeOf"
    ∷ text "propertyIsEnumerable"
    ∷ text "toLocaleString"
    ∷ text "toString"
    ∷ text "valueOf"
    ∷ text "__proto__"
    ∷ text "__defineGetter__"
    ∷ text "__defineSetter__"
    ∷ text "__lookupGetter__"
    ∷ text "__lookupSetter__"
    ∷ []

-- The body of the loop, at a subject and its manager; `none` where it throws.
unfoldable pub place : Option User → User → Routed → Option Routed
place none s r = some (record r { unrouted = r.unrouted ++ s ∷ [] })
place (some boss) s r =
    if has boss.sam inherited
    then none
    else some (record r { groups = put_subject boss s r.groups })

unfoldable pub route_from : AuditingData → List User → Routed → Option Routed
route_from d [] r = some r
route_from d (s ∷ ss) r = elim (place (get_manager_of_user d s.sam) s r) [
  | none ↦ none
  | some r' ↦ route_from d ss r'
]

abbrev pub fallback_prefix : Text
fallback_prefix = text "__fallback__"

unfoldable pub fallback_key : Option User → Text
fallback_key none = fallback_prefix ++ text "none"
fallback_key (some u) = fallback_prefix ++ u.sam

unfoldable pub with_fallback : Option User → List Bucket → List User → List Bucket
with_fallback owner groups [] = groups
with_fallback owner groups (u ∷ us) =
    put key_of
      (record { key = fallback_key owner; manager = owner; subjects = u ∷ us; is_fallback = true })
      groups

unfoldable pub grouped : Option User → Option Routed → Option (List Bucket)
grouped owner none = none
grouped owner (some r) = some (with_fallback owner r.groups r.unrouted)

-- The groups of a roster, of an application if there is one.
unfoldable pub subjects_of : AuditingData → Option Application → List User → Option (List Bucket)
unfolding grouped
subjects_of d none roster = some []
subjects_of d (some a) roster =
    grouped (get_user d a.business_owner)
      (route_from d roster (record { groups = []; unrouted = [] }))

unfoldable pub get_subjects_by_manager : AuditingData → ℕ → Option (List Bucket)
unfolding subjects_of
get_subjects_by_manager d id = subjects_of d (get_app d id) (get_app_roster d id)
