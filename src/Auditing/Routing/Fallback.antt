-- ===== src/Auditing/Routing/Fallback.antt =====
-- Where the subjects go whose manager is not known, and the routing as a whole.
use operations_api.Common.{
  ◌+◌, arith, Bool, true, false, Option, none, some, List, [], ◌∷◌, Text, text, ◌≡◌, ◌≢◌, refl, ◌∙◌,
  All, has_key, get_at, put, has, starts_with, text_eq, text_eq_iff, Bool-cases, inl, inr,
  starts_with-append, subst, sym,
}
use operations_api.Auditing.{Application, User, AuditingData}
use operations_api.Auditing.Roster.View.{sam_of}
use operations_api.Auditing.Routing.{
  get_user, get_manager_of_user, Bucket, key_of, fallback_prefix, fallback_key, inherited,
}
use operations_api.Auditing.Routing.Covered.{tally, tally_all, IsLed}

-- No account's name looks like the key of the fallback, or is a property of every object.
abbrev pub HasPlainNames : List User → Type 0
HasPlainNames us =
    All (λ (u : User). (starts_with u.sam fallback_prefix ≡ false) × (has u.sam inherited ≡ false))
      us

pub get_user-prefixed :
    (k : Text) (us : List User)
    → HasPlainNames us
    → starts_with k fallback_prefix ≡ true
    → get_at sam_of k us ≡ none
get_user-prefixed k [] h s = refl
get_user-prefixed k (v ∷ us) ((h, _), hs) s = elim (Bool-cases (text_eq v.sam k)) [
  | inl e ↦
      let same : v.sam ≡ k = (text_eq_iff v.sam k).0 e in
      let bad : starts_with k fallback_prefix ≡ false =
        subst (λ t. starts_with t fallback_prefix ≡ false) same h in
      absurd (ground arith)
  | inr e ↦ rw e (get_user-prefixed k us hs s)
]

pub fallback_key-prefixed : (o : Option User) → starts_with (fallback_key o) fallback_prefix ≡ true
unfolding fallback_key
fallback_key-prefixed none = starts_with-append fallback_prefix (text "none")
fallback_key-prefixed (some u) = starts_with-append fallback_prefix u.sam

pub unkeyed :
    (d : AuditingData) (k : Text) (gs : List Bucket)
    → get_user d k ≡ none
    → All (IsLed d) gs
    → has_key key_of k gs ≡ false
unkeyed d k [] n h = refl
unkeyed d k (g ∷ gs) n (l, ls) = elim (Bool-cases (text_eq g.key k)) [
  | inl e ↦
      let same : g.key ≡ k = (text_eq_iff g.key k).0 e in
      absurd (l.named (sym l.lookup ∙ subst (λ t. get_user d t ≡ none) (sym same) n))
  | inr e ↦ rw e (unkeyed d k gs n ls)
]

pub tally_all-put :
    (p : User → Bool) (b : Bucket) (gs : List Bucket)
    → has_key key_of b.key gs ≡ false
    → tally_all p (put key_of b gs) ≡ tally_all p gs + tally p b.subjects
unfolding put
tally_all-put p b [] h = omega arith
tally_all-put p b (g ∷ gs) h = ground (arith, tally_all-put p b gs)

pub All-put :
    (P : Bucket → Type 0) (b : Bucket) (gs : List Bucket) → P b → All P gs → All P (put key_of b gs)
unfolding put
All-put P b [] h hs = (h, tt)
All-put P b (g ∷ gs) h (l, ls) = elim (Bool-cases (text_eq g.key b.key)) [
  | inl e ↦ rw e (h, ls)
  | inr e ↦ rw e (l, All-put P b gs h ls)
]

-- The business owner, who attests those without a manager.
abbrev pub owner_of : AuditingData → Option Application → Option User
owner_of d none = none
owner_of d (some a) = get_user d a.business_owner

-- A group is the fallback's, of users without a manager, or that of the manager of its users.
abbrev pub IsRight : AuditingData → Option User → Bucket → Type 0
IsRight d owner g = elim g.is_fallback [
  | true ↦
      (g.key ≡ fallback_key owner)
      × (g.manager ≡ owner)
      × All (λ (u : User). get_manager_of_user d u.sam ≡ none) g.subjects
  | false ↦
      (get_user d g.key ≡ g.manager)
      × (g.manager ≢ none)
      × All (λ (u : User). get_manager_of_user d u.sam ≡ g.manager) g.subjects
]

pub led-IsRight :
    (d : AuditingData) (owner : Option User) (gs : List Bucket)
    → All (IsLed d) gs
    → All (IsRight d owner) gs
led-IsRight d owner [] h = tt
led-IsRight d owner (g ∷ gs) (l, ls) =
    (rw l.regular (l.lookup, l.named, l.led), led-IsRight d owner gs ls)
