-- ===== src/Exclusions/Wizard/Selection.antt =====
-- Searching and selecting servers in the wizard's first step.
use operations_api.Common.{
  ◌≡◌, Bool, false, not, List, [], ◌∷◌, none, some, Text, refl, has, In, includes, if◌then◌else◌,
  Bool-cases, ◌||◌, ◌&&◌, inl, inr, ◌↔◌, sym, subst, ◌∙◌, ◌≢◌, Option-cases, All, IsUnique, has_key,
}
use operations_api.Router.{Browser}
use operations_api.Exclusions.{Server}
use operations_api.Exclusions.Wizard.{is_hit, search, visible_selected, names}

-- A server that the search throws at.
abbrev IsFatal : Browser → Text → Server → Type 0
IsFatal B q s = (s.fqdn ≡ none) × (includes (B.lower s.name) q ≡ false)

is_hit-none_iff : (B : Browser) (q : Text) (s : Server) → (is_hit B q s ≡ none) ↔ IsFatal B q s
unfolding is_hit
is_hit-none_iff B q s = elim (Bool-cases (includes (B.lower s.name) q)) [
  | inl found ↦ rw (is_hit, found) (λ h. cc, λ h. cc)
  | inr missed ↦ elim (Option-cases s.fqdn) [
    | inl without ↦ rw (is_hit, missed, without) (λ h. (refl, refl), λ h. refl)
    | inr (f, with_) ↦ rw (is_hit, missed, with_) (λ h. cc, λ h. cc)
  ]
]

cons_found :
    (B : Browser) (q : Text) (s : Server) (ss : List Server) (b : Bool) (found : List Server)
    → is_hit B q s ≡ some b
    → search B q ss ≡ some found
    → search B q (s ∷ ss) ≡ some (if b then s ∷ found else found)
unfolding search
cons_found B q s ss b found h k = rw (search, h, k) refl

some≢none : {A : Type 0} {a : A} → some a ≢ none
some≢none h = cc

-- The search throws if and only if some server of the inventory has no FQDN and a name that does
-- not include the query.
pub search-none_iff :
    (B : Browser) (q : Text) (ss : List Server)
    → (search B q ss ≡ none) ↔ (s : Server) × (In s ss) × IsFatal B q s
unfolding search
search-none_iff B q [] = (λ h. cc, λ (s, h, k). elim h [ ])
search-none_iff B q (s ∷ ss) = elim (Option-cases (is_hit B q s)) [
  | inl fatal ↦ rw (search, fatal) (λ h. (s, inl refl, (is_hit-none_iff B q s).0 fatal), λ h. refl)
  | inr (b, fine) ↦ elim (Option-cases (search B q ss)) [
    | inl below ↦ (
      λ h. let (t, i, f) = (search-none_iff B q ss).0 below in (t, inr i, f),
      λ h. rw (search, fine, below) refl,
    )
    | inr (found, below) ↦ (
      λ h. elim (some≢none (sym (cons_found B q s ss b found fine below) ∙ h)) [ ],
      λ (t, i, f). elim i [
        | inl e ↦
            let fatal : is_hit B q s ≡ none = (is_hit-none_iff B q s).1 (subst (IsFatal B q) e f) in
            cc
        | inr j ↦ let bad = (search-none_iff B q ss).1 (t, j, f) in cc
      ],
    )
  ]
]

abbrev pub name_of : Server → Text
name_of s = s.name

-- The lists of names are without repetition in one another's company.
abbrev Apart : List Server → List Server → Type 0
Apart ss ts = All (λ (s : Server). has_key name_of s.name ts ≡ false) ss

-- What the button over the hits does.
pub record IsToggled (hits before after : List Server) : Type 0 where
  pub names_of :
      (x : Text)
      → has x (names after) ≡ (
          if visible_selected hits before
          then has x (names before) && not (has x (names hits))
          else has x (names before) || has x (names hits))
  pub once : IsUnique name_of after
