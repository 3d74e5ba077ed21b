-- ===== src/Common/Unique.antt =====
-- Lists of entries with keys that are all different, as the entries of a `Map` are.
use mathlib.Core.Path.{◌≡◌, refl, ◌∙◌, subst}
use mathlib.Core.Logic.{inl, inr}
use mathlib.Core.Bool.{Bool, false, ◌||◌}
use mathlib.Core.List.{List, [], ◌∷◌}
use mathlib.Core.Option.{Option, none, some}
use native.Mathlib.Omega.{arith}
use operations_api.Common.Tests.{if◌then◌else◌, Bool-cases, Option-cases}
use operations_api.Common.Lists.{filter}
use operations_api.Common.Texts.{Text, text_eq, text_eq_iff, text_eq_sym}
use operations_api.Common.Keyed.{
  get_at, has_key, put, put_all, map_of, last_at, get_at-put, get_at-put_all, has_key-get_at,
}

module _ {A : Type 0} (key : A → Text) where
  abbrev pub IsUnique : List A → Type 0
  IsUnique [] = Unit
  IsUnique (x ∷ xs) = (has_key key (key x) xs ≡ false) × IsUnique xs

  pub has_key-put :
      (k : Text) (a : A) (xs : List A)
      → has_key key k (put key a xs) ≡ (text_eq (key a) k || has_key key k xs)
  has_key-put k a xs =
      has_key-get_at key k (put key a xs)
      ∙ rw (get_at-put key k a xs, has_key-get_at key k xs) (ground arith)

  pub put-IsUnique : (a : A) (xs : List A) → IsUnique xs → IsUnique (put key a xs)
  unfolding put
  put-IsUnique a [] h = (refl, tt)
  put-IsUnique a (x ∷ xs) (h, hs) = elim (Bool-cases (text_eq (key x) (key a))) [
    | inl e ↦
        let same : key x ≡ key a = (text_eq_iff (key x) (key a)).0 e in
        rw e (subst (λ k. has_key key k xs ≡ false) same h, hs)
    | inr e ↦ rw e (
      ground (arith, has_key-put (key x) a xs, text_eq_sym (key x) (key a)),
      put-IsUnique a xs hs,
    )
  ]

  pub put_all-IsUnique : (as' xs : List A) → IsUnique xs → IsUnique (put_all key as' xs)
  unfolding put_all
  put_all-IsUnique [] xs h = h
  put_all-IsUnique (a ∷ as') xs h = put_all-IsUnique as' (put key a xs) (put-IsUnique a xs h)

  pub has_key-filter :
      (k : Text) (p : A → Bool) (xs : List A)
      → has_key key k xs ≡ false
      → has_key key k (filter p xs) ≡ false
  has_key-filter k p [] h = refl
  has_key-filter k p (x ∷ xs) h = ground (arith, has_key-filter k p xs)

  pub filter-IsUnique : (p : A → Bool) (xs : List A) → IsUnique xs → IsUnique (filter p xs)
  filter-IsUnique p [] h = tt
  filter-IsUnique p (x ∷ xs) (h, hs) =
      ground (arith, filter-IsUnique p xs hs, has_key-filter (key x) p xs h)

  -- Where the keys are different, the last entry at a key is the first.
  last_at-get_at :
      (k : Text) (xs : List A) (o : Option A)
      → IsUnique xs
      → last_at key k xs o ≡ (elim (get_at key k xs) [ none ↦ o | some a ↦ some a ])
  unfolding last_at
  last_at-get_at k [] o h = refl
  last_at-get_at k (x ∷ xs) o (h, hs) =
      last_at-get_at k xs (if text_eq (key x) k then some x else o) hs
      ∙ elim (Bool-cases (text_eq (key x) k)) [
        | inl e ↦
            let same : key x ≡ k = (text_eq_iff (key x) k).0 e in
            let gone : has_key key k xs ≡ false = subst (λ j. has_key key j xs ≡ false) same h in
            rw e (ground (arith, has_key-get_at key k xs))
        | inr e ↦ ground arith
      ]

  pub get_at-map_of :
      (k : Text) (xs : List A) → IsUnique xs → get_at key k (map_of key xs) ≡ get_at key k xs
  unfolding map_of
  get_at-map_of k xs h =
      get_at-put_all key k xs []
      ∙ (last_at-get_at k xs none h
          ∙ elim (Option-cases (get_at key k xs)) [ inl e ↦ rw e refl | inr (a, e) ↦ rw e refl ])

  pub map_of-IsUnique : (xs : List A) → IsUnique (map_of key xs)
  unfolding map_of
  map_of-IsUnique xs = put_all-IsUnique xs [] tt
