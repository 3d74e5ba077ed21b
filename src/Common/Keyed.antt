-- ===== src/Common/Keyed.antt =====
-- A JavaScript `Map` from texts as the list of its entries in the order of insertion, each with the
-- key that a function reads off it.
use mathlib.Core.Path.{◌≡◌, refl, ◌∙◌}
use mathlib.Core.Logic.{inl, inr}
use mathlib.Core.Bool.{Bool, true, false}
use mathlib.Core.List.{List, [], ◌∷◌}
use mathlib.Core.Option.{Option, none, some}
use native.Mathlib.Omega.{arith}
use operations_api.Common.Tests.{if◌then◌else◌, Bool-cases}
use operations_api.Common.Lists.{find, any}
use operations_api.Common.Texts.{Text, text_eq, text_eq_iff}

module _ {A : Type 0} (key : A → Text) where
  -- `map.get(k)` and `map.has(k)`
  abbrev pub get_at : Text → List A → Option A
  get_at k xs = find (λ x. text_eq (key x) k) xs

  abbrev pub has_key : Text → List A → Bool
  has_key k xs = any (λ x. text_eq (key x) k) xs

  -- `map.set(key(a), a)`: the entry at the key is replaced where it stands, or added at the end.
  unfoldable pub put : A → List A → List A
  put a [] = a ∷ []
  put a (x ∷ xs) = let rest = put a xs in if text_eq (key x) (key a) then a ∷ xs else x ∷ rest

  unfoldable pub put_all : List A → List A → List A
  put_all [] xs = xs
  put_all (a ∷ as') xs = put_all as' (put a xs)

  -- `new Map(xs.map(x => [key(x), x]))`
  unfoldable pub map_of : List A → List A
  map_of xs = put_all xs []

  pub get_at-put :
      (k : Text) (a : A) (xs : List A)
      → get_at k (put a xs) ≡ (if text_eq (key a) k then some a else get_at k xs)
  unfolding put
  get_at-put k a [] = refl
  get_at-put k a (x ∷ xs) = elim (Bool-cases (text_eq (key x) (key a))) [
    | inl e ↦
        let same : key x ≡ key a = (text_eq_iff (key x) (key a)).0 e in rw (e, same) (ground arith)
    | inr e ↦ rw e (ground (arith, get_at-put k a xs, collide e))
  ]
    where
      -- Different keys are not both `k`.
      collide :
          text_eq (key x) (key a) ≡ false → text_eq (key x) k ≡ true → text_eq (key a) k ≡ false
      collide e h = elim (Bool-cases (text_eq (key a) k)) [
        | inl g ↦
            let x_k : key x ≡ k = (text_eq_iff (key x) k).0 h in
            let a_k : key a ≡ k = (text_eq_iff (key a) k).0 g in
            let both : text_eq (key x) (key a) ≡ true = (text_eq_iff (key x) (key a)).1 (cc) in
            absurd (ground arith)
        | inr g ↦ g
      ]

  -- The last of the entries at a key, before what was there.
  unfoldable pub last_at : Text → List A → Option A → Option A
  last_at k [] o = o
  last_at k (a ∷ as') o = last_at k as' (if text_eq (key a) k then some a else o)

  pub get_at-put_all :
      (k : Text) (as' xs : List A) → get_at k (put_all as' xs) ≡ last_at k as' (get_at k xs)
  unfolding put_all last_at
  get_at-put_all k [] xs = refl
  get_at-put_all k (a ∷ as') xs = get_at-put_all k as' (put a xs) ∙ rw (get_at-put k a xs) refl

  pub has_key-get_at :
      (k : Text) (xs : List A)
      → has_key k xs ≡ (elim (get_at k xs) [ none ↦ false | some a ↦ true ])
  has_key-get_at k [] = refl
  has_key-get_at k (x ∷ xs) = ground (arith, has_key-get_at k xs)
