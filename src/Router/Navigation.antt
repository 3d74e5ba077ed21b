-- ===== src/Router/Navigation.antt =====
-- Going to a page and reading the page off the URL.
use operations_api.Common.{
  inl, inr, ◌≡◌, refl, true, Option, none, some, [], ◌∷◌, ◌++◌, map, Text, All, text_eq,
  text_eq_iff, before, Bool-cases, ap, All-append, All-of-all,
}
use operations_api.Router.{
  Route, health, route_id, routes, is_plain, ascii_lower, Browser, slash_suffix,
  current_route_param, current_route, assign_hash, find_route, goto, or_health, target,
}

-- The part of an id behind its route: nothing, or a slash and a parameter.
abbrev pub suffix : Option Text → Text
suffix none = []
suffix (some p) = b'/' ∷ p

abbrev pub IsPlain : Text → Type 0
IsPlain s = All (λ c. is_plain c ≡ true) s

route_id-IsPlain : (r : Route) → IsPlain (route_id r)
route_id-IsPlain health = All-of-all is_plain (route_id health) refl
route_id-IsPlain r = All-of-all is_plain (route_id r) refl

find_route-suffix :
    (r : Route) (p : Option Text)
    → or_health (find_route (before b'/' (map ascii_lower (route_id r ++ suffix p))) routes) ≡ r
unfolding before text_eq
find_route-suffix health none = refl
find_route-suffix health (some p) = refl
find_route-suffix r none = refl
find_route-suffix r (some p) = refl

slash_suffix-suffix : (r : Route) (p : Option Text) → slash_suffix (route_id r ++ suffix p) ≡ p
unfolding slash_suffix
slash_suffix-suffix health none = refl
slash_suffix-suffix health (some p) = refl
slash_suffix-suffix r none = refl
slash_suffix-suffix r (some p) = refl

target-suffix :
    (r : Route) (p : Option Text) → target (route_id r ++ suffix p) ≡ route_id r ++ suffix p
unfolding before text_eq
target-suffix health none = refl
target-suffix health (some p) = refl
target-suffix r none = refl
target-suffix r (some p) = refl

module _ (B : Browser) where
  open B use {lower, lower_plain, encode_plain}

  assign_hash-suffix :
      (r : Route) (p : Option Text)
      → IsPlain (route_id r ++ suffix p)
      → assign_hash B (route_id r ++ suffix p) ≡ b'#' ∷ (route_id r ++ suffix p)
  unfolding assign_hash
  assign_hash-suffix health p h = ap (λ s. b'#' ∷ s) (encode_plain _ h)
  assign_hash-suffix r p h = ap (λ s. b'#' ∷ s) (encode_plain _ h)

  current_route-suffix :
      (r : Route) (p : Option Text)
      → IsPlain (route_id r ++ suffix p)
      → current_route B (b'#' ∷ (route_id r ++ suffix p)) ≡ r
  unfolding current_route
  current_route-suffix r p h = rw (lower_plain (route_id r ++ suffix p) h) (find_route-suffix r p)

  -- After `goto` with a route's id, alone or with a parameter behind a slash, the URL names that
  -- route and holds that parameter, whatever it was before, if the parameter is plain ASCII.
  pub current_route-goto :
      (r : Route) (p : Option Text) (hash : Text)
      → IsPlain (suffix p)
      → (current_route B (goto B (route_id r ++ suffix p) hash).0 ≡ r)
        × (current_route_param (goto B (route_id r ++ suffix p) hash).0 ≡ p)
  unfolding goto current_route_param
  current_route-goto r p hash h = rw arrived (current_route-suffix r p whole, found)
    where
      whole : IsPlain (route_id r ++ suffix p)
      whole = All-append (λ c. is_plain c ≡ true) (route_id r) (suffix p) (route_id-IsPlain r) h

      arrived : (goto B (route_id r ++ suffix p) hash).0 ≡ b'#' ∷ (route_id r ++ suffix p)
      arrived =
          rw (target-suffix r p)
            (elim (Bool-cases (text_eq hash (b'#' ∷ (route_id r ++ suffix p)))) [
              | inl same ↦ rw same ((text_eq_iff _ _).0 same)
              | inr other ↦ rw other (assign_hash-suffix r p whole)
            ])

      found : current_route_param (b'#' ∷ (route_id r ++ suffix p)) ≡ p
      found = slash_suffix-suffix r p

  -- With an id whose part before the first slash is no route's, `goto` leads to the health page.
  pub goto_unknown :
      (id hash : Text)
      → find_route (before b'/' id) routes ≡ none
      → (current_route B (goto B id hash).0 ≡ health)
        × (current_route_param (goto B id hash).0 ≡ none)
  unfolding goto before text_eq
  goto_unknown id hash h = rw (redirected, goto) (current_route-goto health none hash tt)
    where
      redirected : target id ≡ route_id health ++ suffix none
      redirected = rw (h, target)
