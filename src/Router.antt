-- ===== src/Router.antt =====
-- frontend/js/op-pages.js, ROUTER: the page that the URL's fragment names.
pub mod Navigation
pub mod Tests
use operations_api.Common.{
  ℕ, ◌+◌, ◌<◌, ◌≡◌, Bool, true, false, not, ◌&&◌, ◌||◌, Option, none, some, List, [], ◌∷◌, map,
  Text, text, ltb, leb, ◌==◌, if◌then◌else◌, find, any, All, text_eq, before, or_text,
}

pub data Route : Type 0 where
  health servers patching patchmgmt certs eol disks licensing auditing : Route

abbrev pub route_id : Route → Text
route_id health = text "health"
route_id servers = text "servers"
route_id patching = text "patching"
route_id patchmgmt = text "patchmgmt"
route_id certs = text "certs"
route_id eol = text "eol"
route_id disks = text "disks"
route_id licensing = text "licensing"
route_id auditing = text "auditing"

abbrev pub routes : List Route
routes = health ∷ servers ∷ patching ∷ patchmgmt ∷ certs ∷ eol ∷ disks ∷ licensing ∷ auditing ∷ []

abbrev pub ascii_lower : ℕ → ℕ
ascii_lower c = if leb b'A' c && leb c b'Z' then c + 32 else c

-- A code unit that a URL's fragment keeps as it is: ASCII, above the space, and none of `"<>` and
-- the backquote.
abbrev pub is_plain : ℕ → Bool
is_plain c =
    leb 33 c && ltb c 127 && not (c == 34) && not (c == 60) && not (c == 62) && not (c == 96)

-- What the browser does: `toLowerCase`, and the encoding of a fragment that is assigned to
-- `location.hash`. Of each only what it does to plain ASCII text is relied on.
pub record Browser : Type 0 where
  pub lower : Text → Text
  pub lower_plain : (s : Text) → All (λ c. is_plain c ≡ true) s → lower s ≡ map ascii_lower s
  pub encode : Text → Text
  pub encode_plain : (s : Text) → All (λ c. is_plain c ≡ true) s → encode s ≡ s

-- `raw.replace(/^#/, '')`
abbrev strip_hash : Text → Text
strip_hash [] = []
strip_hash (c ∷ s) = if c == b'#' then s else c ∷ s

-- `ROUTES.find(r => r.id === base)`
abbrev find_route : Text → List Route → Option Route
find_route base [] = none
find_route base (r ∷ rs) = if text_eq (route_id r) base then some r else find_route base rs

abbrev or_health : Option Route → Route
or_health none = health
or_health (some r) = r

-- `idx >= 0 ? raw.slice(idx + 1) : null` for the first slash.
slash_suffix : Text → Option Text
slash_suffix [] = none
slash_suffix (c ∷ s) = if c == b'/' then some s else slash_suffix s

unfoldable pub current_route_param : Text → Option Text
unfolding slash_suffix
current_route_param hash = slash_suffix (strip_hash hash)

-- `if (!ROUTES.find(r => r.id === base)) id = 'health'`
abbrev target : Text → Text
target id = elim (find_route (before b'/' id) routes) [ none ↦ text "health" | some r ↦ id ]

module _ (B : Browser) where
  open B use {lower, encode}

  unfoldable pub current_route : Text → Route
  current_route hash =
      or_health
        (find_route (before b'/' (lower (strip_hash (or_text hash (text "#health"))))) routes)

  -- `location.hash` as it reads after an assignment of `'#' + id`; an empty fragment reads as "".
  assign_hash : Text → Text
  assign_hash [] = []
  assign_hash (c ∷ s) = b'#' ∷ encode (c ∷ s)

  -- `goto(id)`: the new hash, and whether a `hashchange` was dispatched by hand.
  unfoldable pub goto : Text → Text → Text × Bool
  unfolding assign_hash
  goto id hash =
      if text_eq hash (b'#' ∷ target id) then (hash, true) else (assign_hash (target id), false)
