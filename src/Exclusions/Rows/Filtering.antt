-- ===== src/Exclusions/Rows/Filtering.antt =====
-- What the exclusions page shows.
use operations_api.Common.{
  ◌≡◌, true, false, some, List, [], ◌∷◌, Text, text, text_eq, text_eq_iff, filter, trim, any,
  includes, subst, length, refl, arith, In, In-filter, ◌↔◌, ◌⊎◌, inl, inr, Bool-cases, ◌≢◌, sym,
  ◌∙◌, All,
}
use mathlib.Core.Bool.{true≢false}
use operations_api.Router.{Browser}
use operations_api.Tables.{compare_by, sort}
use operations_api.Tables.Cells.{text_lt}
use operations_api.Tables.Sort.{In-sort}
use operations_api.Exclusions.Rows.{
  Row, Item, View, cell, mentions, in_state, searched, filtered_exclusions, renewals, excl_count,
  map_exclusions, map_exclusion,
}

abbrev pub lower_query : Browser → View → Text
lower_query B v = B.lower (trim v.q)

In-in_state :
    (state : Text) (rows : List Row) (r : Row)
    → In r (in_state state rows) ↔ (In r rows × ((state ≡ text "__all") ⊎ (r.state ≡ state)))
unfolding in_state
In-in_state state rows r = elim (Bool-cases (text_eq state (text "__all"))) [
  | inl every ↦ rw every (λ h. (h, inl ((text_eq_iff state (text "__all")).0 every)), λ (h, _). h)
  | inr one ↦
      let other : state ≢ text "__all" = λ e. true≢false (sym ((text_eq_iff _ _).1 e) ∙ one) in
      let chosen = In-filter (λ (x : Row). text_eq x.state state) r rows in
      let same = text_eq_iff r.state state in rw one ground (arith, chosen, same, other)
]

In-searched :
    (B : Browser) (q : Text) (rows : List Row) (r : Row)
    → In r (searched B q rows) ↔ (In r rows × ((q ≡ []) ⊎ (mentions B q r ≡ true)))
unfolding searched
In-searched B [] rows r = (λ h. (h, inl refl), λ (h, _). h)
In-searched B (c ∷ q) rows r = ground (arith, In-filter (mentions B (c ∷ q)) r rows)

-- The texts of a row that the search looks in.
abbrev pub searched_texts : Row → List Text
searched_texts r =
    r.server ∷ r.service ∷ r.func ∷ r.reason ∷ r.requester ∷ r.group ∷ r.bu ∷ r.id ∷ []

-- One of the texts includes the query.
abbrev pub IsFoundIn : Browser → Text → List Text → Type 0
IsFoundIn B q ts = (t : Text) × In t ts × (includes (B.lower t) q ≡ true)

any-IsFoundIn :
    (B : Browser) (q : Text) (ts : List Text)
    → (any (λ t. includes (B.lower t) q) ts ≡ true) ↔ IsFoundIn B q ts
any-IsFoundIn B q [] = (λ h. cc, λ (t, i, h). elim i [ ])
any-IsFoundIn B q (u ∷ us) = (
  λ h. elim (Bool-cases (includes (B.lower u) q)) [
    | inl e ↦ (u, inl refl, e)
    | inr e ↦ let (t, i, k) = (any-IsFoundIn B q us).0 (ground arith) in (t, inr i, k)
  ],
  λ (t, i, k). elim i [
    | inl e ↦
        let here : includes (B.lower u) q ≡ true = subst (λ x. includes (B.lower x) q ≡ true) e k in
        ground arith
    | inr l ↦ let below = (any-IsFoundIn B q us).1 (t, l, k) in ground arith
  ],
)

mentions-IsFoundIn :
    (B : Browser) (q : Text) (r : Row) → (mentions B q r ≡ true) ↔ IsFoundIn B q (searched_texts r)
unfolding mentions
mentions-IsFoundIn B q r =
    let found = any-IsFoundIn B q (searched_texts r) in
    (λ h. found.0 (ground arith), λ h. let k = found.1 h in ground arith)

-- A row is shown if and only if the view's state is all or its own, and the query is empty or in
-- one of the row's texts.
pub In-filtered_exclusions :
    (B : Browser) (v : View) (rows : List Row) (r : Row)
    → In r (filtered_exclusions B v rows) ↔ (
        In r rows
        × ((v.state_filter ≡ text "__all") ⊎ (r.state ≡ v.state_filter))
        × ((lower_query B v ≡ []) ⊎ IsFoundIn B (lower_query B v) (searched_texts r)))
unfolding filtered_exclusions
In-filtered_exclusions B v rows r =
    let order =
      In-sort (compare_by (λ (a b : Row). text_lt (cell v.sort a) (cell v.sort b)) v.ascending) r
        (searched B (lower_query B v) (in_state v.state_filter rows)) in
    let found = In-searched B (lower_query B v) (in_state v.state_filter rows) r in
    let chosen = In-in_state v.state_filter rows r in
    let text = mentions-IsFoundIn B (lower_query B v) r in
    (
      λ h.
          let (i, m) = found.0 (order.0 h) in
          let (j, s) = chosen.0 i in (j, s, elim m [ inl e ↦ inl e | inr k ↦ inr (text.0 k) ]),
      λ (j, s, m).
          order.1 (found.1 (chosen.1 (j, s), elim m [ inl e ↦ inl e | inr k ↦ inr (text.1 k) ])),
    )

-- The statuses that the server gives a row.
abbrev IsServerStatus : Item → Type 0
IsServerStatus x =
    (x.status ≡ some (text "overdue"))
    ⊎ (x.status ≡ some (text "expiring"))
    ⊎ (x.status ≡ some (text "active"))

not_expiring_soon :
    (f : Text → Text) (x : Item)
    → IsServerStatus x
    → text_eq (map_exclusion f x).state (text "expiring-soon") ≡ false
unfolding map_exclusion text_eq
not_expiring_soon f x (inl h) = rw h refl
not_expiring_soon f x (inr (inl h)) = rw h refl
not_expiring_soon f x (inr (inr h)) = rw h refl

filter-none :
    (f : Text → Text) (xs : List Item)
    → All IsServerStatus xs
    → filter (λ (r : Row). text_eq r.state (text "expiring-soon")) (map_exclusions f xs) ≡ []
unfolding map_exclusions
filter-none f [] h = refl
filter-none f (x ∷ xs) (h, hs) = rw (not_expiring_soon f x h) (filter-none f xs hs)

none_left :
    (f : Text → Text) (xs : List Item) {state : Text}
    → All IsServerStatus xs
    → state ≡ text "expiring-soon"
    → in_state state (map_exclusions f xs) ≡ []
unfolding in_state text_eq
none_left f xs h e = rw e (filter-none f xs h)

searched-nil : (B : Browser) (q : Text) → searched B q [] ≡ []
unfolding searched
searched-nil B [] = refl
searched-nil B (c ∷ q) = refl

filtered-nil :
    (B : Browser) (v : View) (rows : List Row)
    → in_state v.state_filter rows ≡ []
    → filtered_exclusions B v rows ≡ []
unfolding filtered_exclusions sort
filtered-nil B v rows h = rw (h, searched-nil B (lower_query B v)) refl

-- Of rows that have the server's statuses, the renewals page shows none as expiring within 7 days,
-- and the table shows none under the filter for those.
pub expiring-never_shown :
    (B : Browser) (f : Text → Text) (v : View) (xs : List Item)
    → All IsServerStatus xs
    → v.state_filter ≡ text "expiring-soon"
    → ((renewals (map_exclusions f xs)).1 ≡ [])
      × (filtered_exclusions B v (map_exclusions f xs) ≡ [])
unfolding renewals
expiring-never_shown B f v xs h e = (filter-none f xs h, filtered-nil B v _ (none_left f xs h e))

count_lem :
    (state : Text) (rows : List Row)
    → length (filter (λ (r : Row). text_eq r.state state) rows) ≡ excl_count state rows
unfolding excl_count
count_lem state [] = refl
count_lem state (r ∷ rs) = ground (arith, count_lem state rs)

-- The number that the page shows for a state, not for all of them, is the number of rows that its filter leaves.
pub excl_count-in_state :
    (state : Text) (rows : List Row)
    → state ≢ text "__all"
    → length (in_state state rows) ≡ excl_count state rows
unfolding in_state
excl_count-in_state state rows h =
    let one : text_eq state (text "__all") ≡ false =
      ground (arith, text_eq_iff state (text "__all")) in
    rw one (count_lem state rows)
