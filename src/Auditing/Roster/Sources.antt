-- ===== src/Auditing/Roster/Sources.antt =====
-- The rows that a refresh adds come from the items of the bindings.
use operations_api.Common.{
  ◌≡◌, refl, ◌∙◌, ap, Bool, true, false, List, [], ◌∷◌, map, flat_map, Text, In, In-append, text_eq,
  inl, inr, if◌then◌else◌,
}
use operations_api.Auditing.{BindingItem}
use operations_api.Auditing.Roster.View.{bound_to}

-- The rows of a group come from the bindings' items.
module _ {A B : Type 0} (name : B → Text) (key : A → Text) (row : BindingItem → B → A)
    (items : BindingItem → List B)
    (named : (b : BindingItem) (x : B) → key (row b x) ≡ name x) where
  In-row :
      (b : BindingItem) (a : A) (xs : List B)
      → In a (map (row b) xs)
      → (x : B) × In x xs × (key a ≡ name x)
  In-row b a [] i = elim i [ ]
  In-row b a (x ∷ xs) (inl e) = (x, inl refl, ap key e ∙ named b x)
  In-row b a (x ∷ xs) (inr i) = let (y, j, e) = In-row b a xs i in (y, inr j, e)

  unfoldable pub Source : A → List BindingItem → Type 0
  Source a bs = (x : B) × In x (flat_map items bs) × (key a ≡ name x)

  Source-later : (a : A) (b : BindingItem) (bs : List BindingItem) → Source a bs → Source a (b ∷ bs)
  unfolding Source flat_map
  Source-later a b bs (x, i, e) = (x, (In-append x (items b) (flat_map items bs)).1 (inr i), e)

  In-first :
      (t : Bool) (a : A) (b : BindingItem) (cs bs : List BindingItem)
      → (In a (flat_map (λ b. map (row b) (items b)) cs) → Source a bs)
      → In a (flat_map (λ b. map (row b) (items b)) (if t then b ∷ cs else cs))
      → Source a (b ∷ bs)
  unfolding flat_map Source
  In-first true a b cs bs rest i =
      elim ((In-append a (map (row b) (items b)) (flat_map (λ b. map (row b) (items b)) cs)).0 i) [
        | inl j ↦
            let (x, k, e) = In-row b a (items b) j in
            (x, (In-append x (items b) (flat_map items bs)).1 (inl k), e)
        | inr j ↦ Source-later a b bs (rest j)
      ]
  In-first false a b cs bs rest i = Source-later a b bs (rest i)

  pub In-rows :
      (dn : Text) (a : A) (bs : List BindingItem)
      → In a (flat_map (λ b. map (row b) (items b)) (bound_to dn bs))
      → Source a bs
  unfolding flat_map
  In-rows dn a [] i = elim i [ ]
  In-rows dn a (b ∷ bs) i =
      In-first (text_eq b.group_dn dn) a b (bound_to dn bs) bs (In-rows dn a bs) i
