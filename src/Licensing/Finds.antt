-- ===== src/Licensing/Finds.antt =====
-- The licences in memory as a function of the id, and what the changes in memory do to it.
use operations_api.Common.{
  ℕ, ◌≡◌, refl, Option, none, some, List, [], ◌∷◌, ◌++◌, map, arith, In, if◌then◌else◌, ◌==◌,
}
use operations_api.Licensing.{Licence}
use operations_api.Licensing.Fallback.{id_of, change_at, remove_at, find_licence}
use operations_api.Licensing.Ids.{AreDistinct}

abbrev pub changed : (Licence → Licence) → Option Licence → Option Licence
changed f none = none
changed f (some l) = some (f l)

pub find-change_at :
    (id j : ℕ) (f : Licence → Licence) (ls : List Licence)
    → ((l : Licence) → id_of (f l) ≡ id_of l)
    → find_licence j (change_at id f ls)
      ≡ (if id == j then changed f (find_licence j ls) else find_licence j ls)
unfolding find_licence change_at
find-change_at id j f [] h = ground arith
find-change_at id j f (l ∷ ls) h = ground (arith, find-change_at id j f ls h, h l)

pub find-absent : (j : ℕ) (ls : List Licence) → ¬ In j (map id_of ls) → find_licence j ls ≡ none
unfolding find_licence
find-absent j [] h = refl
find-absent j (l ∷ ls) h = ground (arith, find-absent j ls)

pub find-remove_at :
    (id j : ℕ) (ls : List Licence)
    → AreDistinct (map id_of ls)
    → find_licence j (remove_at id ls) ≡ (if id == j then none else find_licence j ls)
unfolding find_licence remove_at
find-remove_at id j [] v = ground arith
find-remove_at id j (l ∷ ls) (w, v) =
    ground (arith, find-remove_at id j ls v, find-absent (id_of l) ls w)

pub find-snoc :
    (j : ℕ) (x : Licence) (ls : List Licence)
    → (¬ In (id_of x) (map id_of ls))
    → find_licence j (ls ++ x ∷ []) ≡ (if id_of x == j then some x else find_licence j ls)
unfolding find_licence
find-snoc j x [] h = refl
find-snoc j x (l ∷ ls) h = ground (arith, find-snoc j x ls)

pub find-id :
    (id : ℕ) (ls : List Licence) (l : Licence) → find_licence id ls ≡ some l → id_of l ≡ id
unfolding find_licence
find-id id [] l h = absurd (cc)
find-id id (x ∷ ls) l h = ground (arith, find-id id ls l, h)
