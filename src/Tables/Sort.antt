-- ===== src/Tables/Sort.antt =====
-- Sorting a table: the rows stay the same, they end in order, and rows that tie keep their order,
-- for a comparator that is consistent.
use mathlib.Core.List.{Perm}
use mathlib.Core.List.Perm
use operations_api.Common.{
  ◌≡◌, refl, ◌∙◌, ◌≢◌, ◌↔◌, ◌⊎◌, inl, inr, Bool, true, false, List, [], ◌∷◌, arith, filter, In,
  Bool-cases, All, suc, ap, length,
}
use operations_api.Tables.{Sign, neg, nil, pos, compare_by, goes_first, insert, sort}

-- What the language asks of a comparator: it is antisymmetric, and "not after" is transitive.
pub record IsConsistent {A : Type 0} (cmp : A → A → Sign) : Type 0 where
  pub anti : (a b : A) → cmp a b ≡ pos → cmp b a ≡ neg
  pub trans : (a b c : A) → cmp a b ≢ pos → cmp b c ≢ pos → cmp a c ≢ pos

module _ {A : Type 0} (cmp : A → A → Sign) where
  insert-perm : (a : A) (bs : List A) → Perm (insert cmp a bs) (a ∷ bs)
  unfolding insert
  insert-perm a [] = Perm.refl (a ∷ [])
  insert-perm a (b ∷ bs) = elim (Bool-cases (goes_first cmp a b)) [
    | inl e ↦ rw e (Perm.refl _)
    | inr e ↦ rw e (Perm.trans (Perm.cons b (insert-perm a bs)) (Perm.swap a b bs))
  ]

  -- No row is lost or made up, whatever the comparator.
  pub sort-perm : (xs : List A) → Perm (sort cmp xs) xs
  unfolding sort
  sort-perm [] = Perm.refl []
  sort-perm (a ∷ as') = Perm.trans (insert-perm a (sort cmp as')) (Perm.cons a (sort-perm as'))

  length-insert : (a : A) (bs : List A) → length (insert cmp a bs) ≡ suc (length bs)
  unfolding insert
  length-insert a [] = refl
  length-insert a (b ∷ bs) = ground (arith, length-insert a bs)

  pub length-sort : (xs : List A) → length (sort cmp xs) ≡ length xs
  unfolding sort
  length-sort [] = refl
  length-sort (a ∷ as') = length-insert a (sort cmp as') ∙ ap suc (length-sort as')

  In-insert : (x a : A) (bs : List A) → In x (insert cmp a bs) ↔ ((x ≡ a) ⊎ In x bs)
  unfolding insert
  In-insert x a [] = (λ h. h, λ h. h)
  In-insert x a (b ∷ bs) = ground (arith, In-insert x a bs)

  pub In-sort : (x : A) (xs : List A) → In x (sort cmp xs) ↔ In x xs
  unfolding sort
  In-sort x [] = (λ h. h, λ h. h)
  In-sort x (a ∷ as') = ground (arith, In-insert x a (sort cmp as'), In-sort x as')

  -- Each row comes after none that follows it.
  abbrev pub IsSorted : List A → Type 0
  IsSorted [] = Unit
  IsSorted (a ∷ as') = All (λ b. cmp a b ≢ pos) as' × IsSorted as'

  All-insert : (P : A → Type 0) (a : A) (bs : List A) → P a → All P bs → All P (insert cmp a bs)
  unfolding insert
  All-insert P a [] p h = (p, tt)
  All-insert P a (b ∷ bs) p (q, h) = ground (arith, All-insert P a bs p h)

  goes_first-ne-pos : (a b : A) → goes_first cmp a b ≡ true → cmp a b ≢ pos
  unfolding goes_first
  goes_first-ne-pos a b h = ground arith

  goes_first-eq-pos : (a b : A) → goes_first cmp a b ≡ false → cmp a b ≡ pos
  unfolding goes_first
  goes_first-eq-pos a b h = ground arith

  insert-filter :
      (p : A → Bool) (a : A) (bs : List A)
      → ((b : A) → p a ≡ true → p b ≡ true → cmp a b ≡ nil)
      → filter p (insert cmp a bs) ≡ filter p (a ∷ bs)
  unfolding insert goes_first
  insert-filter p a [] tie = refl
  insert-filter p a (b ∷ bs) tie = ground (arith, insert-filter p a bs tie, tie b)

  -- Rows among which the comparator makes no difference stay in the order in which they came.
  pub sort-filter :
      (p : A → Bool) (xs : List A)
      → ((a b : A) → p a ≡ true → p b ≡ true → cmp a b ≡ nil)
      → filter p (sort cmp xs) ≡ filter p xs
  unfolding sort
  sort-filter p [] tie = refl
  sort-filter p (a ∷ as') tie =
      insert-filter p a (sort cmp as') (tie a) ∙ ground (arith, sort-filter p as' tie)

  module _ (ok : IsConsistent cmp) where
    All-le_trans :
        (a b : A) (cs : List A)
        → cmp a b ≢ pos
        → All (λ c. cmp b c ≢ pos) cs
        → All (λ c. cmp a c ≢ pos) cs
    All-le_trans a b [] h k = tt
    All-le_trans a b (c ∷ cs) h (k, ks) = (ok.trans a b c h k, All-le_trans a b cs h ks)

    insert-IsSorted : (a : A) (bs : List A) → IsSorted bs → IsSorted (insert cmp a bs)
    unfolding insert
    insert-IsSorted a [] h = (tt, tt)
    insert-IsSorted a (b ∷ bs) (h, hs) = elim (Bool-cases (goes_first cmp a b)) [
      | inl e ↦ let le = goes_first-ne-pos a b e in rw e ((le, All-le_trans a b bs le h), (h, hs))
      | inr e ↦
          let before : cmp b a ≢ pos = ground (arith, ok.anti a b, goes_first-eq-pos a b e) in
          rw e (All-insert (λ c. cmp b c ≢ pos) a bs before h, insert-IsSorted a bs hs)
    ]

    -- With a consistent comparator the rows end in order.
    pub sort-IsSorted : (xs : List A) → IsSorted (sort cmp xs)
    unfolding sort
    sort-IsSorted [] = tt
    sort-IsSorted (a ∷ as') = insert-IsSorted a (sort cmp as') (sort-IsSorted as')

-- Each row stands to every later one in a relation that says nothing of the comparator.
module _ {A : Type 0} (R : A → A → Type 0) where
  abbrev pub IsOrdered : List A → Type 0
  IsOrdered [] = Unit
  IsOrdered (a ∷ as') = All (R a) as' × IsOrdered as'

  All-ordered :
      (cmp : A → A → Sign) (a : A) (bs : List A)
      → ((x y : A) → cmp x y ≢ pos → R x y)
      → All (λ b. cmp a b ≢ pos) bs
      → All (R a) bs
  All-ordered cmp a [] f h = tt
  All-ordered cmp a (b ∷ bs) f (h, hs) = (f a b h, All-ordered cmp a bs f hs)

  pub IsSorted-IsOrdered :
      (cmp : A → A → Sign) (xs : List A)
      → ((x y : A) → cmp x y ≢ pos → R x y)
      → IsSorted cmp xs
      → IsOrdered xs
  IsSorted-IsOrdered cmp [] f h = tt
  IsSorted-IsOrdered cmp (a ∷ as') f (h, hs) =
      (All-ordered cmp a as' f h, IsSorted-IsOrdered cmp as' f hs)

-- The comparator of a column is consistent where `<` on its values is asymmetric and "not
-- greater" is transitive.
pub record IsStrict {A : Type 0} (lt : A → A → Bool) : Type 0 where
  pub asym : (a b : A) → lt a b ≡ true → lt b a ≡ false
  pub negtrans : (a b c : A) → lt b a ≡ false → lt c b ≡ false → lt c a ≡ false

pub compare_by-IsConsistent :
    {A : Type 0} (lt : A → A → Bool) (up : Bool) → IsStrict lt → IsConsistent (compare_by lt up)
unfolding compare_by
compare_by-IsConsistent lt true s = record {
  anti = λ a b h. ground (arith, s.asym a b, s.asym b a);
  trans = λ a b c h k. ground (arith, s.negtrans a b c, s.asym a b, s.asym b c, s.asym a c);
}
compare_by-IsConsistent lt false s = record {
  anti = λ a b h. ground (arith, s.asym a b, s.asym b a);
  trans = λ a b c h k. ground (arith, s.negtrans c b a, s.asym a b, s.asym b c, s.asym a c);
}

-- Two comparators that agree on the rows sort them alike.
module _ {A : Type 0} (P : A → Type 0) (c d : A → A → Sign)
    (same : (a b : A) → P a → P b → c a b ≡ d a b) where
  goes_first-agree : (a b : A) → P a → P b → goes_first c a b ≡ goes_first d a b
  unfolding goes_first
  goes_first-agree a b p q = rw (goes_first, same a b p q) refl

  insert-agree : (a : A) (bs : List A) → P a → All P bs → insert c a bs ≡ insert d a bs
  unfolding insert
  insert-agree a [] p h = refl
  insert-agree a (b ∷ bs) p (q, h) =
      rw (insert, goes_first-agree a b p q, insert-agree a bs p h) refl

  insert-All : (a : A) (bs : List A) → P a → All P bs → All P (insert d a bs)
  unfolding insert
  insert-All a [] p h = (p, tt)
  insert-All a (b ∷ bs) p (q, h) = elim (Bool-cases (goes_first d a b)) [
    | inl e ↦ rw e (p, (q, h))
    | inr e ↦ rw e (q, insert-All a bs p h)
  ]

  sort-All : (xs : List A) → All P xs → All P (sort d xs)
  unfolding sort
  sort-All [] h = tt
  sort-All (a ∷ as') (p, h) = insert-All a (sort d as') p (sort-All as' h)

  pub sort-agree : (xs : List A) → All P xs → sort c xs ≡ sort d xs
  unfolding sort
  sort-agree [] h = refl
  sort-agree (a ∷ as') (p, h) =
      rw (sort-agree as' h) (insert-agree a (sort d as') p (sort-All as' h))
