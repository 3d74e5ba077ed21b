-- ===== src/Tables/Cells.antt =====
-- `<` on the values that a table's column holds, and when it orders a column.
use operations_api.Common.{
  ◌≡◌, ◌≢◌, ◌∙◌, refl, Bool, true, false, Option, none, some, [], ◌∷◌, arith, Text, ltb, ◌==◌,
  if◌then◌else◌,
}
use operations_api.Tables.{Sign, nil, pos, neg, compare_by}
use operations_api.Tables.Sort.{IsStrict, IsConsistent}

-- Numbers are outside the model: a type with the order, and the conversion of a text, `none` for NaN.
pub record Numbers : Type 1 where
  pub Num : Type 0
  pub zero : Num
  pub one : Num
  pub lt : Num → Num → Bool
  pub number_of : Text → Option Num

-- Code units decide, and a prefix comes first.
unfoldable pub text_lt : Text → Text → Bool
text_lt s [] = false
text_lt [] (d ∷ t) = true
text_lt (c ∷ s) (d ∷ t) = let rest = text_lt s t in if c == d then rest else ltb c d

module _ (N : Numbers) where
  open N use {Num, zero, one, lt, number_of}

  pub data Cell : Type 0 where
    str : Text → Cell
    num : Num → Cell
    bool : Bool → Cell
    null undefined : Cell

  numeric : Cell → Option Num
  numeric (str s) = number_of s
  numeric (num n) = some n
  numeric (bool true) = some one
  numeric (bool false) = some zero
  numeric null = some zero
  numeric undefined = none

  option_lt : Option Num → Option Num → Bool
  option_lt (some a) (some b) = lt a b
  option_lt (some a) none = false
  option_lt none b = false

  -- `a < b`: two texts as texts, anything else as numbers, where NaN is not less and not greater.
  unfoldable pub cell_lt : Cell → Cell → Bool
  unfolding numeric option_lt
  cell_lt (str s) (str t) = text_lt s t
  cell_lt a b = option_lt (numeric a) (numeric b)

text_lt-asym : (s t : Text) → text_lt s t ≡ true → text_lt t s ≡ false
unfolding text_lt
text_lt-asym [] [] h = refl
text_lt-asym (c ∷ s) [] h = cc
text_lt-asym [] (d ∷ t) h = refl
text_lt-asym (c ∷ s) (d ∷ t) h = ground (arith, text_lt-asym s t)

text_lt-negtrans : (s t u : Text) → text_lt t s ≡ false → text_lt u t ≡ false → text_lt u s ≡ false
unfolding text_lt
text_lt-negtrans [] t [] h k = refl
text_lt-negtrans [] [] (e ∷ u) h k = refl
text_lt-negtrans [] (d ∷ t) (e ∷ u) h k = refl
text_lt-negtrans (c ∷ s) [] u h k = cc
text_lt-negtrans (c ∷ s) (d ∷ t) [] h k = cc
text_lt-negtrans (c ∷ s) (d ∷ t) (e ∷ u) h k = ground (arith, text_lt-negtrans s t u)

pub text_lt-IsStrict : IsStrict text_lt
text_lt-IsStrict = record { asym = text_lt-asym; negtrans = text_lt-negtrans }

-- A column of texts is ordered by its texts, whatever the numbers are.
pub str_column-IsStrict :
    (N : Numbers) {A : Type 0} (key : A → Text)
    → IsStrict (λ (a b : A). cell_lt N (str (key a)) (str (key b)))
unfolding cell_lt
str_column-IsStrict N key = record {
  asym = λ a b. text_lt-asym (key a) (key b);
  negtrans = λ a b c. text_lt-negtrans (key a) (key b) (key c);
}

-- A column of numbers is ordered by them where `<` on them is a strict order.
pub num_column-IsStrict :
    (N : Numbers) {A : Type 0} (key : A → N.Num)
    → IsStrict N.lt
    → IsStrict (λ (a b : A). cell_lt N (num (key a)) (num (key b)))
unfolding cell_lt
num_column-IsStrict N key s = record {
  asym = λ a b. s.asym (key a) (key b);
  negtrans = λ a b c. s.negtrans (key a) (key b) (key c);
}

-- `null` ties with a text that is no number, in either direction of the sort.
null-ties :
    (N : Numbers) (s : Text) (up : Bool)
    → N.number_of s ≡ none
    → (compare_by (cell_lt N) up (str s) null ≡ nil)
      × (compare_by (cell_lt N) up null (str s) ≡ nil)
unfolding compare_by cell_lt
null-ties N s true h = (ground arith, ground arith)
null-ties N s false h = (ground arith, ground arith)

text_lt-parts :
    (N : Numbers) (s t : Text) (up : Bool)
    → text_lt s t ≡ true
    → (compare_by (cell_lt N) up (str s) (str t) ≡ (if up then neg else pos))
      × (compare_by (cell_lt N) up (str t) (str s) ≡ (if up then pos else neg))
unfolding compare_by cell_lt
text_lt-parts N s t true lt = (ground arith, ground (arith, text_lt-asym s t))
text_lt-parts N s t false lt = (ground arith, ground (arith, text_lt-asym s t))

-- Three rows of which the middle one ties with both are in order, either way.
untied :
    {A : Type 0} (cmp : A → A → Sign) (x y z : A) (up : Bool)
    → cmp x y ≡ nil
    → cmp y x ≡ nil
    → cmp y z ≡ nil
    → cmp z y ≡ nil
    → cmp x z ≡ (if up then neg else pos)
    → cmp z x ≡ (if up then pos else neg)
    → ¬ IsConsistent cmp
untied cmp x y z true xy yx yz zy xz zx ok =
    ok.trans z y x (λ e. ground arith) (λ e. ground arith) zx
untied cmp x y z false xy yx yz zy xz zx ok =
    ok.trans x y z (λ e. ground arith) (λ e. ground arith) xz

by_cells :
    (N : Numbers) {A : Type 0} (column : A → Cell N) (up : Bool) (a b : A) (c d : Cell N)
    → column a ≡ c
    → column b ≡ d
    → compare_by (λ v w. cell_lt N (column v) (column w)) up a b ≡ compare_by (cell_lt N) up c d
unfolding compare_by
by_cells N column true a b c d h k = rw (h, k) refl
by_cells N column false a b c d h k = rw (h, k) refl

-- In a column that has two different texts that are no numbers and a `null`, the comparator ties the
-- `null` with both texts and the texts not with one another, in either direction of the sort; so it is
-- not consistent.
pub null_column-inconsistent :
    (N : Numbers) {A : Type 0} (column : A → Cell N) (x y z : A) (s t : Text) (up : Bool)
    → column x ≡ str s
    → column y ≡ null
    → column z ≡ str t
    → N.number_of s ≡ none
    → N.number_of t ≡ none
    → text_lt s t ≡ true
    → let cmp = compare_by (λ a b. cell_lt N (column a) (column b)) up in
      (cmp x y ≡ nil) × (cmp y z ≡ nil) × (cmp x z ≢ nil) × ¬ IsConsistent cmp
null_column-inconsistent N column x y z s t up hx hy hz hs ht lt =
    let (sn, ns) = null-ties N s up hs in
    let (tn, nt) = null-ties N t up ht in
    let (st, ts) = text_lt-parts N s t up lt in
    let cmp = compare_by (λ a b. cell_lt N (column a) (column b)) up in
    let xz : cmp x z ≡ (if up then neg else pos) = by_cells N column up x z _ _ hx hz ∙ st in
    let xy : cmp x y ≡ nil = by_cells N column up x y _ _ hx hy ∙ sn in
    let yz : cmp y z ≡ nil = by_cells N column up y z _ _ hy hz ∙ nt in
    (
      xy,
      yz,
      λ e. ground arith,
      untied cmp x y z up xy (by_cells N column up y x _ _ hy hx ∙ ns) yz
          (by_cells N column up z y _ _ hz hy ∙ tn) xz (by_cells N column up z x _ _ hz hx ∙ ts),
    )
