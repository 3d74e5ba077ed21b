-- ===== src/Exclusions/Rows/Order.antt =====
-- The order of the exclusions page.
use operations_api.Common.{◌≡◌, ◌≢◌, arith, Bool, true, false, List, trim}
use mathlib.Core.List.{Perm}
use operations_api.Router.{Browser}
use operations_api.Tables.{pos, compare_by}
use operations_api.Tables.Cells.{text_lt, text_lt-IsStrict}
use operations_api.Tables.Sort.{
  IsStrict, IsOrdered, IsSorted-IsOrdered, sort-IsSorted, sort-perm, compare_by-IsConsistent,
}
use operations_api.Exclusions.Rows.{
  Row, View, Column, cell, in_state, searched, filtered_exclusions,
}

-- A row may stand above another: upwards its text in the column is not the greater one, downwards not
-- the lesser one.
abbrev pub IsAbove : Column → Bool → Row → Row → Type 0
IsAbove c true a b = text_lt (cell c b) (cell c a) ≡ false
IsAbove c false a b = text_lt (cell c a) (cell c b) ≡ false

by_cell-IsAbove :
    (c : Column) (up : Bool) (a b : Row)
    → compare_by (λ (x y : Row). text_lt (cell c x) (cell c y)) up a b ≢ pos
    → IsAbove c up a b
unfolding compare_by
by_cell-IsAbove c true a b h = ground (arith, text_lt-IsStrict.asym (cell c b) (cell c a))
by_cell-IsAbove c false a b h = ground arith

-- The shown rows are in the order of the chosen column, upwards or downwards as chosen, and are those
-- that the filter and the search leave, each as often.
pub filtered_exclusions-IsOrdered :
    (B : Browser) (v : View) (rows : List Row)
    → IsOrdered (IsAbove v.sort v.ascending) (filtered_exclusions B v rows)
      × Perm
          (filtered_exclusions B v rows)
          (searched B (B.lower (trim v.q)) (in_state v.state_filter rows))
unfolding filtered_exclusions
filtered_exclusions-IsOrdered B v rows =
    let lt = λ (a b : Row). text_lt (cell v.sort a) (cell v.sort b) in
    let strict : IsStrict lt = record {
      asym = λ a b. text_lt-IsStrict.asym (cell v.sort a) (cell v.sort b);
      negtrans = λ a b c. text_lt-IsStrict.negtrans (cell v.sort a) (cell v.sort b) (cell v.sort c);
    } in
    (
      IsSorted-IsOrdered (IsAbove v.sort v.ascending) (compare_by lt v.ascending) _
          (by_cell-IsAbove v.sort v.ascending)
          (sort-IsSorted _ (compare_by-IsConsistent lt v.ascending strict) _),
      sort-perm (compare_by lt v.ascending) _,
    )
