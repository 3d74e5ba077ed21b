-- ===== src/Filters/Disks.antt =====
-- The order of the disk page.
use operations_api.Common.{
  ◌≢◌, ◌≡◌, ◌<◌, ◌⊎◌, inl, inr, Bool-cases, ltb, true, false, refl, arith, Bool, Option, none, some,
  List,
}
use mathlib.Core.List.{Perm}
use operations_api.Tables.{neg, pos, compare_by}
use operations_api.Tables.Sort.{
  IsConsistent, IsStrict, IsOrdered, IsSorted-IsOrdered, sort-perm, sort-IsSorted,
  compare_by-IsConsistent,
}
use operations_api.Mappers.Health.{DiskRow}
use operations_api.Filters.{DiskView, by_column, compare_disks, disk_filters, apply_disk_filters}

module _ {V : Type 0} (lt : V → V → Bool) where
  by_column-IsConsistent : (up : Bool) → IsStrict lt → IsConsistent (by_column lt up)
  unfolding by_column
  by_column-IsConsistent up s = record { anti = anti; trans = trans }
    where
      c : IsConsistent (compare_by lt up)
      c = compare_by-IsConsistent lt up s

      anti : (a b : Option V) → by_column lt up a b ≡ pos → by_column lt up b a ≡ neg
      anti none none h = cc
      anti none (some b) h = refl
      anti (some a) none h = cc
      anti (some a) (some b) h = c.anti a b h

      trans :
          (x y z : Option V)
          → by_column lt up x y ≢ pos
          → by_column lt up y z ≢ pos
          → by_column lt up x z ≢ pos
      trans none none z h k = k
      trans none (some b) z h k = elim (h refl) [ ]
      trans (some a) none none h k = λ e. cc
      trans (some a) none (some b) h k = elim (k refl) [ ]
      trans (some a) (some b) none h k = λ e. cc
      trans (some a) (some b) (some d) h k = c.trans a b d h k

  -- A value of the column may stand above another: upwards it is not the greater one, downwards not the
  -- lesser one, and one that is missing stands above no value that is there.
  abbrev pub IsValueAbove : Bool → Option V → Option V → Type 0
  IsValueAbove up none (some b) = ⊥
  IsValueAbove up none none = Unit
  IsValueAbove up (some a) none = Unit
  IsValueAbove true (some a) (some b) = lt b a ≡ false
  IsValueAbove false (some a) (some b) = lt a b ≡ false

  by_column-IsValueAbove :
      (up : Bool) (a b : Option V) → by_column lt up a b ≢ pos → IsStrict lt → IsValueAbove up a b
  unfolding by_column compare_by
  by_column-IsValueAbove up none none h s = tt
  by_column-IsValueAbove up none (some b) h s = h refl
  by_column-IsValueAbove up (some a) none h s = tt
  by_column-IsValueAbove true (some a) (some b) h s = ground (arith, s.asym b a)
  by_column-IsValueAbove false (some a) (some b) h s = ground (arith, s.asym a b)

module _ {F V : Type 0} (lt : V → V → Bool) where
  compare_disks-IsConsistent : (v : DiskView F V) → IsStrict lt → IsConsistent (compare_disks lt v)
  unfolding compare_disks
  compare_disks-IsConsistent v s =
      let c = by_column-IsConsistent lt v.ascending s in
      record {
        anti = λ a b h. ground (arith, c.anti (v.column a) (v.column b));
        trans = λ x y z h k. ground (arith, c.trans (v.column x) (v.column y) (v.column z));
      }

  -- A disk may stand above another: its status is worse, or the same and its value may stand above.
  abbrev pub IsAbove : DiskView F V → DiskRow F → DiskRow F → Type 0
  IsAbove v a b =
      (b.alert_status < a.alert_status)
      ⊎ ((a.alert_status ≡ b.alert_status) × IsValueAbove lt v.ascending (v.column a) (v.column b))

  compare_disks-IsAbove :
      (v : DiskView F V) (a b : DiskRow F)
      → IsStrict lt
      → compare_disks lt v a b ≢ pos
      → IsAbove v a b
  unfolding compare_disks
  compare_disks-IsAbove v a b s h = elim (Bool-cases (ltb b.alert_status a.alert_status)) [
    | inl e ↦ inl (ground arith)
    | inr e ↦ elim (Bool-cases (ltb a.alert_status b.alert_status)) [
      | inl g ↦ absurd (h (rw (compare_disks, e, g) refl))
      | inr g ↦ inr (
        ground arith,
        by_column-IsValueAbove lt v.ascending (v.column a) (v.column b)
            (λ k. h (rw (compare_disks, e, g) k)) s,
      )
    ]
  ]

  -- The disks are shown by falling status, and among equals by the column, upwards or downwards as chosen
  -- and those without a value last in either direction, where the order of the values is strict; they are
  -- those that the filters leave, each as often.
  pub apply_disk_filters-IsOrdered :
      (v : DiskView F V) (rows : List (DiskRow F))
      → IsStrict lt
      → IsOrdered (IsAbove v) (apply_disk_filters lt v rows)
        × Perm (apply_disk_filters lt v rows) (disk_filters v rows)
  unfolding apply_disk_filters
  apply_disk_filters-IsOrdered v rows s = (
    IsSorted-IsOrdered (IsAbove v) (compare_disks lt v) _ (λ a b. compare_disks-IsAbove v a b s)
        (sort-IsSorted (compare_disks lt v) (compare_disks-IsConsistent v s) (disk_filters v rows)),
    sort-perm (compare_disks lt v) (disk_filters v rows),
  )
