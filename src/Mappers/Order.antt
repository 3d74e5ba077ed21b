-- ===== src/Mappers/Order.antt =====
-- The order of the patch groups, and of the breakdowns.
use mathlib.Core.List.{Perm}
use operations_api.Common.{
  true, number_of_digit, number_of_digits, ap, ℕ, ◌+◌, ◌*◌, ◌≡◌, ◌≢◌, ◌≤◌, ◌<◌, ◌⊎◌, refl, arith,
  false, Option, some, List, [], ◌∷◌, Text, ltb, All, is_digit,
}
use operations_api.Tables.{Sign, pos, compare_by}
use operations_api.Tables.Sort.{
  IsOrdered, IsSorted-IsOrdered, IsConsistent, IsStrict, IsSorted, sort-perm, sort-IsSorted,
  sort-agree, compare_by-IsConsistent,
}
use operations_api.Mappers.{Share, Portion, map_breakdown}
use operations_api.Mappers.Patching.{
  When, absent, invalid, at, Group, Locale, Cycle, NextSummary, by_number, by_time, start_minutes,
  clock, compare_groups, unsorted_groups, map_patch_groups,
}

-- A breakdown is in the order of falling counts.
pub map_breakdown-IsSorted :
    (shares : List Share)
    → IsSorted (compare_by (λ (a b : Portion). ltb a.count b.count) false) (map_breakdown shares)
unfolding map_breakdown
map_breakdown-IsSorted shares =
    let strict : IsStrict (λ (a b : Portion). ltb a.count b.count) = record {
      asym = λ a b h. ground arith;
      negtrans = λ a b c h k. ground arith;
    } in
    sort-IsSorted _ (compare_by-IsConsistent _ false strict) _

module _ {A : Type 0} (key : A → ℕ) (rest : A → A → Sign) where
  by_number-IsConsistent :
      IsConsistent rest → IsConsistent (λ a b. by_number (key a) (key b) (rest a b))
  by_number-IsConsistent c = record {
    anti = λ a b h. ground (arith, c.anti a b);
    trans = λ x y z h k. ground (arith, c.trans x y z);
  }

-- A time as two numbers: whether it is missing, and when it is.
missing : When → ℕ
missing absent = 1
missing _ = 0

moment : When → ℕ
moment (at n) = n
moment _ = 0

by_valid_time : When → When → Sign → Sign
by_valid_time x y rest = by_number (missing x) (missing y) (by_number (moment x) (moment y) rest)

by_time-eq :
    (x y : When) (rest : Sign)
    → x ≢ invalid
    → y ≢ invalid
    → by_time x y rest ≡ by_valid_time x y rest
unfolding by_time by_valid_time missing moment
by_time-eq invalid y rest h k = elim (h refl) [ ]
by_time-eq absent invalid rest h k = elim (k refl) [ ]
by_time-eq absent absent rest h k = ground arith
by_time-eq absent (at n) rest h k = ground arith
by_time-eq (at m) invalid rest h k = elim (k refl) [ ]
by_time-eq (at m) absent rest h k = ground arith
by_time-eq (at m) (at n) rest h k = ground arith

-- The order of the groups: those without a date last, else by the date, then by the start of the
-- window, then by the name.
unfoldable by_schedule : Locale → Group → Group → Sign
unfolding by_valid_time
by_schedule L a b =
    by_valid_time a.date b.date
      (by_number (start_minutes a.hours) (start_minutes b.hours) (L.compare_names a.name b.name))

by_schedule-IsConsistent :
    (L : Locale) → IsConsistent L.compare_names → IsConsistent (by_schedule L)
unfolding by_schedule by_valid_time
by_schedule-IsConsistent L c =
    by_number-IsConsistent (λ (g : Group). missing g.date) _
      (by_number-IsConsistent (λ (g : Group). moment g.date) _
        (by_number-IsConsistent (λ (g : Group). start_minutes g.hours)
          (λ (a b : Group). L.compare_names a.name b.name)
          (record {
            anti = λ a b. c.anti a.name b.name;
            trans = λ a b d. c.trans a.name b.name d.name;
          })))

-- A text that begins with a time of the day, in hours and minutes.
pub data Begins : Text → ℕ → ℕ → Type 0 where
  two_digits :
      (a b c d : ℕ) (rest : Text)
      → a < 10
      → b < 10
      → c < 6
      → d < 10
      → Begins ((48 + a) ∷ (48 + b) ∷ b':' ∷ (48 + c) ∷ (48 + d) ∷ rest) (a * 10 + b) (c * 10 + d)
  one_digit :
      (a c d : ℕ) (rest : Text)
      → a < 10
      → c < 6
      → d < 10
      → Begins ((48 + a) ∷ b':' ∷ (48 + c) ∷ (48 + d) ∷ rest) a (c * 10 + d)

-- No date is after one that is missing, and that one is after all others.
abbrev NotAfter : When → When → Type 0
NotAfter absent (at y) = ⊥
NotAfter (at x) (at y) = x ≤ y
NotAfter _ _ = Unit

-- How a group stands to a later one.
pub record Precedes (L : Locale) (a b : Group) : Type 0 where
  pub dates : NotAfter a.date b.date
  pub times :
      (s t : Text) (h m k n : ℕ)
      → a.date ≡ b.date
      → a.hours ≡ some s
      → b.hours ≡ some t
      → Begins s h m
      → Begins t k n
      → (h < k) ⊎ ((h ≡ k) × (m ≤ n))
  pub names : a.date ≡ b.date → a.hours ≡ b.hours → L.compare_names a.name b.name ≢ pos

digit : (a : ℕ) → a < 10 → is_digit (48 + a) ≡ true
digit a h = ground arith

clock-Begins : (s : Text) (h m : ℕ) → Begins s h m → (clock s ≡ some (h * 60 + m)) × (m < 60)
unfolding clock
clock-Begins _ _ _ (two_digits a b c d rest p q r t) = (
  rw
      (
        digit a p,
        digit b q,
        digit c (omega arith),
        digit d t,
        number_of_digits a b,
        number_of_digits c d,
      )
      refl,
  omega arith,
)
clock-Begins _ _ _ (one_digit a c d [] p q r) = (
  rw (digit a p, digit c (omega arith), digit d r, number_of_digit a, number_of_digits c d) refl,
  omega arith,
)
clock-Begins _ _ _ (one_digit a c d (e ∷ rest) p q r) = (
  rw (digit a p, digit c (omega arith), digit d r, number_of_digit a, number_of_digits c d) refl,
  omega arith,
)

by_number-not_pos :
    (x y : ℕ) (rest : Sign) → by_number x y rest ≢ pos → (x ≤ y) × (x ≡ y → rest ≢ pos)
by_number-not_pos x y rest h = ground arith

dates-NotAfter :
    (x y : When)
    → missing x ≤ missing y
    → (missing x ≡ missing y → moment x ≤ moment y)
    → NotAfter x y
unfolding missing moment
dates-NotAfter absent absent p k = tt
dates-NotAfter absent invalid p k = tt
dates-NotAfter absent (at y) p k = absurd (omega arith)
dates-NotAfter invalid y p k = tt
dates-NotAfter (at x) absent p k = tt
dates-NotAfter (at x) invalid p k = tt
dates-NotAfter (at x) (at y) p k = k refl

by_valid_time-NotAfter :
    (x y : When) (rest : Sign) → by_valid_time x y rest ≢ pos → NotAfter x y × (x ≡ y → rest ≢ pos)
unfolding by_valid_time
by_valid_time-NotAfter x y rest h =
    let (p, k) = by_number-not_pos (missing x) (missing y) _ h in
    (
      dates-NotAfter x y p (λ e. (by_number-not_pos (moment x) (moment y) rest (k e)).0),
      λ e. (by_number-not_pos (moment x) (moment y) rest (k (ap missing e))).1 (ap moment e),
    )

by_schedule-Precedes : (L : Locale) (a b : Group) → by_schedule L a b ≢ pos → Precedes L a b
unfolding by_schedule start_minutes
by_schedule-Precedes L a b h =
    let (after, same) = by_valid_time-NotAfter a.date b.date _ h in
    record {
      dates = after;
      times = λ s t h m k n e f g p q.
          let (u, u') = clock-Begins s h m p in
          let (v, v') = clock-Begins t k n q in
          let start : start_minutes a.hours ≡ h * 60 + m = rw (f, u) refl in
          let later : start_minutes b.hours ≡ k * 60 + n = rw (g, v) refl in
          let le =
            (by_number-not_pos (start_minutes a.hours) (start_minutes b.hours) _ (same e)).0 in
          ground arith;
      names = λ e f.
          (by_number-not_pos (start_minutes a.hours) (start_minutes b.hours) _ (same e)).1
            (ap start_minutes f);
    }

-- Where every date of the groups parses and the engine's order of names is consistent, each patch group
-- stands before the later ones: no date after a missing one or a later one; of two groups of one date
-- whose windows begin with a time of the day, the earlier time first; and of two of one date and one
-- window, the name that is not after the other. No group is lost or made up by the order.
pub map_patch_groups-IsOrdered :
    (L : Locale) (cycles : List Cycle) (s : Option NextSummary)
    → IsConsistent L.compare_names
    → All (λ (g : Group). g.date ≢ invalid) (unsorted_groups L cycles s)
    → IsOrdered (Precedes L) (map_patch_groups L cycles s)
      × Perm (map_patch_groups L cycles s) (unsorted_groups L cycles s)
unfolding map_patch_groups compare_groups by_schedule
map_patch_groups-IsOrdered L cycles s c h =
    let groups = unsorted_groups L cycles s in
    let agree =
      sort-agree (λ (g : Group). g.date ≢ invalid) (compare_groups L) (by_schedule L)
        (λ a b p q. by_time-eq a.date b.date _ p q) groups h in
    (
      IsSorted-IsOrdered (Precedes L) (by_schedule L) _ (by_schedule-Precedes L)
          (rw agree (sort-IsSorted (by_schedule L) (by_schedule-IsConsistent L c) groups)),
      sort-perm (compare_groups L) groups,
    )
