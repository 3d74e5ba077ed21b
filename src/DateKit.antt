-- ===== src/DateKit.antt =====
-- frontend/js/op-datekit.js: dates as the console writes and reads them, the state of a hold, and
-- the slug of a reason.
pub mod Shapes
pub mod RoundTrip
pub mod Holds
pub mod Slugs
pub mod Tests
use operations_api.Common.{
  ℕ, zero, suc, ◌+◌, ◌-◌, ◌≤◌, ◌≡◌, Bool, true, false, not, ◌&&◌, ◌||◌, Option, none, some, List,
  [], ◌∷◌, ◌++◌, Text, text, ltb, leb, ◌==◌, if◌then◌else◌, all, any, filter, is_empty, take,
  text_eq, starts_with, is_space, trim, map, decimal, pad_two, is_digit, number,
}
use operations_api.Dates.{Date, ordinal, of_ordinal, new_date, new_date_from_one}
use operations_api.Router.{ascii_lower}

-- What the engine does beyond the language's text methods: `new Date(text)` on a text in no form
-- that is handled here, `+s` on a text that is not a run of digits (the natural number that it
-- gives, `none` for anything else), and the en-GB short name of a month.
pub record Engine : Type 0 where
  pub date_parse : Text → Option Date
  pub number_of : Text → Option ℕ
  pub short_month : ℕ → Text

-- `MIDX`
unfoldable pub month_index : Text → Option ℕ
month_index s =
    if text_eq s (text "jan")
    then some 0
    else if text_eq s (text "feb")
    then some 1
    else if text_eq s (text "mar")
    then some 2
    else if text_eq s (text "apr")
    then some 3
    else if text_eq s (text "may")
    then some 4
    else if text_eq s (text "jun")
    then some 5
    else if text_eq s (text "jul")
    then some 6
    else if text_eq s (text "aug")
    then some 7
    else if text_eq s (text "sep")
    then some 8
    else if text_eq s (text "oct")
    then some 9
    else if text_eq s (text "nov")
    then some 10
    else if text_eq s (text "dec")
    then some 11
    else none

-- `new Date(base.getFullYear(), base.getMonth(), base.getDate() + n)`
unfoldable pub add_days : Date → ℕ → Date
add_days base n = new_date base.year base.month (base.day + n)

unfoldable pub iso_local : Date → Text
iso_local d = decimal d.year ++ (text "-" ++ (pad_two (d.month + 1) ++ (text "-" ++ pad_two d.day)))

-- The last day that a `Date` can hold is 13 September 275760.
abbrev pub last_day : ℕ
last_day = 100_719_528

-- `mk(y, m - 1, d)`
unfoldable pub mk : ℕ → ℕ → ℕ → Option Date
mk y m d = let dt = new_date_from_one y m d in if leb (ordinal dt) last_day then some dt else none

-- The three numbers of `/^(\d{4})-(\d{2})-(\d{2})$/`.
unfoldable pub iso_parts : Text → Option (ℕ × ℕ × ℕ)
iso_parts (a ∷ b ∷ c ∷ d ∷ e ∷ f ∷ g ∷ h ∷ i ∷ j ∷ []) =
    if all is_digit (a ∷ b ∷ c ∷ d ∷ f ∷ g ∷ i ∷ j ∷ []) && (e == b'-' && h == b'-')
    then some (number (a ∷ b ∷ c ∷ d ∷ []), number (f ∷ g ∷ []), number (i ∷ j ∷ []))
    else none
iso_parts _ = none

-- `str.split(/\s+/)`; `gap` tells that the previous code unit was a space.
split_from : Bool → Text → Text → List Text
split_from gap cur [] = cur ∷ []
split_from gap cur (c ∷ s) =
    let longer = split_from false (cur ++ c ∷ []) s in
    let closed = cur ∷ split_from true [] s in
    let more = split_from true cur s in
    if is_space c then (if gap then more else closed) else longer

unfoldable pub split_spaces : Text → List Text
unfolding split_from
split_spaces s = split_from false [] s

-- `str.replace(/[.,]/g, '')`
unfoldable pub drop_marks : Text → Text
drop_marks s = filter (λ c. not (c == b'.' || c == b',')) s

module _ (E : Engine) where
  open E use {date_parse, number_of, short_month}

  -- `+s`
  unfoldable pub to_number : Text → Option ℕ
  to_number s = if all is_digit s && not (is_empty s) then some (number s) else number_of s

  -- The day, the month's name and the year of three parts, in either order.
  abbrev pub day_first : Text → Bool
  day_first s = all is_digit s && not (is_empty s)

  from_parts : Option ℕ → Text → Option ℕ → Option (Option Date)
  from_parts (some day) mon (some year) = elim (month_index (take 3 (map ascii_lower mon))) [
    | none ↦ none
    | some mi ↦
        if leb 1 day && (leb day 31 && leb 1 year) then some (mk year (mi + 1) day) else none
  ]
  from_parts _ mon _ = none

  -- `none` where the code goes on to the engine's parser.
  unfoldable pub parse_display : List Text → Option (Option Date)
  unfolding from_parts
  parse_display (p ∷ q ∷ r ∷ []) =
      if day_first p
      then from_parts (to_number p) q (to_number r)
      else from_parts (to_number q) p (to_number r)
  parse_display _ = none

  unfoldable parse_trimmed : Text → Option Date
  parse_trimmed str = elim (iso_parts str) [
    | some (y, m, d) ↦ mk y m d
    | none ↦ elim (parse_display (split_spaces (drop_marks str))) [
      | some result ↦ result
      | none ↦ date_parse str
    ]
  ]

  -- `parseLoose(s)` of a text; a missing one is empty.
  unfoldable pub parse_loose : Text → Option Date
  unfolding parse_trimmed
  parse_loose s = let str = trim s in if is_empty str then none else parse_trimmed str

  unfoldable pub to_iso_date : Text → Option Text
  to_iso_date s =
      let str = trim s in
      if is_empty s then none else elim (iso_parts str) [
        | some _ ↦ some str
        | none ↦ elim (parse_loose str) [ none ↦ none | some d ↦ some (iso_local d) ]
      ]

  -- `toLocaleDateString('en-GB', { day: 'numeric', month: 'short', year: 'numeric' })`
  unfoldable pub fmt_gb : Date → Text
  fmt_gb d = decimal d.day ++ (text " " ++ (short_month d.month ++ (text " " ++ decimal d.year)))

  -- A hold's end is given as a date or as a text.
  pub data Until : Type 0 where
    date : Date → Until
    written : Text → Until

  until_date : Until → Option Date
  until_date (date d) = some d
  until_date (written s) = parse_loose s

  pub data HoldState : Type 0 where
    overdue expiring_soon active : HoldState

  -- Local midnights a number of days apart, rounded to whole days.
  abbrev hold_state : Date → Date → HoldState
  hold_state u t =
      if ltb (ordinal u) (ordinal t)
      then overdue
      else if ltb (ordinal u) (ordinal t + 7)
      then expiring_soon
      else active

  both_dates : Option Date → Option Date → HoldState
  both_dates (some u) (some t) = hold_state u t
  both_dates _ _ = active

  unfoldable pub derive_state : Until → Until → HoldState
  unfolding until_date both_dates
  derive_state until today = both_dates (until_date until) (until_date today)
