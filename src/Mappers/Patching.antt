-- ===== src/Mappers/Patching.antt =====
-- frontend/js/op-boot.js, mapPatchGroups, mapPatchCycles and mapPatchIssues.
use operations_api.Common.{
  ℕ, ◌+◌, ◌*◌, ◌&&◌, Option, none, some, List, [], ◌∷◌, ◌++◌, Text, text, text_eq, if◌then◌else◌,
  map, find, take, is_empty, is_digit, number, ◌==◌, ltb, decimal, get_or,
}
use operations_api.Router.{Browser}
use operations_api.Tables.{Sign, neg, nil, pos, sort}
use operations_api.Mappers.{text_or, or_null, dated_or_dash, count}

-- A group of a cycle and its number of servers.
pub record GroupCount : Type 0 where
  pub name : Text
  pub servers : ℕ

pub record CycleDetail : Type 0 where
  pub cycle_date : Option Text
  pub servers_by_group : List GroupCount

-- An entry of `windowsByGroup`.
pub record GroupWindow : Type 0 where
  pub name : Text
  pub scheduled : Text

-- `/api/patching/next`; `servers_by_group` and `cycle_date` are its older form.
pub record NextSummary : Type 0 where
  pub windows_by_group : List GroupWindow
  pub cycle_details : List CycleDetail
  pub servers_by_group : Option (List GroupCount)
  pub cycle_date : Option Text

pub record Cycle : Type 0 where
  pub cycle_id : ℕ
  pub cycle_date : Option Text
  pub display_status : Option Text
  pub status : Option Text
  pub server_count : Option ℕ
  pub completed_count : Option ℕ
  pub failed_count : Option ℕ

-- A date that is missing, one that does not parse, or a time.
pub data When : Type 0 where
  absent invalid : When
  at : ℕ → When

pub record Group : Type 0 where
  pub name : Text
  pub servers : ℕ
  pub date : When
  pub hours : Option Text
  pub services : Text

-- What the engine gives: the time of a date's text, and `localeCompare`.
pub record Locale : Type 0 where
  pub time_of : Text → Option ℕ
  pub compare_names : Text → Text → Sign

-- `/^(\d{1,2}):(\d{2})/`, in minutes
unfoldable pub clock : Text → Option ℕ
clock (a ∷ b ∷ c ∷ d ∷ e ∷ _) =
    if is_digit a && (is_digit b && (c == b':' && (is_digit d && is_digit e)))
    then some (number (a ∷ b ∷ []) * 60 + number (d ∷ e ∷ []))
    else if is_digit a && (b == b':' && (is_digit c && is_digit d))
    then some (number (a ∷ []) * 60 + number (c ∷ d ∷ []))
    else none
clock (a ∷ b ∷ c ∷ d ∷ []) =
    if is_digit a && (b == b':' && (is_digit c && is_digit d))
    then some (number (a ∷ []) * 60 + number (c ∷ d ∷ []))
    else none
clock _ = none

-- `startMins`
unfoldable pub start_minutes : Option Text → ℕ
unfolding clock
start_minutes w = elim w [ none ↦ 1_000_000_000 | some s ↦ get_or (clock s) 1_000_000_000 ]

-- `if (x !== y) return x - y;` and then the rest
abbrev pub by_number : ℕ → ℕ → Sign → Sign
by_number x y rest = if ltb x y then neg else if ltb y x then pos else rest

-- The same of two times, where a missing one is infinite and an invalid one is not a number: the
-- difference is then not a number, which the sort takes for a tie.
unfoldable pub by_time : When → When → Sign → Sign
by_time invalid b rest = nil
by_time absent invalid rest = nil
by_time absent absent rest = rest
by_time absent (at y) rest = pos
by_time (at x) invalid rest = nil
by_time (at x) absent rest = neg
by_time (at x) (at y) rest = by_number x y rest

module _ (L : Locale) where
  open L use {time_of, compare_names}

  -- `t ? new Date(t) : null`
  unfoldable pub when_of : Option Text → When
  when_of t = elim (or_null t) [
    | none ↦ absent
    | some s ↦ elim (time_of s) [ none ↦ invalid | some n ↦ at n ]
  ]

  unfoldable pub compare_groups : Group → Group → Sign
  compare_groups a b =
      by_time a.date b.date
        (by_number (start_minutes a.hours) (start_minutes b.hours) (compare_names a.name b.name))

  pub hours_of : List GroupWindow → Text → Text
  hours_of wbg name = elim (find (λ (w : GroupWindow). text_eq w.name name) wbg) [
    | none ↦ text "—"
    | some w ↦ if is_empty w.scheduled then text "—" else w.scheduled ++ text " UTC"
  ]

  unfoldable pub groups_of : List GroupWindow → When → List GroupCount → List Group
  groups_of wbg date gs =
      map
        (λ (g : GroupCount). record {
          name = g.name;
          servers = g.servers;
          date = date;
          hours = some (hours_of wbg g.name);
          services = [];
        })
        gs

  unfoldable pub cycle_group : Cycle → Group
  cycle_group c = record {
    name = text "Cycle #" ++ decimal c.cycle_id;
    servers = count c.server_count;
    date = when_of c.cycle_date;
    hours = elim (or_null c.display_status) [ none ↦ c.status | some s ↦ some s ];
    services = [];
  }

  detailed : List GroupWindow → List CycleDetail → List Group
  detailed wbg [] = []
  detailed wbg (cd ∷ cds) =
      groups_of wbg (when_of cd.cycle_date) cd.servers_by_group ++ detailed wbg cds

  legacy : List Cycle → NextSummary → List Group
  legacy cycles s = elim s.servers_by_group [
    | some gs ↦ groups_of s.windows_by_group (when_of s.cycle_date) gs
    | none ↦ map cycle_group (take 8 cycles)
  ]

  unfoldable pub unsorted_groups : List Cycle → Option NextSummary → List Group
  unfolding legacy detailed
  unsorted_groups cycles none = map cycle_group (take 8 cycles)
  unsorted_groups cycles (some s) =
      if is_empty s.cycle_details
      then legacy cycles s
      else detailed s.windows_by_group s.cycle_details

  unfoldable pub map_patch_groups : List Cycle → Option NextSummary → List Group
  map_patch_groups cycles s = sort compare_groups (unsorted_groups cycles s)

pub record CycleRow : Type 0 where
  pub id : Text
  pub hours : Text
  pub status : Text
  pub servers : ℕ
  pub completed : ℕ
  pub failed : ℕ
  pub skipped : ℕ
  pub groups : ℕ
  pub notes : Text

-- The two labels are the engine's forms of a date.
unfoldable pub map_patch_cycles :
    Browser → (Text → Text) → (Text → Text) → List Cycle → List CycleRow
map_patch_cycles B month_label window_label cycles =
    map
      (λ (c : Cycle). record {
        id = dated_or_dash month_label c.cycle_date;
        hours = dated_or_dash window_label c.cycle_date;
        status = B.lower (text_or c.display_status (text_or c.status (text "queued")));
        servers = count c.server_count;
        completed = count c.completed_count;
        failed = count c.failed_count;
        skipped = 0;
        groups = 0;
        notes = [];
      })
      cycles

pub record IssueItem : Type 0 where
  pub issue_id : Option ℕ
  pub severity : Option Text
  pub application : Option Text
  pub status : Option Text
  pub title : Option Text
  pub fix : Option Text

pub record IssueRow : Type 0 where
  pub id : Text
  pub severity : Text
  pub product : Text
  pub kb : Text
  pub servers : ℕ
  pub group : Text
  pub first : Text
  pub status : Text
  pub title : Text
  pub notes : Text

-- `sevMap[s] || 'info'`
unfoldable pub severity_tone : Text → Text
severity_tone s =
    if text_eq s (text "high")
    then text "crit"
    else if text_eq s (text "critical")
    then text "crit"
    else if text_eq s (text "medium")
    then text "warn"
    else text "info"

unfoldable pub map_patch_issues : Browser → List IssueItem → List IssueRow
map_patch_issues B items =
    map
      (λ (i : IssueItem). record {
        id = text "IS-" ++ elim i.issue_id [ none ↦ text "?" | some n ↦ decimal n ];
        severity = severity_tone (B.lower (text_or i.severity []));
        product = text_or i.application (text "—");
        kb = text "—";
        servers = 0;
        group = text "—";
        first = text "—";
        status = B.lower (text_or i.status (text "workaround"));
        title = text_or i.title [];
        notes = text_or i.fix [];
      })
      items
