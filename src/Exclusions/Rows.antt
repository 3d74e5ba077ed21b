-- ===== src/Exclusions/Rows.antt =====
-- The rows of the exclusions page: mapExclusions in frontend/js/op-boot.js, and the table, the
-- renewals and the counts in frontend/js/op-pages.js.
pub mod Filtering
pub mod Order
use operations_api.Common.{
  ℕ, suc, ◌+◌, ◌≡◌, Bool, true, false, not, ◌&&◌, ◌||◌, Option, none, some, List, [], ◌∷◌, ◌++◌,
  Text, text, text_eq, if◌then◌else◌, filter, is_empty, map, or_text, decimal, trim, includes,
  get_or, length,
}
use operations_api.Router.{Browser}
use operations_api.Tables.{compare_by, sort}
use operations_api.Tables.Cells.{text_lt}

-- A row of `/patching/exclusions`; what is missing or null is `none`.
pub record Item : Type 0 where
  pub exclusion_id : Option ℕ
  pub id : Option Text
  pub server_name : Text
  pub patch_group : Option Text
  pub service : Option Text
  pub application : Option Text
  pub environment : Option Text
  pub business_unit : Option Text
  pub reason : Option Text
  pub ticket : Option Text
  pub notes : Option Text
  pub held_until : Option Text
  pub excluded_by : Option Text
  pub excluded_at : Option Text
  pub status : Option Text

pub record Row : Type 0 where
  pub id : Text
  pub exclusion_id : Option ℕ
  pub server : Text
  pub fqdn : Text
  pub group : Text
  pub service : Text
  pub func : Text
  pub env : Text
  pub bu : Text
  pub reason : Text
  pub ticket : Text
  pub notes : Text
  pub until : Text
  pub requester : Text
  pub requested : Text
  pub state : Text

-- `s || d`
abbrev or_else : Option Text → Text → Text
or_else s d = or_text (get_or s []) d

-- `t ? f(t) : '—'`
abbrev shown_or_dash : (Text → Text) → Option Text → Text
shown_or_dash f none = text "—"
shown_or_dash f (some []) = text "—"
shown_or_dash f (some (c ∷ s)) = f (c ∷ s)

row_id : Item → Text
row_id x = elim x.exclusion_id [ some n ↦ text "EX-" ++ decimal n | none ↦ or_else x.id [] ]

-- One row; `show_date` is the engine's `new Date(t).toLocaleDateString('en-GB', ...)`.
unfoldable pub map_exclusion : (Text → Text) → Item → Row
unfolding row_id
map_exclusion show_date x = record {
  id = row_id x;
  exclusion_id = x.exclusion_id;
  server = x.server_name;
  fqdn = x.server_name;
  group = or_else x.patch_group [];
  service = or_else x.service [];
  func = or_else x.application [];
  env = or_else x.environment [];
  bu = or_else x.business_unit (text "Unknown");
  reason = or_else x.reason [];
  ticket = or_else x.ticket [];
  notes = or_else x.notes [];
  until = shown_or_dash show_date x.held_until;
  requester = or_else x.excluded_by [];
  requested = shown_or_dash show_date x.excluded_at;
  state = or_else x.status (text "active");
}

unfoldable pub map_exclusions : (Text → Text) → List Item → List Row
unfolding map_exclusion
map_exclusions show_date items = map (map_exclusion show_date) items

-- The columns that can be sorted by.
pub data Column : Type 0 where
  by_id by_server by_group by_bu by_service by_func by_reason by_until by_requester : Column

abbrev pub cell : Column → Row → Text
cell by_id r = r.id
cell by_server r = r.server
cell by_group r = r.group
cell by_bu r = r.bu
cell by_service r = r.service
cell by_func r = r.func
cell by_reason r = r.reason
cell by_until r = r.until
cell by_requester r = r.requester

-- `pmState`, as far as the table reads it; `ascending` is `sortDir === 1`.
pub record View : Type 0 where
  pub q : Text
  pub state_filter : Text
  pub sort : Column
  pub ascending : Bool

unfoldable pub in_state : Text → List Row → List Row
in_state state rows =
    if text_eq state (text "__all") then rows else filter (λ (r : Row). text_eq r.state state) rows

module _ (B : Browser) where
  open B use {lower}

  -- The row has the query in one of its texts.
  unfoldable pub mentions : Text → Row → Bool
  mentions q r =
      includes (lower r.server) q
      || includes (lower r.service) q
      || includes (lower r.func) q
      || includes (lower r.reason) q
      || includes (lower r.requester) q
      || includes (lower r.group) q
      || includes (lower r.bu) q
      || includes (lower r.id) q

  unfoldable pub searched : Text → List Row → List Row
  searched q rows = if is_empty q then rows else filter (mentions q) rows

  -- `filteredExclusions`
  unfoldable pub filtered_exclusions : View → List Row → List Row
  unfolding searched
  filtered_exclusions v rows =
      sort (compare_by (λ (a b : Row). text_lt (cell v.sort a) (cell v.sort b)) v.ascending)
        (searched (lower (trim v.q)) (in_state v.state_filter rows))

-- The two lists of the renewals page.
unfoldable pub renewals : List Row → List Row × List Row
renewals rows = (
  filter (λ (r : Row). text_eq r.state (text "overdue")) rows,
  filter (λ (r : Row). text_eq r.state (text "expiring-soon")) rows,
)

-- `EXCL_COUNTS[state] || 0`
unfoldable pub excl_count : Text → List Row → ℕ
excl_count state [] = 0
excl_count state (r ∷ rs) =
    let rest = excl_count state rs in if text_eq r.state state then suc rest else rest
