-- ===== src/Exclusions/Wizard.antt =====
-- frontend/js/op-pages.js, renderAddExclusion: the form of the add-exclusion wizard, and what its
-- controls compute.
pub mod Pages
pub mod Filled
pub mod Drawn
pub mod Invariant
pub mod Posts
pub mod Selection
pub mod Tests
use operations_api.Common.{
  ℕ, zero, suc, ◌+◌, ◌≡◌, ◌≤◌, ◌<◌, Bool, true, false, not, ◌&&◌, ◌||◌, Option, none, some, List,
  [], ◌∷◌, ◌++◌, Text, text, text_eq, ==_iff, ◌==◌, if◌then◌else◌, filter, is_empty, map, or_text,
  trim, includes, has, all, take, leb, In,
}
use operations_api.Dates.{Date, ordinal}
use operations_api.DateKit.{Engine, add_days, iso_local, fmt_gb, parse_loose}
use operations_api.DateKit.Slugs.{exclusion_reasons, slugify_reason}
use operations_api.Router.{Browser}
use operations_api.Exclusions.{Server, Payload}
use operations_api.Exclusions.Calendar.{Offset, start, earlier, later, offered}

-- `pmState.add`; no error is null.
pub record Add : Type 0 where
  pub step : ℕ
  pub server_query : Text
  pub selected_servers : List Server
  pub reason : Text
  pub other_reason : Text
  pub until : Text
  pub until_iso : Text
  pub notes : Text
  pub cal_offset : Offset
  pub error : Option Text

abbrev pub initial : Add
initial = record {
  step = 1;
  server_query = [];
  selected_servers = [];
  reason = [];
  other_reason = [];
  until = [];
  until_iso = [];
  notes = [];
  cal_offset = start;
  error = none;
}

abbrev pub names : List Server → List Text
names ss = map (λ (s : Server). s.name) ss

-- `findIndex` by name, and `splice` at it: the list without its first server of that name.
unfoldable pub without_first : Text → List Server → Option (List Server)
without_first n [] = none
without_first n (s ∷ ss) =
    let rest = without_first n ss in
    if text_eq s.name n then some ss else elim rest [ none ↦ none | some ts ↦ some (s ∷ ts) ]

-- `toggleServer`
unfoldable pub toggle : Server → List Server → List Server
toggle s selected = elim (without_first s.name selected) [
  | some rest ↦ rest
  | none ↦ selected ++ s ∷ []
]

-- `hits.every(s => selNames.has(s.name))`
unfoldable pub visible_selected : List Server → List Server → Bool
visible_selected hits selected = all (λ (s : Server). has s.name (names selected)) hits

-- The button over the hits: it selects all of them, or none when all were selected as it was drawn.
unfoldable pub select_visible : Bool → List Server → List Server → List Server
select_visible true hits selected = filter (λ (s : Server). not (has s.name (names hits))) selected
select_visible false hits selected =
    selected ++ filter (λ (s : Server). not (has s.name (names selected))) hits

module _ (B : Browser) where
  open B use {lower}

  -- `none` where the code throws: a server without an FQDN has no `toLowerCase` of it.
  unfoldable pub is_hit : Text → Server → Option Bool
  is_hit q s = if includes (lower s.name) q then some true else elim s.fqdn [
    | none ↦ none
    | some f ↦ some (includes (lower f) q || includes (lower s.app) q)
  ]

  unfoldable pub search : Text → List Server → Option (List Server)
  search q [] = some []
  search q (s ∷ ss) =
      let rest = search q ss in
      elim (is_hit q s) [
        | none ↦ none
        | some hit ↦ elim rest [ none ↦ none | some hits ↦ some (if hit then s ∷ hits else hits) ]
      ]

  -- The servers on offer for a query, at most 20; the page does not render where it is `none`.
  unfoldable pub hits : Text → List Server → Option (List Server)
  hits query servers =
      let q = lower (trim query) in
      if is_empty q
      then some []
      else elim (search q servers) [ none ↦ none | some found ↦ some (take 20 found) ]

-- `!!reason && (reason !== 'Other' || otherReason.trim().length > 0)`
unfoldable pub reason_ok : Text → Text → Bool
reason_ok reason other =
    not (is_empty reason) && (not (text_eq reason (text "Other")) || not (is_empty (trim other)))

unfoldable pub effective_reason : Text → Text → Text
effective_reason reason other =
    if text_eq reason (text "Other") then or_text (trim other) (text "Other") else reason

-- The payload of the confirmation's button: the servers and the reason are those of the form as it
-- was drawn, the dates and the notes those of the click.
unfoldable pub payload : Add → Add → Payload
payload f a = record {
  servers = f.selected_servers;
  reason = effective_reason f.reason f.other_reason;
  reason_slug = slugify_reason f.reason (text_eq f.reason (text "Other"));
  until = a.until;
  until_iso = a.until_iso;
  notes = a.notes;
}

-- `window.PATCH_NEXT_CYCLE`
pub record NextCycle : Type 0 where
  pub cycle_date : Text
  pub is_stale : Bool

module _ (E : Engine) where
  cycle_preset : Date → Option NextCycle → List Date
  cycle_preset today none = []
  cycle_preset today (some c) =
      if is_empty c.cycle_date || c.is_stale then [] else elim (parse_loose E c.cycle_date) [
        | none ↦ []
        | some cd ↦ if leb (ordinal today) (ordinal cd) then cd ∷ [] else []
      ]

  -- The dates of the common windows.
  unfoldable pub presets : Date → Option NextCycle → List Date
  unfolding cycle_preset
  presets today cycle =
      add_days today 7
      ∷ add_days today 14
      ∷ add_days today 30
      ∷ add_days today 90
      ∷ cycle_preset today cycle

  -- A window or a day of the picker is chosen.
  unfoldable pub choose : Date → Add → Add
  choose d a = record a { until = fmt_gb E d; until_iso = iso_local d }
