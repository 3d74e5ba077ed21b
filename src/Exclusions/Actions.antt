-- ===== src/Exclusions/Actions.antt =====
-- frontend/js/op-boot.js, OC_ACTIONS: renewExclusion and releaseExclusion, up to the request.
use operations_api.Common.{
  ℕ, Bool, Option, none, some, Text, text, ◌++◌, ◌==◌, if◌then◌else◌, or_text,
}
use operations_api.Exclusions.Rows.{Row}

-- What an action on a row does before any answer.
pub data RowAction : Type 0 where
  refuses : Text → RowAction
  patches : ℕ → (held_until : Text) → RowAction
  deletes : ℕ → RowAction
  stays : RowAction

-- `extraDays`, 30 where it is no number; `utc_day n` is the day in UTC, as ISO text, of the moment
-- `n` days from now, which is what `toISOString().slice(0, 10)` gives.
unfoldable pub renew_exclusion : (ℕ → Text) → Row → Option ℕ → RowAction
renew_exclusion utc_day r extra_days = elim r.exclusion_id [
  | none ↦ refuses (text "Cannot renew: no ID on row (demo mode?).")
  | some id ↦
      if id == 0
      then refuses (text "Cannot renew: no ID on row (demo mode?).")
      else patches id (utc_day (elim extra_days [ none ↦ 30 | some n ↦ n ]))
]

unfoldable pub release_question : Row → Text
release_question r = text "Release exclusion for " ++ (or_text r.server r.id ++ text "?")

-- `confirmed` is the user's answer to a question.
unfoldable pub release_exclusion : (Text → Bool) → Row → RowAction
unfolding release_question
release_exclusion confirmed r = elim r.exclusion_id [
  | none ↦ refuses (text "Cannot release: no ID on row (demo mode?).")
  | some id ↦
      if id == 0
      then refuses (text "Cannot release: no ID on row (demo mode?).")
      else if confirmed (release_question r)
      then deletes id
      else stays
]
