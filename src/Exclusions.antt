-- ===== src/Exclusions.antt =====
-- The patch-exclusion pages: frontend/js/op-pages.js (PATCH MANAGEMENT PAGE) and the actions that
-- frontend/js/op-boot.js gives them (OC_ACTIONS).
pub mod Rows
pub mod Actions
pub mod Calendar
pub mod Wizard
pub mod Bulk
pub mod Tests
use operations_api.Common.{
  ℕ, zero, suc, ◌+◌, ◌≡◌, Bool, true, false, not, ◌&&◌, ◌||◌, Option, none, some, List, [], ◌∷◌,
  ◌++◌, Text, text, ==_iff, ◌==◌, if◌then◌else◌, filter, is_empty, map, or_text, trim, includes,
}
use operations_api.DateKit.{Engine, to_iso_date}
use operations_api.Router.{Browser}

-- What the wizards read of a server.
pub record Server : Type 0 where
  pub id : ℕ
  pub name : Text
  pub fqdn : Option Text
  pub env : Text
  pub app : Text
  pub pg : Text

pub record Payload : Type 0 where
  pub servers : List Server
  pub reason : Text
  pub reason_slug : Text
  pub until : Text
  pub until_iso : Text
  pub notes : Text

-- The body of `POST /patching/exclusions`; notes that are empty are sent as null.
pub record Body : Type 0 where
  pub server_ids : List ℕ
  pub reason : Text
  pub reason_slug : Option Text
  pub notes : Option Text
  pub held_until : Text

pub data Scope : Type 0 where
  group env : Scope

pub record BulkPayload : Type 0 where
  pub kind : Scope
  pub target : Text
  pub reason : Text
  pub reason_slug : Text
  pub until : Text
  pub until_iso : Text
  pub affected_count : ℕ

-- The body of `POST /patching/exclusions/bulk`.
pub record BulkBody : Type 0 where
  pub kind : Scope
  pub target : Text
  pub reason : Text
  pub reason_slug : Option Text
  pub held_until : Text

-- What an action does before any answer: refuse with a message, or post a body.
pub data Outcome (A : Type 0) : Type 0 where
  refused : Text → Outcome A
  posted : A → Outcome A

abbrev pub some_text : Text → Option Text
some_text [] = none
some_text (c ∷ s) = some (c ∷ s)

module _ (B : Browser) (E : Engine) where
  open B use {lower}

  -- `slugify`, for a caller that gave no slug.
  unfoldable pub slugify : Text → Option Text
  slugify s =
      let norm = trim (lower s) in
      if is_empty s
      then none
      else if includes norm (text "freeze")
      then some (text "business-freeze")
      else if includes norm (text "vendor")
      then some (text "pending-vendor-fix")
      else if includes norm (text "depend")
      then some (text "dependency-block")
      else if includes norm (text "change")
      then some (text "change-window-conflict")
      else some (text "custom")

  -- `payload.untilIso || toIsoDate(payload.until)`
  abbrev held_date : Text → Text → Option Text
  held_date [] until = to_iso_date E until
  held_date (c ∷ s) until = some (c ∷ s)

  abbrev slug_of : Text → Text → Option Text
  slug_of [] reason = slugify reason
  slug_of (c ∷ s) reason = some (c ∷ s)

  post_for : Payload → Text → Outcome Body
  post_for p iso =
      let ids = filter (λ i. not (i == 0)) (map (λ (s : Server). s.id) p.servers) in
      let body : Body = record {
        server_ids = ids;
        reason = or_text p.reason (text "Exclusion");
        reason_slug = slug_of p.reason_slug p.reason;
        notes = some_text p.notes;
        held_until = iso;
      } in
      if is_empty ids then refused (text "No servers selected.") else posted body

  -- `addExclusion`, up to the request
  unfoldable pub add_exclusion : Payload → Outcome Body
  unfolding post_for
  add_exclusion p = elim (held_date p.until_iso p.until) [
    | none ↦ refused (text "Hold-until date is required.")
    | some iso ↦ post_for p iso
  ]

  -- `bulkExclude`, up to the request
  unfoldable pub bulk_exclude : BulkPayload → Outcome BulkBody
  bulk_exclude p = elim (held_date p.until_iso p.until) [
    | none ↦ refused (text "Hold-until date is required.")
    | some iso ↦ posted (record {
      kind = p.kind;
      target = p.target;
      reason = or_text p.reason (text "Bulk exclusion");
      reason_slug = slug_of p.reason_slug p.reason;
      held_until = iso;
    })
  ]
