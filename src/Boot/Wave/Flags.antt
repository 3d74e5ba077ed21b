-- ===== src/Boot/Wave/Flags.antt =====
-- Which widgets are on demo data after the first wave, in whatever order its answers land.
use operations_api.Common.{
  any, All, ◌∙◌, Bool-cases, inl, inr, ◌≡◌, refl, ap, Bool, true, false, not, ◌&&◌, ◌||◌, Option,
  none, some, List, [], ◌∷◌, ◌++◌, Text, text, text_eq, arith, has, has_iff, filter, is_empty,
  text_eq_iff,
}
use operations_api.Api.{clear_all_demo, Store, mark_demo, clear_demo, has_demo}
use operations_api.Boot.World.{
  Forms, World, Landing, inventory, servers_summary, unreachable, unmatched, certificates,
  certs_summary, eol, eol_summary, eol_unmatched, patching, all_cycles, issues, syncs, alerts,
  exclusions, exclusions_summary, licences, audits, me, disks, disks_summary, disks_summary_prod,
}
use operations_api.Boot.Wave.{land, land_all, run_fetches}

has-snoc : (k x : Text) (xs : List Text) → has k (xs ++ x ∷ []) ≡ (has k xs || text_eq x k)
unfolding has
has-snoc k x [] = ground arith
has-snoc k x (y ∷ ys) = ground (arith, has-snoc k x ys)

has-filter :
    (k x : Text) (xs : List Text)
    → has k (filter (λ y. not (text_eq y x)) xs) ≡ (has k xs && not (text_eq x k))
unfolding has
has-filter k x [] = refl
has-filter k x (y ∷ ys) =
    ground (arith, has-filter k x ys, text_eq_iff y x, text_eq_iff y k, text_eq_iff x k)

has_demo-mark_demo :
    (k x : Text) (s : Store)
    → is_empty x ≡ false
    → has_demo k (mark_demo x s) ≡ (has_demo k s || text_eq x k)
unfolding mark_demo has_demo
has_demo-mark_demo k x s h = ground (
  arith,
  has-snoc k x s.demo_widgets,
  has_iff x s.demo_widgets,
  λ (e : x ≡ k). ap (λ y. has y s.demo_widgets) e,
  text_eq_iff x k,
)

has_demo-clear_demo :
    (k x : Text) (s : Store)
    → is_empty x ≡ false
    → has_demo k (clear_demo x s) ≡ (has_demo k s && not (text_eq x k))
unfolding clear_demo has_demo
has_demo-clear_demo k x s h = rw h (has-filter k x s.demo_widgets)

abbrev is_none : {A : Type 0} → Option A → Bool
is_none none = true
is_none (some a) = false

abbrev is_widget : Text → Option Text → Bool
is_widget k none = false
is_widget k (some x) = text_eq x k

module _ {F U : Type 0} where
  -- The widget that an answer feeds; the current user's name feeds none.
  abbrev pub widget : Landing F U → Option Text
  widget (inventory _) = some (text "servers")
  widget (servers_summary _) = some (text "servers")
  widget (unreachable _) = some (text "servers")
  widget (unmatched _) = some (text "servers")
  widget (certificates _) = some (text "certs")
  widget (certs_summary _) = some (text "certs")
  widget (eol _) = some (text "eol")
  widget (eol_summary _) = some (text "eol")
  widget (patching _ _) = some (text "patching")
  widget (all_cycles _) = some (text "patching")
  widget (issues _) = some (text "patching")
  widget (syncs _) = some (text "health")
  widget (alerts _) = some (text "health")
  widget (exclusions _) = some (text "exclusions")
  widget (licences _) = some (text "licensing")
  widget (audits _) = some (text "auditing")
  widget (disks _) = some (text "disks")
  widget (disks_summary _) = some (text "disks")
  widget (eol_unmatched _) = some (text "eol")
  widget (exclusions_summary _) = some (text "exclusions")
  widget (disks_summary_prod _) = some (text "disks")
  widget (me _) = none

  -- The answers whose failure the code passes over.
  abbrev pub is_best_effort : Landing F U → Bool
  is_best_effort (eol_unmatched _) = true
  is_best_effort (exclusions_summary _) = true
  is_best_effort (disks_summary_prod _) = true
  is_best_effort (me _) = true
  is_best_effort _ = false

  -- An answer that the handler turns down.
  abbrev pub failed : Landing F U → Bool
  failed (inventory o) = is_none o
  failed (servers_summary o) = is_none o
  failed (unreachable o) = is_none o
  failed (unmatched o) = is_none o
  failed (certificates o) = is_none o
  failed (certs_summary o) = is_none o
  failed (eol o) = is_none o
  failed (eol_summary o) = is_none o
  failed (eol_unmatched o) = is_none o
  failed (patching o p) = is_none o && is_none p
  failed (all_cycles o) = is_none o
  failed (issues o) = is_none o
  failed (syncs o) = is_none o
  failed (alerts o) = is_none o
  failed (exclusions o) = is_none o
  failed (exclusions_summary o) = is_none o
  failed (licences o) = is_none o
  failed (audits o) = is_none o
  failed (me o) = is_none o
  failed (disks o) = is_none o
  failed (disks_summary o) = is_none o
  failed (disks_summary_prod o) = is_none o

  abbrev pub flags : Text → Landing F U → Bool
  flags k l = failed l && (not (is_best_effort l) && is_widget k (widget l))

module _ {F U : Type 0} (K : Forms) (zero_size : F) (bu : Text) where
  -- All answers but the audit data's.
  abbrev is_audits : Landing F U → Bool
  is_audits (audits (some _)) = true
  is_audits _ = false

  one_flag :
      (k : Text) (l : Landing F U) (w : World F U)
      → is_audits l ≡ false
      → has_demo k (land K zero_size bu l w).store ≡ (has_demo k w.store || flags k l)
  unfolding land
  one_flag k l w h = ground (
    arith,
    has_demo-mark_demo k (text "servers") w.store refl,
    has_demo-mark_demo k (text "certs") w.store refl,
    has_demo-mark_demo k (text "eol") w.store refl,
    has_demo-mark_demo k (text "patching") w.store refl,
    has_demo-mark_demo k (text "health") w.store refl,
    has_demo-mark_demo k (text "exclusions") w.store refl,
    has_demo-mark_demo k (text "licensing") w.store refl,
    has_demo-mark_demo k (text "auditing") w.store refl,
    has_demo-mark_demo k (text "disks") w.store refl,
  )

  -- The audit data come well or not; a wave asks for them once.
  abbrev pub AuditsCome : Bool → Landing F U → Type 0
  AuditsCome b (audits none) = b ≡ false
  AuditsCome b (audits (some _)) = b ≡ true
  AuditsCome b _ = Unit

  audits_flag :
      (k : Text) (l : Landing F U) (w : World F U)
      → is_audits l ≡ true
      → has_demo (text "auditing") w.store ≡ false
      → has_demo k (land K zero_size bu l w).store ≡ (has_demo k w.store || flags k l)
  unfolding land
  audits_flag k l w h v = ground (
    arith,
    has_demo-clear_demo k (text "auditing") w.store refl,
    text_eq_iff (text "auditing") k,
    λ (e : text "auditing" ≡ k). ap (λ y. has_demo y w.store) e,
  )

  audits-unflagged :
      (b : Bool) (l : Landing F U) → AuditsCome b l → b ≡ true → flags (text "auditing") l ≡ false
  unfolding text_eq
  audits-unflagged b l h t = ground arith

  come-audits : (b : Bool) (l : Landing F U) → AuditsCome b l → is_audits l ≡ true → b ≡ true
  come-audits b l h t = ground arith

  any_flag :
      (b : Bool) (k : Text) (l : Landing F U) (w : World F U)
      → AuditsCome b l
      → (b ≡ true → has_demo (text "auditing") w.store ≡ false)
      → has_demo k (land K zero_size bu l w).store ≡ (has_demo k w.store || flags k l)
  any_flag b k l w c v = elim (Bool-cases (is_audits l)) [
    | inl e ↦ audits_flag k l w e (v (come-audits b l c e))
    | inr e ↦ one_flag k l w e
  ]

  still-unmarked :
      (b : Bool) (l : Landing F U) (w : World F U)
      → AuditsCome b l
      → (b ≡ true → has_demo (text "auditing") w.store ≡ false)
      → b ≡ true
      → has_demo (text "auditing") (land K zero_size bu l w).store ≡ false
  still-unmarked b l w c v t =
      let step = any_flag b (text "auditing") l w c v in
      let here = v t in let there = audits-unflagged b l c t in step ∙ rw (here, there) refl

  land_all-flags :
      (b : Bool) (k : Text) (ls : List (Landing F U)) (w : World F U)
      → All (AuditsCome b) ls
      → (b ≡ true → has_demo (text "auditing") w.store ≡ false)
      → has_demo k (land_all K zero_size bu ls w).store ≡ (has_demo k w.store || any (flags k) ls)
  unfolding land_all
  land_all-flags b k [] w c v = ground arith
  land_all-flags b k (l ∷ ls) w (c, cs) v =
      land_all-flags b k ls (land K zero_size bu l w) cs (still-unmarked b l w c v)
      ∙ rw (any_flag b k l w c v) (ground arith)

  -- In whatever order the answers of a wave land, a widget is marked as on demo data at its end exactly
  -- if one of its answers was turned down that is not passed over (as are the unmatched products, the
  -- exclusions' summary, the summary of the production disks and the user), where the audit data, if
  -- asked for, either always come or never do.
  pub run_fetches-flags :
      (b : Bool) (k : Text) (ls : List (Landing F U)) (w : World F U)
      → All (AuditsCome b) ls
      → has_demo k (run_fetches K zero_size bu ls w).store ≡ any (flags k) ls
  unfolding run_fetches clear_all_demo has_demo has
  run_fetches-flags b k ls w c =
      land_all-flags b k ls (record w { store = clear_all_demo w.store }) c (λ t. refl)
