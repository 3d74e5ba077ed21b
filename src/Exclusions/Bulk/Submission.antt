-- ===== src/Exclusions/Bulk/Submission.antt =====
-- What the bulk form's button sends.
use operations_api.Common.{
  ◌≡◌, true, false, none, some, List, Text, text, text_eq, is_empty, trim, refl, arith, Bool-cases,
  sym, ap, subst, ◌∙◌, ◌≢◌, or_text, inl, inr,
}
use operations_api.Dates.{Date}
use operations_api.DateKit.{Engine, iso_local, fmt_gb}
use operations_api.Router.{Browser}
use operations_api.Exclusions.{BulkPayload, BulkBody, bulk_exclude, posted, slug_of, held_date}
use operations_api.Exclusions.Wizard.{reason_ok, effective_reason}
use operations_api.Exclusions.Wizard.Filled.{Agree, unset, chosen}
use operations_api.Exclusions.Wizard.Posts.{
  Agree-date, held_date-filled, effective_reason-filled, or_text-filled, iso_local-filled,
}
use operations_api.Exclusions.Bulk.{
  Form, Page, Target, draw, type_other, bulk_ready, bulk_payload, target_of, sent, press, Change,
  Reached, scoped, grouped, placed, reasoned, dated, turned_back, turned_on, failed, dismissed,
  succeeded, unchanged, opened, changed, typed, pressed,
}

-- The text for "Other" is not seen by the button before the page is drawn again: on a page drawn
-- with "Other", a date and a blank text, typing a text that is not blank enables the button, and
-- the button then sends nothing; drawn again, it sends the text, trimmed, as the reason.
pub typed_reason :
    (groups envs : List Target) (f : Form) (t : Text)
    → f.reason ≡ text "Other"
    → is_empty (trim f.other_reason) ≡ true
    → is_empty f.until ≡ false
    → is_empty (trim t) ≡ false
    → let p = type_other t (draw groups envs f) in
      (p.enabled ≡ true)
      × (sent p ≡ none)
      × ((q : BulkPayload) × (sent (draw groups envs p.live) ≡ some q) × (q.reason ≡ trim t))
unfolding draw type_other sent bulk_ready bulk_payload reason_ok effective_reason text_eq
typed_reason groups envs f t h b d k = (
  rw (k, d) refl,
  rw (h, b) refl,
  (
    bulk_payload (draw groups envs (type_other t (draw groups envs f)).live),
    rw (h, k, d) refl,
    rw h (or_text-filled (trim t) (text "Other") k),
  ),
)

-- The live form and the drawn one.
pub record IsDrawn (E : Engine) (p : Page) : Type 0 where
  pub agrees : Agree E p.live.until p.live.until_iso
  pub same_date : p.drawn.until ≡ p.live.until

Change-Agree :
    (E : Engine) (today : Date) {f g : Form}
    → Change E today f g
    → Agree E f.until f.until_iso
    → Agree E g.until g.until_iso
Change-Agree E today (scoped s) v = v
Change-Agree E today (grouped g h) v = v
Change-Agree E today (placed e h) v = v
Change-Agree E today (reasoned r h) v = v
Change-Agree E today (dated d h) v = chosen d
Change-Agree E today turned_back v = v
Change-Agree E today turned_on v = v
Change-Agree E today (failed m) v = v
Change-Agree E today dismissed v = v
Change-Agree E today succeeded v = unset
Change-Agree E today unchanged v = v

Reached-IsDrawn : (E : Engine) (p : Page) → Reached E p → IsDrawn E p
unfolding draw type_other press
Reached-IsDrawn E p (opened groups envs) = record { agrees = unset; same_date = refl }
Reached-IsDrawn E p (changed groups envs today r c) =
    let v = Reached-IsDrawn E _ r in
    record { agrees = Change-Agree E today c v.agrees; same_date = refl }
Reached-IsDrawn E p (typed t r h) =
    let v = Reached-IsDrawn E _ r in record { agrees = v.agrees; same_date = v.same_date }
Reached-IsDrawn E p (pressed {p = q} r h) =
    let v = Reached-IsDrawn E q r in
    elim (Bool-cases (bulk_ready q.drawn)) [
      | inl ready ↦ rw ready record { agrees = v.agrees; same_date = v.same_date }
      | inr waits ↦ rw waits v
    ]

sent-eq : (p : Page) → bulk_ready p.drawn ≡ true → sent p ≡ some (bulk_payload p)
unfolding sent
sent-eq p h = rw h refl

sent-none : (p : Page) → bulk_ready p.drawn ≡ false → sent p ≡ none
unfolding sent
sent-none p h = rw h refl

some≢none : {A : Type 0} {a : A} → some a ≢ none
some≢none h = cc

some_injective : {A : Type 0} {a b : A} → some a ≡ some b → a ≡ b
some_injective h = cc

ready_parts :
    (f : Form)
    → bulk_ready f ≡ true
    → (reason_ok f.reason f.other_reason ≡ true) × (is_empty f.until ≡ false)
unfolding bulk_ready
ready_parts f h = (ground arith, ground arith)

sent-ready :
    (p : Page) (q : BulkPayload)
    → sent p ≡ some q
    → (bulk_ready p.drawn ≡ true) × (bulk_payload p ≡ q)
unfolding sent
sent-ready p q h = elim (Bool-cases (bulk_ready p.drawn)) [
  | inl ready ↦ (ready, some_injective (sym (sent-eq p ready) ∙ h))
  | inr waits ↦ elim (some≢none (sym h ∙ sent-none p waits)) [ ]
]

bulk_body_of : Browser → Engine → BulkPayload → Text → BulkBody
bulk_body_of B E p iso = record {
  kind = p.kind;
  target = p.target;
  reason = or_text p.reason (text "Bulk exclusion");
  reason_slug = slug_of B E p.reason_slug p.reason;
  held_until = iso;
}

bulk_exclude-posted :
    (B : Browser) (E : Engine) (p : BulkPayload) (iso : Text)
    → held_date B E p.until_iso p.until ≡ some iso
    → bulk_exclude B E p ≡ posted (bulk_body_of B E p iso)
unfolding bulk_exclude bulk_body_of
bulk_exclude-posted B E p iso h = rw (bulk_exclude, h) refl

-- The action posts one request for a payload of a page: for the scope and the target of the form,
-- with a reason that is not empty, held until the day that the page shows.
abbrev pub BulkSubmits : Browser → Engine → Page → BulkPayload → Type 0
BulkSubmits B E p q =
    (d : Date) × (body : BulkBody) × (bulk_exclude B E q ≡ posted body)
    × (body.kind ≡ p.live.scope)
    × (body.target ≡ target_of p.live)
    × (is_empty body.reason ≡ false)
    × (p.live.until ≡ fmt_gb E d)
    × (body.held_until ≡ iso_local d)

-- On every page that the bulk form reaches, a click that sends a payload makes the action post one
-- request: for the scope and the target of the form, with a reason that is not empty, held until
-- the day that the page shows.
pub bulk_submission :
    (B : Browser) (E : Engine) (p : Page) (q : BulkPayload)
    → Reached E p
    → sent p ≡ some q
    → BulkSubmits B E p q
unfolding bulk_payload bulk_ready bulk_body_of
bulk_submission B E p q r h =
    let v = Reached-IsDrawn E p r in
    let (ready, same) = sent-ready p q h in
    let (given_reason, filled) = ready_parts p.drawn ready in
    let (d, shown, iso) =
      Agree-date v.agrees (subst (λ u. is_empty u ≡ false) v.same_date filled) in
    let held : held_date B E (iso_local d) p.live.until ≡ some (iso_local d) =
      held_date-filled B E (iso_local d) p.live.until (iso_local-filled d) in
    let held = subst (λ i. held_date B E i p.live.until ≡ some (iso_local d)) (sym iso) held in
    let given = effective_reason-filled p.drawn.reason p.drawn.other_reason given_reason in
    let e : bulk_exclude B E q ≡ posted (bulk_body_of B E (bulk_payload p) (iso_local d)) =
      ap (bulk_exclude B E) (sym same)
      ∙ bulk_exclude-posted B E (bulk_payload p) (iso_local d) held in
    (
      d,
      bulk_body_of B E (bulk_payload p) (iso_local d),
      e,
      refl,
      refl,
      rw
          (or_text-filled (effective_reason p.drawn.reason p.drawn.other_reason)
            (text "Bulk exclusion") given)
          given,
      shown,
      refl,
    )
