-- ===== src/Exclusions/Wizard/Posts.antt =====
-- What the wizard's last button sends.
use operations_api.Common.{
  ℕ, ◌≡◌, false, true, not, List, [], ◌∷◌, ◌++◌, some, Text, text, is_empty, refl, arith, text_eq,
  filter, map, or_text, trim, All, ◌==◌, ◌≤◌, ap, decimal, subst, Bool-cases, inl, inr, sym,
}
use operations_api.Dates.{Date}
use operations_api.DateKit.{Engine, iso_local, fmt_gb}
use operations_api.Router.{Browser}
use operations_api.Exclusions.{
  Server, Payload, Body, posted, add_exclusion, post_for, some_text, slug_of, held_date,
}
use operations_api.Exclusions.Wizard.{Add, reason_ok, effective_reason, payload}
use operations_api.Exclusions.Wizard.Pages.{View, Page, Reachable}
use operations_api.Exclusions.Wizard.Filled.{Agree, unset, chosen}
use operations_api.Exclusions.Wizard.Drawn.{HasFqdns}
use operations_api.Exclusions.Wizard.Invariant.{Reachable-IsSound}

abbrev pub ids : List Server → List ℕ
ids ss = map (λ (s : Server). s.id) ss

-- Every server has a database id other than 0.
abbrev pub HasIds : List Server → Type 0
HasIds ss = All (λ (s : Server). (s.id == 0) ≡ false) ss

filter-ids : (ss : List Server) → HasIds ss → filter (λ i. not (i == 0)) (ids ss) ≡ ids ss
filter-ids [] h = refl
filter-ids (s ∷ ss) h = rw (h.0, filter-ids ss h.1) refl

is_empty-ids : (ss : List Server) → is_empty (ids ss) ≡ is_empty ss
is_empty-ids [] = refl
is_empty-ids (s ∷ ss) = refl

or_text-other : (s : Text) → is_empty (or_text s (text "Other")) ≡ false
or_text-other [] = refl
or_text-other (c ∷ s) = refl

pub effective_reason-filled :
    (r o : Text) → reason_ok r o ≡ true → is_empty (effective_reason r o) ≡ false
unfolding reason_ok effective_reason
effective_reason-filled r o h = elim (Bool-cases (text_eq r (text "Other"))) [
  | inl other ↦ rw (effective_reason, other) (or_text-other (trim o))
  | inr listed ↦ rw (effective_reason, listed) (ground (arith, h))
]

pub or_text-filled : (s d : Text) → is_empty s ≡ false → or_text s d ≡ s
or_text-filled [] d h = cc
or_text-filled (c ∷ s) d h = refl

is_empty-append : (s : Text) (c : ℕ) (t : Text) → is_empty (s ++ c ∷ t) ≡ false
is_empty-append [] c t = refl
is_empty-append (d ∷ s) c t = refl

pub iso_local-filled : (d : Date) → is_empty (iso_local d) ≡ false
unfolding iso_local
iso_local-filled d = is_empty-append (decimal d.year) 45 _

pub Agree-date :
    {E : Engine} {u i : Text}
    → Agree E u i
    → is_empty u ≡ false
    → (d : Date) × (u ≡ fmt_gb E d) × (i ≡ iso_local d)
Agree-date unset h = cc
Agree-date (chosen d) h = (d, refl, refl)

pub held_date-filled :
    (B : Browser) (E : Engine) (i u : Text) → is_empty i ≡ false → held_date B E i u ≡ some i
held_date-filled B E [] u h = cc
held_date-filled B E (c ∷ i) u h = refl

abbrev body_of : Browser → Engine → Payload → Text → Body
body_of B E p iso = record {
  server_ids = ids p.servers;
  reason = or_text p.reason (text "Exclusion");
  reason_slug = slug_of B E p.reason_slug p.reason;
  notes = some_text p.notes;
  held_until = iso;
}

post_for_lem :
    (B : Browser) (E : Engine) (p : Payload) (iso : Text)
    → HasIds p.servers
    → is_empty p.servers ≡ false
    → post_for B E p iso ≡ posted (body_of B E p iso)
unfolding post_for
post_for_lem B E p iso k f = rw (filter-ids p.servers k, is_empty-ids p.servers, f) refl

add_exclusion-posted :
    (B : Browser) (E : Engine) (p : Payload) (iso : Text)
    → held_date B E p.until_iso p.until ≡ some iso
    → HasIds p.servers
    → is_empty p.servers ≡ false
    → add_exclusion B E p ≡ posted (body_of B E p iso)
unfolding add_exclusion
add_exclusion-posted B E p iso h k f = rw (add_exclusion, h) (post_for_lem B E p iso k f)

-- The button posts one request: for the selected servers, all of them and at least one, with a
-- reason that is not empty, held until the day that the page shows.
abbrev pub Submits : Browser → Engine → View → Add → Type 0
Submits B E v a =
    (d : Date) × (body : Body) × (add_exclusion B E (payload v.form a) ≡ posted body)
    × (body.server_ids ≡ ids a.selected_servers)
    × (is_empty body.server_ids ≡ false)
    × (is_empty body.reason ≡ false)
    × (a.until ≡ fmt_gb E d)
    × (body.held_until ≡ iso_local d)

-- On every page that the wizard reaches and that shows the confirmation, where every server of the
-- inventories that are drawn has an FQDN and the selected servers have ids other than 0, the button
-- posts one request: for the selected servers, all of them and at least one, with a reason that is not
-- empty, held until the day that the page shows.
pub submission :
    (B : Browser) (E : Engine) (p : Page) (v : View)
    → Reachable B E HasFqdns p
    → p.view ≡ some v
    → v.form.step ≡ 4
    → HasIds p.live.selected_servers
    → Submits B E v p.live
unfolding payload
submission B E p v r e h k =
    let a = p.live in
    let f = v.form in
    let s = Reachable-IsSound B E p r in
    let m = s.matched v e in
    let at : 4 ≤ a.step = omega (arith, h, m.step) in
    let (d, shown, sent) = Agree-date s.filled.agrees (s.filled.has_date at) in
    let some_servers : is_empty f.selected_servers ≡ false =
      subst (λ ss. is_empty ss ≡ false) (sym m.selected) (s.filled.has_servers (omega arith)) in
    let with_ids : HasIds f.selected_servers = subst HasIds (sym m.selected) k in
    let same_reason : reason_ok f.reason f.other_reason ≡ true =
      subst (λ t. reason_ok t f.other_reason ≡ true) (sym m.reason)
        (subst (λ t. reason_ok a.reason t ≡ true) (sym (m.other_reason h))
          (s.filled.has_reason (omega arith))) in
    let reasoned = effective_reason-filled f.reason f.other_reason same_reason in
    let held : held_date B E (iso_local d) a.until ≡ some (iso_local d) =
      held_date-filled B E (iso_local d) a.until (iso_local-filled d) in
    let held = subst (λ i. held_date B E i a.until ≡ some (iso_local d)) (sym sent) held in
    (
      d,
      body_of B E (payload f a) (iso_local d),
      add_exclusion-posted B E (payload f a) (iso_local d) held with_ids some_servers,
      ap ids m.selected,
      rw (is_empty-ids f.selected_servers) some_servers,
      rw (or_text-filled (effective_reason f.reason f.other_reason) (text "Exclusion") reasoned)
          reasoned,
      shown,
      refl,
    )
