-- ===== src/Exclusions/Wizard/Drawn.antt =====
-- Where every server has an FQDN, each drawing succeeds, and the controls stand for the form behind them.
use operations_api.Common.{
  ◌≡◌, ◌≢◌, false, Text, is_empty, refl, subst, ap, arith, Bool-cases, Option-cases, ◌==◌, List,
  inl, inr, Option, none, some, All, All-In, if_intro, trim,
}
use operations_api.DateKit.{Engine}
use operations_api.Router.{Browser}
use operations_api.Exclusions.{Server}
use operations_api.Exclusions.Wizard.{Add, reason_ok, hits, search}
use operations_api.Exclusions.Wizard.Selection.{search-none_iff}
use operations_api.Exclusions.Wizard.Pages.{
  Backdrop, View, Page, next, view_of, put_view, step_hits, redraw, redraw_shown,
}
use operations_api.Exclusions.Wizard.Filled.{IsFilled, at_second, at_third, at_fourth}

-- Every server of an inventory has an FQDN.
abbrev pub HasFqdns : List Server → Type 0
HasFqdns ss = All (λ (s : Server). s.fqdn ≢ none) ss

search-some : (B : Browser) (q : Text) (ss : List Server) → HasFqdns ss → search B q ss ≢ none
search-some B q ss h e =
    let (s, i, (without, missed)) = (search-none_iff B q ss).0 e in
    All-In (λ (t : Server). t.fqdn ≢ none) s ss h i without

hits-some : (B : Browser) (query : Text) (ss : List Server) → HasFqdns ss → hits B query ss ≢ none
unfolding hits
hits-some B query ss h =
    let q = B.lower (trim query) in
    elim (Bool-cases (is_empty q)) [
      | inl e ↦ rw e (λ g. cc)
      | inr e ↦ elim (Option-cases (search B q ss)) [
        | inl n ↦ absurd (search-some B q ss h n)
        | inr (found, f) ↦ rw (e, f) (λ g. cc)
      ]
    ]

-- What a drawn control relies on of the form behind it.
pub record Matches (f a : Add) : Type 0 where
  pub step : f.step ≡ a.step
  pub selected : f.selected_servers ≡ a.selected_servers
  pub reason : f.reason ≡ a.reason
  pub other_reason : f.step ≡ 4 → f.other_reason ≡ a.other_reason

Matches-refl : (a : Add) → Matches a a
Matches-refl a = record { step = refl; selected = refl; reason = refl; other_reason = λ h. refl }

pub record IsSound (E : Engine) (p : Page) : Type 0 where
  pub filled : IsFilled E p.live
  pub matched : (v : View) → p.view ≡ some v → Matches v.form p.live

step_hits-some :
    (B : Browser) (w : Backdrop) (a : Add) → HasFqdns w.servers → step_hits B w a ≢ none
unfolding step_hits
step_hits-some B w a h =
    if_intro (λ o. o ≢ none) (a.step == 1) (hits-some B a.server_query w.servers h) (λ e. cc)

put_view-IsSound :
    (E : Engine) (w : Backdrop) (a : Add) (o : Option (List Server)) (p : Page)
    → o ≢ none
    → IsFilled E a
    → IsSound E (put_view a (view_of w a o) p)
unfolding put_view view_of
put_view-IsSound E w a none p n f = absurd (n refl)
put_view-IsSound E w a (some hs) p n f = record {
  filled = f;
  matched = λ v e. subst (λ g. Matches g a) (form_of e) (Matches-refl a);
}
  where
    captured : Option View → Add
    captured none = a
    captured (some v) = v.form

    form_of : {u v : View} → some u ≡ some v → u.form ≡ v.form
    form_of e = ap captured e

pub redraw-IsSound :
    (B : Browser) (E : Engine) (w : Backdrop) (a : Add) (p : Page)
    → HasFqdns w.servers
    → IsFilled E a
    → IsSound E (redraw B w a p)
unfolding redraw
redraw-IsSound B E w a p h f = put_view-IsSound E w a (step_hits B w a) p (step_hits-some B w a h) f

pub redraw_shown-IsSound :
    (B : Browser) (E : Engine) (w : Backdrop) (a : Add) (p : Page)
    → HasFqdns w.servers
    → IsFilled E a
    → IsSound E (redraw_shown B w a p)
unfolding redraw_shown
redraw_shown-IsSound B E w a p h f = elim (Option-cases p.view) [
  | inl n ↦ rw n (record { filled = f; matched = λ v e. absurd (ground arith) })
  | inr (u, e) ↦ rw e (redraw-IsSound B E w a (record { live = p.live; view = some u }) h f)
]

-- The form that a click leads to, if it leads on, is filled.
abbrev pub Yields : Engine → Option Add → Type 0
Yields E none = Unit
Yields E (some b) = IsFilled E b

pub next-Yields :
    (E : Engine) (v : View) (a : Add) → Matches v.form a → IsFilled E a → Yields E (next v a)
unfolding next
next-Yields E v a m f = elim (Bool-cases (v.form.step == 1)) [
  | inl one ↦ elim (Bool-cases (is_empty v.form.selected_servers)) [
    | inl fails ↦ rw (one, fails) tt
    | inr holds ↦
        let live = subst (λ ss. is_empty ss ≡ false) m.selected holds in
        rw (one, holds) (at_second refl live f.agrees)
  ]
  | inr above_one ↦ elim (Bool-cases (v.form.step == 2)) [
    | inl two ↦ elim (Bool-cases (reason_ok a.reason a.other_reason)) [
      | inl holds ↦
          rw (above_one, two, holds)
            (at_third refl (f.has_servers (ground (arith, m.step))) holds f.agrees)
      | inr fails ↦ rw (above_one, two, fails) tt
    ]
    | inr above_two ↦ elim (Bool-cases (v.form.step == 3)) [
      | inl three ↦ elim (Bool-cases (is_empty a.until)) [
        | inl fails ↦ rw (above_one, above_two, three, fails) tt
        | inr holds ↦
            rw (above_one, above_two, three, holds)
              (at_fourth refl (f.has_servers (ground (arith, m.step)))
                (f.has_reason (ground (arith, m.step))) holds f.agrees)
      ]
      | inr above_three ↦ rw (above_one, above_two, above_three) tt
    ]
  ]
]
