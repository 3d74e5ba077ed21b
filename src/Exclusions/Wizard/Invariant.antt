-- ===== src/Exclusions/Wizard/Invariant.antt =====
-- The wizard never reaches a step whose earlier steps are not filled in.
use operations_api.Common.{ℕ, ◌<◌, ◌≡◌, refl, sym, ◌∙◌, subst, arith, [], none, some}
use operations_api.DateKit.{Engine}
use operations_api.Router.{Browser}
use operations_api.Exclusions.Calendar.{earlier, later}
use operations_api.Exclusions.Wizard.{Add, toggle, select_visible, choose}
use operations_api.Exclusions.Wizard.Pages.{
  fresh_page, Backdrop, View, Page, Move, Reachable, opened, refreshed, left, queried, toggled,
  all_visible, cleared, next_pressed, back_to, reason_picked, other_typed, preset_picked,
  day_picked, turned_back, turned_on, noted, submitted, dismissed, failed, succeeded, fresh, moved,
}
use operations_api.Exclusions.Wizard.Filled.{unset, chosen, IsFilled, at_first, at_second, at_third}
use operations_api.Exclusions.Wizard.Drawn.{
  HasFqdns, Matches, IsSound, Yields, redraw-IsSound, redraw_shown-IsSound, next-Yields,
}

fresh-IsSound : {E : Engine} → IsSound E fresh_page
fresh-IsSound = record { filled = at_first refl unset; matched = λ v e. absurd (ground arith) }

module _ (B : Browser) (E : Engine) where
  -- Typing and the like change neither the steps nor what the controls hold.
  typed-IsSound :
      (p : Page) (a : Add)
      → IsSound E p
      → IsFilled E a
      → ((f : Add) → Matches f p.live → Matches f a)
      → IsSound E (record p { live = a })
  typed-IsSound p a s f m = record { filled = f; matched = λ v e. m v.form (s.matched v e) }

  -- A step of the drawn page is the step of the form.
  at_step :
      (p : Page) (v : View) (n : ℕ)
      → IsSound E p
      → p.view ≡ some v
      → v.form.step ≡ n
      → p.live.step ≡ n
  at_step p v n s e h = let m = s.matched v e in sym m.step ∙ h

  Move-IsSound :
      (w : Backdrop) {p q : Page} → HasFqdns w.servers → Move B E w p q → IsSound E p → IsSound E q
  unfolding choose
  Move-IsSound w {p = p} h (opened e) s = redraw-IsSound B E w p.live p h s.filled
  Move-IsSound w {p = p} h refreshed s = redraw_shown-IsSound B E w p.live p h s.filled
  Move-IsSound w h left s = record { filled = s.filled; matched = λ v e. absurd (ground arith) }
  Move-IsSound w {p = p} h (queried {v = v} q e k) s =
      redraw-IsSound B E w (record p.live { server_query = q }) p h
        (at_first (at_step p v 1 s e k) s.filled.agrees)
  Move-IsSound w {p = p} h (toggled {v = v} t e k l) s =
      redraw-IsSound B E w (record p.live { selected_servers = toggle t p.live.selected_servers }) p
        h (at_first (at_step p v 1 s e k) s.filled.agrees)
  Move-IsSound w {p = p} h (all_visible {v = v} e k l) s =
      redraw-IsSound B E w
        (record p.live {
          selected_servers = select_visible v.all_selected v.hits p.live.selected_servers;
        })
        p h (at_first (at_step p v 1 s e k) s.filled.agrees)
  Move-IsSound w {p = p} h (cleared {v = v} e k l) s =
      redraw-IsSound B E w (record p.live { selected_servers = [] }) p h
        (at_first (at_step p v 1 s e k) s.filled.agrees)
  Move-IsSound w {p = p} h (next_pressed {v = v} {a = a} e k) s =
      redraw-IsSound B E w a p h
        (subst (Yields E) k (next-Yields E v p.live (s.matched v e) s.filled))
  Move-IsSound w {p = p} h (back_to {v = v} n e k l) s =
      let f = s.filled in
      let below : n < p.live.step = subst (λ m. n < m) (s.matched v e).step l in
      redraw-IsSound B E w (record p.live { step = n }) p h
        (record {
          from_first = k;
          to_fourth = omega (arith, f.to_fourth);
          has_servers = λ m. f.has_servers (omega arith);
          has_reason = λ m. f.has_reason (omega arith);
          has_date = λ m. f.has_date (omega arith);
          agrees = f.agrees;
        })
  Move-IsSound w {p = p} h (reason_picked {v = v} r e k l) s =
      let at = at_step p v 2 s e k in
      redraw-IsSound B E w (record p.live { reason = r }) p h
        (at_second at (s.filled.has_servers (omega arith)) s.filled.agrees)
  Move-IsSound w {p = p} h (other_typed {v = v} t e k l) s =
      let at = at_step p v 2 s e k in
      typed-IsSound p (record p.live { other_reason = t }) s
        (at_second at (s.filled.has_servers (omega arith)) s.filled.agrees)
        (λ f m. record {
          step = m.step;
          selected = m.selected;
          reason = m.reason;
          other_reason = λ g. absurd (omega (arith, at, m.step));
        })
  Move-IsSound w {p = p} h (preset_picked {v = v} d e k l) s =
      let at = at_step p v 3 s e k in
      redraw-IsSound B E w (choose E d p.live) p h (
        at_third at (s.filled.has_servers (omega arith)) (s.filled.has_reason (omega arith))
          (chosen d))
  Move-IsSound w {p = p} h (day_picked {v = v} d e k l) s =
      let at = at_step p v 3 s e k in
      redraw-IsSound B E w (choose E d p.live) p h (
        at_third at (s.filled.has_servers (omega arith)) (s.filled.has_reason (omega arith))
          (chosen d))
  Move-IsSound w {p = p} h (turned_back e k) s =
      redraw-IsSound B E w (record p.live { cal_offset = earlier p.live.cal_offset }) p h s.filled
  Move-IsSound w {p = p} h (turned_on e k) s =
      redraw-IsSound B E w (record p.live { cal_offset = later p.live.cal_offset }) p h s.filled
  Move-IsSound w {p = p} h (noted t e k) s =
      typed-IsSound p (record p.live { notes = t }) s s.filled
        (λ f m. record {
          step = m.step;
          selected = m.selected;
          reason = m.reason;
          other_reason = m.other_reason;
        })
  Move-IsSound w {p = p} h (submitted e k) s =
      typed-IsSound p (record p.live { error = none }) s s.filled
        (λ f m. record {
          step = m.step;
          selected = m.selected;
          reason = m.reason;
          other_reason = m.other_reason;
        })
  Move-IsSound w {p = p} h (dismissed e k) s =
      redraw-IsSound B E w (record p.live { error = none }) p h s.filled
  Move-IsSound w {p = p} h (failed m) s =
      redraw_shown-IsSound B E w (record p.live { error = some m }) p h s.filled
  Move-IsSound w h succeeded s = fresh-IsSound

  pub Reachable-IsSound : (p : Page) → Reachable B E HasFqdns p → IsSound E p
  Reachable-IsSound p fresh = fresh-IsSound
  Reachable-IsSound q (moved {p = p} w h r m) = Move-IsSound w h m (Reachable-IsSound p r)

  -- While every server of the inventories that are drawn has an FQDN, on every page that the wizard
  -- reaches the step is one of 1 to 4; from step 2 on servers are selected, from step 3 on the reason
  -- passes the check, at step 4 a date is set; and the shown and the sent date are texts of one same day,
  -- or both are empty.
  pub Reachable-IsFilled : (p : Page) → Reachable B E HasFqdns p → IsFilled E p.live
  Reachable-IsFilled p r = (Reachable-IsSound p r).filled
