-- ===== src/Console/Status.antt =====
-- What the console's state says of the errors, and of the alerts.
use operations_api.Common.{
  ℕ, zero, suc, ◌+◌, ◌≡◌, refl, ap, sym, ◌≢◌, ◌↔◌, ◌⊎◌, inl, inr, Bool, false, not, ◌||◌, none,
  some, List, [], ◌∷◌, ◌++◌, map, arith, Text, text, filter, length, length-append, any-append,
  starts_with, text_eq, text_eq_iff, has, has_iff, In, In-append, In-filter, join, Bool-cases, ◌==◌,
  ==_iff, text_eq_refl, leb, if_intro, All,
}
use operations_api.Api.{Store, record_once, add_api_error, record_http_error, path_error}
use operations_api.Api.Errors.{IsApiPath, path_error-starts_with}
use operations_api.Console.{
  Floats, Alert, ApiState, is_blanket, has_blanket, api_state, merge_alerts, count_tone, banner,
  signature, raw_banner, is_dismissed, label_of, Window, recent, console_state,
}

has_blanket-snoc :
    (errs : List Text) (v : Text)
    → has_blanket (errs ++ v ∷ []) ≡ (has_blanket errs || is_blanket v)
unfolding has_blanket
has_blanket-snoc errs v = ground (arith, any-append is_blanket errs (v ∷ []))

record_once-has_blanket :
    (q m : Text) (s : Store)
    → is_blanket m ≡ false
    → has_blanket (record_once q m s).api_errors ≡ has_blanket s.api_errors
unfolding record_once add_api_error
record_once-has_blanket q m s h = ground (arith, has_blanket-snoc s.api_errors m)

path_error-is_blanket :
    (path : Text) (status : ℕ) → IsApiPath path → is_blanket (path_error path status) ≡ false
unfolding is_blanket
path_error-is_blanket path status valid = ground (
  arith,
  path_error-starts_with path status b'A' (text "uthentication") valid,
  path_error-starts_with path status b'N' (text "etwork") valid,
  path_error-starts_with path status b'R' (text "equest") valid,
)

-- An answer with any status but 401 neither switches the console to "API unreachable" nor back.
pub record_http_error-has_blanket :
    (path : Text) (status : ℕ) (s : Store)
    → IsApiPath path
    → status ≢ 401
    → has_blanket (record_http_error path status s).api_errors ≡ has_blanket s.api_errors
unfolding record_http_error is_blanket starts_with add_api_error
record_http_error-has_blanket path status s valid ne = elim (Bool-cases (status == 401)) [
  | inl e ↦ absurd (ne ((==_iff status 401).0 e))
  | inr e ↦ rw e (
      if_intro Same (status == 403) (record_once-has_blanket _ _ s refl) (
        if_intro Same (status == 429) (record_once-has_blanket _ _ s refl) (
          if_intro Same (leb 500 status) (record_once-has_blanket _ _ s refl) (
            ground (
              arith,
              has_blanket-snoc s.api_errors (path_error path status),
              path_error-is_blanket path status valid,
            )))))
]
  where
    Same : Store → Type 0
    Same t = has_blanket t.api_errors ≡ has_blanket s.api_errors

length-join-snoc :
    (sep v : Text) (e : Text) (errs : List Text)
    → length (join sep ((e ∷ errs) ++ v ∷ []))
      ≡ length (join sep (e ∷ errs)) + length sep + length v
unfolding join
length-join-snoc sep v e [] = ground (arith, length-append e (sep ++ v), length-append sep v)
length-join-snoc sep v e (e' ∷ errs) = ground (
  arith,
  length-append e (sep ++ join sep (e' ∷ (errs ++ v ∷ []))),
  length-append sep (join sep (e' ∷ (errs ++ v ∷ []))),
  length-append e (sep ++ join sep (e' ∷ errs)),
  length-append sep (join sep (e' ∷ errs)),
  length-join-snoc sep v e' errs,
)

signature-snoc :
    (e v : Text) (errs : List Text) → signature ((e ∷ errs) ++ v ∷ []) ≢ signature (e ∷ errs)
unfolding signature
signature-snoc e v errs h =
    absurd (omega (arith, length-join-snoc (text "|") v e errs, ap length h))

raw_banner-ne-none :
    (e : Text) (errs : List Text) (ud : Bool)
    → raw_banner (api_state (e ∷ errs)) (e ∷ errs) ud ≢ none
unfolding raw_banner api_state
raw_banner-ne-none e errs ud = ground arith

-- With errors recorded, the banner shows unless it was dismissed; dismissing it hides it for this
-- list of errors; and it shows again as soon as one more error is recorded.
pub banner_dismissal :
    (e v : Text) (errs : List Text) (using_demo : Bool)
    → (banner (e ∷ errs) using_demo none ≢ none)
      × (banner (e ∷ errs) using_demo (some (signature (e ∷ errs))) ≡ none)
      × (banner ((e ∷ errs) ++ v ∷ []) using_demo (some (signature (e ∷ errs))) ≢ none)
unfolding banner is_dismissed
banner_dismissal e v errs ud = (
  raw_banner-ne-none e errs ud,
  rw (text_eq_refl (signature (e ∷ errs))),
  elim (Bool-cases (text_eq (signature (e ∷ errs)) (signature ((e ∷ errs) ++ v ∷ [])))) [
    | inl same ↦ absurd (signature-snoc e v errs (sym ((text_eq_iff _ _).0 same)))
    | inr other ↦ rw other (raw_banner-ne-none e (errs ++ v ∷ []) ud)
  ],
)

-- An alert of the merged list is a server-side one, or a derived one whose id no server-side one has.
pub In-merge_alerts :
    (x : Alert) (base derived : List Alert)
    → In x (merge_alerts base derived)
      ↔ (In x base ⊎ (In x derived × ¬ In x.id (map (λ (a : Alert). a.id) base)))
unfolding merge_alerts
In-merge_alerts x base derived = grind (
  arith,
  In-append x base
      (filter (λ (d : Alert). not (has d.id (map (λ (a : Alert). a.id) base))) derived),
  In-filter (λ (d : Alert). not (has d.id (map (λ (a : Alert). a.id) base))) x derived,
  has_iff x.id (map (λ (a : Alert). a.id) base),
)

count_tone-eq-zero :
    (tone : Text) (alerts : List Alert)
    → (count_tone tone alerts ≡ 0) ↔ All (λ a. a.tone ≢ tone) alerts
unfolding count_tone
count_tone-eq-zero tone [] = (λ e. tt, λ u. refl)
count_tone-eq-zero tone (a ∷ alerts) =
    ground (arith, count_tone-eq-zero tone alerts, text_eq_iff a.tone tone)

api_state-eq-ok_iff : (errs : List Text) → (api_state errs ≡ ApiState.ok) ↔ (errs ≡ [])
unfolding api_state
api_state-eq-ok_iff [] = (λ e. refl, λ e. refl)
api_state-eq-ok_iff (e ∷ errs) = ground arith

label_of-healthy_iff :
    (state : ApiState) (crits warns : ℕ)
    → (label_of state crits warns ≡ text "All healthy")
      ↔ ((state ≡ ApiState.ok) × (crits ≡ 0) × (warns ≡ 0))
unfolding label_of
label_of-healthy_iff ApiState.off crits warns = ground arith
label_of-healthy_iff ApiState.warn crits warns = ground arith
label_of-healthy_iff ApiState.ok (suc crits) warns = ground arith
label_of-healthy_iff ApiState.ok zero (suc warns) = ground arith
label_of-healthy_iff ApiState.ok zero zero = ground arith

-- The console says "All healthy" exactly if no error is recorded and no alert, server-side or
-- derived from the disks, has the tone `crit` or `warn`.
pub healthy_iff :
    {F : Floats} (w : Window F)
    → ((console_state w).label ≡ text "All healthy") ↔ (
        (w.api_errors ≡ [])
        × All (λ a. a.tone ≢ text "crit") (recent w)
        × All (λ a. a.tone ≢ text "warn") (recent w))
unfolding console_state
healthy_iff w = ground (
  arith,
  label_of-healthy_iff (api_state w.api_errors) (count_tone (text "crit") (recent w))
      (count_tone (text "warn") (recent w)),
  api_state-eq-ok_iff w.api_errors,
  count_tone-eq-zero (text "crit") (recent w),
  count_tone-eq-zero (text "warn") (recent w),
)
