-- ===== src/Exclusions/Wizard/Filled.antt =====
-- What the steps of the wizard need of one another.
use operations_api.Common.{ℕ, ◌≤◌, ◌≡◌, false, true, Text, is_empty, arith, [], List}
use operations_api.Dates.{Date}
use operations_api.DateKit.{Engine, iso_local, fmt_gb}
use operations_api.Exclusions.{Server}
use operations_api.Exclusions.Wizard.{Add, reason_ok}

-- The chosen date, written for the page and for the request.
pub data Agree (E : Engine) : Text → Text → Type 0 where
  unset : Agree E [] []
  chosen : (d : Date) → Agree E (fmt_gb E d) (iso_local d)

-- What a step needs of the earlier ones.
pub record Filled (E : Engine) (step : ℕ) (servers : List Server) (reason other until iso : Text)
    : Type 0 where
  pub from_first : 1 ≤ step
  pub to_fourth : step ≤ 4
  pub has_servers : 2 ≤ step → is_empty servers ≡ false
  pub has_reason : 3 ≤ step → reason_ok reason other ≡ true
  pub has_date : 4 ≤ step → is_empty until ≡ false
  pub agrees : Agree E until iso

abbrev pub IsFilled : Engine → Add → Type 0
IsFilled E a = Filled E a.step a.selected_servers a.reason a.other_reason a.until a.until_iso

module _ {E : Engine} {step : ℕ} {servers : List Server} {reason other until iso : Text} where
  pub at_first : step ≡ 1 → Agree E until iso → Filled E step servers reason other until iso
  at_first h g = record {
    from_first = omega arith;
    to_fourth = omega arith;
    has_servers = λ m. ground arith;
    has_reason = λ m. ground arith;
    has_date = λ m. ground arith;
    agrees = g;
  }

  pub at_second :
      step ≡ 2
      → is_empty servers ≡ false
      → Agree E until iso
      → Filled E step servers reason other until iso
  at_second h s g = record {
    from_first = omega arith;
    to_fourth = omega arith;
    has_servers = λ _. s;
    has_reason = λ m. ground arith;
    has_date = λ m. ground arith;
    agrees = g;
  }

  pub at_third :
      step ≡ 3
      → is_empty servers ≡ false
      → reason_ok reason other ≡ true
      → Agree E until iso
      → Filled E step servers reason other until iso
  at_third h s r g = record {
    from_first = omega arith;
    to_fourth = omega arith;
    has_servers = λ _. s;
    has_reason = λ _. r;
    has_date = λ m. ground arith;
    agrees = g;
  }

  pub at_fourth :
      step ≡ 4
      → is_empty servers ≡ false
      → reason_ok reason other ≡ true
      → is_empty until ≡ false
      → Agree E until iso
      → Filled E step servers reason other until iso
  at_fourth h s r u g = record {
    from_first = omega arith;
    to_fourth = omega arith;
    has_servers = λ _. s;
    has_reason = λ _. r;
    has_date = λ _. u;
    agrees = g;
  }
