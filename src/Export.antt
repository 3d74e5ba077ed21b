-- ===== src/Export.antt =====
-- frontend/js/op-pages.js, exportCsv: the text of the exported file. A missing value is `none`.
pub mod Reading
pub mod Tests
use operations_api.Common.{
  Bool, true, false, ◌||◌, Option, none, some, List, [], ◌∷◌, ◌++◌, Text, text, any, map, join,
  ◌==◌, if◌then◌else◌,
}

-- `/[",\n]/`
abbrev pub is_special : Text → Bool
is_special s = any (λ c. c == b'"' || (c == b',' || c == 10)) s

-- `s.replace(/"/g, '""')`
unfoldable pub double_quotes : Text → Text
double_quotes [] = []
double_quotes (c ∷ s) =
    let rest = double_quotes s in if c == b'"' then b'"' ∷ b'"' ∷ rest else c ∷ rest

-- `esc` of a text
unfoldable pub quoted : Text → Text
quoted s = if is_special s then b'"' ∷ (double_quotes s ++ b'"' ∷ []) else s

abbrev pub escape : Option Text → Text
escape none = []
escape (some s) = quoted s

module _ {A : Type 0} where
  csv_row : List (A → Option Text) → A → Text
  csv_row cols r = join (text ",") (map (λ (c : A → Option Text). escape (c r)) cols)

  -- The header is the columns' names, which are not escaped.
  unfoldable pub csv : List Text → List (A → Option Text) → List A → Text
  unfolding csv_row
  csv names cols rows = join (10 ∷ []) (join (text ",") names ∷ map (csv_row cols) rows)
