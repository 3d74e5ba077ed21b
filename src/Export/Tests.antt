-- ===== src/Export/Tests.antt =====
-- The export at concrete inputs.
use operations_api.Common.{◌≡◌, refl, some, ◌++◌, text, Text, ◌∷◌}
use operations_api.Export.{quoted}
use operations_api.Export.Reading.{read_field, read_field-quoted}

-- A vendor's name with a comma and quotes.
abbrev vendor : Text
vendor = text "Contoso, \"UK\""

read_field-quoted_example : read_field (quoted vendor ++ text ",42") ≡ some (vendor, text ",42")
read_field-quoted_example = read_field-quoted vendor (text ",42") refl refl

-- A carriage return is not quoted, and ends the field that is read.
return_test : read_field (quoted (text "a" ++ 13 ∷ text "b")) ≡ some (text "a", 13 ∷ text "b")
unfolding quoted operations_api.Export.Reading.read_field operations_api.Export.Reading.read_plain
return_test = refl
