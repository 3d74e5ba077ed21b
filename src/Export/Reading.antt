-- ===== src/Export/Reading.antt =====
-- An exported field, read the way RFC 4180 says, where a line feed alone ends a record too.
use operations_api.Common.{
  ℕ, ◌≡◌, refl, arith, Bool, true, false, ◌||◌, Option, none, some, [], ◌∷◌, ◌++◌, Text, ◌==◌,
  if◌then◌else◌, Bool-cases, any, inl, inr, ap, ◌∙◌, append_assoc,
}
use operations_api.Export.{is_special, double_quotes, quoted}

abbrev add : ℕ → Option (Text × Text) → Option (Text × Text)
add c o = elim o [ none ↦ none | some (t, r) ↦ some (c ∷ t, r) ]

-- The rest of a quoted field: what it holds, and what follows it; `none` where it does not end.
unfoldable pub read_quoted : Text → Option (Text × Text)
read_quoted [] = none
read_quoted (c ∷ []) = if c == b'"' then some ([], []) else none
read_quoted (c ∷ d ∷ s) =
    let after = read_quoted s in
    let next = read_quoted (d ∷ s) in
    if c == b'"' then (if d == b'"' then add b'"' after else some ([], d ∷ s)) else add c next

abbrev ends_field : ℕ → Bool
ends_field c = c == b',' || (c == 10 || c == 13)

-- A field without quotes, up to a comma or the end of the record; it holds no quote.
unfoldable pub read_plain : Text → Option (Text × Text)
read_plain [] = some ([], [])
read_plain (c ∷ s) =
    let next = read_plain s in
    if ends_field c then some ([], c ∷ s) else if c == b'"' then none else add c next

unfoldable pub read_field : Text → Option (Text × Text)
unfolding read_quoted read_plain
read_field [] = some ([], [])
read_field (c ∷ s) = if c == b'"' then read_quoted s else read_plain (c ∷ s)

-- A text without carriage returns.
abbrev pub HasNoReturn : Text → Type 0
HasNoReturn s = any (λ c. c == 13) s ≡ false

-- A field is followed by a comma, the end of a record or nothing.
abbrev pub IsAfterField : Text → Type 0
IsAfterField [] = Unit
IsAfterField (c ∷ s) = ends_field c ≡ true

read_quoted-close : (rest : Text) → IsAfterField rest → read_quoted (b'"' ∷ rest) ≡ some ([], rest)
unfolding read_quoted
read_quoted-close [] h = refl
read_quoted-close (d ∷ r) h = ground arith

read_quoted-cons :
    (c : ℕ) (s : Text) (d : ℕ) (t : Text)
    → (c == b'"') ≡ false
    → read_quoted (c ∷ (s ++ d ∷ t)) ≡ add c (read_quoted (s ++ d ∷ t))
unfolding read_quoted
read_quoted-cons c [] d t h = rw h refl
read_quoted-cons c (e ∷ s) d t h = rw h refl

double_lem : (t : Text) → read_quoted (b'"' ∷ b'"' ∷ t) ≡ add b'"' (read_quoted t)
unfolding read_quoted
double_lem t = refl

read_quoted-double :
    (s rest : Text)
    → IsAfterField rest
    → read_quoted (double_quotes s ++ b'"' ∷ rest) ≡ some (s, rest)
unfolding double_quotes
read_quoted-double [] rest h = read_quoted-close rest h
read_quoted-double (c ∷ s) rest h = elim (Bool-cases (c == b'"')) [
  | inl quote ↦
      let same : c ≡ b'"' = ground arith in
      rw (quote, same)
        (double_lem (double_quotes s ++ b'"' ∷ rest) ∙ ap (add b'"') (read_quoted-double s rest h))
  | inr other ↦ rw other (
      read_quoted-cons c (double_quotes s) b'"' rest other
      ∙ ap (add c) (read_quoted-double s rest h))
]

read_plain-append :
    (s rest : Text)
    → is_special s ≡ false
    → HasNoReturn s
    → IsAfterField rest
    → read_plain (s ++ rest) ≡ some (s, rest)
unfolding read_plain
read_plain-append [] [] h n k = refl
read_plain-append [] (c ∷ r) h n k = rw k refl
read_plain-append (c ∷ s) rest h n k =
    let inner = read_plain-append s rest (ground arith) (ground arith) k in
    let plain : ends_field c ≡ false = ground arith in
    let bare : (c == b'"') ≡ false = ground arith in rw (plain, bare, inner) refl

unquoted :
    (t r : Text)
    → is_special t ≡ false
    → HasNoReturn t
    → IsAfterField r
    → read_field (t ++ r) ≡ some (t, r)
unfolding read_field
unquoted [] [] a n b = refl
unquoted [] (c ∷ r) a n b =
    let not_quote : (c == b'"') ≡ false = ground arith in rw (not_quote, b) refl
unquoted (c ∷ t) r a n b =
    let not_quote : (c == b'"') ≡ false = ground arith in
    let plain : ends_field c ≡ false = ground arith in
    let inner = read_plain-append t r (ground arith) (ground arith) b in
    rw (not_quote, plain, inner) refl

-- An exported field of a text without carriage returns, followed by a comma, the end of a record or
-- nothing, is read back as the text that was exported, with what follows it left.
pub read_field-quoted :
    (s rest : Text)
    → HasNoReturn s
    → IsAfterField rest
    → read_field (quoted s ++ rest) ≡ some (s, rest)
unfolding read_field quoted
read_field-quoted s rest n h = elim (Bool-cases (is_special s)) [
  | inl special ↦
      rw (special, append_assoc (double_quotes s) (b'"' ∷ []) rest) (read_quoted-double s rest h)
  | inr simple ↦ rw simple (unquoted s rest simple n h)
]
