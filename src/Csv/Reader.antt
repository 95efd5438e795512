-- ===== src/Csv/Reader.antt =====
-- A reader of comma-separated values after RFC 4180, which takes a line feed, a carriage return or both
-- as the end of a record, written apart from the exporter.
use sigecat_oraculos.Prelude.{ℕ, ◌==◌, List, [], ◌∷◌, Text, if◌then◌else◌}

-- Where the reader stands in a field: at its first unit, inside a plain field, inside quotes,
-- behind a quote that may close the field, or behind a carriage return.
pub data Mode : Type 0 where
  begin plain quoted closing returned : Mode

-- one more unit at the front of the first field
abbrev pub unit : ℕ → List (List Text) → List (List Text)
unit c ((f ∷ fs) ∷ rs) = ((c ∷ f) ∷ fs) ∷ rs
unit c rs = ((c ∷ []) ∷ []) ∷ rs

-- an empty field before the first one
abbrev pub field : List (List Text) → List (List Text)
field (r ∷ rs) = ([] ∷ r) ∷ rs
field [] = ([] ∷ []) ∷ []

-- an empty record before the first one
abbrev pub line : List (List Text) → List (List Text)
line rs = ([] ∷ []) ∷ rs

unfoldable pub read_from : Mode → Text → List (List Text)
read_from m [] = ([] ∷ []) ∷ []
read_from begin (c ∷ s) =
    let inside = read_from quoted s in
    let next_field = field (read_from begin s) in
    let next_line = line (read_from begin s) in
    let next_return = line (read_from returned s) in
    let more = unit c (read_from plain s) in
    if c == b'"'
    then inside
    else if c == b','
    then next_field
    else if c == 10
    then next_line
    else if c == 13
    then next_return
    else more
read_from plain (c ∷ s) =
    let next_field = field (read_from begin s) in
    let next_line = line (read_from begin s) in
    let next_return = line (read_from returned s) in
    let more = unit c (read_from plain s) in
    if c == b','
    then next_field
    else if c == 10
    then next_line
    else if c == 13
    then next_return
    else more
read_from quoted (c ∷ s) =
    let close = read_from closing s in
    let more = unit c (read_from quoted s) in if c == b'"' then close else more
read_from closing (c ∷ s) =
    let quote = unit c (read_from quoted s) in
    let next_field = field (read_from begin s) in
    let next_line = line (read_from begin s) in
    let next_return = line (read_from returned s) in
    let more = unit c (read_from plain s) in
    if c == b'"'
    then quote
    else if c == b','
    then next_field
    else if c == 10
    then next_line
    else if c == 13
    then next_return
    else more
read_from returned (c ∷ s) =
    let inside = read_from quoted s in
    let next_field = field (read_from begin s) in
    let next_return = line (read_from returned s) in
    let more = unit c (read_from plain s) in
    let same = read_from begin s in
    if c == 10
    then same
    else if c == b'"'
    then inside
    else if c == b','
    then next_field
    else if c == 13
    then next_return
    else more

unfoldable pub read_csv : Text → List (List Text)
unfolding read_from
read_csv s = read_from begin s
